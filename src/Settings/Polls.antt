-- ===== src/Settings/Polls.antt =====
-- What a poll of settings/manager.go sees of the table: all that is newer than the last time seen,
-- and nothing else.
use omkit_go.Prelude.{
  String, ◌≡◌, refl, ap, ◌∙◌, false, Option, List, [], ◌∷◌, map, if◌then◌else◌, All, Bool-cases,
  arith, inl, inr,
}
use omkit_go.Prelude.Int.{ℤ, ltb_ℤ, ◌≤ℤ◌, leb_ℤ}
use omkit_go.Settings.{
  Manager, Row, Scanned, unreadable, scanned, answered, apply_change, later, poll_rows, poll_once,
  poll_answer, select, saw, zero_time,
}

-- The new row at its place in the table.
unfoldable pub insert_row : Row → List Row → List Row
insert_row new [] = new ∷ []
insert_row new (r ∷ rows) =
    let rest = insert_row new rows in
    if ltb_ℤ new.updated_at r.updated_at then new ∷ r ∷ rows else r ∷ rest

select-insert_row :
    (since : ℤ) (new : Row) (rows : List Row)
    → new.updated_at ≤ℤ since
    → select since (insert_row new rows) ≡ select since rows
unfolding select insert_row
select-insert_row since new [] h = ground arith
select-insert_row since new (r ∷ rows) h = ground (arith, h, select-insert_row since new rows h)

-- A row whose time is not after the last one seen, as a transaction that began earlier may commit
-- later, is not seen by a poll, which does what it does without the row.
pub poll_once-late :
    (unmarshal : String → Option String) (new : Row) (table : List Row) (m : Manager)
    → new.updated_at ≤ℤ m.poll_last_seen
    → poll_once unmarshal (poll_answer (insert_row new table) m) m
      ≡ poll_once unmarshal (poll_answer table m) m
unfolding poll_answer
poll_once-late unmarshal new table m h =
    ap (λ (rows : List Row). poll_once unmarshal (answered (map (λ r. scanned r) rows) false) m)
      (select-insert_row m.poll_last_seen new table h)

-- The latest of the times.
abbrev pub newest : ℤ → List Row → ℤ
newest t [] = t
newest t (r ∷ rows) = newest (later r.updated_at t) rows

poll_rows-newest :
    (unmarshal : String → Option String) (rows : List Row) (m : Manager) (t : ℤ)
    → (poll_rows unmarshal (map (λ r. scanned r) rows) m t).1.0 ≡ newest t rows
unfolding poll_rows apply_change
poll_rows-newest unmarshal [] m t = refl
poll_rows-newest unmarshal (r ∷ rows) m t = elim (Bool-cases r.is_secret) [
  | inl s ↦ rw s (poll_rows-newest unmarshal rows m _)
  | inr s ↦ rw s (poll_rows-newest unmarshal rows _ _)
]

later-le : (u t : ℤ) → (u ≤ℤ later u t) × (t ≤ℤ later u t)
unfolding later
later-le u t = ground arith

newest-le : (t : ℤ) (rows : List Row) → t ≤ℤ newest t rows
newest-le t [] = omega arith
newest-le t (r ∷ rows) =
    omega (arith, newest-le (later r.updated_at t) rows, (later-le r.updated_at t).1)

abbrev pub UpTo : ℤ → Row → Type 0
UpTo t r = r.updated_at ≤ℤ t

select-newest :
    (since t : ℤ) (rows : List Row) → All (UpTo (newest t (select since rows))) (select since rows)
unfolding select
select-newest since t [] = tt
select-newest since t (r ∷ rows) = elim (Bool-cases (ltb_ℤ since r.updated_at)) [
  | inl n ↦ rw n (
    omega
        (arith, newest-le (later r.updated_at t) (select since rows), (later-le r.updated_at t).0),
    select-newest since (later r.updated_at t) rows,
  )
  | inr o ↦ rw o (select-newest since t rows)
]

select_none :
    (since last : ℤ) (rows : List Row)
    → since ≤ℤ last
    → All (UpTo last) (select since rows)
    → select last rows ≡ []
unfolding select
select_none since last [] h a = refl
select_none since last (r ∷ rows) h a = elim (Bool-cases (ltb_ℤ since r.updated_at)) [
  | inl n ↦
      let (old, a') : (r.updated_at ≤ℤ last) × All (UpTo last) (select since rows) = rw n at a in
      ground (arith, old, select_none since last rows h a')
  | inr o ↦ ground (arith, o, h, select_none since last rows h (rw o at a))
]

UpTo-le : (t u : ℤ) (rows : List Row) → t ≤ℤ u → All (UpTo t) rows → All (UpTo u) rows
UpTo-le t u [] h a = tt
UpTo-le t u (r ∷ rows) h (b, bs) = (omega (arith, b, h), UpTo-le t u rows h bs)

pub poll_rows-last_seen :
    (unmarshal : String → Option String) (rows : List Scanned) (m : Manager) (t : ℤ)
    → (poll_rows unmarshal rows m t).0.poll_last_seen ≡ m.poll_last_seen
unfolding poll_rows apply_change
poll_rows-last_seen unmarshal [] m t = refl
poll_rows-last_seen unmarshal (unreadable ∷ rows) m t = poll_rows-last_seen unmarshal rows m t
poll_rows-last_seen unmarshal (scanned r ∷ rows) m t = elim (Bool-cases r.is_secret) [
  | inl s ↦ rw s (poll_rows-last_seen unmarshal rows m _)
  | inr s ↦ rw s (poll_rows-last_seen unmarshal rows _ _)
]

-- What the poll writes, by the latest time.
pub saw-last_seen :
    (latest : ℤ) (m : Manager)
    → (saw latest m).poll_last_seen ≡ (if ltb_ℤ zero_time latest then latest else m.poll_last_seen)
unfolding saw
saw-last_seen latest m = ground arith

nothing_newer :
    (since last : ℤ) (rows : List Row)
    → zero_time ≤ℤ since
    → last ≡ newest zero_time (select since rows)
    → select (if ltb_ℤ zero_time last then last else since) rows ≡ []
nothing_newer since last rows h e =
    let covered : All (UpTo last) (select since rows) = rw e (select-newest since zero_time rows) in
    let if_old : last ≤ℤ since → select since rows ≡ [] = λ o.
      select_none since since rows (omega arith)
        (UpTo-le last since (select since rows) o covered) in
    elim (Bool-cases (ltb_ℤ zero_time last)) [
      | inr z ↦ rw z (if_old (ground (arith, z, h)))
      | inl z ↦ rw z (elim (Bool-cases (leb_ℤ since last)) [
        | inl le ↦ select_none since last rows (ground (arith, le)) covered
        | inr gt ↦
            let empty = if_old (ground (arith, gt)) in
            absurd
              (let l : last ≡ zero_time = e ∙ ap (newest zero_time) empty in ground (arith, l, z))
      ])
    ]

poll_once-idle :
    (unmarshal : String → Option String) (m : Manager)
    → poll_once unmarshal (answered [] false) m ≡ (m, ([], false))
unfolding poll_once poll_rows saw
poll_once-idle unmarshal m = refl

-- After a poll that nothing disturbs, the last time seen having started at the zero time or later,
-- no row of the table is newer than the last time seen, and another poll of the same table changes
-- nothing, calls no listener and returns no error.
pub poll_once-settles :
    (unmarshal : String → Option String) (table : List Row) (m : Manager)
    → zero_time ≤ℤ m.poll_last_seen
    → let m' = (poll_once unmarshal (poll_answer table m) m).0 in
      (select m'.poll_last_seen table ≡ [])
      × (poll_once unmarshal (poll_answer table m') m' ≡ (m', ([], false)))
unfolding poll_once poll_answer
poll_once-settles unmarshal table m h =
    let rows = select m.poll_last_seen table in
    let done = poll_rows unmarshal (map (λ r. scanned r) rows) m zero_time in
    let m' = saw done.1.0 done.0 in
    let seen : m'.poll_last_seen
        ≡ (if ltb_ℤ zero_time done.1.0 then done.1.0 else m.poll_last_seen) =
      saw-last_seen done.1.0 done.0
      ∙ ap (λ (t : ℤ). if ltb_ℤ zero_time done.1.0 then done.1.0 else t)
          (poll_rows-last_seen unmarshal _ m zero_time) in
    let nothing : select m'.poll_last_seen table ≡ [] =
      ap (λ (t : ℤ). select t table) seen
      ∙ nothing_newer m.poll_last_seen done.1.0 table h
          (poll_rows-newest unmarshal rows m zero_time) in
    (nothing, rw nothing (poll_once-idle unmarshal m'))

-- ===== src/Sessions/Listing.antt =====
-- What List of sessions/postgres.go returns.
use omkit_go.Prelude.{
  String, ◌≡◌, ◌⊎◌, inl, inr, refl, true, false, ◌&&◌, Option, none, some, if◌then◌else◌, List, [],
  ◌∷◌, Map, lookup, All, ◌==◌, Bool-cases, arith, eq_iff,
}
use omkit_go.Prelude.Int.{ℤ, ◌<ℤ◌, ◌≤ℤ◌, ltb_ℤ}
use omkit_go.Sessions.{Session, Columns, insert_by_created, select_tenant, list}

-- A live session of the tenant.
abbrev pub Lives : ℤ → String → Session → Type 0
Lives now id s = (s.tenant_id ≡ id) × (now <ℤ s.expires_at)

abbrev pub Newest : List Session → Type 0
Newest [] = Unit
Newest (s ∷ []) = Unit
Newest (s ∷ t ∷ rest) = (t.created_at ≤ℤ s.created_at) × Newest (t ∷ rest)

abbrev pub Lists : Session → List Session → Type 0
Lists row [] = ⊥
Lists row (s ∷ rest) = (s ≡ row) ⊎ Lists row rest

insert-All :
    (P : Session → Type 0) (s : Session) (xs : List Session)
    → P s
    → All P xs
    → All P (insert_by_created s xs)
unfolding insert_by_created
insert-All P s [] p a = (p, tt)
insert-All P s (x ∷ xs) p (q, a) = elim (Bool-cases (ltb_ℤ s.created_at x.created_at)) [
  | inl t ↦ rw t (q, insert-All P s xs p a)
  | inr f ↦ rw f (p, (q, a))
]

insert-Lists :
    (s row : Session) (xs : List Session) → Lists row xs → Lists row (insert_by_created s xs)
unfolding insert_by_created
insert-Lists s row [] l = absurd l
insert-Lists s row (x ∷ xs) l = elim (Bool-cases (ltb_ℤ s.created_at x.created_at)) [
  | inr f ↦ rw f (inr l)
  | inl t ↦ rw t (elim l [ inl e ↦ inl e | inr more ↦ inr (insert-Lists s row xs more) ])
]

insert-itself : (s : Session) (xs : List Session) → Lists s (insert_by_created s xs)
unfolding insert_by_created
insert-itself s [] = inl refl
insert-itself s (x ∷ xs) = elim (Bool-cases (ltb_ℤ s.created_at x.created_at)) [
  | inr f ↦ rw f (inl refl)
  | inl t ↦ rw t (inr (insert-itself s xs))
]

-- A session that is older than the first goes somewhere behind it.
insert-Newest_behind :
    (first s : Session) (xs : List Session)
    → s.created_at ≤ℤ first.created_at
    → Newest (first ∷ xs)
    → Newest (first ∷ insert_by_created s xs)
unfolding insert_by_created
insert-Newest_behind first s [] h n = (h, tt)
insert-Newest_behind first s (x ∷ xs) h (k, n) =
    elim (Bool-cases (ltb_ℤ s.created_at x.created_at)) [
      | inl t ↦ rw t (k, insert-Newest_behind x s xs (ground (arith, t)) n)
      | inr f ↦ rw f (h, (ground (arith, f), n))
    ]

insert-Newest : (s : Session) (xs : List Session) → Newest xs → Newest (insert_by_created s xs)
unfolding insert_by_created
insert-Newest s [] n = tt
insert-Newest s (x ∷ xs) n = elim (Bool-cases (ltb_ℤ s.created_at x.created_at)) [
  | inl t ↦ rw t (insert-Newest_behind x s xs (ground (arith, t)) n)
  | inr f ↦ rw f (ground (arith, f), n)
]

select-Lives :
    (now : ℤ) (id : String) (table : Map Session)
    → All (Lives now id) (select_tenant now id table) × Newest (select_tenant now id table)
unfolding select_tenant
select-Lives now id [] = (tt, tt)
select-Lives now id ((k, row) ∷ table) =
    let (a, n) = select-Lives now id table in
    elim (Bool-cases (row.tenant_id == id && ltb_ℤ now row.expires_at)) [
      | inr f ↦ rw f (a, n)
      | inl t ↦
          let lives : Lives now id row =
            (ground (arith, t, eq_iff row.tenant_id id), ground (arith, t)) in
          rw t (insert-All (Lives now id) row _ lives a, insert-Newest row _ n)
    ]

found_row : (a b : Session) → some a ≡ some b → a ≡ b
found_row a b e = ground (arith, e)

select-Lists :
    (now : ℤ) (id k : String) (row : Session) (table : Map Session)
    → lookup k table ≡ some row
    → Lives now id row
    → Lists row (select_tenant now id table)
unfolding select_tenant lookup
select-Lists now id k row [] e h = absurd (ground (arith, e))
select-Lists now id k row ((j, r) ∷ table) e h =
    let others = select_tenant now id table in
    elim (Bool-cases (j == k)) [
      | inl same ↦
          let it : r ≡ row = found_row r row (ground (arith, e, same)) in
          let test : (r.tenant_id == id && ltb_ℤ now r.expires_at) ≡ true =
            rw it (ground (arith, h.0, h.1, eq_iff row.tenant_id id)) in
          rw test (rw it (insert-itself row others))
      | inr other ↦
          let later = select-Lists now id k row table (ground (arith, e, other)) h in
          elim (Bool-cases (r.tenant_id == id && ltb_ℤ now r.expires_at)) [
            | inl t ↦ rw t (insert-Lists r row others later)
            | inr f ↦ rw f later
          ]
    ]

-- What is asked of a row of the table, if there is one.
abbrev pub ListsLive : ℤ → String → Option Session → List Session → Type 0
ListsLive now id none listed = Unit
ListsLive now id (some row) listed =
    if row.tenant_id == id && ltb_ℤ now row.expires_at then Lists row listed else Unit

select-ListsLive :
    (now : ℤ) (id k : String) (table : Map Session) (found : Option Session)
    → lookup k table ≡ found
    → ListsLive now id found (select_tenant now id table)
select-ListsLive now id k table none e = tt
select-ListsLive now id k table (some row) e =
    elim (Bool-cases (row.tenant_id == id && ltb_ℤ now row.expires_at)) [
      | inl t ↦ rw t (
          select-Lists now id k row table e
            (ground (arith, t, eq_iff row.tenant_id id), ground (arith, t)))
      | inr f ↦ rw f tt
    ]

-- List, where nothing fails and the tenant's id is one that the column keeps, returns no error and
-- only sessions of the tenant that have not expired, the newest first; where the row under a token
-- is one of these, it is among them.
pub list-Lists :
    (cols : Columns) (now : ℤ) (id k : String) (table : Map Session)
    → cols.uuid id ≡ some id
    → let listed = list cols none now id table in
      (listed.1 ≡ false)
      × All (Lives now id) listed.0
      × Newest listed.0
      × ListsLive now id (lookup k table) listed.0
unfolding list
list-Lists cols now id k table u =
    let (a, n) = select-Lives now id table in
    rw (list, u) (refl, a, n, select-ListsLive now id k table (lookup k table) refl)

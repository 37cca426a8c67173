-- ===== src/Eventbus/Subscription/Bounds.antt =====
-- What bounds the ids of the table and the offset of a topic, before and after a poll.
use omkit_go.Prelude.{
  All, All-append, All-weaken, Among, ℕ, zero, suc, ◌≤◌, ◌<◌, String, ◌≡◌, refl, ap, ◌⊎◌, inl, inr,
  Bool, ◌&&◌, Option, none, some, List, [], ◌∷◌, ◌++◌, take, lookup, lookup-insert_self, ltb,
  Bool-cases, arith, ◌==◌,
}
use omkit_go.Prelude.Int.{ℤ, pos_part, neg_part}
use omkit_go.Eventbus.{
  Event, PostgresConfig, Stage, Tables, batch, deliver, finish, matching, poll_once, set_offset,
  with_bus_role,
}
use omkit_go.Eventbus.Delivery.{Accepted, deliver-some, pending-some}
use omkit_go.Eventbus.Order.{Ascending, last_id}
use omkit_go.Eventbus.Subscription.{accepted_by, arrive}

abbrev pub AtMost : ℕ → List Event → Type 0
AtMost n es = All (λ (e : Event). e.id ≤ n) es

abbrev pub Above : ℕ → List Event → Type 0
Above n es = All (λ (e : Event). n < e.id) es

pub Ascending-Above : (n m : ℕ) (es : List Event) → m ≤ n → Ascending n es → Above m es
Ascending-Above n m [] h a = tt
Ascending-Above n m (e ∷ es) h (lt, a) = (omega arith, Ascending-Above e.id m es (omega arith) a)

pub last_id-ge : (n : ℕ) (es : List Event) → Ascending n es → n ≤ last_id n es
last_id-ge n [] a = omega arith
last_id-ge n (e ∷ es) (lt, a) = omega (arith, last_id-ge e.id es a)

Ascending-AtMost : (n : ℕ) (es : List Event) → Ascending n es → AtMost (last_id n es) es
Ascending-AtMost n [] a = tt
Ascending-AtMost n (e ∷ es) (lt, a) = (last_id-ge e.id es a, Ascending-AtMost e.id es a)

Ascending-append :
    (m n : ℕ) (xs ys : List Event)
    → m ≤ n
    → Ascending m xs
    → AtMost n xs
    → Ascending n ys
    → Ascending m (xs ++ ys)
Ascending-append m n [] [] h a b c = tt
Ascending-append m n [] (y ∷ ys) h a b (lt, c) = (omega arith, c)
Ascending-append m n (x ∷ xs) ys h (lt, a) (le, b) c = (lt, Ascending-append x.id n xs ys le a b c)

pub matching-append :
    (topic : String) (last : ℕ) (xs ys : List Event)
    → matching topic last (xs ++ ys) ≡ matching topic last xs ++ matching topic last ys
unfolding matching
matching-append topic last [] ys = refl
matching-append topic last (x ∷ xs) ys = ground (arith, matching-append topic last xs ys)

-- Of events above both offsets the same are selected.
pub matching-Above :
    (topic : String) (last next : ℕ) (es : List Event)
    → Above last es
    → Above next es
    → matching topic last es ≡ matching topic next es
unfolding matching
matching-Above topic last next [] h k = refl
matching-Above topic last next (e ∷ es) (lt, h) (lt', k) =
    ground (arith, lt, lt', matching-Above topic last next es h k)

AtMost-matching :
    (topic : String) (last n : ℕ) (es : List Event)
    → AtMost n es
    → AtMost n (matching topic last es)
unfolding matching
AtMost-matching topic last n [] h = tt
AtMost-matching topic last n (e ∷ es) (le, h) =
    elim (Bool-cases (e.topic == topic && ltb last e.id)) [
      | inl t ↦ rw t (le, AtMost-matching topic last n es h)
      | inr t ↦ rw t (AtMost-matching topic last n es h)
    ]

last_id-take : (m n k : ℕ) (es : List Event) → m ≤ n → AtMost n es → last_id m (take k es) ≤ n
last_id-take m n zero es h a = h
last_id-take m n (suc k) [] h a = h
last_id-take m n (suc k) (e ∷ es) h (le, a) = last_id-take e.id n k es le a

pub Among-accepted_by :
    (handler : Event → Bool) (e : Event) (es : List Event)
    → Accepted handler es
    → Among e es
    → Among e (accepted_by handler es)
unfolding accepted_by
Among-accepted_by handler e [] a h = h
Among-accepted_by handler e (x ∷ es) (t, a) (inl same) = rw t (inl same)
Among-accepted_by handler e (x ∷ es) (t, a) (inr h) =
    rw t (inr (Among-accepted_by handler e es a h))

-- The ids of the table grow, up to `n`, and the topic has an offset that is not above `n`.
pub record Bounded (topic : String) (n : ℕ) (db : Tables) : Type 0 where
  pub ascending : Ascending 0 db.events
  pub at_most : AtMost n db.events
  pub last : ℕ
  pub offset : lookup topic db.offsets ≡ some last
  pub within : last ≤ n

pub Bounded-arrive :
    (topic : String) (n : ℕ) (db : Tables) (es : List Event)
    → Bounded topic n db
    → Ascending n es
    → Bounded topic (last_id n es) (arrive es db)
Bounded-arrive topic n db es b a =
    let more = last_id-ge n es a in
    record {
      ascending = Ascending-append 0 n db.events es (omega arith) b.ascending b.at_most a;
      at_most =
          All-append (λ (e : Event). e.id ≤ last_id n es) db.events es
            (All-weaken (λ e h. omega (arith, more, h)) db.events b.at_most)
            (Ascending-AtMost n es a);
      last = b.last;
      offset = b.offset;
      within = omega (arith, more, b.within);
    }

finish-tables :
    (update : Option Stage) (topic : String) (db : Tables) (top : ℕ) (r : List Event × Option ℕ)
    → ((l : ℕ) → r.1 ≡ some l → l ≡ top)
    → ((finish update topic db r).tables ≡ db)
      ⊎ ((finish update topic db r).tables ≡ set_offset topic top db)
unfolding finish with_bus_role
finish-tables update topic db top (seen, none) h = inl refl
finish-tables (some stage) topic db top (seen, some l) h = inl (ground arith)
finish-tables none topic db top (seen, some l) h = elim (Bool-cases (ltb 0 l)) [
  | inl p ↦ inr (rw p (ap (λ (n : ℕ). set_offset topic n db) (h l refl)))
  | inr z ↦ inl (rw z refl)
]

poll_once-tables :
    (cfg : PostgresConfig) (query update : Option Stage) (handler : Event → Bool) (topic : String)
    (db : Tables)
    → ((poll_once cfg query update handler topic db).tables ≡ db)
      ⊎ ((poll_once cfg query update handler topic db).tables
          ≡ set_offset topic (last_id 0 (batch topic cfg.batch_size db)) db)
unfolding poll_once
poll_once-tables cfg (some stage) update handler topic db = inl refl
poll_once-tables cfg none update handler topic db =
    let b = batch topic cfg.batch_size db in
    elim (Bool-cases (ltb 0 (neg_part cfg.batch_size))) [
      | inl neg ↦ inl (rw neg refl)
      | inr ok ↦ rw ok (
          finish-tables update topic db (last_id 0 b) (deliver handler 0 b)
            (λ l e. (deliver-some handler 0 l b e).1))
    ]

last_id-batch :
    (topic : String) (limit : ℤ) (n : ℕ) (db : Tables)
    → Bounded topic n db
    → last_id 0 (batch topic limit db) ≤ n
unfolding batch
last_id-batch topic limit n db b = rw (pending-some topic db b.last b.offset) (
    last_id-take 0 n (pos_part limit) (matching topic b.last db.events) (omega arith)
      (AtMost-matching topic b.last n db.events b.at_most))

set_offset-Bounded :
    (topic : String) (n top : ℕ) (db : Tables)
    → Bounded topic n db
    → top ≤ n
    → Bounded topic n (set_offset topic top db) × ((set_offset topic top db).events ≡ db.events)
unfolding set_offset
set_offset-Bounded topic n top db b h =
    rw (b.offset, set_offset)
      (
        record {
          ascending = b.ascending;
          at_most = b.at_most;
          last = top;
          offset = lookup-insert_self topic top db.offsets;
          within = h;
        },
        refl,
      )

-- A poll keeps the rows, and leaves an offset within the bound.
pub poll_once-Bounded :
    (cfg : PostgresConfig) (query update : Option Stage) (handler : Event → Bool) (topic : String)
    (n : ℕ) (db : Tables)
    → Bounded topic n db
    → Bounded topic n (poll_once cfg query update handler topic db).tables
      × ((poll_once cfg query update handler topic db).tables.events ≡ db.events)
poll_once-Bounded cfg query update handler topic n db b =
    elim (poll_once-tables cfg query update handler topic db) [
      | inl e ↦ rw e (b, refl)
      | inr e ↦ rw e (
          set_offset-Bounded topic n (last_id 0 (batch topic cfg.batch_size db)) db b
            (last_id-batch topic cfg.batch_size n db b))
    ]

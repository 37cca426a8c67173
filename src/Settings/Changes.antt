-- ===== src/Settings/Changes.antt =====
-- What the rows of a query change: the last value of each key that is not secret, and the listeners
-- that hear of it.
use omkit_go.Prelude.{
  ℕ, String, ◌≡◌, ◌≢◌, ◌⊎◌, inl, inr, refl, ap, ◌∙◌, Bool, true, false, Option, none, some, List,
  [], ◌∷◌, ◌++◌, Map, lookup, insert, if◌then◌else◌, ◌==◌, All, lookup-insert, Bool-cases, arith,
  eq_iff,
}
use omkit_go.Prelude.Int.{ℤ}
use omkit_go.Settings.{
  Manager, Answer, query_failed, Scanned, unreadable, scanned, Fired, answered, apply_change, fire,
  listeners_of, value_of, later, poll_rows, poll_once, saw, load_rows, load_from_db, zero_time,
}

-- The keys and values of the rows that are readable and not secret: the value is the text that the
-- row's JSON decodes to, or the JSON where it is no text.
unfoldable pub public : (String → Option String) → List Scanned → List (String × String)
public unmarshal [] = []
public unmarshal (unreadable ∷ rows) = public unmarshal rows
public unmarshal (scanned r ∷ rows) =
    let rest = public unmarshal rows in
    let value : String = elim (unmarshal r.value_json) [ none ↦ r.value_json | some text ↦ text ] in
    if r.is_secret then rest else (r.key, value) ∷ rest

-- The value of a key after the given assignments.
unfoldable pub assigned : String → List (String × String) → Option String → Option String
assigned k [] old = old
assigned k ((j, v) ∷ ps) old = assigned k ps (if j == k then some v else old)

-- One call for each of the listeners of a key, with the key and the value.
abbrev pub calls : String → String → List ℕ → List Fired
calls k v [] = []
calls k v (f ∷ fs) = record { listener = f; key = k; value = v } ∷ calls k v fs

-- The calls of the listeners that are registered for each key, in the order of the assignments.
unfoldable pub announced : Map (List ℕ) → List (String × String) → List Fired
announced listeners [] = []
announced listeners ((j, v) ∷ ps) =
    let rest = announced listeners ps in
    elim (lookup j listeners) [ none ↦ rest | some fns ↦ calls j v fns ++ rest ]

fire-calls : (k v : String) (fns : List ℕ) → fire k v fns ≡ calls k v fns
unfolding fire
fire-calls k v [] = refl
fire-calls k v (f ∷ fns) =
    ap (λ (fs : List Fired). record { listener = f; key = k; value = v } ∷ fs) (fire-calls k v fns)

fire-announced :
    (k v : String) (listeners : Map (List ℕ)) (ps : List (String × String))
    → fire k v (listeners_of k listeners) ++ announced listeners ps
      ≡ announced listeners ((k, v) ∷ ps)
unfolding announced listeners_of fire
fire-announced k v listeners ps = by_found (lookup k listeners)
  where
    by_found :
        (found : Option (List ℕ))
        → fire k v (elim found [ none ↦ [] | some fns ↦ fns ]) ++ announced listeners ps
          ≡ elim found [
            | none ↦ announced listeners ps
            | some fns ↦ calls k v fns ++ announced listeners ps
          ]
    by_found none = refl
    by_found (some fns) =
        ap (λ (fs : List Fired). fs ++ announced listeners ps) (fire-calls k v fns)

pub poll_rows-lookup :
    (unmarshal : String → Option String) (k : String) (rows : List Scanned) (m : Manager)
    (latest : ℤ)
    → lookup k (poll_rows unmarshal rows m latest).0.cache
      ≡ assigned k (public unmarshal rows) (lookup k m.cache)
unfolding poll_rows public assigned apply_change value_of
poll_rows-lookup unmarshal k [] m latest = refl
poll_rows-lookup unmarshal k (unreadable ∷ rows) m latest =
    poll_rows-lookup unmarshal k rows m latest
poll_rows-lookup unmarshal k (scanned r ∷ rows) m latest = elim (Bool-cases r.is_secret) [
  | inl s ↦ rw s (poll_rows-lookup unmarshal k rows m _)
  | inr s ↦ rw s (
      let value = value_of unmarshal r.value_json in
      poll_rows-lookup unmarshal k rows (record m { cache = insert r.key value m.cache }) _
      ∙ ap (assigned k (public unmarshal rows)) (lookup-insert r.key k value m.cache))
]

load_rows-lookup :
    (unmarshal : String → Option String) (k : String) (rows : List Scanned) (m : Manager)
    → lookup k (load_rows unmarshal rows m).cache
      ≡ assigned k (public unmarshal rows) (lookup k m.cache)
unfolding load_rows public assigned value_of
load_rows-lookup unmarshal k [] m = refl
load_rows-lookup unmarshal k (unreadable ∷ rows) m = load_rows-lookup unmarshal k rows m
load_rows-lookup unmarshal k (scanned r ∷ rows) m = elim (Bool-cases r.is_secret) [
  | inl s ↦ rw s (load_rows-lookup unmarshal k rows _)
  | inr s ↦ rw s (
      let value = value_of unmarshal r.value_json in
      load_rows-lookup unmarshal k rows (record m {
        cache = insert r.key value m.cache;
        poll_last_seen = later r.updated_at m.poll_last_seen;
      })
      ∙ ap (assigned k (public unmarshal rows)) (lookup-insert r.key k value m.cache))
]

poll_rows-fired :
    (unmarshal : String → Option String) (rows : List Scanned) (m : Manager) (latest : ℤ)
    → (poll_rows unmarshal rows m latest).1.1 ≡ announced m.listeners (public unmarshal rows)
unfolding poll_rows public announced apply_change value_of
poll_rows-fired unmarshal [] m latest = refl
poll_rows-fired unmarshal (unreadable ∷ rows) m latest = poll_rows-fired unmarshal rows m latest
poll_rows-fired unmarshal (scanned r ∷ rows) m latest = elim (Bool-cases r.is_secret) [
  | inl s ↦ rw s (poll_rows-fired unmarshal rows m _)
  | inr s ↦ rw s (
      let value = value_of unmarshal r.value_json in
      ap (λ (fs : List Fired). fire r.key value (listeners_of r.key m.listeners) ++ fs)
        (poll_rows-fired unmarshal rows (record m { cache = insert r.key value m.cache }) _)
      ∙ fire-announced r.key value m.listeners (public unmarshal rows))
]

saw-cache : (latest : ℤ) (m : Manager) → (saw latest m).cache ≡ m.cache
unfolding saw
saw-cache latest m = ground arith

-- A poll whose query is answered gives every key the value of its last readable row that is not
-- secret, or else leaves it, and calls each listener that is registered for the key of such a row
-- once with the value of the row, in the order of the rows and, for one row, in that of their list.
-- The value is the text that the row's JSON decodes to, or the JSON where it is no text.
pub poll_once_lem :
    (unmarshal : String → Option String) (rows : List Scanned) (ended : Bool) (m : Manager)
    → let polled = poll_once unmarshal (answered rows ended) m in
      ((k : String)
        → lookup k polled.0.cache ≡ assigned k (public unmarshal rows) (lookup k m.cache))
      × (polled.1.0 ≡ announced m.listeners (public unmarshal rows))
      × (polled.1.1 ≡ ended)
unfolding poll_once
poll_once_lem unmarshal rows ended m = (
  λ k. ap (lookup k) (saw-cache _ _) ∙ poll_rows-lookup unmarshal k rows m zero_time,
  poll_rows-fired unmarshal rows m zero_time,
  refl,
)

-- A row that is unreadable, secret, or of another key.
abbrev pub Hides : String → Scanned → Type 0
Hides k unreadable = Unit
Hides k (scanned r) = (r.is_secret ≡ true) ⊎ (r.key ≢ k)

assigned-Hides :
    (unmarshal : String → Option String) (k : String) (rows : List Scanned) (old : Option String)
    → All (Hides k) rows
    → assigned k (public unmarshal rows) old ≡ old
unfolding public assigned
assigned-Hides unmarshal k [] old h = refl
assigned-Hides unmarshal k (unreadable ∷ rows) old (h, hs) = assigned-Hides unmarshal k rows old hs
assigned-Hides unmarshal k (scanned r ∷ rows) old (h, hs) = elim (Bool-cases r.is_secret) [
  | inl s ↦ rw s (assigned-Hides unmarshal k rows old hs)
  | inr s ↦ rw s (
      let other : (r.key == k) ≡ false = ground (arith, h, s, eq_iff r.key k) in
      rw (assigned, other) (assigned-Hides unmarshal k rows old hs))
]

load_from_db-rows :
    (unmarshal : String → Option String) (rows : List Scanned) (ended : Bool) (m : Manager)
    → m.db ≡ true
    → load_from_db unmarshal (answered rows ended) m ≡ (load_rows unmarshal rows m, ended)
unfolding load_from_db
load_from_db-rows unmarshal rows ended m h = ground (arith, h)

load_from_db-nil :
    (unmarshal : String → Option String) (rows : List Scanned) (ended : Bool) (m : Manager)
    → m.db ≡ false
    → load_from_db unmarshal (answered rows ended) m ≡ (m, true)
unfolding load_from_db
load_from_db-nil unmarshal rows ended m h = ground (arith, h)

-- Of the answer to a query.
abbrev pub HidesIn : String → Answer → Type 0
HidesIn k query_failed = Unit
HidesIn k (answered rows ended) = All (Hides k) rows

-- A key all of whose readable rows in the answer to the query are secret keeps what the cache has
-- under it, be it nothing, in every poll and every load, also where the query fails, its rows are cut
-- short or there is no database.
pub secrets-Hides :
    (unmarshal : String → Option String) (k : String) (answer : Answer) (m : Manager)
    → HidesIn k answer
    → (lookup k (poll_once unmarshal answer m).0.cache ≡ lookup k m.cache)
      × (lookup k (load_from_db unmarshal answer m).0.cache ≡ lookup k m.cache)
unfolding poll_once load_from_db
secrets-Hides unmarshal k query_failed m h = (refl, refl)
secrets-Hides unmarshal k (answered rows ended) m h = (
  (poll_once_lem unmarshal rows ended m).0 k ∙ assigned-Hides unmarshal k rows _ h,
  elim (Bool-cases m.db) [
    | inl t ↦
        ap (λ (r : Manager × Bool). lookup k r.0.cache) (load_from_db-rows unmarshal rows ended m t)
        ∙ (load_rows-lookup unmarshal k rows m ∙ assigned-Hides unmarshal k rows _ h)
    | inr f ↦
        ap (λ (r : Manager × Bool). lookup k r.0.cache) (load_from_db-nil unmarshal rows ended m f)
  ],
)

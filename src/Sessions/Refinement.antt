-- ===== src/Sessions/Refinement.antt =====
-- The contract of Store in sessions/store.go, without a backend: a map from tokens to entries that
-- are visible until they expire. `Refines` is what a backend proves, and every backend that does
-- answers like the map after any run of calls.
use omkit_go.Prelude.{
  String, ◌≡◌, Bool, Option, none, some, List, [], ◌∷◌, Map, lookup, insert, erase, if◌then◌else◌,
  All,
}
use omkit_go.Prelude.Int.{ℤ, ltb_ℤ}
use omkit_go.Sessions.{Session, Reply, found, not_found, failed}

-- What a caller sees of a session under its token.
pub record Entry : Type 0 where
  pub tenant_id : String
  pub payload : String
  pub expires_at : ℤ

abbrev pub entry_of : Session → Entry
entry_of s = record { tenant_id = s.tenant_id; payload = s.payload; expires_at = s.expires_at }

-- A call that succeeds, at the time it is made.
pub data Call : Type 0 where
  stored : ℤ → Session → Call
  deleted : String → Call

abbrev pub apply : Call → Map Entry → Map Entry
apply (stored now s) m = insert s.token (entry_of s) m
apply (deleted token) m = erase token m

unfoldable pub replay : List Call → Map Entry → Map Entry
replay [] m = m
replay (c ∷ cs) m = replay cs (apply c m)

unfoldable pub unexpired : ℤ → Option Entry → Option Entry
unexpired now none = none
unexpired now (some e) = if ltb_ℤ now e.expires_at then some e else none

-- The entry under a token, as long as it has not expired.
abbrev pub visible : ℤ → String → Map Entry → Option Entry
visible now token m = unexpired now (lookup token m)

abbrev pub seen : Reply → Option Entry
seen (found s) = some (entry_of s)
seen not_found = none
seen failed = none

pub record Backend : Type 1 where
  pub State : Type 0
  pub empty : State
  pub put : ℤ → Session → State → State × Bool
  pub delete : String → State → State × Bool
  pub get : ℤ → String → State → Reply

abbrev pub step : (b : Backend) → Call → b.State → b.State
step b (stored now s) st = (b.put now s st).0
step b (deleted token) st = (b.delete token st).0

unfoldable pub run : (b : Backend) → List Call → b.State → b.State
run b [] st = st
run b (c ∷ cs) st = run b cs (step b c st)

-- The calls a theorem admits, by their time and session.
abbrev pub Admits : (ℤ → Session → Type 0) → Call → Type 0
Admits ok (stored now s) = ok now s
Admits ok (deleted token) = Unit

-- What a backend proves to refine the map of entries, for the sessions in `ok`, with Get at the times
-- that are `clear` of what the map has under the token.
pub record Refines (b : Backend) (ok : ℤ → Session → Type 0) (clear : ℤ → Option Entry → Type 0)
    : Type 1 where
  pub Related : b.State → Map Entry → Type 0
  pub related_empty : Related b.empty []
  pub related_step :
      (c : Call) (st : b.State) (m : Map Entry)
      → Admits ok c
      → Related st m
      → Related (step b c st) (apply c m)
  pub get_agrees :
      (now : ℤ) (token : String) (st : b.State) (m : Map Entry)
      → Related st m
      → clear now (lookup token m)
      → seen (b.get now token st) ≡ visible now token m

module _ {b : Backend} {ok : ℤ → Session → Type 0} {clear : ℤ → Option Entry → Type 0}
    (r : Refines b ok clear) where
  run-Related :
      (cs : List Call) (st : b.State) (m : Map Entry)
      → All (Admits ok) cs
      → r.Related st m
      → r.Related (run b cs st) (replay cs m)
  unfolding run replay
  run-Related [] st m h rel = rel
  run-Related (c ∷ cs) st m (h, hs) rel =
      run-Related cs (step b c st) (apply c m) hs (r.related_step c st m h rel)

  pub get-replay :
      (cs : List Call) (now : ℤ) (token : String)
      → All (Admits ok) cs
      → clear now (lookup token (replay cs []))
      → seen (b.get now token (run b cs b.empty)) ≡ visible now token (replay cs [])
  get-replay cs now token h c =
      r.get_agrees now token _ _ (run-Related cs b.empty [] h r.related_empty) c

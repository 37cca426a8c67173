-- ===== src/Settings.antt =====
-- settings/manager.go: the local copy of the settings that are not secret. A listener is a number,
-- and a call of one is recorded; a listener does not call the manager back. JSON is a parameter.
pub mod Cache
pub mod Changes
pub mod Options
pub mod Disk
pub mod PollLoop
pub mod Polls
mod Tests
use Prim.Native.String
use omkit_go.Prelude.{
  ℕ, zero, String, Bool, true, false, ◌&&◌, ◌||◌, not, Option, none, some, List, [], ◌∷◌, ◌++◌, map,
  Map, lookup, insert, if◌then◌else◌, ◌==◌,
}
use omkit_go.Prelude.Int.{ℤ, pos, negsuc, ltb_ℤ}

pub data Backend : Type 0 where
  backend_postgres backend_redis : Backend

-- `db` and `valkey` say whether these are there.
pub record Manager : Type 0 where
  pub cache : Map String
  pub listeners : Map (List ℕ)
  pub cache_path : String
  pub db : Bool
  pub valkey : Bool
  pub tenant_id : String
  pub service : String
  pub poll_interval : ℤ
  pub poll_last_seen : ℤ
  pub backend : Backend
  pub stopped : Bool

pub record Config : Type 0 where
  pub pool : Bool
  pub tenant_id : String
  pub service : String
  pub cache_path : String
  pub valkey_addr : String
  pub poll_interval : ℤ

-- A row of app_settings.
pub record Row : Type 0 where
  pub key : String
  pub value_json : String
  pub is_secret : Bool
  pub updated_at : ℤ

-- A row as Scan gives it.
pub data Scanned : Type 0 where
  unreadable : Scanned
  scanned : Row → Scanned

-- What a query comes to: an error, or what its rows give and whether they end in an error.
pub data Answer : Type 0 where
  query_failed : Answer
  answered : List Scanned → Bool → Answer

-- A call of a listener.
pub record Fired : Type 0 where
  pub listener : ℕ
  pub key : String
  pub value : String

-- The zero time: the first of January of the year 1, in nanoseconds from 1970.
abbrev pub zero_time : ℤ
zero_time = negsuc 62_135_596_799_999_999_999

-- An unknown backend falls back to Postgres.
unfoldable pub backend_of : String → Backend
backend_of v = if v == "redis" then backend_redis else backend_postgres

unfoldable pub interval_or_default : ℤ → ℤ
interval_or_default (pos zero) = pos 5_000_000_000
interval_or_default d = d

unfoldable pub new_from_config : (getenv : String → String) → Config → Manager
new_from_config getenv cfg =
    let backend = backend_of (getenv "OMUR_SETTINGS_BACKEND") in
    record {
      cache = [];
      listeners = [];
      cache_path = cfg.cache_path;
      db = cfg.pool;
      valkey = elim backend [
        | backend_redis ↦ not (cfg.valkey_addr == "")
        | backend_postgres ↦ false
      ];
      tenant_id = cfg.tenant_id;
      service = cfg.service;
      poll_interval = interval_or_default cfg.poll_interval;
      poll_last_seen = zero_time;
      backend = backend;
      stopped = false;
    }

-- The listeners of a key, in the order of their registration.
unfoldable pub listeners_of : String → Map (List ℕ) → List ℕ
listeners_of key listeners = elim (lookup key listeners) [ none ↦ [] | some fns ↦ fns ]

unfoldable pub on_change : String → ℕ → Manager → Manager
on_change key fn m = record m {
  listeners = insert key (listeners_of key m.listeners ++ fn ∷ []) m.listeners;
}

unfoldable pub fire : String → String → List ℕ → List Fired
fire key value fns = map (λ fn. record { listener = fn; key = key; value = value }) fns

unfoldable pub apply_change : String → String → Manager → Manager × List Fired
apply_change key value m =
    (record m { cache = insert key value m.cache }, fire key value (listeners_of key m.listeners))

unfoldable pub get : String → Manager → String
get key m = elim (lookup key m.cache) [ none ↦ "" | some v ↦ v ]

-- The value of a row: the string that its JSON is, or else the JSON itself.
unfoldable pub value_of : (unmarshal : String → Option String) → String → String
value_of unmarshal value_json = elim (unmarshal value_json) [ none ↦ value_json | some s ↦ s ]

unfoldable pub later : ℤ → ℤ → ℤ
later updated_at latest = if ltb_ℤ latest updated_at then updated_at else latest

-- The loop of pollOnce: the manager, the latest time, and the calls of listeners.
unfoldable pub poll_rows :
    (String → Option String) → List Scanned → Manager → ℤ → Manager × (ℤ × List Fired)
poll_rows unmarshal [] m latest = (m, (latest, []))
poll_rows unmarshal (unreadable ∷ rows) m latest = poll_rows unmarshal rows m latest
poll_rows unmarshal (scanned row ∷ rows) m latest =
    let seen = later row.updated_at latest in
    if row.is_secret
    then poll_rows unmarshal rows m seen
    else (let (m', fired) = apply_change row.key (value_of unmarshal row.value_json) m in
        let (m'', (last, more)) = poll_rows unmarshal rows m' seen in (m'', (last, fired ++ more)))

-- WHERE updated_at > $1, of a table in the order of updated_at.
unfoldable pub select : ℤ → List Row → List Row
select since [] = []
select since (r ∷ rows) =
    let rest = select since rows in if ltb_ℤ since r.updated_at then r ∷ rest else rest

-- The end of pollOnce: the zero time is not written.
unfoldable pub saw : ℤ → Manager → Manager
saw latest m = if ltb_ℤ zero_time latest then record m { poll_last_seen = latest } else m

-- pollOnce, with the answer to its query: the manager, the calls of listeners, and whether there is
-- an error.
unfoldable pub poll_once :
    (String → Option String) → Answer → Manager → Manager × (List Fired × Bool)
poll_once unmarshal query_failed m = (m, ([], true))
poll_once unmarshal (answered rows ended) m =
    let (m', (latest, fired)) = poll_rows unmarshal rows m zero_time in
    (saw latest m', (fired, ended))

-- The answer to the query of a poll where nothing fails.
unfoldable pub poll_answer : List Row → Manager → Answer
poll_answer table m = answered (map (λ r. scanned r) (select m.poll_last_seen table)) false

unfoldable pub load_rows : (String → Option String) → List Scanned → Manager → Manager
load_rows unmarshal [] m = m
load_rows unmarshal (unreadable ∷ rows) m = load_rows unmarshal rows m
load_rows unmarshal (scanned row ∷ rows) m =
    let seen = record m { poll_last_seen = later row.updated_at m.poll_last_seen } in
    if row.is_secret
    then load_rows unmarshal rows seen
    else load_rows unmarshal rows
        (record seen { cache = insert row.key (value_of unmarshal row.value_json) seen.cache })

unfoldable pub load_from_db : (String → Option String) → Answer → Manager → Manager × Bool
load_from_db unmarshal query_failed m = (m, true)
load_from_db unmarshal (answered rows ended) m =
    if m.db then (load_rows unmarshal rows m, ended) else (m, true)

-- A message is a key and a value; what does not decode is ignored.
unfoldable pub handle_message :
    (String → Option (String × String)) → String → Manager → Manager × List Fired
handle_message unmarshal payload m = elim (unmarshal payload) [
  | none ↦ (m, [])
  | some (key, value) ↦ apply_change key value m
]

-- Stop, and whether it closes the channel.
unfoldable pub stop : Manager → Manager × Bool
stop m = if m.stopped then (m, false) else (record m { stopped = true }, true)

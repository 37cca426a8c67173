-- ===== src/Scheduler.antt =====
-- scheduler/scheduler.go: the reconcile loop over the providers table and the asynq scheduler.
-- `S` is the state of the asynq scheduler and `C` the type of a provider's decoded config. The
-- order in which Go ranges over the two maps is an argument, a list of keys.
pub mod Entries
pub mod Ownership
pub mod Steps
pub mod Converge
pub mod Loop
pub mod Admin
mod Tests
use Prim.Native.String
use omkit_go.Prelude.{
  String, Bool, true, false, Option, none, some, List, [], ◌∷◌, ◌++◌, Map, lookup, insert, erase,
  if◌then◌else◌, ◌==◌,
}
use omkit_go.Jobqueue.Json.{Json, str, obj, Fields, end, field}
use omkit_go.Jobqueue.Envelope.{Result, ok, err, wrap}
use omkit_go.Jobqueue.Enqueue.{Task, TaskOption, queue}

pub record Provider (C : Type 0) : Type 0 where
  pub tenant_id : String
  pub name : String
  pub config : C

pub record RegisteredEntry : Type 0 where
  pub entry_id : String
  pub hash : String
  pub cronspec : String

-- The interface Asynq, less Start and Shutdown. Register returns an entry id or, with `none`, an
-- error; Unregister returns `true` for a nil error.
pub record Asynq (S : Type 0) : Type 0 where
  pub register : String → Task → List TaskOption → S → S × Option String
  pub unregister : String → S → S × Bool

-- The fields of Scheduler that do not change, and what the package calls: `marshal` is
-- json.Marshal on a config, `digest` is the hexadecimal SHA-256 of a cron spec, a zero byte and a
-- marshalled config, and `is_uuid` is uuid.Parse.
pub record Scheduler (S C : Type 0) : Type 0 where
  pub asynq : Asynq S
  pub kind : String
  pub queue_name : String
  pub task_type : String
  pub derive_cron : Provider C → Option String
  pub immediate : Bool
  pub marshal : C → Option Json
  pub digest : String → Option Json → String
  pub is_uuid : String → Bool

-- The entry table, the asynq scheduler, and the tasks that were enqueued at once, the latest first:
-- a tenant id and a payload.
pub record State (S : Type 0) : Type 0 where
  pub entries : Map RegisteredEntry
  pub asynq_state : S
  pub enqueued : List (String × Json)

unfoldable pub key : String → String → String
key tenant name = String.◌++◌ tenant (String.◌++◌ ":" name)

-- `desired`: a later row with the same key wins.
unfoldable pub desired_of : {C : Type 0} → List (Provider C) → Map (Provider C) → Map (Provider C)
desired_of [] m = m
desired_of (r ∷ rs) m = desired_of rs (insert (key r.tenant_id r.name) r m)

-- The end of Unregister in the first loop.
dropped : {S : Type 0} → String → State S → S × Bool → State S
dropped k st (a, true) = record st { entries = erase k st.entries; asynq_state = a }
dropped k st (a, false) = record st { asynq_state = a }

module _ {S C : Type 0} (s : Scheduler S C) where
  or_empty_object : Option Json → Json
  or_empty_object none = obj end
  or_empty_object (some j) = j

  unfoldable pub build_payload : Provider C → Json
  unfolding or_empty_object
  build_payload p = obj (
      field "provider_name" (str p.name)
        (field "config" (or_empty_object (s.marshal p.config)) end))

  unfoldable pub config_hash : String → C → String
  config_hash cronspec cfg = s.digest cronspec (s.marshal cfg)

  pub register_one : Provider C → String → S → S × Option String
  register_one p cronspec a = elim (wrap s.is_uuid p.tenant_id (some (build_payload p))) [
    | err e ↦ (a, none)
    | ok body ↦
        s.asynq.register cronspec (record { type_name = s.task_type; payload = some body })
          (queue s.queue_name ∷ []) a
  ]

  -- The body of the first loop, at the key `k`.
  pub drop_stale : Map (Provider C) → String → State S → State S
  unfolding dropped
  drop_stale desired k st = elim (lookup k st.entries) [
    | none ↦ st
    | some ent ↦ elim (lookup k desired) [
      | some p ↦ st
      | none ↦ dropped k st (s.asynq.unregister ent.entry_id st.asynq_state)
    ]
  ]

  -- From registerOne to the end of the body of the second loop.
  registered : String → Provider C → String → State S → S × Option String → State S
  registered k p cronspec st (a, none) = record st { asynq_state = a }
  registered k p cronspec st (a, some id) =
      let entry : RegisteredEntry = record {
        entry_id = id;
        hash = config_hash cronspec p.config;
        cronspec = cronspec;
      } in
      record {
        entries = insert k entry st.entries;
        asynq_state = a;
        enqueued =
            if s.immediate then (p.tenant_id, build_payload p) ∷ st.enqueued else st.enqueued;
      }

  pub register_new : String → Provider C → String → State S → State S
  unfolding registered
  register_new k p cronspec st = registered k p cronspec st (register_one p cronspec st.asynq_state)

  -- The re-registration of an entry that has changed, from Unregister on.
  replaced : String → Provider C → String → State S → S × Bool → State S
  replaced k p cronspec st (a, true) =
      register_new k p cronspec (record st { entries = erase k st.entries; asynq_state = a })
  replaced k p cronspec st (a, false) = record st { asynq_state = a }

  upsert_as : String → Provider C → String → State S → State S
  unfolding replaced
  upsert_as k p cronspec st = elim (lookup k st.entries) [
    | none ↦ register_new k p cronspec st
    | some existing ↦
        if existing.hash == config_hash cronspec p.config
        then st
        else replaced k p cronspec st (s.asynq.unregister existing.entry_id st.asynq_state)
  ]

  -- The body of the second loop, at the key `k`.
  pub upsert : Map (Provider C) → String → State S → State S
  unfolding upsert_as
  upsert desired k st = elim (lookup k desired) [
    | none ↦ st
    | some p ↦ elim (s.derive_cron p) [ none ↦ st | some cronspec ↦ upsert_as k p cronspec st ]
  ]

  pub drop_loop : Map (Provider C) → List String → State S → State S
  drop_loop desired [] st = st
  drop_loop desired (k ∷ ks) st = drop_loop desired ks (drop_stale desired k st)

  pub upsert_loop : Map (Provider C) → List String → State S → State S
  upsert_loop desired [] st = st
  upsert_loop desired (k ∷ ks) st = upsert_loop desired ks (upsert desired k st)

  -- `rows` is what FetchProviders returns; `old_keys` and `new_keys` are the orders of the ranges
  -- over the entries and over the desired rows.
  unfoldable pub reconcile :
      (rows : Option (List (Provider C))) (old_keys new_keys : List String) → State S → State S
  unfolding drop_loop upsert_loop
  reconcile none old_keys new_keys st = st
  reconcile (some rows) old_keys new_keys st =
      let desired = desired_of rows [] in
      upsert_loop desired new_keys (drop_loop desired old_keys st)

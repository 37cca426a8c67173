-- ===== src/Scheduler/Ownership.antt =====
-- The entry table and the asynq scheduler hold the same cron entries, whatever fails.
use omkit_go.Prelude.{
  String, ◌≡◌, refl, Bool, true, false, Option, none, some, List, [], ◌∷◌, Map, lookup,
  lookup-erase_self, erase, Bool-cases, Option-cases, ◌⊎◌, inl, inr, arith, if◌then◌else◌, ◌==◌,
}
use omkit_go.Jobqueue.Json.{Json}
use omkit_go.Jobqueue.Envelope.{EnvelopeError, Result, ok, err, wrap}
use omkit_go.Jobqueue.Enqueue.{Task, TaskOption, queue}
use omkit_go.Scheduler.Entries.{AsynqLaws, Owns, Owns-same, Owns-erase, Owns-insert}
use omkit_go.Scheduler.{
  Provider, RegisteredEntry, Scheduler, State, register_one, drop_stale, register_new, replaced,
  upsert_as, upsert, drop_loop, upsert_loop, reconcile, registered, dropped, desired_of,
  build_payload, config_hash,
}

-- What registerOne hands to asynq.
abbrev wrapped : {S C : Type 0} → Scheduler S C → Provider C → Result Json
wrapped s p = wrap s.is_uuid p.tenant_id (some (build_payload s p))

abbrev task_of : {S C : Type 0} → Scheduler S C → Json → Task
task_of s body = record { type_name = s.task_type; payload = some body }

abbrev options : {S C : Type 0} → Scheduler S C → List TaskOption
options s = queue s.queue_name ∷ []

Result-cases :
    {A : Type 0} (r : Result A) → ((a : A) × (r ≡ ok a)) ⊎ ((e : EnvelopeError) × (r ≡ err e))
Result-cases (ok a) = inl (a, refl)
Result-cases (err e) = inr (e, refl)

module _ {S C : Type 0} (s : Scheduler S C) (live : S → String → Bool)
    (laws : AsynqLaws s.asynq live) where
  -- The entries of the state's table are the live cron entries of its asynq scheduler.
  abbrev pub IsOwner : State S → Type 0
  IsOwner st = Owns st.entries (live st.asynq_state)

  -- registerOne calls asynq once, or not at all.
  register_one-keeps :
      (p : Provider C) (cronspec : String) (a a' : S) (x : String)
      → register_one s p cronspec a ≡ (a', none)
      → live a' x ≡ live a x
  unfolding register_one
  register_one-keeps p cronspec a a' x e = elim (Result-cases (wrapped s p)) [
    | inl (body, w) ↦ laws.keeps cronspec (task_of s body) (options s) a a' x (ground (arith, w))
    | inr (err', w) ↦ ground (arith, w)
  ]

  register_one-adds :
      (p : Provider C) (cronspec : String) (a a' : S) (id x : String)
      → register_one s p cronspec a ≡ (a', some id)
      → (live a id ≡ false) × (live a' x ≡ (if id == x then true else live a x))
  unfolding register_one
  register_one-adds p cronspec a a' id x e = elim (Result-cases (wrapped s p)) [
    | inl (body, w) ↦
        let called : s.asynq.register cronspec (task_of s body) (options s) a ≡ (a', some id) =
          ground (arith, w) in
        (
          laws.fresh cronspec (task_of s body) (options s) a a' id called,
          laws.adds cronspec (task_of s body) (options s) a a' id x called,
        )
    | inr (err', w) ↦ ground (arith, w)
  ]

  register_new-IsOwner :
      (k : String) (p : Provider C) (cronspec : String) (st : State S)
      → lookup k st.entries ≡ none
      → IsOwner st
      → IsOwner (register_new s k p cronspec st)
  unfolding register_new
  register_new-IsOwner k p cronspec st n o = go (register_one s p cronspec st.asynq_state) refl
    where
      go :
          (r : S × Option String)
          → register_one s p cronspec st.asynq_state ≡ r
          → IsOwner (registered s k p cronspec st r)
      go (a, none) e = Owns-same (λ x. register_one-keeps p cronspec st.asynq_state a x e) o
      go (a, some id) e =
          Owns-insert k
            (record { entry_id = id; hash = config_hash s cronspec p.config; cronspec = cronspec })
            n (register_one-adds p cronspec st.asynq_state a id id e).0
            (λ x. (register_one-adds p cronspec st.asynq_state a id x e).1) o

  replaced-IsOwner :
      (k : String) (p : Provider C) (cronspec : String) (st : State S) (ent : RegisteredEntry)
      → lookup k st.entries ≡ some ent
      → IsOwner st
      → IsOwner (replaced s k p cronspec st (s.asynq.unregister ent.entry_id st.asynq_state))
  unfolding replaced
  replaced-IsOwner k p cronspec st ent at_k o =
      go (s.asynq.unregister ent.entry_id st.asynq_state) refl
    where
      go :
          (r : S × Bool)
          → s.asynq.unregister ent.entry_id st.asynq_state ≡ r
          → IsOwner (replaced s k p cronspec st r)
      go (a, true) e =
          register_new-IsOwner k p cronspec
            (record st { entries = erase k st.entries; asynq_state = a })
            (lookup-erase_self k st.entries)
            (Owns-erase k ent at_k (λ x. laws.removes ent.entry_id st.asynq_state a x e) o)
      go (a, false) e = Owns-same (λ x. laws.spares ent.entry_id st.asynq_state a x e) o

  dropped-IsOwner :
      (k : String) (st : State S) (ent : RegisteredEntry)
      → lookup k st.entries ≡ some ent
      → IsOwner st
      → IsOwner (dropped k st (s.asynq.unregister ent.entry_id st.asynq_state))
  unfolding dropped
  dropped-IsOwner k st ent at_k o = go (s.asynq.unregister ent.entry_id st.asynq_state) refl
    where
      go :
          (r : S × Bool)
          → s.asynq.unregister ent.entry_id st.asynq_state ≡ r
          → IsOwner (dropped k st r)
      go (a, true) e = Owns-erase k ent at_k (λ x. laws.removes ent.entry_id st.asynq_state a x e) o
      go (a, false) e = Owns-same (λ x. laws.spares ent.entry_id st.asynq_state a x e) o

  drop_stale-IsOwner :
      (desired : Map (Provider C)) (k : String) (st : State S)
      → IsOwner st
      → IsOwner (drop_stale s desired k st)
  unfolding drop_stale
  drop_stale-IsOwner desired k st o = elim (Option-cases (lookup k st.entries)) [
    | inl e ↦ rw (drop_stale, e) o
    | inr (ent, e) ↦ elim (Option-cases (lookup k desired)) [
      | inl d ↦ rw (drop_stale, e) (rw d (dropped-IsOwner k st ent e o))
      | inr (p, d) ↦ rw (drop_stale, e) (rw d o)
    ]
  ]

  upsert_as-IsOwner :
      (k : String) (p : Provider C) (cronspec : String) (st : State S)
      → IsOwner st
      → IsOwner (upsert_as s k p cronspec st)
  unfolding upsert_as
  upsert_as-IsOwner k p cronspec st o = elim (Option-cases (lookup k st.entries)) [
    | inl e ↦ rw (upsert_as, e) (register_new-IsOwner k p cronspec st e o)
    | inr (ent, e) ↦ elim (Bool-cases (ent.hash == config_hash s cronspec p.config)) [
      | inl same ↦ rw (upsert_as, e) (rw same o)
      | inr other ↦ rw (upsert_as, e) (rw other (replaced-IsOwner k p cronspec st ent e o))
    ]
  ]

  upsert-IsOwner :
      (desired : Map (Provider C)) (k : String) (st : State S)
      → IsOwner st
      → IsOwner (upsert s desired k st)
  unfolding upsert
  upsert-IsOwner desired k st o = elim (Option-cases (lookup k desired)) [
    | inl d ↦ rw (upsert, d) o
    | inr (p, d) ↦ elim (Option-cases (s.derive_cron p)) [
      | inl e ↦ rw (upsert, d) (rw e o)
      | inr (cronspec, e) ↦ rw (upsert, d) (rw e (upsert_as-IsOwner k p cronspec st o))
    ]
  ]

  drop_loop-IsOwner :
      (desired : Map (Provider C)) (ks : List String) (st : State S)
      → IsOwner st
      → IsOwner (drop_loop s desired ks st)
  unfolding drop_loop
  drop_loop-IsOwner desired [] st o = o
  drop_loop-IsOwner desired (k ∷ ks) st o =
      drop_loop-IsOwner desired ks (drop_stale s desired k st) (drop_stale-IsOwner desired k st o)

  upsert_loop-IsOwner :
      (desired : Map (Provider C)) (ks : List String) (st : State S)
      → IsOwner st
      → IsOwner (upsert_loop s desired ks st)
  unfolding upsert_loop
  upsert_loop-IsOwner desired [] st o = o
  upsert_loop-IsOwner desired (k ∷ ks) st o =
      upsert_loop-IsOwner desired ks (upsert s desired k st) (upsert-IsOwner desired k st o)

  -- Every reconcile keeps this: the entries of the table are exactly the live cron entries of
  -- asynq, one key for each. It does so whatever rows are fetched, in whatever order the maps are
  -- gone through and whichever calls fail, so no cron entry is lost track of or registered twice.
  pub reconcile-IsOwner :
      (rows : Option (List (Provider C))) (old_keys new_keys : List String) (st : State S)
      → IsOwner st
      → IsOwner (reconcile s rows old_keys new_keys st)
  unfolding reconcile
  reconcile-IsOwner none old_keys new_keys st o = o
  reconcile-IsOwner (some rows) old_keys new_keys st o =
      upsert_loop-IsOwner (desired_of rows []) new_keys
        (drop_loop s (desired_of rows []) old_keys st)
        (drop_loop-IsOwner (desired_of rows []) old_keys st o)

-- ===== src/Scheduler/Converge.antt =====
-- Where no call fails, one reconcile brings the table to the rows, and a further one does nothing.
use omkit_go.Prelude.{
  String, ◌≡◌, refl, ◌≢◌, ◌∙◌, ap, true, ◌&&◌, none, some, List, [], ◌∷◌, Map, lookup, contains,
  Bool-cases, Option-cases, ◌⊎◌, inl, inr, arith, if◌then◌else◌, ◌==◌, eq_iff,
}
use omkit_go.Scheduler.{
  Provider, RegisteredEntry, Scheduler, State, drop_stale, upsert, upsert_as, drop_loop,
  upsert_loop, reconcile, desired_of, config_hash,
}
use omkit_go.Scheduler.Steps.{
  IsReliable, hash_at, hash_of, is_none, drop_loop-lookup, upsert-lookup_ne, upsert-hash,
}

module _ {S C : Type 0} (s : Scheduler S C) (desired : Map (Provider C)) where
  -- What is to be done at a key: the row and its cron spec, if the row is there and has one.
  record IsWanted (k : String) (p : Provider C) (cronspec : String) : Type 0 where
    row : lookup k desired ≡ some p
    cron : s.derive_cron p ≡ some cronspec

  abbrev IsSkipped : String → Type 0
  IsSkipped k = (p : Provider C) → lookup k desired ≡ some p → s.derive_cron p ≡ none

  upsert_of_IsSkipped : (k : String) (st : State S) → IsSkipped k → upsert s desired k st ≡ st
  unfolding upsert
  upsert_of_IsSkipped k st h = elim (Option-cases (lookup k desired)) [
    | inl d ↦ rw (upsert, d)
    | inr (p, d) ↦ rw (upsert, d) (rw (h p d))
  ]

  upsert_loop-lookup_skipped :
      (ks : List String) (k : String) (st : State S)
      → IsSkipped k
      → lookup k (upsert_loop s desired ks st).entries ≡ lookup k st.entries
  unfolding upsert_loop
  upsert_loop-lookup_skipped [] k st h = refl
  upsert_loop-lookup_skipped (j ∷ ks) k st h =
      upsert_loop-lookup_skipped ks k (upsert s desired j st) h ∙ elim (Bool-cases (j == k)) [
        | inl same ↦
            let unchanged : upsert s desired j st ≡ st =
              rw ((eq_iff j k).0 same) (upsert_of_IsSkipped k st h) in
            ap (λ (t : State S). lookup k t.entries) unchanged
        | inr other ↦ upsert-lookup_ne s desired j k st other
      ]

  module _ (reliable : IsReliable s.asynq) where
    upsert_loop-hash :
        (ks : List String) (k : String) (p : Provider C) (cronspec : String) (st : State S)
        → IsWanted k p cronspec
        → s.is_uuid p.tenant_id ≡ true
        → (hash_at k st.entries ≡ some (config_hash s cronspec p.config)) ⊎ (contains k ks ≡ true)
        → hash_at k (upsert_loop s desired ks st).entries ≡ some (config_hash s cronspec p.config)
    unfolding upsert_loop
    upsert_loop-hash [] k p cronspec st w u (inl h) = h
    upsert_loop-hash [] k p cronspec st w u (inr c) = cc
    upsert_loop-hash (j ∷ ks) k p cronspec st w u h = elim (Bool-cases (j == k)) [
      | inl same ↦
          let e = (eq_iff j k).0 same in
          let now = upsert-hash s reliable desired k p cronspec st w.row w.cron u in
          upsert_loop-hash ks k p cronspec (upsert s desired j st) w u (inl (rw e now))
      | inr other ↦
          let kept = ap hash_of (upsert-lookup_ne s desired j k st other) in
          upsert_loop-hash ks k p cronspec (upsert s desired j st) w u
            (elim h [ inl before ↦ inl (kept ∙ before) | inr c ↦ inr (ground arith) ])
    ]

-- The table `new` that a reconcile of the desired rows makes of the table `old`: entries with no
-- row are gone, rows with no cron spec keep what they had, and each other row is registered with
-- the hash of its cron spec and config.
pub record Converged {S C : Type 0} (s : Scheduler S C) (desired : Map (Provider C))
    (old new : Map RegisteredEntry) : Type 0 where
  pub gone : (k : String) → lookup k desired ≡ none → lookup k new ≡ none
  pub kept :
      (k : String) (p : Provider C)
      → lookup k desired ≡ some p
      → s.derive_cron p ≡ none
      → lookup k new ≡ lookup k old
  pub scheduled :
      (k : String) (p : Provider C) (cronspec : String)
      → lookup k desired ≡ some p
      → s.derive_cron p ≡ some cronspec
      → hash_at k new ≡ some (s.digest cronspec (s.marshal p.config))

-- Every key of the map is in the order in which it is gone through.
abbrev pub Covers : {V : Type 0} → Map V → List String → Type 0
Covers {V} m ks = (k : String) (v : V) → lookup k m ≡ some v → contains k ks ≡ true

module _ {S C : Type 0} (s : Scheduler S C) (rows : List (Provider C)) where
  pub reconcile-Converged :
      (old_keys new_keys : List String) (st : State S)
      → IsReliable s.asynq
      → ((k : String) (p : Provider C)
          → lookup k (desired_of rows []) ≡ some p
          → s.is_uuid p.tenant_id ≡ true)
      → Covers st.entries old_keys
      → Covers (desired_of rows []) new_keys
      → Converged s
          (desired_of rows [])
          st.entries
          (reconcile s (some rows) old_keys new_keys st).entries
  unfolding reconcile config_hash
  reconcile-Converged old_keys new_keys st reliable valid old new =
      let desired = desired_of rows [] in
      let st' = drop_loop s desired old_keys st in
      let at = λ (k : String). drop_loop-lookup s reliable desired old_keys k st in
      let dropped : (k : String)
          → lookup k desired ≡ none
          → (if contains k old_keys && is_none (lookup k desired)
              then none
              else lookup k st.entries)
            ≡ none =
        λ k d. elim (Option-cases (lookup k st.entries)) [
          | inl e ↦ ground (arith, d, e)
          | inr (v, e) ↦ ground (arith, d, old k v e)
        ] in
      record {
        gone = λ k d.
            upsert_loop-lookup_skipped s desired new_keys k st' (λ p d'. cc) ∙ (at k ∙ dropped k d);
        kept = λ k p d c.
            upsert_loop-lookup_skipped s desired new_keys k st' (λ p' d'. cc)
            ∙ (at k ∙ ground (arith, d));
        scheduled = λ k p cronspec d c.
            upsert_loop-hash s desired reliable new_keys k p cronspec st'
              (record { row = d; cron = c }) (valid k p d) (inr (new k p d));
      }

-- A table that has what the rows say: no entry without a row, and the right hash for each row that
-- has a cron spec.
pub record IsCurrent {S C : Type 0} (s : Scheduler S C) (desired : Map (Provider C))
    (m : Map RegisteredEntry) : Type 0 where
  pub no_stale : (k : String) (e : RegisteredEntry) → lookup k m ≡ some e → lookup k desired ≢ none
  pub hashed :
      (k : String) (p : Provider C) (cronspec : String)
      → lookup k desired ≡ some p
      → s.derive_cron p ≡ some cronspec
      → hash_at k m ≡ some (config_hash s cronspec p.config)

Converged-IsCurrent :
    {S C : Type 0} {s : Scheduler S C} {desired : Map (Provider C)} {old new : Map RegisteredEntry}
    → Converged s desired old new
    → IsCurrent s desired new
unfolding config_hash
Converged-IsCurrent c = record { no_stale = λ k e h d. cc (c.gone k d); hashed = c.scheduled }

module _ {S C : Type 0} (s : Scheduler S C) (desired : Map (Provider C)) (st : State S)
    (current : IsCurrent s desired st.entries) where
  drop_stale_of_IsCurrent : (k : String) → drop_stale s desired k st ≡ st
  unfolding drop_stale
  drop_stale_of_IsCurrent k = elim (Option-cases (lookup k st.entries)) [
    | inl e ↦ rw (drop_stale, e)
    | inr (ent, e) ↦ elim (Option-cases (lookup k desired)) [
      | inl d ↦ absurd (current.no_stale k ent e d)
      | inr (p, d) ↦ rw (drop_stale, e) (rw d)
    ]
  ]

  upsert_as_of_hash :
      (k : String) (p : Provider C) (cronspec : String)
      → hash_at k st.entries ≡ some (config_hash s cronspec p.config)
      → upsert_as s k p cronspec st ≡ st
  unfolding upsert_as
  upsert_as_of_hash k p cronspec h = elim (Option-cases (lookup k st.entries)) [
    | inl e ↦ cc e
    | inr (ent, e) ↦
        rw (upsert_as, e) (ground (arith, e, eq_iff ent.hash (config_hash s cronspec p.config)))
  ]

  upsert_of_IsCurrent : (k : String) → upsert s desired k st ≡ st
  unfolding upsert
  upsert_of_IsCurrent k = elim (Option-cases (lookup k desired)) [
    | inl d ↦ rw (upsert, d)
    | inr (p, d) ↦ elim (Option-cases (s.derive_cron p)) [
      | inl c ↦ rw (upsert, d) (rw c)
      | inr (cronspec, c) ↦
          rw (upsert, d) (rw c (upsert_as_of_hash k p cronspec (current.hashed k p cronspec d c)))
    ]
  ]

  drop_loop_of_IsCurrent : (ks : List String) → drop_loop s desired ks st ≡ st
  unfolding drop_loop
  drop_loop_of_IsCurrent [] = refl
  drop_loop_of_IsCurrent (k ∷ ks) =
      ap (drop_loop s desired ks) (drop_stale_of_IsCurrent k) ∙ drop_loop_of_IsCurrent ks

  upsert_loop_of_IsCurrent : (ks : List String) → upsert_loop s desired ks st ≡ st
  unfolding upsert_loop
  upsert_loop_of_IsCurrent [] = refl
  upsert_loop_of_IsCurrent (k ∷ ks) =
      ap (upsert_loop s desired ks) (upsert_of_IsCurrent k) ∙ upsert_loop_of_IsCurrent ks

-- A reconcile of rows that the table is current with leaves the table, the asynq scheduler and the
-- enqueued tasks as they are, in whatever order it goes through the maps.
reconcile_of_IsCurrent :
    {S C : Type 0} (s : Scheduler S C) (rows : List (Provider C)) (old_keys new_keys : List String)
    (st : State S)
    → IsCurrent s (desired_of rows []) st.entries
    → reconcile s (some rows) old_keys new_keys st ≡ st
unfolding reconcile
reconcile_of_IsCurrent s rows old_keys new_keys st current =
    let desired = desired_of rows [] in
    ap (upsert_loop s desired new_keys) (drop_loop_of_IsCurrent s desired st current old_keys)
    ∙ upsert_loop_of_IsCurrent s desired st current new_keys

-- Under the conditions of `reconcile-Converged`, a second reconcile of the same rows leaves the
-- state as the first one made it.
pub reconcile_idempotent :
    {S C : Type 0} (s : Scheduler S C) (rows : List (Provider C))
    (old_keys new_keys old_keys' new_keys' : List String) (st : State S)
    → IsReliable s.asynq
    → ((k : String) (p : Provider C)
        → lookup k (desired_of rows []) ≡ some p
        → s.is_uuid p.tenant_id ≡ true)
    → Covers st.entries old_keys
    → Covers (desired_of rows []) new_keys
    → let once = reconcile s (some rows) old_keys new_keys st in
      reconcile s (some rows) old_keys' new_keys' once ≡ once
reconcile_idempotent s rows old_keys new_keys old_keys' new_keys' st reliable valid old new =
    reconcile_of_IsCurrent s rows old_keys' new_keys' (reconcile s (some rows) old_keys new_keys st)
      (Converged-IsCurrent (reconcile-Converged s rows old_keys new_keys st reliable valid old new))

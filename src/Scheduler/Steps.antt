-- ===== src/Scheduler/Steps.antt =====
-- What one step of either loop of reconcile does to the entry under a key.
use omkit_go.Prelude.{
  String, ◌≡◌, refl, ◌≢◌, ◌∙◌, ap, Bool, true, false, ◌&&◌, Option, none, some, List, [], ◌∷◌, Map,
  lookup, erase, contains, lookup-insert, lookup-insert_self, lookup-erase, Bool-cases,
  Option-cases, inl, inr, arith, if◌then◌else◌, ◌==◌, eq_iff,
}
use omkit_go.Jobqueue.Envelope.{wrap}
use omkit_go.Jobqueue.Enqueue.{Task, TaskOption}
use omkit_go.Scheduler.{
  Provider, RegisteredEntry, Asynq, Scheduler, State, register_one, drop_stale, dropped,
  register_new, registered, replaced, upsert_as, upsert, drop_loop, config_hash,
}

-- No call of asynq fails.
pub record IsReliable {S : Type 0} (q : Asynq S) : Type 0 where
  pub registers :
      (spec : String) (t : Task) (os : List TaskOption) (a : S) → (q.register spec t os a).1 ≢ none
  pub unregisters : (id : String) (a : S) → (q.unregister id a).1 ≡ true

-- The hash under which a key is registered.
abbrev pub hash_of : Option RegisteredEntry → Option String
hash_of none = none
hash_of (some e) = some e.hash

abbrev pub hash_at : String → Map RegisteredEntry → Option String
hash_at k m = hash_of (lookup k m)

abbrev pub is_none {ℓ} : {A : Type ℓ} → Option A → Bool
is_none none = true
is_none (some a) = false

module _ {S C : Type 0} (s : Scheduler S C) (reliable : IsReliable s.asynq) where
  register_one-ne-none :
      (p : Provider C) (cronspec : String) (a : S)
      → s.is_uuid p.tenant_id ≡ true
      → (register_one s p cronspec a).1 ≢ none
  unfolding register_one wrap
  register_one-ne-none p cronspec a u =
      rw (register_one, wrap, u) (reliable.registers cronspec _ _ a)

  register_new-hash :
      (k : String) (p : Provider C) (cronspec : String) (st : State S)
      → s.is_uuid p.tenant_id ≡ true
      → hash_at k (register_new s k p cronspec st).entries ≡ some (config_hash s cronspec p.config)
  unfolding register_new
  register_new-hash k p cronspec st u =
      go (register_one s p cronspec st.asynq_state)
        (register_one-ne-none p cronspec st.asynq_state u)
    where
      go :
          (r : S × Option String)
          → r.1 ≢ none
          → hash_at k (registered s k p cronspec st r).entries
            ≡ some (config_hash s cronspec p.config)
      go (a, none) n = absurd (n refl)
      go (a, some id) n = ap hash_of (lookup-insert_self k _ st.entries)

  dropped-lookup :
      (k j id : String) (st : State S)
      → lookup j (dropped k st (s.asynq.unregister id st.asynq_state)).entries
        ≡ (if k == j then none else lookup j st.entries)
  unfolding dropped
  dropped-lookup k j id st =
      ground (arith, reliable.unregisters id st.asynq_state, lookup-erase k j st.entries)

  drop_stale-lookup :
      (desired : Map (Provider C)) (k j : String) (st : State S)
      → lookup j (drop_stale s desired k st).entries
        ≡ (if k == j && is_none (lookup j desired) then none else lookup j st.entries)
  unfolding drop_stale
  drop_stale-lookup desired k j st = elim (Option-cases (lookup k st.entries)) [
    | inl e ↦ rw (drop_stale, e) (ground (arith, eq_iff k j))
    | inr (ent, e) ↦ elim (Option-cases (lookup k desired)) [
      | inl d ↦
          rw (drop_stale, e) (rw d (ground (arith, dropped-lookup k j ent.entry_id st, eq_iff k j)))
      | inr (p, d) ↦ rw (drop_stale, e) (rw d (ground (arith, eq_iff k j)))
    ]
  ]

  pub drop_loop-lookup :
      (desired : Map (Provider C)) (ks : List String) (j : String) (st : State S)
      → lookup j (drop_loop s desired ks st).entries
        ≡ (if contains j ks && is_none (lookup j desired) then none else lookup j st.entries)
  unfolding drop_loop
  drop_loop-lookup desired [] j st = refl
  drop_loop-lookup desired (k ∷ ks) j st = ground (
    arith,
    drop_stale-lookup desired k j st,
    drop_loop-lookup desired ks j (drop_stale s desired k st),
  )

-- The second loop changes only the key that it is at.
module _ {S C : Type 0} (s : Scheduler S C) where
  register_new-lookup_ne :
      (k j : String) (p : Provider C) (cronspec : String) (st : State S)
      → (k == j) ≡ false
      → lookup j (register_new s k p cronspec st).entries ≡ lookup j st.entries
  unfolding register_new
  register_new-lookup_ne k j p cronspec st n = go (register_one s p cronspec st.asynq_state)
    where
      go :
          (r : S × Option String)
          → lookup j (registered s k p cronspec st r).entries ≡ lookup j st.entries
      go (a, none) = refl
      go (a, some id) = rw lookup-insert (rw n)

  replaced-lookup_ne :
      (k j : String) (p : Provider C) (cronspec : String) (st : State S) (r : S × Bool)
      → (k == j) ≡ false
      → lookup j (replaced s k p cronspec st r).entries ≡ lookup j st.entries
  unfolding replaced
  replaced-lookup_ne k j p cronspec st (a, true) n =
      register_new-lookup_ne k j p cronspec
        (record st { entries = erase k st.entries; asynq_state = a }) n
      ∙ rw lookup-erase (rw n)
  replaced-lookup_ne k j p cronspec st (a, false) n = refl

  upsert_as-lookup_ne :
      (k j : String) (p : Provider C) (cronspec : String) (st : State S)
      → (k == j) ≡ false
      → lookup j (upsert_as s k p cronspec st).entries ≡ lookup j st.entries
  unfolding upsert_as
  upsert_as-lookup_ne k j p cronspec st n = elim (Option-cases (lookup k st.entries)) [
    | inl e ↦ rw (upsert_as, e) (register_new-lookup_ne k j p cronspec st n)
    | inr (ent, e) ↦ elim (Bool-cases (ent.hash == config_hash s cronspec p.config)) [
      | inl same ↦ rw (upsert_as, e) (rw same)
      | inr other ↦
          rw (upsert_as, e)
            (rw other (
              replaced-lookup_ne k j p cronspec st (s.asynq.unregister ent.entry_id st.asynq_state)
                n))
    ]
  ]

  pub upsert-lookup_ne :
      (desired : Map (Provider C)) (k j : String) (st : State S)
      → (k == j) ≡ false
      → lookup j (upsert s desired k st).entries ≡ lookup j st.entries
  unfolding upsert
  upsert-lookup_ne desired k j st n = elim (Option-cases (lookup k desired)) [
    | inl d ↦ rw (upsert, d)
    | inr (p, d) ↦ elim (Option-cases (s.derive_cron p)) [
      | inl c ↦ rw (upsert, d) (rw c)
      | inr (cronspec, c) ↦ rw (upsert, d) (rw c (upsert_as-lookup_ne k j p cronspec st n))
    ]
  ]

module _ {S C : Type 0} (s : Scheduler S C) (reliable : IsReliable s.asynq) where
  replaced-hash :
      (k id : String) (p : Provider C) (cronspec : String) (st : State S)
      → s.is_uuid p.tenant_id ≡ true
      → hash_at k (replaced s k p cronspec st (s.asynq.unregister id st.asynq_state)).entries
        ≡ some (config_hash s cronspec p.config)
  unfolding replaced
  replaced-hash k id p cronspec st u =
      go (s.asynq.unregister id st.asynq_state) (reliable.unregisters id st.asynq_state)
    where
      go :
          (r : S × Bool)
          → r.1 ≡ true
          → hash_at k (replaced s k p cronspec st r).entries
            ≡ some (config_hash s cronspec p.config)
      go (a, true) h =
          register_new-hash s reliable k p cronspec
            (record st { entries = erase k st.entries; asynq_state = a }) u
      go (a, false) h = cc

  upsert_as-hash :
      (k : String) (p : Provider C) (cronspec : String) (st : State S)
      → s.is_uuid p.tenant_id ≡ true
      → hash_at k (upsert_as s k p cronspec st).entries ≡ some (config_hash s cronspec p.config)
  unfolding upsert_as
  upsert_as-hash k p cronspec st u = elim (Option-cases (lookup k st.entries)) [
    | inl e ↦ rw (upsert_as, e) (register_new-hash s reliable k p cronspec st u)
    | inr (ent, e) ↦ elim (Bool-cases (ent.hash == config_hash s cronspec p.config)) [
      | inl same ↦
          rw (upsert_as, e)
            (rw same
              (ap hash_of e ∙ ap some ((eq_iff ent.hash (config_hash s cronspec p.config)).0 same)))
      | inr other ↦ rw (upsert_as, e) (rw other (replaced-hash k ent.entry_id p cronspec st u))
    ]
  ]

  pub upsert-hash :
      (desired : Map (Provider C)) (k : String) (p : Provider C) (cronspec : String) (st : State S)
      → lookup k desired ≡ some p
      → s.derive_cron p ≡ some cronspec
      → s.is_uuid p.tenant_id ≡ true
      → hash_at k (upsert s desired k st).entries ≡ some (config_hash s cronspec p.config)
  unfolding upsert
  upsert-hash desired k p cronspec st d c u =
      rw (upsert, d) (rw c (upsert_as-hash k p cronspec st u))

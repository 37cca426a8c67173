-- ===== src/Scheduler/Entries.antt =====
-- What asynq documents of its cron entries, and the tables that own them.
use omkit_go.Prelude.{
  String, ◌≡◌, sym, ◌∙◌, Bool, true, false, none, some, List, Map, lookup, insert, erase,
  lookup-insert, lookup-erase, Bool-cases, inl, inr, arith, if◌then◌else◌, ◌==◌, eq_iff, eq_refl,
}
use omkit_go.Jobqueue.Enqueue.{Task, TaskOption}
use omkit_go.Scheduler.{RegisteredEntry, Asynq}

-- What asynq documents of its cron entries: `live a x` says whether the entry `x` is registered. A
-- successful Register returns an id that was not in use; a call that fails changes no entry.
pub record AsynqLaws {S : Type 0} (q : Asynq S) (live : S → String → Bool) : Type 0 where
  pub fresh :
      (spec : String) (t : Task) (os : List TaskOption) (a a' : S) (id : String)
      → q.register spec t os a ≡ (a', some id)
      → live a id ≡ false
  pub adds :
      (spec : String) (t : Task) (os : List TaskOption) (a a' : S) (id x : String)
      → q.register spec t os a ≡ (a', some id)
      → live a' x ≡ (if id == x then true else live a x)
  pub keeps :
      (spec : String) (t : Task) (os : List TaskOption) (a a' : S) (x : String)
      → q.register spec t os a ≡ (a', none)
      → live a' x ≡ live a x
  pub removes :
      (id : String) (a a' : S) (x : String)
      → q.unregister id a ≡ (a', true)
      → live a' x ≡ (if id == x then false else live a x)
  pub spares :
      (id : String) (a a' : S) (x : String) → q.unregister id a ≡ (a', false) → live a' x ≡ live a x

-- The entries of a table, with the keys under which they stand, are the live cron entries, one key
-- for each.
pub record Owns (m : Map RegisteredEntry) (live : String → Bool) : Type 0 where
  pub held : (k : String) (e : RegisteredEntry) → lookup k m ≡ some e → live e.entry_id ≡ true
  pub unique :
      (k j : String) (e f : RegisteredEntry)
      → lookup k m ≡ some e
      → lookup j m ≡ some f
      → e.entry_id ≡ f.entry_id
      → k ≡ j
  pub owned :
      (x : String)
      → live x ≡ true
      → (k : String) × (e : RegisteredEntry) × (lookup k m ≡ some e) × (e.entry_id ≡ x)

pub Owns-same :
    {m : Map RegisteredEntry} {live live' : String → Bool}
    → ((x : String) → live' x ≡ live x)
    → Owns m live
    → Owns m live'
Owns-same same o = record {
  held = λ k e h. same e.entry_id ∙ o.held k e h;
  unique = o.unique;
  owned = λ x h. o.owned x (sym (same x) ∙ h);
}

pub Owns-erase :
    {m : Map RegisteredEntry} {live live' : String → Bool} (k : String) (ent : RegisteredEntry)
    → lookup k m ≡ some ent
    → ((x : String) → live' x ≡ (if ent.entry_id == x then false else live x))
    → Owns m live
    → Owns (erase k m) live'
Owns-erase {m} {live} {live'} k ent at_k step o = record {
  held = λ j e h. ground (
    arith,
    step e.entry_id,
    lookup-erase k j m,
    o.held j e,
    o.unique k j ent e,
    eq_iff k j,
    eq_iff ent.entry_id e.entry_id,
  );
  unique =
      λ j i e f h g same. ground (arith, lookup-erase k j m, lookup-erase k i m, o.unique j i e f);
  owned = λ x h.
      let before : live x ≡ true = ground (arith, step x) in
      let (j, e, at_j, id) = o.owned x before in
      (j, e, ground (arith, lookup-erase k j m, step x, eq_iff k j, eq_iff ent.entry_id x), id);
}

pub Owns-insert :
    {m : Map RegisteredEntry} {live live' : String → Bool} (k : String) (ent : RegisteredEntry)
    → lookup k m ≡ none
    → live ent.entry_id ≡ false
    → ((x : String) → live' x ≡ (if ent.entry_id == x then true else live x))
    → Owns m live
    → Owns (insert k ent m) live'
Owns-insert {m} {live} {live'} k ent at_k fresh step o = record {
  held = λ j e h.
      ground (
        arith,
        step e.entry_id,
        lookup-insert k j ent m,
        o.held j e,
        eq_iff ent.entry_id e.entry_id,
      );
  unique = λ j i e f h g same. ground (
    arith,
    lookup-insert k j ent m,
    lookup-insert k i ent m,
    o.unique j i e f,
    o.held j e,
    o.held i f,
    eq_iff k j,
    eq_iff k i,
  );
  owned = λ x h. elim (Bool-cases (ent.entry_id == x)) [
    | inl new ↦ (k, ent, rw lookup-insert (rw eq_refl), (eq_iff ent.entry_id x).0 new)
    | inr old ↦
        let before : live x ≡ true = ground (arith, step x) in
        let (j, e, at_j, id) = o.owned x before in
        (j, e, ground (arith, lookup-insert k j ent m, eq_iff k j), id)
  ];
}

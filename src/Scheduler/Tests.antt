-- ===== src/Scheduler/Tests.antt =====
-- The theorems on reconcile, at a scheduler with two slots for cron entries and at one that never
-- fails.
use omkit_go.Prelude.{
  Bool-cases, inl, inr, sym, ℕ, ◌+◌, String, ◌≡◌, refl, ap, Bool, true, false, Option, none, some,
  [], ◌∷◌, Map, lookup, ◌==◌, eq_iff, arith, if◌then◌else◌,
}
use omkit_go.Jobqueue.Json.{str}
use omkit_go.Scheduler.Entries.{AsynqLaws}
use omkit_go.Scheduler.Ownership.{IsOwner, reconcile-IsOwner}
use omkit_go.Scheduler.Loop.{Row, Tick, fetch_providers, new, start, start-IsOwner}
use omkit_go.Scheduler.{Provider, RegisteredEntry, Asynq, Scheduler, State, reconcile}

-- Whether each of the entries "a" and "b" is registered.
abbrev Slots : Type 0
Slots = Bool × Bool

abbrev take_slot : Slots → Slots × Option String
take_slot (false, b) = ((true, b), some "a")
take_slot (true, false) = ((true, true), some "b")
take_slot (true, true) = ((true, true), none)

abbrev free_slot : String → Slots → Slots × Bool
free_slot id (a, b) =
    if id == "a"
    then ((false, b), true)
    else if id == "b"
    then ((a, false), true)
    else ((a, b), false)

abbrev slots : Asynq Slots
slots = record { register = λ spec t os a. take_slot a; unregister = free_slot }

abbrev live : Slots → String → Bool
live (a, b) x = if x == "a" then a else if x == "b" then b else false

take_slot-fresh : (a a' : Slots) (id : String) → take_slot a ≡ (a', some id) → live a id ≡ false
take_slot-fresh (false, b) a' id e = ground (arith, e, eq_iff id "a")
take_slot-fresh (true, false) a' id e =
    ground (arith, e, eq_iff id "b", eq_iff id "a", eq_iff "b" "a")
take_slot-fresh (true, true) a' id e = ground (arith, e)

take_slot-adds :
    (a a' : Slots) (id x : String)
    → take_slot a ≡ (a', some id)
    → live a' x ≡ (if id == x then true else live a x)
take_slot-adds (false, b) a' id x e = ground (arith, e, eq_iff "a" x, eq_iff x "a", eq_iff x "b")
take_slot-adds (true, false) a' id x e = ground (arith, e, eq_iff "b" x, eq_iff x "a", eq_iff x "b")
take_slot-adds (true, true) a' id x e = ground (arith, e)

take_slot-keeps : (a a' : Slots) (x : String) → take_slot a ≡ (a', none) → live a' x ≡ live a x
take_slot-keeps (false, b) a' x e = ground (arith, e)
take_slot-keeps (true, false) a' x e = ground (arith, e)
take_slot-keeps (true, true) a' x e = ground (arith, e)

free_slot-removes :
    (id : String) (a a' : Slots) (x : String)
    → free_slot id a ≡ (a', true)
    → live a' x ≡ (if id == x then false else live a x)
free_slot-removes id (a, b) a' x e = ground (
  arith,
  e,
  eq_iff id "a",
  eq_iff id "b",
  eq_iff x "a",
  eq_iff x "b",
  eq_iff id x,
  eq_iff "a" "b",
)

free_slot-spares :
    (id : String) (a a' : Slots) (x : String) → free_slot id a ≡ (a', false) → live a' x ≡ live a x
free_slot-spares id (a, b) a' x e = ground (arith, e)

slots-AsynqLaws : AsynqLaws slots live
slots-AsynqLaws = record {
  fresh = λ spec t os a a' id e. take_slot-fresh a a' id e;
  adds = λ spec t os a a' id x e. take_slot-adds a a' id x e;
  keeps = λ spec t os a a' x e. take_slot-keeps a a' x e;
  removes = free_slot-removes;
  spares = free_slot-spares;
}

abbrev nil_uuid : String
nil_uuid = "00000000-0000-0000-0000-000000000000"

-- A provider's config is its cron spec, if it has one.
abbrev scheduler : {S : Type 0} → Asynq S → Scheduler S (Option String)
scheduler q = record {
  asynq = q;
  kind = "source";
  queue_name = "sync";
  task_type = "sync:run";
  derive_cron = λ p. p.config;
  immediate = true;
  marshal = λ c. some (str "config");
  digest = λ spec j. spec;
  is_uuid = λ t. t == nil_uuid;
}

abbrev hourly : Provider (Option String)
hourly = record { tenant_id = nil_uuid; name = "gmail"; config = some "@hourly" }

-- The entry "a" stands under a key that has no row.
abbrev old_entries : Map RegisteredEntry
old_entries = ("gone", record { entry_id = "a"; hash = "@daily"; cronspec = "@daily" }) ∷ []

abbrev entry_id_of : Option RegisteredEntry → String
entry_id_of none = "a"
entry_id_of (some e) = e.entry_id

before_id : (k : String) (e : RegisteredEntry) → lookup k old_entries ≡ some e → e.entry_id ≡ "a"
unfolding lookup
before_id k e h = elim (Bool-cases ("gone" == k)) [
  | inl s ↦ ap entry_id_of (sym (rw s at h))
  | inr s ↦ absurd (ground (arith, h, s))
]

abbrev before : State Slots
before = record { entries = old_entries; asynq_state = (true, false); enqueued = [] }

before-IsOwner : IsOwner (scheduler slots) live slots-AsynqLaws before
unfolding lookup
before-IsOwner = record {
  held = λ k e h. rw (before_id k e h);
  unique = λ k j e f h g s. ground (arith, h, g, eq_iff "gone" k, eq_iff "gone" j);
  owned = λ x h. (
    "gone",
    record { entry_id = "a"; hash = "@daily"; cronspec = "@daily" },
    refl,
    ground (arith, h, eq_iff x "a"),
  );
}

abbrev hourly_key : String
hourly_key = "00000000-0000-0000-0000-000000000000:gmail"

reconcile-IsOwner_example :
    IsOwner
      (scheduler slots)
      live
      slots-AsynqLaws
      (reconcile (scheduler slots) (some (hourly ∷ [])) ("gone" ∷ []) (hourly_key ∷ []) before)
reconcile-IsOwner_example =
    reconcile-IsOwner (scheduler slots) live slots-AsynqLaws (some (hourly ∷ [])) ("gone" ∷ [])
      (hourly_key ∷ []) before before-IsOwner

-- It gives out one id and counts the registrations.
abbrev counter : Asynq ℕ
counter = record { register = λ spec t os n. (n + 1, some "a"); unregister = λ id n. (n, true) }

abbrev counted : State ℕ
counted = record { entries = old_entries; asynq_state = 1; enqueued = [] }

abbrev tenant_valid : Option (Provider (Option String)) → Bool
tenant_valid none = true
tenant_valid (some p) = p.tenant_id == nil_uuid

abbrev row : Row (Option String)
row = record {
  scanned = true;
  tenant_id = nil_uuid;
  name = "gmail";
  config = some (some "@hourly");
}

abbrev appears : Tick (Option String)
appears = record {
  rows = fetch_providers none true true (row ∷ []);
  old_keys = [];
  new_keys = hourly_key ∷ [];
}

abbrev disappears : Tick (Option String)
disappears = record {
  rows = fetch_providers none true true [];
  old_keys = hourly_key ∷ [];
  new_keys = [];
}

both_free : (x : String) → live (false, false) x ≡ false
both_free x = ground arith

start-IsOwner_example :
    IsOwner
      (scheduler slots)
      live
      slots-AsynqLaws
      (start (scheduler slots) true appears (disappears ∷ appears ∷ []) (new (false, false))).0
start-IsOwner_example =
    start-IsOwner (scheduler slots) live slots-AsynqLaws (false, false) true appears
      (disappears ∷ appears ∷ []) both_free

-- ===== src/Scheduler/Loop.antt =====
-- scheduler/scheduler.go around reconcile: the query of the providers table, New, Start and the loop
-- that reconciles at every tick.
use omkit_go.Prelude.{
  String, ◌≡◌, Bool, true, false, Option, none, some, List, [], ◌∷◌, lookup, if◌then◌else◌, arith,
}
use omkit_go.Scheduler.Entries.{AsynqLaws}
use omkit_go.Scheduler.Ownership.{IsOwner, reconcile-IsOwner}
use omkit_go.Scheduler.{Provider, Scheduler, State, reconcile}

-- One row of the query: whether Scan reads it, its columns, and the decoded config, with `none` for
-- a config that is no JSON object.
pub record Row (C : Type 0) : Type 0 where
  pub scanned : Bool
  pub tenant_id : String
  pub name : String
  pub config : Option C

or_empty : {C : Type 0} → C → Option C → C
or_empty empty none = empty
or_empty empty (some c) = c

module _ {C : Type 0} (empty : C) where
  -- The loop over the rows: a row that Scan does not read is left out.
  unfoldable pub providers_of : List (Row C) → List (Provider C)
  unfolding or_empty
  providers_of [] = []
  providers_of (r ∷ rs) =
      let rest = providers_of rs in
      if r.scanned
      then record { tenant_id = r.tenant_id; name = r.name; config = or_empty empty r.config }
        ∷ rest
      else rest

  -- FetchProviders; `none` is an error, of the query or at the end of the rows, with which reconcile
  -- does not look at the rows.
  unfoldable pub fetch_providers :
      (queried ended : Bool) → List (Row C) → Option (List (Provider C))
  fetch_providers queried ended rows =
      if queried then (if ended then some (providers_of rows) else none) else none

-- What one reconcile meets: the rows, and the two orders.
pub record Tick (C : Type 0) : Type 0 where
  pub rows : Option (List (Provider C))
  pub old_keys : List String
  pub new_keys : List String

-- New, with the asynq scheduler in the state `a`.
unfoldable pub new : {S : Type 0} → S → State S
new a = record { entries = []; asynq_state = a; enqueued = [] }

module _ {S C : Type 0} (s : Scheduler S C) where
  unfoldable pub tick : Tick C → State S → State S
  tick t st = reconcile s t.rows t.old_keys t.new_keys st

  -- runLoop, up to a time at which its ticks have been these.
  unfoldable pub run_loop : List (Tick C) → State S → State S
  run_loop [] st = st
  run_loop (t ∷ ts) st = run_loop ts (tick t st)

  -- Start, with whether asynq starts: the first reconcile and then the loop, or an error.
  unfoldable pub start : Bool → Tick C → List (Tick C) → State S → State S × Bool
  start true first ticks st = (run_loop ticks (tick first st), true)
  start false first ticks st = (st, false)

module _ {S C : Type 0} (s : Scheduler S C) (live : S → String → Bool)
    (laws : AsynqLaws s.asynq live) where
  run_loop-IsOwner :
      (ts : List (Tick C)) (st : State S)
      → IsOwner s live laws st
      → IsOwner s live laws (run_loop s ts st)
  unfolding run_loop tick
  run_loop-IsOwner [] st o = o
  run_loop-IsOwner (t ∷ ts) st o =
      run_loop-IsOwner ts (tick s t st)
        (reconcile-IsOwner s live laws t.rows t.old_keys t.new_keys st o)

  new-IsOwner : (a : S) → ((x : String) → live a x ≡ false) → IsOwner s live laws (new a)
  unfolding new lookup
  new-IsOwner a idle = record {
    held = λ k e h. absurd (ground (arith, h));
    unique = λ k j e f h g same. absurd (ground (arith, h));
    owned = λ x h. absurd (ground (arith, h, idle x));
  }

  -- A scheduler made by New over an asynq scheduler without entries has, after Start, whether or not
  -- asynq starts, and after any number of ticks, exactly the live cron entries of asynq in its
  -- table, one key for each, whatever each tick fetches and whichever calls fail.
  pub start-IsOwner :
      (a : S) (ok : Bool) (first : Tick C) (ticks : List (Tick C))
      → ((x : String) → live a x ≡ false)
      → IsOwner s live laws (start s ok first ticks (new a)).0
  unfolding start tick
  start-IsOwner a true first ticks idle = run_loop-IsOwner ticks (tick s first (new a)) (
      reconcile-IsOwner s live laws first.rows first.old_keys first.new_keys (new a)
        (new-IsOwner a idle))
  start-IsOwner a false first ticks idle = new-IsOwner a idle

-- ===== src/Cleanup/Run.antt =====
-- cleanup/loop.go: Run and tick of one replica, where no other is in the middle of a tick. The lists
-- are the branches that the select of Run takes.
pub mod Laws
use omkit_go.Prelude.{
  ℕ, suc, Bool, true, false, ◌&&◌, Option, none, some, List, [], ◌∷◌, if◌then◌else◌,
}
use omkit_go.Cleanup.{
  Phase, waiting, asking, running, leaked, rerunning, World, acquire, lock, give_up, unlock, leak,
  relock,
}

-- Which calls of a tick succeed: Acquire, the query for the lock, and the statement that releases it.
pub record Tick : Type 0 where
  pub acquired : Bool
  pub queried : Bool
  pub released : Bool

abbrev pub is_free : Option ℕ → Bool
is_free none = true
is_free (some i) = false

-- A tick with a connection, by the phase that it starts in, and whether the task runs. In `leaked`
-- the pool hands out the connection that has the lock: it has the lock twice then, and one release
-- leaves it with it.
unfoldable pub tick_from : Phase → ℕ → Tick → World → World × Bool
tick_from waiting i t w =
    let w' = acquire i w in
    if t.queried && is_free w'.holder
    then (if t.released then unlock i (lock i w') else leak i (lock i w'), true)
    else (give_up i w', false)
tick_from leaked i t w = if t.queried then (leak i (relock i w), true) else (w, false)
tick_from asking i t w = (w, false)
tick_from running i t w = (w, false)
tick_from rerunning i t w = (w, false)

unfoldable pub tick : ℕ → Tick → World → World × Bool
unfolding tick_from
tick i t w = if t.acquired then tick_from (w.phase i) i t w else (w, false)

pub data Branch : Type 0 where
  done : Branch
  ticked : Tick → Branch

-- Run: the world after it, the number of runs of the task, and whether Run has returned.
unfoldable pub run : ℕ → List Branch → World → World × (ℕ × Bool)
run i [] w = (w, (0, false))
run i (done ∷ bs) w = (w, (0, true))
run i (ticked t ∷ bs) w =
    let first = tick i t w in
    let rest = run i bs first.0 in (rest.0, (if first.1 then suc rest.1.0 else rest.1.0, rest.1.1))

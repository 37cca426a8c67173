-- ===== src/Cleanup.antt =====
-- cleanup/loop.go: a task that replicas of a service run by turns under an advisory lock. A replica
-- is a number; the database has the lock for one connection at most, and keeps a connection open
-- while a task runs under it. A step is one
-- statement of one replica's tick, in any order between replicas.
pub mod Exclusion
pub mod Run
mod Tests
use omkit_go.Prelude.{
  ℕ, zero, ◌≡◌, String, Bool, true, false, Option, none, some, List, [], ◌∷◌, if◌then◌else◌, ◌==◌,
  ltb,
}
use omkit_go.Prelude.Int.{ℤ, pos, neg_part, pos_part}

pub record Config : Type 0 where
  pub lock_key : ℤ
  pub interval : ℤ
  pub name : String

-- NewLoop's defaults.
unfoldable pub new_loop : Config → Config
new_loop cfg = record cfg {
  interval = elim cfg.interval [ pos zero ↦ pos 60_000_000_000 | _ ↦ cfg.interval ];
  name = if cfg.name == "" then "cleanup-loop" else cfg.name;
}

-- Where the ticks of a replica stand: it has no connection, it has one and asks for the lock, or its
-- task runs. `leaked` is its connection back in the pool with the lock not released, and `rerunning`
-- a later tick that was given this connection, whose session may take its lock again.
pub data Phase : Type 0 where
  waiting asking running leaked rerunning : Phase

-- The phases of the replicas, and the replica whose connection has the lock.
pub record World : Type 0 where
  pub phase : ℕ → Phase
  pub holder : Option ℕ

abbrev pub eq_ℕ : ℕ → ℕ → Bool
eq_ℕ a b = if ltb a b then false else if ltb b a then false else true

unfoldable pub enter : ℕ → Phase → World → ℕ → Phase
enter i p w j = if eq_ℕ i j then p else w.phase j

-- Acquire succeeds.
unfoldable pub acquire : ℕ → World → World
acquire i w = record w { phase = enter i asking w }

-- The lock is free: pg_try_advisory_lock is true, and the task starts.
unfoldable pub lock : ℕ → World → World
lock i w = record { phase = enter i running w; holder = some i }

-- The lock is taken, or the query fails: the tick ends, and the connection is released.
unfoldable pub give_up : ℕ → World → World
give_up i w = record w { phase = enter i waiting w }

-- The task has returned, with an error or without, and the lock is released.
unfoldable pub unlock : ℕ → World → World
unlock i w = record { phase = enter i waiting w; holder = none }

-- The statement that releases the lock fails; the tick ends all the same.
unfoldable pub leak : ℕ → World → World
leak i w = record w { phase = enter i leaked w }

-- The lock is taken by the connection's own session: the task starts.
unfoldable pub relock : ℕ → World → World
relock i w = record w { phase = enter i rerunning w }

-- The database ends the session of a leaked connection, and its lock.
unfoldable pub drop_session : ℕ → World → World
drop_session i w = record { phase = enter i waiting w; holder = none }

-- The steps of ticks.
pub data Step : World → World → Type 0 where
  acquired : (i : ℕ) (w : World) → w.phase i ≡ waiting → Step w (acquire i w)
  locked : (i : ℕ) (w : World) → w.phase i ≡ asking → w.holder ≡ none → Step w (lock i w)
  contended : (i : ℕ) (w : World) → w.phase i ≡ asking → Step w (give_up i w)
  unlocked : (i : ℕ) (w : World) → w.phase i ≡ running → Step w (unlock i w)
  unlock_failed : (i : ℕ) (w : World) → w.phase i ≡ running → Step w (leak i w)
  relocked : (i : ℕ) (w : World) → w.phase i ≡ leaked → Step w (relock i w)
  rerun_done : (i : ℕ) (w : World) → w.phase i ≡ rerunning → Step w (leak i w)
  session_ended : (i : ℕ) (w : World) → w.phase i ≡ leaked → Step w (drop_session i w)

pub data Reachable : World → World → Type 0 where
  here : (w : World) → Reachable w w
  after : (u v w : World) → Reachable u v → Step v w → Reachable u w

unfoldable pub at_rest : World
at_rest = record { phase = λ i. waiting; holder = none }

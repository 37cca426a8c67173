-- ===== src/Cleanup/Tests.antt =====
-- The theorems on the cleanup lock, where the first replica runs and then keeps the lock.
use omkit_go.Prelude.{ℕ, ◌≡◌, refl, ap, arith, true, false, some, List, [], ◌∷◌}
use omkit_go.Cleanup.Exclusion.{runs, reachable-exclusive, reachable-blocked}
use omkit_go.Cleanup.Run.{Branch, done, ticked, run, tick, tick_from}
use omkit_go.Cleanup.Run.Laws.{Idle, due_ticks, run-due}
use omkit_go.Cleanup.{
  unlock, World, Reachable, here, after, acquired, locked, unlock_failed, acquire, lock, leak,
  at_rest, running, leaked, enter,
}

abbrev asked : World
asked = acquire 1 at_rest

abbrev busy : World
busy = lock 1 asked

abbrev stuck : World
stuck = leak 1 busy

to_busy : Reachable at_rest busy
unfolding acquire at_rest enter
to_busy =
    after at_rest asked busy (after at_rest at_rest asked (here at_rest) (acquired 1 at_rest refl))
      (locked 1 asked refl refl)

in_task : busy.phase 1 ≡ running
unfolding lock enter
in_task = refl

abbrev first : ℕ
first = 1

reachable-exclusive_example : (first ≡ first) × (busy.holder ≡ some first)
reachable-exclusive_example =
    reachable-exclusive busy 1 1 to_busy (ap runs in_task) (ap runs in_task)

to_stuck : Reachable at_rest stuck
to_stuck = after at_rest busy stuck to_busy (unlock_failed 1 busy in_task)

leaks : stuck.phase 1 ≡ leaked
unfolding leak enter
leaks = refl

reachable-blocked_example : (runs (stuck.phase 2) ≡ false) × (stuck.holder ≡ some 1)
reachable-blocked_example = reachable-blocked stuck 1 2 to_stuck leaks (λ e. omega (arith, e))

-- A tick that gets no connection, one that runs the task, and the end of the context.
abbrev branches : List Branch
branches =
    ticked (record { acquired = false; queried = true; released = true })
    ∷ ticked (record { acquired = true; queried = true; released = true })
    ∷ done
    ∷ []

run-due_example :
    ((run 1 branches at_rest).1.0 ≡ due_ticks branches) × Idle 1 (run 1 branches at_rest).0
unfolding at_rest
run-due_example = run-due 1 branches at_rest (refl, (refl, (tt, tt))) (refl, refl)

one_run : (run 1 branches at_rest).1 ≡ (1, true)
unfolding run tick tick_from at_rest acquire lock unlock enter
one_run = refl

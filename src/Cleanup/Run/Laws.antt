-- ===== src/Cleanup/Run/Laws.antt =====
-- Run does only the steps of ticks, and its ticks run the task.
use omkit_go.Prelude.{
  ℕ, suc, ◌≡◌, refl, Bool, true, false, ◌&&◌, Option, none, some, List, [], ◌∷◌, if◌then◌else◌,
  Bool-cases, All, inl, inr, arith,
}
use omkit_go.Cleanup.{
  Phase, waiting, asking, running, leaked, rerunning, World, acquire, lock, give_up, unlock, relock,
  enter, eq_ℕ, Reachable, after, acquired, locked, contended, unlocked, unlock_failed, relocked,
  rerun_done,
}
use omkit_go.Cleanup.Run.{Tick, Branch, done, ticked, is_free, tick, tick_from, run}

eq_ℕ-self : (i : ℕ) → eq_ℕ i i ≡ true
eq_ℕ-self i = ground arith

entered : (i : ℕ) (p : Phase) (w : World) → enter i p w i ≡ p
unfolding enter
entered i p w = rw (eq_ℕ-self i) refl

free_iff : (h : Option ℕ) → is_free h ≡ true → h ≡ none
free_iff none e = refl
free_iff (some i) e = absurd (ground (arith, e))

-- The steps of a tick that gets the lock, and then releases it or not.
lock-Reachable :
    {u : World} (i : ℕ) (w : World)
    → Reachable u w
    → w.phase i ≡ waiting
    → w.holder ≡ none
    → Reachable u (lock i (acquire i w))
unfolding acquire
lock-Reachable i w r p free =
    after _ _ _ (after _ _ _ r (acquired i w p)) (locked i (acquire i w) (entered i asking w) free)

tick_from-Reachable :
    {u : World} (p : Phase) (i : ℕ) (t : Tick) (w : World)
    → Reachable u w
    → w.phase i ≡ p
    → Reachable u (tick_from p i t w).0
unfolding tick_from acquire lock relock
tick_from-Reachable asking i t w r e = r
tick_from-Reachable running i t w r e = r
tick_from-Reachable rerunning i t w r e = r
tick_from-Reachable leaked i t w r e = elim (Bool-cases t.queried) [
  | inl q ↦ rw q (
      after _ _ _ (after _ _ _ r (relocked i w e))
        (rerun_done i (relock i w) (entered i rerunning w)))
  | inr q ↦ rw q r
]
tick_from-Reachable waiting i t w r e = elim (Bool-cases (t.queried && is_free w.holder)) [
  | inr taken ↦ rw taken (
      after _ _ _ (after _ _ _ r (acquired i w e)) (contended i (acquire i w) (entered i asking w)))
  | inl got ↦
      let free = free_iff w.holder (ground (arith, got)) in
      let task = lock-Reachable i w r e free in
      let runs = entered i running (acquire i w) in
      rw got (elim (Bool-cases t.released) [
        | inl l ↦ rw l (after _ _ _ task (unlocked i (lock i (acquire i w)) runs))
        | inr l ↦ rw l (after _ _ _ task (unlock_failed i (lock i (acquire i w)) runs))
      ])
]

if-Reachable :
    {u : World} (b : Bool) (x y : World × Bool)
    → Reachable u x.0
    → Reachable u y.0
    → Reachable u (if b then x else y).0
if-Reachable true x y r s = r
if-Reachable false x y r s = s

tick-Reachable :
    {u : World} (i : ℕ) (t : Tick) (w : World) → Reachable u w → Reachable u (tick i t w).0
unfolding tick
tick-Reachable i t w r =
    if-Reachable t.acquired _ _ (tick_from-Reachable (w.phase i) i t w r refl) r

-- Whatever branches its select takes and whichever calls of its ticks fail, Run of a replica goes
-- from a world that steps of ticks reach to one that they reach.
pub run-Reachable :
    {u : World} (i : ℕ) (bs : List Branch) (w : World) → Reachable u w → Reachable u (run i bs w).0
unfolding run
run-Reachable i [] w r = r
run-Reachable i (done ∷ bs) w r = r
run-Reachable i (ticked t ∷ bs) w r = run-Reachable i bs (tick i t w).0 (tick-Reachable i t w r)

-- No tick is under way, and the lock is free.
abbrev pub Idle : ℕ → World → Type 0
Idle i w = (w.phase i ≡ waiting) × (w.holder ≡ none)

-- A tick gets a connection, and an answer to its query.
abbrev pub is_due : Tick → Bool
is_due t = t.acquired && t.queried

tick_from-Idle :
    (i : ℕ) (t : Tick) (w : World)
    → t.released ≡ true
    → Idle i w
    → Idle i (tick_from waiting i t w).0 × ((tick_from waiting i t w).1 ≡ t.queried)
unfolding tick_from acquire lock unlock give_up
tick_from-Idle i t w l (p, free) = elim (Bool-cases t.queried) [
  | inl q ↦ simp (q, free, l) ((entered i waiting _, refl), refl)
  | inr q ↦ simp (q, free, l) ((entered i waiting _, refl), refl)
]

tick-Idle :
    (i : ℕ) (t : Tick) (w : World)
    → t.released ≡ true
    → Idle i w
    → Idle i (tick i t w).0 × ((tick i t w).1 ≡ is_due t)
unfolding tick
tick-Idle i t w l idle = elim (Bool-cases t.acquired) [
  | inl a ↦ simp (a, idle.0) (tick_from-Idle i t w l idle)
  | inr a ↦ simp a (idle, refl)
]

-- The ticks that are due before Run returns.
abbrev pub due_ticks : List Branch → ℕ
due_ticks [] = 0
due_ticks (done ∷ bs) = 0
due_ticks (ticked t ∷ bs) = if is_due t then suc (due_ticks bs) else due_ticks bs

-- Each tick releases the lock where it has it.
abbrev pub Releases : Branch → Type 0
Releases done = Unit
Releases (ticked t) = t.released ≡ true

-- Where the lock is free at the start, no other replica's tick comes between and no release fails,
-- Run of a replica runs the task once for each tick, before the context is done, that gets a
-- connection and an answer to its query, and leaves the lock free.
pub run-due :
    (i : ℕ) (bs : List Branch) (w : World)
    → All Releases bs
    → Idle i w
    → ((run i bs w).1.0 ≡ due_ticks bs) × Idle i (run i bs w).0
unfolding run
run-due i [] w h idle = (refl, idle)
run-due i (done ∷ bs) w h idle = (refl, idle)
run-due i (ticked t ∷ bs) w (l, h) idle =
    let (idle', ran) = tick-Idle i t w l idle in
    let (n, end) = run-due i bs (tick i t w).0 h idle' in (ground (arith, n, ran), end)

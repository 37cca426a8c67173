-- ===== src/Cleanup/Exclusion.antt =====
-- At most one replica runs the task, in every world that steps of ticks reach.
use omkit_go.Prelude.{
  ℕ, ◌≡◌, ◌≢◌, ◌⊎◌, inl, inr, refl, ap, ◌∙◌, sym, Bool, true, false, Option, some, arith,
  Bool-cases,
}
use omkit_go.Cleanup.{
  Phase, waiting, asking, running, leaked, rerunning, World, eq_ℕ, enter, acquire, lock, give_up,
  unlock, leak, drop_session, Step, acquired, locked, contended, unlocked, unlock_failed, relocked,
  rerun_done, relock, session_ended, Reachable, here, after, at_rest,
}

abbrev pub runs : Phase → Bool
runs waiting = false
runs asking = false
runs running = true
runs leaked = false
runs rerunning = true

abbrev pub needs_lock : Phase → Bool
needs_lock waiting = false
needs_lock asking = false
needs_lock running = true
needs_lock leaked = true
needs_lock rerunning = true

runs-needs_lock : (p : Phase) → runs p ≡ true → needs_lock p ≡ true
runs-needs_lock waiting h = h
runs-needs_lock asking h = h
runs-needs_lock running h = h
runs-needs_lock leaked h = absurd (ground (arith, h))
runs-needs_lock rerunning h = h

-- A replica in a phase that needs the lock has it.
abbrev pub Holding : World → Type 0
Holding w = (i : ℕ) → needs_lock (w.phase i) ≡ true → w.holder ≡ some i

enter-other : (i j : ℕ) (p : Phase) (w : World) → i ≢ j → enter i p w j ≡ w.phase j
unfolding enter
enter-other i j p w h = ground (arith, h)

same_or_not : (i j : ℕ) → (i ≡ j) ⊎ (i ≢ j)
same_or_not i j = elim (Bool-cases (eq_ℕ i j)) [
  | inl t ↦ inl (ground (arith, t))
  | inr f ↦ inr (λ e. ground (arith, f, e))
]

of_some : (i j : ℕ) → ◌≡◌ {A = Option ℕ} (some i) (some j) → i ≡ j
of_some i j h = ground (arith, h)

at_rest-Holding : Holding at_rest
unfolding at_rest
at_rest-Holding i needs = absurd (ground (arith, needs))

-- A replica that needs the lock, after another phase was entered that does not need it.
stays :
    (i j : ℕ) (p : Phase) (w : World)
    → needs_lock p ≡ false
    → needs_lock (enter i p w j) ≡ true
    → (i ≢ j) × (needs_lock (w.phase j) ≡ true)
unfolding enter
stays i j p w idle needs = elim (Bool-cases (eq_ℕ i j)) [
  | inl t ↦ absurd (ground (arith, idle, rw t at needs))
  | inr f ↦ (λ e. ground (arith, f, e), rw f at needs)
]

-- The lock of one replica is not that of another.
one_holder :
    (w : World) (i j : ℕ)
    → Holding w
    → needs_lock (w.phase i) ≡ true
    → needs_lock (w.phase j) ≡ true
    → i ≡ j
one_holder w i j h p q = of_some i j (sym (h i p) ∙ h j q)

-- A replica that has the lock keeps it in another phase.
keeps :
    (i j : ℕ) (p : Phase) (w : World)
    → Holding w
    → needs_lock (w.phase i) ≡ true
    → needs_lock (enter i p w j) ≡ true
    → w.holder ≡ some j
keeps i j p w h has needs = elim (same_or_not i j) [
  | inl e ↦ h i has ∙ ap (λ (n : ℕ). some n) e
  | inr other ↦ h j (rw (enter-other i j p w other) at needs)
]

-- The only replica that needs the lock lets it go.
lets_go :
    (i j : ℕ) (w : World)
    → Holding w
    → needs_lock (w.phase i) ≡ true
    → needs_lock (enter i waiting w j) ≡ true
    → ⊥
lets_go i j w h has needs =
    let (other, q) = stays i j waiting w refl needs in other (one_holder w i j h has q)

Step-Holding : {v w : World} → Step v w → Holding v → Holding w
unfolding acquire lock give_up unlock leak relock drop_session
Step-Holding (acquired i w p) h j needs = h j (stays i j asking w refl needs).1
Step-Holding (contended i w p) h j needs = h j (stays i j waiting w refl needs).1
Step-Holding (locked i w p free) h j needs = elim (same_or_not i j) [
  | inl e ↦ ap (λ (n : ℕ). some n) e
  | inr other ↦ absurd (ground (arith, free, h j (rw (enter-other i j running w other) at needs)))
]
Step-Holding (unlocked i w p) h j needs = absurd (lets_go i j w h (ap needs_lock p) needs)
Step-Holding (session_ended i w p) h j needs = absurd (lets_go i j w h (ap needs_lock p) needs)
Step-Holding (unlock_failed i w p) h j needs = keeps i j leaked w h (ap needs_lock p) needs
Step-Holding (rerun_done i w p) h j needs = keeps i j leaked w h (ap needs_lock p) needs
Step-Holding (relocked i w p) h j needs = keeps i j rerunning w h (ap needs_lock p) needs

Reachable-Holding : {u w : World} → Reachable u w → Holding u → Holding w
Reachable-Holding (here w) h = h
Reachable-Holding (after u v w r s) h = Step-Holding s (Reachable-Holding r h)

-- In every world that the ticks of any replicas reach from one where none has begun, whatever the
-- order of their statements and whichever of these fail, at most one replica runs the task, and
-- the lock is its connection's; a connection is not lost while a task runs under it.
pub reachable-exclusive :
    (w : World) (i j : ℕ)
    → Reachable at_rest w
    → runs (w.phase i) ≡ true
    → runs (w.phase j) ≡ true
    → (i ≡ j) × (w.holder ≡ some i)
reachable-exclusive w i j r p q =
    let h = Reachable-Holding r at_rest-Holding in
    let p' = runs-needs_lock (w.phase i) p in
    (one_holder w i j h p' (runs-needs_lock (w.phase j) q), h i p')

-- Once the release of the lock has failed for a replica, whose connection went back to its pool with
-- the lock, no other replica runs the task, and the lock is not free.
pub reachable-blocked :
    (w : World) (i j : ℕ)
    → Reachable at_rest w
    → w.phase i ≡ leaked
    → i ≢ j
    → (runs (w.phase j) ≡ false) × (w.holder ≡ some i)
reachable-blocked w i j r p other =
    let h = Reachable-Holding r at_rest-Holding in
    let has = ap needs_lock p in
    (
      elim (Bool-cases (runs (w.phase j))) [
        | inl t ↦ absurd (other (one_holder w i j h has (runs-needs_lock (w.phase j) t)))
        | inr f ↦ f
      ],
      h i has,
    )

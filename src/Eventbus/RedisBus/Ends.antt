-- ===== src/Eventbus/RedisBus/Ends.antt =====
-- When Subscribe of the Redis bus returns.
use omkit_go.Prelude.{
  String, ◌≡◌, refl, Bool, true, false, ◌||◌, List, [], ◌∷◌, Option, none, some, lookup, inl, inr,
  Bool-cases, ◌⊎◌, ◌∙◌, arith, if◌then◌else◌,
}
use omkit_go.Prelude.Int.{pos}
use omkit_go.Valkeystream.{Message, Redis, Stream, read_group}
use omkit_go.Eventbus.RedisBus.{
  Bus, Round, Run, running, ctx_error, stream_for, deliver, after_read, subscribe_loop, subscribed,
  subscribe,
}

module _ {S : Type 0} where
  -- A round at whose start the context is done.
  abbrev pub cancelled : List (Round S) → Bool
  cancelled [] = false
  cancelled (r ∷ rs) = r.ctx_done || cancelled rs

  -- A round in which a failed read finds the context done.
  abbrev pub failing : List (Round S) → Bool
  failing [] = false
  failing (r ∷ rs) = r.ctx_failed || failing rs

  module _ (redis : Redis S) (s : Stream) (topic : String) where
    after_read-outcome :
        (r : Round S) (rest : S → Run S) (got : S × Option (List Message))
        → ((after_read redis s topic r rest got).outcome ≡ ctx_error)
          ⊎ ((st : S) × ((after_read redis s topic r rest got).outcome ≡ (rest st).outcome))
    unfolding after_read
    after_read-outcome r rest (st, none) = elim (Bool-cases r.ctx_failed) [
      | inl f ↦ inl (rw f refl)
      | inr f ↦ inr (st, rw f refl)
    ]
    after_read-outcome r rest (st, some ms) =
        inr ((deliver redis s topic r.now r.handler ms st).0, refl)

    after_read-running :
        (r : Round S) (rest : S → Run S) (got : S × Option (List Message))
        → r.ctx_failed ≡ false
        → ((st : S) → (rest st).outcome ≡ running)
        → (after_read redis s topic r rest got).outcome ≡ running
    unfolding after_read
    after_read-running r rest (st, none) f h = rw f (h st)
    after_read-running r rest (st, some ms) f h = h (deliver redis s topic r.now r.handler ms st).0

    loop-running :
        (rs : List (Round S)) (st : S)
        → (cancelled rs || failing rs) ≡ false
        → (subscribe_loop redis s topic rs st).outcome ≡ running
    unfolding subscribe_loop
    loop-running [] st h = refl
    loop-running (r ∷ rs) st h =
        let f : r.ctx_done ≡ false = ground (arith, h) in
        rw f (
          after_read-running r (λ (next : S). subscribe_loop redis s topic rs next)
            (read_group redis s (pos 100) (pos 2_000_000_000) (r.others st)) (ground (arith, h))
            (λ next. loop-running rs next (ground (arith, h))))

    loop-cancelled :
        (rs : List (Round S)) (st : S)
        → cancelled rs ≡ true
        → (subscribe_loop redis s topic rs st).outcome ≡ ctx_error
    unfolding subscribe_loop
    loop-cancelled [] st h = absurd (ground (arith, h))
    loop-cancelled (r ∷ rs) st h = elim (Bool-cases r.ctx_done) [
      | inl f ↦ rw f refl
      | inr f ↦
          rw f
            (elim (after_read-outcome r (λ (next : S). subscribe_loop redis s topic rs next)
              (read_group redis s (pos 100) (pos 2_000_000_000) (r.others st))) [
                | inl e ↦ e
                | inr (next, e) ↦ e ∙ loop-cancelled rs next (ground (arith, h, f))
              ])
    ]

    -- Where no failed read finds the context done, Subscribe on a stream that is there returns the
    -- error of its context exactly where a round starts with the context done, and else it goes on,
    -- whatever the reads give: the errors that follow a Close of the bus do not end it.
    pub subscribe-ends :
        (rs : List (Round S)) (bus : Bus S)
        → lookup topic bus.streams ≡ some s
        → failing rs ≡ false
        → (subscribe redis topic rs bus).outcome ≡ (if cancelled rs then ctx_error else running)
    unfolding subscribe stream_for subscribed
    subscribe-ends rs bus e calm =
        rw (e, stream_for)
          (elim (Bool-cases (cancelled rs)) [
            | inl c ↦ rw c (loop-cancelled rs bus.server c)
            | inr c ↦ rw c (loop-running rs bus.server (ground (arith, c, calm)))
          ])

-- ===== src/Eventbus/Subscription/Lossless.antt =====
-- That no event is lost over a subscription of the Postgres bus.
use omkit_go.Prelude.{
  All-append, All-weaken, Among, Among-append, Among-left, Among-right, ℕ, ◌<◌, ◌≤◌, String, ◌≡◌,
  refl, ◌∙◌, ◌⊎◌, inl, inr, none, some, List, [], ◌∷◌, ◌++◌, lookup, insert, lookup-insert_self,
  Option-cases, arith,
}
use mathlib.Core.List as List
use omkit_go.Eventbus.{
  Event, PostgresConfig, Tables, matching, pending, poll_once, subscribe_row, with_bus_role,
}
use omkit_go.Eventbus.Delivery.{pending-some, poll_once-Keeps}
use omkit_go.Eventbus.Order.{Ascending, last_id}
use omkit_go.Eventbus.Subscription.Bounds.{
  AtMost, Above, Ascending-Above, last_id-ge, Among-accepted_by, Bounded, Bounded-arrive,
  matching-append, matching-Above, poll_once-Bounded,
}
use omkit_go.Eventbus.Subscription.{
  Turn, Wake, ctx_done, closed, ticked, accepted_by, arrive, loop, poll_turn, subscribe, started,
}

-- The events that arrive before Subscribe returns.
abbrev pub arrivals : List Wake → List Event
arrivals [] = []
arrivals (ctx_done ∷ ws) = []
arrivals (closed ∷ ws) = []
arrivals (ticked t ∷ ws) = t.arrived ++ arrivals ws

-- Their ids grow, from above `n` on.
abbrev pub Rising : ℕ → List Wake → Type 0
Rising n [] = Unit
Rising n (ctx_done ∷ ws) = Unit
Rising n (closed ∷ ws) = Unit
Rising n (ticked t ∷ ws) = Ascending n t.arrived × Rising (last_id n t.arrived) ws

arrivals-Above : (n m : ℕ) (ws : List Wake) → m ≤ n → Rising n ws → Above m (arrivals ws)
arrivals-Above n m [] h r = tt
arrivals-Above n m (ctx_done ∷ ws) h r = tt
arrivals-Above n m (closed ∷ ws) h r = tt
arrivals-Above n m (ticked t ∷ ws) h (a, r) =
    All-append (λ (e : Event). m < e.id) t.arrived (arrivals ws) (Ascending-Above n m t.arrived h a)
      (arrivals-Above (last_id n t.arrived) m ws (omega (arith, last_id-ge n t.arrived a)) r)

-- What is pending with the events to come, whatever the offset.
pending-arrive :
    (topic : String) (n : ℕ) (db : Tables) (es : List Event)
    → Bounded topic n db
    → Above n es
    → pending topic (arrive es db) ≡ pending topic db ++ matching topic n es
pending-arrive topic n db es b above =
    let l = b.last in
    let higher : Above l es = All-weaken (λ e h. omega (arith, h, b.within)) es above in
    pending-some topic (arrive es db) l b.offset
    ∙ (matching-append topic l db.events es
        ∙ rw (pending-some topic db l b.offset, matching-Above topic l n es higher above) refl)

-- An event that is pending before a poll, or is yet to come, is accepted in the poll or still is
-- afterwards.
poll-Lossless :
    (cfg : PostgresConfig) (topic : String) (t : Turn) (n : ℕ) (db : Tables) (es : List Event)
    (e : Event)
    → Bounded topic n db
    → Above n es
    → let polled = poll_once cfg t.query t.update t.handler topic db in
      Among e (pending topic (arrive es db))
      → Among e (accepted_by t.handler polled.seen)
        ⊎ Among e (pending topic (arrive es polled.tables))
poll-Lossless cfg topic t n db es e b above h =
    let polled = poll_once cfg t.query t.update t.handler topic db in
    let (b', same) = poll_once-Bounded cfg t.query t.update t.handler topic n db b in
    elim (poll_once-Keeps cfg t.query t.update t.handler topic db b.ascending) [
      | inl kept ↦ inr (rw kept h)
      | inr (split, accepted) ↦
          let later = pending-arrive topic n polled.tables es b' above in
          let before = rw (pending-arrive topic n db es b above, split) at h in
          elim (Among-append e (polled.seen ++ pending topic polled.tables) (matching topic n es)
            before) [
              | inr to_come ↦ inr (
                  rw later
                    (Among-right e (pending topic polled.tables) (matching topic n es) to_come))
              | inl now ↦ elim (Among-append e polled.seen (pending topic polled.tables) now) [
                | inl seen ↦ inl (Among-accepted_by t.handler e polled.seen accepted seen)
                | inr left ↦ inr (
                    rw later
                      (Among-left e (pending topic polled.tables) (matching topic n es) left))
              ]
            ]
    ]

loop-Lossless :
    (cfg : PostgresConfig) (topic : String) (ws : List Wake) (n : ℕ) (db : Tables) (e : Event)
    → Bounded topic n db
    → Rising n ws
    → Among e (pending topic (arrive (arrivals ws) db))
    → Among e (loop cfg topic ws db).accepted
      ⊎ Among e (pending topic (loop cfg topic ws db).tables)
unfolding loop poll_turn
loop-Lossless cfg topic [] n db e b r h = inr (rw (List.append-nil db.events) at h)
loop-Lossless cfg topic (ctx_done ∷ ws) n db e b r h = inr (rw (List.append-nil db.events) at h)
loop-Lossless cfg topic (closed ∷ ws) n db e b r h = inr (rw (List.append-nil db.events) at h)
loop-Lossless cfg topic (ticked t ∷ ws) n db e b (a, r) h =
    let more = last_id n t.arrived in
    let here = arrive t.arrived db in
    let polled = poll_once cfg t.query t.update t.handler topic here in
    let b' = Bounded-arrive topic n db t.arrived b a in
    let run = loop cfg topic ws polled.tables in
    let above = arrivals-Above more more ws (omega arith) r in
    let h' = rw (← List.append_assoc db.events t.arrived (arrivals ws)) at h in
    elim (poll-Lossless cfg topic t more here (arrivals ws) e b' above h') [
      | inl now ↦ inl (Among-left e (accepted_by t.handler polled.seen) run.accepted now)
      | inr later ↦
          elim (loop-Lossless cfg topic ws more polled.tables e
            (poll_once-Bounded cfg t.query t.update t.handler topic more here b').0 r later) [
              | inl then' ↦
                  inl (Among-right e (accepted_by t.handler polled.seen) run.accepted then')
              | inr left ↦ inr left
            ]
    ]

-- The offset of a topic, which is 0 for a new row.
abbrev pub offset_of : String → Tables → ℕ
offset_of topic db = elim (lookup topic db.offsets) [ none ↦ 0 | some last ↦ last ]

subscribe_row-new :
    (topic : String) (db : Tables)
    → lookup topic db.offsets ≡ none
    → (subscribe_row none topic db).0 ≡ record db { offsets = insert topic 0 db.offsets }
unfolding subscribe_row with_bus_role
subscribe_row-new topic db e = ground (arith, e)

subscribe_row-there :
    (topic : String) (last : ℕ) (db : Tables)
    → lookup topic db.offsets ≡ some last
    → (subscribe_row none topic db).0 ≡ db
unfolding subscribe_row with_bus_role
subscribe_row-there topic last db e = ground (arith, e)

subscribe_row-Bounded :
    (topic : String) (n : ℕ) (db : Tables)
    → Ascending 0 db.events
    → AtMost n db.events
    → offset_of topic db ≤ n
    → Bounded topic n (subscribe_row none topic db).0
subscribe_row-Bounded topic n db a m h = elim (Option-cases (lookup topic db.offsets)) [
  | inl e ↦ rw (subscribe_row-new topic db e) (record {
    ascending = a;
    at_most = m;
    last = 0;
    offset = lookup-insert_self topic 0 db.offsets;
    within = omega arith;
  })
  | inr (last, e) ↦ rw (subscribe_row-there topic last db e) (record {
    ascending = a;
    at_most = m;
    last = last;
    offset = e;
    within = ground (arith, e, h);
  })
]

-- Where the ids of a table and of the events that arrive during a subscription grow, and the offset
-- is not above them, each event of the topic that is above the offset when Subscribe has its row, or
-- arrives before it returns, has been accepted by the handler or is still pending, whichever
-- transactions and handlers have failed at which polls.
pub subscribe-Lossless :
    (cfg : PostgresConfig) (topic : String) (first : Turn) (ws : List Wake) (n : ℕ) (db : Tables)
    (e : Event)
    → Ascending 0 db.events
    → AtMost n db.events
    → offset_of topic db ≤ n
    → Rising n (ticked first ∷ ws)
    → Among e
        (pending topic (arrive (arrivals (ticked first ∷ ws)) (subscribe_row none topic db).0))
    → let run = subscribe cfg topic none first ws db in
      Among e run.accepted ⊎ Among e (pending topic run.tables)
unfolding subscribe started subscribe_row with_bus_role
subscribe-Lossless cfg topic first ws n db e a m o r h =
    loop-Lossless cfg topic (ticked first ∷ ws) n (subscribe_row none topic db).0 e
      (subscribe_row-Bounded topic n db a m o) r h

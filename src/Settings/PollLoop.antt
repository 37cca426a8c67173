-- ===== src/Settings/PollLoop.antt =====
-- settings/manager.go: pollLoop, over the branches that its select takes.
use omkit_go.Prelude.{String, ◌≡◌, refl, Bool, true, false, Option, List, [], ◌∷◌, ◌++◌, arith}
use omkit_go.Prelude.Int.{ℤ, ◌≤ℤ◌}
use omkit_go.Settings.{
  Manager, Row, Answer, Fired, query_failed, answered, poll_once, poll_answer, select, saw,
  zero_time,
}
use omkit_go.Settings.Polls.{poll_once-settles, poll_rows-last_seen, saw-last_seen}

-- The context is done, Stop has closed the channel, or a tick, with the answer to its query.
pub data Branch : Type 0 where
  cancelled stopped : Branch
  ticked : Answer → Branch

-- The manager, the calls of listeners, and whether the loop has returned.
unfoldable pub poll_loop :
    (String → Option String) → List Branch → Manager → Manager × (List Fired × Bool)
poll_loop unmarshal [] m = (m, ([], false))
poll_loop unmarshal (cancelled ∷ bs) m = (m, ([], true))
poll_loop unmarshal (stopped ∷ bs) m = (m, ([], true))
poll_loop unmarshal (ticked answer ∷ bs) m =
    let (m', (fired, failed)) = poll_once unmarshal answer m in
    let (m'', (more, ended)) = poll_loop unmarshal bs m' in (m'', (fired ++ more, ended))

saw-since :
    (latest : ℤ) (m : Manager)
    → zero_time ≤ℤ m.poll_last_seen
    → zero_time ≤ℤ (saw latest m).poll_last_seen
saw-since latest m h = ground (arith, saw-last_seen latest m, h)

poll_once-since :
    (unmarshal : String → Option String) (answer : Answer) (m : Manager)
    → zero_time ≤ℤ m.poll_last_seen
    → zero_time ≤ℤ (poll_once unmarshal answer m).0.poll_last_seen
unfolding poll_once
poll_once-since unmarshal query_failed m h = h
poll_once-since unmarshal (answered rows ended) m h =
    saw-since _ _ (ground (arith, h, poll_rows-last_seen unmarshal rows m zero_time))

poll_loop-since :
    (unmarshal : String → Option String) (bs : List Branch) (m : Manager)
    → zero_time ≤ℤ m.poll_last_seen
    → zero_time ≤ℤ (poll_loop unmarshal bs m).0.poll_last_seen
unfolding poll_loop
poll_loop-since unmarshal [] m h = h
poll_loop-since unmarshal (cancelled ∷ bs) m h = h
poll_loop-since unmarshal (stopped ∷ bs) m h = h
poll_loop-since unmarshal (ticked answer ∷ bs) m h =
    poll_loop-since unmarshal bs (poll_once unmarshal answer m).0
      (poll_once-since unmarshal answer m h)

-- A loop that goes on for a tick: the manager is that of the tick.
poll_loop-then :
    (unmarshal : String → Option String) (bs : List Branch) (answer : Answer) (m : Manager)
    → (poll_loop unmarshal bs m).1.1 ≡ false
    → (poll_loop unmarshal (bs ++ ticked answer ∷ []) m).0
      ≡ (poll_once unmarshal answer (poll_loop unmarshal bs m).0).0
unfolding poll_loop
poll_loop-then unmarshal [] answer m h = refl
poll_loop-then unmarshal (cancelled ∷ bs) answer m h = absurd (ground (arith, h))
poll_loop-then unmarshal (stopped ∷ bs) answer m h = absurd (ground (arith, h))
poll_loop-then unmarshal (ticked first ∷ bs) answer m h =
    poll_loop-then unmarshal bs answer (poll_once unmarshal first m).0 h

-- Whatever the earlier ticks of a loop that has not returned have met, failed queries and rows that
-- are cut short included, one tick that nothing disturbs leaves no row of the table newer than the
-- last time seen, and a poll of the same table after it changes nothing, calls no listener and
-- returns no error. The last time seen is the zero time or later at the start.
pub poll_loop-settles :
    (unmarshal : String → Option String) (bs : List Branch) (table : List Row) (m : Manager)
    → zero_time ≤ℤ m.poll_last_seen
    → (poll_loop unmarshal bs m).1.1 ≡ false
    → let answer = poll_answer table (poll_loop unmarshal bs m).0 in
      let m' = (poll_loop unmarshal (bs ++ ticked answer ∷ []) m).0 in
      (select m'.poll_last_seen table ≡ [])
      × (poll_once unmarshal (poll_answer table m') m' ≡ (m', ([], false)))
poll_loop-settles unmarshal bs table m h going =
    rw (poll_loop-then unmarshal bs (poll_answer table (poll_loop unmarshal bs m).0) m going) (
      poll_once-settles unmarshal table (poll_loop unmarshal bs m).0
        (poll_loop-since unmarshal bs m h))

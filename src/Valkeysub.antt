-- ===== src/Valkeysub.antt =====
-- valkeysub/subscriber.go: the loop of a subscription that connects again. What the `select`s find
-- is an argument: for each connection the branches that run takes, and for the wait behind it
-- whether the context is done before the delay has passed. Times are nanoseconds.
use omkit_go.Prelude.{
  String, ◌≡◌, refl, Bool, true, false, List, [], ◌∷◌, ◌++◌, if◌then◌else◌, ◌||◌, arith, ◌∙◌,
}
use omkit_go.Prelude.Int.{ℤ, pos}

pub record Subscriber : Type 0 where
  pub addr : String
  pub reconnect_delay : ℤ

-- The options that are given, each a delay.
apply_options : List ℤ → Subscriber → Subscriber
apply_options [] s = s
apply_options (d ∷ ds) s = apply_options ds (record s { reconnect_delay = d })

unfoldable pub new : String → List ℤ → Subscriber
unfolding apply_options
new addr delays = apply_options delays (record { addr = addr; reconnect_delay = pos 5_000_000_000 })

unfoldable pub reconnect_delay_of : Subscriber → ℤ
reconnect_delay_of s = s.reconnect_delay

pub data Branch : Type 0 where
  ctx_done channel_closed : Branch
  message : String → Branch

-- How run stands after its branches: it has returned nil, or its error, or goes on.
pub data Ended : Type 0 where
  returned_nil deadline_exceeded listening : Ended

-- run: the payloads that the handler has had.
unfoldable pub run : List Branch → List String × Ended
run [] = ([], listening)
run (ctx_done ∷ bs) = ([], returned_nil)
run (channel_closed ∷ bs) = ([], deadline_exceeded)
run (message p ∷ bs) = let (payloads, ended) = run bs in (p ∷ payloads, ended)

pub record Connection : Type 0 where
  pub branches : List Branch
  pub done_waiting : Bool

-- The payloads that the handler has had, the delays that were waited out, and whether Subscribe has
-- returned.
pub record Trace : Type 0 where
  pub handled : List String
  pub waits : List ℤ
  pub returned : Bool

pub after_run : Subscriber → Bool → Trace → List String × Ended → Trace
after_run s done rest (payloads, returned_nil) = record {
  handled = payloads;
  waits = [];
  returned = true;
}
after_run s done rest (payloads, listening) = record {
  handled = payloads;
  waits = [];
  returned = false;
}
after_run s done rest (payloads, deadline_exceeded) =
    if done
    then record { handled = payloads; waits = []; returned = true }
    else record rest { handled = payloads ++ rest.handled; waits = s.reconnect_delay ∷ rest.waits }

-- Subscribe, up to a time at which its connections have been these.
unfoldable pub subscribe : Subscriber → List Connection → Trace
unfolding after_run
subscribe s [] = record { handled = []; waits = []; returned = false }
subscribe s (c ∷ cs) = let rest = subscribe s cs in after_run s c.done_waiting rest (run c.branches)

-- A connection that finds the context done, with no message or close behind it to be read.
abbrev pub finds_done : List Branch → Bool
finds_done [] = false
finds_done (ctx_done ∷ bs) = true
finds_done (channel_closed ∷ bs) = false
finds_done (message p ∷ bs) = finds_done bs

abbrev pub loses_channel : List Branch → Bool
loses_channel [] = false
loses_channel (ctx_done ∷ bs) = false
loses_channel (channel_closed ∷ bs) = true
loses_channel (message p ∷ bs) = loses_channel bs

-- The context is done at some connection or wait that the loop reaches.
abbrev pub cancelled : List Connection → Bool
cancelled [] = false
cancelled (c ∷ cs) =
    finds_done c.branches
    || (if loses_channel c.branches then c.done_waiting || cancelled cs else false)

run-ended :
    (bs : List Branch)
    → (run bs).1 ≡ (
        if finds_done bs
        then returned_nil
        else (if loses_channel bs then deadline_exceeded else listening))
unfolding run
run-ended [] = refl
run-ended (ctx_done ∷ bs) = refl
run-ended (channel_closed ∷ bs) = refl
run-ended (message p ∷ bs) = run-ended bs

after_run-returned :
    (s : Subscriber) (done : Bool) (rest : Trace) (payloads : List String) (ended : Ended)
    (f l : Bool)
    → ended ≡ (if f then returned_nil else (if l then deadline_exceeded else listening))
    → (after_run s done rest (payloads, ended)).returned
      ≡ (f || (if l then done || rest.returned else false))
unfolding after_run
after_run-returned s done rest payloads returned_nil f l h = ground (arith, h)
after_run-returned s done rest payloads deadline_exceeded f l h = ground (arith, h)
after_run-returned s done rest payloads listening f l h = ground (arith, h)

-- Subscribe returns exactly where its context is done at a connection or a wait that it reaches: no
-- channel that is closed ends it.
pub subscribe-returned :
    (s : Subscriber) (cs : List Connection) → (subscribe s cs).returned ≡ cancelled cs
unfolding subscribe
subscribe-returned s [] = refl
subscribe-returned s (c ∷ cs) =
    after_run-returned s c.done_waiting (subscribe s cs) (run c.branches).0 (run c.branches).1
      (finds_done c.branches) (loses_channel c.branches) (run-ended c.branches)
    ∙ (rw (subscribe-returned s cs) refl)

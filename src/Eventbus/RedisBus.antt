-- ===== src/Eventbus/RedisBus.antt =====
-- eventbus/redis.go over valkeystream/: publishing, and the loop of Subscribe. The state of the bus
-- is the map of its streams and the state of the server. What a round of the loop meets is an
-- argument: whether the context is done at the `select` and after a failed read, the time, the
-- handler as it answers in the round, and what others have done to the server before the read,
-- Publish of other processes and Close of this bus among it.

pub mod Once
pub mod Ends
mod Tests
use Prim.Native.String
use omkit_go.Context.{text_or_empty}
use omkit_go.Prelude.{
  ℕ, String, Bool, true, false, Option, none, some, List, [], ◌∷◌, ◌++◌, Map, lookup, insert,
  if◌then◌else◌, ◌==◌,
}
use omkit_go.Prelude.Int.{ℤ, pos}
use omkit_go.Valkeystream as Valkeystream
use omkit_go.Valkeystream.{Message, Redis, Stream}

pub record RedisConfig : Type 0 where
  pub addr : String
  pub password : String
  pub stream_prefix : String
  pub consumer_name : String
  pub group : String

pub record Event : Type 0 where
  pub id : ℕ
  pub tenant_id : String
  pub topic : String
  pub payload : String
  pub created_at : ℤ

pub record Bus (S : Type 0) : Type 0 where
  pub cfg : RedisConfig
  pub streams : Map Stream
  pub server : S

unfoldable pub new_redis_bus : {S : Type 0} → RedisConfig → S → Bus S
new_redis_bus cfg st = record {
  cfg = record cfg {
    stream_prefix = if cfg.stream_prefix == "" then "omur:events:" else cfg.stream_prefix;
  };
  streams = [];
  server = st;
}

-- The event made from a message; a missing field reads as "".
unfoldable pub event_of : String → ℤ → Message → Event
event_of topic now m = record {
  id = 0;
  tenant_id = text_or_empty (lookup "tenant_id" m.values);
  topic = topic;
  payload = text_or_empty (lookup "payload" m.values);
  created_at = now;
}

pub record Round (S : Type 0) : Type 0 where
  pub ctx_done : Bool
  pub ctx_failed : Bool
  pub others : S → S
  pub now : ℤ
  pub handler : Event → Bool

pub data Outcome : Type 0 where
  no_stream ctx_error running : Outcome

-- The server, the messages that the handler has seen, those of them that were acknowledged, both
-- by id and in order, and whether Subscribe has returned.
pub record Run (S : Type 0) : Type 0 where
  pub server : S
  pub seen : List String
  pub acked : List String
  pub outcome : Outcome

pub ids : List Message → List String
ids [] = []
ids (m ∷ ms) = m.id ∷ ids ms

module _ {S : Type 0} (redis : Redis S) where
  kept_stream : String → Bus S → S × Option Stream → Bus S × Option Stream
  kept_stream topic bus (st, none) = (record bus { server = st }, none)
  kept_stream topic bus (st, some s) =
      (record bus { streams = insert topic s bus.streams; server = st }, some s)

  -- streamFor; `none` is an error.
  unfoldable pub stream_for : String → Bus S → Bus S × Option Stream
  unfolding kept_stream
  stream_for topic bus = elim (lookup topic bus.streams) [
    | some s ↦ (bus, some s)
    | none ↦ kept_stream topic bus (
        Valkeystream.new redis bus.cfg.addr bus.cfg.password
          (String.◌++◌ bus.cfg.stream_prefix topic) bus.cfg.group bus.cfg.consumer_name bus.server)
  ]

  -- The end of the two operations that publish; the second result is whether there is an error.
  added : Bus S → S × Option String → Bus S × Bool
  added bus (st, none) = (record bus { server = st }, true)
  added bus (st, some id) = (record bus { server = st }, false)

  add_to : Map String → Bus S × Option Stream → Bus S × Bool
  unfolding added
  add_to values (bus, none) = (bus, true)
  add_to values (bus, some s) = added bus (Valkeystream.add redis s values bus.server)

  unfoldable pub publish : String → String → Bus S → Bus S × Bool
  unfolding add_to
  publish topic payload bus = add_to (("payload", payload) ∷ []) (stream_for topic bus)

  unfoldable pub publish_tenant : String → String → String → Bus S → Bus S × Bool
  unfolding add_to
  publish_tenant tenant_id topic payload bus =
      add_to (("tenant_id", tenant_id) ∷ ("payload", payload) ∷ []) (stream_for topic bus)

  -- The loop over the messages of a read: those that the handler accepts are acknowledged, and an
  -- error of the acknowledgement is passed over.
  pub deliver :
      Stream → (topic : String) (now : ℤ) → (Event → Bool) → List Message → S → S × List String
  deliver s topic now handler [] st = (st, [])
  deliver s topic now handler (m ∷ ms) st =
      let accepted = handler (event_of topic now m) in
      let (st', acked) =
        deliver s topic now handler ms
          (if accepted then (Valkeystream.ack redis s m.id st).0 else st) in
      (st', if accepted then m.id ∷ acked else acked)

  -- What the loop does with the result of a read, `rest` being the rounds that follow.
  after_read : Stream → String → Round S → (S → Run S) → S × Option (List Message) → Run S
  unfolding deliver ids
  after_read s topic r rest (st, none) =
      if r.ctx_failed
      then record { server = st; seen = []; acked = []; outcome = ctx_error }
      else rest st
  after_read s topic r rest (st, some ms) =
      let (st', acked) = deliver s topic r.now r.handler ms st in
      let more = rest st' in record more { seen = ids ms ++ more.seen; acked = acked ++ more.acked }

  -- The loop of Subscribe, up to a time at which its rounds have been these.
  pub subscribe_loop : Stream → String → List (Round S) → S → Run S
  unfolding after_read
  subscribe_loop s topic [] st = record { server = st; seen = []; acked = []; outcome = running }
  subscribe_loop s topic (r ∷ rs) st =
      if r.ctx_done
      then record { server = st; seen = []; acked = []; outcome = ctx_error }
      else after_read s topic r (subscribe_loop s topic rs)
          (Valkeystream.read_group redis s (pos 100) (pos 2_000_000_000) (r.others st))

  pub subscribed : String → List (Round S) → Bus S × Option Stream → Run S
  unfolding subscribe_loop
  subscribed topic rs (bus, none) = record {
    server = bus.server;
    seen = [];
    acked = [];
    outcome = no_stream;
  }
  subscribed topic rs (bus, some s) = subscribe_loop s topic rs bus.server

  unfoldable pub subscribe : String → List (Round S) → Bus S → Run S
  unfolding subscribed
  subscribe topic rs bus = subscribed topic rs (stream_for topic bus)

  close_all : Map Stream → S → S
  close_all [] st = st
  close_all ((topic, s) ∷ m) st = close_all m (Valkeystream.close redis s st).0

  -- The streams stay in the map; the order of the range is that of the list.
  unfoldable pub close : Bus S → Bus S
  unfolding close_all
  close bus = record bus { server = close_all bus.streams bus.server }

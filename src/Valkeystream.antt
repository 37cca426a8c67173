-- ===== src/Valkeystream.antt =====
-- valkeystream/stream.go and valkeystream/consumer.go. The server of the streams is a parameter: a
-- state `S` and the commands of the client, each with `none` or `false` for an error, so that what
-- the network does is in the state too. A client that is closed stays a value: its commands fail.

use Prim.Native.String
use omkit_go.Prelude.{
  ℕ, String, Bool, true, false, Option, none, some, List, [], ◌∷◌, ◌++◌, Map, leb, if◌then◌else◌,
}
use omkit_go.Prelude.Int.{ℤ}

-- A value of a stream entry is an `any` of Go.
pub data Value : Type 0 where
  text : String → Value
  other : Value

pub record XMessage : Type 0 where
  pub id : String
  pub values : Map Value

pub record Message : Type 0 where
  pub id : String
  pub values : Map String

-- The address and the password stand for the client.
pub record Stream : Type 0 where
  pub addr : String
  pub password : String
  pub stream_key : String
  pub group : String
  pub consumer : String

-- What XREADGROUP gives: the messages of each stream, redis.Nil, or another error.
pub data Read : Type 0 where
  messages : List (List XMessage) → Read
  nil_reply : Read
  read_error : Read

-- The commands of the client. XGroupCreateMkStream gives the text of its error; the arguments of
-- XREADGROUP are the stream with its group and consumer, the id to start from, the count and the
-- time to block.
pub record Redis (S : Type 0) : Type 0 where
  pub ping : (addr password : String) → S → S × Bool
  pub x_group_create : Stream → S → S × Option String
  pub x_add : Stream → Map String → S → S × Option String
  pub x_read_group : Stream → (start : String) → (count block : ℤ) → S → S × Read
  pub x_ack : Stream → String → S → S × Bool
  pub x_del : Stream → String → S → S × Bool
  pub x_len : Stream → S → S × Option ℕ
  pub x_auto_claim : Stream → (min_idle count : ℤ) → S → S × Option (List XMessage)
  pub x_pending : Stream → S → S × Option ℕ
  pub close : Stream → S → S × Bool

-- strings.Contains(e, "BUSYGROUP")
abbrev is_busy_group : String → Bool
is_busy_group e = leb (String.find e "BUSYGROUP") (String.len e)

-- The loop over the values of an entry: a value that is no text is left out. The keys of a map are
-- distinct, so the order of the range does not show.
unfoldable pub text_values : Map Value → Map String
text_values [] = []
text_values ((k, text v) ∷ m) = (k, v) ∷ text_values m
text_values ((k, other) ∷ m) = text_values m

unfoldable pub message_of : XMessage → Message
unfolding text_values
message_of x = record { id = x.id; values = text_values x.values }

unfoldable pub messages_of : List XMessage → List Message
messages_of [] = []
messages_of (x ∷ xs) = message_of x ∷ messages_of xs

unfoldable pub all_messages : List (List XMessage) → List Message
unfolding messages_of
all_messages [] = []
all_messages (xs ∷ xss) = messages_of xs ++ all_messages xss

module _ {S : Type 0} (redis : Redis S) where
  -- After XGroupCreateMkStream: BUSYGROUP is no error, and any other closes the client.
  created : Stream → S × Option String → S × Option Stream
  created s (st, none) = (st, some s)
  created s (st, some e) = if is_busy_group e then (st, some s) else ((redis.close s st).0, none)

  pinged : Stream → S × Bool → S × Option Stream
  unfolding created
  pinged s (st, false) = ((redis.close s st).0, none)
  pinged s (st, true) = created s (redis.x_group_create s st)

  -- New; `none` is an error.
  unfoldable pub new : (addr password stream_key group consumer : String) → S → S × Option Stream
  unfolding pinged
  new addr password stream_key group consumer st =
      pinged
        (record {
          addr = addr;
          password = password;
          stream_key = stream_key;
          group = group;
          consumer = consumer;
        })
        (redis.ping addr password st)

  unfoldable pub add : Stream → Map String → S → S × Option String
  add s values st = redis.x_add s values st

  unfoldable pub read_result : Read → Option (List Message)
  unfolding all_messages
  read_result (messages xss) = some (all_messages xss)
  read_result nil_reply = some []
  read_result read_error = none

  -- ReadGroup; `none` is an error.
  unfoldable pub read_group : Stream → (count timeout : ℤ) → S → S × Option (List Message)
  unfolding read_result
  read_group s count timeout st =
      let (st', read) = redis.x_read_group s ">" count timeout st in (st', read_result read)

  unfoldable pub ack : Stream → String → S → S × Bool
  ack s id st = redis.x_ack s id st

  unfoldable pub delete : Stream → String → S → S × Bool
  delete s id st = redis.x_del s id st

  unfoldable pub len : Stream → S → S × Option ℕ
  len s st = redis.x_len s st

  unfoldable pub close : Stream → S → S × Bool
  close s st = redis.close s st

  claimed : S × Option (List XMessage) → S × Option (List Message)
  unfolding messages_of
  claimed (st, none) = (st, none)
  claimed (st, some xs) = (st, some (messages_of xs))

  unfoldable pub claim_stale : Stream → (min_idle count : ℤ) → S → S × Option (List Message)
  unfolding claimed
  claim_stale s min_idle count st = claimed (redis.x_auto_claim s min_idle count st)

  unfoldable pub pending : Stream → S → S × Option ℕ
  pending s st = redis.x_pending s st

-- ===== src/Eventbus/RedisBus/Tests.antt =====
-- The theorems on the Redis bus, at a server that hands its two messages out at the first read.
use omkit_go.Prelude.{
  All, String, ◌≡◌, ◌≢◌, refl, Bool, true, false, List, [], ◌∷◌, none, some, lookup, arith, eq_iff,
}
use omkit_go.Prelude.Int.{pos}
use omkit_go.Valkeystream.{Read, messages, nil_reply, Redis, Stream, XMessage, text}
use omkit_go.Eventbus.RedisBus.{Bus, Round, ctx_error, subscribe}
use omkit_go.Eventbus.RedisBus.Ends.{subscribe-ends}
use omkit_go.Eventbus.RedisBus.Once.{Distinct, GroupLaws, read_ids}

data Server : Type 0 where
  full drained : Server

abbrev entry : String → XMessage
entry id = record { id = id; values = ("payload", text "{}") ∷ [] }

abbrev read : Server → Server × Read
read full = (drained, messages ((entry "1-0" ∷ entry "2-0" ∷ []) ∷ []))
read drained = (drained, nil_reply)

abbrev redis : Redis Server
redis = record {
  ping = λ addr password st. (st, true);
  x_group_create = λ s st. (st, none);
  x_add = λ s values st. (st, some "3-0");
  x_read_group = λ s start count block st. read st;
  x_ack = λ s id st. (st, true);
  x_del = λ s id st. (st, true);
  x_len = λ s st. (st, some 2);
  x_auto_claim = λ s min_idle count st. (st, some []);
  x_pending = λ s st. (st, some 0);
  close = λ s st. (st, true);
}

abbrev stream : Stream
stream = record {
  addr = "valkey:6379";
  password = "";
  stream_key = "omur:events:settings";
  group = "spine";
  consumer = "spine";
}

abbrev IsHanded : Server → String → Type 0
IsHanded full id = ⊥
IsHanded drained id = Unit

differ : ◌≢◌ {A = String} "1-0" "2-0"
differ = λ e. ground (arith, e, eq_iff "1-0" "2-0")

read-fresh : (st : Server) → All (λ id. ¬ IsHanded st id) (read_ids (read st).1)
read-fresh full = (λ h. h, (λ h. h, tt))
read-fresh drained = tt

read-Distinct : (st : Server) → Distinct (read_ids (read st).1)
read-Distinct full = ((differ, tt), (tt, tt))
read-Distinct drained = tt

read-hands : (st : Server) → All (IsHanded (read st).0) (read_ids (read st).1)
read-hands full = (tt, (tt, tt))
read-hands drained = tt

read_keeps : (st : Server) (id : String) → IsHanded st id → IsHanded (read st).0 id
read_keeps full id h = tt
read_keeps drained id h = tt

abbrev redis-GroupLaws : GroupLaws redis stream
redis-GroupLaws = record {
  Handed = IsHanded;
  fresh = λ count block st. read-fresh st;
  distinct = λ count block st. read-Distinct st;
  hands = λ count block st. read-hands st;
  read_keeps = λ count block st id h. read_keeps st id h;
  ack_keeps = λ acked st id h. h;
}

abbrev bus : Bus Server
bus = record {
  cfg = record {
    addr = "valkey:6379";
    password = "";
    stream_prefix = "omur:events:";
    consumer_name = "spine";
    group = "spine";
  };
  streams = ("settings", stream) ∷ [];
  server = full;
}

-- The handler refuses every event.
abbrev round : Bool → Round Server
round done = record {
  ctx_done = done;
  ctx_failed = false;
  others = λ st. st;
  now = pos 7;
  handler = λ e. false;
}

abbrev rounds : List (Round Server)
rounds = round false ∷ round false ∷ round true ∷ []

has_stream : lookup "settings" bus.streams ≡ some stream
unfolding lookup
has_stream = refl

subscribe-ends_example : (subscribe redis "settings" rounds bus).outcome ≡ ctx_error
subscribe-ends_example = subscribe-ends redis stream "settings" rounds bus has_stream refl

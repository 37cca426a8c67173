-- ===== src/Eventbus/RedisBus/Once.antt =====
-- How often the Redis bus shows a message to its handler.
use omkit_go.Prelude.{All, String, ◌≢◌, List, [], ◌∷◌, ◌++◌}
use omkit_go.Prelude.Int.{ℤ}
use omkit_go.Valkeystream.{Read, messages, nil_reply, read_error, Redis, Stream, XMessage}
use omkit_go.Eventbus.RedisBus.{Round}

abbrev pub Distinct : List String → Type 0
Distinct [] = Unit
Distinct (x ∷ xs) = All (λ (y : String). x ≢ y) xs × Distinct xs

abbrev pub x_ids : List XMessage → List String
x_ids [] = []
x_ids (x ∷ xs) = x.id ∷ x_ids xs

abbrev pub all_ids : List (List XMessage) → List String
all_ids [] = []
all_ids (xs ∷ xss) = x_ids xs ++ all_ids xss

abbrev pub read_ids : Read → List String
read_ids (messages xss) = all_ids xss
read_ids nil_reply = []
read_ids read_error = []

-- Of XREADGROUP with the id ">": the group of a stream has handed a message to one of its consumers
-- or it has not; a read gives messages that it has not handed out, no two the same, and hands them
-- out, and neither a read nor XACK takes that back.
pub record GroupLaws {S : Type 0} (redis : Redis S) (s : Stream) : Type 1 where
  pub Handed : S → String → Type 0
  pub fresh :
      (count block : ℤ) (st : S)
      → All (λ id. ¬ Handed st id) (read_ids (redis.x_read_group s ">" count block st).1)
  pub distinct :
      (count block : ℤ) (st : S) → Distinct (read_ids (redis.x_read_group s ">" count block st).1)
  pub hands :
      (count block : ℤ) (st : S)
      → All
          (Handed (redis.x_read_group s ">" count block st).0)
          (read_ids (redis.x_read_group s ">" count block st).1)
  pub read_keeps :
      (count block : ℤ) (st : S) (id : String)
      → Handed st id
      → Handed (redis.x_read_group s ">" count block st).0 id
  pub ack_keeps :
      (acked : String) (st : S) (id : String) → Handed st id → Handed (redis.x_ack s acked st).0 id

module _ {S : Type 0} (redis : Redis S) (s : Stream) (laws : GroupLaws redis s) where
  -- The messages of a run that has started in `st`: no two are the same, and none was handed out.
  abbrev Shown : S → List String → Type 0
  Shown st seen = Distinct seen × All (λ id. ¬ laws.Handed st id) seen

  -- What others do between the reads leaves the messages handed out.
  abbrev pub Kept : List (Round S) → Type 0
  Kept [] = Unit
  Kept (r ∷ rs) =
      ((st : S) (id : String) → laws.Handed st id → laws.Handed (r.others st) id) × Kept rs

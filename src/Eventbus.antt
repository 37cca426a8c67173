-- ===== src/Eventbus.antt =====
-- eventbus/postgres.go: the bus that polls a table. The two tables are those of the database, with
-- the rows of this consumer in event_offsets, from topics to last ids; the queries are written out.
-- A transaction that fails at any of its steps leaves the tables as they are.
pub mod Order
pub mod Delivery
pub mod Subscription
pub mod RedisBus
pub mod Factory
mod Tests
use omkit_go.Prelude.{
  ℕ, String, Bool, true, false, ◌&&◌, Option, none, some, List, [], ◌∷◌, Map, lookup, insert, take,
  ltb, if◌then◌else◌, ◌==◌,
}
use omkit_go.Prelude.Int.{ℤ, pos, neg_part, pos_part}

abbrev pub nil_tenant_id : String
nil_tenant_id = "00000000-0000-0000-0000-000000000000"

-- The payload is opaque, and told apart by a number.
pub record Event : Type 0 where
  pub id : ℕ
  pub tenant_id : String
  pub topic : String
  pub payload : ℕ
  pub created_at : ℤ

pub record PostgresConfig : Type 0 where
  pub consumer_name : String
  pub poll_interval : ℤ
  pub batch_size : ℤ

is_zero : ℤ → Bool
is_zero n = if ltb 0 (pos_part n) then false else (if ltb 0 (neg_part n) then false else true)

unfoldable pub new_postgres_bus : PostgresConfig → PostgresConfig
unfolding is_zero
new_postgres_bus cfg = record cfg {
  poll_interval = if is_zero cfg.poll_interval then pos 5_000_000_000 else cfg.poll_interval;
  batch_size = if is_zero cfg.batch_size then pos 100 else cfg.batch_size;
}

-- `events` is in the order of the ids.
pub record Tables : Type 0 where
  pub events : List Event
  pub offsets : Map ℕ

-- A step of withBusRole that fails; `none` is a transaction that commits.
pub data Stage : Type 0 where
  begin reset_role row_security body commit : Stage

-- The tables after withBusRole, and whether it returns an error.
unfoldable pub with_bus_role : Option Stage → (Tables → Tables) → Tables → Tables × Bool
with_bus_role none f db = (f db, false)
with_bus_role (some stage) f db = (db, true)

-- The new row at its place by id.
pub insert_event : Event → List Event → List Event
insert_event e [] = e ∷ []
insert_event e (x ∷ xs) =
    let rest = insert_event e xs in if ltb e.id x.id then e ∷ x ∷ xs else x ∷ rest

-- The database gives the row its id and its time.
unfoldable pub publish_as : Option Stage → ℕ → ℤ → String → String → ℕ → Tables → Tables × Bool
publish_as fault id now tenant_id topic payload = with_bus_role fault (λ db. record db {
  events =
      insert_event
        (record {
          id = id;
          tenant_id = tenant_id;
          topic = topic;
          payload = payload;
          created_at = now;
        })
        db.events;
})

unfoldable pub publish : Option Stage → ℕ → ℤ → String → ℕ → Tables → Tables × Bool
publish fault id now topic payload = publish_as fault id now nil_tenant_id topic payload

unfoldable pub publish_tenant : Option Stage → ℕ → ℤ → String → String → ℕ → Tables → Tables × Bool
publish_tenant fault id now tenant_id topic payload =
    if tenant_id == ""
    then publish fault id now topic payload
    else publish_as fault id now tenant_id topic payload

-- The start of Subscribe: ON CONFLICT DO NOTHING.
unfoldable pub subscribe_row : Option Stage → String → Tables → Tables × Bool
subscribe_row fault topic = with_bus_role fault (λ db. elim (lookup topic db.offsets) [
  | none ↦ record db { offsets = insert topic 0 db.offsets }
  | some last ↦ db
])

-- WHERE topic = $1 AND id > $2
unfoldable pub matching : String → ℕ → List Event → List Event
matching topic last [] = []
matching topic last (e ∷ es) =
    let rest = matching topic last es in
    if e.topic == topic && ltb last e.id then e ∷ rest else rest

-- Without an offset row the comparison is with NULL, and no row is selected.
unfoldable pub pending : String → Tables → List Event
pending topic db = elim (lookup topic db.offsets) [
  | none ↦ []
  | some last ↦ matching topic last db.events
]

-- ORDER BY id ASC LIMIT $3; a negative limit is an error of the query.
unfoldable pub batch : String → ℤ → Tables → List Event
batch topic limit db = take (pos_part limit) (pending topic db)

-- The loop over the events of a batch: the events that the handler has seen, and the id of the
-- last one, or `none` where the handler returns an error.
pub deliver : (Event → Bool) → ℕ → List Event → List Event × Option ℕ
deliver handler last [] = ([], some last)
deliver handler last (e ∷ es) =
    let (seen, result) = deliver handler e.id es in
    if handler e then (e ∷ seen, result) else (e ∷ [], none)

unfoldable pub set_offset : String → ℕ → Tables → Tables
set_offset topic last db = elim (lookup topic db.offsets) [
  | none ↦ db
  | some old ↦ record db { offsets = insert topic last db.offsets }
]

-- What one pollOnce leaves: the tables, the events that the handler has seen, and whether it
-- returns an error.
pub record Polled : Type 0 where
  pub tables : Tables
  pub seen : List Event
  pub failed : Bool

pub finish : Option Stage → String → Tables → List Event × Option ℕ → Polled
finish update topic db (seen, none) = record { tables = db; seen = seen; failed = true }
finish update topic db (seen, some last) =
    if ltb 0 last
    then (let (db', failed) = with_bus_role update (set_offset topic last) db in
        record { tables = db'; seen = seen; failed = failed })
    else record { tables = db; seen = seen; failed = false }

-- `query` and `update` are the faults of the two transactions.
unfoldable pub poll_once :
    PostgresConfig → (query update : Option Stage) → (Event → Bool) → String → Tables → Polled
unfolding finish deliver
poll_once cfg (some stage) update handler topic db = record {
  tables = db;
  seen = [];
  failed = true;
}
poll_once cfg none update handler topic db =
    if ltb 0 (neg_part cfg.batch_size)
    then record { tables = db; seen = []; failed = true }
    else finish update topic db (deliver handler 0 (batch topic cfg.batch_size db))

-- ===== src/Eventbus/Subscription.antt =====
-- eventbus/postgres.go: Subscribe with its ticker, and Close. Before each poll the events of other
-- transactions have arrived; the turns of the loop, the faults of their transactions and the answers
-- of the handler at each of them are an argument.
pub mod Bounds
pub mod Late
pub mod Lossless
use omkit_go.Prelude.{
  String, Bool, true, false, Option, none, some, List, [], ◌∷◌, ◌++◌, if◌then◌else◌,
}
use omkit_go.Eventbus.{Event, PostgresConfig, Stage, Tables, Polled, subscribe_row, poll_once}

pub record Turn : Type 0 where
  pub arrived : List Event
  pub query : Option Stage
  pub update : Option Stage
  pub handler : Event → Bool

-- What the `select` finds: the context done, the channel that Close closes, or the ticker.
pub data Wake : Type 0 where
  ctx_done closed : Wake
  ticked : Turn → Wake

pub data Outcome : Type 0 where
  row_failed ctx_error returned_nil running : Outcome

-- The tables, the events on which the handler has returned no error, and whether Subscribe has
-- returned.
pub record Run : Type 0 where
  pub tables : Tables
  pub accepted : List Event
  pub outcome : Outcome

abbrev pub arrive : List Event → Tables → Tables
arrive es db = record db { events = db.events ++ es }

-- Those of these events that a handler accepts.
pub accepted_by : (Event → Bool) → List Event → List Event
accepted_by handler [] = []
accepted_by handler (e ∷ es) =
    let rest = accepted_by handler es in if handler e then e ∷ rest else rest

module _ (cfg : PostgresConfig) (topic : String) where
  unfoldable pub poll_turn : Turn → Tables → Polled
  poll_turn t db = poll_once cfg t.query t.update t.handler topic (arrive t.arrived db)

  -- The loop of Subscribe, up to a time at which it has woken up for these.
  pub loop : List Wake → Tables → Run
  loop [] db = record { tables = db; accepted = []; outcome = running }
  loop (ctx_done ∷ ws) db = record { tables = db; accepted = []; outcome = ctx_error }
  loop (closed ∷ ws) db = record { tables = db; accepted = []; outcome = returned_nil }
  loop (ticked t ∷ ws) db =
      let polled = poll_turn t db in
      let run = loop ws polled.tables in
      record run { accepted = accepted_by t.handler polled.seen ++ run.accepted }

  -- The first poll is made before the loop; an error of a poll is only logged.
  started : Turn → List Wake → Tables × Bool → Run
  unfolding loop
  started t ws (db, true) = record { tables = db; accepted = []; outcome = row_failed }
  started t ws (db, false) = loop (ticked t ∷ ws) db

  unfoldable pub subscribe : Option Stage → Turn → List Wake → Tables → Run
  unfolding started
  subscribe fault t ws db = started t ws (subscribe_row fault topic db)

-- `b.done`: whether it is closed. Close closes it, unless it is.
unfoldable pub close : Bool → Bool
close true = true
close false = true

-- ===== src/Eventbus/Tests.antt =====
-- The theorems on the bus, at a table of three events.
use omkit_go.Prelude.{
  ℕ, ◌≡◌, refl, Bool, true, false, none, some, [], ◌∷◌, ◌++◌, take, lookup, arith, ltb, List, ◌≤◌,
  ◌⊎◌, inl, inr, Among,
}
use omkit_go.Prelude.Int.{pos}
use omkit_go.Eventbus.Order.{Ascending}
use omkit_go.Eventbus.Delivery.{poll_once-delivers}
use omkit_go.Eventbus.Subscription.{Turn, Wake, ticked, ctx_done, arrive, subscribe}
use omkit_go.Eventbus.Subscription.Late.{shown, shown-publish_tenant}
use omkit_go.Eventbus.Subscription.Bounds.{AtMost}
use omkit_go.Eventbus.Subscription.Lossless.{arrivals, Rising, offset_of, subscribe-Lossless}
use omkit_go.Eventbus.{
  Event, matching, subscribe_row, with_bus_role, PostgresConfig, Tables, commit, pending, poll_once,
  publish_tenant,
}

abbrev event : ℕ → Event
event id = record {
  id = id;
  tenant_id = "acme";
  topic = "settings";
  payload = 0;
  created_at = pos 0;
}

abbrev tables : Tables
tables = record { events = event 3 ∷ event 5 ∷ event 6 ∷ []; offsets = ("settings", 3) ∷ [] }

abbrev cfg : PostgresConfig
cfg = record { consumer_name = "spine"; poll_interval = pos 5_000_000_000; batch_size = pos 1 }

tables-Ascending : Ascending 0 tables.events
tables-Ascending = (omega arith, (omega arith, (omega arith, tt)))

-- It fails from the event 6 on.
abbrev handler : Event → Bool
handler e = ltb e.id 6

abbrev accept : Event → Bool
accept e = true

accepts : (e : Event) → accept e ≡ true
accepts e = refl

poll_once-delivers_example :
    ((poll_once cfg none none accept "settings" tables).seen ≡ take 1 (pending "settings" tables))
    × ((poll_once cfg none none accept "settings" tables).failed ≡ false)
    × (pending "settings" tables
        ≡ (poll_once cfg none none accept "settings" tables).seen
          ++ pending "settings" (poll_once cfg none none accept "settings" tables).tables)
poll_once-delivers_example =
    poll_once-delivers cfg accept "settings" tables tables-Ascending (omega arith) accepts

polled_to : lookup "settings" tables.offsets ≡ some 3
unfolding lookup
polled_to = refl

abbrev first : Turn
first = record { arrived = event 8 ∷ []; query = none; update = none; handler = handler }

abbrev second : Turn
second = record { arrived = event 9 ∷ []; query = some commit; update = none; handler = accept }

abbrev wakes : List Wake
wakes = ticked second ∷ ctx_done ∷ []

-- The row is committed with the id 2 where the offset is 3, and two polls follow.
shown-publish_tenant_example :
    ((publish_tenant none 2 (pos 9) "acme" "settings" 7 tables).1 ≡ false)
    × (shown cfg "settings"
          (first ∷ second ∷ [])
          (publish_tenant none 2 (pos 9) "acme" "settings" 7 tables).0
        ≡ shown cfg "settings" (first ∷ second ∷ []) tables)
shown-publish_tenant_example =
    shown-publish_tenant cfg 2 (pos 9) "acme" "settings" 7 3 (first ∷ second ∷ []) tables polled_to
      (omega arith)

tables-AtMost : AtMost 6 tables.events
tables-AtMost = (omega arith, (omega arith, (omega arith, tt)))

offset_within : offset_of "settings" tables ≤ 6
unfolding lookup
offset_within = omega arith

rising : Rising 6 (ticked first ∷ wakes)
rising = ((omega arith, tt), ((omega arith, tt), tt))

to_come : Among (event 9) (
    pending "settings"
      (arrive (arrivals (ticked first ∷ wakes)) (subscribe_row none "settings" tables).0))
unfolding pending matching lookup subscribe_row with_bus_role
to_come = inr (inr (inr (inl refl)))

subscribe-Lossless_example :
    Among (event 9) (subscribe cfg "settings" none first wakes tables).accepted
    ⊎ Among (event 9) (pending "settings" (subscribe cfg "settings" none first wakes tables).tables)
subscribe-Lossless_example =
    subscribe-Lossless cfg "settings" first wakes 6 tables (event 9) tables-Ascending tables-AtMost
      offset_within rising to_come

-- ===== src/Eventbus/Subscription/Late.antt =====
-- An event that is committed after a poll has passed its id, and the polls that follow.
use omkit_go.Prelude.{
  ℕ, ◌≤◌, ◌<◌, String, ◌≡◌, refl, ap, sym, ◌∙◌, Bool, false, ◌&&◌, Option, none, some, List, [],
  ◌∷◌, ◌++◌, take, zero, suc, lookup, insert, lookup-insert_self, ltb, Bool-cases, inl, inr, arith,
  ◌==◌,
}
use omkit_go.Prelude.Int.{ℤ, pos_part, neg_part}
use omkit_go.Eventbus.{
  Event, PostgresConfig, Stage, Tables, batch, deliver, finish, matching, nil_tenant_id, pending,
  poll_once, publish_as, publish_tenant, publish, set_offset, with_bus_role,
}
use omkit_go.Eventbus.Delivery.{
  deliver-some, pending-some, matching-insert_event, publish_tenant-late,
}
use omkit_go.Eventbus.Order.{last_id}
use omkit_go.Eventbus.Subscription.{Turn, arrive, poll_turn}
use omkit_go.Eventbus.Subscription.Bounds.{Above, matching-append}

-- Tables with one offset for the topic, above which the same events of it stand.
record Alike (topic : String) (db db' : Tables) : Type 0 where
  last : ℕ
  offset : lookup topic db.offsets ≡ some last
  offsets : db'.offsets ≡ db.offsets
  same : (n : ℕ) → last ≤ n → matching topic n db'.events ≡ matching topic n db.events

pending-Alike :
    (topic : String) (db db' : Tables) → Alike topic db db' → pending topic db' ≡ pending topic db
pending-Alike topic db db' a =
    pending-some topic db' a.last (ap (lookup topic) a.offsets ∙ a.offset)
    ∙ a.same a.last (omega arith)
    ∙ sym (pending-some topic db a.last a.offset)

batch-Alike :
    (topic : String) (limit : ℤ) (db db' : Tables)
    → Alike topic db db'
    → batch topic limit db' ≡ batch topic limit db
unfolding batch
batch-Alike topic limit db db' a = ap (take (pos_part limit)) (pending-Alike topic db db' a)

arrive-Alike :
    (topic : String) (es : List Event) (db db' : Tables)
    → Alike topic db db'
    → Alike topic (arrive es db) (arrive es db')
arrive-Alike topic es db db' a = record {
  last = a.last;
  offset = a.offset;
  offsets = a.offsets;
  same = λ n h.
      matching-append topic n db'.events es
      ∙ ap (λ (xs : List Event). xs ++ matching topic n es) (a.same n h)
      ∙ sym (matching-append topic n db.events es);
}

matching-Above : (topic : String) (last : ℕ) (es : List Event) → Above last (matching topic last es)
unfolding matching
matching-Above topic last [] = tt
matching-Above topic last (e ∷ es) = elim (Bool-cases (e.topic == topic && ltb last e.id)) [
  | inl t ↦ rw t (ground (arith, t), matching-Above topic last es)
  | inr t ↦ rw t (matching-Above topic last es)
]

take-Above : (last k : ℕ) (es : List Event) → Above last es → Above last (take k es)
take-Above last zero es a = tt
take-Above last (suc k) [] a = tt
take-Above last (suc k) (e ∷ es) (lt, a) = (lt, take-Above last k es a)

last_id-from : (last n : ℕ) (es : List Event) → last ≤ n → Above last es → last ≤ last_id n es
last_id-from last n [] h a = h
last_id-from last n (e ∷ es) h (lt, a) = last_id-from last e.id es (omega (arith, lt)) a

last_id-Above :
    (last : ℕ) (es : List Event) → Above last es → 0 < last_id 0 es → last ≤ last_id 0 es
last_id-Above last [] a h = absurd (omega (arith, h))
last_id-Above last (e ∷ es) (lt, a) h = last_id-from last e.id es (omega (arith, lt)) a

batch-Above :
    (topic : String) (limit : ℤ) (last : ℕ) (db : Tables)
    → lookup topic db.offsets ≡ some last
    → Above last (batch topic limit db)
unfolding batch
batch-Above topic limit last db o =
    rw (pending-some topic db last o)
      (take-Above last (pos_part limit) _ (matching-Above topic last db.events))

set_offset_found :
    (topic : String) (l last : ℕ) (db : Tables)
    → lookup topic db.offsets ≡ some last
    → set_offset topic l db ≡ record db { offsets = insert topic l db.offsets }
unfolding set_offset
set_offset_found topic l last db o = rw (set_offset, o) refl

set_offset-Alike :
    (topic : String) (l : ℕ) (db db' : Tables) (a : Alike topic db db')
    → a.last ≤ l
    → Alike topic (set_offset topic l db) (set_offset topic l db')
set_offset-Alike topic l db db' a h = rw (set_offset_found topic l a.last db a.offset) (
    rw (set_offset_found topic l a.last db' (ap (lookup topic) a.offsets ∙ a.offset)) (record {
      last = l;
      offset = lookup-insert_self topic l db.offsets;
      offsets = ap (insert topic l) a.offsets;
      same = λ n k. a.same n (omega (arith, h, k));
    }))

finish-Alike :
    (update : Option Stage) (topic : String) (db db' : Tables) (r : List Event × Option ℕ)
    (a : Alike topic db db')
    → ((l : ℕ) → r.1 ≡ some l → 0 < l → a.last ≤ l)
    → ((finish update topic db' r).seen ≡ (finish update topic db r).seen)
      × Alike topic (finish update topic db r).tables (finish update topic db' r).tables
unfolding finish with_bus_role
finish-Alike update topic db db' (seen, none) a h = (refl, a)
finish-Alike (some stage) topic db db' (seen, some l) a h = elim (Bool-cases (ltb 0 l)) [
  | inr z ↦ rw z (refl, a)
  | inl p ↦ rw p (refl, a)
]
finish-Alike none topic db db' (seen, some l) a h = elim (Bool-cases (ltb 0 l)) [
  | inr z ↦ rw z (refl, a)
  | inl p ↦ rw p (refl, set_offset-Alike topic l db db' a (h l refl (ground (arith, p))))
]

poll_once-Alike :
    (cfg : PostgresConfig) (query update : Option Stage) (handler : Event → Bool) (topic : String)
    (db db' : Tables)
    → Alike topic db db'
    → ((poll_once cfg query update handler topic db').seen
        ≡ (poll_once cfg query update handler topic db).seen)
      × Alike topic
          (poll_once cfg query update handler topic db).tables
          (poll_once cfg query update handler topic db').tables
unfolding poll_once
poll_once-Alike cfg (some stage) update handler topic db db' a = (refl, a)
poll_once-Alike cfg none update handler topic db db' a =
    elim (Bool-cases (ltb 0 (neg_part cfg.batch_size))) [
      | inl neg ↦ rw neg (refl, a)
      | inr ok ↦
          let b = batch topic cfg.batch_size db in
          rw ok (
            rw (batch-Alike topic cfg.batch_size db db' a) (
              finish-Alike update topic db db' (deliver handler 0 b) a (λ l e p.
                let top = (deliver-some handler 0 l b e).1 in
                rw top (
                  last_id-Above a.last b (batch-Above topic cfg.batch_size a.last db a.offset)
                    (rw top at p)))))
    ]

-- What each of these polls, one after another, shows its handler.
abbrev pub shown : PostgresConfig → String → List Turn → Tables → List (List Event)
shown cfg topic [] db = []
shown cfg topic (t ∷ ts) db =
    (poll_turn cfg topic t db).seen ∷ shown cfg topic ts (poll_turn cfg topic t db).tables

shown-Alike :
    (cfg : PostgresConfig) (topic : String) (ts : List Turn) (db db' : Tables)
    → Alike topic db db'
    → shown cfg topic ts db' ≡ shown cfg topic ts db
unfolding poll_turn
shown-Alike cfg topic [] db db' a = refl
shown-Alike cfg topic (t ∷ ts) db db' a =
    let polled =
      poll_once-Alike cfg t.query t.update t.handler topic (arrive t.arrived db)
        (arrive t.arrived db') (arrive-Alike topic t.arrived db db' a) in
    rw polled.0 (
      ap (λ (rest : List (List Event)). (poll_turn cfg topic t db).seen ∷ rest)
        (shown-Alike cfg topic ts _ _ polled.1))

publish_as-Alike :
    (id : ℕ) (now : ℤ) (tenant_id topic : String) (payload last : ℕ) (db : Tables)
    → lookup topic db.offsets ≡ some last
    → id ≤ last
    → Alike topic db (publish_as none id now tenant_id topic payload db).0
unfolding publish_as with_bus_role
publish_as-Alike id now tenant_id topic payload last db o h = record {
  last = last;
  offset = o;
  offsets = refl;
  same = λ n k. matching-insert_event topic n _ db.events (omega (arith, h, k));
}

publish_tenant-Alike :
    (id : ℕ) (now : ℤ) (tenant_id topic : String) (payload last : ℕ) (db : Tables)
    → lookup topic db.offsets ≡ some last
    → id ≤ last
    → Alike topic db (publish_tenant none id now tenant_id topic payload db).0
unfolding publish_tenant publish
publish_tenant-Alike id now tenant_id topic payload last db o h =
    elim (Bool-cases (tenant_id == "")) [
      | inl e ↦ rw e (publish_as-Alike id now nil_tenant_id topic payload last db o h)
      | inr e ↦ rw e (publish_as-Alike id now tenant_id topic payload last db o h)
    ]

-- Where the offset of a topic is at least the id of a row that is committed only now, as a
-- transaction with a later id was polled first, the polls of the topic that follow, whatever their
-- number, the events that arrive between them, their faults and their handlers, each show the
-- handler exactly the events that it would be shown without the row.
pub shown-publish_tenant :
    (cfg : PostgresConfig) (id : ℕ) (now : ℤ) (tenant_id topic : String) (payload last : ℕ)
    (ts : List Turn) (db : Tables)
    → lookup topic db.offsets ≡ some last
    → id ≤ last
    → ((publish_tenant none id now tenant_id topic payload db).1 ≡ false)
      × (shown cfg topic ts (publish_tenant none id now tenant_id topic payload db).0
          ≡ shown cfg topic ts db)
shown-publish_tenant cfg id now tenant_id topic payload last ts db o h = (
  (publish_tenant-late id now tenant_id topic payload last db o h).0,
  shown-Alike cfg topic ts db _ (publish_tenant-Alike id now tenant_id topic payload last db o h),
)

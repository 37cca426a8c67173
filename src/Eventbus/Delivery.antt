-- ===== src/Eventbus/Delivery.antt =====
-- What a poll delivers: every pending event is seen or stays pending, in order, and which published
-- events become pending.
use omkit_go.Prelude.{
  All, ℕ, zero, suc, ◌≤◌, ◌<◌, String, ◌≡◌, refl, ap, sym, ◌∙◌, ◌⊎◌, inl, inr, Bool, true, false,
  Option, none, some, List, [], ◌∷◌, ◌++◌, take, lookup, insert, lookup-insert_self, ltb,
  Bool-cases, Option-cases, arith, ◌==◌,
}
use omkit_go.Prelude.Int.{ℤ, pos, negsuc, pos_part, neg_part, ◌≤ℤ◌}
use omkit_go.Eventbus.Order.{
  Ascending, Ascending-le, take-nil, last_id, matching-Ascending_last, matching-OfTopic,
  matching-matching, last_id-le, take-matching,
}
use omkit_go.Eventbus.{
  Polled, Event, PostgresConfig, Tables, Stage, with_bus_role, insert_event, publish_as,
  publish_tenant, publish, nil_tenant_id, matching, pending, batch, deliver, set_offset, finish,
  poll_once,
}

pub deliver-some :
    (handler : Event → Bool) (n l : ℕ) (es : List Event)
    → (deliver handler n es).1 ≡ some l
    → ((deliver handler n es).0 ≡ es) × (l ≡ last_id n es)
unfolding deliver
deliver-some handler n l [] h = ground (arith, h)
deliver-some handler n l (e ∷ es) h = elim (Bool-cases (handler e)) [
  | inl t ↦
      let ih = deliver-some handler e.id l es (ground (arith, h, t)) in
      ground (arith, t, ih.0, ih.1)
  | inr t ↦ absurd (ground (arith, h, t))
]

abbrev pub Accepted : (Event → Bool) → List Event → Type 0
Accepted handler es = All (λ (e : Event). handler e ≡ true) es

deliver-Accepted :
    (handler : Event → Bool) (n l : ℕ) (es : List Event)
    → (deliver handler n es).1 ≡ some l
    → Accepted handler es
unfolding deliver
deliver-Accepted handler n l [] h = tt
deliver-Accepted handler n l (e ∷ es) h = elim (Bool-cases (handler e)) [
  | inl t ↦ (t, deliver-Accepted handler e.id l es (ground (arith, h, t)))
  | inr t ↦ absurd (ground (arith, h, t))
]

deliver-all :
    (handler : Event → Bool) (n : ℕ) (es : List Event)
    → ((e : Event) → handler e ≡ true)
    → deliver handler n es ≡ (es, some (last_id n es))
unfolding deliver
deliver-all handler n [] h = refl
deliver-all handler n (e ∷ es) h = ground (arith, h e, deliver-all handler e.id es h)

last_id-nonempty : (m : ℕ) (es : List Event) → 0 < last_id 0 es → last_id 0 es ≡ last_id m es
last_id-nonempty m [] h = absurd (omega arith)
last_id-nonempty m (e ∷ es) h = refl

pub pending-some :
    (topic : String) (db : Tables) (old : ℕ)
    → lookup topic db.offsets ≡ some old
    → pending topic db ≡ matching topic old db.events
unfolding pending
pending-some topic db old e = rw (pending, e)

pending-none :
    (topic : String) (db : Tables) → lookup topic db.offsets ≡ none → pending topic db ≡ []
unfolding pending
pending-none topic db e = rw (pending, e)

pending-set_offset :
    (topic : String) (last : ℕ) (db : Tables) (old : ℕ)
    → lookup topic db.offsets ≡ some old
    → pending topic (set_offset topic last db) ≡ matching topic last db.events
unfolding set_offset
pending-set_offset topic last db old e =
    rw (set_offset, e)
      (pending-some topic (record db { offsets = insert topic last db.offsets }) last
        (lookup-insert_self topic last db.offsets))

-- The selected events are the first of them, and those above the last of these.
advance_from :
    (topic : String) (k old : ℕ) (es : List Event)
    → Ascending 0 es
    → let some_first = take k (matching topic old es) in
      0 < last_id 0 some_first
      → matching topic old es ≡ some_first ++ matching topic (last_id 0 some_first) es
advance_from topic k old es a h =
    let p = matching topic old es in
    let asc = matching-Ascending_last topic old 0 es a in
    let same = last_id-nonempty old (take k p) h in
    let above = last_id-le old k p asc in
    let split = take-matching topic old k p (matching-OfTopic topic old es) asc in
    let later = matching-matching topic old (last_id old (take k p)) es above in cc

batch_lem :
    (topic : String) (limit : ℤ) (db : Tables)
    → batch topic limit db ≡ take (pos_part limit) (pending topic db)
unfolding batch
batch_lem topic limit db = refl

-- The offset moves to the last id of the batch.
advance :
    (topic : String) (limit : ℤ) (db : Tables)
    → Ascending 0 db.events
    → 0 < last_id 0 (batch topic limit db)
    → pending topic db
      ≡ batch topic limit db
        ++ pending topic (set_offset topic (last_id 0 (batch topic limit db)) db)
advance topic limit db a h = elim (Option-cases (lookup topic db.offsets)) [
  | inl e ↦ absurd (no_batch (pos_part limit) (pending-none topic db e) (rw batch_lem at h))
  | inr (old, e) ↦
      let p = pending-some topic db old e in
      let b : batch topic limit db ≡ take (pos_part limit) (matching topic old db.events) =
        batch_lem topic limit db ∙ ap (take (pos_part limit)) p in
      let next = pending-set_offset topic (last_id 0 (batch topic limit db)) db old e in
      let split = advance_from topic (pos_part limit) old db.events a (rw b at h) in cc
]
  where
    no_batch : (k : ℕ) → pending topic db ≡ [] → 0 < last_id 0 (take k (pending topic db)) → ⊥
    no_batch zero e h = omega arith
    no_batch (suc k) e h = (let h' : 0 < 0 = rw e at h in omega arith)

-- What a poll may leave: the tables as they were, or a table on which the events that were seen,
-- all accepted, are no longer pending.
abbrev pub Keeps : (Event → Bool) → String → Tables → Polled → Type 0
Keeps handler topic db polled =
    (polled.tables ≡ db)
    ⊎ ((pending topic db ≡ polled.seen ++ pending topic polled.tables)
        × Accepted handler polled.seen)

finish-Keeps :
    (update : Option Stage) (handler : Event → Bool) (topic : String) (limit : ℤ) (db : Tables)
    (r : List Event × Option ℕ)
    → Ascending 0 db.events
    → ((l : ℕ)
        → r.1 ≡ some l
        → (r.0 ≡ batch topic limit db) × (l ≡ last_id 0 (batch topic limit db)))
    → ((l : ℕ) → r.1 ≡ some l → Accepted handler (batch topic limit db))
    → Keeps handler topic db (finish update topic db r)
unfolding finish with_bus_role
finish-Keeps update handler topic limit db (seen, none) a h ok = inl refl
finish-Keeps (some stage) handler topic limit db (seen, some l) a h ok = inl (ground arith)
finish-Keeps none handler topic limit db (seen, some l) a h ok = elim (Bool-cases (ltb 0 l)) [
  | inr z ↦ inl (rw z)
  | inl p ↦
      let (s, e) = h l refl in
      let positive : 0 < last_id 0 (batch topic limit db) = ground (arith, p, e) in
      inr (rw p (rw s (rw e (advance topic limit db a positive, ok l refl))))
]

-- The ids of the table growing, every poll either leaves the tables as they are, so that all that
-- was pending on the topic still is, or what was pending is just what its handler has seen and
-- accepted followed by what is pending after it: no event is skipped, whatever fails.
pub poll_once-Keeps :
    (cfg : PostgresConfig) (query update : Option Stage) (handler : Event → Bool) (topic : String)
    (db : Tables)
    → Ascending 0 db.events
    → Keeps handler topic db (poll_once cfg query update handler topic db)
unfolding poll_once
poll_once-Keeps cfg (some stage) update handler topic db a = inl refl
poll_once-Keeps cfg none update handler topic db a =
    elim (Bool-cases (ltb 0 (neg_part cfg.batch_size))) [
      | inl neg ↦ inl (rw neg)
      | inr ok ↦
          let b = batch topic cfg.batch_size db in
          rw ok (
            finish-Keeps update handler topic cfg.batch_size db (deliver handler 0 b) a
              (λ l e. deliver-some handler 0 l b e) (λ l e. deliver-Accepted handler 0 l b e))
    ]

pending-Ascending :
    (topic : String) (db : Tables) → Ascending 0 db.events → Ascending 0 (pending topic db)
pending-Ascending topic db a = elim (Option-cases (lookup topic db.offsets)) [
  | inl e ↦ rw (pending-none topic db e) tt
  | inr (old, e) ↦ rw (pending-some topic db old e) (
      Ascending-le 0 old (matching topic old db.events) (omega arith)
        (matching-Ascending_last topic old 0 db.events a))
]

not_negative : (n : ℤ) → pos 0 ≤ℤ n → ltb 0 (neg_part n) ≡ false
not_negative (pos n) h = refl
not_negative (negsuc n) h = absurd (omega arith)

-- Where nothing fails and the handler takes every event, a poll shows the handler the first pending
-- events, as many as the batch size says, in the order of their ids, returns no error, and leaves
-- the others pending.
pub poll_once-delivers :
    (cfg : PostgresConfig) (handler : Event → Bool) (topic : String) (db : Tables)
    → Ascending 0 db.events
    → pos 0 ≤ℤ cfg.batch_size
    → ((e : Event) → handler e ≡ true)
    → let polled = poll_once cfg none none handler topic db in
      (polled.seen ≡ take (pos_part cfg.batch_size) (pending topic db))
      × (polled.failed ≡ false)
      × (pending topic db ≡ polled.seen ++ pending topic polled.tables)
unfolding poll_once finish with_bus_role
poll_once-delivers cfg handler topic db a h ok =
    let b = batch topic cfg.batch_size db in
    let k = pos_part cfg.batch_size in
    let l = batch_lem topic cfg.batch_size db in
    let counts = not_negative cfg.batch_size h in
    rw (deliver-all handler 0 b ok) (elim (Bool-cases (ltb 0 (last_id 0 b))) [
      | inl p ↦ rw counts (rw p (l, refl, advance topic cfg.batch_size db a (ground (arith, p))))
      | inr z ↦
          let none_left : b ≡ [] =
            l ∙ take-nil k (pending topic db) (pending-Ascending topic db a) (rw l at z) in
          rw counts
            (rw z (l, refl, ap (λ (xs : List Event). xs ++ pending topic db) (sym none_left)))
    ])

pub matching-insert_event :
    (topic : String) (last : ℕ) (e : Event) (es : List Event)
    → e.id ≤ last
    → matching topic last (insert_event e es) ≡ matching topic last es
unfolding matching insert_event
matching-insert_event topic last e [] h = ground arith
matching-insert_event topic last e (x ∷ xs) h =
    ground (arith, h, matching-insert_event topic last e xs h)

pending-publish_as :
    (id : ℕ) (now : ℤ) (tenant_id topic : String) (payload last : ℕ) (db : Tables)
    → lookup topic db.offsets ≡ some last
    → id ≤ last
    → ((publish_as none id now tenant_id topic payload db).1 ≡ false)
      × (pending topic (publish_as none id now tenant_id topic payload db).0 ≡ pending topic db)
unfolding publish_as with_bus_role
pending-publish_as id now tenant_id topic payload last db o h = (
  refl,
  pending-some topic (publish_as none id now tenant_id topic payload db).0 last o
      ∙ (matching-insert_event topic last _ db.events h ∙ sym (pending-some topic db last o)),
)

-- A row that is committed with an id not above the offset of a topic leaves the pending events of
-- that topic as they were.
pub publish_tenant-late :
    (id : ℕ) (now : ℤ) (tenant_id topic : String) (payload last : ℕ) (db : Tables)
    → lookup topic db.offsets ≡ some last
    → id ≤ last
    → ((publish_tenant none id now tenant_id topic payload db).1 ≡ false)
      × (pending topic (publish_tenant none id now tenant_id topic payload db).0 ≡ pending topic db)
unfolding publish_tenant publish
publish_tenant-late id now tenant_id topic payload last db o h =
    elim (Bool-cases (tenant_id == "")) [
      | inl e ↦ rw e (pending-publish_as id now nil_tenant_id topic payload last db o h)
      | inr e ↦ rw e (pending-publish_as id now tenant_id topic payload last db o h)
    ]

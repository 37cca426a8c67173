-- ===== src/Sessions/RedisBackend.antt =====
-- The store of sessions/redis.go refines the contract of Store.
use text.Mathlib.TextLemmas.{append_cancel_left}
use omkit_go.Prelude.{
  ℕ, String, ◌≡◌, ◌⊎◌, sym, true, false, Option, none, some, [], Map, lookup, insert, erase, ◌∙◌,
  lookup-insert, lookup-erase, arith, eq_iff, eq_refl, ◌==◌, inl, inr, Bool-cases, refl, ap,
}
use omkit_go.Prelude.Int.{ℤ, negsuc, pos, ltb_ℤ, leb_ℤ, ◌+ℤ◌, ◌-ℤ◌, ◌<ℤ◌, ◌≤ℤ◌, max_int64, +ℤ_parts}
use omkit_go.Sessions.Refinement.{
  Entry, entry_of, Call, stored, deleted, apply, visible, unexpired, seen, Backend, step, Admits,
  Refines,
}
use omkit_go.Sessions.{Session}
use omkit_go.Sessions.Redis as Redis

abbrev pub redis : Redis.Server → String → Backend
redis server prefix = record {
  State = Map Redis.Item;
  empty = [];
  put = Redis.put server prefix false;
  delete = Redis.delete prefix false;
  get = Redis.get server prefix false;
}

-- A key is there until its lifetime ends, and not after it, up to `slack` nanoseconds: the client
-- library sends whole milliseconds or seconds, and the server counts from when the command arrives.
pub record Counts (server : Redis.Server) (slack : ℕ) : Type 0 where
  pub kept :
      (t ttl now : ℤ) → pos 0 <ℤ ttl → now +ℤ pos slack <ℤ t +ℤ ttl → server.live t ttl now ≡ true
  pub gone :
      (t ttl now : ℤ)
      → pos 0 <ℤ ttl
      → (t +ℤ ttl) +ℤ pos slack ≤ℤ now
      → server.live t ttl now ≡ false

-- A time that is not within `slack` of the entry's expiry.
abbrev pub Clear : ℕ → ℤ → Option Entry → Type 0
Clear slack now none = Unit
Clear slack now (some e) = (now +ℤ pos slack <ℤ e.expires_at) ⊎ (e.expires_at +ℤ pos slack ≤ℤ now)

-- A session that has not expired, and not by more than an int64 of nanoseconds, and that decodes
-- to itself.
abbrev pub Cacheable : Redis.Server → ℤ → Session → Type 0
Cacheable server now s =
    (now <ℤ s.expires_at)
    × (s.expires_at -ℤ now ≤ℤ max_int64)
    × ((b : String) × (server.marshal s ≡ some b) × (server.unmarshal b ≡ some s))

key_eq : (prefix a b : String) → (Redis.key prefix a == Redis.key prefix b) ≡ (a == b)
unfolding Redis.key
key_eq prefix a b = elim (Bool-cases (a == b)) [
  | inl e ↦ rw ((eq_iff a b).0 e) (rw eq_refl (rw eq_refl refl))
  | inr n ↦ ground (
    arith,
    n,
    eq_iff a b,
    eq_iff (Redis.key prefix a) (Redis.key prefix b),
    append_cancel_left prefix a b,
  )
]

ttl_lem : (e now : ℤ) → now <ℤ e → e -ℤ now ≤ℤ max_int64 → Redis.ttl_of e now ≡ e -ℤ now
unfolding Redis.ttl_of Redis.until ◌-ℤ◌
ttl_lem e now h k = ground (arith, h, k)

ttl-positive : (e now : ℤ) → now <ℤ e → pos 0 <ℤ e -ℤ now
unfolding ◌-ℤ◌
ttl-positive e now h = ground (arith, h)

ttl-expires : (e now : ℤ) → now +ℤ (e -ℤ now) ≡ e
unfolding ◌-ℤ◌ ◌+ℤ◌
ttl-expires (pos e) now = ground arith
ttl-expires (negsuc e) now = ground arith

module _ (server : Redis.Server) (prefix : String) where
  -- An item that decodes to the entry, and is there until the entry expires.
  abbrev pub Holds : Redis.Item → Entry → Type 0
  Holds item e =
      ((s : Session) × (server.unmarshal item.value ≡ some s) × (entry_of s ≡ e))
      × (pos 0 <ℤ item.ttl)
      × (item.set_at +ℤ item.ttl ≡ e.expires_at)

  abbrev pub ItemMatches : Option Redis.Item → Option Entry → Type 0
  ItemMatches none none = Unit
  ItemMatches none (some e) = ⊥
  ItemMatches (some item) none = ⊥
  ItemMatches (some item) (some e) = Holds item e

  abbrev pub Items : Map Redis.Item → Map Entry → Type 0
  Items items m = (k : String) → ItemMatches (lookup (Redis.key prefix k) items) (lookup k m)

  erase-Items :
      (token : String) (items : Map Redis.Item) (m : Map Entry)
      → Items items m
      → Items (erase (Redis.key prefix token) items) (erase token m)
  erase-Items token items m rel k = rw lookup-erase (
      rw lookup-erase
        (rw key_eq (elim (Bool-cases (token == k)) [ inl e ↦ rw e tt | inr n ↦ rw n (rel k) ])))

  insert-Items :
      (token : String) (item : Redis.Item) (e : Entry) (items : Map Redis.Item) (m : Map Entry)
      → Holds item e
      → Items items m
      → Items (insert (Redis.key prefix token) item items) (insert token e m)
  insert-Items token item e items m h rel k = rw lookup-insert (
      rw lookup-insert
        (rw key_eq (elim (Bool-cases (token == k)) [ inl e ↦ rw e h | inr n ↦ rw n (rel k) ])))

  step-Items :
      (c : Call) (items : Map Redis.Item) (m : Map Entry)
      → Admits (Cacheable server) c
      → Items items m
      → Items (step (redis server prefix) c items) (apply c m)
  unfolding Redis.put Redis.delete
  step-Items (deleted token) items m h rel = erase-Items token items m rel
  step-Items (stored now s) items m (h, k, (b, e, d)) rel =
      rw (step, e)
        (insert-Items s.token _ (entry_of s) items m
          (
            (s, d, refl),
            rw (ttl_lem s.expires_at now h k) (ttl-positive s.expires_at now h),
            rw (ttl_lem s.expires_at now h k) (ttl-expires s.expires_at now),
          )
          rel)

  live_lem :
      (slack : ℕ) (now expires : ℤ) (item : Redis.Item)
      → Counts server slack
      → pos 0 <ℤ item.ttl
      → item.set_at +ℤ item.ttl ≡ expires
      → (now +ℤ pos slack <ℤ expires) ⊎ (expires +ℤ pos slack ≤ℤ now)
      → server.live item.set_at item.ttl now ≡ ltb_ℤ now expires
  live_lem slack now expires item counts p x (inl k) =
      let before : ltb_ℤ now expires ≡ true = ground (arith, k, +ℤ_parts now (pos slack)) in
      counts.kept item.set_at item.ttl now p (rw x k) ∙ sym before
  live_lem slack now expires item counts p x (inr k) =
      let past : ltb_ℤ now expires ≡ false = ground (arith, k, +ℤ_parts expires (pos slack)) in
      counts.gone item.set_at item.ttl now p (rw x k) ∙ sym past

  item-shown :
      (slack : ℕ)
      → Counts server slack
      → (now : ℤ) (found_item : Option Redis.Item) (e : Option Entry) → ItemMatches found_item e
      → Clear slack now e
      → seen (Redis.reply_of server (Redis.read_item server now found_item)) ≡ unexpired now e
  unfolding Redis.reply_of Redis.read_item unexpired
  item-shown slack counts now none none h c = refl
  item-shown slack counts now none (some e) h c = absurd h
  item-shown slack counts now (some item) none h c = absurd h
  item-shown slack counts now (some item) (some e) ((s, d, same), p, x) c =
      let n : leb_ℤ item.ttl (pos 0) ≡ false = ground (arith, p) in
      let l : server.live item.set_at item.ttl now ≡ ltb_ℤ now e.expires_at =
        live_lem slack now e.expires_at item counts p x c in
      elim (Bool-cases (ltb_ℤ now e.expires_at)) [
        | inl t ↦ rw n (rw (l ∙ t) (rw d (rw t (ap (λ (entry : Entry). some entry) same))))
        | inr t ↦ rw n (rw (l ∙ t) (rw t refl))
      ]

  get-Items :
      (slack : ℕ)
      → Counts server slack
      → (now : ℤ) (token : String) (items : Map Redis.Item) (m : Map Entry) → Items items m
      → Clear slack now (lookup token m)
      → seen (Redis.get server prefix false now token items) ≡ visible now token m
  unfolding Redis.get Redis.rdb_get
  get-Items slack counts now token items m rel c = item-shown slack counts now _ _ (rel token) c

  empty-Items : Items [] []
  unfolding lookup
  empty-Items k = tt

  pub redis-Refines :
      (slack : ℕ)
      → Counts server slack
      → Refines (redis server prefix) (Cacheable server) (Clear slack)
  redis-Refines slack counts = record {
    Related = Items;
    related_empty = empty-Items;
    related_step = step-Items;
    get_agrees = get-Items slack counts;
  }

-- ===== src/Tenant/CacheLaws.antt =====
-- How long the cache answers, and that its entries do not mix.
use text.Mathlib.TextLemmas.{append_cancel_left}
use omkit_go.Prelude.{
  String, ◌≡◌, ◌≢◌, ◌⊎◌, true, false, none, some, lookup, lookup-insert_self, lookup-erase,
  lookup-erase_self, Option-cases, Bool-cases, inl, inr, arith, if◌then◌else◌, eq_iff,
}
use omkit_go.Prelude.Int.{ℤ, ◌+ℤ◌, ◌≤ℤ◌, ltb_ℤ}
use omkit_go.Tenant.Cache.{CacheEntry, UidCache, cache_key, is_expired, evict, get, set}

pub cache_key-injective : (source a b : String) → cache_key source a ≡ cache_key source b → a ≡ b
unfolding cache_key
cache_key-injective source a b h = append_cancel_left ":" a b (append_cancel_left source _ _ h)

pub get-of_lookup :
    (source uid : String) (now now' : ℤ) (c : UidCache) (e : CacheEntry)
    → lookup (cache_key source uid) c.entries ≡ some e
    → get source uid now now' c
      ≡ (if is_expired e now then (evict (cache_key source uid) now' c, "") else (c, e.tenant_id))
unfolding get
get-of_lookup source uid now now' c e h = rw (get, h)

lookup-evict_self :
    (k : String) (now : ℤ) (c : UidCache) (e : CacheEntry)
    → lookup k c.entries ≡ some e
    → is_expired e now ≡ true
    → lookup k (evict k now c).entries ≡ none
unfolding evict
lookup-evict_self k now c e h x = rw (evict, h) (rw x (lookup-erase_self k c.entries))

evict_keeps :
    (j k : String) (now : ℤ) (c : UidCache) (e : CacheEntry)
    → lookup k c.entries ≡ some e
    → (is_expired e now ≡ false) ⊎ (k ≢ j)
    → lookup k (evict j now c).entries ≡ some e
unfolding evict
evict_keeps j k now c e h live = elim (Option-cases (lookup j c.entries)) [
  | inl x ↦ rw (evict, x) h
  | inr (cur, x) ↦ rw (evict, x) (ground (arith, lookup-erase j k c.entries, eq_iff j k))
]

-- What `set` has stored at `t` is returned up to the end of its lifetime, and its entry stays in the
-- cache; after that `get` returns "", and the entry is gone, the clock not running backwards.
pub get-set :
    (source uid tid : String) (t now now' : ℤ) (c : UidCache)
    → now ≤ℤ now'
    → let after = get source uid now now' (set source uid tid t c) in
      (after.1 ≡ (if ltb_ℤ (t +ℤ c.ttl) now then "" else tid))
      × (lookup (cache_key source uid) after.0.entries ≡ (
          if ltb_ℤ (t +ℤ c.ttl) now
          then none
          else some (record { tenant_id = tid; expires = t +ℤ c.ttl })))
unfolding get set
get-set source uid tid t now now' c clock =
    let e : CacheEntry = record { tenant_id = tid; expires = t +ℤ c.ttl } in
    let stored = set source uid tid t c in
    let k = cache_key source uid in
    let at_k : lookup k stored.entries ≡ some e = lookup-insert_self k e c.entries in
    let read = get-of_lookup source uid now now' stored e at_k in
    elim (Bool-cases (ltb_ℤ (t +ℤ c.ttl) now)) [
      | inl old ↦ (
        ground (arith, read, old),
        ground (arith, read, old, lookup-evict_self k now' stored e at_k),
      )
      | inr fresh ↦ (ground (arith, read, fresh), ground (arith, read, fresh, at_k))
    ]

-- A call of `get` for one user changes no entry that has not expired, and none of another user.
get_keeps :
    (source uid : String) (now now' : ℤ) (c : UidCache) (k : String) (e : CacheEntry)
    → lookup k c.entries ≡ some e
    → (is_expired e now' ≡ false) ⊎ (k ≢ cache_key source uid)
    → lookup k (get source uid now now' c).0.entries ≡ some e
unfolding get
get_keeps source uid now now' c k e h live =
    elim (Option-cases (lookup (cache_key source uid) c.entries)) [
      | inl x ↦ rw (get, x) h
      | inr (cur, x) ↦
          rw (get, x) (ground (arith, evict_keeps (cache_key source uid) k now' c e h live))
    ]

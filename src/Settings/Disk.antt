-- ===== src/Settings/Disk.antt =====
-- The file that WriteCache leaves and LoadCache reads.
use text.Mathlib.TextLemmas.{append_cancel_left, append-nil}
use omkit_go.Prelude.{
  String, ◌≡◌, ◌≢◌, refl, ◌∙◌, sym, true, false, none, some, [], ◌∷◌, Map, lookup, erase,
  lookup-insert, lookup-insert_self, arith, eq_iff, inl, inr, Option-cases,
}
use omkit_go.Settings.Cache.{
  Json, Fault, write_file, chmod, rename, tmp_path, write_cache, merge, load_cache,
}
use omkit_go.Settings.{Manager}

tmp_path-other : (path : String) → tmp_path path ≢ path
unfolding tmp_path
tmp_path-other path e =
    let empty = append_cancel_left path ".tmp" "" (e ∙ sym (append-nil path)) in
    ground (arith, empty, eq_iff ".tmp" "")

write_cache-fault :
    (json : Json) (fault : Fault) (m : Manager) (disk : Map String) (k : String)
    → ◌≢◌ {A = String} m.cache_path ""
    → tmp_path m.cache_path ≢ k
    → ((write_cache json (some fault) m disk).1 ≡ true)
      × (lookup k (write_cache json (some fault) m disk).0 ≡ lookup k disk)
unfolding write_cache
write_cache-fault json (write_file none) m disk k named other =
    ground (arith, named, eq_iff m.cache_path "")
write_cache-fault json (write_file (some left)) m disk k named other = ground (
  arith,
  named,
  other,
  eq_iff m.cache_path "",
  eq_iff (tmp_path m.cache_path) k,
  lookup-insert (tmp_path m.cache_path) k left disk,
)
write_cache-fault json chmod m disk k named other = elim (Option-cases (json.marshal m.cache)) [
  | inl e ↦ ground (arith, named, eq_iff m.cache_path "", e)
  | inr (content, e) ↦ ground (
    arith,
    named,
    other,
    e,
    eq_iff m.cache_path "",
    eq_iff (tmp_path m.cache_path) k,
    lookup-insert (tmp_path m.cache_path) k content disk,
  )
]
write_cache-fault json rename m disk k named other = elim (Option-cases (json.marshal m.cache)) [
  | inl e ↦ ground (arith, named, eq_iff m.cache_path "", e)
  | inr (content, e) ↦ ground (
    arith,
    named,
    other,
    e,
    eq_iff m.cache_path "",
    eq_iff (tmp_path m.cache_path) k,
    lookup-insert (tmp_path m.cache_path) k content disk,
  )
]

-- A WriteCache that fails at any of its steps returns an error and leaves the file of the cache path
-- as it was, so that a reader never sees a part of a cache.
pub write_cache-atomic :
    (json : Json) (fault : Fault) (m : Manager) (disk : Map String)
    → ◌≢◌ {A = String} m.cache_path ""
    → ((write_cache json (some fault) m disk).1 ≡ true)
      × (lookup m.cache_path (write_cache json (some fault) m disk).0 ≡ lookup m.cache_path disk)
write_cache-atomic json fault m disk named =
    write_cache-fault json fault m disk m.cache_path named (tmp_path-other m.cache_path)

write_cache-content :
    (json : Json) (m : Manager) (disk : Map String) (content : String)
    → ◌≢◌ {A = String} m.cache_path ""
    → json.marshal m.cache ≡ some content
    → ((write_cache json none m disk).1 ≡ false)
      × (lookup m.cache_path (write_cache json none m disk).0 ≡ some content)
unfolding write_cache
write_cache-content json m disk content named e = ground (
  arith,
  named,
  e,
  eq_iff m.cache_path "",
  lookup-insert_self m.cache_path content (erase (tmp_path m.cache_path) disk),
)

lookup-merge :
    (k : String) (loaded cache : Map String)
    → lookup k (merge loaded cache)
      ≡ (elim (lookup k loaded) [ none ↦ lookup k cache | some v ↦ some v ])
unfolding merge lookup
lookup-merge k [] cache = refl
lookup-merge k ((j, v) ∷ loaded) cache =
    ground (arith, lookup-insert j k v (merge loaded cache), lookup-merge k loaded cache)

load_cache-found :
    (json : Json) (disk : Map String) (m : Manager) (content : String) (decoded : Map String)
    → ◌≢◌ {A = String} m.cache_path ""
    → lookup m.cache_path disk ≡ some content
    → json.unmarshal content ≡ some decoded
    → load_cache json false disk m ≡ (record m { cache = merge decoded m.cache }, false)
unfolding load_cache
load_cache-found json disk m content decoded named e d =
    ground (arith, named, e, d, eq_iff m.cache_path "")

-- What WriteCache writes, LoadCache reads into a manager of the same path: every key of the written
-- cache has its value there, and every other key keeps what that manager has, the written text
-- decoding to a map that has the same value, or none, under each key.
pub load_cache-write_cache :
    (json : Json) (m other : Manager) (disk : Map String) (content : String) (decoded : Map String)
    → ◌≢◌ {A = String} m.cache_path ""
    → json.marshal m.cache ≡ some content
    → json.unmarshal content ≡ some decoded
    → ((k : String) → lookup k decoded ≡ lookup k m.cache)
    → other.cache_path ≡ m.cache_path
    → let loaded = load_cache json false (write_cache json none m disk).0 other in
      (loaded.1 ≡ false)
      × ((k : String)
          → lookup k loaded.0.cache
            ≡ (elim (lookup k m.cache) [ none ↦ lookup k other.cache | some v ↦ some v ]))
load_cache-write_cache json m other disk content decoded named e d same path =
    let (ok, written) = write_cache-content json m disk content named e in
    let read : lookup other.cache_path (write_cache json none m disk).0 ≡ some content =
      rw path written in
    let other_named : ◌≢◌ {A = String} other.cache_path "" = rw path named in
    rw
      (load_cache-found json (write_cache json none m disk).0 other content decoded other_named read
        d)
      (refl, λ k. rw (lookup-merge k decoded other.cache) (rw (same k) refl))

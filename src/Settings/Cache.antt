-- ===== src/Settings/Cache.antt =====
-- WriteCache, LoadCache and Start of settings/manager.go. The disk is a map from paths to contents.
use Prim.Native.String
use omkit_go.Prelude.{
  String, Bool, true, false, Option, none, some, [], ◌∷◌, Map, lookup, insert, erase, if◌then◌else◌,
  ◌==◌,
}
use omkit_go.Settings.{Manager, Answer, backend_postgres, backend_redis, load_from_db}

-- encoding/json on a map of strings.
pub record Json : Type 0 where
  pub marshal : Map String → Option String
  pub unmarshal : String → Option (Map String)

-- A step of WriteCache that fails; a failed write leaves what it has written, if anything.
pub data Fault : Type 0 where
  write_file : Option String → Fault
  chmod rename : Fault

unfoldable pub tmp_path : String → String
tmp_path path = String.◌++◌ path ".tmp"

unfoldable pub write_cache : Json → Option Fault → Manager → Map String → Map String × Bool
write_cache json fault m disk =
    let tmp = tmp_path m.cache_path in
    if m.cache_path == "" then (disk, false) else elim (json.marshal m.cache) [
      | none ↦ (disk, true)
      | some content ↦ elim fault [
        | none ↦ (insert m.cache_path content (erase tmp disk), false)
        | some (write_file none) ↦ (disk, true)
        | some (write_file (some left)) ↦ (insert tmp left disk, true)
        | some chmod ↦ (insert tmp content disk, true)
        | some rename ↦ (insert tmp content disk, true)
      ]
    ]

-- Every pair of the loaded map, whose keys differ.
unfoldable pub merge : Map String → Map String → Map String
merge [] cache = cache
merge ((k, v) ∷ loaded) cache = insert k v (merge loaded cache)

unfoldable pub load_cache : Json → (broken : Bool) → Map String → Manager → Manager × Bool
load_cache json broken disk m =
    if m.cache_path == ""
    then (m, false)
    else if broken
    then (m, true)
    else elim (lookup m.cache_path disk) [
      | none ↦ (m, true)
      | some content ↦ elim (json.unmarshal content) [
        | none ↦ (m, true)
        | some loaded ↦ (record m { cache = merge loaded m.cache }, false)
      ]
    ]

-- What Start leaves running.
pub data Worker : Type 0 where
  idle polling : Worker
  subscribed : (channel : String) → Worker

unfoldable pub worker_of : Manager → Worker
worker_of m = elim m.backend [
  | backend_redis ↦ if m.valkey then subscribed (String.◌++◌ "omur:settings:" m.tenant_id) else idle
  | backend_postgres ↦ if m.db then polling else idle
]

unfoldable pub start :
    (String → Option String)
    → Answer
    → Json
    → (broken : Bool) → Map String
    → Manager
    → Manager × Worker
start unmarshal answer json broken disk m =
    let (m', failed) = load_from_db unmarshal answer m in
    let loaded = if failed then (load_cache json broken disk m').0 else m' in (loaded, worker_of m)

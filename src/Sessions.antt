-- ===== src/Sessions.antt =====
-- sessions/store.go and sessions/postgres.go: the session record and the store on the `sessions`
-- table. The table is a map by token, its primary key. A transaction that fails at any of its steps
-- leaves the table as it was; what the columns make of a value is a parameter.
pub mod Redis
pub mod Factory
pub mod Refinement
pub mod PostgresBackend
pub mod RedisBackend
pub mod Backends
pub mod Access
pub mod Listing
mod Tests
use omkit_go.Prelude.{
  String, Bool, true, false, ◌&&◌, ◌||◌, not, Option, none, some, List, [], ◌∷◌, Map, lookup,
  insert, erase, if◌then◌else◌, ◌==◌,
}
use omkit_go.Prelude.Int.{ℤ, ltb_ℤ}

-- The payload is a JSON text; a time is in nanoseconds.
pub record Session : Type 0 where
  pub token : String
  pub tenant_id : String
  pub payload : String
  pub created_at : ℤ
  pub expires_at : ℤ

-- What Get returns: a session, ErrNotFound, or another error.
pub data Reply : Type 0 where
  found : Session → Reply
  not_found failed : Reply

-- The columns of the table: `tenant_id::uuid` and back to text, the payload's type, and the
-- timestamps, with `none` for a value that the column refuses.
pub record Columns : Type 0 where
  pub uuid : String → Option String
  pub json : String → Option String
  pub timestamp : ℤ → ℤ

-- The role of the pool's connections: row security binds omur_app alone.
pub data Role : Type 0 where
  omur_app superuser : Role

-- Whether a statement sees a row, app.tenant_id being set to the given tenant.
unfoldable pub sees : Role → Option String → Session → Bool
sees superuser setting row = true
sees omur_app none row = false
sees omur_app (some tenant_id) row = row.tenant_id == tenant_id

-- A step of a transaction that fails, by the database or by the connection.
pub data Stage : Type 0 where
  begin set_tenant statement scan commit : Stage

-- The one statement of a transaction, whose result is `none` where it is refused, and whether there
-- is an error.
unfoldable pub in_tx :
    Option Stage → (Map Session → Option (Map Session)) → Map Session → Map Session × Bool
in_tx (some stage) f table = (table, true)
in_tx none f table = elim (f table) [ none ↦ (table, true) | some written ↦ (written, false) ]

-- The WHERE clause, and the check of the tenant in Go, which "" skips.
unfoldable pub check_row : Role → ℤ → String → Option Session → Reply
unfolding sees
check_row role now expected none = not_found
check_row role now expected (some row) =
    if sees role none row && ltb_ℤ now row.expires_at
    then (if not (expected == "") && not (row.tenant_id == expected) then not_found else found row)
    else not_found

-- `get`. `broken` is an error of the query or of the scan.
unfoldable pub get_row : Role → (broken : Bool) → ℤ → String → String → Map Session → Reply
get_row role broken now token expected table =
    if broken then failed else check_row role now expected (lookup token table)

unfoldable pub get : Role → (broken : Bool) → ℤ → String → Map Session → Reply
get role broken now token table = get_row role broken now token "" table

unfoldable pub get_for_tenant : Role → (broken : Bool) → ℤ → String → String → Map Session → Reply
get_for_tenant role broken now token tenant_id table = get_row role broken now token tenant_id table

-- The INSERT of Put: a row of the same token keeps its tenant and its creation time, and one that
-- the role does not see is an error.
unfoldable pub upsert : Columns → Role → ℤ → Session → Map Session → Option (Map Session)
upsert cols role now s table = elim (cols.uuid s.tenant_id) [
  | none ↦ none
  | some tenant_id ↦ elim (cols.json s.payload) [
    | none ↦ none
    | some payload ↦
        let expires_at = cols.timestamp s.expires_at in
        elim (lookup s.token table) [
          | none ↦ some (
              insert s.token
                (record {
                  token = s.token;
                  tenant_id = tenant_id;
                  payload = payload;
                  created_at = now;
                  expires_at = expires_at;
                })
                table)
          | some row ↦
              if sees role (some tenant_id) row
              then some
                  (insert s.token (record row { payload = payload; expires_at = expires_at }) table)
              else none
        ]
  ]
]

unfoldable pub put : Columns → Role → Option Stage → ℤ → Session → Map Session → Map Session × Bool
put cols role fault now s table = in_tx fault (upsert cols role now s) table

-- The DELETE of a row by its token, where the role sees it.
unfoldable pub delete : Role → (broken : Bool) → String → Map Session → Map Session × Bool
delete role broken token table = if broken then (table, true) else elim (lookup token table) [
  | none ↦ (table, false)
  | some row ↦ (if sees role none row then erase token table else table, false)
]

unfoldable pub delete_row : Columns → String → String → Map Session → Option (Map Session)
delete_row cols token tenant_id table = elim (cols.uuid tenant_id) [
  | none ↦ none
  | some id ↦ elim (lookup token table) [
    | none ↦ some table
    | some row ↦ some (if row.tenant_id == id then erase token table else table)
  ]
]

unfoldable pub delete_for_tenant :
    Columns → Option Stage → String → String → Map Session → Map Session × Bool
delete_for_tenant cols fault token tenant_id table =
    in_tx fault (delete_row cols token tenant_id) table

-- ORDER BY created_at DESC, rows of one time in the order of the table.
unfoldable pub insert_by_created : Session → List Session → List Session
insert_by_created s [] = s ∷ []
insert_by_created s (x ∷ xs) =
    let rest = insert_by_created s xs in
    if ltb_ℤ s.created_at x.created_at then x ∷ rest else s ∷ x ∷ xs

-- The rows of the query of List.
unfoldable pub select_tenant : ℤ → String → Map Session → List Session
select_tenant now id [] = []
select_tenant now id ((k, row) ∷ table) =
    let rest = select_tenant now id table in
    if row.tenant_id == id && ltb_ℤ now row.expires_at then insert_by_created row rest else rest

-- List, and whether there is an error: rows are returned with the error of the commit.
unfoldable pub list : Columns → Option Stage → ℤ → String → Map Session → List Session × Bool
list cols fault now tenant_id table = elim (cols.uuid tenant_id) [
  | none ↦ ([], true)
  | some id ↦ elim fault [
    | none ↦ (select_tenant now id table, false)
    | some commit ↦ (select_tenant now id table, true)
    | some _ ↦ ([], true)
  ]
]

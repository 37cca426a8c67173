-- ===== src/Dbpool.antt =====
-- dbpool/pool.go: what a pooled connection runs under. A pool is named by a text; the database is
-- any type. A transaction that fails, its commit included, is rolled back, and so is a SET ROLE in
-- it; a committed SET ROLE or RESET ROLE stays with the connection.
pub mod Roles
mod Tests
use omkit_go.Prelude.{
  String, Bool, true, false, Option, none, some, List, [], ◌∷◌, Map, lookup, insert, if◌then◌else◌,
  ◌==◌, ltb, ℕ,
}
use omkit_go.Prelude.Int.{ℤ, pos, ltb_ℤ}

unfoldable pub remember_role : String → String → Map String → Map String
remember_role pool role roles = if role == "" then roles else insert pool role roles

-- `none` is a nil pool.
unfoldable pub pool_role : Option String → Map String → String
pool_role none roles = ""
pool_role (some pool) roles = elim (lookup pool roles) [ none ↦ "" | some role ↦ role ]

unfoldable pub role_for_pool : String → Map String → String
role_for_pool pool roles = let r = pool_role (some pool) roles in if r == "" then "omur_app" else r

pub record Config : Type 0 where
  pub dsn : String
  pub role : String
  pub max_conns : ℤ

-- What NewPool sets up: the largest number of connections, `none` for the driver's default, and the
-- roles of all pools after it. `parsed` and `connected` say whether the two calls succeed.
pub record Setup : Type 0 where
  pub max_conns : Option ℤ
  pub after_connect : Option String
  pub roles : Map String

unfoldable pub new_pool : (parsed connected : Bool) → String → Config → Map String → Option Setup
new_pool parsed connected pool cfg roles =
    if cfg.dsn == ""
    then none
    else if parsed
    then (if connected
        then some (record {
          max_conns = if ltb_ℤ (pos 0) cfg.max_conns then some cfg.max_conns else none;
          after_connect = if cfg.role == "" then none else some cfg.role;
          roles = remember_role pool cfg.role roles;
        })
        else none)
    else none

-- New: no role, and the driver's default.
unfoldable pub new : (parsed connected : Bool) → Map String → Option Setup
new parsed connected roles =
    if parsed
    then (if connected
        then some (record { max_conns = none; after_connect = none; roles = roles })
        else none)
    else none

unfoldable pub new_session_pool :
    (parsed connected : Bool) → String → String → Map String → Option Setup
new_session_pool parsed connected pool dsn roles =
    new_pool parsed connected pool (record { dsn = dsn; role = ""; max_conns = pos 0 }) roles

-- The role of a connection's session, "" for the one it connected as, and the database.
pub record Conn (D : Type 0) : Type 0 where
  pub role : String
  pub database : D

-- A new connection of the pool.
unfoldable pub connect : {D : Type 0} → Setup → D → Conn D
connect setup d = record {
  role = elim setup.after_connect [ none ↦ "" | some role ↦ role ];
  database = d;
}

-- What the statements of a callback run under.
pub record View (D : Type 0) : Type 0 where
  pub role : String
  pub tenant : Option String
  pub database : D

-- A callback: the database after it, and whether it returns an error.
abbrev pub Work : Type 0 → Type 0
Work D = View D → D × Bool

-- A step of a transaction that fails.
pub data Stage : Type 0 where
  begin set_role set_tenant commit : Stage

module _ {D : Type 0} where
  -- The callback and the commit, which leaves the connection under the given role.
  unfoldable pub finish :
      (broken : Bool) → Work D → View D → (role : String) → Conn D → Conn D × Bool
  finish broken fn view role c =
      let (d, failed) = fn view in
      if failed
      then (c, true)
      else if broken
      then (c, true)
      else (record { role = role; database = d }, false)

  -- The first step takes a connection and begins; the roles are those of all pools.
  unfoldable pub with_tenant :
      (pool : String) → Map String → Option Stage → String → Work D → Conn D → Conn D × Bool
  with_tenant pool roles (some begin) tenant fn c = (c, true)
  with_tenant pool roles (some set_role) tenant fn c = (c, true)
  with_tenant pool roles (some set_tenant) tenant fn c = (c, true)
  with_tenant pool roles (some commit) tenant fn c =
      let role = role_for_pool pool roles in
      finish true fn (record { role = role; tenant = some tenant; database = c.database }) role c
  with_tenant pool roles none tenant fn c =
      let role = role_for_pool pool roles in
      finish false fn (record { role = role; tenant = some tenant; database = c.database }) role c

  unfoldable pub superuser : Option Stage → Work D → Conn D → Conn D × Bool
  superuser (some begin) fn c = (c, true)
  superuser (some set_role) fn c = (c, true)
  superuser (some set_tenant) fn c =
      finish false fn (record { role = ""; tenant = none; database = c.database }) "" c
  superuser (some commit) fn c =
      finish true fn (record { role = ""; tenant = none; database = c.database }) "" c
  superuser none fn c =
      finish false fn (record { role = ""; tenant = none; database = c.database }) "" c

  -- SET LOCAL ROLE ends with the transaction.
  unfoldable pub with_privileged_role : Option Stage → String → Work D → Conn D → Conn D × Bool
  with_privileged_role (some begin) role fn c = (c, true)
  with_privileged_role (some set_role) role fn c = (c, true)
  with_privileged_role (some set_tenant) role fn c =
      finish false fn (record { role = role; tenant = none; database = c.database }) c.role c
  with_privileged_role (some commit) role fn c =
      finish true fn (record { role = role; tenant = none; database = c.database }) c.role c
  with_privileged_role none role fn c =
      finish false fn (record { role = role; tenant = none; database = c.database }) c.role c

  -- Always rolled back: the error is that of the callback.
  unfoldable pub with_tenant_query :
      (pool : String) → Map String → Option Stage → String → Work D → Conn D → Conn D × Bool
  with_tenant_query pool roles (some begin) tenant fn c = (c, true)
  with_tenant_query pool roles (some set_role) tenant fn c = (c, true)
  with_tenant_query pool roles (some set_tenant) tenant fn c = (c, true)
  with_tenant_query pool roles (some commit) tenant fn c =
      let role = role_for_pool pool roles in
      (c, (fn (record { role = role; tenant = some tenant; database = c.database })).1)
  with_tenant_query pool roles none tenant fn c =
      let role = role_for_pool pool roles in
      (c, (fn (record { role = role; tenant = some tenant; database = c.database })).1)

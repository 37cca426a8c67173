-- ===== src/Sessions/Access.antt =====
-- Which sessions the checks of sessions/postgres.go let through, and what the two stores do with a
-- token of another tenant and with a session that has expired.
use omkit_go.Prelude.{
  String, ◌≡◌, ◌≢◌, ◌↔◌, Bool, true, false, Option, none, some, Map, lookup, insert,
  lookup-insert_self, arith, eq_iff, sym, ap, refl,
}
use omkit_go.Prelude.Int.{ℤ, pos, ltb_ℤ, ◌<ℤ◌, ◌-ℤ◌}
use omkit_go.Sessions.{
  Session, found, not_found, Columns, Role, superuser, omur_app, in_tx, sees, check_row, get_row,
  get_for_tenant, upsert, put,
}
use omkit_go.Sessions.Redis as Redis

of_found : (a b : Session) → found a ≡ found b → a ≡ b
of_found a b h = ground (arith, h)

check_row_iff :
    (role : Role) (now : ℤ) (tenant_id : String) (o : Option Session) (s : Session)
    → ◌≢◌ {A = String} tenant_id ""
    → (check_row role now tenant_id o ≡ found s)
      ↔ ((role ≡ superuser) × (o ≡ some s) × (s.tenant_id ≡ tenant_id) × (now <ℤ s.expires_at))
unfolding check_row sees
check_row_iff role now tenant_id none s h =
    (λ f. absurd (ground (arith, f)), λ p. absurd (ground (arith, p.1)))
check_row_iff omur_app now tenant_id (some row) s h =
    (λ f. absurd (ground (arith, f)), λ p. absurd (ground (arith, p.0)))
check_row_iff superuser now tenant_id (some row) s h =
    let asked = eq_iff tenant_id "" in
    let same = eq_iff row.tenant_id tenant_id in
    (
      λ f.
          let live : ltb_ℤ now row.expires_at ≡ true = ground (arith, f) in
          let mine : row.tenant_id ≡ tenant_id = ground (arith, f, live, asked, same, h) in
          let it : row ≡ s = of_found row s (ground (arith, f, live, asked, same, h)) in
          (
            refl,
            ap (λ (x : Session). some x) it,
            rw it at mine,
            rw (sym it) (ground (arith, live)),
          ),
      λ p.
          let it : row ≡ s = ground (arith, p.1) in
          let live : ltb_ℤ now row.expires_at ≡ true = rw it (ground (arith, p.3)) in
          let mine : row.tenant_id ≡ tenant_id = rw it p.2 in
          ground (arith, live, mine, asked, same, h, it),
    )

-- GetForTenant for a tenant that is not "" returns a session if and only if it is the row of the
-- token, is of that tenant and has not expired, on a pool that bypasses row security and whose
-- query does not fail.
pub get_for_tenant_iff :
    (role : Role) (broken : Bool) (now : ℤ) (token tenant_id : String) (table : Map Session)
    (s : Session)
    → ◌≢◌ {A = String} tenant_id ""
    → (get_for_tenant role broken now token tenant_id table ≡ found s) ↔ (
        (broken ≡ false)
        × (role ≡ superuser)
        × (lookup token table ≡ some s)
        × (s.tenant_id ≡ tenant_id)
        × (now <ℤ s.expires_at))
unfolding get_for_tenant get_row sees
get_for_tenant_iff role true now token tenant_id table s h =
    (λ e. absurd (ground (arith, e)), λ p. absurd (ground (arith, p.0)))
get_for_tenant_iff role false now token tenant_id table s h =
    let (there, back) = check_row_iff role now tenant_id (lookup token table) s h in
    (λ e. (let q = there e in (refl, q.0, q.1, q.2, q.3)), λ p. back (p.1, p.2, p.3, p.4))

put-found :
    (cols : Columns) (now : ℤ) (s row : Session) (table : Map Session)
    → cols.uuid s.tenant_id ≡ some s.tenant_id
    → cols.json s.payload ≡ some s.payload
    → lookup s.token table ≡ some row
    → put cols superuser none now s table ≡ (
      insert s.token
          (record row { payload = s.payload; expires_at = cols.timestamp s.expires_at })
          table,
      false,
    )
unfolding put in_tx upsert sees
put-found cols now s row table u j e = ground (arith, u, j, e)

-- Put on a pool that bypasses row security of a session whose token another tenant's row has, the
-- columns keeping its tenant and payload, succeeds: that row, still the other tenant's, has the new
-- payload and expiry, and GetForTenant for the tenant of the session does not find it.
pub put-taken :
    (cols : Columns) (now later : ℤ) (s row : Session) (table : Map Session)
    → cols.uuid s.tenant_id ≡ some s.tenant_id
    → cols.json s.payload ≡ some s.payload
    → lookup s.token table ≡ some row
    → row.tenant_id ≢ s.tenant_id
    → ◌≢◌ {A = String} s.tenant_id ""
    → let written = put cols superuser none now s table in
      (written.1 ≡ false)
      × (lookup s.token written.0
          ≡ some (record row { payload = s.payload; expires_at = cols.timestamp s.expires_at }))
      × (get_for_tenant superuser false later s.token s.tenant_id written.0 ≡ not_found)
unfolding sees get_for_tenant get_row check_row
put-taken cols now later s row table u j e other h =
    let new_row : Session = record row {
      payload = s.payload;
      expires_at = cols.timestamp s.expires_at;
    } in
    let at_token = lookup-insert_self s.token new_row table in
    rw (put-found cols now s row table u j e) (
      refl,
      at_token,
      rw at_token
          (ground (arith, other, h, eq_iff s.tenant_id "", eq_iff row.tenant_id s.tenant_id)),
    )

ttl_of-zero : (now e : ℤ) → e ≡ now → Redis.ttl_of e now ≡ pos 0
unfolding Redis.ttl_of Redis.until ◌-ℤ◌
ttl_of-zero now e h = rw h (ground arith)

-- The Redis store keeps a session for ever that expires at the very moment it is stored: Get
-- returns it at every later time.
pub put-forever :
    (server : Redis.Server) (prefix : String) (now later : ℤ) (s : Session) (b : String)
    (items : Map Redis.Item)
    → server.marshal s ≡ some b
    → server.unmarshal b ≡ some s
    → s.expires_at ≡ now
    → Redis.get server prefix false later s.token (Redis.put server prefix false now s items).0
      ≡ found s
unfolding Redis.put Redis.get Redis.rdb_get Redis.read_item Redis.reply_of
put-forever server prefix now later s b items m u e =
    let no_ttl = ttl_of-zero now s.expires_at e in
    rw (Redis.put, m) (rw lookup-insert_self (rw (Redis.read_item, no_ttl) (rw u refl)))

-- ===== src/Httpclient/Client/RequestHeaders.antt =====
-- The headers of what the client sends: which of the caller, the configuration and the context
-- decides each of them.
use omkit_go.Prelude.{
  String, ◌≡◌, refl, ◌∙◌, ◌≢◌, true, false, none, [], ◌∷◌, Map, lookup, insert, arith,
  if◌then◌else◌, ◌==◌, eq_iff,
}
use omkit_go.Context.{Context, tenant_of, request_id_of}
use omkit_go.Headers.{Headers, header, set_header, header-set_header}
use omkit_go.Requestid.{with_request_id_propagation}
use omkit_go.Httpclient.Config.{Client}
use omkit_go.Httpclient.Client.{
  set_all, set_missing, set_tenant, set_missing_tenant, set_request_id, post_headers, do_headers,
}

-- A loop that only fills in missing headers keeps those that are there.
header-set_missing :
    (m : Map String) (h : Headers) (k : String)
    → header h k ≢ ""
    → header (set_missing m h) k ≡ header h k
unfolding set_missing
header-set_missing [] h k n = refl
header-set_missing ((j, v) ∷ m) h k n =
    let h' : Headers = if header h j == "" then set_header j v h else h in
    let kept : header h' k ≡ header h k =
      ground (arith, header-set_header j k v h, eq_iff j k, eq_iff (header h j) "") in
    header-set_missing m h' k (rw kept n) ∙ kept

-- Either loop leaves a header alone that the map does not name.
header-set_missing_absent :
    (m : Map String) (h : Headers) (k : String)
    → lookup k m ≡ none
    → header (set_missing m h) k ≡ header h k
unfolding set_missing lookup
header-set_missing_absent [] h k n = refl
header-set_missing_absent ((j, v) ∷ m) h k n =
    let h' : Headers = if header h j == "" then set_header j v h else h in
    let kept : header h' k ≡ header h k = ground (arith, header-set_header j k v h) in
    let absent : lookup k m ≡ none = ground arith in header-set_missing_absent m h' k absent ∙ kept

header-propagation :
    (ctx : Context) (h : Headers) (k : String)
    → header h k ≢ ""
    → header (with_request_id_propagation ctx h) k ≡ header h k
unfolding with_request_id_propagation
header-propagation ctx h k n = ground (
  arith,
  header-set_header "X-Request-ID" k (request_id_of ctx) h,
  eq_iff "X-Request-ID" k,
  eq_iff (header h "X-Request-ID") "",
)

header-set_missing_tenant :
    (c : Client) (ctx : Context) (h : Headers) (k : String)
    → header h k ≢ ""
    → header (set_missing_tenant c ctx h) k ≡ header h k
unfolding set_missing_tenant
header-set_missing_tenant c ctx h k n = ground (
  arith,
  header-set_header "X-Tenant-ID" k (tenant_of ctx) h,
  eq_iff "X-Tenant-ID" k,
  eq_iff (header h "X-Tenant-ID") "",
)

set_missing_tenant_lem :
    (c : Client) (ctx : Context) (h : Headers)
    → c.tenant_from_context ≡ true
    → header h "X-Tenant-ID" ≡ ""
    → header (set_missing_tenant c ctx h) "X-Tenant-ID" ≡ tenant_of ctx
unfolding set_missing_tenant
set_missing_tenant_lem c ctx h t e = ground (
  arith,
  header-set_header "X-Tenant-ID" "X-Tenant-ID" (tenant_of ctx) h,
  eq_iff (tenant_of ctx) "",
  eq_iff (header h "X-Tenant-ID") "",
)

header-set_request_id :
    (c : Client) (ctx : Context) (h : Headers) (k : String)
    → header h k ≢ ""
    → header (set_request_id c ctx h) k ≡ header h k
unfolding set_request_id
header-set_request_id c ctx h k n = ground (arith, header-propagation ctx h k n)

-- The propagation touches no other header.
header-set_request_id_ne :
    (c : Client) (ctx : Context) (h : Headers) (k : String)
    → ("X-Request-ID" == k) ≡ false
    → header (set_request_id c ctx h) k ≡ header h k
unfolding set_request_id with_request_id_propagation
header-set_request_id_ne c ctx h k n =
    ground (arith, header-set_header "X-Request-ID" k (request_id_of ctx) h)

header-set_all_absent :
    (m : Map String) (h : Headers) (k : String)
    → lookup k m ≡ none
    → header (set_all m h) k ≡ header h k
unfolding set_all lookup
header-set_all_absent [] h k n = refl
header-set_all_absent ((j, v) ∷ m) h k n =
    let absent : lookup k m ≡ none = ground arith in
    let kept : header (set_header j v h) k ≡ header h k =
      ground (arith, header-set_header j k v h) in
    header-set_all_absent m (set_header j v h) k absent ∙ kept

-- A header that the caller has set on the request is what Do sends: neither the configuration nor
-- the context replaces it.
pub do_headers-caller :
    (c : Client) (ctx : Context) (h : Headers) (k : String)
    → header h k ≢ ""
    → header (do_headers c ctx h) k ≡ header h k
unfolding do_headers
do_headers-caller c ctx h k n =
    let filled = set_missing c.headers h in
    let kept = header-set_missing c.headers h k n in
    let with_tenant = set_missing_tenant c ctx filled in
    let kept' = header-set_missing_tenant c ctx filled k (rw kept n) ∙ kept in
    header-set_request_id c ctx with_tenant k (rw kept' n) ∙ kept'

-- With the tenant taken from the context, Do sends the context's tenant in X-Tenant-ID where
-- neither the caller nor the configuration has set it.
do_headers-tenant :
    (c : Client) (ctx : Context) (h : Headers)
    → c.tenant_from_context ≡ true
    → lookup "X-Tenant-ID" c.headers ≡ none
    → header h "X-Tenant-ID" ≡ ""
    → header (do_headers c ctx h) "X-Tenant-ID" ≡ tenant_of ctx
unfolding do_headers
do_headers-tenant c ctx h t n e =
    let filled = set_missing c.headers h in
    let empty : header filled "X-Tenant-ID" ≡ "" =
      header-set_missing_absent c.headers h "X-Tenant-ID" n ∙ e in
    header-set_request_id_ne c ctx (set_missing_tenant c ctx filled) "X-Tenant-ID" refl
    ∙ set_missing_tenant_lem c ctx filled t empty

header-set_tenant_ne :
    (c : Client) (ctx : Context) (h : Headers) (k : String)
    → ("X-Tenant-ID" == k) ≡ false
    → header (set_tenant c ctx h) k ≡ header h k
unfolding set_tenant
header-set_tenant_ne c ctx h k n =
    ground (arith, header-set_header "X-Tenant-ID" k (tenant_of ctx) h)

set_tenant_lem :
    (c : Client) (ctx : Context) (h : Headers)
    → c.tenant_from_context ≡ true
    → tenant_of ctx ≢ ""
    → header (set_tenant c ctx h) "X-Tenant-ID" ≡ tenant_of ctx
unfolding set_tenant
set_tenant_lem c ctx h t e = ground (
  arith,
  header-set_header "X-Tenant-ID" "X-Tenant-ID" (tenant_of ctx) h,
  eq_iff (tenant_of ctx) "",
)

set_request_id_lem :
    (c : Client) (ctx : Context) (h : Headers)
    → c.request_id_from_context ≡ true
    → header h "X-Request-ID" ≡ ""
    → header (set_request_id c ctx h) "X-Request-ID" ≡ request_id_of ctx
unfolding set_request_id with_request_id_propagation
set_request_id_lem c ctx h r e = ground (
  arith,
  header-set_header "X-Request-ID" "X-Request-ID" (request_id_of ctx) h,
  eq_iff (request_id_of ctx) "",
  eq_iff (header h "X-Request-ID") "",
)

json_no_id : header (set_header "Content-Type" "application/json" []) "X-Request-ID" ≡ ""
unfolding header set_header lookup insert
json_no_id = refl

-- With the tenant and the request id taken from the context, PostJSON sends the context's tenant
-- in X-Tenant-ID whatever the configuration says, and the context's request id in X-Request-ID
-- where the configuration has not set it, if the context has them.
pub post_headers-context :
    (c : Client) (ctx : Context)
    → c.tenant_from_context ≡ true
    → c.request_id_from_context ≡ true
    → lookup "X-Request-ID" c.headers ≡ none
    → tenant_of ctx ≢ ""
    → (header (post_headers c ctx) "X-Tenant-ID" ≡ tenant_of ctx)
      × (header (post_headers c ctx) "X-Request-ID" ≡ request_id_of ctx)
unfolding post_headers
post_headers-context c ctx t r n e =
    let json = set_header "Content-Type" "application/json" [] in
    let all = set_all c.headers json in
    let with_tenant = set_tenant c ctx all in
    let no_id = header-set_all_absent c.headers json "X-Request-ID" n ∙ json_no_id in
    let no_id' = header-set_tenant_ne c ctx all "X-Request-ID" refl ∙ no_id in
    (
      header-set_request_id_ne c ctx with_tenant "X-Tenant-ID" refl ∙ set_tenant_lem c ctx all t e,
      set_request_id_lem c ctx with_tenant r no_id',
    )

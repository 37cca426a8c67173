-- ===== src/Context.antt =====
-- The values that the packages attach to a `context.Context`, one field for each private key type:
-- tenant/tenant.go and tenant/tenant_with_id.go (`tenant_id`), requestid/requestid.go
-- (`request_id`), jobqueue/correlation.go (`job_request_id`) and auth/roles.go (`roles`).
-- The key types are distinct, so the fields are independent. `none` is a key that is not set.
use omkit_go.Prelude.{String, Option, none, some, List, [], ◌==◌, if◌then◌else◌}

pub record Context : Type 0 where
  pub tenant_id : Option String
  pub request_id : Option String
  pub job_request_id : Option String
  pub roles : Option (List String)

abbrev pub background : Context
background = record { tenant_id = none; request_id = none; job_request_id = none; roles = none }

-- A type assertion on a missing key gives the zero value.
abbrev pub text_or_empty : Option String → String
text_or_empty none = ""
text_or_empty (some v) = v

-- tenant.FromContext
unfoldable pub tenant_of : Context → String
tenant_of ctx = text_or_empty ctx.tenant_id

-- tenant.WithID
unfoldable pub with_tenant_id : Context → String → Context
with_tenant_id ctx id = record ctx { tenant_id = some id }

-- requestid.NewContext
unfoldable pub with_request_id : Context → String → Context
with_request_id ctx id = if id == "" then ctx else record ctx { request_id = some id }

-- requestid.FromContext
unfoldable pub request_id_of : Context → String
request_id_of ctx = text_or_empty ctx.request_id

-- jobqueue.WithRequestID
unfoldable pub with_job_request_id : Context → String → Context
with_job_request_id ctx id = record ctx { job_request_id = some id }

-- jobqueue.RequestIDFromContext
unfoldable pub job_request_id_of : Context → String
job_request_id_of ctx = text_or_empty ctx.job_request_id

-- auth.WithRoles
unfoldable pub with_roles : Context → List String → Context
with_roles ctx rs = record ctx { roles = some rs }

abbrev list_or_nil : Option (List String) → List String
list_or_nil none = []
list_or_nil (some rs) = rs

-- auth.RolesFromContext
unfoldable pub roles_of : Context → List String
roles_of ctx = list_or_nil ctx.roles

-- ===== src/Middleware/Groups.antt =====
-- middleware/admin.go, and clientIP of middleware/ratelimit.go. Strings that are taken apart are their
-- bytes; strings.TrimSpace, the keys of a JSON object in the order of their range and
-- net.SplitHostPort are parameters.
pub mod Laws
use omkit_go.Prelude.{
  ℕ, String, Bool, true, false, ◌&&◌, not, Option, none, some, List, [], ◌∷◌, map, if◌then◌else◌,
  ◌==◌,
}
use omkit_go.Auth.{role_admin, role_support, roles_from_groups}
use omkit_go.Context.{Context, with_roles}
use omkit_go.Crypto.{Bytes, eq_ℕ}
use omkit_go.Headers.{Headers, header}
use omkit_go.Middleware.Cors.{has_prefix}

pub record Text : Type 0 where
  pub bytes : String → Bytes
  pub text : Bytes → String
  pub trim_space : Bytes → Bytes
  pub object_keys : Bytes → Option (List Bytes)
  pub split_host_port : Bytes → Option Bytes

abbrev pub is_empty : Bytes → Bool
is_empty [] = true
is_empty (x ∷ xs) = false

abbrev pub onto_first : ℕ → List Bytes → List Bytes
onto_first x [] = (x ∷ []) ∷ []
onto_first x (p ∷ parts) = (x ∷ p) ∷ parts

-- strings.Split at one byte.
unfoldable pub split : ℕ → Bytes → List Bytes
split at [] = [] ∷ []
split at (x ∷ xs) = let parts = split at xs in if eq_ℕ x at then [] ∷ parts else onto_first x parts

-- Both loops of parseGroups: entries trimmed, those that are empty left out.
unfoldable pub trimmed : Text → List Bytes → List Bytes
trimmed t [] = []
trimmed t (p ∷ parts) =
    let rest = trimmed t parts in
    let entry = t.trim_space p in if is_empty entry then rest else entry ∷ rest

unfoldable pub split_groups : Text → Bytes → List Bytes
split_groups t raw = trimmed t (split 124 raw)

unfoldable pub parse_groups : Text → Bytes → List Bytes
parse_groups t raw =
    if is_empty raw
    then []
    else if has_prefix (123 ∷ []) (t.trim_space raw)
    then elim (t.object_keys (t.trim_space raw)) [
      | some keys ↦ trimmed t keys
      | none ↦ split_groups t raw
    ]
    else split_groups t raw

-- A call of another service: the token, and no user.
unfoldable pub is_service : (service_token : String) → Headers → Bool
is_service service_token h =
    not (service_token == "")
    && ((header h "X-Service-Token" == service_token) && (header h "X-Auth-Request-User" == ""))

unfoldable pub groups_of : Text → Headers → List String
groups_of t h = map t.text (parse_groups t (t.bytes (header h "X-Auth-Request-Groups")))

unfoldable pub compute_roles : Text → (service_token : String) → Headers → List String
compute_roles t service_token h =
    if is_service service_token h
    then role_admin ∷ role_support ∷ []
    else roles_from_groups (groups_of t h)

-- A list of no roles is not attached.
unfoldable pub attach : List String → Context → Context
attach [] ctx = ctx
attach (r ∷ rs) ctx = with_roles ctx (r ∷ rs)

-- The context that AdminMiddleware passes on.
unfoldable pub admin_middleware : Text → (service_token : String) → Headers → Context → Context
admin_middleware t service_token h ctx = attach (compute_roles t service_token h) ctx

-- What stands before the first comma.
unfoldable pub before_comma : Bytes → Option Bytes
before_comma [] = none
before_comma (x ∷ xs) =
    let rest = before_comma xs in
    if eq_ℕ x 44 then some [] else elim rest [ none ↦ none | some p ↦ some (x ∷ p) ]

unfoldable pub client_ip : Text → (forwarded_for remote_addr : Bytes) → Bytes
client_ip t forwarded_for remote_addr =
    if is_empty forwarded_for
    then elim (t.split_host_port remote_addr) [ none ↦ remote_addr | some host ↦ host ]
    else elim (before_comma forwarded_for) [
      | some first ↦ t.trim_space first
      | none ↦ t.trim_space forwarded_for
    ]

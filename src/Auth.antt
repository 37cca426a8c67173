-- ===== src/Auth.antt =====
-- auth/roles.go: the roles of a caller. (`WithRoles` and `RolesFromContext` stand with the other
-- context keys, in Context.) A Role is its string.
pub mod Audit
pub mod Laws
use omkit_go.Prelude.{
  ℕ, String, Bool, true, false, Option, none, some, List, [], ◌∷◌, ◌++◌, contains, if◌then◌else◌,
  ◌==◌,
}
use omkit_go.Context.{Context, roles_of}

abbrev pub role_admin : String
role_admin = "admin"

abbrev pub role_support : String
role_support = "support"

abbrev pub role_user : String
role_user = "user"

-- groupToRoles, at one key: a missing key has no roles.
unfoldable pub group_to_roles : String → List String
group_to_roles g =
    if g == "omur-admin"
    then role_admin ∷ []
    else if g == "omur-support"
    then role_support ∷ []
    else if g == "omur-user"
    then role_user ∷ []
    else []

-- The set `seen` and the slice `out` of RolesFromGroups.
pub record Union : Type 0 where
  pub seen : List String
  pub out : List String

-- The inner loop, over the roles of one group.
pub add_roles : List String → Union → Union
add_roles [] u = u
add_roles (r ∷ rs) u =
    add_roles rs
      (if contains r u.seen then u else record { seen = r ∷ u.seen; out = u.out ++ r ∷ [] })

-- The outer loop.
pub add_groups : List String → Union → Union
add_groups [] u = u
add_groups (g ∷ gs) u = add_groups gs (add_roles (group_to_roles g) u)

unfoldable pub roles_from_groups : List String → List String
unfolding add_groups
roles_from_groups groups = (add_groups groups (record { seen = []; out = [] })).out

unfoldable pub has_role : Context → String → Bool
has_role ctx want = contains want (roles_of ctx)

-- The result, and the status that is written where it is false.
unfoldable pub require_role : Context → String → Bool × Option ℕ
unfolding has_role
require_role ctx want = if has_role ctx want then (true, none) else (false, some 403)

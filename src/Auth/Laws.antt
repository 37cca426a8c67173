-- ===== src/Auth/Laws.antt =====
-- Which roles a caller gets from its groups, and what RequireRole lets through.
use omkit_go.Prelude.{
  String, ◌≡◌, refl, ◌∙◌, Bool, true, false, ◌||◌, not, ◌&&◌, none, some, List, [], ◌∷◌, ◌++◌,
  contains, Bool-cases, inl, inr, arith, if◌then◌else◌, eq_iff,
}
use omkit_go.Context.{Context, with_roles, roles_of}
use omkit_go.Auth.{Union, group_to_roles, add_roles, add_groups, roles_from_groups, require_role}

-- Some group of the list has the role.
abbrev pub grants : List String → String → Bool
grants [] r = false
grants (g ∷ gs) r = contains r (group_to_roles g) || grants gs r

-- No role stands twice.
abbrev pub are_distinct : List String → Bool
are_distinct [] = true
are_distinct (r ∷ rs) = not (contains r rs) && are_distinct rs

contains-append :
    (r : String) (xs ys : List String) → contains r (xs ++ ys) ≡ (contains r xs || contains r ys)
contains-append r [] ys = refl
contains-append r (x ∷ xs) ys = ground (arith, contains-append r xs ys)

are_distinct-snoc :
    (xs : List String) (r : String)
    → are_distinct (xs ++ r ∷ []) ≡ (are_distinct xs && not (contains r xs))
are_distinct-snoc [] r = refl
are_distinct-snoc (x ∷ xs) r =
    ground (arith, are_distinct-snoc xs r, contains-append x xs (r ∷ []), eq_iff r x, eq_iff x r)

-- The set and the slice hold the same roles, each once.
record IsUnion (u : Union) : Type 0 where
  same : (r : String) → contains r u.seen ≡ contains r u.out
  distinct : are_distinct u.out ≡ true

add_role-IsUnion :
    (r : String) (u : Union)
    → IsUnion u
    → contains r u.seen ≡ false
    → IsUnion (record { seen = r ∷ u.seen; out = u.out ++ r ∷ [] })
add_role-IsUnion r u i n = record {
  same = λ q. ground (arith, i.same q, contains-append q u.out (r ∷ []));
  distinct = ground (arith, i.distinct, i.same r, are_distinct-snoc u.out r);
}

add_roles-IsUnion : (rs : List String) (u : Union) → IsUnion u → IsUnion (add_roles rs u)
unfolding add_roles
add_roles-IsUnion [] u i = i
add_roles-IsUnion (r ∷ rs) u i = elim (Bool-cases (contains r u.seen)) [
  | inl e ↦ rw e (add_roles-IsUnion rs u i)
  | inr e ↦ rw e (add_roles-IsUnion rs _ (add_role-IsUnion r u i e))
]

contains-add_roles :
    (rs : List String) (u : Union) (q : String)
    → contains q (add_roles rs u).seen ≡ (contains q u.seen || contains q rs)
unfolding add_roles
contains-add_roles [] u q = ground arith
contains-add_roles (r ∷ rs) u q =
    contains-add_roles rs _ q ∙ elim (Bool-cases (contains r u.seen)) [
      | inl e ↦ rw e (ground (arith, e, eq_iff r q))
      | inr e ↦ rw e (ground (arith, e, eq_iff r q))
    ]

add_groups-IsUnion : (gs : List String) (u : Union) → IsUnion u → IsUnion (add_groups gs u)
unfolding add_groups
add_groups-IsUnion [] u i = i
add_groups-IsUnion (g ∷ gs) u i =
    add_groups-IsUnion gs (add_roles (group_to_roles g) u)
      (add_roles-IsUnion (group_to_roles g) u i)

contains-add_groups :
    (gs : List String) (u : Union) (q : String)
    → contains q (add_groups gs u).seen ≡ (contains q u.seen || grants gs q)
unfolding add_groups
contains-add_groups [] u q = ground arith
contains-add_groups (g ∷ gs) u q =
    let next = add_roles (group_to_roles g) u in
    ground (arith, contains-add_groups gs next q, contains-add_roles (group_to_roles g) u q)

-- RolesFromGroups returns exactly the roles that some of the groups grants, each of them once.
pub roles_from_groups_lem :
    (gs : List String)
    → ((r : String) → contains r (roles_from_groups gs) ≡ grants gs r)
      × (are_distinct (roles_from_groups gs) ≡ true)
unfolding roles_from_groups
roles_from_groups_lem gs =
    let empty : Union = record { seen = []; out = [] } in
    let i = add_groups-IsUnion gs empty (record { same = λ r. refl; distinct = refl }) in
    (λ r. ground (arith, i.same r, contains-add_groups gs empty r), i.distinct)

-- Behind WithRoles with the roles of the groups, RequireRole lets a request through, and writes no
-- status, exactly where some group grants the role; else it writes 403.
require_role-groups :
    (ctx : Context) (gs : List String) (want : String)
    → require_role (with_roles ctx (roles_from_groups gs)) want
      ≡ (grants gs want, (if grants gs want then none else some 403))
unfolding require_role with_roles roles_of
require_role-groups ctx gs want = ground (arith, (roles_from_groups_lem gs).0 want)

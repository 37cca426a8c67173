-- ===== src/Featureflags/Laws.antt =====
-- Who sees a flag, and what the cache serves.
use omkit_go.Prelude.{
  String, ◌≡◌, refl, ◌≢◌, ◌↔◌, inl, inr, Bool, true, false, Option, none, some, List, [], ◌∷◌, ◌++◌,
  Map, lookup, lookup-erase, lookup-erase_self, contains, Bool-cases, Option-cases, arith,
  if◌then◌else◌, eq_iff,
}
use omkit_go.Prelude.Int.{ℤ, pos, ◌-ℤ◌, ◌<ℤ◌}
use omkit_go.Context.{Context, roles_of}
use omkit_go.Featureflags.{
  Flag, is_known, validate_roles, intersects, is_empty, allowed_flag, allowed, PostgresStore, stale,
  refresh, get, invalidate,
}

-- A role that both lists have.
pub record Shared (xs ys : List String) : Type 0 where
  pub role : String
  pub left : contains role xs ≡ true
  pub right : contains role ys ≡ true

intersects-Shared : (xs ys : List String) → intersects xs ys ≡ true → Shared xs ys
unfolding intersects
intersects-Shared [] ys e = absurd (ground (arith, e))
intersects-Shared (x ∷ xs) ys e = elim (Bool-cases (contains x ys)) [
  | inl c ↦ record { role = x; left = ground (arith, eq_iff x x); right = c }
  | inr c ↦
      let s = intersects-Shared xs ys (ground (arith, e, c)) in
      record { role = s.role; left = ground (arith, s.left); right = s.right }
]

intersects_of_Shared :
    (xs ys : List String) (r : String)
    → contains r xs ≡ true
    → contains r ys ≡ true
    → intersects xs ys ≡ true
unfolding intersects
intersects_of_Shared [] ys r l m = cc
intersects_of_Shared (x ∷ xs) ys r l m =
    ground (arith, l, m, intersects_of_Shared xs ys r, eq_iff x r)

-- The flag is enabled, and some role of the caller is one of the flag's.
pub record Sees (ctx : Context) (flag : Flag) : Type 0 where
  pub is_enabled : flag.enabled ≡ true
  pub shared : Shared (roles_of ctx) flag.roles

is_empty-contains : (r : String) (xs : List String) → contains r xs ≡ true → is_empty xs ≡ false
unfolding is_empty
is_empty-contains r [] e = cc
is_empty-contains r (x ∷ xs) e = refl

allowed_flag-Sees : (ctx : Context) (flag : Flag) → allowed_flag ctx flag ≡ true → Sees ctx flag
unfolding allowed_flag
allowed_flag-Sees ctx flag e = record {
  is_enabled = ground (arith, e);
  shared = intersects-Shared (roles_of ctx) flag.roles (ground (arith, e));
}

allowed_flag_of_Sees : (ctx : Context) (flag : Flag) → Sees ctx flag → allowed_flag ctx flag ≡ true
unfolding allowed_flag
allowed_flag_of_Sees ctx flag s =
    let i =
      intersects_of_Shared (roles_of ctx) flag.roles s.shared.role s.shared.left s.shared.right in
    ground (
      arith,
      i,
      s.is_enabled,
      is_empty-contains s.shared.role (roles_of ctx) s.shared.left,
      is_empty-contains s.shared.role flag.roles s.shared.right,
    )

-- Allowed lets a caller see a flag exactly where the store has the flag, it is enabled, and some
-- role of the caller is one of the flag's.
pub allowed_iff :
    (ctx : Context) (store : String → Option Flag) (key : String)
    → (allowed ctx store key ≡ true) ↔ ((flag : Flag) × (store key ≡ some flag) × Sees ctx flag)
unfolding allowed
allowed_iff ctx store key = (
  λ e. elim (Option-cases (store key)) [
    | inl n ↦ absurd (ground (arith, e, n))
    | inr (flag, h) ↦ (flag, h, allowed_flag-Sees ctx flag (ground (arith, e, h)))
  ],
  λ (flag, h, s). rw (allowed, h) (allowed_flag_of_Sees ctx flag s),
)

-- A refresh that succeeds at a time other than 0 replaces all the flags, and the store is then
-- stale exactly when more than its lifetime has passed; one that fails reports it, and leaves the
-- flags and the time of the last refresh as they were.
pub refresh_lem :
    (s : PostgresStore) (m : Map Flag) (t now : ℤ) (key : String)
    → t ≢ pos 0
    → ((get now (refresh (some m) t s).0 key).0 ≡ lookup key m)
      × ((stale now (refresh (some m) t s).0 ≡ true) ↔ (s.ttl <ℤ now -ℤ t))
      × (refresh none t s ≡ (s, true))
unfolding refresh get stale
refresh_lem s m t now key n = (refl, go t n, refl)
  where
    go : (t : ℤ) → t ≢ pos 0 → (stale now (refresh (some m) t s).0 ≡ true) ↔ (s.ttl <ℤ now -ℤ t)
    go t n = ground arith

-- After Invalidate the store has no flag under the key and every other flag as before, up to the
-- next refresh that succeeds, which brings the key back if the table has it; the store is no more
-- and no less stale.
pub invalidate_lem :
    (s : PostgresStore) (m : Map Flag) (t now : ℤ) (key other : String)
    → other ≢ key
    → (get now (invalidate key s) key ≡ (none, stale now s))
      × (get now (invalidate key s) other ≡ get now s other)
      × (refresh (some m) t (invalidate key s) ≡ refresh (some m) t s)
unfolding get invalidate refresh stale
invalidate_lem s m t now key other n = (
  ground (arith, lookup-erase_self key s.flags),
  ground (arith, lookup-erase key other s.flags, eq_iff key other),
  refl,
)

abbrev pub all_known : List String → Bool
all_known [] = true
all_known (r ∷ rs) = if is_known r then all_known rs else false

-- ValidateRoles returns "", which stands for a valid list, on every list in which the first unknown
-- role is the empty string, whatever follows it.
pub validate_roles-empty :
    (rs more : List String) → all_known rs ≡ true → validate_roles (rs ++ "" ∷ more) ≡ ""
unfolding validate_roles
validate_roles-empty [] more h = refl
validate_roles-empty (r ∷ rs) more h = ground (arith, h, validate_roles-empty rs more)

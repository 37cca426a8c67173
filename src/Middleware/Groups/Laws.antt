-- ===== src/Middleware/Groups/Laws.antt =====
-- What a request may do behind AdminMiddleware.
use omkit_go.Prelude.{String, ◌≡◌, ◌≢◌, ◌⊎◌, Bool, false, ◌||◌, List, [], ◌∷◌, ◌++◌}
use omkit_go.Context.{Context}
use omkit_go.Crypto.{Bytes, eq_ℕ}
use omkit_go.Headers.{Headers, header}
use omkit_go.Middleware.Groups.{Text, is_empty}

-- A call of another service: a service token is configured, the request has it, and no user.
abbrev pub IsService : String → Headers → Type 0
IsService token h =
    (token ≢ "") × (header h "X-Service-Token" ≡ token) × (header h "X-Auth-Request-User" ≡ "")

-- The groups with a "|" between each two.
abbrev pub join_bars : List Bytes → Bytes
join_bars [] = []
join_bars (g ∷ []) = g
join_bars (g ∷ h ∷ gs) = g ++ 124 ∷ join_bars (h ∷ gs)

abbrev pub has_bar : Bytes → Bool
has_bar [] = false
has_bar (x ∷ xs) = eq_ℕ x 124 || has_bar xs

-- A group that is not empty, has no "|" and no space at its ends.
abbrev pub IsPlain : Text → Bytes → Type 0
IsPlain t g = (has_bar g ≡ false) × (is_empty g ≡ false) × (t.trim_space g ≡ g)

-- The role of a group.
abbrev pub Grants : String → String → Type 0
Grants g want =
    ((g ≡ "omur-admin") × (want ≡ "admin"))
    ⊎ (((g ≡ "omur-support") × (want ≡ "support")) ⊎ ((g ≡ "omur-user") × (want ≡ "user")))

abbrev pub Granted : List String → String → Type 0
Granted [] want = ⊥
Granted (g ∷ gs) want = Grants g want ⊎ Granted gs want

-- ===== src/Middleware/Cors.antt =====
-- CORS of middleware/middleware.go. Strings are their bytes.
use omkit_go.Prelude.{
  ℕ, Bool, true, false, ◌||◌, Option, none, some, List, [], ◌∷◌, ◌++◌, if◌then◌else◌,
}
use omkit_go.Crypto.{Bytes, eq_ℕ, eq_bytes}

-- strings.HasPrefix, HasSuffix and Contains, the part looked for first.
abbrev pub has_prefix : Bytes → Bytes → Bool
has_prefix [] text = true
has_prefix (x ∷ xs) [] = false
has_prefix (x ∷ xs) (y ∷ ys) = if eq_ℕ x y then has_prefix xs ys else false

abbrev pub has_suffix : Bytes → Bytes → Bool
has_suffix suffix [] = eq_bytes [] suffix
has_suffix suffix (y ∷ ys) = eq_bytes (y ∷ ys) suffix || has_suffix suffix ys

abbrev pub has_part : Bytes → Bytes → Bool
has_part part [] = has_prefix part []
has_part part (y ∷ ys) = has_prefix part (y ∷ ys) || has_part part ys

abbrev pub is_among : Bytes → List Bytes → Bool
is_among text [] = false
is_among text (o ∷ os) = eq_bytes o text || is_among text os

-- "*", and "://" before the rest of a pattern.
abbrev pub star : Bytes
star = 42 ∷ []

abbrev pub scheme_end : Bytes
scheme_end = 58 ∷ 47 ∷ 47 ∷ []

-- A pattern "*." and a rest: the suffix is "." and the rest.
unfoldable pub matches : Bytes → Bytes → Bool
matches [] origin = false
matches (a ∷ []) origin = false
matches (a ∷ b ∷ rest) origin =
    if eq_ℕ a 42
    then (if eq_ℕ b 46
        then has_suffix (46 ∷ rest) origin || has_part (scheme_end ++ rest) origin
        else false)
    else false

unfoldable pub match_wildcard : List Bytes → Bytes → Bool
match_wildcard [] origin = false
match_wildcard (p ∷ patterns) origin =
    let others = match_wildcard patterns origin in if matches p origin then true else others

-- Whether the handler sets the headers that allow an origin.
unfoldable pub allows : List Bytes → Bytes → Bool
unfolding match_wildcard
allows origins origin =
    is_among star origins || (is_among origin origins || match_wildcard origins origin)

-- The header Access-Control-Allow-Origin, and the status that is written, `none` where the next
-- handler has the request.
unfoldable pub cors : List Bytes → (is_options : Bool) → Bytes → Option Bytes × Option ℕ
unfolding allows
cors origins is_options origin =
    (if allows origins origin then some origin else none, if is_options then some 204 else none)

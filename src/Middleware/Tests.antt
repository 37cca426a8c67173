-- ===== src/Middleware/Tests.antt =====
-- The theorems on the middlewares, at a limiter of two requests and at a token.
use omkit_go.Crypto.{Bytes}
use omkit_go.Middleware.Cors.{star, cors}
use omkit_go.Middleware.CorsLaws.{Some, Matches, cors_iff}
use omkit_go.Middleware.Groups.{Text}
use omkit_go.Prelude.{String, ◌≡◌, refl, ◌↔◌, ◌⊎◌, false, none, some, [], ◌∷◌, lookup, arith}
use omkit_go.Prelude.Int.{pos, ◌+ℤ◌}
use omkit_go.Headers.{Headers}
use omkit_go.Middleware.RateLaws.{passed, Until, passed_lem}
use omkit_go.Middleware.{IpRateLimiter}

abbrev limiter : IpRateLimiter
limiter = record { capacity = pos 2; window = pos 60; buckets = [] }

unknown_ip : lookup "10.0.0.1" limiter.buckets ≡ none
unfolding lookup
unknown_ip = refl

in_window : Until (pos 100 +ℤ pos 60) (pos 110 ∷ pos 160 ∷ [])
unfolding ◌+ℤ◌
in_window = (omega arith, (omega arith, tt))

passed_lem_example : passed "10.0.0.1" (pos 100 ∷ pos 110 ∷ pos 160 ∷ []) limiter ≡ 2
passed_lem_example =
    passed_lem "10.0.0.1" (pos 100) (pos 110 ∷ pos 160 ∷ []) limiter 1 unknown_ip refl in_window

-- "*.a" and "x://a.b"
abbrev pattern : Bytes
pattern = 42 ∷ 46 ∷ 97 ∷ []

abbrev lookalike : Bytes
lookalike = 120 ∷ 58 ∷ 47 ∷ 47 ∷ 97 ∷ 46 ∷ 98 ∷ []

-- The bytes of a header are those of one group.
abbrev text : Text
text = record {
  bytes = λ s. 97 ∷ [];
  text = λ b. "omur-support";
  trim_space = λ b. b;
  object_keys = λ b. none;
  split_host_port = λ b. none;
}

abbrev browser : Headers
browser = ("X-Auth-Request-User", "u1") ∷ ("X-Auth-Request-Groups", "omur-support") ∷ []

cors_iff_example : ((cors (pattern ∷ []) false lookalike).0 ≡ some lookalike) ↔ (
    Some (λ o. o ≡ star) (pattern ∷ [])
    ⊎ (Some (λ o. o ≡ lookalike) (pattern ∷ []) ⊎ Some (Matches lookalike) (pattern ∷ [])))
cors_iff_example = cors_iff (pattern ∷ []) false lookalike

abbrev wanted : String
wanted = "support"

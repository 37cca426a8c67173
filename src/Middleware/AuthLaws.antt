-- ===== src/Middleware/AuthLaws.antt =====
-- Which requests get past the token.
use Prim.Native.String
use omkit_go.Prelude.{String, ◌≡◌, refl, ◌≢◌, ◌↔◌, ◌⊎◌, true, none, some, arith, eq_iff}
use omkit_go.Headers.{Headers, header}
use omkit_go.Middleware.{pass, is_public, bearer_auth, must_bearer_auth}

-- What a request shows: the token as a bearer, or as a service token.
abbrev pub Shows : String → Headers → Type 0
Shows token h =
    (header h "Authorization" ≡ String.◌++◌ "Bearer " token) ⊎ (header h "X-Service-Token" ≡ token)

-- MustBearerAuth does not panic exactly where the token is not empty; its handler then lets a
-- request through exactly where the path is one of the four of health and readiness, or the request
-- shows the token in Authorization or in X-Service-Token, whatever other headers it has.
pub must_bearer_auth_iff :
    (token path : String) (h : Headers)
    → token ≢ ""
    → (must_bearer_auth token ≡ some (bearer_auth token))
      × (must_bearer_auth "" ≡ none)
      × ((bearer_auth token path h ≡ pass) ↔ ((is_public path ≡ true) ⊎ Shows token h))
unfolding must_bearer_auth bearer_auth
must_bearer_auth_iff token path h n =
    let hb = eq_iff (header h "Authorization") (String.◌++◌ "Bearer " token) in
    let hs = eq_iff (header h "X-Service-Token") token in
    let he = eq_iff (header h "X-Service-Token") "" in
    let ht = eq_iff token "" in (ground (arith, ht), refl, ground (arith, hb, hs, he, ht))

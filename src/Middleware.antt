-- ===== src/Middleware.antt =====
-- middleware/: the rate limiter, and the authentication by a token. Tokens are integers as in the
-- source; a call takes one each, so they are not wrapped.
pub mod RateLaws
pub mod RequestLog
pub mod AuthLaws
pub mod Cors
pub mod CorsLaws
pub mod Groups
mod Tests
use Prim.Native.String
use omkit_go.Prelude.{
  ℕ, String, Bool, true, false, not, ◌&&◌, ◌||◌, Option, none, some, [], Map, lookup, insert,
  if◌then◌else◌, ◌==◌,
}
use omkit_go.Prelude.Int.{ℤ, pos, ◌+ℤ◌, ◌-ℤ◌, leb_ℤ, ltb_ℤ}
use omkit_go.Context.{Context, request_id_of}
use omkit_go.Headers.{Headers, header}
use omkit_go.Requestid.{header_name}

pub record Bucket : Type 0 where
  pub tokens : ℤ
  pub reset_at : ℤ

pub record IpRateLimiter : Type 0 where
  pub capacity : ℤ
  pub window : ℤ
  pub buckets : Map Bucket

unfoldable pub new_ip_rate_limiter : ℤ → ℤ → IpRateLimiter
new_ip_rate_limiter capacity window = record { capacity = capacity; window = window; buckets = [] }

fresh_bucket : String → ℤ → IpRateLimiter → IpRateLimiter
fresh_bucket ip now l = record l {
  buckets =
      insert ip (record { tokens = l.capacity -ℤ pos 1; reset_at = now +ℤ l.window }) l.buckets;
}

take_token : String → ℤ → IpRateLimiter → Bucket → IpRateLimiter × Bool
unfolding fresh_bucket
take_token ip now l b =
    if ltb_ℤ b.reset_at now
    then (fresh_bucket ip now l, true)
    else if leb_ℤ b.tokens (pos 0)
    then (l, false)
    else (
      record l { buckets = insert ip (record b { tokens = b.tokens -ℤ pos 1 }) l.buckets },
      true,
    )

-- The method allow of IPRateLimiter.
unfoldable pub allow : String → ℤ → IpRateLimiter → IpRateLimiter × Bool
unfolding take_token fresh_bucket
allow ip now l = elim (lookup ip l.buckets) [
  | none ↦ (fresh_bucket ip now l, true)
  | some b ↦ take_token ip now l b
]

-- The status that Wrap writes; `none` is a request that goes on to the next handler.
unfoldable pub wrap : String → ℤ → IpRateLimiter → IpRateLimiter × Option ℕ
wrap ip now l = let (l', ok) = allow ip now l in (l', if ok then none else some 429)

-- What BearerAuth does with a request: the next handler, or 401.
pub data Admission : Type 0 where
  pass unauthorized : Admission

unfoldable pub is_public : String → Bool
is_public path =
    path == "/health" || (path == "/healthz" || (path == "/ready" || path == "/readyz"))

-- A value with the prefix "Bearer " and the rest `token` is the text of the two together.
unfoldable pub bearer_auth : String → String → Headers → Admission
bearer_auth token path h =
    if token == ""
    then pass
    else if is_public path
    then pass
    else if header h "Authorization" == String.◌++◌ "Bearer " token
    then pass
    else if not (header h "X-Service-Token" == "") && header h "X-Service-Token" == token
    then pass
    else unauthorized

-- MustBearerAuth: `none` is its panic, when it is called.
unfoldable pub must_bearer_auth : String → Option (String → Headers → Admission)
must_bearer_auth token = if token == "" then none else some (bearer_auth token)

-- The request id that RequestLog writes.
unfoldable pub logged_request_id : Context → Headers → String
logged_request_id ctx h =
    if request_id_of ctx == "" then header h header_name else request_id_of ctx

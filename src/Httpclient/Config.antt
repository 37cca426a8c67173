-- ===== src/Httpclient/Config.antt =====
-- The Client of httpclient/client.go and its functional options. A transport or a redirect check is
-- a value that the caller passes in, and is told apart by a number.
use Prim.Native.String
use omkit_go.Prelude.{
  ℕ, String, Bool, true, false, not, Option, none, some, List, [], ◌∷◌, Map, insert, if◌then◌else◌,
}
use omkit_go.Prelude.Int.{ℤ, pos}
use omkit_go.Httpclient.Breaker.{CircuitBreaker}

-- The transports that are told apart: `nil`, the caller's own, and the tracing wrapper.
pub data Transport : Type 0 where
  unset default_transport : Transport
  custom : ℕ → Transport
  traced : Transport → Transport

pub record Client : Type 0 where
  pub timeout : ℤ
  pub transport : Transport
  pub check_redirect : Option ℕ
  pub retries : ℤ
  pub headers : Map String
  pub circuit_breaker : Option CircuitBreaker
  pub tracing_disabled : Bool
  pub tenant_from_context : Bool
  pub request_id_from_context : Bool

abbrev pub ClientOption : Type 0
ClientOption = Client → Client

unfoldable pub without_tracing : ClientOption
without_tracing c = record c { tracing_disabled = true }

unfoldable pub with_timeout : ℤ → ClientOption
with_timeout d c = record c { timeout = d }

unfoldable pub with_retries : ℤ → ClientOption
with_retries n c = record c { retries = n }

unfoldable pub with_bearer_token : String → ClientOption
with_bearer_token token c = record c {
  headers = insert "Authorization" (String.◌++◌ "Bearer " token) c.headers;
}

unfoldable pub with_service_token : String → ClientOption
with_service_token token c = record c { headers = insert "X-Service-Token" token c.headers }

unfoldable pub with_tenant_header_from_context : ClientOption
with_tenant_header_from_context c = record c { tenant_from_context = true }

unfoldable pub with_request_id_from_context : ClientOption
with_request_id_from_context c = record c { request_id_from_context = true }

unfoldable pub with_circuit_breaker : CircuitBreaker → ClientOption
with_circuit_breaker cb c = record c { circuit_breaker = some cb }

unfoldable pub with_check_redirect : ℕ → ClientOption
with_check_redirect fn c = record c { check_redirect = some fn }

unfoldable pub with_transport : Transport → ClientOption
with_transport t c = record c { transport = t }

apply_options : List ClientOption → Client → Client
apply_options [] c = c
apply_options (o ∷ os) c = apply_options os (o c)

abbrev base_transport : Transport → Transport
base_transport unset = default_transport
base_transport t = t

wrap_transport : Client → Client
wrap_transport c =
    if not c.tracing_disabled
    then record c { transport = traced (base_transport c.transport) }
    else c

unfoldable pub new : List ClientOption → Client
unfolding apply_options wrap_transport
new opts = wrap_transport (
    apply_options opts (record {
      timeout = pos 30_000_000_000;
      transport = unset;
      check_redirect = none;
      retries = pos 1;
      headers = [];
      circuit_breaker = none;
      tracing_disabled = false;
      tenant_from_context = false;
      request_id_from_context = false;
    }))

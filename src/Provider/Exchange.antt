-- ===== src/Provider/Exchange.antt =====
-- provider/: what the methods of the three providers have in common, a POST of a JSON document and
-- the reading of its reply, and the interface Provider. `buildable` is whether
-- http.NewRequestWithContext takes a URL; the server answers a request with a status and a body, or
-- with `none` for an error of the client. Of an error the step is kept, not its message.
pub mod Laws
use omkit_go.Prelude.{ℕ, String, Bool, true, false, ◌&&◌, Option, none, some, leb, if◌then◌else◌}
use omkit_go.Headers.{Headers}
use omkit_go.Jobqueue.Json.{Json}
use omkit_go.Provider.{ChatRequest, ChatResponse, EmbedRequest, EmbedResponse}

-- A POST.
pub record Request : Type 0 where
  pub url : String
  pub headers : Headers
  pub body : Json

pub data Fault : Type 0 where
  marshal_request build_request do_request decode_response unsupported : Fault
  unexpected_status : ℕ → Fault

pub data Result (A : Type 0) : Type 0 where
  ok : A → Result A
  failed : Fault → Result A

pub record Env (B : Type 0) : Type 0 where
  pub buildable : String → Bool
  pub answer : Request → Option (ℕ × B)

abbrev pub is_ok : ℕ → Bool
is_ok status = leb 200 status && leb status 200

module _ {B W A : Type 0} (decode : B → Option W) (finish : W → A) where
  read_body : Option W → Result A
  read_body none = failed decode_response
  read_body (some w) = ok (finish w)

  -- What follows client.Do.
  unfoldable pub read_reply : Option (ℕ × B) → Result A
  unfolding read_body
  read_reply none = failed do_request
  read_reply (some (status, body)) =
      if is_ok status then read_body (decode body) else failed (unexpected_status status)

  -- The request that is sent, where one is, and the result.
  unfoldable pub exchange :
      Env B → (url : String) → Headers → Option Json → Option Request × Result A
  exchange env url headers none = (none, failed marshal_request)
  exchange env url headers (some body) =
      let request : Request = record { url = url; headers = headers; body = body } in
      if env.buildable url
      then (some request, read_reply (env.answer request))
      else (none, failed build_request)

-- The interface Provider.
pub record Provider (F : Type 0) : Type 0 where
  pub name : String
  pub supports_embedding : Bool
  pub chat_completion : ChatRequest F → Option Request × Result ChatResponse
  pub embedding : EmbedRequest → Option Request × Result (EmbedResponse F)

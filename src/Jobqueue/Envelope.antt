-- ===== src/Jobqueue/Envelope.antt =====
-- jobqueue/envelope.go. uuid.Parse is the parameter `is_uuid`, which says whether it returns no
-- error. json.Unmarshal into the struct is written out on trees: a later field wins, a field of
-- another type is an error, null leaves a field as it is, and unknown fields are skipped. The
-- parameter `folds k name` says whether encoding/json takes the key `k` for the field `name`.
pub mod Laws
use omkit_go.Prelude.{String, Bool, true, false, ◌&&◌, Option, none, some, if◌then◌else◌, ◌==◌}
use omkit_go.Prelude.Int.{ℤ, pos, negsuc, leb_ℤ, ltb_ℤ, min_int64, max_int64}
use omkit_go.Jobqueue.Json.{Json, null, num, str, obj, Fields, end, field, Document}

-- EnvelopeVersion
abbrev pub envelope_version : ℤ
envelope_version = pos 1

-- `payload` is `none` where the RawMessage is empty.
pub record Envelope : Type 0 where
  pub version : ℤ
  pub tenant_id : String
  pub request_id : String
  pub payload : Option Json

abbrev pub zero_envelope : Envelope
zero_envelope = record { version = pos 0; tenant_id = ""; request_id = ""; payload = none }

-- The validation that failed; each wraps ErrInvalidEnvelope. `bad_payload` is the marshalling error
-- of WrapWithRequestID, which does not.
pub data EnvelopeError : Type 0 where
  malformed missing_version bad_tenant empty_payload bad_payload : EnvelopeError
  unsupported_version : ℤ → EnvelopeError

-- errors.Is(err, ErrInvalidEnvelope), in server.go.
unfoldable pub is_invalid_envelope_error : EnvelopeError → Bool
is_invalid_envelope_error bad_payload = false
is_invalid_envelope_error _ = true

pub data Result {ℓ} (A : Type ℓ) : Type ℓ where
  ok : A → Result A
  err : EnvelopeError → Result A

infixl 5 ◌>>=◌
abbrev pub ◌>>=◌ {ℓ κ} : {A : Type ℓ} {B : Type κ} → Result A → (A → Result B) → Result B
ok a >>= f = f a
err e >>= f = err e

-- json.Marshal of an envelope: `omitempty` leaves an empty request id out, and an empty
-- RawMessage is written as null.
abbrev payload_json : Option Json → Json
payload_json none = null
payload_json (some j) = j

unfoldable pub marshal_envelope : Envelope → Json
marshal_envelope env =
    let rest = field "payload" (payload_json env.payload) end in
    let tail =
      if env.request_id == "" then rest else field "request_id" (str env.request_id) rest in
    obj (field "version" (num env.version) (field "tenant_id" (str env.tenant_id) tail))

-- The decoding of an int and of a string field, over the value that is there.
decode_int : Json → ℤ → Option ℤ
decode_int (num n) old = if leb_ℤ min_int64 n && leb_ℤ n max_int64 then some n else none
decode_int null old = some old
decode_int _ old = none

decode_string : Json → String → Option String
decode_string (str s) old = some s
decode_string null old = some old
decode_string _ old = none

module _ (folds : String → String → Bool) where
  set_version : Option ℤ → Envelope → Option Envelope
  set_version none env = none
  set_version (some n) env = some (record env { version = n })

  set_tenant : Option String → Envelope → Option Envelope
  set_tenant none env = none
  set_tenant (some s) env = some (record env { tenant_id = s })

  set_request : Option String → Envelope → Option Envelope
  set_request none env = none
  set_request (some s) env = some (record env { request_id = s })

  pub decode_field : String → Json → Envelope → Option Envelope
  unfolding set_version set_tenant set_request decode_int decode_string
  decode_field k v env =
      if folds k "version"
      then set_version (decode_int v env.version) env
      else if folds k "tenant_id"
      then set_tenant (decode_string v env.tenant_id) env
      else if folds k "request_id"
      then set_request (decode_string v env.request_id) env
      else if folds k "payload"
      then some (record env { payload = some v })
      else some env

  decode_fields : Fields → Envelope → Option Envelope
  decode_fields end env = some env
  decode_fields (field k v fs) env = elim (decode_field k v env) [
    | none ↦ none
    | some env' ↦ decode_fields fs env'
  ]

  -- json.Unmarshal(data, &env)
  unfoldable pub unmarshal_envelope : Document → Option Envelope
  unfolding decode_fields
  unmarshal_envelope (some (obj fs)) = decode_fields fs zero_envelope
  unmarshal_envelope (some null) = some zero_envelope
  unmarshal_envelope _ = none

module _ (is_uuid : String → Bool) where
  -- `payload` is what json.Marshal makes of the caller's value, `none` an error.
  unfoldable pub wrap_with_request_id : String → String → Option Json → Result Json
  wrap_with_request_id tenant_id request_id payload =
      if is_uuid tenant_id
      then elim payload [
        | none ↦ err bad_payload
        | some raw ↦ ok (
            marshal_envelope (record {
              version = envelope_version;
              tenant_id = tenant_id;
              request_id = request_id;
              payload = some raw;
            }))
      ]
      else err bad_tenant

  unfoldable pub wrap : String → Option Json → Result Json
  unfolding wrap_with_request_id
  wrap tenant_id payload = wrap_with_request_id tenant_id "" payload

  abbrev is_zero : ℤ → Bool
  is_zero (pos n) = leb_ℤ (pos n) (pos 0)
  is_zero (negsuc n) = false

  validate : Envelope → Result Envelope
  validate env =
      if is_zero env.version
      then err missing_version
      else if ltb_ℤ envelope_version env.version
      then err (unsupported_version env.version)
      else if is_uuid env.tenant_id
      then elim env.payload [ none ↦ err empty_payload | some j ↦ ok env ]
      else err bad_tenant

  module _ (folds : String → String → Bool) where
    unfoldable pub unwrap : Document → Result Envelope
    unfolding validate
    unwrap data' = elim (unmarshal_envelope folds data') [
      | none ↦ err malformed
      | some env ↦ validate env
    ]

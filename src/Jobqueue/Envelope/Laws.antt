-- ===== src/Jobqueue/Envelope/Laws.antt =====
-- Envelopes: the round trip, what the validation accepts, and the shape on the wire.
use omkit_go.Prelude.{
  ℕ, String, ◌≡◌, ◌≢◌, ◌↔◌, inl, inr, Bool, true, false, none, some, arith, Option-cases, ◌==◌,
  eq_iff,
}
use omkit_go.Prelude.Int.{ℤ, pos, negsuc, ◌≤ℤ◌, min_int64, max_int64}
use omkit_go.Jobqueue.Json.{Json, num, str, obj, Fields, end, field, Document, append}
use omkit_go.Jobqueue.Envelope.{
  Envelope, envelope_version, zero_envelope, EnvelopeError, ok, err, marshal_envelope, decode_field,
  decode_fields, unmarshal_envelope, wrap_with_request_id, validate, unwrap,
  is_invalid_envelope_error,
}

-- The names of the fields on the wire.
pub data FieldName : Type 0 where
  version tenant_id request_id payload : FieldName

abbrev pub wire : FieldName → String
wire version = "version"
wire tenant_id = "tenant_id"
wire request_id = "request_id"
wire payload = "payload"

-- encoding/json folds letter case, so on the four names it takes a key for the field of that name
-- alone.
pub record FoldLaws (folds : String → String → Bool) : Type 0 where
  pub on_names : (a b : FieldName) → folds (wire a) (wire b) ≡ (wire a == wire b)

module _ {folds : String → String → Bool} (laws : FoldLaws folds) where
  decode-version :
      (n : ℤ) (env : Envelope)
      → min_int64 ≤ℤ n
      → n ≤ℤ max_int64
      → decode_field folds "version" (num n) env ≡ some (record env { version = n })
  unfolding decode_field
  decode-version n env h k = ground (arith, laws.on_names version version)

  decode-tenant_id :
      (s : String) (env : Envelope)
      → decode_field folds "tenant_id" (str s) env ≡ some (record env { tenant_id = s })
  unfolding decode_field
  decode-tenant_id s env =
      ground (arith, laws.on_names tenant_id version, laws.on_names tenant_id tenant_id)

  decode-request_id :
      (s : String) (env : Envelope)
      → decode_field folds "request_id" (str s) env ≡ some (record env { request_id = s })
  unfolding decode_field
  decode-request_id s env = ground (
    arith,
    laws.on_names request_id version,
    laws.on_names request_id tenant_id,
    laws.on_names request_id request_id,
  )

  decode-payload :
      (j : Json) (env : Envelope)
      → decode_field folds "payload" j env ≡ some (record env { payload = some j })
  unfolding decode_field
  decode-payload j env = ground (
    arith,
    laws.on_names payload version,
    laws.on_names payload tenant_id,
    laws.on_names payload request_id,
    laws.on_names payload payload,
  )

  decode_fields-payload :
      (j : Json) (env : Envelope)
      → decode_fields folds (field "payload" j end) env ≡ some (record env { payload = some j })
  unfolding decode_fields
  decode_fields-payload j env = rw (decode-payload j env, decode_fields)

  decode_fields-request_id :
      (r : String) (j : Json) (env : Envelope)
      → decode_fields folds (field "request_id" (str r) (field "payload" j end)) env
        ≡ some (record env { request_id = r; payload = some j })
  unfolding decode_fields
  decode_fields-request_id r j env =
      rw (decode-request_id r env, decode_fields)
        (decode_fields-payload j (record env { request_id = r }))

  -- The two fields that every envelope starts with.
  decode_fields-head :
      (v : ℤ) (t : String) (fs : Fields) (env : Envelope)
      → min_int64 ≤ℤ v
      → v ≤ℤ max_int64
      → decode_fields folds (field "version" (num v) (field "tenant_id" (str t) fs)) env
        ≡ decode_fields folds fs (record env { version = v; tenant_id = t })
  unfolding decode_fields
  decode_fields-head v t fs env h k =
      rw (decode-version v env h k, decode_fields)
        (rw (decode-tenant_id t (record env { version = v }), decode_fields))

  unmarshal-marshal :
      (v : ℤ) (t r : String) (j : Json)
      → min_int64 ≤ℤ v
      → v ≤ℤ max_int64
      → let env : Envelope = record {
        version = v;
        tenant_id = t;
        request_id = r;
        payload = some j;
      } in
        unmarshal_envelope folds (some (marshal_envelope env)) ≡ some env
  unfolding unmarshal_envelope marshal_envelope
  unmarshal-marshal v t r j h k = ground (
    arith,
    eq_iff r "",
    decode_fields-head v t (field "payload" j end) zero_envelope h k,
    decode_fields-head v t (field "request_id" (str r) (field "payload" j end)) zero_envelope h k,
    decode_fields-payload j
        (record { version = v; tenant_id = t; request_id = ""; payload = none }),
    decode_fields-request_id r j
        (record { version = v; tenant_id = t; request_id = ""; payload = none }),
  )

  module _ (is_uuid : String → Bool) where
    -- What WrapWithRequestID makes of a valid tenant id, any request id and a payload that can be
    -- marshalled, Unwrap takes back to the same three values, at the current version.
    pub unwrap-wrap :
        (t r : String) (j : Json) (d : Json)
        → wrap_with_request_id is_uuid t r (some j) ≡ ok d
        → unwrap is_uuid folds (some d)
          ≡ ok (record {
            version = envelope_version;
            tenant_id = t;
            request_id = r;
            payload = some j;
          })
    unfolding wrap_with_request_id unwrap
    unwrap-wrap t r j d e =
        ground (arith, unmarshal-marshal envelope_version t r j (omega arith) (omega arith))

-- The four conditions that Unwrap checks.
pub record Accepts (is_uuid : String → Bool) (env : Envelope) : Type 0 where
  pub versioned : env.version ≢ pos 0
  pub supported : env.version ≤ℤ envelope_version
  pub uuid : is_uuid env.tenant_id ≡ true
  pub carries : env.payload ≢ none

module _ (is_uuid : String → Bool) (folds : String → String → Bool) where
  validate-ok :
      (env env' : Envelope)
      → (validate is_uuid env ≡ ok env') ↔ (Accepts is_uuid env × (env ≡ env'))
  unfolding validate
  validate-ok env env' = ground arith

  -- Unwrap accepts a task's data exactly where it decodes to an envelope with a version that is not
  -- 0 and at most the current one, a tenant id that is a UUID and a payload; the result is that
  -- envelope.
  pub unwrap-ok_iff :
      (data' : Document) (env : Envelope)
      → (unwrap is_uuid folds data' ≡ ok env)
        ↔ ((unmarshal_envelope folds data' ≡ some env) × Accepts is_uuid env)
  unfolding unwrap
  unwrap-ok_iff data' env = elim (Option-cases (unmarshal_envelope folds data')) [
    | inl e ↦ ground arith
    | inr (env', e) ↦ ground (arith, validate-ok env' env)
  ]

  -- Every error of Unwrap wraps ErrInvalidEnvelope.
  pub unwrap-err :
      (data' : Document) (x : EnvelopeError)
      → unwrap is_uuid folds data' ≡ err x
      → is_invalid_envelope_error x ≡ true
  unfolding unwrap is_invalid_envelope_error
  unwrap-err data' x e = ground arith

  -- A field that is none of the four.
  abbrev IsExtra : String → Type 0
  IsExtra k = (a : FieldName) → folds k (wire a) ≡ false

  decode-extra :
      (k : String) (v : Json) (env : Envelope) → IsExtra k → decode_field folds k v env ≡ some env
  unfolding decode_field
  decode-extra k v env x = ground (arith, x version, x tenant_id, x request_id, x payload)

  decode_fields-extra :
      (fs gs : Fields) (k : String) (v : Json) (env : Envelope)
      → IsExtra k
      → decode_fields folds (append fs (field k v gs)) env ≡ decode_fields folds (append fs gs) env
  unfolding decode_fields
  decode_fields-extra end gs k v env x = rw (decode-extra k v env x, decode_fields)
  decode_fields-extra (field j w fs) gs k v env x =
      elim (Option-cases (decode_field folds j w env)) [
        | inl e ↦ rw (e, decode_fields)
        | inr (env', e) ↦ rw (e, decode_fields) (decode_fields-extra fs gs k v env' x)
      ]

  -- A field with another name, at any place of the object and with any value, changes nothing of
  -- what Unwrap returns.
  pub unwrap-extra :
      (fs gs : Fields) (k : String) (v : Json)
      → ((a : FieldName) → folds k (wire a) ≡ false)
      → unwrap is_uuid folds (some (obj (append fs (field k v gs))))
        ≡ unwrap is_uuid folds (some (obj (append fs gs)))
  unfolding unwrap unmarshal_envelope
  unwrap-extra fs gs k v x =
      rw (unwrap, unmarshal_envelope, decode_fields-extra fs gs k v zero_envelope x)

-- Unwrap accepts every negative version in the range of the field, with a UUID and a payload.
pub unwrap-negative :
    {folds : String → String → Bool} (is_uuid : String → Bool)
    → FoldLaws folds
    → (n : ℕ) (t r : String) (j : Json) → min_int64 ≤ℤ negsuc n
    → is_uuid t ≡ true
    → let env : Envelope = record {
      version = negsuc n;
      tenant_id = t;
      request_id = r;
      payload = some j;
    } in
      unwrap is_uuid folds (some (marshal_envelope env)) ≡ ok env
unfolding unwrap
unwrap-negative is_uuid laws n t r j high u =
    ground (arith, unmarshal-marshal laws (negsuc n) t r j high (omega arith))

-- ===== src/Jobqueue/Tests.antt =====
-- The theorems on envelopes, enqueuing and the middlewares, at concrete tasks. The instance of the
-- external functions: the nil UUID is the one that is accepted, and keys are compared as they are.
use omkit_go.Prelude.{String, ◌≡◌, refl, ◌↔◌, Bool, some, ◌==◌}
use omkit_go.Prelude.Int.{pos}
use omkit_go.Jobqueue.Json.{Json, num}
use omkit_go.Jobqueue.Envelope.{
  Envelope, envelope_version, ok, marshal_envelope, unmarshal_envelope, wrap_with_request_id,
  unwrap,
}
use omkit_go.Jobqueue.Envelope.Laws.{FoldLaws, Accepts, unwrap-wrap, unwrap-ok_iff}

abbrev nil_uuid : String
nil_uuid = "00000000-0000-0000-0000-000000000000"

abbrev is_uuid : String → Bool
is_uuid s = s == nil_uuid

abbrev folds : String → String → Bool
folds k name = k == name

folds-FoldLaws : FoldLaws folds
folds-FoldLaws = record { on_names = λ a b. refl }

abbrev body : Json
body = marshal_envelope (record {
  version = envelope_version;
  tenant_id = nil_uuid;
  request_id = "r-1";
  payload = some (num (pos 7));
})

wrapped : wrap_with_request_id is_uuid nil_uuid "r-1" (some (num (pos 7))) ≡ ok body
unfolding wrap_with_request_id
wrapped = refl

unwrap-wrap_example :
    unwrap is_uuid folds (some body)
    ≡ ok (record {
      version = envelope_version;
      tenant_id = nil_uuid;
      request_id = "r-1";
      payload = some (num (pos 7));
    })
unwrap-wrap_example = unwrap-wrap folds-FoldLaws is_uuid nil_uuid "r-1" (num (pos 7)) body wrapped

abbrev seven : Envelope
seven = record {
  version = envelope_version;
  tenant_id = nil_uuid;
  request_id = "r-1";
  payload = some (num (pos 7));
}

unwrap-ok_iff_example :
    (unwrap is_uuid folds (some body) ≡ ok seven)
    ↔ ((unmarshal_envelope folds (some body) ≡ some seven) × Accepts is_uuid seven)
unwrap-ok_iff_example = unwrap-ok_iff is_uuid folds (some body) seven

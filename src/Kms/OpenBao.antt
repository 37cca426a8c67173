-- ===== src/Kms/OpenBao.antt =====
-- kms/openbao.go: the client of an OpenBao server. The server is a function of the requests it has
-- had, and so is the clock; JSON, base64 and the two are parameters. Of an error the kind and the
-- status are kept, not its message.
use Prim.Native.String
use omkit_go.Prelude.{
  ℕ, String, Bool, ◌&&◌, not, Option, none, some, List, [], ◌∷◌, if◌then◌else◌, ◌==◌, leb, ◌*◌, ◌+◌,
}
use omkit_go.Prelude.Int.{ℤ, pos, negsuc, ◌+ℤ◌, ◌-ℤ◌, ltb_ℤ, leb_ℤ, wrap64}
use omkit_go.Crypto.{Bytes}

pub data Method : Type 0 where
  post get : Method

-- A request, with "" for no token.
pub record Request : Type 0 where
  pub method : Method
  pub path : String
  pub token : String
  pub body : String

pub data Answer : Type 0 where
  unreachable : Answer
  response : ℕ → String → Answer

-- ErrKMSUnavailable and ErrKMSAuth with their status, and other errors.
pub data Error : Type 0 where
  unavailable auth : ℕ → Error
  other : Error

pub data Result : Type 0 where
  ok : String → Result
  failed : Error → Result

pub record Login : Type 0 where
  pub client_token : String
  pub lease_duration : ℤ

-- A reply of Transit, "" and 0 where a field is missing.
pub record Reply : Type 0 where
  pub text : String
  pub version : ℤ

-- The two maps of base64, and the bytes of a text.
pub record Base64 : Type 0 where
  pub encode : Bytes → String
  pub decode : String → Option Bytes
  pub bytes_of : String → Bytes

-- What the client marshals and unmarshals. `pair` is an object of "context" and one other field,
-- `shown` the decimal of an integer.
pub record Codec : Type 0 where
  pub credentials : (role_id secret_id : String) → String
  pub login : String → Option Login
  pub pair : (field value context : String) → String
  pub reply : (field : String) → String → Option Reply
  pub tombstone : String
  pub shown : ℤ → String

-- The server and the clock, by the requests so far, the last one first.
pub record Env : Type 0 where
  pub server : List Request → Answer
  pub clock : List Request → ℤ
  pub codec : Codec
  pub base64 : Base64

pub record Client : Type 0 where
  pub role_id : String
  pub secret_id : String
  pub key_name : String
  pub token : String
  pub token_expiry : ℤ
  pub sent : List Request

-- NewOpenBaoKMS from the environment: `none` where a variable is missing.
unfoldable pub new_openbao_kms : (String → String) → Option (String × Client)
new_openbao_kms getenv =
    let addr = getenv "OMUR_KMS_OPENBAO_ADDR" in
    let role_id = getenv "OMUR_KMS_OPENBAO_ROLE_ID" in
    let secret_id = getenv "OMUR_KMS_OPENBAO_SECRET_ID" in
    let key_name = getenv "OMUR_KMS_OPENBAO_KEY_NAME" in
    if addr == ""
    then none
    else if role_id == ""
    then none
    else if secret_id == ""
    then none
    else some (
      addr,
      record {
        role_id = role_id;
        secret_id = secret_id;
        key_name = if key_name == "" then "omur-user-content" else key_name;
        token = "";
        token_expiry = negsuc 62_135_596_799_999_999_999;
        sent = [];
      },
    )

-- doRaw on the answer.
unfoldable pub result_of : Answer → Result
result_of unreachable = failed (unavailable 0)
result_of (response status body) =
    if leb 500 status
    then failed (unavailable status)
    else if leb 400 status
    then failed (auth status)
    else ok body

unfoldable pub do_raw : Env → Method → String → String → String → Client → Client × Result
do_raw env method path token body o =
    let sent = record { method = method; path = path; token = token; body = body } ∷ o.sent in
    (record o { sent = sent }, result_of (env.server sent))

-- A number of seconds in nanoseconds, as an int64.
unfoldable pub nanoseconds : ℤ → ℤ
nanoseconds (pos s) = wrap64 (pos (s * 1_000_000_000))
nanoseconds (negsuc s) = wrap64 (negsuc (s * 1_000_000_000 + 999_999_999))

-- The lease of a token, an hour where it is not positive.
unfoldable pub lease_of : ℤ → ℤ
lease_of s = let d = nanoseconds s in if leb_ℤ d (pos 0) then pos 3_600_000_000_000 else d

-- The end of login: the token of the reply is kept.
unfoldable pub keep_token : Env → Client → Result → Client × Result
keep_token env o (failed e) = (o, failed e)
keep_token env o (ok body) = elim (env.codec.login body) [
  | none ↦ (o, failed other)
  | some l ↦ if l.client_token == "" then (o, failed other) else (
    record o {
      token = l.client_token;
      token_expiry = env.clock o.sent +ℤ lease_of l.lease_duration;
    },
    ok l.client_token,
  )
]

unfoldable pub login : Env → Client → Client × Result
login env o =
    let (sent, reply) =
      do_raw env post "/v1/auth/approle/login" "" (env.codec.credentials o.role_id o.secret_id) o in
    keep_token env sent reply

-- Whether the cached token is good for more than 30 seconds.
unfoldable pub is_fresh : Env → Client → Bool
is_fresh env o =
    not (o.token == "") && ltb_ℤ (pos 30_000_000_000) (o.token_expiry -ℤ env.clock o.sent)

unfoldable pub get_token : Env → Client → Client × Result
get_token env o = if is_fresh env o then (o, ok o.token) else login env o

-- A call with a token, where there is one.
unfoldable pub do_with : Env → Method → String → String → Client × Result → Client × Result
do_with env method path body (o, failed e) = (o, failed e)
do_with env method path body (o, ok token) = do_raw env method path token body o

abbrev pub is_forbidden : ℕ → Bool
is_forbidden status = leb 403 status && leb status 403

-- What `do` makes of the first reply: a 403 drops the token, and the call is made once again.
unfoldable pub retry : Env → Method → String → String → Client × Result → Client × Result
retry env method path body (o, ok reply) = (o, ok reply)
retry env method path body (o, failed (unavailable status)) = (o, failed (unavailable status))
retry env method path body (o, failed other) = (o, failed other)
retry env method path body (o, failed (auth status)) =
    if is_forbidden status
    then do_with env method path body (get_token env (record o { token = "" }))
    else (o, failed (auth status))

-- The calls of `do`: an error of the first token is returned as it is.
unfoldable pub do_call : Env → Method → String → String → Client × Result → Client × Result
do_call env method path body (o, failed e) = (o, failed e)
do_call env method path body (o, ok token) =
    retry env method path body (do_raw env method path token body o)

unfoldable pub do_request : Env → Method → String → String → Client → Client × Result
do_request env method path body o = do_call env method path body (get_token env o)

unfoldable pub derived_context : Base64 → String → String → Bytes → String
derived_context base64 user_id purpose aad =
    let inner =
      String.◌++◌ user_id
        (String.◌++◌ ":" (String.◌++◌ purpose (String.◌++◌ ":" (base64.encode aad)))) in
    base64.encode (base64.bytes_of inner)

-- What Wrap, WrapDEK, Unwrap and UnwrapDEK return.
pub data Sealed : Type 0 where
  sealed : (ciphertext version : String) → Sealed
  opened : Bytes → Sealed
  refused : Error → Sealed

-- "v" and the version of the key.
unfoldable pub version_of : Env → ℤ → String
version_of env n = String.◌++◌ "v" (env.codec.shown n)

unfoldable pub sealed_of : Env → Result → Sealed
sealed_of env (failed e) = refused e
sealed_of env (ok body) = elim (env.codec.reply "ciphertext" body) [
  | none ↦ refused (unavailable 0)
  | some r ↦
      if r.text == "" then refused (unavailable 0) else sealed r.text (version_of env r.version)
]

unfoldable pub opened_of : Env → Result → Sealed
opened_of env (failed e) = refused e
opened_of env (ok body) = elim (env.codec.reply "plaintext" body) [
  | none ↦ refused (unavailable 0)
  | some r ↦
      if r.text == ""
      then refused (unavailable 0)
      else elim (env.base64.decode r.text) [ none ↦ refused other | some plain ↦ opened plain ]
]

-- ===== src/Encryption.antt =====
-- encryption/encryption.go: tokens for the secrets of settings. A Go string is its bytes; URL-safe
-- base64 is a parameter.
pub mod Tokens
mod Tests
use omkit_go.Prelude.{
  ℕ, Bool, true, false, Option, none, some, List, [], ◌∷◌, ◌++◌, length, take, ltb, if◌then◌else◌,
  ◌-◌, leb,
}
use omkit_go.Crypto.{Bytes, Aead, drop, eq_ℕ, eq_bytes, wrap, unwrap}

pub record Base64 : Type 0 where
  pub encode : Bytes → Bytes
  pub decode : Bytes → Option Bytes

pub data Result : Type 0 where
  ok : Bytes → Result
  invalid_key invalid_token failed : Result

abbrev pub key_size : ℕ
key_size = 32

-- "v1"
abbrev pub version_prefix : Bytes
version_prefix = 118 ∷ 49 ∷ []

-- "omkit.encryption.v1"
abbrev pub aad : Bytes
aad =
    111 ∷ 109 ∷ 107 ∷ 105 ∷ 116 ∷ 46 ∷ 101 ∷ 110 ∷ 99 ∷ 114 ∷ 121 ∷ 112 ∷ 116 ∷ 105 ∷ 111 ∷ 110 ∷ 46
    ∷ 118 ∷ 49 ∷ []

-- From the random bytes, `none` where their source fails.
unfoldable pub generate_key : Base64 → Option Bytes → Option Bytes
generate_key base64 none = none
generate_key base64 (some key) = some (base64.encode key)

-- `none` is ErrInvalidKey.
unfoldable pub decode_key : Base64 → Bytes → Option Bytes
decode_key base64 key = elim (base64.decode key) [
  | none ↦ none
  | some k ↦ if eq_ℕ (length k) key_size then some k else none
]

unfoldable pub encrypt : Aead → Base64 → (nonce : Option Bytes) → Bytes → Bytes → Result
encrypt aead base64 nonce plaintext key = elim (decode_key base64 key) [
  | none ↦ invalid_key
  | some kek ↦ elim (wrap aead nonce kek plaintext aad) [
    | none ↦ failed
    | some blob ↦ ok (base64.encode (version_prefix ++ blob))
  ]
]

-- What Decrypt does with the decoded token.
unfoldable pub decrypt_raw : Aead → Bytes → Bytes → Result
decrypt_raw aead kek raw =
    if ltb (length raw) 30
    then invalid_token
    else if eq_bytes (take 2 raw) version_prefix
    then elim (unwrap aead kek (drop 2 raw) aad) [ none ↦ invalid_token | some plain ↦ ok plain ]
    else invalid_token

unfoldable pub decrypt : Aead → Base64 → Bytes → Bytes → Result
decrypt aead base64 token key = elim (decode_key base64 key) [
  | none ↦ invalid_key
  | some kek ↦ elim (base64.decode token) [
    | none ↦ invalid_token
    | some raw ↦ decrypt_raw aead kek raw
  ]
]

-- "****"
abbrev pub mask : Bytes
mask = 42 ∷ 42 ∷ 42 ∷ 42 ∷ []

unfoldable pub mask_secret : Bytes → Bytes
mask_secret value =
    let n = length value in
    if eq_ℕ n 0
    then []
    else if leb 10 n
    then take 4 value ++ mask ++ drop (n - 4) value
    else if leb 4 n
    then take 2 value ++ mask ++ drop (n - 2) value
    else mask

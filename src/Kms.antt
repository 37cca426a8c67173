-- ===== src/Kms.antt =====
-- kms/localdev.go: the key service of development. Strings are their bytes; HMAC-SHA256 is a
-- parameter, from a key and a message to 32 bytes. The child OpenBao is kms/openbao.go.
pub mod Binding
pub mod LocalDev
pub mod OpenBao
pub mod Transit
pub mod Requests
pub mod Renewal
mod Tests
use omkit_go.Prelude.{ℕ, zero, suc, Bool, Option, none, some, List, [], ◌∷◌, ◌++◌, take}
use omkit_go.Crypto.{Bytes, Aead}
use omkit_go.Crypto as Crypto

-- `hmac.New(sha256.New, key)` on a message.
abbrev pub Hmac : Type 0
Hmac = Bytes → Bytes → Bytes

abbrev pub zeros : ℕ → Bytes
zeros zero = []
zeros (suc n) = 0 ∷ zeros n

-- The master key: 32 bytes, of a given text cut off or filled with zeros.
unfoldable pub new_local_dev : Bytes → Bytes
new_local_dev master = take 32 (master ++ zeros 32)

-- "omur-kms-derive-v1:"
abbrev pub derive_label : Bytes
derive_label =
    111 ∷ 109 ∷ 117 ∷ 114 ∷ 45 ∷ 107 ∷ 109 ∷ 115 ∷ 45 ∷ 100 ∷ 101 ∷ 114 ∷ 105 ∷ 118 ∷ 101 ∷ 45 ∷ 118
    ∷ 49 ∷ 58 ∷ []

unfoldable pub key : Hmac → Bytes → Bytes → Bytes
key hmac master key_id = hmac master (derive_label ++ key_id)

-- "user-", the user, "-" and the purpose.
unfoldable pub user_label : Bytes → Bytes → Bytes
user_label user_id purpose = (117 ∷ 115 ∷ 101 ∷ 114 ∷ 45 ∷ []) ++ (user_id ++ 45 ∷ purpose)

unfoldable pub user_key : Hmac → Bytes → Bytes → Bytes → Bytes
user_key hmac master user_id purpose = hmac master (user_label user_id purpose)

-- The purpose, "|", the user, "|" and the additional data.
unfoldable pub bind_aad : Bytes → Bytes → Bytes → Bytes
bind_aad purpose user_id aad = purpose ++ 124 ∷ (user_id ++ 124 ∷ aad)

unfoldable pub wrap : Aead → Hmac → Bytes → Option Bytes → Bytes → Bytes → Bytes → Option Bytes
wrap aead hmac master nonce key_id plaintext aad =
    Crypto.wrap aead nonce (key hmac master key_id) plaintext aad

unfoldable pub unwrap : Aead → Hmac → Bytes → Bytes → Bytes → Bytes → Option Bytes
unwrap aead hmac master key_id blob aad = Crypto.unwrap aead (key hmac master key_id) blob aad

-- "v1"
unfoldable pub current_version : Bytes → Bytes
current_version key_id = 118 ∷ 49 ∷ []

-- "localdev-v1"
abbrev pub wrap_version : Bytes
wrap_version = 108 ∷ 111 ∷ 99 ∷ 97 ∷ 108 ∷ 100 ∷ 101 ∷ 118 ∷ 45 ∷ 118 ∷ 49 ∷ []

-- The wrapped key and its version.
unfoldable pub wrap_dek :
    Aead
    → Hmac
    → Bytes
    → Option Bytes
    → (user_id purpose plain_dek aad : Bytes) → Option (Bytes × Bytes)
wrap_dek aead hmac master nonce user_id purpose plain_dek aad =
    elim (Crypto.wrap aead nonce (user_key hmac master user_id purpose) plain_dek
      (bind_aad purpose user_id aad)) [ none ↦ none | some wrapped ↦ some (wrapped, wrap_version) ]

unfoldable pub unwrap_dek :
    Aead → Hmac → Bytes → (user_id purpose wrapped aad : Bytes) → Option Bytes
unwrap_dek aead hmac master user_id purpose wrapped aad =
    Crypto.unwrap aead (user_key hmac master user_id purpose) wrapped (bind_aad purpose user_id aad)

-- ===== src/Kms/LocalDev.antt =====
-- What UnwrapDEK of kms/localdev.go gives back.
use omkit_go.Prelude.{◌≡◌, sym, some, ◌∷◌, ◌++◌, length, arith}
use omkit_go.Crypto.Laws.{Lawful, unwrap-append}
use omkit_go.Crypto.{Bytes, Aead}
use omkit_go.Crypto as Crypto
use omkit_go.Kms.Binding.{user_label_shared, bind_aad_shared}
use omkit_go.Kms.{Hmac, user_key, bind_aad, wrap_version, wrap_dek, unwrap_dek}

sealed_dek :
    (aead : Aead) (hmac : Hmac) (master n user_id purpose dek aad : Bytes)
    → length (user_key hmac master user_id purpose) ≡ 32
    → wrap_dek aead hmac master (some n) user_id purpose dek aad
      ≡ some (
        n ++ aead.seal (user_key hmac master user_id purpose) n dek (bind_aad purpose user_id aad),
        wrap_version,
      )
unfolding wrap_dek Crypto.wrap
sealed_dek aead hmac master n user_id purpose dek aad h = ground (arith, h)

-- What WrapDEK returns for a user, a purpose and additional data, UnwrapDEK of the same three gives
-- back, HMAC having 32 bytes and the nonce 12.
pub unwrap_dek-wrap_dek :
    (aead : Aead) (hmac : Hmac) (master n user_id purpose dek aad : Bytes)
    → Lawful aead
    → ((k m : Bytes) → length (hmac k m) ≡ 32)
    → length n ≡ 12
    → (wrapped : Bytes) × (wrap_dek aead hmac master (some n) user_id purpose dek aad
        ≡ some (wrapped, wrap_version))
      × (unwrap_dek aead hmac master user_id purpose wrapped aad ≡ some dek)
unfolding unwrap_dek user_key
unwrap_dek-wrap_dek aead hmac master n user_id purpose dek aad laws h l = (
  _,
  sealed_dek aead hmac master n user_id purpose dek aad (h _ _),
  unwrap-append aead laws (user_key hmac master user_id purpose) n dek
      (bind_aad purpose user_id aad) (h _ _) l,
)

-- Two pairs of a user and a purpose, both pairs different, whose keys and bindings are the same: for
-- any texts u and p, what WrapDEK returns for the user "u-p|u" and the purpose "p", UnwrapDEK for the
-- user "u" and the purpose "p|u-p" gives back.
pub unwrap_dek-confused :
    (aead : Aead) (hmac : Hmac) (master n u p dek aad : Bytes)
    → Lawful aead
    → ((k m : Bytes) → length (hmac k m) ≡ 32)
    → length n ≡ 12
    → (wrapped : Bytes) × (wrap_dek aead hmac master (some n) (u ++ 45 ∷ (p ++ 124 ∷ u)) p dek aad
        ≡ some (wrapped, wrap_version))
      × (unwrap_dek aead hmac master u (p ++ 124 ∷ (u ++ 45 ∷ p)) wrapped aad ≡ some dek)
unfolding unwrap_dek user_key
unwrap_dek-confused aead hmac master n u p dek aad laws h l =
    let user_id = u ++ 45 ∷ (p ++ 124 ∷ u) in
    let (wrapped, e, back) = unwrap_dek-wrap_dek aead hmac master n user_id p dek aad laws h l in
    (wrapped, e, rw (sym (bind_aad_shared u p aad)) (rw (sym (user_label_shared u p)) back))

-- ===== src/Encryption/Tests.antt =====
-- The theorems on tokens, with base64 that keeps its bytes.
use omkit_go.Prelude.{◌≡◌, ◌↔◌, refl, some, [], ◌∷◌, ◌++◌, length}
use omkit_go.Crypto.Tests.{tagged, tagged-Lawful, key, nonce}
use omkit_go.Crypto.{Bytes}
use omkit_go.Encryption.Tokens.{decrypt_iff, decrypt-encrypt}
use omkit_go.Encryption.{Base64, ok, version_prefix, aad, encrypt, decrypt, mask_secret, mask}

abbrev plain : Base64
plain = record { encode = λ b. b; decode = λ b. some b }

decrypt-encrypt_example :
    (token : Bytes) × (encrypt tagged plain (some nonce) [] key ≡ ok token)
    × (decrypt tagged plain token key ≡ ok [])
decrypt-encrypt_example =
    decrypt-encrypt tagged plain nonce [] key key tagged-Lawful (λ b. refl) refl refl refl

decrypt_iff_example : (decrypt tagged plain (118 ∷ 50 ∷ []) key ≡ ok []) ↔ (
    (kek : Bytes) × (n : Bytes) × (plain.decode key ≡ some kek)
    × (length kek ≡ 32)
    × (length n ≡ 12)
    × (plain.decode (118 ∷ 50 ∷ []) ≡ some (version_prefix ++ (n ++ tagged.seal kek n [] aad))))
decrypt_iff_example = decrypt_iff tagged plain (118 ∷ 50 ∷ []) key [] tagged-Lawful

-- Four characters show.
masked : mask_secret (1 ∷ 2 ∷ 3 ∷ 4 ∷ []) ≡ 1 ∷ 2 ∷ (mask ++ 3 ∷ 4 ∷ [])
unfolding mask_secret
masked = refl

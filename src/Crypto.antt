-- ===== src/Crypto.antt =====
-- crypto/aes_gcm.go and crypto/kuser.go: sealing under a key that the caller holds, and the session
-- key with its self-test. Bytes are numbers; AES-256 in Galois/counter mode is a parameter, and so
-- are the bytes that the random source yields, `none` where it fails.
pub mod Laws
pub mod Tests
use omkit_go.Prelude.{
  ℕ, zero, suc, ◌≡◌, Bool, true, false, Option, none, some, List, [], ◌∷◌, ◌++◌, length, take, ltb,
  if◌then◌else◌, map,
}

abbrev pub Bytes : Type 0
Bytes = List ℕ

abbrev pub drop : ℕ → Bytes → Bytes
drop zero xs = xs
drop (suc n) [] = []
drop (suc n) (x ∷ xs) = drop n xs

abbrev pub eq_ℕ : ℕ → ℕ → Bool
eq_ℕ a b = if ltb a b then false else if ltb b a then false else true

-- `bytes.Equal`
abbrev pub eq_bytes : Bytes → Bytes → Bool
eq_bytes [] [] = true
eq_bytes [] (y ∷ ys) = false
eq_bytes (x ∷ xs) [] = false
eq_bytes (x ∷ xs) (y ∷ ys) = if eq_ℕ x y then eq_bytes xs ys else false

-- Seal and Open, on a key, a nonce, a text and additional data.
pub record Aead : Type 0 where
  pub seal : Bytes → Bytes → Bytes → Bytes → Bytes
  pub unseal : Bytes → Bytes → Bytes → Bytes → Option Bytes

-- The nonce of 12 bytes before what Seal returns; `none` is an error.
unfoldable pub wrap : Aead → (nonce : Option Bytes) → Bytes → Bytes → Bytes → Option Bytes
wrap aead nonce kek plaintext aad =
    if eq_ℕ (length kek) 32
    then elim nonce [ none ↦ none | some n ↦ some (n ++ aead.seal kek n plaintext aad) ]
    else none

unfoldable pub unwrap : Aead → Bytes → Bytes → Bytes → Option Bytes
unwrap aead kek blob aad =
    if eq_ℕ (length kek) 32
    then (if ltb (length blob) 12 then none else aead.unseal kek (take 12 blob) (drop 12 blob) aad)
    else none

-- NewKUser, from the 32 random bytes.
unfoldable pub new_kuser : Option Bytes → Option Bytes
new_kuser random = random

unfoldable pub zeroed : Bytes → Bytes
zeroed k = map (λ b. 0) k

-- "OMUR-SELFTEST-V1"
abbrev pub self_test_payload : Bytes
self_test_payload =
    79 ∷ 77 ∷ 85 ∷ 82 ∷ 45 ∷ 83 ∷ 69 ∷ 76 ∷ 70 ∷ 84 ∷ 69 ∷ 83 ∷ 84 ∷ 45 ∷ 86 ∷ 49 ∷ []

-- "omur-selftest"
abbrev pub self_test_aad : Bytes
self_test_aad = 111 ∷ 109 ∷ 117 ∷ 114 ∷ 45 ∷ 115 ∷ 101 ∷ 108 ∷ 102 ∷ 116 ∷ 101 ∷ 115 ∷ 116 ∷ []

-- A nonce and a ciphertext.
unfoldable pub new_self_test : Aead → (nonce : Option Bytes) → Bytes → Option (Bytes × Bytes)
new_self_test aead nonce k = elim nonce [
  | none ↦ none
  | some n ↦ some (n, aead.seal k n self_test_payload self_test_aad)
]

-- Whether VerifySelfTest returns no error.
unfoldable pub verify_self_test : Aead → Bytes → Bytes → Bytes → Bool
verify_self_test aead k nonce ciphertext = elim (aead.unseal k nonce ciphertext self_test_aad) [
  | none ↦ false
  | some plain ↦ eq_bytes plain self_test_payload
]

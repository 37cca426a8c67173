-- ===== src/Crypto/Laws.antt =====
-- What Unwrap accepts, and that it reverses Wrap.
use omkit_go.Prelude.{
  ℕ, zero, suc, ◌+◌, ◌≤◌, ◌≡◌, ◌↔◌, refl, ap, ◌∙◌, sym, true, Option, none, some, [], ◌∷◌, ◌++◌,
  length, take, arith, length-append, Option-cases, inl, inr,
}
use omkit_go.Crypto.{
  Bytes, Aead, drop, eq_bytes, wrap, unwrap, self_test_payload, self_test_aad, new_self_test,
  verify_self_test,
}

-- What is documented of the mode: Open of what Seal returned for the same key, nonce and data gives
-- the text back, and Open accepts nothing else than what Seal returns.
pub record Lawful (aead : Aead) : Type 0 where
  pub unseal-seal :
      (k n plain aad : Bytes) → aead.unseal k n (aead.seal k n plain aad) aad ≡ some plain
  pub seal-unseal :
      (k n c aad plain : Bytes) → aead.unseal k n c aad ≡ some plain → c ≡ aead.seal k n plain aad
  pub length-seal : (k n plain aad : Bytes) → length (aead.seal k n plain aad) ≡ length plain + 16

pub take-append : (n : ℕ) (xs ys : Bytes) → length xs ≡ n → take n (xs ++ ys) ≡ xs
take-append zero [] ys h = refl
take-append zero (x ∷ xs) ys h = absurd (omega (arith, h))
take-append (suc n) [] ys h = absurd (omega (arith, h))
take-append (suc n) (x ∷ xs) ys h =
    ap (λ (zs : Bytes). x ∷ zs) (take-append n xs ys (omega (arith, h)))

pub drop-append : (n : ℕ) (xs ys : Bytes) → length xs ≡ n → drop n (xs ++ ys) ≡ ys
drop-append zero [] ys h = refl
drop-append zero (x ∷ xs) ys h = absurd (omega (arith, h))
drop-append (suc n) [] ys h = absurd (omega (arith, h))
drop-append (suc n) (x ∷ xs) ys h = drop-append n xs ys (omega (arith, h))

pub take-drop : (n : ℕ) (xs : Bytes) → take n xs ++ drop n xs ≡ xs
take-drop zero xs = refl
take-drop (suc n) [] = refl
take-drop (suc n) (x ∷ xs) = ap (λ (zs : Bytes). x ∷ zs) (take-drop n xs)

pub length-take : (n : ℕ) (xs : Bytes) → n ≤ length xs → length (take n xs) ≡ n
length-take zero xs h = refl
length-take (suc n) [] h = absurd (omega (arith, h))
length-take (suc n) (x ∷ xs) h = omega (arith, length-take n xs (omega (arith, h)))

module _ (aead : Aead) (laws : Lawful aead) where
  wrap-some :
      (k n plain aad : Bytes)
      → length k ≡ 32
      → wrap aead (some n) k plain aad ≡ some (n ++ aead.seal k n plain aad)
  unfolding wrap
  wrap-some k n plain aad h = ground (arith, h)

  unwrap-some :
      (k blob aad : Bytes)
      → length k ≡ 32
      → 12 ≤ length blob
      → unwrap aead k blob aad ≡ aead.unseal k (take 12 blob) (drop 12 blob) aad
  unfolding unwrap
  unwrap-some k blob aad h l = ground (arith, h, l)

  -- Unwrap of a nonce of 12 bytes and what Seal made of a text, under a key of 32 bytes and the same
  -- additional data, is that text.
  pub unwrap-append :
      (k n plain aad : Bytes)
      → length k ≡ 32
      → length n ≡ 12
      → unwrap aead k (n ++ aead.seal k n plain aad) aad ≡ some plain
  unwrap-append k n plain aad h l =
      let sealed = aead.seal k n plain aad in
      let long : 12 ≤ length (n ++ sealed) = omega (arith, l, length-append n sealed) in
      unwrap-some k (n ++ sealed) aad h long
      ∙ rw (take-append 12 n sealed l)
          (rw (drop-append 12 n sealed l) (laws.unseal-seal k n plain aad))

-- Wrap under a key of 32 bytes and with a nonce of 12 bytes gives a blob that is 28 bytes longer than
-- the text, and Unwrap of it under the same key and additional data gives the text; where the random
-- source fails, Wrap fails. The mode is one that opens what it sealed, and seals to 16 bytes more.
pub unwrap-wrap_bytes :
    (aead : Aead) (k n plain aad : Bytes)
    → Lawful aead
    → length k ≡ 32
    → length n ≡ 12
    → ((blob : Bytes) × (wrap aead (some n) k plain aad ≡ some blob)
        × (length blob ≡ length plain + 28)
        × (unwrap aead k blob aad ≡ some plain))
      × (wrap aead none k plain aad ≡ none)
unfolding wrap
unwrap-wrap_bytes aead k n plain aad laws h l = (
  (
    n ++ aead.seal k n plain aad,
    wrap-some aead laws k n plain aad h,
    omega (arith, l, laws.length-seal k n plain aad, length-append n (aead.seal k n plain aad)),
    unwrap-append aead laws k n plain aad h l,
  ),
  ground (arith, h),
)

unwrap-lengths :
    (aead : Aead) (k blob aad plain : Bytes)
    → unwrap aead k blob aad ≡ some plain
    → (length k ≡ 32) × (12 ≤ length blob)
unfolding unwrap
unwrap-lengths aead k blob aad plain e = ground (arith, e)

-- Unwrap returns a text if and only if the key has 32 bytes and the blob is a nonce of 12 bytes
-- followed by what Seal returns for the text, the key and the additional data under that nonce.
pub unwrap_iff :
    (aead : Aead) (k blob aad plain : Bytes)
    → Lawful aead
    → (unwrap aead k blob aad ≡ some plain)
      ↔ ((length k ≡ 32) × ((n : Bytes) × (length n ≡ 12) × (blob ≡ n ++ aead.seal k n plain aad)))
unwrap_iff aead k blob aad plain laws = (
  λ e.
      let (h, l) = unwrap-lengths aead k blob aad plain e in
      let opened = sym (unwrap-some aead laws k blob aad h l) ∙ e in
      let sealed = laws.seal-unseal k (take 12 blob) (drop 12 blob) aad plain opened in
      (
        h,
        (
          take 12 blob,
          length-take 12 blob l,
          sym (take-drop 12 blob) ∙ ap (λ (c : Bytes). take 12 blob ++ c) sealed,
        ),
      ),
  λ (h, (n, l, e)). rw e (unwrap-append aead laws k n plain aad h l),
)

pub eq_bytes_iff : (xs ys : Bytes) → (eq_bytes xs ys ≡ true) ↔ (xs ≡ ys)
eq_bytes_iff [] [] = (λ h. refl, λ h. refl)
eq_bytes_iff [] (y ∷ ys) = (λ h. absurd (ground (arith, h)), λ h. absurd (ground (arith, h)))
eq_bytes_iff (x ∷ xs) [] = (λ h. absurd (ground (arith, h)), λ h. absurd (ground (arith, h)))
eq_bytes_iff (x ∷ xs) (y ∷ ys) = ground (arith, eq_bytes_iff xs ys)

-- VerifySelfTest accepts a nonce and a ciphertext if and only if the ciphertext is what NewSelfTest
-- of the same key returns with that nonce.
pub verify_self_test_iff :
    (aead : Aead) (k nonce ciphertext : Bytes)
    → Lawful aead
    → (verify_self_test aead k nonce ciphertext ≡ true)
      ↔ (new_self_test aead (some nonce) k ≡ some (nonce, ciphertext))
unfolding verify_self_test new_self_test
verify_self_test_iff aead k nonce ciphertext laws = (
  λ h.
      let (plain, e, same) = accepted h in
      let is_payload : plain ≡ self_test_payload = (eq_bytes_iff plain self_test_payload).0 same in
      let sealed : ciphertext ≡ aead.seal k nonce self_test_payload self_test_aad =
        laws.seal-unseal k nonce ciphertext self_test_aad self_test_payload
          (e ∙ ap (λ (p : Bytes). some p) is_payload) in
      rw sealed refl,
  λ h.
      let sealed : aead.seal k nonce self_test_payload self_test_aad ≡ ciphertext = second h in
      let e : aead.unseal k nonce ciphertext self_test_aad ≡ some self_test_payload =
        rw (sym sealed) (laws.unseal-seal k nonce self_test_payload self_test_aad) in
      rw (verify_self_test, e) refl,
)
  where
    accepted :
        verify_self_test aead k nonce ciphertext ≡ true
        → (plain : Bytes) × (aead.unseal k nonce ciphertext self_test_aad ≡ some plain)
          × (eq_bytes plain self_test_payload ≡ true)
    accepted h = elim (Option-cases (aead.unseal k nonce ciphertext self_test_aad)) [
      | inl e ↦ absurd (ground (arith, h, e))
      | inr (plain, e) ↦ (plain, e, rw (verify_self_test, e) at h)
    ]

    second :
        {c : Bytes}
        → ◌≡◌ {A = Option (Bytes × Bytes)} (some (nonce, c)) (some (nonce, ciphertext))
        → c ≡ ciphertext
    second h = ground (arith, h)

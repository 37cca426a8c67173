-- ===== src/Crypto/Tests.antt =====
-- The theorems on sealing, with a mode that puts 16 zeros before the text.
use omkit_go.Prelude.{
  ◌≡◌, refl, ap, ◌∙◌, sym, none, some, [], ◌∷◌, ◌++◌, take, arith, if◌then◌else◌, Bool-cases, inl,
  inr,
}
use omkit_go.Crypto.Laws.{Lawful, take-drop, eq_bytes_iff}
use omkit_go.Crypto.{Bytes, Aead, drop, eq_bytes}

abbrev tag : Bytes
tag = 0 ∷ 0 ∷ 0 ∷ 0 ∷ 0 ∷ 0 ∷ 0 ∷ 0 ∷ 0 ∷ 0 ∷ 0 ∷ 0 ∷ 0 ∷ 0 ∷ 0 ∷ 0 ∷ []

abbrev pub tagged : Aead
tagged = record {
  seal = λ k n p a. tag ++ p;
  unseal = λ k n c a. if eq_bytes (take 16 c) tag then some (drop 16 c) else none;
}

opened :
    (c p : Bytes)
    → (if eq_bytes (take 16 c) tag then some (drop 16 c) else none) ≡ some p
    → c ≡ tag ++ p
opened c p h = elim (Bool-cases (eq_bytes (take 16 c) tag)) [
  | inr f ↦ absurd (ground (arith, h, f))
  | inl t ↦
      let rest : drop 16 c ≡ p = ground (arith, h, t) in
      sym (take-drop 16 c)
      ∙ (ap (λ (xs : Bytes). xs ++ drop 16 c) ((eq_bytes_iff (take 16 c) tag).0 t)
          ∙ ap (λ (xs : Bytes). tag ++ xs) rest)
]

pub tagged-Lawful : Lawful tagged
tagged-Lawful = record {
  unseal-seal = λ k n p a. refl;
  seal-unseal = λ k n c a p h. opened c p h;
  length-seal = λ k n p a. omega arith;
}

abbrev pub key : Bytes
key = tag ++ tag

abbrev pub nonce : Bytes
nonce = take 12 tag

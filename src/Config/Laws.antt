-- ===== src/Config/Laws.antt =====
-- The parts of the list of origins of config/config.go, and of the groups of middleware/admin.go.
use omkit_go.Prelude.{
  ℕ, ◌≡◌, ◌≢◌, refl, ap, ◌∙◌, sym, List, [], ◌∷◌, ◌++◌, All, if◌then◌else◌, arith, Bool-cases, inl,
  inr,
}
use omkit_go.Crypto.{Bytes, eq_ℕ}
use omkit_go.Middleware.Groups.{split, onto_first}

-- The parts with the byte between them.
abbrev pub joined : ℕ → List Bytes → Bytes
joined at [] = []
joined at (p ∷ []) = p
joined at (p ∷ q ∷ parts) = p ++ at ∷ joined at (q ∷ parts)

-- No part has the byte.
abbrev pub Without : ℕ → Bytes → Type 0
Without at xs = All (λ (x : ℕ). x ≢ at) xs

joined-onto_first :
    (at x : ℕ) (p : Bytes) (parts : List Bytes)
    → joined at (onto_first x (p ∷ parts)) ≡ x ∷ joined at (p ∷ parts)
joined-onto_first at x p [] = refl
joined-onto_first at x p (q ∷ parts) = refl

abbrev pub Parts : ℕ → Bytes → List Bytes → Type 0
Parts at xs [] = ⊥
Parts at xs (p ∷ parts) = (joined at (p ∷ parts) ≡ xs) × All (Without at) (p ∷ parts)

next-Parts :
    (at x : ℕ) (xs : Bytes) (ps : List Bytes)
    → Parts at xs ps
    → Parts at (x ∷ xs) (if eq_ℕ x at then [] ∷ ps else onto_first x ps)
next-Parts at x xs [] h = absurd h
next-Parts at x xs (p ∷ parts) (same, (first, rest)) = elim (Bool-cases (eq_ℕ x at)) [
  | inl t ↦
      let sep : x ≡ at = ground (arith, t) in
      rw t (
        ap {B = Bytes} (λ zs. at ∷ zs) same ∙ ap {B = Bytes} (λ b. b ∷ xs) (sym sep),
        (tt, (first, rest)),
      )
  | inr f ↦
      let other : x ≢ at = λ e. ground (arith, f, e) in
      rw f (
        joined-onto_first at x p parts ∙ ap {B = Bytes} (λ zs. x ∷ zs) same,
        ((other, first), rest),
      )
]

-- strings.Split at a byte gives at least one part, parts that do not have the byte, and the text
-- again when they are joined by the byte.
pub split-Parts : (at : ℕ) (xs : Bytes) → Parts at xs (split at xs)
unfolding split
split-Parts at [] = (refl, (tt, tt))
split-Parts at (x ∷ xs) = next-Parts at x xs (split at xs) (split-Parts at xs)

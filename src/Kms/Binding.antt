-- ===== src/Kms/Binding.antt =====
-- How far bindAAD of kms/localdev.go tells purposes and users apart.
use mathlib.Core.List.{append_assoc}
use omkit_go.Prelude.{ℕ, ◌≡◌, ◌≢◌, refl, ap, ◌∙◌, sym, [], ◌∷◌, ◌++◌, All}
use omkit_go.Crypto.{Bytes}
use omkit_go.Kms.{bind_aad, user_label}

-- No byte is "|".
abbrev pub BarFree : Bytes → Type 0
BarFree xs = All (λ (b : ℕ). b ≢ 124) xs

abbrev pub tail_of : Bytes → Bytes
tail_of [] = []
tail_of (x ∷ xs) = xs

abbrev pub head_of : Bytes → ℕ
head_of [] = 0
head_of (x ∷ xs) = x

-- The first bar splits a text in one way.
bar_splits :
    (xs ys r s : Bytes)
    → BarFree xs
    → BarFree ys
    → xs ++ 124 ∷ r ≡ ys ++ 124 ∷ s
    → (xs ≡ ys) × (r ≡ s)
bar_splits [] [] r s h k e = (refl, ap tail_of e)
bar_splits [] (y ∷ ys) r s h (k, ks) e = absurd (k (sym (ap head_of e)))
bar_splits (x ∷ xs) [] r s (h, hs) k e = absurd (h (ap head_of e))
bar_splits (x ∷ xs) (y ∷ ys) r s (h, hs) (k, ks) e =
    let (same, rest) = bar_splits xs ys r s hs ks (ap tail_of e) in
    let first : x ≡ y = ap head_of e in (rw first (ap (λ (zs : Bytes). y ∷ zs) same), rest)

-- bindAAD is injective on purposes and users that have no "|": where the bound data of two calls are
-- the same, so are their purposes, their users and their additional data.
pub bind_aad-injective :
    (p u a p' u' a' : Bytes)
    → BarFree p
    → BarFree u
    → BarFree p'
    → BarFree u'
    → bind_aad p u a ≡ bind_aad p' u' a'
    → (p ≡ p') × (u ≡ u') × (a ≡ a')
unfolding bind_aad
bind_aad-injective p u a p' u' a' hp hu hp' hu' e =
    let (same_purpose, rest) = bar_splits p p' _ _ hp hp' e in
    let (same_user, same_data) = bar_splits u u' a a' hu hu' rest in
    (same_purpose, same_user, same_data)

-- A user and a purpose with a "|" and a "-" that share their key label and their bound data with
-- another user and another purpose.
pub user_label_shared :
    (u p : Bytes)
    → user_label (u ++ 45 ∷ (p ++ 124 ∷ u)) p ≡ user_label u (p ++ 124 ∷ (u ++ 45 ∷ p))
unfolding user_label
user_label_shared u p =
    let last = 45 ∷ p in
    ap (λ (xs : Bytes). (117 ∷ 115 ∷ 101 ∷ 114 ∷ 45 ∷ []) ++ xs)
      (append_assoc u (45 ∷ (p ++ 124 ∷ u)) last
        ∙ ap (λ (xs : Bytes). u ++ 45 ∷ xs) (append_assoc p (124 ∷ u) last))

pub bind_aad_shared :
    (u p aad : Bytes)
    → bind_aad p (u ++ 45 ∷ (p ++ 124 ∷ u)) aad ≡ bind_aad (p ++ 124 ∷ (u ++ 45 ∷ p)) u aad
unfolding bind_aad
bind_aad_shared u p aad =
    let last = 124 ∷ aad in
    let rest = 124 ∷ (u ++ last) in
    let left : (u ++ 45 ∷ (p ++ 124 ∷ u)) ++ last ≡ u ++ 45 ∷ (p ++ rest) =
      append_assoc u (45 ∷ (p ++ 124 ∷ u)) last
      ∙ ap (λ (xs : Bytes). u ++ 45 ∷ xs) (append_assoc p (124 ∷ u) last) in
    let right : (p ++ 124 ∷ (u ++ 45 ∷ p)) ++ rest ≡ p ++ 124 ∷ (u ++ 45 ∷ (p ++ rest)) =
      append_assoc p (124 ∷ (u ++ 45 ∷ p)) rest
      ∙ ap (λ (xs : Bytes). p ++ 124 ∷ xs) (append_assoc u (45 ∷ p) rest) in
    ap (λ (xs : Bytes). p ++ 124 ∷ xs) left ∙ sym right

-- ===== src/Prelude/Maps.antt =====
-- A Go map with text keys, as an association list. Where the code ranges over a map, the order is
-- an argument of the model, so the order of the list is not observed.
use Prim.Native.String.{String}
use mathlib.Core.Path.{◌≡◌, refl}
use mathlib.Core.Bool.{Bool, false, ◌||◌}
use mathlib.Core.Option.{Option, none, some}
use mathlib.Core.List.{List, [], ◌∷◌}
use native.Mathlib.Omega.{arith}
use text.Mathlib.Text.{◌==◌}
use text.Mathlib.TextEquality.{eq_iff}
use text.Mathlib.TextPositions.{eq_refl}
use omkit_go.Prelude.Tests.{if◌then◌else◌}

abbrev pub Map {ℓ} : Type ℓ → Type ℓ
Map V = List (String × V)

abbrev pub contains : String → List String → Bool
contains k [] = false
contains k (x ∷ xs) = x == k || contains k xs

module _ {ℓ} {V : Type ℓ} where
  -- `m[k]`, with the second result of the read: `none` is a missing key.
  unfoldable pub lookup : String → Map V → Option V
  lookup k [] = none
  lookup k ((j, v) ∷ m) = if j == k then some v else lookup k m

  -- `delete(m, k)`
  unfoldable pub erase : String → Map V → Map V
  erase k [] = []
  erase k ((j, v) ∷ m) = let rest = erase k m in if j == k then rest else (j, v) ∷ rest

  -- `m[k] = v`
  unfoldable pub insert : String → V → Map V → Map V
  insert new v [] = (new, v) ∷ []
  insert new v ((key, old) ∷ tail) =
      let written = insert new v tail in
      if key == new then (key, v) ∷ tail else (key, old) ∷ written

  pub lookup-erase :
      (k j : String) (m : Map V) → lookup j (erase k m) ≡ (if k == j then none else lookup j m)
  unfolding lookup erase
  lookup-erase k j [] = ground arith
  lookup-erase k j ((i, w) ∷ m) =
      ground (arith, eq_iff k j, eq_iff i k, eq_iff i j, lookup-erase k j m)

  pub lookup-insert :
      (new asked : String) (v : V) (entries : Map V)
      → lookup asked (insert new v entries)
        ≡ (if new == asked then some v else lookup asked entries)
  unfolding insert lookup
  lookup-insert new asked v [] = refl
  lookup-insert new asked v ((key, old) ∷ tail) =
      let ih = lookup-insert new asked v tail in
      ground (ih, arith, eq_iff key asked, eq_iff key new, eq_iff new asked)

pub lookup-insert_self {ℓ} :
    {V : Type ℓ} (k : String) (v : V) (m : Map V) → lookup k (insert k v m) ≡ some v
lookup-insert_self k v m = rw lookup-insert (rw eq_refl)

pub lookup-erase_self {ℓ} : {V : Type ℓ} (k : String) (m : Map V) → lookup k (erase k m) ≡ none
lookup-erase_self k m = rw lookup-erase (rw eq_refl)

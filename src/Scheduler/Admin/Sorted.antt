-- ===== src/Scheduler/Admin/Sorted.antt =====
-- What Entries lists: the keys of the table, in order.
use Prim.Native.Char.{code}
use Prim.Native.Nat.{Ordering, compare as compare_ℕ}
use Prim.Native.Nat.compare as compare_ℕ
use Prim.Native.String
use text.Mathlib.Text.{is_le}
use omkit_go.Prelude.{
  ℕ, zero, suc, String, true, false, ◌≡◌, refl, ◌↔◌, ◌⊎◌, inl, inr, List, [], ◌∷◌, Map, lookup,
  some, Among, Bool-cases, arith, eq_iff, ◌==◌,
}
use omkit_go.Scheduler.{RegisteredEntry, State}
use omkit_go.Scheduler.Admin.{insert_sorted, sort_strings, keys_of, entries}

-- Two answers of a comparison, one way and the other.
data Flipped : Ordering → Ordering → Type 0 where
  less : Flipped Ordering.lt Ordering.gt
  same : Flipped Ordering.eq Ordering.eq
  more : Flipped Ordering.gt Ordering.lt

compare_ℕ-Flipped : (m n : ℕ) → Flipped (compare_ℕ m n) (compare_ℕ n m)
compare_ℕ-Flipped zero zero = same
compare_ℕ-Flipped zero (suc n) = rw (compare_ℕ.zero-suc n, compare_ℕ.suc-zero n) less
compare_ℕ-Flipped (suc m) zero = rw (compare_ℕ.suc-zero m, compare_ℕ.zero-suc m) more
compare_ℕ-Flipped (suc m) (suc n) =
    rw (compare_ℕ.suc-suc m n) (rw (compare_ℕ.suc-suc n m) (compare_ℕ-Flipped m n))

then-Flipped :
    {a b c d : Ordering} → Flipped a b → Flipped c d → Flipped (String.then a c) (String.then b d)
then-Flipped less h = less
then-Flipped same h = h
then-Flipped more h = more

compare-Flipped : (s t : String) → Flipped (String.compare s t) (String.compare t s)
compare-Flipped String.[] String.[] = same
compare-Flipped String.[] (String.◌∷◌ d t) =
    rw (String.compare.nil-cons d t, String.compare.cons-nil d t) less
compare-Flipped (String.◌∷◌ c s) String.[] =
    rw (String.compare.cons-nil c s, String.compare.nil-cons c s) more
compare-Flipped (String.◌∷◌ c s) (String.◌∷◌ d t) = rw (String.compare.cons-cons c d s t) (
    rw (String.compare.cons-cons d c t s)
      (then-Flipped (compare_ℕ-Flipped (code c) (code d)) (compare-Flipped s t)))

is_le-Flipped : {a b : Ordering} → Flipped a b → is_le a ≡ false → is_le b ≡ true
is_le-Flipped less e = absurd (ground (arith, e))
is_le-Flipped same e = absurd (ground (arith, e))
is_le-Flipped more e = refl

abbrev Leads : String → List String → Type 0
Leads x [] = Unit
Leads x (y ∷ ys) = is_le (String.compare x y) ≡ true

-- Each text is at most the one behind it.
abbrev pub IsSorted : List String → Type 0
IsSorted [] = Unit
IsSorted (x ∷ xs) = Leads x xs × IsSorted xs

Leads-insert_sorted :
    (x k : String) (xs : List String)
    → is_le (String.compare x k) ≡ true
    → Leads x xs
    → Leads x (insert_sorted k xs)
unfolding insert_sorted
Leads-insert_sorted x k [] le h = le
Leads-insert_sorted x k (y ∷ ys) le h = elim (Bool-cases (is_le (String.compare k y))) [
  | inl t ↦ rw t le
  | inr t ↦ rw t h
]

insert_sorted-IsSorted :
    (k : String) (xs : List String) → IsSorted xs → IsSorted (insert_sorted k xs)
unfolding insert_sorted
insert_sorted-IsSorted k [] h = (tt, tt)
insert_sorted-IsSorted k (x ∷ xs) (leads, h) = elim (Bool-cases (is_le (String.compare k x))) [
  | inl t ↦ rw t (t, (leads, h))
  | inr t ↦
      let le = is_le-Flipped (compare-Flipped k x) t in
      rw t (Leads-insert_sorted x k xs le leads, insert_sorted-IsSorted k xs h)
]

sort_strings-IsSorted : (xs : List String) → IsSorted (sort_strings xs)
unfolding sort_strings
sort_strings-IsSorted [] = tt
sort_strings-IsSorted (x ∷ xs) =
    insert_sorted-IsSorted x (sort_strings xs) (sort_strings-IsSorted xs)

swap_heads : {A B C : Type 0} → A ⊎ (B ⊎ C) → B ⊎ (A ⊎ C)
swap_heads (inl a) = inr (inl a)
swap_heads (inr (inl b)) = inl b
swap_heads (inr (inr c)) = inr (inr c)

not_left : {A B : Type 0} → ¬ A → A ⊎ B → B
not_left n (inl a) = absurd (n a)
not_left n (inr b) = b

map_right : {A B C : Type 0} → (B → C) → A ⊎ B → A ⊎ C
map_right f (inl a) = inl a
map_right f (inr b) = inr (f b)

Among-insert_sorted :
    (a k : String) (xs : List String) → Among a (insert_sorted k xs) ↔ ((k ≡ a) ⊎ Among a xs)
unfolding insert_sorted
Among-insert_sorted a k [] = (λ h. h, λ h. h)
Among-insert_sorted a k (x ∷ xs) =
    let (there, back) = Among-insert_sorted a k xs in
    elim (Bool-cases (is_le (String.compare k x))) [
      | inl t ↦ rw t (λ h. h, λ h. h)
      | inr t ↦ rw t (λ h. swap_heads (map_right there h), λ h. map_right back (swap_heads h))
    ]

Among-sort_strings : (a : String) (xs : List String) → Among a (sort_strings xs) ↔ Among a xs
unfolding sort_strings
Among-sort_strings a [] = (λ h. h, λ h. h)
Among-sort_strings a (x ∷ xs) =
    let (there, back) = Among-sort_strings a xs in
    let (in_sorted, from_sorted) = Among-insert_sorted a x (sort_strings xs) in
    (λ h. map_right there (in_sorted h), λ h. from_sorted (map_right back h))

Among-keys_of :
    (k : String) (m : Map RegisteredEntry)
    → Among k (keys_of m) ↔ ((e : RegisteredEntry) × (lookup k m ≡ some e))
unfolding keys_of lookup
Among-keys_of k [] = (λ h. elim h [ ], λ h. absurd (ground (arith, h.1)))
Among-keys_of k ((j, e) ∷ m) =
    let (there, back) = Among-keys_of k m in
    elim (Bool-cases (j == k)) [
      | inl t ↦ rw t (λ h. (e, refl), λ h. inl ((eq_iff j k).0 t))
      | inr t ↦ rw t (
        λ h. there (not_left (λ same. ground (arith, t, (eq_iff j k).1 same)) h),
        λ h. inr (back h),
      )
    ]

-- Entries lists, in the order of their bytes, exactly the keys that have an entry in the table.
pub entries_iff :
    {S : Type 0} (st : State S)
    → IsSorted (entries st)
      × ((k : String)
          → Among k (entries st) ↔ ((e : RegisteredEntry) × (lookup k st.entries ≡ some e)))
unfolding entries
entries_iff st = (
  sort_strings-IsSorted (keys_of st.entries),
  λ k.
      let (in_keys, from_keys) = Among-sort_strings k (keys_of st.entries) in
      let (there, back) = Among-keys_of k st.entries in
      (λ h. there (in_keys h), λ h. from_keys (back h)),
)

-- ===== src/Middleware/CorsLaws.antt =====
-- Which origins CORS allows.
use omkit_go.Prelude.{
  ℕ, ◌≡◌, ◌↔◌, ◌⊎◌, inl, inr, refl, ap, ◌∙◌, Bool, true, some, List, [], ◌∷◌, ◌++◌, arith,
  Bool-cases,
}
use omkit_go.Crypto.Laws.{eq_bytes_iff}
use omkit_go.Crypto.{Bytes, eq_bytes}
use omkit_go.Middleware.Cors.{
  has_prefix, has_suffix, has_part, is_among, star, scheme_end, matches, match_wildcard, allows,
  cors,
}

abbrev pub StartsWith : Bytes → Bytes → Type 0
StartsWith part text = (after : Bytes) × (text ≡ part ++ after)

abbrev pub EndsWith : Bytes → Bytes → Type 0
EndsWith part text = (before : Bytes) × (text ≡ before ++ part)

abbrev pub Inside : Bytes → Bytes → Type 0
Inside part text = (before : Bytes) × (after : Bytes) × (text ≡ before ++ (part ++ after))

abbrev pub Some : (Bytes → Type 0) → List Bytes → Type 0
Some P [] = ⊥
Some P (x ∷ xs) = P x ⊎ Some P xs

tail_eq : {x y : ℕ} {xs ys : Bytes} → x ∷ xs ≡ y ∷ ys → (x ≡ y) × (xs ≡ ys)
tail_eq e = (ground (arith, e), ground (arith, e))

has_prefix-StartsWith : (part text : Bytes) → has_prefix part text ≡ true → StartsWith part text
has_prefix-StartsWith [] text h = (text, refl)
has_prefix-StartsWith (x ∷ xs) [] h = absurd (ground (arith, h))
has_prefix-StartsWith (x ∷ xs) (y ∷ ys) h =
    let same : x ≡ y = ground (arith, h) in
    let (after, e) = has_prefix-StartsWith xs ys (ground (arith, h)) in
    (after, rw same (ap {B = Bytes} (λ zs. y ∷ zs) e))

has_prefix-append : (part after : Bytes) → has_prefix part (part ++ after) ≡ true
has_prefix-append [] after = refl
has_prefix-append (x ∷ xs) after = ground (arith, has_prefix-append xs after)

suffix_there : (part text : Bytes) → has_suffix part text ≡ true → EndsWith part text
suffix_there part [] h = ([], (eq_bytes_iff [] part).0 h)
suffix_there part (y ∷ ys) h = elim (Bool-cases (eq_bytes (y ∷ ys) part)) [
  | inl t ↦ ([], (eq_bytes_iff (y ∷ ys) part).0 t)
  | inr f ↦
      let (before, e) = suffix_there part ys (ground (arith, h, f)) in
      (y ∷ before, ap {B = Bytes} (λ zs. y ∷ zs) e)
]

suffix_back : (part before text : Bytes) → text ≡ before ++ part → has_suffix part text ≡ true
suffix_back part [] [] e = (eq_bytes_iff [] part).1 e
suffix_back part [] (y ∷ ys) e = ground (arith, (eq_bytes_iff (y ∷ ys) part).1 e)
suffix_back part (x ∷ before) [] e = absurd (ground (arith, e))
suffix_back part (x ∷ before) (y ∷ ys) e = ground (arith, suffix_back part before ys (tail_eq e).1)

part_there : (part text : Bytes) → has_part part text ≡ true → Inside part text
part_there part [] h = let (after, e) = has_prefix-StartsWith part [] h in ([], after, e)
part_there part (y ∷ ys) h = elim (Bool-cases (has_prefix part (y ∷ ys))) [
  | inl t ↦ let (after, e) = has_prefix-StartsWith part (y ∷ ys) t in ([], after, e)
  | inr f ↦
      let (before, after, e) = part_there part ys (ground (arith, h, f)) in
      (y ∷ before, after, ap {B = Bytes} (λ zs. y ∷ zs) e)
]

part_back :
    (part before after text : Bytes) → text ≡ before ++ (part ++ after) → has_part part text ≡ true
part_back part [] after [] e = ap (has_prefix part) e ∙ has_prefix-append part after
part_back part [] after (y ∷ ys) e =
    let found : has_prefix part (y ∷ ys) ≡ true =
      ap (has_prefix part) e ∙ has_prefix-append part after in
    ground (arith, found)
part_back part (x ∷ before) after [] e = absurd (ground (arith, e))
part_back part (x ∷ before) after (y ∷ ys) e =
    ground (arith, part_back part before after ys (tail_eq e).1)

-- A pattern "*." and a rest, where the origin ends with "." and the rest, or has "://" and the rest
-- at any place.
abbrev pub Matches : Bytes → Bytes → Type 0
Matches origin pattern =
    (rest : Bytes) × (pattern ≡ 42 ∷ 46 ∷ rest)
    × (EndsWith (46 ∷ rest) origin ⊎ Inside (scheme_end ++ rest) origin)

matches_there : (p origin : Bytes) → matches p origin ≡ true → Matches origin p
unfolding matches
matches_there [] origin h = absurd (ground (arith, h))
matches_there (a ∷ []) origin h = absurd (ground (arith, h))
matches_there (a ∷ b ∷ rest) origin h =
    let pattern : a ∷ b ∷ rest ≡ 42 ∷ 46 ∷ rest = ground (arith, h) in
    (
      rest,
      pattern,
      elim (Bool-cases (has_suffix (46 ∷ rest) origin)) [
        | inl t ↦ inl (suffix_there (46 ∷ rest) origin t)
        | inr f ↦ inr (part_there (scheme_end ++ rest) origin (ground (arith, h, f)))
      ],
    )

matches_back :
    (rest origin : Bytes)
    → EndsWith (46 ∷ rest) origin ⊎ Inside (scheme_end ++ rest) origin
    → matches (42 ∷ 46 ∷ rest) origin ≡ true
unfolding matches
matches_back rest origin (inl (before, e)) = ground (arith, suffix_back (46 ∷ rest) before origin e)
matches_back rest origin (inr (before, after, e)) =
    ground (arith, part_back (scheme_end ++ rest) before after origin e)

wildcard_there :
    (origin : Bytes) (ps : List Bytes) → match_wildcard ps origin ≡ true → Some (Matches origin) ps
unfolding match_wildcard
wildcard_there origin [] h = absurd (ground (arith, h))
wildcard_there origin (p ∷ ps) h = elim (Bool-cases (matches p origin)) [
  | inl t ↦ inl (matches_there p origin t)
  | inr f ↦ inr (wildcard_there origin ps (ground (arith, h, f)))
]

wildcard_back :
    (origin : Bytes) (ps : List Bytes) → Some (Matches origin) ps → match_wildcard ps origin ≡ true
unfolding match_wildcard
wildcard_back origin [] h = absurd h
wildcard_back origin (p ∷ ps) (inl (rest, e, m)) =
    let t : matches p origin ≡ true =
      ap (λ (q : Bytes). matches q origin) e ∙ matches_back rest origin m in
    ground (arith, t)
wildcard_back origin (p ∷ ps) (inr more) = ground (arith, wildcard_back origin ps more)

among_there : (text : Bytes) (os : List Bytes) → is_among text os ≡ true → Some (λ o. o ≡ text) os
among_there text [] h = absurd (ground (arith, h))
among_there text (o ∷ os) h = elim (Bool-cases (eq_bytes o text)) [
  | inl t ↦ inl ((eq_bytes_iff o text).0 t)
  | inr f ↦ inr (among_there text os (ground (arith, h, f)))
]

among_back : (text : Bytes) (os : List Bytes) → Some (λ o. o ≡ text) os → is_among text os ≡ true
among_back text [] h = absurd h
among_back text (o ∷ os) (inl e) = ground (arith, (eq_bytes_iff o text).1 e)
among_back text (o ∷ os) (inr more) = ground (arith, among_back text os more)

-- CORS allows an origin if and only if "*" or the origin is in the list, or the list has a pattern
-- "*." and a rest such that the origin ends with "." and the rest, or has "://" and the rest at any
-- place, with anything after it.
pub cors_iff :
    (origins : List Bytes) (is_options : Bool) (origin : Bytes)
    → ((cors origins is_options origin).0 ≡ some origin) ↔ (
        Some (λ o. o ≡ star) origins
        ⊎ (Some (λ o. o ≡ origin) origins ⊎ Some (Matches origin) origins))
unfolding cors allows
cors_iff origins is_options origin = (there, back)
  where
    there :
        (cors origins is_options origin).0 ≡ some origin
        → Some (λ o. o ≡ star) origins
          ⊎ (Some (λ o. o ≡ origin) origins ⊎ Some (Matches origin) origins)
    there h = elim (Bool-cases (is_among star origins)) [
      | inl t ↦ inl (among_there star origins t)
      | inr f ↦ elim (Bool-cases (is_among origin origins)) [
        | inl t ↦ inr (inl (among_there origin origins t))
        | inr g ↦ inr (inr (wildcard_there origin origins (ground (arith, h, f, g))))
      ]
    ]

    back :
        Some (λ o. o ≡ star) origins
          ⊎ (Some (λ o. o ≡ origin) origins ⊎ Some (Matches origin) origins)
        → (cors origins is_options origin).0 ≡ some origin
    back (inl s) = ground (arith, among_back star origins s)
    back (inr (inl s)) = ground (arith, among_back origin origins s)
    back (inr (inr s)) = ground (arith, wildcard_back origin origins s)

-- A pattern "*." and a host lets in every origin that begins with a scheme, "://" and the host,
-- whatever follows: the origin of another site whose name only begins with the host, too.
pub cors-lookalike :
    (scheme host after : Bytes) (is_options : Bool) (others : List Bytes)
    → let origin = scheme ++ (scheme_end ++ host ++ after) in
      (cors ((42 ∷ 46 ∷ host) ∷ others) is_options origin).0 ≡ some origin
cors-lookalike scheme host after is_options others =
    (cors_iff ((42 ∷ 46 ∷ host) ∷ others) is_options (scheme ++ (scheme_end ++ host ++ after))).1
      (inr (inr (inl (host, refl, inr (scheme, after, refl)))))

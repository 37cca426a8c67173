-- ===== src/Featureflags/Rows/Enabled.antt =====
-- Which rows hold an enabled flag.
use omkit_go.Prelude.{
  String, ◌≡◌, refl, Bool, true, false, ◌⊎◌, inl, inr, Option, none, some, List, Option-cases,
  Bool-cases, arith,
}
use omkit_go.Jobqueue.Json.{
  Json, null, bool, str, arr, num, frac, obj, Fields, end, field, Document,
}
use omkit_go.Featureflags.{Flag}
use omkit_go.Featureflags.Rows.{
  zero_flag, decode_enabled, decode_role_list, decode_flag_field, decode_flag_fields,
  parse_from_json, decode_roles, set_roles, or_zero,
}

decode_enabled-some :
    (v : Json) (f g : Flag)
    → decode_enabled v f ≡ some g
    → g.enabled ≡ true
    → (f.enabled ≡ true) ⊎ (v ≡ bool true)
unfolding decode_enabled
decode_enabled-some (bool true) f g h e = inr refl
decode_enabled-some (bool false) f g h e = absurd (ground (arith, h, e))
decode_enabled-some null f g h e = inl (ground (arith, h, e))
decode_enabled-some (num n) f g h e = absurd (ground (arith, h))
decode_enabled-some (frac s) f g h e = absurd (ground (arith, h))
decode_enabled-some (str s) f g h e = absurd (ground (arith, h))
decode_enabled-some (arr js) f g h e = absurd (ground (arith, h))
decode_enabled-some (obj fs) f g h e = absurd (ground (arith, h))

set_roles-some :
    (roles : Option (List String)) (f g : Flag)
    → set_roles roles f ≡ some g
    → g.enabled ≡ true
    → f.enabled ≡ true
unfolding set_roles
set_roles-some none f g h e = absurd (ground (arith, h))
set_roles-some (some rs) f g h e = ground (arith, h, e)

decode_role_list-some :
    (v : Json) (f g : Flag) → decode_role_list v f ≡ some g → g.enabled ≡ true → f.enabled ≡ true
unfolding decode_role_list
decode_role_list-some (arr js) f g h e = set_roles-some (decode_roles js) f g h e
decode_role_list-some null f g h e = ground (arith, h, e)
decode_role_list-some (bool b) f g h e = absurd (ground (arith, h))
decode_role_list-some (num n) f g h e = absurd (ground (arith, h))
decode_role_list-some (frac s) f g h e = absurd (ground (arith, h))
decode_role_list-some (str s) f g h e = absurd (ground (arith, h))
decode_role_list-some (obj fs) f g h e = absurd (ground (arith, h))

module _ (folds : String → String → Bool) where
  -- One of the fields says true for what encoding/json takes for `enabled`.
  abbrev pub SaysEnabled : Fields → Type 0
  SaysEnabled end = ⊥
  SaysEnabled (field k v fs) = ((folds k "enabled" ≡ true) × (v ≡ bool true)) ⊎ SaysEnabled fs

  decode_flag_field-enabled :
      (k : String) (v : Json) (f g : Flag)
      → decode_flag_field folds k v f ≡ some g
      → g.enabled ≡ true
      → (f.enabled ≡ true) ⊎ ((folds k "enabled" ≡ true) × (v ≡ bool true))
  unfolding decode_flag_field
  decode_flag_field-enabled k v f g h e = elim (Bool-cases (folds k "enabled")) [
    | inl t ↦ elim (decode_enabled-some v f g (rw t at h) e) [
      | inl before ↦ inl before
      | inr said ↦ inr (t, said)
    ]
    | inr t ↦ elim (Bool-cases (folds k "roles")) [
      | inl r ↦ inl (decode_role_list-some v f g (rw (t, r) at h) e)
      | inr r ↦ inl (ground (arith, h, t, r, e))
    ]
  ]

  decode_flag_fields-enabled :
      (fs : Fields) (f g : Flag)
      → decode_flag_fields folds fs f ≡ some g
      → g.enabled ≡ true
      → (f.enabled ≡ true) ⊎ SaysEnabled fs
  unfolding decode_flag_fields
  decode_flag_fields-enabled end f g h e = inl (ground (arith, h, e))
  decode_flag_fields-enabled (field k v fs) f g h e =
      elim (Option-cases (decode_flag_field folds k v f)) [
        | inl n ↦ absurd (ground (arith, n, h))
        | inr (f', s) ↦ elim (decode_flag_fields-enabled fs f' g (ground (arith, s, h)) e) [
          | inr later ↦ inr (inr later)
          | inl now ↦ elim (decode_flag_field-enabled k v f f' s now) [
            | inl before ↦ inl before
            | inr said ↦ inr (inl said)
          ]
        ]
      ]

  -- The row is an object with such a field.
  abbrev pub HoldsEnabled : Document → Type 0
  HoldsEnabled (some (obj fs)) = SaysEnabled fs
  HoldsEnabled _ = ⊥

  or_zero-enabled :
      (fs : Fields) (r : Option Flag)
      → decode_flag_fields folds fs zero_flag ≡ r
      → (or_zero folds r).enabled ≡ true
      → SaysEnabled fs
  unfolding or_zero
  or_zero-enabled fs none h e = absurd (ground (arith, e))
  or_zero-enabled fs (some g) h e = elim (decode_flag_fields-enabled fs zero_flag g h e) [
    | inl start ↦ absurd (ground (arith, start))
    | inr said ↦ said
  ]

  -- A row gives an enabled flag only where it is an object of which a field for `enabled` is true:
  -- a bare Boolean, a text and what is no JSON are disabled.
  pub parse_from_json-enabled :
      (raw : Document) → (parse_from_json folds raw).enabled ≡ true → HoldsEnabled raw
  unfolding parse_from_json
  parse_from_json-enabled (some (obj fs)) e =
      or_zero-enabled fs (decode_flag_fields folds fs zero_flag) refl e
  parse_from_json-enabled none e = absurd (ground (arith, e))
  parse_from_json-enabled (some null) e = absurd (ground (arith, e))
  parse_from_json-enabled (some (bool b)) e = absurd (ground (arith, e))
  parse_from_json-enabled (some (num n)) e = absurd (ground (arith, e))
  parse_from_json-enabled (some (frac s)) e = absurd (ground (arith, e))
  parse_from_json-enabled (some (str s)) e = absurd (ground (arith, e))
  parse_from_json-enabled (some (arr js)) e = absurd (ground (arith, e))

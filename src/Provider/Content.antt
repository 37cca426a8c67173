-- ===== src/Provider/Content.antt =====
-- The JSON of a content, there and back.
use omkit_go.Prelude.{
  String, Bool, ◌≡◌, ◌⊎◌, inl, inr, refl, ◌∙◌, Option, none, some, List, [], ◌∷◌, arith, ◌==◌,
  Bool-cases, eq_iff, if◌then◌else◌,
}
use omkit_go.Jobqueue.Json.{str, obj, field, end}
use omkit_go.Provider.{
  ContentPart, MessageContent, ImageUrlObj, zero_part, marshal_part, marshal_parts, marshal_content,
  marshal_image, is_multimodal, decode_part_field, decode_part_fields, decode_part, decode_parts,
  decode_image, unmarshal_content,
}

pub data FieldName : Type 0 where
  kind text image_url url : FieldName

abbrev pub wire : FieldName → String
wire kind = "type"
wire text = "text"
wire image_url = "image_url"
wire url = "url"

-- encoding/json folds letter case, so on these names it takes a key for the field of that name and
-- for no other.
pub record FoldLaws (folds : String → String → Bool) : Type 0 where
  pub on_names : (a b : FieldName) → folds (wire a) (wire b) ≡ (wire a == wire b)

module _ {folds : String → String → Bool} (laws : FoldLaws folds) where
  decode_kind :
      (s : String) (p : ContentPart)
      → decode_part_field folds "type" (str s) p ≡ some (record p { kind = s })
  unfolding decode_part_field
  decode_kind s p = rw (laws.on_names kind kind) refl

  decode_text :
      (s : String) (p : ContentPart)
      → decode_part_field folds "text" (str s) p ≡ some (record p { text = s })
  unfolding decode_part_field
  decode_text s p = rw (laws.on_names text kind, laws.on_names text text) refl

  decode_url :
      (s : String) (old : Option ImageUrlObj)
      → decode_image folds (obj (field "url" (str s) end)) old ≡ some (some (record { url = s }))
  unfolding decode_image
  decode_url s old = ground (arith, laws.on_names url url)

  decode_image_url :
      (s : String) (p : ContentPart)
      → decode_part_field folds "image_url" (obj (field "url" (str s) end)) p
        ≡ some (record p { image_url = some (record { url = s }) })
  unfolding decode_part_field
  decode_image_url s p = ground (
    arith,
    laws.on_names image_url kind,
    laws.on_names image_url text,
    laws.on_names image_url image_url,
    decode_url s p.image_url,
  )

  decode-marshal_image :
      (i : Option ImageUrlObj) (p : ContentPart)
      → p.image_url ≡ none
      → decode_part_fields folds (marshal_image i) p ≡ some (record p { image_url = i })
  unfolding decode_part_fields marshal_image
  decode-marshal_image none p h = ground arith
  decode-marshal_image (some i) p h = rw (decode_image_url i.url p, decode_part_fields)

  decode-text_tail :
      (t : String) (i : Option ImageUrlObj) (p : ContentPart)
      → p.image_url ≡ none
      → p.text ≡ ""
      → decode_part_fields folds
          (if t == "" then marshal_image i else field "text" (str t) (marshal_image i))
          p
        ≡ some (record p { text = t; image_url = i })
  unfolding decode_part_fields
  decode-text_tail t i p h k = elim (Bool-cases (t == "")) [
    | inl e ↦ rw e (decode-marshal_image i p h ∙ ground (arith, eq_iff t "", e, k))
    | inr e ↦ rw e (
        rw (decode_text t p, decode_part_fields) (decode-marshal_image i (record p { text = t }) h))
  ]

  decode_part-marshal_part : (p : ContentPart) → decode_part folds (marshal_part p) ≡ some p
  unfolding decode_part marshal_part decode_part_fields
  decode_part-marshal_part p =
      rw (decode_kind p.kind zero_part, decode_part_fields)
        (decode-text_tail p.text p.image_url (record zero_part { kind = p.kind }) refl refl)

  decode_parts-marshal_parts :
      (ps : List ContentPart) → decode_parts folds (marshal_parts ps) ≡ some ps
  unfolding decode_parts marshal_parts
  decode_parts-marshal_parts [] = refl
  decode_parts-marshal_parts (p ∷ ps) =
      ground (arith, decode_part-marshal_part p, decode_parts-marshal_parts ps)

  -- A content that is a text or a list of parts, not both, is read back from its JSON as it was.
  pub unmarshal_content-marshal_content :
      (mc : MessageContent)
      → (mc.parts ≡ []) ⊎ (mc.text ≡ "")
      → unmarshal_content folds (some (marshal_content mc)) ≡ some mc
  unfolding unmarshal_content marshal_content is_multimodal
  unmarshal_content-marshal_content mc h = by_parts mc.text mc.parts h
    where
      by_parts :
          (t : String) (ps : List ContentPart)
          → (ps ≡ []) ⊎ (t ≡ "")
          → unmarshal_content folds (some (marshal_content (record { text = t; parts = ps })))
            ≡ some (record { text = t; parts = ps })
      by_parts t [] k = refl
      by_parts t (p ∷ ps) (inl e) = absurd (ground (arith, e))
      by_parts t (p ∷ ps) (inr e) = rw (decode_parts-marshal_parts (p ∷ ps)) (ground (arith, e))

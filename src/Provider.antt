-- ===== src/Provider.antt =====
-- provider/provider.go: the messages of a chat, whose content is a text or a list of parts, and
-- their JSON. As for an envelope, json.Unmarshal into a struct is written out on trees: a later
-- field wins, a field of another type is an error, null leaves a field as it is, and unknown fields
-- are skipped; `folds k name` says whether encoding/json takes the key `k` for the field `name`.
pub mod Content
pub mod Exchange
pub mod Wire
pub mod Openai
pub mod Anthropic
pub mod Ollama
pub mod Results
mod Tests
use Prim.Native.String
use omkit_go.Prelude.{
  String, Bool, true, false, Option, none, some, List, [], ◌∷◌, if◌then◌else◌, ◌==◌,
}
use omkit_go.Prelude.Int.{ℤ}
use omkit_go.Jobqueue.Json.{
  Json, null, str, arr, obj, Items, nil, cons, Fields, end, field, Document,
}

pub record ImageUrlObj : Type 0 where
  pub url : String

pub record ContentPart : Type 0 where
  pub kind : String
  pub text : String
  pub image_url : Option ImageUrlObj

abbrev pub zero_part : ContentPart
zero_part = record { kind = ""; text = ""; image_url = none }

-- `parts` is empty for a nil slice and for an empty one.
pub record MessageContent : Type 0 where
  pub text : String
  pub parts : List ContentPart

abbrev has_parts : List ContentPart → Bool
has_parts [] = false
has_parts (p ∷ ps) = true

unfoldable pub is_multimodal : MessageContent → Bool
is_multimodal mc = has_parts mc.parts

-- The loop over the parts in String.
pub text_of : List ContentPart → String
text_of [] = ""
text_of (p ∷ ps) =
    let rest = text_of ps in if p.kind == "text" then String.◌++◌ p.text rest else rest

unfoldable pub string : MessageContent → String
unfolding is_multimodal text_of
string mc = if is_multimodal mc then text_of mc.parts else mc.text

pub marshal_image : Option ImageUrlObj → Fields
marshal_image none = end
marshal_image (some image) = field "image_url" (obj (field "url" (str image.url) end)) end

-- json.Marshal of a part: `omitempty` leaves an empty text and a nil pointer out.
unfoldable pub marshal_part : ContentPart → Json
unfolding marshal_image
marshal_part p =
    let rest = marshal_image p.image_url in
    obj (field "type" (str p.kind) (if p.text == "" then rest else field "text" (str p.text) rest))

unfoldable pub marshal_parts : List ContentPart → Items
marshal_parts [] = nil
marshal_parts (p ∷ ps) = cons (marshal_part p) (marshal_parts ps)

-- MarshalJSON
unfoldable pub marshal_content : MessageContent → Json
unfolding is_multimodal marshal_parts
marshal_content mc = if is_multimodal mc then arr (marshal_parts mc.parts) else str mc.text

-- The decoding of a string field over the value that is there.
abbrev decode_string : Json → String → Option String
decode_string (str s) old = some s
decode_string null old = some old
decode_string _ old = none

module _ (folds : String → String → Bool) where
  set_url : Option String → Option ImageUrlObj
  set_url none = none
  set_url (some s) = some (record { url = s })

  decode_image_fields : Fields → ImageUrlObj → Option ImageUrlObj
  unfolding set_url
  decode_image_fields end image = some image
  decode_image_fields (field k v fs) image =
      elim (if folds k "url" then set_url (decode_string v image.url) else some image) [
        | none ↦ none
        | some image' ↦ decode_image_fields fs image'
      ]

  abbrev image_or_zero : Option ImageUrlObj → ImageUrlObj
  image_or_zero none = record { url = "" }
  image_or_zero (some image) = image

  -- Into a pointer: null makes it nil, and an object goes into the struct that is there.
  pub decode_image : Json → Option ImageUrlObj → Option (Option ImageUrlObj)
  unfolding decode_image_fields
  decode_image null old = some none
  decode_image (obj fs) old = elim (decode_image_fields fs (image_or_zero old)) [
    | none ↦ none
    | some image ↦ some (some image)
  ]
  decode_image _ old = none

  set_kind : Option String → ContentPart → Option ContentPart
  set_kind none p = none
  set_kind (some s) p = some (record p { kind = s })

  set_text : Option String → ContentPart → Option ContentPart
  set_text none p = none
  set_text (some s) p = some (record p { text = s })

  set_image : Option (Option ImageUrlObj) → ContentPart → Option ContentPart
  set_image none p = none
  set_image (some i) p = some (record p { image_url = i })

  pub decode_part_field : String → Json → ContentPart → Option ContentPart
  unfolding set_kind set_text set_image decode_image
  decode_part_field k v p =
      if folds k "type"
      then set_kind (decode_string v p.kind) p
      else if folds k "text"
      then set_text (decode_string v p.text) p
      else if folds k "image_url"
      then set_image (decode_image v p.image_url) p
      else some p

  pub decode_part_fields : Fields → ContentPart → Option ContentPart
  decode_part_fields end p = some p
  decode_part_fields (field k v fs) p = elim (decode_part_field k v p) [
    | none ↦ none
    | some p' ↦ decode_part_fields fs p'
  ]

  unfoldable pub decode_part : Json → Option ContentPart
  unfolding decode_part_fields
  decode_part (obj fs) = decode_part_fields fs zero_part
  decode_part null = some zero_part
  decode_part _ = none

  unfoldable pub decode_parts : Items → Option (List ContentPart)
  decode_parts nil = some []
  decode_parts (cons j js) =
      let rest = decode_parts js in
      elim (decode_part j) [
        | none ↦ none
        | some p ↦ elim rest [ none ↦ none | some ps ↦ some (p ∷ ps) ]
      ]

  abbrev of_parts : Option (List ContentPart) → Option MessageContent
  of_parts none = none
  of_parts (some ps) = some (record { text = ""; parts = ps })

  -- UnmarshalJSON; what it reads starts with a quotation mark exactly where it is a text.
  unfoldable pub unmarshal_content : Document → Option MessageContent
  unfolding decode_parts
  unmarshal_content (some (str s)) = some (record { text = s; parts = [] })
  unmarshal_content (some (arr js)) = of_parts (decode_parts js)
  unmarshal_content (some null) = of_parts (some [])
  unmarshal_content _ = none

pub record Message : Type 0 where
  pub role : String
  pub content : MessageContent

pub record ResponseFormat : Type 0 where
  pub kind : String

-- `F` is float64, and stands for float32 in the embeddings.
pub record ChatRequest (F : Type 0) : Type 0 where
  pub model : String
  pub messages : List Message
  pub temperature : Option F
  pub max_tokens : Option ℤ
  pub response_format : Option ResponseFormat

pub record Usage : Type 0 where
  pub prompt_tokens : ℤ
  pub completion_tokens : ℤ
  pub total_tokens : ℤ

pub record ChatResponse : Type 0 where
  pub content : String
  pub model : String
  pub usage : Usage
  pub finish_reason : String

pub record EmbedRequest : Type 0 where
  pub model : String
  pub input : List String

pub record EmbedResponse (F : Type 0) : Type 0 where
  pub embeddings : List (List F)
  pub model : String
  pub usage : Usage

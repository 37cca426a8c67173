-- ===== src/Provider/Ollama/Texts.antt =====
-- The text of a message for Ollama, against a plain description of it.
use Prim.Native.String
use text.Mathlib.TextLemmas.{append_assoc, append-eq-nil_iff, append-nil}
use mathlib.Core.List as List
use text.Mathlib.TextFind.{find_cases}
use text.Mathlib.TextPositions.{len-append, slice-append_right}
use omkit_go.Prelude.{
  ℕ, ◌⊎◌, suc, ◌+◌, leb, String, Bool, true, false, ◌≡◌, refl, sym, ap, ◌∙◌, Option, none, some,
  List, [], ◌∷◌, ◌++◌, inl, inr, Bool-cases, eq_iff, if◌then◌else◌, ◌==◌, arith,
}
use omkit_go.Provider.{ContentPart, ImageUrlObj, Message, is_multimodal}
use omkit_go.Provider.Ollama.{
  Flat, OllamaMessage, add_image, add_part, add_parts, to_ollama_message, raw_base64,
}

-- The texts of the parts that are texts.
abbrev pub texts : List ContentPart → List String
texts [] = []
texts (p ∷ ps) = if p.kind == "text" then p.text ∷ texts ps else texts ps

-- The texts, less those that are empty and stand before any other.
abbrev pub drop_empty : List String → List String
drop_empty [] = []
drop_empty (t ∷ ts) = if t == "" then drop_empty ts else t ∷ ts

abbrev pub lines_after : List String → String
lines_after [] = ""
lines_after (t ∷ ts) = String.◌++◌ "\n" (String.◌++◌ t (lines_after ts))

-- strings.Join(ts, "\n")
abbrev pub join_lines : List String → String
join_lines [] = ""
join_lines (t ∷ ts) = String.◌++◌ t (lines_after ts)

-- What one part adds to the text, and to the images.
abbrev plus_text : String → String → Bool → String
plus_text old t true = if old == "" then t else String.◌++◌ old (String.◌++◌ "\n" t)
plus_text old t false = old

abbrev image_of : Option ImageUrlObj → List String
image_of none = []
image_of (some image) = raw_base64 image.url ∷ []

abbrev image_in : Bool → Bool → Option ImageUrlObj → List String
image_in true b i = []
image_in false false i = []
image_in false true i = image_of i

-- The URLs of the parts that are images.
abbrev url_of : Option ImageUrlObj → List String
url_of none = []
url_of (some image) = image.url ∷ []

abbrev url_in : Bool → Bool → Option ImageUrlObj → List String
url_in true b i = []
url_in false false i = []
url_in false true i = url_of i

abbrev pub urls_of : List ContentPart → List String
urls_of [] = []
urls_of (p ∷ ps) = url_in (p.kind == "text") (p.kind == "image_url") p.image_url ++ urls_of ps

-- The image of a URL: what stands behind the ";base64," that is found in it, or all of it where none
-- is found.
abbrev pub IsPayload : String → String → Type 0
IsPayload url image =
    ((head : String) × ((url ≡ String.◌++◌ head (String.◌++◌ ";base64," image))
        × (String.find url ";base64," ≡ String.len head)))
    ⊎ ((image ≡ url) × (String.find url ";base64," ≡ suc (String.len url)))

-- One image for each URL, in their order.
abbrev pub Payloads : List String → List String → Type 0
Payloads [] [] = Unit
Payloads [] (i ∷ is) = ⊥
Payloads (u ∷ us) [] = ⊥
Payloads (u ∷ us) (i ∷ is) = IsPayload u i × Payloads us is

raw_base64-found :
    (url head tail : String)
    → url ≡ String.◌++◌ head (String.◌++◌ ";base64," tail)
    → String.find url ";base64," ≡ String.len head
    → raw_base64 url ≡ tail
unfolding raw_base64
raw_base64-found url head tail e f =
    let front = String.◌++◌ head ";base64," in
    let whole : url ≡ String.◌++◌ front tail = e ∙ sym (append_assoc head ";base64," tail) in
    let from : String.find url ";base64," + String.len ";base64," ≡ String.len front =
      ap (λ (n : ℕ). n + String.len ";base64,") f ∙ sym (len-append head ";base64,") in
    let to : String.len url ≡ String.len front + String.len tail =
      ap String.len whole ∙ len-append front tail in
    let within : leb (String.find url ";base64,") (String.len url) ≡ true =
      ground (arith, from, to) in
    rw within (
      ap (λ (n : ℕ). String.slice url n (String.len url)) from
      ∙ ap (λ (n : ℕ). String.slice url (String.len front) n) to
      ∙ ap (λ (u : String). String.slice u (String.len front) (String.len front + String.len tail))
          whole
      ∙ slice-append_right front tail)

raw_base64-missed :
    (url : String) → String.find url ";base64," ≡ suc (String.len url) → raw_base64 url ≡ url
unfolding raw_base64
raw_base64-missed url miss =
    let beyond : leb (String.find url ";base64,") (String.len url) ≡ false = ground (arith, miss) in
    rw beyond refl

raw_base64-IsPayload : (url : String) → IsPayload url (raw_base64 url)
raw_base64-IsPayload url = elim (find_cases url ";base64,") [
  | inl (head, tail, e, f) ↦ inl (
    head,
    (
      e
          ∙ ap (λ (t : String). String.◌++◌ head (String.◌++◌ ";base64," t))
              (sym (raw_base64-found url head tail e f)),
      f,
    ),
  )
  | inr miss ↦ inr (raw_base64-missed url miss, miss)
]

-- What raw_base64 makes of the images of the parts that are images.
abbrev pub images_of : List ContentPart → List String
images_of [] = []
images_of (p ∷ ps) = image_in (p.kind == "text") (p.kind == "image_url") p.image_url ++ images_of ps

url_in-Payloads :
    (t i : Bool) (o : Option ImageUrlObj) (us is : List String)
    → Payloads us is
    → Payloads (url_in t i o ++ us) (image_in t i o ++ is)
url_in-Payloads true i o us is h = h
url_in-Payloads false false o us is h = h
url_in-Payloads false true none us is h = h
url_in-Payloads false true (some image) us is h = (raw_base64-IsPayload image.url, h)

images_of-Payloads : (ps : List ContentPart) → Payloads (urls_of ps) (images_of ps)
images_of-Payloads [] = tt
images_of-Payloads (p ∷ ps) =
    url_in-Payloads (p.kind == "text") (p.kind == "image_url") p.image_url (urls_of ps)
      (images_of ps) (images_of-Payloads ps)

add_image-parts :
    (i : Option ImageUrlObj) (flat : Flat)
    → ((add_image i flat).text ≡ flat.text)
      × ((add_image i flat).images ≡ flat.images ++ image_of i)
unfolding add_image
add_image-parts none flat = (refl, sym (List.append-nil flat.images))
add_image-parts (some i) flat = (refl, refl)

add_part-parts :
    (p : ContentPart) (flat : Flat)
    → ((add_part p flat).text ≡ plus_text flat.text p.text (p.kind == "text"))
      × ((add_part p flat).images
          ≡ flat.images ++ image_in (p.kind == "text") (p.kind == "image_url") p.image_url)
unfolding add_part
add_part-parts p flat = elim (Bool-cases (p.kind == "text")) [
  | inl t ↦ rw t (refl, sym (List.append-nil flat.images))
  | inr t ↦ elim (Bool-cases (p.kind == "image_url")) [
    | inl i ↦ rw (t, i) (add_image-parts p.image_url flat)
    | inr i ↦ rw (t, i) (refl, sym (List.append-nil flat.images))
  ]
]

add_parts-images :
    (ps : List ContentPart) (flat : Flat) → (add_parts ps flat).images ≡ flat.images ++ images_of ps
unfolding add_parts
add_parts-images [] flat = sym (List.append-nil flat.images)
add_parts-images (p ∷ ps) flat =
    rw (add_parts-images ps (add_part p flat), (add_part-parts p flat).1)
      (List.append_assoc flat.images
        (image_in (p.kind == "text") (p.kind == "image_url") p.image_url) (images_of ps))

started_stays : (old t : String) → (old == "") ≡ false → (String.◌++◌ old t == "") ≡ false
started_stays old t h = elim (Bool-cases (String.◌++◌ old t == "")) [
  | inr e ↦ e
  | inl e ↦
      let nils = append-eq-nil_iff.0 ((eq_iff (String.◌++◌ old t) "").0 e) in
      absurd (ground (arith, h, (eq_iff old "").1 nils.0))
]

add_parts-started :
    (ps : List ContentPart) (flat : Flat)
    → (flat.text == "") ≡ false
    → (add_parts ps flat).text ≡ String.◌++◌ flat.text (lines_after (texts ps))
unfolding add_parts
add_parts-started [] flat h = sym (append-nil flat.text)
add_parts-started (p ∷ ps) flat h =
    let next = (add_part-parts p flat).0 in
    elim (Bool-cases (p.kind == "text")) [
      | inr t ↦
          let same : (add_part p flat).text ≡ flat.text = next ∙ (rw t refl) in
          add_parts-started ps (add_part p flat) (rw same h) ∙ (rw (same, t) refl)
      | inl t ↦
          let more : (add_part p flat).text ≡ String.◌++◌ flat.text (String.◌++◌ "\n" p.text) =
            next ∙ (rw (t, h) refl) in
          add_parts-started ps (add_part p flat)
            (rw more (started_stays flat.text (String.◌++◌ "\n" p.text) h))
          ∙ (rw (more, t)
              (append_assoc flat.text (String.◌++◌ "\n" p.text) (lines_after (texts ps))
                ∙ ap (String.◌++◌ flat.text) (append_assoc "\n" p.text (lines_after (texts ps)))))
    ]

add_parts-empty :
    (ps : List ContentPart) (flat : Flat)
    → flat.text ≡ ""
    → (add_parts ps flat).text ≡ join_lines (drop_empty (texts ps))
unfolding add_parts
add_parts-empty [] flat h = h
add_parts-empty (p ∷ ps) flat h =
    let next = (add_part-parts p flat).0 in
    elim (Bool-cases (p.kind == "text")) [
      | inr t ↦ add_parts-empty ps (add_part p flat) (next ∙ (rw t h)) ∙ (rw t refl)
      | inl t ↦
          let first : (add_part p flat).text ≡ p.text = next ∙ (rw (t, h) refl) in
          elim (Bool-cases (p.text == "")) [
            | inl e ↦
                add_parts-empty ps (add_part p flat) (first ∙ (eq_iff p.text "").0 e)
                ∙ (rw (t, e) refl)
            | inr e ↦ add_parts-started ps (add_part p flat) (rw first e) ∙ (rw (first, t, e) refl)
          ]
    ]

-- Of the message `m`, in Ollama's form.
pub record Flattened (m : Message) (o : OllamaMessage) : Type 0 where
  pub role : o.role ≡ m.role
  pub content : o.content ≡ (
      if is_multimodal m.content
      then join_lines (drop_empty (texts m.content.parts))
      else m.content.text)
  pub images : Payloads (urls_of m.content.parts) o.images

Flattened-of_parts :
    (role text : String) (parts : List ContentPart)
    → let m : Message = record { role = role; content = record { text = text; parts = parts } } in
      Flattened m (to_ollama_message m)
unfolding to_ollama_message is_multimodal
Flattened-of_parts role text [] = record { role = refl; content = refl; images = tt }
Flattened-of_parts role text (p ∷ ps) =
    let none_yet : Flat = record { text = ""; images = [] } in
    record {
      role = refl;
      content = add_parts-empty (p ∷ ps) none_yet refl;
      images = rw (add_parts-images (p ∷ ps) none_yet) (images_of-Payloads (p ∷ ps));
    }

-- A message for Ollama keeps the role; of a content in parts it has the texts in their order, joined
-- by line ends from the first that is not empty on, and for each image's URL in theirs what stands
-- behind the ";base64," found in it, or all of it where none is found; any other content stays as it
-- is, with no images.
pub to_ollama_message_lem : (m : Message) → Flattened m (to_ollama_message m)
to_ollama_message_lem m = Flattened-of_parts m.role m.content.text m.content.parts

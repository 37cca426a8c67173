-- ===== src/Provider/Ollama.antt =====
-- provider/ollama.go. The decoding of a reply into the response structs is a parameter.
pub mod Texts
use Prim.Native.String
use omkit_go.Prelude.{
  String, Bool, true, false, Option, none, some, List, [], ◌∷◌, ◌++◌, ◌+◌, leb, if◌then◌else◌, ◌==◌,
}
use omkit_go.Prelude.Int.{ℤ, pos, wrap64, ◌+ℤ◌}
use omkit_go.Headers.{Headers, set_header}
use omkit_go.Jobqueue.Json.{Json, bool, str, arr, obj, Items, nil, cons, Fields, field, end}
use omkit_go.Provider.{
  ContentPart, ImageUrlObj, Message, MessageContent, ChatRequest, ChatResponse, EmbedRequest,
  EmbedResponse, is_multimodal, string,
}
use omkit_go.Provider.Exchange.{Env, Request, Result, Provider, exchange}
use omkit_go.Provider.Wire.{marshal_texts, temperature_field, marshal_embed}

pub record OllamaProvider : Type 0 where
  pub base_url : String

unfoldable pub new_ollama_provider : String → OllamaProvider
new_ollama_provider base_url = record { base_url = base_url }

pub record OllamaMessage : Type 0 where
  pub role : String
  pub content : String
  pub images : List String

-- What follows ";base64," in a URL; `find` gives a position past the end where it is not there.
unfoldable pub raw_base64 : String → String
raw_base64 url =
    let idx = String.find url ";base64," in
    if leb idx (String.len url)
    then String.slice url (idx + String.len ";base64,") (String.len url)
    else url

-- The text builder and the images of one message.
pub record Flat : Type 0 where
  pub text : String
  pub images : List String

add_text : String → Flat → Flat
add_text t flat = record flat {
  text = if flat.text == "" then t else String.◌++◌ flat.text (String.◌++◌ "\n" t);
}

pub add_image : Option ImageUrlObj → Flat → Flat
unfolding raw_base64
add_image none flat = flat
add_image (some image) flat = record flat { images = flat.images ++ raw_base64 image.url ∷ [] }

unfoldable pub add_part : ContentPart → Flat → Flat
unfolding add_text add_image
add_part part flat =
    if part.kind == "text"
    then add_text part.text flat
    else if part.kind == "image_url"
    then add_image part.image_url flat
    else flat

unfoldable pub add_parts : List ContentPart → Flat → Flat
add_parts [] flat = flat
add_parts (p ∷ ps) flat = add_parts ps (add_part p flat)

unfoldable pub to_ollama_message : Message → OllamaMessage
unfolding add_parts is_multimodal
to_ollama_message m =
    if is_multimodal m.content
    then (let flat = add_parts m.content.parts (record { text = ""; images = [] }) in
        record { role = m.role; content = flat.text; images = flat.images })
    else record { role = m.role; content = m.content.text; images = [] }

unfoldable pub to_ollama_messages : List Message → List OllamaMessage
to_ollama_messages [] = []
to_ollama_messages (m ∷ ms) = to_ollama_message m ∷ to_ollama_messages ms

images_field : List String → Fields
images_field [] = end
images_field (i ∷ is) = field "images" (arr (marshal_texts (i ∷ is))) end

unfoldable pub marshal_ollama_messages : List OllamaMessage → Items
unfolding images_field
marshal_ollama_messages [] = nil
marshal_ollama_messages (m ∷ ms) =
    cons (obj (field "role" (str m.role) (field "content" (str m.content) (images_field m.images))))
      (marshal_ollama_messages ms)

pub record OllamaChatResponse : Type 0 where
  pub model : String
  pub message : Message
  pub done_reason : String
  pub eval_count : ℤ
  pub prompt_eval_count : ℤ

pub record OllamaEmbedResponse (F : Type 0) : Type 0 where
  pub model : String
  pub embeddings : List (List F)

pub record Codec (F B : Type 0) : Type 0 where
  pub marshal_float : F → Option Json
  pub decode_chat : B → Option OllamaChatResponse
  pub decode_embed : B → Option (OllamaEmbedResponse F)

unfoldable pub chat_response_of : OllamaChatResponse → ChatResponse
unfolding string
chat_response_of r = record {
  content = string r.message.content;
  model = r.model;
  usage = record {
    prompt_tokens = r.prompt_eval_count;
    completion_tokens = r.eval_count;
    total_tokens = wrap64 (r.prompt_eval_count +ℤ r.eval_count);
  };
  finish_reason = r.done_reason;
}

unfoldable pub embed_response_of : {F : Type 0} → OllamaEmbedResponse F → EmbedResponse F
embed_response_of r = record {
  embeddings = r.embeddings;
  model = r.model;
  usage = record { prompt_tokens = pos 0; completion_tokens = pos 0; total_tokens = pos 0 };
}

abbrev pub headers : Headers
headers = set_header "Content-Type" "application/json" []

-- `omitempty` on the map of options, which holds a temperature or nothing.
options_field : Fields → Fields
options_field end = end
options_field (field k v fs) = field "options" (obj (field k v fs)) end

chat_body : String → List OllamaMessage → Option Fields → Option Json
unfolding options_field
chat_body model messages none = none
chat_body model messages (some options) = some (
    obj (
      field "model" (str model) (
        field "messages" (arr (marshal_ollama_messages messages))
          (field "stream" (bool false) (options_field options)))))

module _ {F B : Type 0} (codec : Codec F B) (env : Env B) (p : OllamaProvider) where
  -- json.Marshal of an ollamaChatRequest.
  unfoldable pub marshal_chat : ChatRequest F → Option Json
  unfolding chat_body
  marshal_chat req =
      chat_body req.model (to_ollama_messages req.messages)
        (temperature_field codec.marshal_float req.temperature)

  unfoldable pub chat_completion : ChatRequest F → Option Request × Result ChatResponse
  chat_completion req =
      exchange codec.decode_chat chat_response_of env (String.◌++◌ p.base_url "/api/chat") headers
        (marshal_chat req)

  unfoldable pub embedding : EmbedRequest → Option Request × Result (EmbedResponse F)
  embedding req =
      exchange codec.decode_embed embed_response_of env (String.◌++◌ p.base_url "/api/embed")
        headers (some (marshal_embed req.model req.input))

  unfoldable pub ollama : Provider F
  ollama = record {
    name = "ollama";
    supports_embedding = true;
    chat_completion = chat_completion;
    embedding = embedding;
  }

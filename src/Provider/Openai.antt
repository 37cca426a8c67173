-- ===== src/Provider/Openai.antt =====
-- provider/openai.go. The decoding of a reply into the response structs is a parameter.
use Prim.Native.String
use omkit_go.Prelude.{String, Option, some, List, [], ◌∷◌, map, true}
use omkit_go.Prelude.Int.{ℤ, pos}
use omkit_go.Headers.{Headers, set_header}
use omkit_go.Jobqueue.Json.{Json, str, arr, field, end, append}
use omkit_go.Provider.{ChatRequest, ChatResponse, EmbedRequest, EmbedResponse}
use omkit_go.Provider.Exchange.{Env, Request, Result, Provider, exchange}
use omkit_go.Provider.Wire.{
  marshal_messages, max_tokens_field, response_format_field, temperature_field, object_of,
  marshal_embed,
}

abbrev pub default_openai_base_url : String
default_openai_base_url = "https://api.openai.com"

pub record OpenaiProvider : Type 0 where
  pub api_key : String
  pub base_url : String

-- The options that are given, each a new base URL.
apply_options : List String → OpenaiProvider → OpenaiProvider
apply_options [] p = p
apply_options (url ∷ urls) p = apply_options urls (record p { base_url = url })

unfoldable pub new_openai_provider : String → List String → OpenaiProvider
unfolding apply_options
new_openai_provider api_key urls =
    apply_options urls (record { api_key = api_key; base_url = default_openai_base_url })

pub record OpenaiMessage : Type 0 where
  pub role : String
  pub content : String

pub record OpenaiChoice : Type 0 where
  pub message : OpenaiMessage
  pub finish_reason : String

-- Also openaiEmbedUsage, whose completion_tokens are not read.
pub record OpenaiUsage : Type 0 where
  pub prompt_tokens : ℤ
  pub completion_tokens : ℤ
  pub total_tokens : ℤ

pub record OpenaiChatResponse : Type 0 where
  pub id : String
  pub model : String
  pub choices : List OpenaiChoice
  pub usage : OpenaiUsage

pub record OpenaiEmbedData (F : Type 0) : Type 0 where
  pub vector : List F
  pub index : ℤ

pub record OpenaiEmbedResponse (F : Type 0) : Type 0 where
  pub model : String
  pub embeds : List (OpenaiEmbedData F)
  pub usage : OpenaiUsage

-- What encoding/json does for the provider: the float64 of a request, and the two kinds of reply.
pub record Codec (F B : Type 0) : Type 0 where
  pub marshal_float : F → Option Json
  pub decode_chat : B → Option OpenaiChatResponse
  pub decode_embed : B → Option (OpenaiEmbedResponse F)

first_content : List OpenaiChoice → String
first_content [] = ""
first_content (c ∷ cs) = c.message.content

first_finish_reason : List OpenaiChoice → String
first_finish_reason [] = ""
first_finish_reason (c ∷ cs) = c.finish_reason

unfoldable pub chat_response_of : OpenaiChatResponse → ChatResponse
unfolding first_content first_finish_reason
chat_response_of r = record {
  content = first_content r.choices;
  model = r.model;
  usage = record {
    prompt_tokens = r.usage.prompt_tokens;
    completion_tokens = r.usage.completion_tokens;
    total_tokens = r.usage.total_tokens;
  };
  finish_reason = first_finish_reason r.choices;
}

unfoldable pub embed_response_of : {F : Type 0} → OpenaiEmbedResponse F → EmbedResponse F
embed_response_of r = record {
  embeddings = map (λ d. d.vector) r.embeds;
  model = r.model;
  usage = record {
    prompt_tokens = r.usage.prompt_tokens;
    completion_tokens = pos 0;
    total_tokens = r.usage.total_tokens;
  };
}

unfoldable pub headers_of : OpenaiProvider → Headers
headers_of p =
    set_header "Authorization" (String.◌++◌ "Bearer " p.api_key)
      (set_header "Content-Type" "application/json" [])

module _ {F B : Type 0} (codec : Codec F B) (env : Env B) (p : OpenaiProvider) where
  -- json.Marshal of an openaiChatRequest.
  unfoldable pub marshal_chat : ChatRequest F → Option Json
  marshal_chat req =
      object_of
        (field "model" (str req.model) (field "messages" (arr (marshal_messages req.messages)) end))
        (temperature_field codec.marshal_float req.temperature)
        (append (max_tokens_field req.max_tokens) (response_format_field req.response_format))

  unfoldable pub chat_completion : ChatRequest F → Option Request × Result ChatResponse
  chat_completion req =
      exchange codec.decode_chat chat_response_of env
        (String.◌++◌ p.base_url "/v1/chat/completions") (headers_of p) (marshal_chat req)

  unfoldable pub embedding : EmbedRequest → Option Request × Result (EmbedResponse F)
  embedding req =
      exchange codec.decode_embed embed_response_of env (String.◌++◌ p.base_url "/v1/embeddings")
        (headers_of p) (some (marshal_embed req.model req.input))

  unfoldable pub openai : Provider F
  openai = record {
    name = "openai";
    supports_embedding = true;
    chat_completion = chat_completion;
    embedding = embedding;
  }

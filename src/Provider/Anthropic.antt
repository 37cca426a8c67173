-- ===== src/Provider/Anthropic.antt =====
-- provider/anthropic.go. The decoding of a reply into the response struct is a parameter. The names
-- of the headers are in the form that http.Header gives them.
use Prim.Native.String
use omkit_go.Prelude.{String, Option, none, some, List, [], ◌∷◌, false}
use omkit_go.Prelude.Int.{ℤ, pos, wrap64, ◌+ℤ◌}
use omkit_go.Headers.{Headers, set_header}
use omkit_go.Jobqueue.Json.{Json, num, str, arr, field, end}
use omkit_go.Provider.{ChatRequest, ChatResponse, EmbedRequest, EmbedResponse}
use omkit_go.Provider.Exchange.{Env, Request, Result, failed, unsupported, Provider, exchange}
use omkit_go.Provider.Wire.{marshal_messages, temperature_field, object_of}

abbrev pub default_anthropic_base_url : String
default_anthropic_base_url = "https://api.anthropic.com"

abbrev pub default_anthropic_version : String
default_anthropic_version = "2023-06-01"

abbrev pub default_max_tokens : ℤ
default_max_tokens = pos 4096

pub record AnthropicProvider : Type 0 where
  pub api_key : String
  pub base_url : String

-- The options that are given, each a new base URL.
apply_options : List String → AnthropicProvider → AnthropicProvider
apply_options [] p = p
apply_options (url ∷ urls) p = apply_options urls (record p { base_url = url })

unfoldable pub new_anthropic_provider : String → List String → AnthropicProvider
unfolding apply_options
new_anthropic_provider api_key urls =
    apply_options urls (record { api_key = api_key; base_url = default_anthropic_base_url })

pub record AnthropicContent : Type 0 where
  pub kind : String
  pub text : String

pub record AnthropicUsage : Type 0 where
  pub input_tokens : ℤ
  pub output_tokens : ℤ

pub record AnthropicChatResponse : Type 0 where
  pub id : String
  pub model : String
  pub content : List AnthropicContent
  pub usage : AnthropicUsage

pub record Codec (F B : Type 0) : Type 0 where
  pub marshal_float : F → Option Json
  pub decode_chat : B → Option AnthropicChatResponse

first_text : List AnthropicContent → String
first_text [] = ""
first_text (c ∷ cs) = c.text

unfoldable pub chat_response_of : AnthropicChatResponse → ChatResponse
unfolding first_text
chat_response_of r = record {
  content = first_text r.content;
  model = r.model;
  usage = record {
    prompt_tokens = r.usage.input_tokens;
    completion_tokens = r.usage.output_tokens;
    total_tokens = wrap64 (r.usage.input_tokens +ℤ r.usage.output_tokens);
  };
  finish_reason = "";
}

unfoldable pub max_tokens_or_default : Option ℤ → ℤ
max_tokens_or_default none = default_max_tokens
max_tokens_or_default (some n) = n

unfoldable pub headers_of : AnthropicProvider → Headers
headers_of p =
    set_header "Anthropic-Version" default_anthropic_version
      (set_header "X-Api-Key" p.api_key (set_header "Content-Type" "application/json" []))

module _ {F B : Type 0} (codec : Codec F B) (env : Env B) (p : AnthropicProvider) where
  -- json.Marshal of an anthropicChatRequest.
  unfoldable pub marshal_chat : ChatRequest F → Option Json
  unfolding max_tokens_or_default
  marshal_chat req =
      object_of
        (field "model" (str req.model) (
          field "messages" (arr (marshal_messages req.messages))
            (field "max_tokens" (num (max_tokens_or_default req.max_tokens)) end)))
        (temperature_field codec.marshal_float req.temperature) end

  unfoldable pub chat_completion : ChatRequest F → Option Request × Result ChatResponse
  chat_completion req =
      exchange codec.decode_chat chat_response_of env (String.◌++◌ p.base_url "/v1/messages")
        (headers_of p) (marshal_chat req)

  unfoldable pub embedding : EmbedRequest → Option Request × Result (EmbedResponse F)
  embedding req = (none, failed unsupported)

  unfoldable pub anthropic : Provider F
  anthropic = record {
    name = "anthropic";
    supports_embedding = false;
    chat_completion = chat_completion;
    embedding = embedding;
  }

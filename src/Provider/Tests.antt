-- ===== src/Provider/Tests.antt =====
-- The theorems on messages, at one with a text, an image and two further texts.
use omkit_go.Prelude.{String, Bool, true, ◌≡◌, refl, Option, none, some, [], ◌∷◌, ◌==◌, inr}
use omkit_go.Prelude.Int.{ℤ, pos, wrap64, ◌+ℤ◌}
use omkit_go.Jobqueue.Json.{Json, num}
use omkit_go.Provider.{
  ContentPart, Message, MessageContent, ChatRequest, ChatResponse, Usage, marshal_content,
  unmarshal_content,
}
use omkit_go.Provider.Anthropic as Anthropic
use omkit_go.Provider.Content.{FoldLaws, unmarshal_content-marshal_content}
use omkit_go.Provider.Exchange.{Env, ok, exchange, read_reply}
use omkit_go.Provider.Wire.{temperature_field, object_of}
use omkit_go.Provider.Ollama.{to_ollama_message, add_part, add_parts}
use omkit_go.Provider.Ollama.Texts.{Flattened, to_ollama_message_lem}

abbrev text_part : String → ContentPart
text_part t = record { kind = "text"; text = t; image_url = none }

abbrev picture : MessageContent
picture = record {
  text = "";
  parts =
      text_part ""
      ∷ text_part "What is this?"
      ∷ record {
        kind = "image_url";
        text = "";
        image_url = some (record { url = "data:image/png;base64,iVBO" });
      }
      ∷ text_part ""
      ∷ text_part "Be brief."
      ∷ [];
}

abbrev question : Message
question = record { role = "user"; content = picture }

abbrev exact : String → String → Bool
exact k name = k == name

exact-FoldLaws : FoldLaws exact
exact-FoldLaws = record { on_names = λ a b. refl }

unmarshal_content-marshal_content_example :
    unmarshal_content exact (some (marshal_content picture)) ≡ some picture
unmarshal_content-marshal_content_example =
    unmarshal_content-marshal_content exact-FoldLaws picture (inr refl)

to_ollama_message_lem_example : Flattened question (to_ollama_message question)
to_ollama_message_lem_example = to_ollama_message_lem question

-- The empty text comes first and is dropped, the one behind the image leaves a line.
question_flat :
    to_ollama_message question
    ≡ record { role = "user"; content = "What is this?\n\nBe brief."; images = "iVBO" ∷ [] }
unfolding to_ollama_message add_parts add_part
question_flat = refl

abbrev chat : ChatRequest ℤ
chat = record {
  model = "m";
  messages = question ∷ [];
  temperature = some (pos 0);
  max_tokens = none;
  response_format = none;
}

abbrev number : ℤ → Option Json
number n = some (num n)

abbrev answers : Env String
answers = record { buildable = λ url. true; answer = λ r. some (200, "A bird.") }

abbrev no_usage : Usage
no_usage = record { prompt_tokens = pos 3; completion_tokens = pos 2; total_tokens = pos 5 }

abbrev reply : ChatResponse
reply = record { content = "A bird."; model = "m"; usage = no_usage; finish_reason = "" }

abbrev anthropic_codec : Anthropic.Codec ℤ String
anthropic_codec = record {
  marshal_float = number;
  decode_chat = λ b. some (record {
    id = "1";
    model = "m";
    content = record { kind = "text"; text = b } ∷ [];
    usage = record { input_tokens = pos 3; output_tokens = pos 2 };
  });
}

abbrev anthropic_key : Anthropic.AnthropicProvider
anthropic_key = record { api_key = "k"; base_url = Anthropic.default_anthropic_base_url }

anthropic_replies :
    ((Anthropic.anthropic anthropic_codec answers anthropic_key).chat_completion chat).1 ≡ ok reply
unfolding Anthropic.anthropic Anthropic.chat_completion Anthropic.marshal_chat
    Anthropic.chat_response_of exchange read_reply temperature_field object_of wrap64 ◌+ℤ◌
anthropic_replies = refl

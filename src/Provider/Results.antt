-- ===== src/Provider/Results.antt =====
-- When the providers give a completion, and what of a request they leave out.
use Prim.Native.String
use omkit_go.Prelude.{◌≡◌, ◌↔◌, refl, Option}
use omkit_go.Prelude.Int.{ℤ}
use omkit_go.Provider.{ChatRequest, ChatResponse, ResponseFormat}
use omkit_go.Provider.Anthropic as Anthropic
use omkit_go.Provider.Exchange.{Env, ok}
use omkit_go.Provider.Exchange.Laws.{Exchanged, exchange_iff}
use omkit_go.Provider.Ollama as Ollama
use omkit_go.Provider.Openai as Openai

module _ {F B : Type 0} (env : Env B) (req : ChatRequest F) (r : ChatResponse) where
  -- The exchange at the provider's path, with its headers and its form of the request, has had the
  -- status 200, and a body that decodes to what `r` is made from.
  abbrev pub OpenaiServed : Openai.Codec F B → Openai.OpenaiProvider → Type 0
  OpenaiServed codec p =
      Exchanged codec.decode_chat Openai.chat_response_of env
        (String.◌++◌ p.base_url "/v1/chat/completions") (Openai.headers_of p)
        (Openai.marshal_chat codec env p req) r

  abbrev pub AnthropicServed : Anthropic.Codec F B → Anthropic.AnthropicProvider → Type 0
  AnthropicServed codec p =
      Exchanged codec.decode_chat Anthropic.chat_response_of env
        (String.◌++◌ p.base_url "/v1/messages") (Anthropic.headers_of p)
        (Anthropic.marshal_chat codec env p req) r

  abbrev pub OllamaServed : Ollama.Codec F B → Ollama.OllamaProvider → Type 0
  OllamaServed codec p =
      Exchanged codec.decode_chat Ollama.chat_response_of env (String.◌++◌ p.base_url "/api/chat")
        Ollama.headers (Ollama.marshal_chat codec env p req) r

  -- Each of the three providers returns a completion exactly where it is the one made from the body
  -- of a reply with the status 200, to the request that has the provider's path, its headers and
  -- its JSON form of the chat; else it returns an error.
  pub chat_completion_iff :
      (o_codec : Openai.Codec F B) (o : Openai.OpenaiProvider) (a_codec : Anthropic.Codec F B)
      (a : Anthropic.AnthropicProvider) (l_codec : Ollama.Codec F B) (l : Ollama.OllamaProvider)
      → ((((Openai.openai o_codec env o).chat_completion req).1 ≡ ok r) ↔ OpenaiServed o_codec o)
        × ((((Anthropic.anthropic a_codec env a).chat_completion req).1 ≡ ok r)
            ↔ AnthropicServed a_codec a)
        × ((((Ollama.ollama l_codec env l).chat_completion req).1 ≡ ok r) ↔ OllamaServed l_codec l)
  unfolding Openai.openai Openai.chat_completion Anthropic.anthropic Anthropic.chat_completion
      Ollama.ollama Ollama.chat_completion
  chat_completion_iff o_codec o a_codec a l_codec l = (
    exchange_iff o_codec.decode_chat Openai.chat_response_of env _ _ _ r,
    exchange_iff a_codec.decode_chat Anthropic.chat_response_of env _ _ _ r,
    exchange_iff l_codec.decode_chat Ollama.chat_response_of env _ _ _ r,
  )

-- Ollama answers a chat as it answers the same with another bound on the tokens and another format
-- of the response: it sends neither.
pub ollama-unbounded :
    {F B : Type 0} (codec : Ollama.Codec F B) (env : Env B) (p : Ollama.OllamaProvider)
    (req : ChatRequest F) (bound : Option ℤ) (format : Option ResponseFormat)
    → (Ollama.ollama codec env p).chat_completion
        (record req { max_tokens = bound; response_format = format })
      ≡ (Ollama.ollama codec env p).chat_completion req
unfolding Ollama.ollama Ollama.chat_completion Ollama.marshal_chat
ollama-unbounded codec env p req bound format = refl

-- ===== src/Provider/Wire.antt =====
-- provider/: the JSON that the requests of the providers share, struct tags included. The slices of
-- a request are not nil, so that they are written as arrays. `marshal_float` is what json.Marshal
-- makes of a float64, with `none` for NaN and the infinities, which it refuses.
use omkit_go.Prelude.{String, Option, none, some, List, [], ◌∷◌}
use omkit_go.Prelude.Int.{ℤ}
use omkit_go.Jobqueue.Json.{Json, num, str, arr, obj, Items, nil, cons, Fields, end, field, append}
use omkit_go.Provider.{Message, ResponseFormat, marshal_content}

unfoldable pub marshal_messages : List Message → Items
marshal_messages [] = nil
marshal_messages (m ∷ ms) =
    cons (obj (field "role" (str m.role) (field "content" (marshal_content m.content) end)))
      (marshal_messages ms)

unfoldable pub marshal_texts : List String → Items
marshal_texts [] = nil
marshal_texts (t ∷ ts) = cons (str t) (marshal_texts ts)

-- `omitempty` on the three pointers.
unfoldable pub max_tokens_field : Option ℤ → Fields
max_tokens_field none = end
max_tokens_field (some n) = field "max_tokens" (num n) end

unfoldable pub response_format_field : Option ResponseFormat → Fields
response_format_field none = end
response_format_field (some f) = field "response_format" (obj (field "type" (str f.kind) end)) end

module _ {F : Type 0} (marshal_float : F → Option Json) where
  temperature_number : Option Json → Option Fields
  temperature_number none = none
  temperature_number (some j) = some (field "temperature" j end)

  unfoldable pub temperature_field : Option F → Option Fields
  unfolding temperature_number
  temperature_field none = some end
  temperature_field (some t) = temperature_number (marshal_float t)

-- The object of these fields, then an optional one, then the last.
unfoldable pub object_of : Fields → Option Fields → Fields → Option Json
object_of first none last = none
object_of first (some middle) last = some (obj (append first (append middle last)))

-- The body of an embedding request.
unfoldable pub marshal_embed : (model : String) (input : List String) → Json
unfolding marshal_texts
marshal_embed model input =
    obj (field "model" (str model) (field "input" (arr (marshal_texts input)) end))

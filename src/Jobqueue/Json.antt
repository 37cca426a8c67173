-- ===== src/Jobqueue/Json.antt =====
-- JSON documents of encoding/json, as trees: the text of a document and its parsing are left out.
-- A number that is no integer keeps its literal.
use omkit_go.Prelude.{String, Bool, Option}
use omkit_go.Prelude.Int.{ℤ}

mutual
  pub data Json : Type 0 where
    null : Json
    bool : Bool → Json
    num : ℤ → Json
    frac : String → Json
    str : String → Json
    arr : Items → Json
    obj : Fields → Json

  pub data Items : Type 0 where
    nil : Items
    cons : Json → Items → Items

  pub data Fields : Type 0 where
    end : Fields
    field : String → Json → Fields → Fields

-- The bytes of a payload: `none` is what is no JSON text.
abbrev pub Document : Type 0
Document = Option Json

-- The fields of one object behind those of another.
abbrev pub append : Fields → Fields → Fields
append end gs = gs
append (field k v fs) gs = field k v (append fs gs)

-- ===== src/Featureflags/Rows.antt =====
-- featureflags/postgres.go and featureflags/store.go: the rows of app_settings, the flag that each
-- holds, and the store for tests. json.Unmarshal is written out on trees as for an envelope.
pub mod Enabled
mod Tests
use omkit_go.Prelude.{
  String, Bool, true, false, Option, none, some, List, [], ◌∷◌, Map, insert, lookup, if◌then◌else◌,
}
use omkit_go.Jobqueue.Json.{
  Json, null, bool, str, arr, obj, Items, nil, cons, Fields, end, field, Document,
}
use omkit_go.Featureflags.{Flag}

abbrev pub zero_flag : Flag
zero_flag = record { enabled = false; roles = [] }

-- A text of the list of roles; null leaves the zero value of a new element, as it does where the key
-- for the roles occurs once.
abbrev decode_role : Json → Option String
decode_role (str s) = some s
decode_role null = some ""
decode_role _ = none

pub decode_roles : Items → Option (List String)
decode_roles nil = some []
decode_roles (cons j js) =
    let rest = decode_roles js in
    elim (decode_role j) [
      | none ↦ none
      | some r ↦ elim rest [ none ↦ none | some rs ↦ some (r ∷ rs) ]
    ]

pub set_roles : Option (List String) → Flag → Option Flag
set_roles none f = none
set_roles (some rs) f = some (record f { roles = rs })

-- The decoding of the two fields, over the value that is there.
pub decode_enabled : Json → Flag → Option Flag
decode_enabled (bool b) f = some (record f { enabled = b })
decode_enabled null f = some f
decode_enabled _ f = none

pub decode_role_list : Json → Flag → Option Flag
unfolding set_roles decode_roles
decode_role_list (arr js) f = set_roles (decode_roles js) f
decode_role_list null f = some (record f { roles = [] })
decode_role_list _ f = none

module _ (folds : String → String → Bool) where
  pub decode_flag_field : String → Json → Flag → Option Flag
  unfolding decode_enabled decode_role_list
  decode_flag_field k v f =
      if folds k "enabled"
      then decode_enabled v f
      else if folds k "roles"
      then decode_role_list v f
      else some f

  pub decode_flag_fields : Fields → Flag → Option Flag
  decode_flag_fields end f = some f
  decode_flag_fields (field k v fs) f = elim (decode_flag_field k v f) [
    | none ↦ none
    | some f' ↦ decode_flag_fields fs f'
  ]

  pub or_zero : Option Flag → Flag
  or_zero none = zero_flag
  or_zero (some f) = f

  -- ParseFromJSON; an error of json.Unmarshal gives the zero flag.
  unfoldable pub parse_from_json : Document → Flag
  unfolding decode_flag_fields or_zero
  parse_from_json (some (obj fs)) = or_zero (decode_flag_fields fs zero_flag)
  parse_from_json _ = zero_flag

  -- A row of the query: `none` where Scan fails, or its key and value.
  pub load_rows : List (Option (String × Document)) → Map Flag → Option (Map Flag)
  load_rows [] out = some out
  load_rows (none ∷ rows) out = none
  load_rows (some (key, raw) ∷ rows) out = load_rows rows (insert key (parse_from_json raw) out)

  -- loadFromPool: whether the query succeeds, its rows, and whether there is no error behind them.
  -- The map beside that error is left out.
  unfoldable pub load_from_pool :
      (queried : Bool) → List (Option (String × Document)) → (ended : Bool) → Option (Map Flag)
  unfolding load_rows
  load_from_pool queried rows ended =
      if queried
      then elim (load_rows rows []) [ none ↦ none | some out ↦ if ended then some out else none ]
      else none

-- StaticStore, whose map no one changes after NewStaticStore.
pub record StaticStore : Type 0 where
  pub flags : Map Flag

unfoldable pub new_static_store : Map Flag → StaticStore
new_static_store flags = record { flags = flags }

unfoldable pub static_get : StaticStore → String → Option Flag
static_get s key = lookup key s.flags

unfoldable pub static_all_flags : StaticStore → Map Flag
static_all_flags s = s.flags

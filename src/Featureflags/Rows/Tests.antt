-- ===== src/Featureflags/Rows/Tests.antt =====
-- The theorem on rows, at a row of an administrators' flag, and a row from before the roles.
use omkit_go.Prelude.{String, Bool, true, ◌≡◌, refl, some, ◌==◌}
use omkit_go.Jobqueue.Json.{bool, str, arr, obj, nil, cons, end, field, Document}
use omkit_go.Featureflags.Rows.{zero_flag, parse_from_json, decode_flag_field}
use omkit_go.Featureflags.Rows.Enabled.{HoldsEnabled, parse_from_json-enabled}

abbrev exact : String → String → Bool
exact k name = k == name

abbrev row : Document
row =
    some (obj (field "enabled" (bool true) (field "roles" (arr (cons (str "omur-admin") nil)) end)))

row_enabled : (parse_from_json exact row).enabled ≡ true
unfolding parse_from_json decode_flag_field
row_enabled = refl

parse_from_json-enabled_example : HoldsEnabled exact row
parse_from_json-enabled_example = parse_from_json-enabled exact row row_enabled

bare_row : parse_from_json exact (some (bool true)) ≡ zero_flag
unfolding parse_from_json decode_flag_field
bare_row = refl

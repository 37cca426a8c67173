-- ===== src/Health.antt =====
-- health/handler.go: liveness and readiness. A probe's `check` is `none` where the function is nil,
-- and else what it returns: `none` for a nil error, or the error's message.
pub mod Command
pub mod Readiness
use Prim.Native.String
use omkit_go.Prelude.{
  ℕ, String, Bool, true, false, Option, none, some, List, [], ◌∷◌, ◌++◌, Map, insert,
}

pub record Probe : Type 0 where
  pub name : String
  pub check : Option (Option String)

-- The status of a reply and the fields of its body; a field that is left out is `none`.
pub record Reply : Type 0 where
  pub status : ℕ
  pub state : String
  pub checks : Option (Map String)
  pub failed : Option String

-- Handler, less the names of the service.
unfoldable pub handler : Reply
handler = record { status = 200; state = "ok"; checks = none; failed = none }

-- ReadyHandler, with what its check returns; the second result is the field `error`.
unfoldable pub ready_handler : Option String → Reply × Option String
ready_handler none = (record { status = 200; state = "ready"; checks = none; failed = none }, none)
ready_handler (some e) =
    (record { status = 503; state = "not_ready"; checks = none; failed = none }, some e)

-- The loop over the probes: `checks` and `failed`.
pub record Ran : Type 0 where
  pub checks : Map String
  pub failed : List String

pub run_probe : String → Option (Option String) → Ran → Ran
run_probe name none ran = ran
run_probe name (some none) ran = record ran { checks = insert name "ok" ran.checks }
run_probe name (some (some e)) ran = record {
  checks = insert name e ran.checks;
  failed = ran.failed ++ name ∷ [];
}

pub run_probes : List Probe → Ran → Ran
run_probes [] ran = ran
run_probes (p ∷ ps) ran = run_probes ps (run_probe p.name p.check ran)

-- strings.Join(failed, ",")
unfoldable pub join : List String → String
join [] = ""
join (x ∷ []) = x
join (x ∷ y ∷ ys) = String.◌++◌ x (String.◌++◌ "," (join (y ∷ ys)))

pub reply_of : Ran → List String → Reply
reply_of ran [] = record { status = 200; state = "ready"; checks = some ran.checks; failed = none }
reply_of ran (x ∷ xs) = record {
  status = 503;
  state = "not_ready";
  checks = some ran.checks;
  failed = some (join (x ∷ xs));
}

unfoldable pub ready_handler_with_probes : List Probe → Reply
unfolding run_probes reply_of
ready_handler_with_probes probes =
    let ran = run_probes probes (record { checks = []; failed = [] }) in reply_of ran ran.failed

-- ===== src/Logging.antt =====
-- logging/: the options of the default logger, and what a logger made from a context adds to a line.
-- strings.ToLower is a parameter, and the environment a function, "" where a variable is not set.
use omkit_go.Prelude.{
  String, ◌≡◌, refl, ◌≢◌, List, [], ◌∷◌, ◌++◌, if◌then◌else◌, ◌==◌, Bool-cases, inl, inr, eq_iff,
  ◌||◌,
}
use omkit_go.Context.{Context, request_id_of, with_request_id}

pub data Level : Type 0 where
  debug info warn error : Level

pub data Format : Type 0 where
  text_format json_format : Format

-- The attributes of a logger, in the order in which they were added.
abbrev pub Attributes : Type 0
Attributes = List (String × String)

module _ (to_lower : String → String) (getenv : String → String) where
  unfoldable pub level_from_env : Level
  level_from_env =
      let v = to_lower (getenv "LOG_LEVEL") in
      if v == "debug"
      then debug
      else if v == "warn" || v == "warning"
      then warn
      else if v == "error"
      then error
      else info

  unfoldable pub format_from_env : Format
  format_from_env =
      let v = to_lower (getenv "LOG_FORMAT") in
      if v == "text" || v == "console" then text_format else json_format

  -- Init: the level, the format and the attributes of the default logger.
  unfoldable pub init : (service : String) → Level × Format × Attributes
  unfolding level_from_env format_from_env
  init service = (level_from_env, format_from_env, ("service", service) ∷ [])

-- FromContext over the default logger, on a context that is not nil.
unfoldable pub from_context : Attributes → Context → Attributes
from_context default ctx =
    let id = request_id_of ctx in if id == "" then default else default ++ ("request_id", id) ∷ []

-- WorkerContext; `fresh` is what uuid.NewString returns.
unfoldable pub worker_context :
    (fresh : String) → Attributes → Context → (name : String) → Context × Attributes
unfolding from_context
worker_context fresh default parent name =
    let ctx = with_request_id parent fresh in
    (ctx, from_context default ctx ++ ("worker", name) ∷ [])

-- Each tick of a worker has its own fresh id in its context and on its lines, over any id of the
-- parent.
pub worker_context-fresh :
    (fresh : String) (default : Attributes) (parent : Context) (name : String)
    → fresh ≢ ""
    → (request_id_of (worker_context fresh default parent name).0 ≡ fresh)
      × ((worker_context fresh default parent name).1
          ≡ (default ++ ("request_id", fresh) ∷ []) ++ ("worker", name) ∷ [])
unfolding worker_context with_request_id request_id_of
worker_context-fresh fresh default parent name named = elim (Bool-cases (fresh == "")) [
  | inl e ↦ absurd (named ((eq_iff fresh "").0 e))
  | inr e ↦ rw e (refl, rw e refl)
]

-- ===== src/Auth/Audit.antt =====
-- auth/audit.go: the rows of the audit log. The insert, the trace id, JSON and strings.TrimSpace are
-- parameters; of a diff, its JSON is kept.
pub mod Laws
use omkit_go.Prelude.{
  ℕ, String, Bool, true, false, Option, none, some, List, [], ◌∷◌, ◌++◌, if◌then◌else◌, ◌==◌,
}
use omkit_go.Crypto.{Bytes, eq_ℕ}
use omkit_go.Headers.{Headers, header}
use omkit_go.Middleware.Groups.{Text, is_empty, before_comma}

-- `diff` is nil, or what json.Marshal gives, `none` for an error.
pub record AuditEntry : Type 0 where
  pub role : String
  pub action : String
  pub target_kind : String
  pub target_id : String
  pub diff : Option (Option String)

-- A column that is `none` is NULL.
pub record Row : Type 0 where
  pub actor_uid : String
  pub actor_email : Option String
  pub actor_groups : Option String
  pub role : String
  pub action : String
  pub target_kind : Option String
  pub target_id : Option String
  pub diff : Option String
  pub request_id : Option String
  pub ip : Option String
  pub user_agent : Option String

unfoldable pub nullable_string : String → Option String
nullable_string v = if v == "" then none else some v

unfoldable pub nullable_header : Headers → String → Option String
unfolding nullable_string
nullable_header h name = nullable_string (header h name)

-- addr[:i] for the last ":" where it is not the first byte, else the address.
abbrev pub before_last_colon : Bytes → Option Bytes
before_last_colon [] = none
before_last_colon (x ∷ xs) =
    let rest = before_last_colon xs in
    elim rest [ some p ↦ some (x ∷ p) | none ↦ if eq_ℕ x 58 then some [] else none ]

abbrev pub is_bracket : ℕ → Bool
is_bracket b = if eq_ℕ b 91 then true else eq_ℕ b 93

abbrev pub trim_left : Bytes → Bytes
trim_left [] = []
trim_left (x ∷ xs) = let rest = trim_left xs in if is_bracket x then rest else x ∷ xs

abbrev pub trim_right : Bytes → Bytes
trim_right [] = []
trim_right (x ∷ xs) =
    let rest = trim_right xs in
    if is_empty rest then (if is_bracket x then [] else x ∷ []) else x ∷ rest

unfoldable pub host_of : Bytes → Bytes
host_of addr = elim (before_last_colon addr) [
  | none ↦ trim_right (trim_left addr)
  | some host ↦ if is_empty host then trim_right (trim_left addr) else trim_right (trim_left host)
]

unfoldable pub client_ip : Text → Headers → (remote_addr : Bytes) → String
client_ip t h remote_addr =
    let forwarded_for = header h "X-Forwarded-For" in
    if forwarded_for == ""
    then t.text (host_of remote_addr)
    else elim (before_comma (t.bytes forwarded_for)) [
      | some first ↦ t.text (t.trim_space first)
      | none ↦ t.text (t.trim_space (t.bytes forwarded_for))
    ]

unfoldable pub actor_of : Headers → String
actor_of h = let user = header h "X-Auth-Request-User" in if user == "" then "service" else user

unfoldable pub row_of :
    Text → Headers → (remote_addr : Bytes) → (trace_id : String) → AuditEntry → Option String → Row
row_of t h remote_addr trace_id e diff = record {
  actor_uid = actor_of h;
  actor_email = nullable_header h "X-Auth-Request-Email";
  actor_groups = nullable_header h "X-Auth-Request-Groups";
  role = e.role;
  action = e.action;
  target_kind = nullable_string e.target_kind;
  target_id = nullable_string e.target_id;
  diff = diff;
  request_id = nullable_string trace_id;
  ip = nullable_string (client_ip t h remote_addr);
  user_agent = nullable_header h "User-Agent";
}

-- The row that WriteAuditEntry inserts; `none` is an error before the insert. `pool` is false where
-- it is nil.
unfoldable pub write_audit_entry :
    Text
    → (pool : Bool) → Headers
    → (remote_addr : Bytes) → (trace_id : String) → AuditEntry
    → Option Row
write_audit_entry t pool h remote_addr trace_id e =
    if pool
    then (if e.action == "" then none else if e.role == "" then none else elim e.diff [
      | none ↦ some (row_of t h remote_addr trace_id e none)
      | some none ↦ none
      | some (some json) ↦ some (row_of t h remote_addr trace_id e (some json))
    ])
    else none

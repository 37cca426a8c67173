-- ===== src/Security.antt =====
-- security/events.go: the rows of security_events. The insert and JSON are parameters; of the
-- evidence its JSON is kept.
use omkit_go.Prelude.{String, Bool, Option, none, some, if◌then◌else◌, ◌==◌}

-- `evidence` is nil, or what json.Marshal gives, `none` for an error.
pub record SecurityEvent : Type 0 where
  pub tenant_id : String
  pub kind : String
  pub severity : String
  pub doc_id : Option String
  pub chunk_id : Option String
  pub evidence : Option (Option String)
  pub classifier_version : Option String
  pub request_id : Option String

-- The event with the JSON of its evidence.
pub record Row : Type 0 where
  pub event : SecurityEvent
  pub evidence : String

-- The row that WriteSecurityEvent inserts; `none` is an error before the insert.
unfoldable pub write_security_event : (pool : Bool) → SecurityEvent → Option Row
write_security_event pool e =
    if pool
    then (if e.tenant_id == ""
        then none
        else if e.kind == ""
        then none
        else if e.severity == ""
        then none
        else elim e.evidence [
          | none ↦ some (record { event = e; evidence = "{}" })
          | some none ↦ none
          | some (some json) ↦ some (record { event = e; evidence = json })
        ])
    else none

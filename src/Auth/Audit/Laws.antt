-- ===== src/Auth/Audit/Laws.antt =====
-- Which actions are written to the audit log, and as whose.
use omkit_go.Prelude.{
  String, ◌≡◌, ◌≢◌, inl, inr, ap, sym, Bool, true, false, Option, none, some, Option-cases,
  if◌then◌else◌, ◌==◌, arith, eq_iff,
}
use omkit_go.Crypto.{Bytes}
use omkit_go.Headers.{Headers, header}
use omkit_go.Middleware.Groups.{Text}
use omkit_go.Auth.Audit.{AuditEntry, Row, row_of, actor_of, write_audit_entry}

of_some : (a b : Row) → some a ≡ some b → a ≡ b
of_some a b h = ground (arith, h)

-- The row that is written is one of the request and the entry, by some diff.
written_row :
    (t : Text) (pool : Bool) (h : Headers) (addr : Bytes) (trace_id : String) (e : AuditEntry)
    (row : Row)
    → write_audit_entry t pool h addr trace_id e ≡ some row
    → (e.action ≢ "")
      × (e.role ≢ "")
      × ((diff : Option String) × (row_of t h addr trace_id e diff ≡ row))
unfolding write_audit_entry
written_row t false h addr trace_id e row w = absurd (ground (arith, w))
written_row t true h addr trace_id e row w = (
  λ q. ground (arith, w, q, eq_iff e.action ""),
  λ q. ground (arith, w, q, eq_iff e.action "", eq_iff e.role ""),
  elim (Option-cases e.diff) [
    | inl n ↦ (none, of_some _ row (ground (arith, w, n)))
    | inr (d, n) ↦ elim (Option-cases d) [
      | inl m ↦ absurd (ground (arith, w, n, m, eq_iff e.action "", eq_iff e.role ""))
      | inr (json, m) ↦ (some json, of_some _ row (ground (arith, w, n, m)))
    ]
  ],
)

-- A row is written only for an action and a role that are not "", as the action and the role of the
-- entry, by the user of the request, or by "service" where the request has no user.
pub write_audit_entry-actor :
    (t : Text) (pool : Bool) (h : Headers) (addr : Bytes) (trace_id : String) (e : AuditEntry)
    (row : Row)
    → write_audit_entry t pool h addr trace_id e ≡ some row
    → (row.action ≡ e.action)
      × (row.role ≡ e.role)
      × (e.action ≢ "")
      × (e.role ≢ "")
      × (row.actor_uid ≡ (
          if header h "X-Auth-Request-User" == ""
          then "service"
          else header h "X-Auth-Request-User"))
unfolding row_of actor_of
write_audit_entry-actor t pool h addr trace_id e row written =
    let (action, role, (diff, q)) = written_row t pool h addr trace_id e row written in
    (
      sym (ap (λ (r : Row). r.action) q),
      sym (ap (λ (r : Row). r.role) q),
      action,
      role,
      sym (ap (λ (r : Row). r.actor_uid) q),
    )

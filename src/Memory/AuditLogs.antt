-- ===== src/Memory/AuditLogs.antt =====
-- The audit-log methods of `InMemoryAdapter`: a list in the order of arrival.
use fastauth.Prelude.{
  ℕ, String, Bool, true, not, ◌&&◌, Option, none, some, List, [], ◌∷◌, ◌++◌, map, is_text, contains,
  keep, length, take, drop, ltb,
}
use fastauth.Domain.Enums.{AuditEventType, same_event}
use fastauth.Domain.Models.{AuditLog}
use fastauth.Memory.State.{Memory}
use fastauth.Memory.Cleanup.{doomed_rows}

unfoldable pub create_audit_log : AuditLog → Memory → Memory
create_audit_log row m = record m { audit_logs = m.audit_logs ++ row ∷ [] }

-- A filter that is `None` admits every row.
abbrev pub admits : Option String → Option String → Bool
admits none field = true
admits (some wanted) field = is_text field wanted

abbrev pub admits_event : Option AuditEventType → AuditEventType → Bool
admits_event none event = true
admits_event (some wanted) event = same_event event wanted

unfoldable pub list_audit_logs :
    Option String → Option AuditEventType → Option String → ℕ → ℕ → Memory → List AuditLog × ℕ
list_audit_logs user_id event_type identifier limit offset m =
    let filtered =
      keep
        (λ (row : AuditLog).
          admits user_id row.user_id
          && admits_event event_type row.event_type
          && admits identifier row.identifier)
        m.audit_logs in
    (take limit (drop offset filtered), length filtered)

unfoldable pub delete_audit_logs_before : ℕ → ℕ → Memory → ℕ × Memory
unfolding doomed_rows
delete_audit_logs_before cutoff limit m =
    let doomed =
      doomed_rows (λ row. row.id) (λ row. row.created_at) (λ row. ltb row.created_at cutoff) limit
        m.audit_logs in
    let doomed_ids = map (λ (row : AuditLog). row.id) doomed in
    (
      length doomed,
      record m { audit_logs = keep (λ row. not (contains row.id doomed_ids)) m.audit_logs },
    )

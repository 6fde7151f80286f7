-- ===== src/Audit/Writer.antt =====
-- `AuditEvent` of src/personal_assistant/core/audit/writer.py and `InMemoryAuditWriter` of
-- src/personal_assistant/infrastructure/memory/audit.py. Times are in microseconds.
use nju_personal_assistant.Base.{ℕ, String, List, [], ◌∷◌, ◌++◌}
use nju_personal_assistant.Domain.Errors.{ok}
use nju_personal_assistant.Domain.Exec.{Exec}
use nju_personal_assistant.Domain.Values.{Fields, end}
use nju_personal_assistant.Audit.Redaction.{redact_fields}

pub record AuditEvent : Type 0 where
  pub event_type : String
  pub actor : String
  pub resource_type : String
  pub resource_id : String
  pub fields : Fields
  pub occurred_at : ℕ

-- What the writer keeps of an event.
unfoldable pub safe_event : AuditEvent → AuditEvent
unfolding redact_fields
safe_event event = record event { fields = redact_fields event.fields end }

unfoldable pub append_event : AuditEvent → Exec (List AuditEvent) (Unit {0})
unfolding safe_event
append_event event events = (ok tt, events ++ safe_event event ∷ [])

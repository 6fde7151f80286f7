-- ===== src/Audit/Tests.antt =====
-- Runs of the audit code, and an example of its theorem.
use nju_personal_assistant.Base.{[], ◌≡◌, refl, All}
use nju_personal_assistant.Domain.Values.{name, text, object, Fields, end, field}
use nju_personal_assistant.Audit.Redaction.{redact}
use nju_personal_assistant.Audit.Writer.{AuditEvent, append_event}
use nju_personal_assistant.Audit.Masking.{IsSafeEvent, append_event_masked}

abbrev fields : Fields
fields =
    field (name "Token") (text "t")
      (field (name "user") (object (field (name "password") (text "p") end)) end)

abbrev event : AuditEvent
event = record {
  event_type = "task.created";
  actor = "owner";
  resource_type = "task";
  resource_id = "t";
  fields = fields;
  occurred_at = 0;
}

redact_run :
    redact (object fields)
    ≡ object (
        field
          (name "Token")
          (text "[REDACTED]")
          (field (name "user") (object (field (name "password") (text "[REDACTED]") end)) end))
unfolding redact
redact_run = refl

append_event_masked_example : All IsSafeEvent (append_event event []).1
append_event_masked_example = append_event_masked event [] tt

-- ===== src/Tools/Foreign.antt =====
-- An end of a call that is not external, which names an approval.
use nju_personal_assistant.Base.{
  ℕ, ◌+◌, String, ◌≡◌, ap, ◌∙◌, arith, Option, none, some, lookup-insert_self, string_eq, nat_eq,
}
use nju_personal_assistant.Domain.Text.{take_text}
use nju_personal_assistant.Domain.Enums.{read, executing, failed}
use nju_personal_assistant.Domain.Models.{ToolDescriptor, ToolCall, ToolOutcome}
use nju_personal_assistant.Domain.Exec.{Exec, pure, ◌>>◌}
use nju_personal_assistant.Approvals.Record.{ApprovalRecord, Repository, find, get, save}
use nju_personal_assistant.Approvals.Service.{mark_failed, finish_plan, settle, or_default}
use nju_personal_assistant.Jobs.Outbox.{Outbox, Finalization, SideEffectState}
use nju_personal_assistant.Tools.Host.{
  Host, Environment, user_action_required, on_approvals, append_event,
}
use nju_personal_assistant.Tools.Endings.{
  conclude, mark_definitive_external_failure, finalize_call, finalize_named, finalize_external,
  finalize_approval, audit_outcome,
}

abbrev pub failed_copy : ApprovalRecord → ℕ → String → ApprovalRecord
failed_copy c now reason = record c {
  state = failed;
  completed_at = some now;
  result_reference = none;
  failure_reason = some reason;
  version = c.version + 1;
}

failed_lem :
    (repo : Repository) (c : ApprovalRecord) (reason : String) (now : ℕ)
    → find c.id repo ≡ some c
    → c.state ≡ executing
    → find c.id (mark_failed c.id reason now repo).1 ≡ some (failed_copy c now reason)
unfolding mark_failed finish_plan settle get save find
failed_lem repo c reason now h e =
    ground (arith, lookup-insert_self c.id (failed_copy c now reason) repo.records)

audited_lem :
    (env : Environment) (d : ToolDescriptor) (call : ToolCall) (event message : String)
    (o : ToolOutcome) (m : Exec Host (Unit {0})) (h : Host)
    → ((m >> audit_outcome env d call event message >> pure o) h).1.approvals ≡ (m h).1.approvals
unfolding audit_outcome append_event
audited_lem env d call event message o m h = ground arith

marked_lem :
    (i : String) (f : Finalization) (now : ℕ) (h : Host)
    → (finalize_approval SideEffectState.failed i f now h).1.approvals
      ≡ (mark_failed i (or_default f.failure_reason "failed") now h.approvals).1
unfolding finalize_approval on_approvals
marked_lem i f now h = ground arith

abbrev failure_of : String → Finalization
failure_of message = record {
  state = SideEffectState.failed;
  result_reference = none;
  failure_reason = some message;
  diagnostic_code = some (take_text 200 message);
}

named_lem :
    (outbox : Option (Outbox Host)) (call : ToolCall) (message : String) (now : ℕ) (h : Host)
    (i : String)
    → call.approval_id ≡ some i
    → (mark_definitive_external_failure outbox call message none now h).1.approvals
      ≡ (mark_failed i (or_default (some message) "failed") now h.approvals).1
unfolding mark_definitive_external_failure finalize_call finalize_named finalize_external
named_lem outbox call message now h i n =
    ap (λ o. (finalize_named outbox o none (failure_of message) now h).1.approvals) n
    ∙ marked_lem i (failure_of message) now h

-- The handler of a required user action marks the approval that a call names as failed, if it is
-- executing, also where the tool is read-only and so never consumed that approval.
conclude_foreign :
    (outbox : Option (Outbox Host)) (env : Environment) (d : ToolDescriptor) (call : ToolCall)
    (sha256 : String → String) (show_timeout : ℕ → String) (message : String) (h : Host)
    (c : ApprovalRecord)
    → d.risk ≡ read
    → call.approval_id ≡ some c.id
    → find c.id h.approvals ≡ some c
    → c.state ≡ executing
    → find c.id
        (conclude outbox env d call sha256 show_timeout
          (user_action_required message)
          none
          h).1.approvals
      ≡ some (failed_copy c env.end_time (or_default (some message) "failed"))
unfolding conclude mark_definitive_external_failure finalize_call finalize_external
    finalize_approval on_approvals audit_outcome append_event
conclude_foreign outbox env d call sha256 show_timeout message h c r n f e =
    ap (find c.id) (
      audited_lem env d call "USER_ACTION_REQUIRED" message _
        (mark_definitive_external_failure outbox call message none env.end_time) h
      ∙ named_lem outbox call message env.end_time h c.id n)
    ∙ failed_lem h.approvals c (or_default (some message) "failed") env.end_time f e

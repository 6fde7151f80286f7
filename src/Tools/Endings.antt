-- ===== src/Tools/Endings.antt =====
-- How a call of `ToolGateway` of src/personal_assistant/core/tools/gateway.py ends: the handlers of
-- its `invoke` and the methods that record an end. The outbox, the digest and the printer of time
-- limits, which is Python's `:g`, are arguments. A terminal write that has begun runs to its end, so
-- a cancellation does not interrupt it.
use nju_personal_assistant.Base.{
  ℕ, String, Bool, true, [], ◌∷◌, Option, none, some, not, ◌&&◌, if◌then◌else◌,
}
use nju_personal_assistant.Domain.Enums.{code, user_action_required, extension_unavailable}
use nju_personal_assistant.Domain.Errors.{concat, cancelled_error}
use nju_personal_assistant.Domain.Exec.{Exec, pure, throw, ◌>>◌}
use nju_personal_assistant.Domain.Text.{take_text}
use nju_personal_assistant.Domain.Models.{
  ToolDescriptor, ToolCall, ToolOutcome, outcome_of, outcome_success, outcome_failed,
  outcome_unknown_at,
}
use nju_personal_assistant.Domain.Values.{Value, text, object, field, end, name}
use nju_personal_assistant.Approvals.Canonical.{dumps}
use nju_personal_assistant.Approvals.Service.{mark_succeeded, mark_failed, mark_unknown, or_default}
use nju_personal_assistant.Jobs.Outbox.{
  SideEffectState, SideEffectIntent, Finalization, Outbox, succeeded, failed, unknown,
}
use nju_personal_assistant.Tools.Policy.{is_external}
use nju_personal_assistant.Tools.Host.{
  InvocationAuditEvent, Host, Answer, Environment, returned, unknown_outcome, timed_out,
  definitive_failure, cancelled, other_error, on_approvals, append_event,
}

-- `approval_id` of the detail, and `message`.
unfoldable pub event_of :
    Environment → ToolDescriptor → ToolCall → String → ℕ → Value → InvocationAuditEvent
unfolding code
event_of env d call event_type now detail = record {
  event_type = event_type;
  attempt_id = env.attempt_id;
  task_id = call.task_id;
  tool_id = d.id;
  tool_version = d.version;
  extension_id = d.extension_id;
  risk = code d.risk;
  occurred_at = now;
  detail = detail;
}

unfoldable pub audit_outcome :
    Environment → ToolDescriptor → ToolCall → String → String → Exec Host (Unit {0})
unfolding append_event event_of take_text
audit_outcome env d call event_type message = append_event (
    event_of env d call event_type env.end_time
      (object (field (name "message") (text (take_text 500 message)) end)))

-- Without an outbox the approval is updated directly.
unfoldable pub finalize_approval :
    SideEffectState → String → Finalization → ℕ → Exec Host (Unit {0})
unfolding on_approvals or_default mark_succeeded mark_failed mark_unknown
finalize_approval succeeded i f now =
    on_approvals (mark_succeeded i (or_default f.result_reference "") now) >> pure tt
finalize_approval failed i f now =
    on_approvals (mark_failed i (or_default f.failure_reason "failed") now) >> pure tt
finalize_approval _ i f now =
    on_approvals (mark_unknown i (or_default f.result_reference "unknown") now) >> pure tt

module _ (outbox : Option (Outbox Host)) where
  unfoldable pub finalize_external :
      String → Option SideEffectIntent → Finalization → ℕ → Exec Host (Unit {0})
  unfolding finalize_approval
  finalize_external i intent f now = elim intent [
    | none ↦ finalize_approval f.state i f now
    | some s ↦ elim outbox [
      | none ↦ finalize_approval f.state i f now
      | some o ↦ o.finalize s.id i f
    ]
  ]

  -- A call without an approval has nothing to finalise.
  unfoldable pub finalize_named :
      Option String → Option SideEffectIntent → Finalization → ℕ → Exec Host (Unit {0})
  unfolding finalize_external
  finalize_named none intent f now = pure tt
  finalize_named (some i) intent f now = finalize_external i intent f now

  unfoldable pub finalize_call :
      ToolCall → Option SideEffectIntent → Finalization → ℕ → Exec Host (Unit {0})
  unfolding finalize_named
  finalize_call call intent f now = finalize_named call.approval_id intent f now

  unfoldable pub mark_unknown_external :
      ToolCall → String → Option SideEffectIntent → ℕ → Exec Host (Unit {0})
  unfolding finalize_call
  mark_unknown_external call reference_id intent now =
      finalize_call call intent
        (record {
          state = unknown;
          result_reference = some reference_id;
          failure_reason = none;
          diagnostic_code = some reference_id;
        })
        now

  unfoldable pub mark_definitive_external_failure :
      ToolCall → String → Option SideEffectIntent → ℕ → Exec Host (Unit {0})
  unfolding finalize_call take_text
  mark_definitive_external_failure call reason intent now =
      finalize_call call intent
        (record {
          state = failed;
          result_reference = none;
          failure_reason = some reason;
          diagnostic_code = some (take_text 200 reason);
        })
        now

  unfoldable pub record_success :
      ToolDescriptor → ToolCall → String → Option SideEffectIntent → ℕ → Exec Host (Unit {0})
  unfolding finalize_call
  record_success d call reference intent now =
      if is_external d.risk
      then finalize_call call intent
          (record {
            state = succeeded;
            result_reference = some reference;
            failure_reason = none;
            diagnostic_code = none;
          })
          now
      else pure tt

  module _ (env : Environment) (d : ToolDescriptor) (call : ToolCall) where
    -- `_unknown`
    unfoldable pub unknown_outcome_of :
        String → String → Option SideEffectIntent → Exec Host ToolOutcome
    unfolding mark_unknown_external audit_outcome
    unknown_outcome_of reference_id message intent =
        (if is_external d.risk
          then mark_unknown_external call reference_id intent env.end_time
          else pure tt)
        >> audit_outcome env d call "OUTCOME_UNKNOWN" message
        >> pure (outcome_unknown_at reference_id (some message))

    -- `_failed`
    unfoldable pub failed_outcome : String → Bool → Exec Host ToolOutcome
    unfolding audit_outcome
    failed_outcome message retryable =
        audit_outcome env d call "FAILED" message >> pure (outcome_failed message retryable)

    -- An exception or a timeout of an external tool leaves its outcome unknown.
    unfoldable pub ambiguous : String → String → Option SideEffectIntent → Exec Host ToolOutcome
    unfolding unknown_outcome_of failed_outcome concat
    ambiguous external_message internal_message intent =
        if is_external d.risk
        then unknown_outcome_of (concat ("unknown:" ∷ env.attempt_id ∷ [])) external_message intent
        else failed_outcome internal_message true

    module _ (sha256 : String → String) (show_timeout : ℕ → String) where
      unfoldable pub succeed : Value → Option SideEffectIntent → Exec Host ToolOutcome
      unfolding record_success audit_outcome concat
      succeed result intent =
          let reference = concat ("result:" ∷ sha256 (dumps result) ∷ []) in
          record_success d call reference intent env.end_time
          >> audit_outcome env d call "SUCCEEDED" reference
          >> pure (record (outcome_success result) { reference_id = some reference })

      -- The handlers of the executor's end; `returned` carries a result that passed its checks.
      unfoldable pub conclude : Answer → Option SideEffectIntent → Exec Host ToolOutcome
      unfolding ambiguous unknown_outcome_of failed_outcome succeed mark_unknown_external
          mark_definitive_external_failure audit_outcome concat
      conclude (returned result) intent = succeed result intent
      conclude (unknown_outcome reference_id message) intent =
          unknown_outcome_of reference_id message intent
      conclude timed_out intent =
          ambiguous "external action timed out after execution began"
            (concat ("tool timed out after " ∷ show_timeout d.timeout ∷ " seconds" ∷ [])) intent
      conclude (Answer.user_action_required message) intent =
          mark_definitive_external_failure call message intent env.end_time
          >> audit_outcome env d call "USER_ACTION_REQUIRED" message
          >> pure (record (outcome_of user_action_required) {
            message = some message;
            reference_id = some env.attempt_id;
          })
      conclude (Answer.extension_unavailable extension_id message) intent =
          mark_definitive_external_failure call message intent env.end_time
          >> audit_outcome env d call "EXTENSION_UNAVAILABLE" message
          >> pure (record (outcome_of extension_unavailable) {
            message = some message;
            extension_id = some extension_id;
            reference_id = some env.attempt_id;
          })
      conclude (definitive_failure message retryable) intent =
          mark_definitive_external_failure call message intent env.end_time
          >> failed_outcome message (retryable && not (is_external d.risk))
      conclude cancelled intent =
          (if is_external d.risk
            then mark_unknown_external call (concat ("unknown:" ∷ env.attempt_id ∷ [])) intent
                env.end_time
            else pure tt)
          >> throw (record { cls = cancelled_error; message = "" })
      conclude (other_error exception) intent =
          ambiguous "executor failed after external execution began; outcome is unknown"
            (concat ("executor error: " ∷ exception ∷ [])) intent

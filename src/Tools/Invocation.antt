-- ===== src/Tools/Invocation.antt =====
-- How often the parts of `ToolGateway.invoke` call the executor, and what they say of another try.
use nju_personal_assistant.Base.{ℕ, String, false, true, ◌⊎◌, ◌≡◌, arith, ◌∷◌, Option, none}
use nju_personal_assistant.Domain.Errors.{Result, ok}
use nju_personal_assistant.Domain.Exec.{Exec}
use nju_personal_assistant.Domain.Values.{Value}
use nju_personal_assistant.Domain.Models.{ToolDescriptor, ToolCall, ToolOutcome}
use nju_personal_assistant.Jobs.Outbox.{SideEffectIntent, Finalization, Outbox}
use nju_personal_assistant.Tools.Policy.{is_external}
use nju_personal_assistant.Tools.Host.{
  Host, Environment, Answer, on_approvals, append_event, call_executor,
}
use nju_personal_assistant.Tools.Gateway.{
  execute, after_second_check, execution_context, consume, request_approval,
}
use nju_personal_assistant.Approvals.Binding.{ApprovalBinding}
use nju_personal_assistant.Tools.Endings.{
  finalize_approval, finalize_external, mark_unknown_external, mark_definitive_external_failure,
  audit_outcome, unknown_outcome_of, failed_outcome, conclude, finalize_call, finalize_named,
  record_success, ambiguous, succeed,
}

-- A method that leaves the executor alone, wherever it starts.
abbrev pub IsQuiet {α} : {R : Type α} → Exec Host R → Type 0
IsQuiet m = (h : Host) → (m h).1.executions ≡ h.executions

pub finalize_call-IsQuiet :
    (call : ToolCall) (f : Finalization) (now : ℕ) → IsQuiet (finalize_call none call none f now)
unfolding finalize_call finalize_named finalize_external finalize_approval on_approvals
finalize_call-IsQuiet call f now h = ground arith

module _ (env : Environment) (d : ToolDescriptor) (call : ToolCall) (sha256 : String → String)
    (show_timeout : ℕ → String) where
  pub conclude-IsQuiet :
      (a : Answer) → IsQuiet (conclude none env d call sha256 show_timeout a none)
  unfolding conclude mark_unknown_external mark_definitive_external_failure audit_outcome
      unknown_outcome_of failed_outcome append_event ambiguous succeed record_success
  conclude-IsQuiet a h = ground (arith, finalize_call-IsQuiet call)

  -- An end of an external call never asks for another try.
  pub conclude-retryable :
      (outbox : Option (Outbox Host)) (a : Answer) (intent : Option SideEffectIntent) (h : Host)
      (o : ToolOutcome)
      → is_external d.risk ≡ true
      → (conclude outbox env d call sha256 show_timeout a intent h).0 ≡ ok o
      → o.retryable ≡ false
  unfolding conclude audit_outcome unknown_outcome_of failed_outcome append_event ambiguous succeed
  conclude-retryable outbox a intent h o e q = ground arith

-- What happened to the executor: nothing, or one call, whose context names the approval.
abbrev pub RanOnce : Environment → ToolCall → Host → Host → Type 0
RanOnce env call h h' =
    (h'.executions ≡ h.executions) ⊎ (h'.executions ≡ execution_context env call ∷ h.executions)

module _ (sha256 : String → String) (show_timeout : ℕ → String)
    (validate : Value → Value → Result (Unit {0})) (env : Environment) (d : ToolDescriptor)
    (call : ToolCall) where
  pub execute-RanOnce :
      (h : Host)
      → RanOnce env call h (execute sha256 show_timeout validate none env d call none h).1
  unfolding execute after_second_check append_event call_executor
  execute-RanOnce h = ground (arith, conclude-IsQuiet env d call sha256 show_timeout)

  pub consume-IsQuiet :
      (i : String) (b : ApprovalBinding)
      → IsQuiet (consume sha256 show_timeout validate none env d call i b)
  unfolding consume on_approvals
  consume-IsQuiet i b h = ground arith

  pub request_approval-IsQuiet :
      (b : ApprovalBinding)
      → IsQuiet (request_approval sha256 show_timeout validate none env d call b)
  unfolding request_approval on_approvals
  request_approval-IsQuiet b h = ground arith

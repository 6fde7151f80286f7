-- ===== src/Tools/Host.antt =====
-- What the gateway of src/personal_assistant/core/tools/gateway.py works on: the approvals, the
-- audit trail and the calls of the executor so far, both newest first; and what it is told from
-- outside in one call.
use nju_personal_assistant.Base.{ℕ, String, Bool, List, ◌∷◌, Option}
use nju_personal_assistant.Domain.Errors.{ok}
use nju_personal_assistant.Domain.Exec.{Exec}
use nju_personal_assistant.Domain.Values.{Value}
use nju_personal_assistant.Approvals.Record.{Repository}
use nju_personal_assistant.Tools.Policy.{ToolPolicy}

pub record ToolExecutionContext : Type 0 where
  pub attempt_id : String
  pub task_id : String
  pub idempotency_key : String
  pub approval_id : Option String

pub record InvocationAuditEvent : Type 0 where
  pub event_type : String
  pub attempt_id : String
  pub task_id : String
  pub tool_id : String
  pub tool_version : String
  pub extension_id : String
  pub risk : String
  pub occurred_at : ℕ
  pub detail : Value

pub record Host : Type 0 where
  pub approvals : Repository
  pub audit : List InvocationAuditEvent
  pub executions : List ToolExecutionContext

-- How the executor ends: with a value, with one of the typed outcomes, by the time limit, by a
-- cancellation, or with any other exception, of which the class's name is kept.
pub data Answer : Type 0 where
  returned : Value → Answer
  unknown_outcome : String → String → Answer
  timed_out : Answer
  user_action_required : String → Answer
  extension_unavailable : String → String → Answer
  definitive_failure : String → Bool → Answer
  cancelled : Answer
  other_error : String → Answer

-- Policy and time at each point where the gateway asks for them, the fresh identifiers, whether a
-- notifier exists and delivers, the executor's answer, and what the other users of the approvals
-- do while it runs.
pub record Environment : Type 0 where
  pub policy_before : ToolPolicy
  pub policy_after : ToolPolicy
  pub start_time : ℕ
  pub end_time : ℕ
  pub new_approval_id : String
  pub new_nonce : String
  pub intent_id : String
  pub intent_key : String
  pub attempt_id : String
  pub delivered : Option Bool
  pub answer : Answer
  pub meanwhile : Repository → Repository

unfoldable pub on_approvals {ℓ} : {R : Type ℓ} → Exec Repository R → Exec Host R
on_approvals m h = let (r, repo) = m h.approvals in (r, record h { approvals = repo })

-- `InMemoryInvocationAudit.append`
unfoldable pub append_event : InvocationAuditEvent → Exec Host (Unit {0})
append_event event h = (ok tt, record h { audit = event ∷ h.audit })

-- The executor is called, and the others go on while it runs.
unfoldable pub call_executor : ToolExecutionContext → (Repository → Repository) → Host → Host
call_executor context meanwhile h = record h {
  approvals = meanwhile h.approvals;
  executions = context ∷ h.executions;
}

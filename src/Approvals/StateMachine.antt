-- ===== src/Approvals/StateMachine.antt =====
-- src/personal_assistant/core/approvals/state_machine.py
use nju_personal_assistant.Base.{List, [], ◌∷◌, not, contains}
use nju_personal_assistant.Domain.Enums.{
  ApprovalState, draft, prepared, waiting_approval, approved, executing, succeeded, failed, unknown,
  expired, cancelled, approval_value, approval_state_eq,
}
use nju_personal_assistant.Domain.Errors.{Result, concat, invalid_state_transition, reject_if}

unfoldable pub allowed_approval_transitions : ApprovalState → List ApprovalState
allowed_approval_transitions draft = prepared ∷ cancelled ∷ []
allowed_approval_transitions prepared = waiting_approval ∷ cancelled ∷ []
allowed_approval_transitions waiting_approval = approved ∷ expired ∷ cancelled ∷ []
allowed_approval_transitions approved = executing ∷ expired ∷ cancelled ∷ []
allowed_approval_transitions executing = succeeded ∷ failed ∷ unknown ∷ []
allowed_approval_transitions _ = []

unfoldable pub ensure_approval_transition : ApprovalState → ApprovalState → Result (Unit {0})
unfolding allowed_approval_transitions
ensure_approval_transition current target =
    reject_if (not (contains target (allowed_approval_transitions current)))
      invalid_state_transition
      (concat (
        "state transition is not allowed: "
        ∷ approval_value current
        ∷ " -> "
        ∷ approval_value target
        ∷ []))

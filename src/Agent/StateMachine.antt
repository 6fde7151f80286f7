-- ===== src/Agent/StateMachine.antt =====
-- src/personal_assistant/core/agent/state_machine.py
use nju_personal_assistant.Base.{
  ℕ, ◌+◌, String, List, [], ◌∷◌, Option, none, not, contains, if◌then◌else◌,
}
use nju_personal_assistant.Domain.Enums.{
  TaskState, created, queued, running, waiting_user, waiting_approval, waiting_reconciliation,
  paused_safety, paused_extension, succeeded, failed, cancelled, task_state_eq, task_value,
}
use nju_personal_assistant.Domain.Errors.{Result, ok, raise, concat, invalid_state_transition}
use nju_personal_assistant.Domain.Models.{TaskRun}

unfoldable pub allowed : TaskState → List TaskState
allowed created = queued ∷ cancelled ∷ []
allowed queued = running ∷ cancelled ∷ []
allowed running =
    waiting_user ∷ waiting_approval ∷ waiting_reconciliation ∷ paused_safety ∷ paused_extension
    ∷ succeeded ∷ failed ∷ cancelled ∷ []
allowed waiting_user = queued ∷ cancelled ∷ []
allowed waiting_approval = queued ∷ waiting_user ∷ cancelled ∷ []
allowed waiting_reconciliation = queued ∷ waiting_user ∷ cancelled ∷ []
allowed paused_safety = queued ∷ cancelled ∷ []
allowed paused_extension = queued ∷ cancelled ∷ []
allowed _ = []

abbrev transition_error : TaskState → TaskState → String
transition_error current target =
    concat
      ("state transition is not allowed: " ∷ task_value current ∷ " -> " ∷ task_value target ∷ [])

unfoldable pub transition_run :
    TaskRun → TaskState → Option String → Option String → ℕ → Result TaskRun
unfolding allowed
transition_run run target reference reason now =
    if not (contains target (allowed run.state))
    then raise invalid_state_transition (transition_error run.state target)
    else ok (record run {
      state = target;
      waiting_reference = reference;
      pause_reason = reason;
      updated_at = now;
      version = run.version + 1;
    })

abbrev resumable : List TaskState
resumable =
    paused_safety ∷ waiting_user ∷ waiting_approval ∷ waiting_reconciliation ∷ paused_extension ∷ []

unfoldable pub resume_as_new_segment : TaskRun → ℕ → Result TaskRun
resume_as_new_segment run now =
    if not (contains run.state resumable)
    then raise invalid_state_transition (transition_error run.state queued)
    else ok (record run {
      state = queued;
      version = run.version + 1;
      segment_number = run.segment_number + 1;
      active_started_at = now;
      updated_at = now;
      consecutive_errors = 0;
      no_progress_rounds = 0;
      same_call_without_progress = 0;
      last_call_fingerprint = none;
      last_observation_fingerprint = none;
      waiting_reference = none;
      pause_reason = none;
    })

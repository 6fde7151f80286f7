-- ===== src/Agent/Segments.antt =====
-- Where a run may go, and what a new segment starts with.
use nju_personal_assistant.Base.{
  ℕ, ◌+◌, ◌≤◌, ◌<◌, String, Bool, true, false, ◌≡◌, arith, Option, none, not, ◌&&◌,
}
use nju_personal_assistant.Domain.Enums.{TaskState, queued, cancelled, task_terminal}
use nju_personal_assistant.Domain.Errors.{Result, ok, err}
use nju_personal_assistant.Domain.Models.{TaskRun, ToolCall, ToolOutcome}
use nju_personal_assistant.Agent.StateMachine.{transition_run, resume_as_new_segment}
use nju_personal_assistant.Agent.Progress.{
  FuseThresholds, check_thresholds, pause_reason, record_round, progressed,
}

abbrev pub is_ok {ℓ} : {A : Type ℓ} → Result A → Bool
is_ok (ok _) = true
is_ok (err _) = false

-- A run can be cancelled exactly when it is not in a terminal state; from a terminal state every
-- transition raises, and so does a resume.
terminal_exact :
    (run : TaskRun) (target : TaskState) (reference reason : Option String) (now : ℕ)
    → (is_ok (transition_run run cancelled reference reason now) ≡ not (task_terminal run.state))
      × ((task_terminal run.state && is_ok (transition_run run target reference reason now))
          ≡ false)
      × ((task_terminal run.state && is_ok (resume_as_new_segment run now)) ≡ false)
unfolding transition_run resume_as_new_segment task_terminal
terminal_exact run target reference reason now = (ground arith, ground arith, ground arith)

-- A resumed run is queued in the next segment, and whatever the fuse had counted, it stays quiet
-- until the active duration has passed again.
pub resume-quiet :
    (fuse : FuseThresholds) (run run' : TaskRun) (now later : ℕ)
    → check_thresholds fuse ≡ ok tt
    → resume_as_new_segment run now ≡ ok run'
    → later < now + fuse.active_duration
    → (run'.state ≡ queued)
      × (run'.segment_number ≡ run.segment_number + 1)
      × (run'.version ≡ run.version + 1)
      × (pause_reason fuse run' later ≡ none)
unfolding check_thresholds resume_as_new_segment pause_reason
resume-quiet fuse run run' now later c h t = ground arith

-- Each error and each repeated call is also a round without progress.
record IsCounted (run : TaskRun) : Type 0 where
  pub errors : run.consecutive_errors ≤ run.no_progress_rounds
  pub repeats : run.same_call_without_progress ≤ run.no_progress_rounds

module _ (sha256 : String → String) where
  -- Recording a round keeps the counts of errors and of repeated calls at most the count of rounds
  -- without progress.
  record_round-IsCounted :
      (run : TaskRun) (call : ToolCall) (outcome : ToolOutcome) (now : ℕ)
      → IsCounted run
      → IsCounted (record_round sha256 run call outcome now)
  unfolding record_round progressed
  record_round-IsCounted run call outcome now h = ground arith

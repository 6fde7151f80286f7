-- ===== src/Agent/Engine.antt =====
-- `AgentEngine` of src/personal_assistant/core/agent/engine.py, without a unit of work. What the
-- planner, the validator and the tool gateway answer in one round of the loop is a `Turn`; the
-- engine sees no more of them. The clock is read once by the fuse and once by the write.
use nju_personal_assistant.Base.{
  ℕ, String, List, [], ◌∷◌, Option, none, some, ◌==◌, Dict, string_eq, if◌then◌else◌,
}
use nju_personal_assistant.Domain.Enums.{
  TaskState, running, waiting_user, waiting_approval, waiting_reconciliation, paused_safety,
  paused_extension, succeeded, task_state_eq, task_value, ToolOutcomeKind, success,
  approval_required, user_action_required, extension_unavailable, outcome_unknown, safety_pause,
  failure,
}
use nju_personal_assistant.Domain.Errors.{Error, Result, ok, err}
use nju_personal_assistant.Domain.Exec.{Exec, pure, lift, throw, ◌>>=◌, ◌>>◌}
use nju_personal_assistant.Domain.Models.{TaskRun, ToolCall, ToolOutcome}
use nju_personal_assistant.Domain.Values.{Value, null, text}
use nju_personal_assistant.Agent.StateMachine.{transition_run}
use nju_personal_assistant.Agent.Progress.{FuseThresholds, pause_reason, record_round}
use nju_personal_assistant.Agent.Checkpoint.{
  Stores, get_run, save_run, load_checkpoint, save_checkpoint, append_observation,
}

-- The validated decision of a round, with the outcome of the call that it may make.
pub data Decision : Type 0 where
  -- composing the context, the planner or the validator raised
  raised : Error → Decision
  needs_user : Option String → Decision
  complete : Value → Decision
  call_tool : ToolCall → Result ToolOutcome → Decision

pub record Turn : Type 0 where
  pub fuse_time : ℕ
  pub write_time : ℕ
  pub decision : Decision

abbrev pub waiting_state : ToolOutcomeKind → Option TaskState
waiting_state approval_required = some waiting_approval
waiting_state user_action_required = some waiting_user
waiting_state extension_unavailable = some paused_extension
waiting_state outcome_unknown = some waiting_reconciliation
waiting_state safety_pause = some paused_safety
waiting_state success = none
waiting_state failure = none

abbrev pub outcome_value : ToolOutcomeKind → String
outcome_value success = "SUCCESS"
outcome_value approval_required = "APPROVAL_REQUIRED"
outcome_value user_action_required = "USER_ACTION_REQUIRED"
outcome_value extension_unavailable = "EXTENSION_UNAVAILABLE"
outcome_value outcome_unknown = "OUTCOME_UNKNOWN"
outcome_value safety_pause = "SAFETY_PAUSE"
outcome_value failure = "FAILED"

-- `a or b` on texts that may be `None`
abbrev pub or_else : Option String → Option String → Option String
or_else none other = other
or_else (some s) other = if s == "" then other else some s

abbrev pub or_text : Option String → String → String
or_text none d = d
or_text (some s) d = if s == "" then d else s

abbrev pub text_value : Option String → Value
text_value none = null
text_value (some s) = text s

abbrev pub state_snapshot : TaskRun → Option String → Option String → Dict String Value
state_snapshot updated reference reason =
    ("state", text (task_value updated.state))
    ∷ ("reference", text_value reference)
    ∷ ("reason", text_value reason)
    ∷ []

abbrev pub outcome_snapshot : ToolOutcome → Dict String Value
outcome_snapshot outcome =
    ("last_outcome", text (outcome_value outcome.kind))
    ∷ ("last_reference", text_value outcome.reference_id)
    ∷ []

-- `_transition`
unfoldable pub transition :
    TaskRun → TaskState → Option String → Option String → ℕ → Exec Stores TaskRun
transition run state reference reason now = do
  updated ← lift (transition_run run state reference reason now)
  save_run updated run.version
  save_checkpoint updated (state_snapshot updated reference reason)
  pure updated

module _ (sha256 : String → String) where
  -- The round goes on with a run, or the loop ends with one.
  unfoldable pub act_round : TaskRun → ToolCall → ToolOutcome → ℕ → Exec Stores TaskRun
  act_round run call outcome now = do
    append_observation (record { run_id = run.id; value = outcome.result })
    let updated = record_round sha256 run call outcome now
    save_run updated run.version
    save_checkpoint updated (outcome_snapshot outcome)
    pure updated

  after_outcome : Option TaskState → TaskRun → ToolCall → ToolOutcome → ℕ → Exec Stores TaskRun
  unfolding act_round
  after_outcome (some waiting) run call outcome now =
      transition run waiting
        (or_else outcome.approval_id (or_else outcome.reference_id outcome.extension_id))
        outcome.message now
  after_outcome none run call outcome now = act_round run call outcome now

  unfoldable pub decide : Decision → TaskRun → ℕ → Exec Stores TaskRun
  unfolding after_outcome
  decide (raised e) run now = throw e
  decide (needs_user message) run now =
      transition run waiting_user none (some (or_text message "USER_INPUT_REQUIRED")) now
  decide (complete result) run now = do
    append_observation (record { run_id = run.id; value = result })
    transition run succeeded none none now
  decide (call_tool call (err e)) run now = throw e
  decide (call_tool call (ok outcome)) run now =
      after_outcome (waiting_state outcome.kind) run call outcome now

module _ (sha256 : String → String) (fuse : FuseThresholds) where
  fused : Option String → Turn → TaskRun → Exec Stores TaskRun
  unfolding decide
  fused (some reason) turn run = transition run paused_safety none (some reason) turn.write_time
  fused none turn run = do
    snapshot ← load_checkpoint run.id
    decide sha256 turn.decision run turn.write_time

  -- One round of the `while`.
  unfoldable pub round : Turn → TaskRun → Exec Stores TaskRun
  unfolding fused
  round turn run = fused (pause_reason fuse run turn.fuse_time) turn run

  -- The loop ends where the run is no longer running. With no turn left it has not ended: `none`.
  unfoldable pub rounds : List Turn → TaskRun → Exec Stores (Option TaskRun)
  rounds [] run = if run.state == running then pure none else pure (some run)
  rounds (turn ∷ turns) run =
      let rest = round turn run >>= rounds turns in
      if run.state == running then rest else pure (some run)

  unfoldable pub run_engine : String → List Turn → Exec Stores (Option TaskRun)
  run_engine run_id turns = get_run run_id >>= rounds turns

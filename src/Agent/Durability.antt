-- ===== src/Agent/Durability.antt =====
-- However a round or the loop ends, the stores agree with what the engine did.
use nju_personal_assistant.Base.{
  ◌+◌, ◌≤◌, String, true, ◌≡◌, ◌⊎◌, Option, none, some, lookup, contains, string_eq,
}
use nju_personal_assistant.Domain.Enums.{running, task_state_eq}
use nju_personal_assistant.Domain.Errors.{Result, ok, err}
use nju_personal_assistant.Domain.Models.{TaskRun}
use nju_personal_assistant.Agent.StateMachine.{allowed}
use nju_personal_assistant.Agent.Progress.{FuseThresholds}
use nju_personal_assistant.Agent.Checkpoint.{Stores}
use nju_personal_assistant.Agent.Writes.{IsDurable}

-- The successor of a running run: one version up, still running or moved along the table.
pub record Succeeds (run run' : TaskRun) : Type 0 where
  pub same_id : run'.id ≡ run.id
  pub next_version : run'.version ≡ run.version + 1
  pub moves : (run'.state ≡ running) ⊎ (contains run'.state (allowed running) ≡ true)

-- A round that raises has written nothing; any other has stored its run and its checkpoint.
abbrev pub RoundResult : TaskRun → Stores → Result TaskRun × Stores → Type 0
RoundResult run w (err e, w') = w' ≡ w
RoundResult run w (ok run', w') = IsDurable w' run' × Succeeds run run'

module _ (sha256 : String → String) where
  module _ (fuse : FuseThresholds) where
    -- How the loop ended, against the run that is stored at the end.
    abbrev pub Ended : Result (Option TaskRun) → TaskRun → Type 0
    Ended (err e) last = last.state ≡ running
    Ended (ok none) last = last.state ≡ running
    Ended (ok (some run)) last = run ≡ last

    abbrev Kept : TaskRun → Result (Option TaskRun) × Stores → Type 0
    Kept run (result, w) =
        (last : TaskRun) × (lookup run.id w.runs ≡ some last)
        × (run.version ≤ last.version)
        × Ended result last

-- ===== src/Agent/Tests.antt =====
-- The engine at concrete inputs.
use nju_personal_assistant.Base.{
  ℕ, ◌+◌, String, false, ◌≡◌, refl, arith, List, [], ◌∷◌, none, some, lookup, string_eq, All,
}
use nju_personal_assistant.Domain.Enums.{running, queued, paused_safety}
use nju_personal_assistant.Domain.Errors.{ok}
use nju_personal_assistant.Domain.Models.{TaskRun, ToolCall, outcome_failed}
use nju_personal_assistant.Domain.Values.{null, text}
use nju_personal_assistant.Agent.StateMachine.{resume_as_new_segment}
use nju_personal_assistant.Agent.Progress.{
  default_thresholds, check_thresholds, pause_reason, progressed,
}
use nju_personal_assistant.Agent.Checkpoint.{Stores}
use nju_personal_assistant.Agent.Engine.{Turn, complete, call_tool, run_engine}
use nju_personal_assistant.Agent.Writes.{IsDurable}
use nju_personal_assistant.Agent.Rounds.{Stalls}
use nju_personal_assistant.Agent.Stalls.{stalled_run_pauses}
use nju_personal_assistant.Agent.Segments.{resume-quiet}

abbrev digest : String → String
digest s = s

abbrev run : TaskRun
run = record {
  id = "r1";
  task_id = "t1";
  objective = "fill the form";
  state = running;
  version = 3;
  segment_number = 1;
  active_started_at = 0;
  updated_at = 0;
  consecutive_errors = 0;
  no_progress_rounds = 6;
  same_call_without_progress = 0;
  last_call_fingerprint = none;
  last_observation_fingerprint = none;
  waiting_reference = none;
  pause_reason = none;
}

abbrev stores : Stores
stores = record { runs = ("r1", run) ∷ []; snapshots = []; observations = [] }

abbrev call : ToolCall
call = record {
  tool_id = "knowledge.search";
  tool_version = "1";
  arguments = null;
  task_id = "t1";
  target = null;
  attachments = [];
  granted_capabilities = [];
  workflow_allowed_tools = [];
  approval_id = none;
  idempotency_key = none;
  form_version = none;
}

-- A tool call that fails.
abbrev failing : ℕ → Turn
failing t = record {
  fuse_time = t;
  write_time = t;
  decision = call_tool call (ok (outcome_failed "no" false));
}

abbrev turns : List Turn
turns = failing 1 ∷ failing 2 ∷ failing 3 ∷ []

holds : lookup "r1" stores.runs ≡ some run
unfolding lookup
holds = refl

all_stall : All (Stalls digest default_thresholds none) turns
unfolding progressed
all_stall = (refl, (refl, (refl, tt)))

stalled_run_pauses_example :
    (run' : TaskRun) × (w' : Stores) × (run_engine digest default_thresholds "r1" turns stores
      ≡ (ok (some run'), w'))
    × (run'.state ≡ paused_safety)
    × IsDurable w' run'
stalled_run_pauses_example =
    stalled_run_pauses digest default_thresholds turns run stores holds refl (omega arith) all_stall

-- One failing call, and the model completes the task.
abbrev finishing : List Turn
finishing =
    failing 1 ∷ record { fuse_time = 2; write_time = 2; decision = complete (text "done") } ∷ []

abbrev paused : TaskRun
paused = record run { state = paused_safety; no_progress_rounds = 8 }

abbrev resumed : TaskRun
resumed = record paused {
  state = queued;
  version = 4;
  segment_number = 2;
  active_started_at = 50;
  updated_at = 50;
  no_progress_rounds = 0;
}

resume-quiet_example :
    (resumed.state ≡ queued)
    × (resumed.segment_number ≡ paused.segment_number + 1)
    × (resumed.version ≡ paused.version + 1)
    × (pause_reason default_thresholds resumed 60 ≡ none)
unfolding check_thresholds resume_as_new_segment
resume-quiet_example = resume-quiet default_thresholds paused resumed 50 60 refl refl (omega arith)

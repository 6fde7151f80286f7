-- ===== src/Agent/Writes.antt =====
-- What one write of the engine leaves in the stores.
use nju_personal_assistant.Base.{
  ℕ, ◌+◌, String, true, ◌≡◌, refl, arith, [], ◌∷◌, ◌++◌, Option, some, Dict, lookup, insert,
  lookup-insert_self, contains, string_eq,
}
use nju_personal_assistant.Domain.Enums.{TaskState, task_state_eq}
use nju_personal_assistant.Domain.Errors.{ok}
use nju_personal_assistant.Domain.Models.{TaskRun, ToolCall, ToolOutcome}
use nju_personal_assistant.Domain.Values.{Value, integer, pos}
use nju_personal_assistant.Agent.StateMachine.{allowed, transition_run}
use nju_personal_assistant.Agent.Progress.{record_round}
use nju_personal_assistant.Agent.Checkpoint.{
  Observation, Stores, save_run, save_checkpoint, append_observation,
}
use nju_personal_assistant.Agent.Engine.{transition, state_snapshot, outcome_snapshot, act_round}

abbrev pub Holds : Stores → TaskRun → Type 0
Holds w run = lookup run.id w.runs ≡ some run

-- The run that a transition writes.
abbrev pub moved : TaskRun → TaskState → Option String → Option String → ℕ → TaskRun
moved run target reference reason now = record run {
  state = target;
  waiting_reference = reference;
  pause_reason = reason;
  updated_at = now;
  version = run.version + 1;
}

-- The run is stored, and its checkpoint carries its version.
pub record IsDurable (w : Stores) (run : TaskRun) : Type 0 where
  pub stored : lookup run.id w.runs ≡ some run
  pub snapshot : Dict String Value
  pub saved : lookup run.id w.snapshots ≡ some snapshot
  pub versioned : lookup "run_version" snapshot ≡ some (integer (pos run.version))

-- A write of the successor of the stored run is accepted, with its checkpoint.
abbrev pub wrote : TaskRun → Dict String Value → Stores → Stores
wrote run snapshot w = record w {
  runs = insert run.id run w.runs;
  snapshots = insert run.id (insert "run_version" (integer (pos run.version)) snapshot) w.snapshots;
}

pub wrote-IsDurable :
    (run : TaskRun) (snapshot : Dict String Value) (w : Stores)
    → IsDurable (wrote run snapshot w) run
wrote-IsDurable run snapshot w = record {
  stored = lookup-insert_self run.id run w.runs;
  snapshot = insert "run_version" (integer (pos run.version)) snapshot;
  saved = lookup-insert_self run.id _ w.snapshots;
  versioned = lookup-insert_self "run_version" _ snapshot;
}

pub save_run_lem :
    (run new : TaskRun) (w : Stores)
    → Holds w run
    → new.id ≡ run.id
    → new.version ≡ run.version + 1
    → save_run new run.version w ≡ (ok tt, record w { runs = insert new.id new w.runs })
unfolding save_run
save_run_lem run new w h same next = ground arith

-- A transition of the stored run along the table is written.
pub transition_lem :
    (run : TaskRun) (target : TaskState) (reference reason : Option String) (now : ℕ) (w : Stores)
    → Holds w run
    → contains target (allowed run.state) ≡ true
    → (w' : Stores) × (transition run target reference reason now w
        ≡ (ok (moved run target reference reason now), w'))
      × IsDurable w' (moved run target reference reason now)
unfolding transition transition_run save_checkpoint
transition_lem run target reference reason now w h a =
    let new = moved run target reference reason now in
    let snapshot = state_snapshot new reference reason in
    (
      wrote new snapshot w,
      rw (a, save_run_lem run new w h refl refl),
      wrote-IsDurable new snapshot w,
    )

module _ (sha256 : String → String) where
  -- The round of a tool call that goes on appends the observation and writes the counted run.
  pub act_round_lem :
      (run : TaskRun) (call : ToolCall) (outcome : ToolOutcome) (now : ℕ) (w : Stores)
      → Holds w run
      → (w' : Stores) × (act_round sha256 run call outcome now w
          ≡ (ok (record_round sha256 run call outcome now), w'))
        × IsDurable w' (record_round sha256 run call outcome now)
  unfolding act_round append_observation save_checkpoint
  act_round_lem run call outcome now w h =
      let new = record_round sha256 run call outcome now in
      let item : Observation = record { run_id = run.id; value = outcome.result } in
      let seen = record w { observations = w.observations ++ item ∷ [] } in
      (
        wrote new (outcome_snapshot outcome) seen,
        unfold record_round in rw (save_run_lem run new seen h refl refl),
        wrote-IsDurable new (outcome_snapshot outcome) seen,
      )

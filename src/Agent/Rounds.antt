-- ===== src/Agent/Rounds.antt =====
-- One round of the loop, and how the fuse ends a run that makes no progress.
use nju_personal_assistant.Base.{
  ℕ, ◌+◌, ◌<◌, String, Bool, true, false, ◌≡◌, inl, inr, arith, List, [], ◌∷◌, Option, none, some,
  not, string_eq, Option-cases, ◌==◌,
}
use nju_personal_assistant.Domain.Enums.{running, paused_safety, task_state_eq}
use nju_personal_assistant.Domain.Errors.{Error, ok, err}
use nju_personal_assistant.Domain.Models.{TaskRun, ToolCall, ToolOutcome}
use nju_personal_assistant.Agent.StateMachine.{allowed}
use nju_personal_assistant.Agent.Progress.{FuseThresholds, pause_reason, record_round, progressed}
use nju_personal_assistant.Agent.Checkpoint.{Stores, load_checkpoint}
use nju_personal_assistant.Agent.Engine.{
  Decision, raised, needs_user, complete, call_tool, Turn, waiting_state, decide, round, rounds,
}
use nju_personal_assistant.Agent.Writes.{Holds, moved, IsDurable, transition_lem, act_round_lem}

module _ (sha256 : String → String) (fuse : FuseThresholds) where
  -- A tool call that neither waits nor makes progress over the last observation.
  abbrev pub stalling_call : Option String → Decision → Bool
  stalling_call last (call_tool call (ok outcome)) = elim (waiting_state outcome.kind) [
    | none ↦ not (progressed sha256 last outcome)
    | some _ ↦ false
  ]
  stalling_call last _ = false

  abbrev pub Stalls : Option String → Turn → Type 0
  Stalls last turn = stalling_call last turn.decision ≡ true

  abbrev pub Stalled : TaskRun → TaskRun → Type 0
  Stalled run run' =
      (run'.state ≡ run.state)
      × (run'.no_progress_rounds ≡ run.no_progress_rounds + 1)
      × (run'.last_observation_fingerprint ≡ run.last_observation_fingerprint)

  record_round-Stalled :
      (run : TaskRun) (call : ToolCall) (outcome : ToolOutcome) (now : ℕ)
      → progressed sha256 run.last_observation_fingerprint outcome ≡ false
      → Stalled run (record_round sha256 run call outcome now)
  unfolding record_round
  record_round-Stalled run call outcome now p = ground arith

  decide-Stalled :
      (d : Decision) (run : TaskRun) (now : ℕ) (w : Stores)
      → Holds w run
      → stalling_call run.last_observation_fingerprint d ≡ true
      → (run' : TaskRun) × (w' : Stores) × (decide sha256 d run now w ≡ (ok run', w'))
        × Holds w' run'
        × Stalled run run'
  unfolding decide
  decide-Stalled (call_tool call (ok outcome)) run now w h s =
      elim (Option-cases (waiting_state outcome.kind)) [
        | inl goes_on ↦
            let (w', done, durable) = act_round_lem sha256 run call outcome now w h in
            (
              record_round sha256 run call outcome now,
              w',
              rw goes_on done,
              durable.stored,
              record_round-Stalled run call outcome now (ground arith),
            )
        | inr (state, waits) ↦ absurd (ground arith)
      ]
  decide-Stalled (call_tool call (err e)) run now w h s = absurd (cc)
  decide-Stalled (raised e) run now w h s = absurd (cc)
  decide-Stalled (needs_user m) run now w h s = absurd (cc)
  decide-Stalled (complete v) run now w h s = absurd (cc)

  pub stall_round :
      (turn : Turn) (run : TaskRun) (w : Stores)
      → Holds w run
      → pause_reason fuse run turn.fuse_time ≡ none
      → Stalls run.last_observation_fingerprint turn
      → (run' : TaskRun) × (w' : Stores) × (round sha256 fuse turn run w ≡ (ok run', w'))
        × Holds w' run'
        × Stalled run run'
  unfolding round load_checkpoint
  stall_round turn run w h quiet s =
      let (run', w', done, h', counted) = decide-Stalled turn.decision run turn.write_time w h s in
      (run', w', rw quiet done, h', counted)

  pub fuse_round :
      (turn : Turn) (run : TaskRun) (reason : String) (w : Stores)
      → Holds w run
      → run.state ≡ running
      → pause_reason fuse run turn.fuse_time ≡ some reason
      → (w' : Stores) × (round sha256 fuse turn run w
          ≡ (ok (moved run paused_safety none (some reason) turn.write_time), w'))
        × IsDurable w' (moved run paused_safety none (some reason) turn.write_time)
  unfolding round
  fuse_round turn run reason w h st trips =
      let (w', done, durable) =
        transition_lem run paused_safety none (some reason) turn.write_time w h
          (unfold allowed in rw st) in
      (w', rw trips done, durable)

  -- The loop ends at a run that is not running.
  pub rounds_stopped :
      (turns : List Turn) (run : TaskRun) (w : Stores)
      → (run.state == running) ≡ false
      → rounds sha256 fuse turns run w ≡ (ok (some run), w)
  unfolding rounds
  rounds_stopped [] run w h = rw h
  rounds_stopped (turn ∷ turns) run w h = rw h

  pub rounds_step :
      (turn : Turn) (turns : List Turn) (run run' : TaskRun) (w w' : Stores)
      → (run.state == running) ≡ true
      → round sha256 fuse turn run w ≡ (ok run', w')
      → rounds sha256 fuse (turn ∷ turns) run w ≡ rounds sha256 fuse turns run' w'
  unfolding rounds
  rounds_step turn turns run run' w w' st done = rw (st, done)

  pub rounds_raise :
      (turn : Turn) (turns : List Turn) (run : TaskRun) (w w' : Stores) (e : Error)
      → (run.state == running) ≡ true
      → round sha256 fuse turn run w ≡ (err e, w')
      → rounds sha256 fuse (turn ∷ turns) run w ≡ (err e, w')
  unfolding rounds
  rounds_raise turn turns run w w' e st done = rw (st, done)

  pub is_running : (run : TaskRun) → run.state ≡ running → (run.state == running) ≡ true
  is_running run st = (task_state_eq.equal_iff run.state running).1 st

  -- Not tripped, the count of rounds without progress is below its threshold.
  pub quiet_below :
      (run : TaskRun) (now : ℕ)
      → pause_reason fuse run now ≡ none
      → run.no_progress_rounds < fuse.no_progress_rounds
  unfolding pause_reason
  quiet_below run now h = ground arith

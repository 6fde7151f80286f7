-- ===== src/Agent/Stalls.antt =====
-- A run that makes no progress is paused by the fuse, whatever else its tools answer.
use nju_personal_assistant.Base.{
  ◌-◌, ◌<◌, String, ◌≡◌, inl, inr, refl, ◌∙◌, arith, List, [], ◌∷◌, Option, none, some,
  Option-cases, All, length, string_eq,
}
use nju_personal_assistant.Domain.Enums.{running, paused_safety}
use nju_personal_assistant.Domain.Errors.{ok}
use nju_personal_assistant.Domain.Models.{TaskRun}
use nju_personal_assistant.Agent.Progress.{FuseThresholds, pause_reason}
use nju_personal_assistant.Agent.Checkpoint.{Stores, get_run}
use nju_personal_assistant.Agent.Engine.{Turn, rounds, run_engine}
use nju_personal_assistant.Agent.Writes.{Holds, moved, IsDurable}
use nju_personal_assistant.Agent.Rounds.{
  Stalls, stall_round, fuse_round, rounds_stopped, rounds_step, is_running, quiet_below,
}

module _ (sha256 : String → String) (fuse : FuseThresholds) where
  stalled_from :
      (last : Option String) (turns : List Turn) (run : TaskRun) (w : Stores)
      → run.last_observation_fingerprint ≡ last
      → run.state ≡ running
      → Holds w run
      → fuse.no_progress_rounds - run.no_progress_rounds < length turns
      → All (Stalls sha256 fuse last) turns
      → (run' : TaskRun) × (w' : Stores) × (rounds sha256 fuse turns run w ≡ (ok (some run'), w'))
        × (run'.state ≡ paused_safety)
        × IsDurable w' run'
  stalled_from last [] run w same st h enough stall = absurd (omega arith)
  stalled_from last (turn ∷ turns) run w same st h enough (now_stalls, later_stall) =
      elim (Option-cases (pause_reason fuse run turn.fuse_time)) [
        | inl quiet ↦
            let (run₁, w₁, done, h₁, counted) =
              stall_round sha256 fuse turn run w h quiet (rw same now_stalls) in
            let (run', w', ended, paused, durable) =
              stalled_from last turns run₁ w₁ (counted.2 ∙ same) (counted.0 ∙ st) h₁
                (omega (arith, counted.1, quiet_below sha256 fuse run turn.fuse_time quiet))
                later_stall in
            (
              run',
              w',
              rounds_step sha256 fuse turn turns run run₁ w w₁ (is_running sha256 fuse run st) done
                  ∙ ended,
              paused,
              durable,
            )
        | inr (reason, trips) ↦
            let (w₁, done, durable) = fuse_round sha256 fuse turn run reason w h st trips in
            let paused = moved run paused_safety none (some reason) turn.write_time in
            (
              paused,
              w₁,
              rounds_step sha256 fuse turn turns run paused w w₁ (is_running sha256 fuse run st)
                    done
                  ∙ rounds_stopped sha256 fuse turns paused w₁ refl,
              refl,
              durable,
            )
      ]

  -- A stored running run whose coming turns are tool calls that neither wait nor make progress is
  -- paused for safety, and stored so with its checkpoint, as soon as there is one turn more than the
  -- rounds without progress that the fuse still allows.
  pub stalled_run_pauses :
      (turns : List Turn) (run : TaskRun) (w : Stores)
      → Holds w run
      → run.state ≡ running
      → fuse.no_progress_rounds - run.no_progress_rounds < length turns
      → All (Stalls sha256 fuse run.last_observation_fingerprint) turns
      → (run' : TaskRun) × (w' : Stores) × (run_engine sha256 fuse run.id turns w
          ≡ (ok (some run'), w'))
        × (run'.state ≡ paused_safety)
        × IsDurable w' run'
  unfolding run_engine get_run
  stalled_run_pauses turns run w h st enough stall =
      let (run', w', ended, paused, durable) =
        stalled_from run.last_observation_fingerprint turns run w refl st h enough stall in
      (run', w', rw h ended, paused, durable)

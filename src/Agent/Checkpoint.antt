-- ===== src/Agent/Checkpoint.antt =====
-- src/personal_assistant/core/agent/checkpoint.py: the three in-memory stores, as one state.
use nju_personal_assistant.Base.{
  ℕ, String, List, [], ◌∷◌, ◌++◌, Option, none, some, Dict, lookup, insert, not, leb, ◌==◌, nat_eq,
  string_eq, ◌||◌, if◌then◌else◌,
}
use nju_personal_assistant.Domain.Errors.{
  ok, raise, concat, key_error, value_error, concurrent_modification,
}
use nju_personal_assistant.Domain.Exec.{Exec}
use nju_personal_assistant.Domain.Models.{TaskRun}
use nju_personal_assistant.Domain.Values.{Value, pos, integer}
use nju_personal_assistant.Approvals.Canonical.{decimal}

pub record Observation : Type 0 where
  pub run_id : String
  pub value : Value

pub record Stores : Type 0 where
  pub runs : Dict String TaskRun
  pub snapshots : Dict String (Dict String Value)
  pub observations : List Observation

add_at : Option TaskRun → TaskRun → Exec Stores (Unit {0})
add_at (some _) run w = (raise value_error (concat ("run already exists: " ∷ run.id ∷ [])), w)
add_at none run w = (ok tt, record w { runs = insert run.id run w.runs })

unfoldable pub add_run : TaskRun → Exec Stores (Unit {0})
unfolding add_at
add_run run w = add_at (lookup run.id w.runs) run w

run_at : String → Option TaskRun → Exec Stores TaskRun
run_at run_id none w = (raise key_error (concat ("unknown run: " ∷ run_id ∷ [])), w)
run_at run_id (some run) w = (ok run, w)

unfoldable pub get_run : String → Exec Stores TaskRun
unfolding run_at
get_run run_id w = run_at run_id (lookup run_id w.runs) w

save_at : Option TaskRun → TaskRun → ℕ → Exec Stores (Unit {0})
save_at none run expected w = (raise key_error run.id, w)
save_at (some current) run expected w =
    if not (current.version == expected) || leb run.version expected
    then (
      raise concurrent_modification (
          concat (
            "run version changed: expected "
            ∷ decimal expected
            ∷ ", got "
            ∷ decimal current.version
            ∷ [])),
      w,
    )
    else (ok tt, record w { runs = insert run.id run w.runs })

unfoldable pub save_run : TaskRun → ℕ → Exec Stores (Unit {0})
unfolding save_at
save_run run expected w = save_at (lookup run.id w.runs) run expected w

snapshot_or_empty : Option (Dict String Value) → Dict String Value
snapshot_or_empty none = []
snapshot_or_empty (some snapshot) = snapshot

unfoldable pub load_checkpoint : String → Exec Stores (Dict String Value)
unfolding snapshot_or_empty
load_checkpoint run_id w = (ok (snapshot_or_empty (lookup run_id w.snapshots)), w)

unfoldable pub save_checkpoint : TaskRun → Dict String Value → Exec Stores (Unit {0})
save_checkpoint run snapshot w = (
  ok tt,
  record w {
    snapshots =
        insert run.id (insert "run_version" (integer (pos run.version)) snapshot) w.snapshots;
  },
)

unfoldable pub append_observation : Observation → Exec Stores (Unit {0})
append_observation item w = (ok tt, record w { observations = w.observations ++ item ∷ [] })

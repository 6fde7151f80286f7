-- ===== src/Tasks/Promises.antt =====
-- What the task service promises after any sequence of calls.
use nju_personal_assistant.Base.{
  ℕ, ◌≤◌, String, true, List, some, lookup, drop, ◌≡◌, arith, string_eq, nat_eq,
}
use nju_personal_assistant.Domain.Enums.{TaskState, task_terminal}
use nju_personal_assistant.Domain.Errors.{Result, ok}
use nju_personal_assistant.Tasks.Repository.{Task, Repository}
use nju_personal_assistant.Tasks.Events.{after, after-drop}
use nju_personal_assistant.Tasks.Integrity.{IsSound}
use nju_personal_assistant.Tasks.Service.{Command, run, fresh_world}
use nju_personal_assistant.Tasks.History.{whole, IsWhole}
use nju_personal_assistant.Tasks.Steps.{run-Follows, fresh_world-IsWhole}

pub run-IsWhole : (commands : List Command) → IsWhole (run commands fresh_world)
run-IsWhole commands =
    whole fresh_world (run commands fresh_world)
      (run-Follows commands fresh_world fresh_world-IsWhole)

-- A task that is stored in a terminal state after some calls is stored after any further calls too, in
-- the same state and with the same objective, at a version no lower.
pub run_settled :
    (commands more : List Command) (i : String) (t : Task)
    → lookup i (run commands fresh_world).repository.tasks ≡ some t
    → task_terminal t.state ≡ true
    → (t' : Task) × (lookup i (run more (run commands fresh_world)).repository.tasks ≡ some t')
      × (t'.state ≡ t.state)
      × (t'.objective ≡ t.objective)
      × (t.version ≤ t'.version)
run_settled commands more i t h terminal =
    let (kept, _) = run-Follows more (run commands fresh_world) (run-IsWhole commands) in
    let (t', h', n) = kept.1 i t h in (t', h', n.settled terminal, n.objective, n.version)

-- After any calls, the events after number `n` are all but the first `n`.
pub run-after :
    (commands : List Command) (n : ℕ)
    → after n (run commands fresh_world).events ≡ drop n (run commands fresh_world).events
run-after commands n =
    after-drop n 0 n (run commands fresh_world).events (omega arith) (run-IsWhole commands).numbered

module _ (r : Repository) (s : IsSound r) where
  -- The task that is returned is stored, and cancelled.
  abbrev Cancels : String → Result Task × Repository → Type 0
  Cancels i p =
      (t : Task) → p.0 ≡ ok t → (t.state ≡ TaskState.cancelled) × (lookup i p.1.tasks ≡ some t)

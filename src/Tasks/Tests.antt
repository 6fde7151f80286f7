-- ===== src/Tasks/Tests.antt =====
-- Runs of the task service, and examples of its theorems.
use nju_personal_assistant.Base.{
  ◌≤◌, true, List, [], ◌∷◌, some, lookup, insert, drop, ◌≡◌, refl, string_eq, pair_eq, list_eq,
}
use nju_personal_assistant.Domain.Enums.{TaskState, running, task_terminal, task_state_eq}
use nju_personal_assistant.Domain.Errors.{Error, ok, err, not_found, is_domain_error}
use nju_personal_assistant.Tasks.Repository.{Task}
use nju_personal_assistant.Tasks.Events.{after}
use nju_personal_assistant.Tasks.Service.{
  Moments, Command, create_call, message_call, project_call, cancel_call, run, fresh_world,
  create_task, send_message,
}
use nju_personal_assistant.Tasks.Promises.{run_settled, run-after}
use nju_personal_assistant.Tasks.Answers.{run-send_message}
use nju_personal_assistant.Tasks.Replay.{create_task_twice}

abbrev at : Moments
at = record { created_at = 1; enqueued_at = 2; published_at = 3; audited_at = 4 }

-- A task is created, spoken to and cancelled.
abbrev commands : List Command
commands =
    create_call "1" "2" " Write " "k" "owner" at
    ∷ message_call "3" "task_1" "hello" 1 "owner" "m" 5 6
    ∷ cancel_call "task_1" 2 "owner" "c" 7 8
    ∷ []

abbrev more : List Command
more =
    project_call "task_1" running 9
    ∷ message_call "4" "task_1" "still there" 3 "owner" "n" 10 11
    ∷ []

abbrev ended : Task
ended = record {
  id = "task_1";
  objective = "Write";
  state = TaskState.cancelled;
  version = 3;
  created_at = 1;
}

is_stored : lookup "task_1" (run commands fresh_world).repository.tasks ≡ some ended
unfolding run lookup insert
is_stored = refl

is_terminal : task_terminal ended.state ≡ true
unfolding task_terminal
is_terminal = refl

run_settled_example :
    (t' : Task) × (lookup "task_1" (run more (run commands fresh_world)).repository.tasks ≡ some t')
    × (t'.state ≡ TaskState.cancelled)
    × (t'.objective ≡ "Write")
    × (3 ≤ t'.version)
run_settled_example = run_settled commands more "task_1" ended is_stored is_terminal

run-after_example :
    after 1 (run commands fresh_world).events ≡ drop 1 (run commands fresh_world).events
run-after_example = run-after commands 1

abbrev unknown : Error
unknown = record { cls = not_found; message = "task not found: task_9" }

unknown_task :
    (send_message "5" "task_9" "hello" 1 "owner" "x" 12 13 (run commands fresh_world)).0
    ≡ err unknown
unfolding send_message run lookup insert
unknown_task = refl

run-send_message_example : is_domain_error not_found ≡ true
run-send_message_example =
    run-send_message commands "5" "task_9" "hello" 1 "owner" "x" 12 13 unknown unknown_task

abbrev second : Task
second = record {
  id = "task_6";
  objective = "Read";
  state = TaskState.queued;
  version = 1;
  created_at = 1;
}

is_created : (create_task "6" "7" "Read" "r" "owner" at (run commands fresh_world)).0 ≡ ok second
unfolding create_task run lookup insert
is_created = refl

create_task_twice_example :
    create_task "8" "9" "Read" "r" "cli" at
      (create_task "6" "7" "Read" "r" "owner" at (run commands fresh_world)).1
    ≡ (ok second, (create_task "6" "7" "Read" "r" "owner" at (run commands fresh_world)).1)
create_task_twice_example =
    create_task_twice commands "6" "7" "8" "9" "Read" "r" "owner" "cli" at at second is_created

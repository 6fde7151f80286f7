-- ===== src/Tasks/Repository.antt =====
-- `Task` of src/personal_assistant/domain/models.py, `TaskMessage` of
-- src/personal_assistant/core/tasks/service.py and `InMemoryTaskRepository` of
-- src/personal_assistant/infrastructure/memory/tasks.py. Each method holds the lock, so a call is one
-- step. Times are in microseconds.
use nju_personal_assistant.Base.{
  ℕ, ◌+◌, String, List, [], ◌∷◌, ◌++◌, Option, none, some, Dict, lookup, insert, not, leb, ◌==◌,
  ◌||◌, nat_eq, string_eq, if◌then◌else◌,
}
use nju_personal_assistant.Domain.Enums.{TaskState, task_terminal}
use nju_personal_assistant.Domain.Errors.{
  Result, ok, raise, bind, concat, reject_if, validation_error, concurrent_modification,
  already_exists, not_found, key_error, runtime_error,
}
use nju_personal_assistant.Domain.Exec.{Exec}
use nju_personal_assistant.Domain.Text.{is_blank}
use nju_personal_assistant.Approvals.Canonical.{decimal}

pub record Task : Type 0 where
  pub id : String
  pub objective : String
  pub state : TaskState
  pub version : ℕ
  pub created_at : ℕ

-- `Task.__post_init__`
unfoldable pub check_task : Task → Result (Unit {0})
unfolding is_blank
check_task t =
    reject_if (t.id == "" || is_blank t.objective) validation_error
      "task id and objective are required"

pub record TaskMessage : Type 0 where
  pub id : String
  pub task_id : String
  pub actor : String
  pub content : String
  pub created_at : ℕ

-- What a message command did: the task, the message and the content it was given.
pub record MessageCommand : Type 0 where
  pub task_id : String
  pub message_id : String
  pub content : String

pub record Repository : Type 0 where
  pub tasks : Dict String Task
  pub sent : Dict String (List TaskMessage)
  -- An idempotency key of `create`: the task and its objective
  pub idempotency : Dict String (String × String)
  pub message_commands : Dict String MessageCommand
  pub cancel_commands : Dict String String

-- self._tasks[i]
unfoldable pub stored : Option Task → Exec Repository Task
stored none r = (raise key_error "", r)
stored (some t) r = (ok t, r)

unfoldable pub create_new : Option Task → Task → String → Exec Repository Task
unfolding concat
create_new (some _) task key r =
    (raise already_exists (concat ("task already exists: " ∷ task.id ∷ [])), r)
create_new none task key r = (
  ok task,
  record r {
    tasks = insert task.id task r.tasks;
    sent = insert task.id [] r.sent;
    idempotency = insert key (task.id, task.objective) r.idempotency;
  },
)

unfoldable pub create_at : Option (String × String) → Task → String → Exec Repository Task
unfolding stored create_new
create_at none task key r = create_new (lookup task.id r.tasks) task key r
create_at (some (existing, objective)) task key r =
    if not (objective == task.objective)
    then (
      raise concurrent_modification "idempotency key was reused with a different task objective",
      r,
    )
    else stored (lookup existing r.tasks) r

unfoldable pub create : Task → String → Exec Repository Task
unfolding create_at
create task key r = create_at (lookup key r.idempotency) task key r

unfoldable pub found : String → Option Task → Exec Repository Task
unfolding concat
found task_id none r = (raise not_found (concat ("task not found: " ∷ task_id ∷ [])), r)
found task_id (some t) r = (ok t, r)

unfoldable pub get : String → Exec Repository Task
unfolding found
get task_id r = found task_id (lookup task_id r.tasks) r

unfoldable pub save_over : Option Task → Task → ℕ → Exec Repository Task
unfolding concat
save_over none task expected r = (raise not_found (concat ("task not found: " ∷ task.id ∷ [])), r)
save_over (some current) task expected r =
    if not (current.version == expected) || leb task.version expected
    then (
      raise concurrent_modification (
          concat (
            "task "
            ∷ task.id
            ∷ " expected version "
            ∷ decimal expected
            ∷ ", found "
            ∷ decimal current.version
            ∷ [])),
      r,
    )
    else (ok task, record r { tasks = insert task.id task r.tasks })

unfoldable pub save : Task → ℕ → Exec Repository Task
unfolding save_over
save task expected r = save_over (lookup task.id r.tasks) task expected r

-- `next(item for item in messages if item.id == i)`; nothing found leaves the coroutine as a
-- RuntimeError.
unfoldable pub find_message : String → List TaskMessage → Result TaskMessage
find_message i [] = raise runtime_error "coroutine raised StopIteration"
find_message i (m ∷ ms) = let rest = find_message i ms in if m.id == i then ok m else rest

-- The message that a repeated command sent, with its task as it is now.
unfoldable pub replayed :
    Option (List TaskMessage) → Option Task → String → Result (Task × TaskMessage)
unfolding find_message
replayed none task i = raise key_error ""
replayed (some ms) none i = bind (find_message i ms) (λ m. raise key_error "")
replayed (some ms) (some t) i = bind (find_message i ms) (λ m. ok (t, m))

-- self._messages[task_id].append(message)
unfoldable pub post :
    Option (List TaskMessage) → Task → TaskMessage → String → Exec Repository (Task × TaskMessage)
post none updated message key r = (raise key_error "", r)
post (some ms) updated message key r = (
  ok (updated, message),
  record r {
    sent = insert message.task_id (ms ++ message ∷ []) r.sent;
    tasks = insert message.task_id updated r.tasks;
    message_commands =
        insert key
          (record { task_id = message.task_id; message_id = message.id; content = message.content })
          r.message_commands;
  },
)

abbrev pub bumped : Task → Task
bumped t = record t { version = t.version + 1 }

unfoldable pub send_to :
    Option Task → TaskMessage → ℕ → String → Exec Repository (Task × TaskMessage)
unfolding concat post
send_to none message expected key r =
    (raise not_found (concat ("task not found: " ∷ message.task_id ∷ [])), r)
send_to (some current) message expected key r =
    if not (current.version == expected)
    then (raise concurrent_modification "task version changed", r)
    else post (lookup message.task_id r.sent) (bumped current) message key r

unfoldable pub send_at :
    Option MessageCommand → TaskMessage → ℕ → String → Exec Repository (Task × TaskMessage)
unfolding replayed send_to
send_at none message expected key r =
    send_to (lookup message.task_id r.tasks) message expected key r
send_at (some c) message expected key r =
    if not (c.task_id == message.task_id) || not (c.content == message.content)
    then (raise concurrent_modification "idempotency key was reused with a different message", r)
    else (replayed (lookup c.task_id r.sent) (lookup c.task_id r.tasks) c.message_id, r)

unfoldable pub add_message : TaskMessage → ℕ → String → Exec Repository (Task × TaskMessage)
unfolding send_at
add_message message expected key r = send_at (lookup key r.message_commands) message expected key r

unfoldable pub cancelled_task : Task → Task
cancelled_task t = record t { state = TaskState.cancelled; version = t.version + 1 }

unfoldable pub cancel_stored : Option Task → String → ℕ → String → Exec Repository Task
unfolding concat task_terminal cancelled_task
cancel_stored none task_id expected key r =
    (raise not_found (concat ("task not found: " ∷ task_id ∷ [])), r)
cancel_stored (some current) task_id expected key r =
    if not (current.version == expected)
    then (raise concurrent_modification "task version changed", r)
    else if task_terminal current.state
    then (raise validation_error "terminal task cannot be cancelled", r)
    else (
      ok (cancelled_task current),
      record r {
        tasks = insert task_id (cancelled_task current) r.tasks;
        cancel_commands = insert key task_id r.cancel_commands;
      },
    )

unfoldable pub cancel_at : Option String → String → ℕ → String → Exec Repository Task
unfolding stored cancel_stored
cancel_at none task_id expected key r =
    cancel_stored (lookup task_id r.tasks) task_id expected key r
cancel_at (some earlier) task_id expected key r =
    if not (earlier == task_id)
    then (
      raise concurrent_modification "idempotency key was reused for a different task cancellation",
      r,
    )
    else stored (lookup earlier r.tasks) r

unfoldable pub cancel : String → ℕ → String → Exec Repository Task
unfolding cancel_at
cancel task_id expected key r = cancel_at (lookup key r.cancel_commands) task_id expected key r

listed : String → Option Task → Option (List TaskMessage) → Result (List TaskMessage)
unfolding concat
listed task_id none ms = raise not_found (concat ("task not found: " ∷ task_id ∷ []))
listed task_id (some _) none = raise key_error ""
listed task_id (some _) (some ms) = ok ms

unfoldable pub messages : String → Exec Repository (List TaskMessage)
unfolding listed
messages task_id r = (listed task_id (lookup task_id r.tasks) (lookup task_id r.sent), r)

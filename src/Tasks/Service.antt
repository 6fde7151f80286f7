-- ===== src/Tasks/Service.antt =====
-- `TaskService` of src/personal_assistant/core/tasks/service.py over the in-memory stores: none of them
-- waits, so a method is one step. Fresh identifiers and the times that a method reads are arguments.
use nju_personal_assistant.Base.{
  ℕ, ◌+◌, String, List, [], ◌∷◌, none, Dict, ◌==◌, ◌||◌, string_eq, pair_eq, list_eq, if◌then◌else◌,
}
use nju_personal_assistant.Domain.Enums.{
  TaskState, created, queued, running, waiting_user, waiting_approval, waiting_reconciliation,
  paused_safety, paused_extension, task_terminal, task_state_eq,
}
use nju_personal_assistant.Domain.Errors.{concat, validation_error, reject_if}
use nju_personal_assistant.Domain.Exec.{Exec, pure, lift, ◌>>=◌, ◌>>◌}
use nju_personal_assistant.Domain.Text.{is_blank, strip}
use nju_personal_assistant.Domain.Values.{pos, name, text, end, field}
use nju_personal_assistant.Audit.Writer.{AuditEvent, append_event}
use nju_personal_assistant.Jobs.Queue.{Job, Queue, enqueue}
use nju_personal_assistant.Tasks.Repository.{
  Task, TaskMessage, Repository, create, get, save, add_message, cancel,
}
use nju_personal_assistant.Tasks.Events.{TaskEvent, publish}

-- A job payload: a dictionary of texts
abbrev pub Payload : Type 0
Payload = Dict String String

pub record World : Type 0 where
  pub repository : Repository
  pub queue : Queue Payload
  pub events : List TaskEvent
  pub audit : List AuditEvent

abbrev pub on_repository {ℓ} : {R : Type ℓ} → Exec Repository R → Exec World R
on_repository m w =
    let (r, repository) = m w.repository in (r, record w { repository = repository })

abbrev pub on_queue {ℓ} : {R : Type ℓ} → Exec (Queue Payload) R → Exec World R
on_queue m w = let (r, queue) = m w.queue in (r, record w { queue = queue })

abbrev pub on_events {ℓ} : {R : Type ℓ} → Exec (List TaskEvent) R → Exec World R
on_events m w = let (r, events) = m w.events in (r, record w { events = events })

abbrev pub on_audit {ℓ} : {R : Type ℓ} → Exec (List AuditEvent) R → Exec World R
on_audit m w = let (r, audit) = m w.audit in (r, record w { audit = audit })

unfoldable pub state_value : TaskState → String
state_value created = "CREATED"
state_value queued = "QUEUED"
state_value running = "RUNNING"
state_value waiting_user = "WAITING_USER"
state_value waiting_approval = "WAITING_APPROVAL"
state_value waiting_reconciliation = "WAITING_RECONCILIATION"
state_value paused_safety = "PAUSED_SAFETY"
state_value paused_extension = "PAUSED_EXTENSION"
state_value TaskState.succeeded = "SUCCEEDED"
state_value TaskState.failed = "FAILED"
state_value TaskState.cancelled = "CANCELLED"

-- The times that one call of `create` reads, in their order
pub record Moments : Type 0 where
  pub created_at : ℕ
  pub enqueued_at : ℕ
  pub published_at : ℕ
  pub audited_at : ℕ

abbrev pub requeued : Task → Task
requeued t = record t { state = queued; version = t.version + 1 }

unfoldable pub audit_created : String → Task → ℕ → AuditEvent
unfolding state_value
audit_created actor task now = record {
  event_type = "task.created";
  actor = actor;
  resource_type = "task";
  resource_id = task.id;
  fields = field (name "state") (text (state_value task.state)) end;
  occurred_at = now;
}

unfoldable pub announce_created : String → Moments → Task → Exec World Task
unfolding publish append_event state_value audit_created
announce_created actor at task = do
  on_events (publish "task.queued" task.id (("state", state_value task.state) ∷ []) at.published_at)
  on_audit (append_event (audit_created actor task at.audited_at))
  pure task

-- The first job of a task
unfoldable pub enqueue_start : String → ℕ → Task → Exec World (Job Payload)
unfolding enqueue concat
enqueue_start job now task = on_queue (
    enqueue job "agent.start" (("task_id", task.id) ∷ []) (concat ("task-start:" ∷ task.id ∷ []))
      now none (pos 5))

-- Its QUEUED state
unfoldable pub mark_queued : String → Moments → Task → Exec World Task
unfolding save announce_created
mark_queued actor at task = do
  saved ← on_repository (save (requeued task) task.version)
  announce_created actor at saved

unfoldable pub start : String → String → Moments → Task → Exec World Task
unfolding enqueue_start mark_queued
start job actor at task = do enqueue_start job at.enqueued_at task; mark_queued actor at task

unfoldable pub start_if_new : String → String → Moments → Task → Exec World Task
unfolding start
start_if_new job actor at task =
    if task.state == created then start job actor at task else pure task

-- The check of `Task` itself cannot fail here: the objective is not blank.
unfoldable pub new_task : String → String → ℕ → Task
unfolding concat strip
new_task fresh objective now = record {
  id = concat ("task_" ∷ fresh ∷ []);
  objective = strip objective;
  state = created;
  version = 0;
  created_at = now;
}

unfoldable pub create_task : String → String → String → String → String → Moments → Exec World Task
unfolding is_blank create start_if_new new_task
create_task fresh job objective key actor at = do
  lift (reject_if (is_blank objective) validation_error "objective is required")
  lift (reject_if (is_blank key) validation_error "Idempotency-Key is required")
  task ← on_repository (create (new_task fresh objective at.created_at) key)
  start_if_new job actor at task

abbrev pub new_message : String → String → String → String → ℕ → TaskMessage
new_message fresh task_id actor content now = record {
  id = concat ("msg_" ∷ fresh ∷ []);
  task_id = task_id;
  actor = actor;
  content = strip content;
  created_at = now;
}

unfoldable pub announce_message : ℕ → Task × TaskMessage → Exec World (Task × TaskMessage)
unfolding publish
announce_message now (task, message) = do
  on_events (publish "task.message_added" task.id (("message_id", message.id) ∷ []) now)
  pure (task, message)

unfoldable pub send_message :
    String → String → String → ℕ → String → String → ℕ → ℕ → Exec World (Task × TaskMessage)
unfolding is_blank add_message announce_message
send_message fresh task_id content expected actor key now published_at = do
  lift (reject_if (is_blank content) validation_error "message content is required")
  sent ← on_repository (add_message (new_message fresh task_id actor content now) expected key)
  announce_message published_at sent

abbrev pub projected : TaskState → Task → Task
projected state t = record t { state = state; version = t.version + 1 }

unfoldable pub project_from : String → TaskState → ℕ → Task → Exec World Task
unfolding save publish state_value task_terminal
project_from task_id state now task =
    if task_terminal task.state || task.state == state then pure task else (do
      saved ← on_repository (save (projected state task) task.version)
      on_events (publish "task.state_changed" task_id (("state", state_value state) ∷ []) now)
      pure saved)

unfoldable pub project : String → TaskState → ℕ → Exec World Task
unfolding get project_from
project task_id state now = do
  task ← on_repository (get task_id)
  project_from task_id state now task

unfoldable pub assistant_message : String → String → String → String → ℕ → ℕ → Exec World (Unit {0})
unfolding get send_message
assistant_message fresh task_id content key now published_at = do
  task ← on_repository (get task_id)
  send_message fresh task_id content task.version "assistant" key now published_at
  pure tt

unfoldable pub announce_cancelled : String → ℕ → ℕ → Task → Exec World Task
unfolding publish append_event state_value
announce_cancelled actor published_at audited_at task = do
  on_events (publish "task.cancelled" task.id (("state", state_value task.state) ∷ []) published_at)
  on_audit (
      append_event (record {
        event_type = "task.cancelled";
        actor = actor;
        resource_type = "task";
        resource_id = task.id;
        fields = end;
        occurred_at = audited_at;
      }))
  pure task

unfoldable pub cancel_task : String → ℕ → String → String → ℕ → ℕ → Exec World Task
unfolding cancel announce_cancelled
cancel_task task_id expected actor key published_at audited_at = do
  task ← on_repository (cancel task_id expected key)
  announce_cancelled actor published_at audited_at task

-- A call of one of the methods that write
pub data Command : Type 0 where
  -- fresh, job, objective, key, actor, times
  create_call : String → String → String → String → String → Moments → Command
  -- fresh, task_id, content, expected, actor, key, times
  message_call : String → String → String → ℕ → String → String → ℕ → ℕ → Command
  project_call : String → TaskState → ℕ → Command
  -- fresh, task_id, content, key, times
  assistant_call : String → String → String → String → ℕ → ℕ → Command
  -- task_id, expected, actor, key, times
  cancel_call : String → ℕ → String → String → ℕ → ℕ → Command

unfoldable pub step : Command → World → World
unfolding create_task send_message project assistant_message cancel_task
step (create_call fresh job objective key actor at) w =
    (create_task fresh job objective key actor at w).1
step (message_call fresh task_id content expected actor key now t) w =
    (send_message fresh task_id content expected actor key now t w).1
step (project_call task_id state now) w = (project task_id state now w).1
step (assistant_call fresh task_id content key now t) w =
    (assistant_message fresh task_id content key now t w).1
step (cancel_call task_id expected actor key now t) w =
    (cancel_task task_id expected actor key now t w).1

unfoldable pub run : List Command → World → World
unfolding step
run [] w = w
run (c ∷ commands) w = run commands (step c w)

abbrev pub fresh_repository : Repository
fresh_repository = record {
  tasks = [];
  sent = [];
  idempotency = [];
  message_commands = [];
  cancel_commands = [];
}

abbrev pub fresh_world : World
fresh_world = record {
  repository = fresh_repository;
  queue = record { jobs = []; idempotency = [] };
  events = [];
  audit = [];
}

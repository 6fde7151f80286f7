-- ===== src/Tasks/Steps.antt =====
-- What any sequence of calls of the task service leaves of the tasks and of the events.
use mathlib.Core.Path.{subst}
use nju_personal_assistant.Base.{
  ℕ, String, List, [], ◌∷◌, some, lookup, ◌≡◌, sym, ap, ◌∙◌, arith, Bool-cases, inl, inr, ◌==◌,
  string_eq, nat_eq, ◌||◌,
}
use nju_personal_assistant.Domain.Enums.{TaskState, task_terminal, task_state_eq}
use nju_personal_assistant.Domain.Exec.{Exec, ◌>>=◌, ◌>>◌, pure}
use nju_personal_assistant.Tasks.Repository.{Task, Repository, get, save, cancel}
use nju_personal_assistant.Tasks.Keeping.{cancel-Kept}
use nju_personal_assistant.Tasks.Replies.{get-Returns, get_unchanged}
use nju_personal_assistant.Tasks.Service.{
  World, on_repository, send_message, projected, project_from, project, assistant_message,
  announce_cancelled, cancel_task, Command, create_call, message_call, project_call, assistant_call,
  cancel_call, step, run, fresh_world,
}
use nju_personal_assistant.Tasks.History.{
  IsWhole, Follows, Follows-refl, Follows-trans, whole, Safe, bind-Follows, publish-Follows,
  announce_cancelled-Follows, projected-IsNext, save-Follows, create_task-Follows,
  send_message-Follows,
}

project_from-Follows :
    (i : String) (state : TaskState) (now : ℕ) (t : Task) (w : World)
    → IsWhole w
    → lookup t.id w.repository.tasks ≡ some t
    → Safe (project_from i state now t) w
unfolding project_from
project_from-Follows i state now t w h k =
    let write = on_repository (save (projected state t) t.version) in
    elim (Bool-cases (task_terminal t.state || t.state == state)) [
      | inl e ↦ rw e (Follows-refl w h)
      | inr e ↦
          let f : Safe write w =
            save-Follows t (projected state t) w h k (projected-IsNext state t (ground arith)) in
          rw e (
            bind-Follows write _ w f
              (λ saved _. publish-Follows _ i _ now (write w).1 (whole w (write w).1 f)))
    ]

-- What `get` returns is stored under its own id, and nothing changes.
read-Follows {κ} :
    {R : Type κ} (i : String) (rest : Task → Exec World R) (w : World)
    → IsWhole w
    → ((t : Task) → lookup t.id w.repository.tasks ≡ some t → Safe (rest t) w)
    → Safe (on_repository (get i) >>= rest) w
read-Follows i rest w h f =
    let same : (on_repository (get i) w).1 ≡ w =
      ap (λ r. record w { repository = r }) (get_unchanged w.repository i) in
    bind-Follows (on_repository (get i)) rest w (subst (Follows w) (sym same) (Follows-refl w h))
      (λ t e.
        let k : lookup i w.repository.tasks ≡ some t =
          ap (λ (r : Repository). lookup i r.tasks) (sym (get_unchanged w.repository i))
          ∙ get-Returns w.repository i t e in
        let own = ap (λ x. lookup x w.repository.tasks) (h.tasks.ids i t k) ∙ k in
        subst (Safe (rest t)) (sym same) (f t own))

project-Follows :
    (i : String) (state : TaskState) (now : ℕ) (w : World)
    → IsWhole w
    → Safe (project i state now) w
unfolding project
project-Follows i state now w h =
    read-Follows i (project_from i state now) w h (λ t k. project_from-Follows i state now t w h k)

assistant_message-Follows :
    (fresh i content key : String) (now later : ℕ) (w : World)
    → IsWhole w
    → Safe (assistant_message fresh i content key now later) w
unfolding assistant_message
assistant_message-Follows fresh i content key now later w h =
    let send = λ (t : Task). send_message fresh i content t.version "assistant" key now later in
    read-Follows i (λ t. send t >> pure (tt {0})) w h
      (λ t _.
        let f : Safe (send t) w =
          send_message-Follows fresh i content t.version "assistant" key now later w h in
        bind-Follows (send t) (λ _. pure (tt {0})) w f
          (λ _ _. Follows-refl (send t w).1 (whole w (send t w).1 f)))

cancel_task-Follows :
    (i : String) (expected : ℕ) (actor key : String) (now later : ℕ) (w : World)
    → IsWhole w
    → Safe (cancel_task i expected actor key now later) w
unfolding cancel_task
cancel_task-Follows i expected actor key now later w h =
    let write = on_repository (cancel i expected key) in
    let f : Safe write w = (cancel-Kept w.repository h.tasks i expected key, h.numbered) in
    bind-Follows write (announce_cancelled actor now later) w f
      (λ t _. announce_cancelled-Follows actor now later t (write w).1 (whole w (write w).1 f))

step-Follows : (c : Command) (w : World) → IsWhole w → Follows w (step c w)
unfolding step
step-Follows (create_call fresh job objective key actor at) w i =
    create_task-Follows fresh job objective key actor at w i
step-Follows (message_call fresh t content expected actor key now later) w i =
    send_message-Follows fresh t content expected actor key now later w i
step-Follows (project_call t state now) w i = project-Follows t state now w i
step-Follows (assistant_call fresh t content key now later) w i =
    assistant_message-Follows fresh t content key now later w i
step-Follows (cancel_call t expected actor key now later) w i =
    cancel_task-Follows t expected actor key now later w i

pub run-Follows : (commands : List Command) (w : World) → IsWhole w → Follows w (run commands w)
unfolding run
run-Follows [] w i = Follows-refl w i
run-Follows (c ∷ commands) w i =
    let f = step-Follows c w i in
    Follows-trans w (step c w) (run commands (step c w)) f
      (run-Follows commands (step c w) (whole w (step c w) f))

pub fresh_world-IsWhole : IsWhole fresh_world
unfolding lookup
fresh_world-IsWhole = record {
  tasks = record {
    ids = λ i t h. absurd (ground (arith, h));
    boxes = λ i t h. absurd (ground (arith, h));
    keys = λ k i o h. absurd (ground (arith, h));
    sendings = λ k c h. absurd (ground (arith, h));
    cancels = λ k i h. absurd (ground (arith, h));
  };
  numbered = tt;
}

-- ===== src/Tasks/History.antt =====
-- The methods of the task service that create a task and send a message keep what is stored.
use mathlib.Core.Path.{subst}
use nju_personal_assistant.Base.{
  ℕ, String, Bool, true, false, List, some, lookup, ◌≡◌, refl, sym, ap, ◌∙◌, arith, Bool-cases, inl,
  inr, ◌==◌, string_eq, nat_eq, ==→eq,
}
use nju_personal_assistant.Domain.Enums.{TaskState, created, task_terminal, task_state_eq}
use nju_personal_assistant.Domain.Errors.{Result, ok, err, reject_if, validation_error}
use nju_personal_assistant.Domain.Exec.{Exec, ◌>>=◌, ◌>>◌, continue, lift}
use nju_personal_assistant.Domain.Text.{is_blank}
use nju_personal_assistant.Tasks.Repository.{Task, TaskMessage, create, save, add_message}
use nju_personal_assistant.Tasks.Events.{publish, IsNumbered, publish-IsNumbered}
use nju_personal_assistant.Tasks.Integrity.{IsSound, IsNext, some_injective}
use nju_personal_assistant.Tasks.Keeping.{
  Kept, Kept-refl, Kept-trans, create-Kept, save-Kept, add_message-Kept,
}
use nju_personal_assistant.Tasks.Replies.{create-Own}
use nju_personal_assistant.Tasks.Service.{
  World, on_repository, on_events, requeued, announce_created, start, enqueue_start, mark_queued,
  start_if_new, new_task, create_task, new_message, announce_message, send_message, projected,
  announce_cancelled, Moments,
}

-- Sound tasks and numbered events
pub record IsWhole (w : World) : Type 0 where
  pub tasks : IsSound w.repository
  pub numbered : IsNumbered 0 w.events

-- A whole world that keeps the tasks of an earlier one
abbrev pub Follows : World → World → Type 0
Follows w w' = Kept w.repository w'.repository × IsNumbered 0 w'.events

pub Follows-refl : (w : World) → IsWhole w → Follows w w
Follows-refl w i = (Kept-refl w.repository i.tasks, i.numbered)

pub Follows-trans : (w v u : World) → Follows w v → Follows v u → Follows w u
Follows-trans w v u (k, _) (l, n) = (Kept-trans w.repository v.repository u.repository k l, n)

pub whole : (w v : World) → Follows w v → IsWhole v
whole w v (k, n) = record { tasks = k.0; numbered = n }

-- A method, where it starts in `w`
abbrev pub Safe {ℓ} : {R : Type ℓ} → Exec World R → World → Type 0
Safe m w = Follows w (m w).1

continue-Follows {ℓ κ} :
    {Q : Type ℓ} {R : Type κ} (w : World) (p : Result Q × World) (rest : Q → Exec World R)
    → Follows w p.1
    → ((q : Q) → p.0 ≡ ok q → Safe (rest q) p.1)
    → Follows w (continue p.0 rest p.1).1
continue-Follows w (err e, v) rest f g = f
continue-Follows w (ok q, v) rest f g = Follows-trans w v (rest q v).1 f (g q refl)

-- One call after another
pub bind-Follows {ℓ κ} :
    {Q : Type ℓ} {R : Type κ} (m : Exec World Q) (rest : Q → Exec World R) (w : World)
    → Safe m w
    → ((q : Q) → (m w).0 ≡ ok q → Safe (rest q) (m w).1)
    → Safe (m >>= rest) w
bind-Follows m rest w f g = continue-Follows w (m w) rest f g

pub publish-Follows :
    (kind i : String) (d : List (String × String)) (now : ℕ) (w : World)
    → IsWhole w
    → Safe (on_events (publish kind i d now)) w
publish-Follows kind i d now w h =
    (Kept-refl w.repository h.tasks, publish-IsNumbered kind i d now w.events h.numbered)

announce_created-Follows :
    (actor : String) (at : Moments) (t : Task) (w : World)
    → IsWhole w
    → Safe (announce_created actor at t) w
unfolding announce_created
announce_created-Follows actor at t w h = publish-Follows _ _ _ _ w h

pub announce_cancelled-Follows :
    (actor : String) (m n : ℕ) (t : Task) (w : World)
    → IsWhole w
    → Safe (announce_cancelled actor m n t) w
unfolding announce_cancelled
announce_cancelled-Follows actor m n t w h = publish-Follows _ _ _ _ w h

requeued-IsNext : (t : Task) → t.state ≡ created → IsNext t (requeued t)
unfolding task_terminal
requeued-IsNext t e = record {
  id = refl;
  objective = refl;
  version = omega arith;
  settled = λ h. absurd (ground (arith, h, ap task_terminal e));
}

pub projected-IsNext :
    (state : TaskState) (t : Task) → task_terminal t.state ≡ false → IsNext t (projected state t)
projected-IsNext state t f = record {
  id = refl;
  objective = refl;
  version = omega arith;
  settled = λ h. absurd (ground (arith, f, h));
}

-- `save` where the stored task is the one that was read
pub save-Follows :
    (t t' : Task) (w : World)
    → IsWhole w
    → lookup t'.id w.repository.tasks ≡ some t
    → IsNext t t'
    → Safe (on_repository (save t' t.version)) w
save-Follows t t' w i h n = (
  save-Kept w.repository i.tasks t' t.version
      (λ current k. subst (λ x. IsNext x t') (some_injective t current (sym h ∙ k)) n),
  i.numbered,
)

mark_queued-Follows :
    (actor : String) (at : Moments) (t : Task) (w : World)
    → IsWhole w
    → lookup t.id w.repository.tasks ≡ some t
    → t.state ≡ created
    → Safe (mark_queued actor at t) w
unfolding mark_queued
mark_queued-Follows actor at t w i h e =
    let write = on_repository (save (requeued t) t.version) in
    let f : Safe write w = save-Follows t (requeued t) w i h (requeued-IsNext t e) in
    bind-Follows write (announce_created actor at) w f
      (λ saved _. announce_created-Follows actor at saved (write w).1 (whole w (write w).1 f))

start_if_new-Follows :
    (job actor : String) (at : Moments) (t : Task) (w : World)
    → IsWhole w
    → lookup t.id w.repository.tasks ≡ some t
    → Safe (start_if_new job actor at t) w
unfolding start_if_new start enqueue_start
start_if_new-Follows job actor at t w i h = elim (Bool-cases (t.state == created)) [
  | inl e ↦
      let w' = (enqueue_start job at.enqueued_at t w).1 in
      rw e (
        bind-Follows (enqueue_start job at.enqueued_at t) (λ _. mark_queued actor at t) w
          (Follows-refl w i)
          (λ _ _.
            mark_queued-Follows actor at t w' (record { tasks = i.tasks; numbered = i.numbered }) h
              (==→eq t.state created e)))
  | inr e ↦ rw e (Follows-refl w i)
]

check-Follows {κ} :
    {R : Type κ} (failing : Bool) (message : String) (rest : Exec World R) (w : World)
    → IsWhole w
    → Safe rest w
    → Safe (lift (reject_if failing validation_error message) >> rest) w
check-Follows true message rest w i f = Follows-refl w i
check-Follows false message rest w i f = f

pub create_task-Follows :
    (fresh job objective key actor : String) (at : Moments) (w : World)
    → IsWhole w
    → Safe (create_task fresh job objective key actor at) w
unfolding create_task
create_task-Follows fresh job objective key actor at w i =
    let t = new_task fresh objective at.created_at in
    let write = on_repository (create t key) in
    let f : Safe write w = (create-Kept w.repository i.tasks t key, i.numbered) in
    check-Follows (is_blank objective) _ _ w i (
      check-Follows (is_blank key) _ _ w i (
        bind-Follows write (start_if_new job actor at) w f (λ u e.
          start_if_new-Follows job actor at u (write w).1 (whole w (write w).1 f)
            (create-Own w.repository t key i.tasks u e))))

announce_message-Follows :
    (now : ℕ) (sent : Task × TaskMessage) (w : World)
    → IsWhole w
    → Safe (announce_message now sent) w
unfolding announce_message
announce_message-Follows now sent w i = publish-Follows _ _ _ _ w i

pub send_message-Follows :
    (fresh i content : String) (expected : ℕ) (actor key : String) (now later : ℕ) (w : World)
    → IsWhole w
    → Safe (send_message fresh i content expected actor key now later) w
unfolding send_message
send_message-Follows fresh i content expected actor key now later w h =
    let message = new_message fresh i actor content now in
    let write = on_repository (add_message message expected key) in
    let f : Safe write w =
      (add_message-Kept w.repository h.tasks message expected key, h.numbered) in
    check-Follows (is_blank content) _ _ w h (
      bind-Follows write (announce_message later) w f
        (λ sent _. announce_message-Follows later sent (write w).1 (whole w (write w).1 f)))

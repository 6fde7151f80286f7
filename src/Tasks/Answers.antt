-- ===== src/Tasks/Answers.antt =====
-- Which errors the message command of the task service raises.
use nju_personal_assistant.Base.{
  ℕ, String, Bool, true, false, List, Option, none, some, lookup, ◌≡◌, refl, arith, ◌==◌, string_eq,
  nat_eq, if_both, not, ◌||◌,
}
use nju_personal_assistant.Domain.Errors.{
  Error, Result, ok, err, is_domain_error, reject_if, validation_error,
}
use nju_personal_assistant.Domain.Exec.{Exec, continue, ◌>>◌, lift}
use nju_personal_assistant.Domain.Text.{is_blank}
use nju_personal_assistant.Tasks.Repository.{
  Task, TaskMessage, MessageCommand, Repository, add_message, send_at, send_to, post, bumped,
  replayed, find_message,
}
use nju_personal_assistant.Tasks.Integrity.{IsSound}
use nju_personal_assistant.Tasks.Service.{
  World, Command, run, fresh_world, send_message, announce_message, new_message, on_repository,
}
use nju_personal_assistant.Tasks.Promises.{run-IsWhole}

-- What is raised, if anything, is an error of the domain.
abbrev IsDomain : {R S : Type 0} → Result R × S → Type 0
IsDomain p = (e : Error) → p.0 ≡ err e → is_domain_error e.cls ≡ true

module _ (r : Repository) (s : IsSound r) where
  post-IsDomain :
      (o : Option (List TaskMessage)) (t : Task) (x : TaskMessage) (key : String)
      → (ms : List TaskMessage) × (o ≡ some ms)
      → IsDomain (post o t x key r)
  unfolding post
  post-IsDomain none t x key (ms, h) e k = absurd (ground (arith, h))
  post-IsDomain (some ms) t x key h e k = absurd (ground (arith, k))

  send_to-IsDomain :
      (o : Option Task) (x : TaskMessage) (expected : ℕ) (key : String)
      → lookup x.task_id r.tasks ≡ o
      → IsDomain (send_to o x expected key r)
  unfolding send_to is_domain_error
  send_to-IsDomain none x expected key h = λ e k. ground (arith, k)
  send_to-IsDomain (some t) x expected key h =
      if_both IsDomain (not (t.version == expected)) _ _ (λ e k. ground (arith, k))
        (post-IsDomain (lookup x.task_id r.sent) (bumped t) x key (s.boxes x.task_id t h))

  replayed-IsDomain :
      (boxes : Option (List TaskMessage)) (o : Option Task) (i : String) (t : Task)
      (ms : List TaskMessage) (m : TaskMessage)
      → boxes ≡ some ms
      → o ≡ some t
      → find_message i ms ≡ ok m
      → IsDomain (replayed boxes o i, r)
  unfolding replayed
  replayed-IsDomain none o i t ms m h k f e x = absurd (ground (arith, h))
  replayed-IsDomain (some us) none i t ms m h k f e x = absurd (ground (arith, k))
  replayed-IsDomain (some us) (some u) i t ms m h k f e x =
      let same : find_message i us ≡ ok m = ground (arith, h, f) in absurd (ground (arith, x, same))

  send_at-IsDomain :
      (o : Option MessageCommand) (x : TaskMessage) (expected : ℕ) (key : String)
      → lookup key r.message_commands ≡ o
      → IsDomain (send_at o x expected key r)
  unfolding send_at is_domain_error
  send_at-IsDomain none x expected key h =
      send_to-IsDomain (lookup x.task_id r.tasks) x expected key refl
  send_at-IsDomain (some c) x expected key h =
      let (t, ms, m, k, b, f) = s.sendings key c h in
      if_both IsDomain (not (c.task_id == x.task_id) || not (c.content == x.content)) _ _
        (λ e k. ground (arith, k))
        (replayed-IsDomain (lookup c.task_id r.sent) (lookup c.task_id r.tasks) c.message_id t ms m
          b k f)

  add_message-IsDomain :
      (x : TaskMessage) (expected : ℕ) (key : String) → IsDomain (add_message x expected key r)
  unfolding add_message
  add_message-IsDomain x expected key =
      send_at-IsDomain (lookup key r.message_commands) x expected key refl

announced-IsDomain :
    (now : ℕ) (p : Result (Task × TaskMessage) × World)
    → IsDomain p
    → IsDomain (continue p.0 (announce_message now) p.1)
unfolding announce_message
announced-IsDomain now (err e, w) f x k = f x k
announced-IsDomain now (ok q, w) f e k = absurd (ground (arith, k))

check-IsDomain :
    {R : Type 0} (failing : Bool) (message : String) (rest : Exec World R) (w : World)
    → IsDomain (rest w)
    → IsDomain ((lift (reject_if failing validation_error message) >> rest) w)
unfolding is_domain_error
check-IsDomain true message rest w f e k = ground (arith, k)
check-IsDomain false message rest w f e k = f e k

-- After any calls, what `add_message` of the service raises is an error of the domain: no KeyError, and
-- no search for a message that is not there.
pub run-send_message :
    (commands : List Command) (fresh i content : String) (expected : ℕ) (actor key : String)
    (now later : ℕ) (e : Error)
    → (send_message fresh i content expected actor key now later (run commands fresh_world)).0
      ≡ err e
    → is_domain_error e.cls ≡ true
unfolding send_message
run-send_message commands fresh i content expected actor key now later e k =
    let w = run commands fresh_world in
    let message = new_message fresh i actor content now in
    check-IsDomain (is_blank content) _ _ w
      (announced-IsDomain later (on_repository (add_message message expected key) w)
        (add_message-IsDomain w.repository (run-IsWhole commands).tasks message expected key))
      e k

-- ===== src/Tasks/Keeping.antt =====
-- Every call of the task repository keeps its promises and its tasks.
use nju_personal_assistant.Base.{
  ℕ, String, false, List, Option, none, some, lookup, lookup-insert_self, ◌≡◌, refl, arith,
  Bool-cases, inl, inr, ◌==◌, string_eq, nat_eq, if_both, not, ◌||◌, leb,
}
use nju_personal_assistant.Domain.Enums.{task_terminal, task_state_eq}
use nju_personal_assistant.Domain.Errors.{Result}
use nju_personal_assistant.Tasks.Repository.{
  Task, TaskMessage, MessageCommand, Repository, bumped, cancelled_task, post, send_to, send_at,
  add_message, cancel, cancel_at, cancel_stored, stored, create, create_at, create_new, save,
  save_over, get, found,
}
use nju_personal_assistant.Tasks.Integrity.{
  IsSound, IsNext, Extends, Extends-refl, Extends-trans, rewritten, rewritten-Extends,
  rewritten-IsSound, record_cancel-IsSound,
}
use nju_personal_assistant.Tasks.Additions.{added-Extends, added-IsSound, posted-IsSound}

-- Sound, with every task of before
abbrev pub Kept : Repository → Repository → Type 0
Kept r r' = IsSound r' × Extends r r'

pub Kept-refl : (r : Repository) → IsSound r → Kept r r
Kept-refl r s = (s, Extends-refl r)

pub Kept-trans : (r s u : Repository) → Kept r s → Kept s u → Kept r u
Kept-trans r s u (_, f) (i, g) = (i, Extends-trans r s u f g)

abbrev After {ℓ} : {R : Type ℓ} → Repository → Result R × Repository → Type 0
After r p = Kept r p.1

module _ (r : Repository) (s : IsSound r) where
  rewritten-Kept :
      (i : String) (t t' : Task) (h : lookup i r.tasks ≡ some t) (n : IsNext t t')
      → Kept r (rewritten r i t t' h n)
  rewritten-Kept i t t' h n = (rewritten-IsSound r i t t' h n s, rewritten-Extends r i t t' h n)

  stored-Kept : (o : Option Task) → Kept r (stored o r).1
  unfolding stored
  stored-Kept none = Kept-refl r s
  stored-Kept (some t) = Kept-refl r s

  create_new-Kept :
      (o : Option Task) (t : Task) (key : String)
      → lookup t.id r.tasks ≡ o
      → Kept r (create_new o t key r).1
  unfolding create_new
  create_new-Kept (some _) t key h = Kept-refl r s
  create_new-Kept none t key h = (added-IsSound r t key h s, added-Extends r t key h)

  create_at-Kept :
      (o : Option (String × String)) (t : Task) (key : String) → Kept r (create_at o t key r).1
  unfolding create_at
  create_at-Kept none t key = create_new-Kept (lookup t.id r.tasks) t key refl
  create_at-Kept (some (i, o)) t key =
      if_both (After r) (not (o == t.objective)) _ _ (Kept-refl r s)
        (stored-Kept (lookup i r.tasks))

  pub create-Kept : (t : Task) (key : String) → Kept r (create t key r).1
  unfolding create
  create-Kept t key = create_at-Kept (lookup key r.idempotency) t key

  found-Kept : (i : String) (o : Option Task) → Kept r (found i o r).1
  unfolding found
  found-Kept i none = Kept-refl r s
  found-Kept i (some t) = Kept-refl r s

  pub get-Kept : (i : String) → Kept r (get i r).1
  unfolding get
  get-Kept i = found-Kept i (lookup i r.tasks)

  save_over-Kept :
      (o : Option Task) (t : Task) (expected : ℕ)
      → lookup t.id r.tasks ≡ o
      → ((current : Task) → o ≡ some current → IsNext current t)
      → Kept r (save_over o t expected r).1
  unfolding save_over
  save_over-Kept none t expected h n = Kept-refl r s
  save_over-Kept (some current) t expected h n =
      if_both (After r) (not (current.version == expected) || leb t.version expected) _ _
        (Kept-refl r s) (rewritten-Kept t.id current t h (n current refl))

  pub save-Kept :
      (t : Task) (expected : ℕ)
      → ((current : Task) → lookup t.id r.tasks ≡ some current → IsNext current t)
      → Kept r (save t expected r).1
  unfolding save
  save-Kept t expected n = save_over-Kept (lookup t.id r.tasks) t expected refl n

  bumped-IsNext : (t : Task) → IsNext t (bumped t)
  bumped-IsNext t = record {
    id = refl;
    objective = refl;
    version = omega arith;
    settled = λ h. refl;
  }

  cancelled_task-IsNext : (t : Task) → task_terminal t.state ≡ false → IsNext t (cancelled_task t)
  unfolding cancelled_task
  cancelled_task-IsNext t f = record {
    id = refl;
    objective = refl;
    version = omega arith;
    settled = λ h. absurd (ground (arith, f, h));
  }

  post-Kept :
      (o : Option (List TaskMessage)) (t : Task) (x : TaskMessage) (key : String)
      → lookup x.task_id r.tasks ≡ some t
      → lookup x.task_id r.sent ≡ o
      → Kept r (post o (bumped t) x key r).1
  unfolding post
  post-Kept none t x key h b = Kept-refl r s
  post-Kept (some ms) t x key h b =
      let (i, e) = rewritten-Kept x.task_id t (bumped t) h (bumped-IsNext t) in
      (
        posted-IsSound (rewritten r x.task_id t (bumped t) h (bumped-IsNext t)) key x (bumped t) ms
            i (lookup-insert_self x.task_id (bumped t) r.tasks) b,
        e,
      )

  send_to-Kept :
      (o : Option Task) (x : TaskMessage) (expected : ℕ) (key : String)
      → lookup x.task_id r.tasks ≡ o
      → Kept r (send_to o x expected key r).1
  unfolding send_to
  send_to-Kept none x expected key h = Kept-refl r s
  send_to-Kept (some t) x expected key h =
      if_both (After r) (not (t.version == expected)) _ _ (Kept-refl r s)
        (post-Kept (lookup x.task_id r.sent) t x key h refl)

  send_at-Kept :
      (o : Option MessageCommand) (x : TaskMessage) (expected : ℕ) (key : String)
      → Kept r (send_at o x expected key r).1
  unfolding send_at
  send_at-Kept none x expected key = send_to-Kept (lookup x.task_id r.tasks) x expected key refl
  send_at-Kept (some c) x expected key =
      if_both (After r) (not (c.task_id == x.task_id) || not (c.content == x.content)) _ _
        (Kept-refl r s) (Kept-refl r s)

  pub add_message-Kept :
      (x : TaskMessage) (expected : ℕ) (key : String) → Kept r (add_message x expected key r).1
  unfolding add_message
  add_message-Kept x expected key = send_at-Kept (lookup key r.message_commands) x expected key

  cancel_stored-Kept :
      (o : Option Task) (i : String) (expected : ℕ) (key : String)
      → lookup i r.tasks ≡ o
      → Kept r (cancel_stored o i expected key r).1
  unfolding cancel_stored cancelled_task
  cancel_stored-Kept none i expected key h = Kept-refl r s
  cancel_stored-Kept (some t) i expected key h =
      if_both (After r) (not (t.version == expected)) _ _ (Kept-refl r s)
        (elim (Bool-cases (task_terminal t.state)) [
          | inl e ↦ rw e (Kept-refl r s)
          | inr e ↦
              let n = cancelled_task-IsNext t e in
              let (j, x) = rewritten-Kept i t (cancelled_task t) h n in
              rw e (
                record_cancel-IsSound (rewritten r i t (cancelled_task t) h n) j key i
                    (cancelled_task t) (lookup-insert_self i (cancelled_task t) r.tasks) refl,
                x,
              )
        ])

  cancel_at-Kept :
      (o : Option String) (i : String) (expected : ℕ) (key : String)
      → Kept r (cancel_at o i expected key r).1
  unfolding cancel_at
  cancel_at-Kept none i expected key = cancel_stored-Kept (lookup i r.tasks) i expected key refl
  cancel_at-Kept (some j) i expected key =
      if_both (After r) (not (j == i)) _ _ (Kept-refl r s) (stored-Kept (lookup j r.tasks))

  pub cancel-Kept : (i : String) (expected : ℕ) (key : String) → Kept r (cancel i expected key r).1
  unfolding cancel
  cancel-Kept i expected key = cancel_at-Kept (lookup key r.cancel_commands) i expected key

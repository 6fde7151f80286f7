-- ===== src/Tasks/Additions.antt =====
-- A new task and a new message keep the promises of the task repository.
use mathlib.Core.Path.{subst}
use nju_personal_assistant.Base.{
  String, List, [], ◌∷◌, ◌++◌, none, some, Dict, lookup, insert, lookup-insert, lookup-insert_self,
  lookup-insert_other, lookup-insert_fresh, ◌≡◌, ◌≢◌, refl, sym, ap, ◌∙◌, arith, Bool-cases, inl,
  inr, ◌==◌, string_eq, nat_eq, ==-refl, ==→eq,
}
use nju_personal_assistant.Domain.Enums.{task_state_eq}
use nju_personal_assistant.Domain.Errors.{ok}
use nju_personal_assistant.Tasks.Repository.{
  Task, TaskMessage, MessageCommand, Repository, find_message,
}
use nju_personal_assistant.Tasks.Integrity.{
  IsSound, IsSent, some_injective, IsNext-refl, Extends, lookup-insert_cases,
}

find_message-append :
    (i : String) (ms : List TaskMessage) (x m : TaskMessage)
    → find_message i ms ≡ ok m
    → find_message i (ms ++ x ∷ []) ≡ ok m
unfolding find_message
find_message-append i [] x m h = absurd (ground arith)
find_message-append i (y ∷ ms) x m h = ground (arith, find_message-append i ms x m)

find_message_last :
    (ms : List TaskMessage) (x : TaskMessage)
    → (m : TaskMessage) × (find_message x.id (ms ++ x ∷ []) ≡ ok m)
unfolding find_message
find_message_last [] x = (x, ground (arith, ==-refl x.id))
find_message_last (y ∷ ms) x =
    let (m, h) = find_message_last ms x in
    elim (Bool-cases (y.id == x.id)) [ inl e ↦ (y, rw e refl) | inr e ↦ (m, rw e h) ]

-- A box that gets one more message keeps those it has.
box_kept :
    (x : TaskMessage) (ms : List TaskMessage) (sent : Dict String (List TaskMessage)) (i : String)
    (us : List TaskMessage)
    → lookup x.task_id sent ≡ some ms
    → lookup i sent ≡ some us
    → (vs : List TaskMessage) × (lookup i (insert x.task_id (ms ++ x ∷ []) sent) ≡ some vs)
      × ((k : String) (m : TaskMessage) → find_message k us ≡ ok m → find_message k vs ≡ ok m)
box_kept x ms sent i us b h = elim (Bool-cases (x.task_id == i)) [
  | inl e ↦
      let same : some ms ≡ some us = sym b ∙ ap (λ k. lookup k sent) (==→eq x.task_id i e) ∙ h in
      (
        ms ++ x ∷ [],
        ground (arith, lookup-insert x.task_id i (ms ++ x ∷ []) sent),
        λ k m f. find_message-append k ms x m (ap (find_message k) (some_injective ms us same) ∙ f),
      )
  | inr e ↦ (us, ground (arith, lookup-insert x.task_id i (ms ++ x ∷ []) sent), λ k m f. f)
]

abbrev command_of : TaskMessage → MessageCommand
command_of x = record { task_id = x.task_id; message_id = x.id; content = x.content }

abbrev pub posted : Repository → String → TaskMessage → List TaskMessage → Repository
posted r key x ms = record r {
  sent = insert x.task_id (ms ++ x ∷ []) r.sent;
  message_commands = insert key (command_of x) r.message_commands;
}

pub posted-IsSound :
    (r : Repository) (key : String) (x : TaskMessage) (t : Task) (ms : List TaskMessage)
    → IsSound r
    → lookup x.task_id r.tasks ≡ some t
    → lookup x.task_id r.sent ≡ some ms
    → IsSound (posted r key x ms)
posted-IsSound r key x t ms s h b = record {
  ids = s.ids;
  boxes = λ i u k.
      let (us, q) = s.boxes i u k in let (vs, q', _) = box_kept x ms r.sent i us b q in (vs, q');
  keys = s.keys;
  sendings = λ k c q. elim (lookup-insert_cases key k (command_of x) c r.message_commands q) [
    | inl (_, e) ↦
        let (m, f) = find_message_last ms x in
        subst (IsSent r.tasks (posted r key x ms).sent) e
          (t, ms ++ x ∷ [], m, h, lookup-insert_self x.task_id (ms ++ x ∷ []) r.sent, f)
    | inr (_, old) ↦
        let (u, us, m, a, z, found) = s.sendings k c old in
        let (vs, z', keep) = box_kept x ms r.sent c.task_id us b z in
        (u, vs, m, a, z', keep c.message_id m found)
  ];
  cancels = s.cancels;
}

abbrev pub added : Repository → Task → String → Repository
added r t key = record r {
  tasks = insert t.id t r.tasks;
  sent = insert t.id [] r.sent;
  idempotency = insert key (t.id, t.objective) r.idempotency;
}

fresh_other :
    (i j : String) (t : Task) (d : Dict String Task)
    → lookup i d ≡ none
    → lookup j d ≡ some t
    → i ≢ j
fresh_other i j t d n h e = ground (arith, n, h, ap (λ x. lookup x d) e)

-- A new task displaces none.
pub added-Extends :
    (r : Repository) (t : Task) (key : String)
    → lookup t.id r.tasks ≡ none
    → Extends r (added r t key)
added-Extends r t key n i u h = (u, lookup-insert_fresh t.id i t u r.tasks n h, IsNext-refl u)

pub added-IsSound :
    (r : Repository) (t : Task) (key : String)
    → lookup t.id r.tasks ≡ none
    → IsSound r
    → IsSound (added r t key)
added-IsSound r t key n s = record {
  ids = λ i u k. elim (lookup-insert_cases t.id i t u r.tasks k) [
    | inl (e, q) ↦ ap (λ (x : Task). x.id) (sym q) ∙ e
    | inr (_, q) ↦ s.ids i u q
  ];
  boxes = λ i u k. elim (lookup-insert_cases t.id i t u r.tasks k) [
    | inl (e, q) ↦
        ([], ap (λ x. lookup x (insert t.id [] r.sent)) (sym e) ∙ lookup-insert_self t.id [] r.sent)
    | inr (ne, q) ↦
        let (ms, b) = s.boxes i u q in (ms, lookup-insert_other t.id i [] ms r.sent ne b)
  ];
  keys = λ k i o q. elim (lookup-insert_cases key k (t.id, t.objective) (i, o) r.idempotency q) [
    | inl (_, e) ↦ (
      t,
      ap (λ (p : String × String). lookup p.0 (insert t.id t r.tasks)) (sym e)
          ∙ lookup-insert_self t.id t r.tasks,
      ap (λ (p : String × String). p.1) e,
    )
    | inr (_, old) ↦
        let (u, h, same) = s.keys k i o old in (u, lookup-insert_fresh t.id i t u r.tasks n h, same)
  ];
  sendings = λ k c q.
      let (u, ms, m, h, b, f) = s.sendings k c q in
      (
        u,
        ms,
        m,
        lookup-insert_fresh t.id c.task_id t u r.tasks n h,
        lookup-insert_other t.id c.task_id [] ms r.sent (fresh_other t.id c.task_id u r.tasks n h)
            b,
        f,
      );
  cancels = λ k i q.
      let (u, h, e) = s.cancels k i q in (u, lookup-insert_fresh t.id i t u r.tasks n h, e);
}

-- ===== src/Tasks/Integrity.antt =====
-- What the dictionaries of the task repository promise each other, and what a call leaves of a task.
use mathlib.Core.Path.{subst}
use nju_personal_assistant.Base.{
  ◌≤◌, String, true, List, some, Dict, lookup, insert, lookup-insert, ◌≡◌, ◌≢◌, ◌⊎◌, refl, sym, ap,
  ◌∙◌, arith, Bool-cases, inl, inr, ◌==◌, string_eq, nat_eq, ==→eq,
}
use nju_personal_assistant.Domain.Enums.{TaskState, task_terminal, task_state_eq}
use nju_personal_assistant.Domain.Errors.{ok}
use nju_personal_assistant.Tasks.Repository.{
  Task, TaskMessage, MessageCommand, Repository, find_message,
}

-- The message that a command sent is in the box of its task.
abbrev pub IsSent : Dict String Task → Dict String (List TaskMessage) → MessageCommand → Type 0
IsSent tasks sent c =
    (t : Task) × (ms : List TaskMessage) × (m : TaskMessage) × (lookup c.task_id tasks ≡ some t)
    × (lookup c.task_id sent ≡ some ms)
    × (find_message c.message_id ms ≡ ok m)

pub record IsSound (r : Repository) : Type 0 where
  pub ids : (i : String) (t : Task) → lookup i r.tasks ≡ some t → t.id ≡ i
  pub boxes :
      (i : String) (t : Task)
      → lookup i r.tasks ≡ some t
      → (ms : List TaskMessage) × (lookup i r.sent ≡ some ms)
  pub keys :
      (key i objective : String)
      → lookup key r.idempotency ≡ some (i, objective)
      → (t : Task) × (lookup i r.tasks ≡ some t) × (t.objective ≡ objective)
  pub sendings :
      (key : String) (c : MessageCommand)
      → lookup key r.message_commands ≡ some c
      → IsSent r.tasks r.sent c
  pub cancels :
      (key i : String)
      → lookup key r.cancel_commands ≡ some i
      → (t : Task) × (lookup i r.tasks ≡ some t) × (t.state ≡ TaskState.cancelled)

-- What may take the place of a stored task: the same task at a later version, and one that ended keeps
-- its state.
pub record IsNext (t t' : Task) : Type 0 where
  pub id : t'.id ≡ t.id
  pub objective : t'.objective ≡ t.objective
  pub version : t.version ≤ t'.version
  pub settled : task_terminal t.state ≡ true → t'.state ≡ t.state

pub IsNext-refl : (t : Task) → IsNext t t
IsNext-refl t = record { id = refl; objective = refl; version = omega arith; settled = λ h. refl }

pub IsNext-trans : (t u v : Task) → IsNext t u → IsNext u v → IsNext t v
IsNext-trans t u v n m = record {
  id = m.id ∙ n.id;
  objective = m.objective ∙ n.objective;
  version = omega (arith, n.version, m.version);
  settled = λ h. m.settled (ap task_terminal (n.settled h) ∙ h) ∙ n.settled h;
}

-- Each stored task stays.
abbrev pub Extends : Repository → Repository → Type 0
Extends r r' =
    (i : String) (t : Task)
    → lookup i r.tasks ≡ some t
    → (t' : Task) × (lookup i r'.tasks ≡ some t') × IsNext t t'

pub Extends-refl : (r : Repository) → Extends r r
Extends-refl r i t h = (t, h, IsNext-refl t)

pub Extends-trans : (r s u : Repository) → Extends r s → Extends s u → Extends r u
Extends-trans r s u f g i t h =
    let (t', h', n) = f i t h in
    let (t'', h'', m) = g i t' h' in (t'', h'', IsNext-trans t t' t'' n m)

pub cancelled_stays :
    (t t' : Task) → IsNext t t' → t.state ≡ TaskState.cancelled → t'.state ≡ TaskState.cancelled
unfolding task_terminal
cancelled_stays t t' n h = n.settled (ap task_terminal h) ∙ h

-- A key of an extended dictionary is the new one or an old one.
pub lookup-insert_cases {ℓ} :
    {V : Type ℓ} (i j : String) (v w : V) (d : Dict String V)
    → lookup j (insert i v d) ≡ some w
    → ((i ≡ j) × (v ≡ w)) ⊎ ((i ≢ j) × (lookup j d ≡ some w))
lookup-insert_cases i j v w d h = elim (Bool-cases (i == j)) [
  | inl e ↦ inl (==→eq i j e, ground (arith, lookup-insert i j v d))
  | inr e ↦
      inr (λ q. ground (arith, string_eq.equal_iff i j), ground (arith, lookup-insert i j v d))
]

pub some_injective {ℓ} : {A : Type ℓ} (a b : A) → some a ≡ some b → a ≡ b
some_injective a b h = ground (arith, h)

-- A write of a later version of a stored task
module _ (r : Repository) (i : String) (t t' : Task) (h : lookup i r.tasks ≡ some t)
    (n : IsNext t t') where
  abbrev pub rewritten : Repository
  rewritten = record r { tasks = insert i t' r.tasks }

  pub rewritten-Extends : Extends r rewritten
  rewritten-Extends j u k = elim (Bool-cases (i == j)) [
    | inl e ↦
        let same : some t ≡ some u = sym h ∙ ap (λ x. lookup x r.tasks) (==→eq i j e) ∙ k in
        (
          t',
          ground (arith, lookup-insert i j t' r.tasks),
          subst (λ x. IsNext x t') (some_injective t u same) n,
        )
    | inr e ↦ (u, ground (arith, lookup-insert i j t' r.tasks), IsNext-refl u)
  ]

  pub rewritten-IsSound : IsSound r → IsSound rewritten
  rewritten-IsSound s = record {
    ids = λ j u k. elim (lookup-insert_cases i j t' u r.tasks k) [
      | inl (e, q) ↦ ap (λ (x : Task). x.id) (sym q) ∙ n.id ∙ s.ids i t h ∙ e
      | inr (_, q) ↦ s.ids j u q
    ];
    boxes = λ j u k. elim (lookup-insert_cases i j t' u r.tasks k) [
      | inl (e, q) ↦
          subst (λ x. (ms : List TaskMessage) × (lookup x r.sent ≡ some ms)) e (s.boxes i t h)
      | inr (_, q) ↦ s.boxes j u q
    ];
    keys = λ key j o k.
        let (u, q, same) = s.keys key j o k in
        let (u', q', m) = rewritten-Extends j u q in (u', q', m.objective ∙ same);
    sendings = λ key c k.
        let (u, ms, m, q, q', found) = s.sendings key c k in
        let (u', z, _) = rewritten-Extends c.task_id u q in (u', ms, m, z, q', found);
    cancels = λ key j k.
        let (u, q, e) = s.cancels key j k in
        let (u', q', m) = rewritten-Extends j u q in (u', q', cancelled_stays u u' m e);
  }

module _ (r : Repository) (s : IsSound r) where
  pub record_cancel-IsSound :
      (key i : String) (t : Task)
      → lookup i r.tasks ≡ some t
      → t.state ≡ TaskState.cancelled
      → IsSound (record r { cancel_commands = insert key i r.cancel_commands })
  record_cancel-IsSound key i t h e = record {
    ids = s.ids;
    boxes = s.boxes;
    keys = s.keys;
    sendings = s.sendings;
    cancels = λ k j q. elim (lookup-insert_cases key k i j r.cancel_commands q) [
      | inl (_, same) ↦ (t, ap (λ x. lookup x r.tasks) (sym same) ∙ h, e)
      | inr (_, old) ↦ s.cancels k j old
    ];
  }

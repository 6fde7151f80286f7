-- ===== src/Tasks/Replay.antt =====
-- What a repeated `create` of the task service does.
use mathlib.Core.Path.{subst}
use nju_personal_assistant.Base.{
  ℕ, String, false, List, Option, none, some, lookup, insert, lookup-insert_self, ◌≡◌, refl, sym,
  ap, ◌∙◌, arith, Bool-cases, inl, inr, ◌==◌, string_eq, nat_eq, ==-refl, ==→eq,
}
use nju_personal_assistant.Domain.Enums.{created, task_state_eq}
use nju_personal_assistant.Domain.Errors.{Result, ok, err}
use nju_personal_assistant.Domain.Exec.{Exec, continue}
use nju_personal_assistant.Domain.Text.{is_blank, strip}
use nju_personal_assistant.Tasks.Repository.{
  Task, Repository, create, create_at, create_new, stored, save, save_over,
}
use nju_personal_assistant.Tasks.Integrity.{IsSound}
use nju_personal_assistant.Tasks.Replies.{create-Own}
use nju_personal_assistant.Tasks.Service.{
  World, Command, run, fresh_world, Moments, create_task, start_if_new, start, enqueue_start,
  mark_queued, announce_created, requeued, new_task, on_repository,
}
use nju_personal_assistant.Tasks.Promises.{run-IsWhole}

-- A call that returned went on after each of its parts.
went_on {ℓ κ} :
    {Q : Type ℓ} {R : Type κ} (p : Result Q × World) (rest : Q → Exec World R) (t : R)
    → (continue p.0 rest p.1).0 ≡ ok t
    → (q : Q) × (p.0 ≡ ok q) × (continue p.0 rest p.1 ≡ rest q p.1)
went_on (err e, w) rest t h = absurd (ground (arith, h))
went_on (ok q, w) rest t h = (q, refl, refl)

-- The key names the task, which is stored, and has left the state CREATED.
record IsReplayable (w : World) (key objective : String) (t : Task) : Type 0 where
  named : lookup key w.repository.idempotency ≡ some (t.id, objective)
  kept : lookup t.id w.repository.tasks ≡ some t
  moved : (t.state == created) ≡ false

module _ (r : Repository) where
  abbrev Names : String → String → Result Task × Repository → Type 0
  Names key objective p =
      (u : Task) → p.0 ≡ ok u → lookup key p.1.idempotency ≡ some (u.id, objective)

  create_new-Names :
      (o : Option Task) (t : Task) (key : String) → Names key t.objective (create_new o t key r)
  unfolding create_new
  create_new-Names (some _) t key u e = absurd (ground (arith, e))
  create_new-Names none t key u e =
      let same : t ≡ u = ground (arith, e) in
      lookup-insert_self key (t.id, t.objective) r.idempotency
      ∙ ap (λ (x : Task). some (x.id, t.objective)) same

  stored-Names :
      (i key objective : String) (o : Option Task)
      → lookup i r.tasks ≡ o
      → IsSound r
      → lookup key r.idempotency ≡ some (i, objective)
      → Names key objective (stored o r)
  unfolding stored
  stored-Names i key objective none h s k u e = absurd (ground (arith, e))
  stored-Names i key objective (some v) h s k u e =
      let same : v ≡ u = ground (arith, e) in
      k ∙ ap (λ x. some (x, objective)) (sym (s.ids i v h) ∙ ap (λ (x : Task). x.id) same)

  create_at-Names :
      (o : Option (String × String)) (t : Task) (key : String)
      → lookup key r.idempotency ≡ o
      → IsSound r
      → Names key t.objective (create_at o t key r)
  unfolding create_at
  create_at-Names none t key h s = create_new-Names (lookup t.id r.tasks) t key
  create_at-Names (some (i, o)) t key h s = elim (Bool-cases (o == t.objective)) [
    | inl e ↦ rw e (
        subst (λ x. Names key x (stored (lookup i r.tasks) r)) (==→eq o t.objective e)
          (stored-Names i key o (lookup i r.tasks) refl s h))
    | inr e ↦ rw e (λ u x. absurd (ground (arith, x)))
  ]

  create-Names : (t : Task) (key : String) → IsSound r → Names key t.objective (create t key r)
  unfolding create
  create-Names t key s = create_at-Names (lookup key r.idempotency) t key refl s

  save_over_lem :
      (o : Option Task) (t : Task) (expected : ℕ) (u : Task)
      → (save_over o t expected r).0 ≡ ok u
      → save_over o t expected r ≡ (ok t, record r { tasks = insert t.id t r.tasks })
  unfolding save_over
  save_over_lem none t expected u h = absurd (ground (arith, h))
  save_over_lem (some c) t expected u h = ground (arith, h)

ok_injective : (t u : Task) → ok t ≡ ok u → t ≡ u
ok_injective t u h = ground (arith, h)

start_answers :
    (job actor : String) (at : Moments) (u t : Task) (w : World)
    → (start job actor at u w).0 ≡ ok t
    → (t ≡ requeued u)
      × ((start job actor at u w).1.repository
          ≡ record w.repository { tasks = insert u.id (requeued u) w.repository.tasks })
unfolding start enqueue_start mark_queued announce_created save
start_answers job actor at u t w h =
    let (_, _, e) =
      went_on (enqueue_start job at.enqueued_at u w) (λ _. mark_queued actor at u) t h in
    let w' = (enqueue_start job at.enqueued_at u w).1 in
    let r = w.repository in
    let written = on_repository (save (requeued u) u.version) w' in
    let h' : (mark_queued actor at u w').0 ≡ ok t =
      ap (λ (p : Result Task × World). p.0) (sym e) ∙ h in
    let (saved, k, e') = went_on written (announce_created actor at) t h' in
    let whole = save_over_lem r (lookup u.id r.tasks) (requeued u) u.version saved k in
    let final : start job actor at u w ≡ announce_created actor at saved written.1 = e ∙ e' in
    (
      ok_injective t saved (sym h ∙ ap (λ (p : Result Task × World). p.0) final)
          ∙ ok_injective saved (requeued u)
              (sym k ∙ ap (λ (p : Result Task × Repository). p.0) whole),
      ap (λ (p : Result Task × World). p.1.repository) final
          ∙ ap (λ (p : Result Task × Repository). p.1) whole,
    )

start_if_new-IsReplayable :
    (job actor : String) (at : Moments) (u t : Task) (w : World) (key objective : String)
    → lookup key w.repository.idempotency ≡ some (u.id, objective)
    → lookup u.id w.repository.tasks ≡ some u
    → (start_if_new job actor at u w).0 ≡ ok t
    → IsReplayable (start_if_new job actor at u w).1 key objective t
unfolding start_if_new
start_if_new-IsReplayable job actor at u t w key objective n k =
    elim (Bool-cases (u.state == created)) [
      | inl e ↦ rw e (λ h.
          let (same, r) = start_answers job actor at u t w h in
          record {
            named =
                ap (λ (x : Repository). lookup key x.idempotency) r
                ∙ n
                ∙ ap (λ (x : Task). some (x.id, objective)) (sym same);
            kept =
                ap (λ (x : Repository). lookup t.id x.tasks) r
                ∙ ap (λ (x : Task). lookup x.id (insert u.id (requeued u) w.repository.tasks)) same
                ∙ lookup-insert_self u.id (requeued u) w.repository.tasks
                ∙ ap some (sym same);
            moved = ap (λ (x : Task). x.state == created) same;
          })
      | inr e ↦ rw e (λ h.
          let same = ok_injective u t h in
          record {
            named = n ∙ ap (λ (x : Task). some (x.id, objective)) same;
            kept = ap (λ (x : Task). lookup x.id w.repository.tasks) (sym same) ∙ k ∙ ap some same;
            moved = ap (λ (x : Task). x.state == created) (sym same) ∙ e;
          })
    ]

module _ (fresh job objective key actor : String) (at : Moments) where
  abbrev call : Exec World Task
  call = create_task fresh job objective key actor at

  abbrev written : World → Result Task × World
  written w = on_repository (create (new_task fresh objective at.created_at) key) w

  create_task_open :
      (w : World)
      → is_blank objective ≡ false
      → is_blank key ≡ false
      → call w ≡ continue (written w).0 (start_if_new job actor at) (written w).1
  unfolding create_task
  create_task_open w e e' = rw (e, e') refl

  create_task_checks :
      (t : Task) (w : World)
      → (call w).0 ≡ ok t
      → (is_blank objective ≡ false) × (is_blank key ≡ false)
  unfolding create_task
  create_task_checks t w = elim (Bool-cases (is_blank objective)) [
    | inl e ↦ rw e (λ h. absurd (ground (arith, h)))
    | inr e ↦ elim (Bool-cases (is_blank key)) [
      | inl e' ↦ rw (e, e') (λ h. absurd (ground (arith, h)))
      | inr e' ↦ λ h. (e, e')
    ]
  ]

  create_task-IsReplayable :
      (t : Task) (w : World)
      → IsSound w.repository
      → (call w).0 ≡ ok t
      → IsReplayable (call w).1 key (strip objective) t
  unfolding new_task
  create_task-IsReplayable t w s h =
      let (e, e') = create_task_checks t w h in
      let opened = create_task_open w e e' in
      let h' = ap (λ (p : Result Task × World). p.0) (sym opened) ∙ h in
      let (u, k, went) = went_on (written w) (start_if_new job actor at) t h' in
      let x = new_task fresh objective at.created_at in
      let whole = opened ∙ went in
      subst (λ (p : Result Task × World). IsReplayable p.1 key (strip objective) t) (sym whole)
        (start_if_new-IsReplayable job actor at u t (written w).1 key (strip objective)
          (create-Names w.repository x key s u k) (create-Own w.repository x key s u k)
          (ap (λ (p : Result Task × World). p.0) (sym whole) ∙ h))

  replayed_start :
      (t : Task) (w : World)
      → (t.state == created) ≡ false
      → start_if_new job actor at t w ≡ (ok t, w)
  unfolding start_if_new
  replayed_start t w e = rw e refl

  replayed_write :
      (t : Task) (w : World) → IsReplayable w key (strip objective) t → written w ≡ (ok t, w)
  unfolding create create_at stored new_task
  replayed_write t w i = rw (i.named, ==-refl (strip objective), i.kept) refl

  create_task_again :
      (t : Task) (w : World)
      → is_blank objective ≡ false
      → is_blank key ≡ false
      → IsReplayable w key (strip objective) t
      → call w ≡ (ok t, w)
  create_task_again t w e e' i =
      create_task_open w e e'
      ∙ ap (λ (p : Result Task × World). continue p.0 (start_if_new job actor at) p.1)
          (replayed_write t w i)
      ∙ replayed_start t w i.moved

-- After any calls, where `create` returned a task, another `create` with the same objective and the same
-- key returns that task again and changes nothing: no task, job, event or audit entry is added.
pub create_task_twice :
    (commands : List Command) (fresh job other other_job objective key actor other_actor : String)
    (at later : Moments) (t : Task)
    → (create_task fresh job objective key actor at (run commands fresh_world)).0 ≡ ok t
    → create_task other other_job objective key other_actor later
        (create_task fresh job objective key actor at (run commands fresh_world)).1
      ≡ (ok t, (create_task fresh job objective key actor at (run commands fresh_world)).1)
create_task_twice commands fresh job other other_job objective key actor other_actor at later t h =
    let w = run commands fresh_world in
    let (e, e') = create_task_checks fresh job objective key actor at t w h in
    create_task_again other other_job objective key other_actor later t _ e e'
      (create_task-IsReplayable fresh job objective key actor at t w (run-IsWhole commands).tasks h)

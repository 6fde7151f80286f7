-- ===== src/Tasks/Replies.antt =====
-- The task that a call of the repository returns is the one that it stores.
use nju_personal_assistant.Base.{
  String, Option, none, some, lookup, insert, lookup-insert_self, ◌≡◌, refl, sym, ap, ◌∙◌, arith,
  ◌==◌, string_eq, nat_eq, if_both, not,
}
use nju_personal_assistant.Domain.Errors.{Result, ok}
use nju_personal_assistant.Tasks.Repository.{
  Task, Repository, stored, create, create_at, create_new, get, found,
}
use nju_personal_assistant.Tasks.Integrity.{IsSound}

module _ (r : Repository) where
  -- Where a call returned a task, its world stores it.
  abbrev Returns : String → Result Task × Repository → Type 0
  Returns i p = (t : Task) → p.0 ≡ ok t → lookup i p.1.tasks ≡ some t

  stored-Returns : (i : String) (o : Option Task) → lookup i r.tasks ≡ o → Returns i (stored o r)
  unfolding stored
  stored-Returns i none h t e = absurd (ground (arith, e))
  stored-Returns i (some u) h t e = ground (arith, h, e)

  stored_unchanged : (o : Option Task) → (stored o r).1 ≡ r
  unfolding stored
  stored_unchanged none = refl
  stored_unchanged (some _) = refl

  found-Returns : (i : String) (o : Option Task) → lookup i r.tasks ≡ o → Returns i (found i o r)
  unfolding found
  found-Returns i none h t e = absurd (ground (arith, e))
  found-Returns i (some u) h t e = ground (arith, h, e)

  pub get-Returns : (i : String) → Returns i (get i r)
  unfolding get
  get-Returns i t e = found-Returns i (lookup i r.tasks) refl t e

  pub get_unchanged : (i : String) → (get i r).1 ≡ r
  unfolding get found
  get_unchanged i = ground arith

  -- The same, under the id of the task
  abbrev Own : Result Task × Repository → Type 0
  Own p = (u : Task) → p.0 ≡ ok u → lookup u.id p.1.tasks ≡ some u

  create_new-Own : (o : Option Task) (t : Task) (key : String) → Own (create_new o t key r)
  unfolding create_new
  create_new-Own (some _) t key u e = absurd (ground (arith, e))
  create_new-Own none t key u e =
      let same : t ≡ u = ground (arith, e) in
      ap (λ (x : Task). lookup x.id (insert t.id t r.tasks)) (sym same)
      ∙ lookup-insert_self t.id t r.tasks
      ∙ ap some same

  stored-Own : (i : String) → IsSound r → Own (stored (lookup i r.tasks) r)
  stored-Own i s u e =
      let same = stored_unchanged (lookup i r.tasks) in
      let h : lookup i r.tasks ≡ some u =
        ap (λ (x : Repository). lookup i x.tasks) (sym same)
        ∙ stored-Returns i (lookup i r.tasks) refl u e in
      ap (λ (x : Repository). lookup u.id x.tasks) same
      ∙ ap (λ x. lookup x r.tasks) (s.ids i u h)
      ∙ h

  create_at-Own :
      (o : Option (String × String)) (t : Task) (key : String)
      → IsSound r
      → Own (create_at o t key r)
  unfolding create_at
  create_at-Own none t key s = create_new-Own (lookup t.id r.tasks) t key
  create_at-Own (some (i, o)) t key s =
      if_both Own (not (o == t.objective)) _ _ (λ u e. absurd (ground (arith, e))) (stored-Own i s)

  pub create-Own : (t : Task) (key : String) → IsSound r → Own (create t key r)
  unfolding create
  create-Own t key s = create_at-Own (lookup key r.idempotency) t key s

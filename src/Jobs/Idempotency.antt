-- ===== src/Jobs/Idempotency.antt =====
-- What a repeated `enqueue` does.
use mathlib.Core.Path.{subst}
use nju_personal_assistant.Domain.Text.{is_blank}
use nju_personal_assistant.Base.{
  ℕ, String, false, ◌≡◌, ◌∙◌, sym, ap, refl, arith, Option, some, none, lookup, lookup-insert_self,
  HasEq, ==-refl, string_eq, pair_eq,
}
use nju_personal_assistant.Domain.Errors.{ok}
use nju_personal_assistant.Domain.Values.{ℤ}
use nju_personal_assistant.Jobs.Queue.{
  Job, Queue, reuse, add_job, enqueue_at, new_job, enqueue, below_one,
}

module _ {P : Type 0} ⦃e : HasEq P⦄ where
  reuse_same : (job : Job P) (q : Queue P) → reuse (some job) job.payload q ≡ (ok job, q)
  unfolding reuse
  reuse_same job q = ground (arith, ==-refl job.payload)

  reuse_again :
      (o : Option (Job P)) (p : P) (q : Queue P) (j : Job P)
      → (reuse o p q).0 ≡ ok j
      → reuse o p q ≡ (ok j, q)
  unfolding reuse
  reuse_again none p q j h = ground arith
  reuse_again (some job) p q j h = ground (arith, h)

  module _ (first second kind key : String) (payload : P) (t u : ℕ) (from at : Option ℕ)
      (m n : ℤ) where
    abbrev old : Job P
    old = new_job first kind payload key t from m

    abbrev new : Job P
    new = new_job second kind payload key u at n

    enqueued_again :
        (q : Queue P) (o : Option String) (j : Job P)
        → lookup (kind, key) q.idempotency ≡ o
        → (enqueue_at o old q).0 ≡ ok j
        → enqueue_at
            (lookup (kind, key) (enqueue_at o old q).1.idempotency)
            new
            (enqueue_at o old q).1
          ≡ (ok j, (enqueue_at o old q).1)
    unfolding enqueue_at add_job new_job
    enqueued_again q none j h r =
        let after = (add_job old q).1 in
        ap (λ o. enqueue_at o new after) (lookup-insert_self (kind, key) old.id q.idempotency)
        ∙ ap (λ o. reuse o payload after) (lookup-insert_self old.id old q.jobs)
        ∙ reuse_same old after
        ∙ ap (λ r. (r, after)) r
    enqueued_again q (some i) j h r =
        let same : (reuse (lookup i q.jobs) payload q).1 ≡ q =
          ap (λ x. x.1) (reuse_again (lookup i q.jobs) payload q j r) in
        subst (λ x. enqueue_at (lookup (kind, key) x.idempotency) new x ≡ (ok j, x)) (sym same)
          (ap (λ o. enqueue_at o new q) h ∙ reuse_again (lookup i q.jobs) payload q j r)

    enqueue_open :
        (q : Queue P)
        → is_blank key ≡ false
        → below_one m ≡ false
        → enqueue first kind payload key t from m q
          ≡ enqueue_at (lookup (kind, key) q.idempotency) old q
    unfolding enqueue
    enqueue_open q a b = ground (arith, a, b)

    enqueue_checks :
        (q : Queue P) (j : Job P)
        → (enqueue first kind payload key t from m q).0 ≡ ok j
        → (is_blank key ≡ false) × (below_one m ≡ false)
    unfolding enqueue
    enqueue_checks q j r = ground (arith, r)

-- A job that was enqueued is returned again, unchanged, by another `enqueue` of its kind, key and
-- payload, which changes nothing.
pub enqueue_twice :
    {P : Type 0} ⦃e : HasEq P⦄ (first second kind key : String) (payload : P) (t u : ℕ)
    (from at : Option ℕ) (m n : ℤ) (q : Queue P) (j : Job P)
    → below_one n ≡ false
    → (enqueue first kind payload key t from m q).0 ≡ ok j
    → enqueue second kind payload key u at n (enqueue first kind payload key t from m q).1
      ≡ (ok j, (enqueue first kind payload key t from m q).1)
enqueue_twice first second kind key payload t u from at m n q j b r =
    let (a, c) = enqueue_checks first second kind key payload t u from at m n q j r in
    let opened = enqueue_open first second kind key payload t u from at m n q a c in
    subst (λ x. enqueue second kind payload key u at n x.1 ≡ (ok j, x.1)) (sym opened)
      (enqueue_open second first kind key payload u t at from n m _ a b
        ∙ enqueued_again first second kind key payload t u from at m n q
            (lookup (kind, key) q.idempotency) j refl (ap (λ x. x.0) (sym opened) ∙ r))

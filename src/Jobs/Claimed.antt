-- ===== src/Jobs/Claimed.antt =====
-- `claim` hands out no job that a worker holds.
use nju_personal_assistant.Base.{
  ℕ, String, ◌≡◌, refl, arith, List, [], ◌∷◌, Option, some, none, ap, sym, ◌∙◌, ◌⊎◌, inl, inr,
  map_values, lookup-map_values, lookup-insert_other, ◌≢◌, Dict, lookup, map, All, nat_eq,
  string_eq,
}
use nju_personal_assistant.Domain.Values.{ℤ}
use nju_personal_assistant.Jobs.Queue.{Job, Queue, JobState, ready, leased}
use nju_personal_assistant.Jobs.Claims.{
  revive, is_candidate, first_candidate, take_candidate, lease, claim, earlier, consider,
}
use nju_personal_assistant.Jobs.Leases.{IsHeld}

apart : leased ≢ ready
apart e = ground (arith, e)

module _ {P : Type 0} where
  -- A job is stored under its own id, once.
  abbrev pub IsKeyed : Dict String (Job P) → Dict String (Job P) → Type 0
  IsKeyed all jobs =
      All (λ entry. (entry.1.id ≡ entry.0) × (lookup entry.0 all ≡ some entry.1)) jobs

  revive-id : (now : ℕ) (job : Job P) → (revive now job).id ≡ job.id
  unfolding revive
  revive-id now job = ground arith

  -- After the leases that ran out are gone, each job of the list is the stored one.
  revived-IsKeyed :
      (now : ℕ) (all jobs : Dict String (Job P))
      → IsKeyed all jobs
      → All
          (λ job. lookup job.id (map_values (revive now) all) ≡ some job)
          (map (λ entry. entry.1) (map_values (revive now) jobs))
  revived-IsKeyed now all [] k = tt
  revived-IsKeyed now all ((i, job) ∷ jobs) (k, ks) = (
    ap (λ x. lookup x (map_values (revive now) all)) (revive-id now job ∙ k.0)
        ∙ lookup-map_values (revive now) i all job k.1,
    revived-IsKeyed now all jobs ks,
  )

  consider_lem :
      (now : ℕ) (job best : Job P) (o : Option (Job P))
      → consider now job o ≡ some best
      → ((job ≡ best) × (job.state ≡ ready)) ⊎ (o ≡ some best)
  unfolding consider is_candidate earlier
  consider_lem now job best none h = ground arith
  consider_lem now job best (some o) h = ground arith

  first_candidate_lem :
      (all : Dict String (Job P)) (now : ℕ) (jobs : List (Job P)) (best : Job P)
      → All (λ job. lookup job.id all ≡ some job) jobs
      → first_candidate now jobs ≡ some best
      → (lookup best.id all ≡ some best) × (best.state ≡ ready)
  unfolding first_candidate
  first_candidate_lem all now [] best a h = ground arith
  first_candidate_lem all now (job ∷ jobs) best (q, a) h =
      elim (consider_lem now job best (first_candidate now jobs) h) [
        | inl (e, r) ↦
            (ap (λ x. lookup x.id all) (sym e) ∙ q ∙ ap some e, ap (λ x. x.state) (sym e) ∙ r)
        | inr e ↦ first_candidate_lem all now jobs best a e
      ]

  abbrev state_of : Option (Job P) → JobState
  state_of none = ready
  state_of (some job) = job.state

  revive_held : (v : String) (now : ℕ) (job : Job P) → IsHeld job v now → revive now job ≡ job
  unfolding revive
  revive_held v now job held = ground (arith, held.held, held.until.1, held.until.2)

  take_candidate_lem :
      (w : String) (now : ℕ) (s : ℤ) (q : Queue P) (i : String) (job : Job P) (o : Option (Job P))
      → lookup i q.jobs ≡ some job
      → job.state ≡ leased
      → ((best : Job P)
          → o ≡ some best
          → (lookup best.id q.jobs ≡ some best) × (best.state ≡ ready))
      → lookup i (take_candidate w now s o q).1.jobs ≡ some job
  unfolding take_candidate
  take_candidate_lem w now s q i job none h l f = h
  take_candidate_lem w now s q i job (some best) h l f =
      lookup-insert_other best.id i (lease w now s best) job q.jobs
        (λ e.
          let p : some job ≡ some best =
            sym h ∙ ap (λ x. lookup x q.jobs) (sym e) ∙ (f best refl).0 in
          apart (sym l ∙ ap state_of p ∙ (f best refl).1))
        h

  -- `claim` leaves every job that a worker holds as it is, in a queue whose jobs stand under their ids.
  pub claim_spares :
      (w v : String) (now : ℕ) (s : ℤ) (q : Queue P) (i : String) (job : Job P)
      → IsKeyed q.jobs q.jobs
      → lookup i q.jobs ≡ some job
      → IsHeld job v now
      → lookup i (claim w now s q).1.jobs ≡ some job
  unfolding claim
  claim_spares w v now s q i job k h held =
      let all = map_values (revive now) q.jobs in
      let kept : lookup i all ≡ some job =
        lookup-map_values (revive now) i q.jobs job h ∙ ap some (revive_held v now job held) in
      let taken =
        take_candidate_lem w now s (record q { jobs = all }) i job
          (first_candidate now (map (λ entry. entry.1) all)) kept held.held
          (λ best e.
            first_candidate_lem all now (map (λ entry. entry.1) all) best
              (revived-IsKeyed now q.jobs q.jobs k) e) in
      ground (arith, h, taken)

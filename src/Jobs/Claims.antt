-- ===== src/Jobs/Claims.antt =====
-- `claim` of src/personal_assistant/infrastructure/memory/job_queue.py: the leases that ran out, and the
-- first job that is ready.
use nju_personal_assistant.Base.{
  ℕ, ◌+◌, String, Bool, List, [], ◌∷◌, Option, none, some, insert, leb, ltb, ◌==◌, ◌&&◌, ◌||◌,
  nat_eq, string_eq, pair_eq, if◌then◌else◌, map, map_values,
}
use nju_personal_assistant.Domain.Errors.{ok, raise, value_error}
use nju_personal_assistant.Domain.Exec.{Exec}
use nju_personal_assistant.Domain.Values.{ℤ, leb_text}
use nju_personal_assistant.Jobs.Queue.{
  Job, Queue, ready, leased, is_ready, is_leased, is_past, lease_end, below_one, on_jobs,
}

module _ {P : Type 0} where
  -- A lease that ran out gives the job back.
  unfoldable pub revive : ℕ → Job P → Job P
  revive now job =
      if is_leased job.state && is_past job.lease_until now
      then record job { state = ready; lease_owner = none; lease_until = none }
      else job

  unfoldable pub is_candidate : ℕ → Job P → Bool
  is_candidate now job = is_ready job.state && leb job.available_at now

  -- The order of (available_at, created_at, id).
  unfoldable pub leb_job : Job P → Job P → Bool
  leb_job a b =
      ltb a.available_at b.available_at
      || (a.available_at == b.available_at
          && (ltb a.created_at b.created_at
              || (a.created_at == b.created_at && leb_text a.id b.id)))

  unfoldable pub earlier : Job P → Option (Job P) → Option (Job P)
  unfolding leb_job
  earlier job none = some job
  earlier job (some best) = if leb_job job best then some job else some best

  unfoldable pub consider : ℕ → Job P → Option (Job P) → Option (Job P)
  unfolding earlier is_candidate
  consider now job best = if is_candidate now job then earlier job best else best

  -- `min` of the candidates of a list of jobs
  unfoldable pub first_candidate : ℕ → List (Job P) → Option (Job P)
  unfolding consider
  first_candidate now [] = none
  first_candidate now (job ∷ jobs) = consider now job (first_candidate now jobs)

  unfoldable pub lease : String → ℕ → ℤ → Job P → Job P
  unfolding lease_end
  lease worker_id now lease_seconds job = record job {
    state = leased;
    lease_owner = some worker_id;
    lease_until = some (lease_end now lease_seconds);
    attempts = job.attempts + 1;
    version = job.version + 1;
  }

  unfoldable pub take_candidate : String → ℕ → ℤ → Option (Job P) → Exec (Queue P) (Option (Job P))
  unfolding lease
  take_candidate worker_id now lease_seconds none q = (ok none, q)
  take_candidate worker_id now lease_seconds (some job) q =
      let taken = lease worker_id now lease_seconds job in
      (ok (some taken), on_jobs (insert taken.id taken) q)

  unfoldable pub claim : String → ℕ → ℤ → Exec (Queue P) (Option (Job P))
  unfolding take_candidate first_candidate revive
  claim worker_id now lease_seconds q =
      if below_one lease_seconds
      then (raise value_error "lease_seconds must be positive", q)
      else let jobs = map_values (revive now) q.jobs in
        take_candidate worker_id now lease_seconds
          (first_candidate now (map (λ entry. entry.1) jobs)) (record q { jobs = jobs })

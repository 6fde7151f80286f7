-- ===== src/Jobs/Holding.antt =====
-- The methods of src/personal_assistant/infrastructure/memory/job_queue.py that ask for a lease.
use nju_personal_assistant.Base.{
  ℕ, ◌+◌, String, Bool, false, [], ◌∷◌, Option, none, some, lookup, insert, leb, ltb, not, ◌==◌,
  ◌&&◌, nat_eq, string_eq, pair_eq, if◌then◌else◌,
}
use nju_personal_assistant.Domain.Errors.{ok, raise, concat, key_error, lease_conflict}
use nju_personal_assistant.Domain.Exec.{Exec}
use nju_personal_assistant.Domain.Values.{ℤ}
use nju_personal_assistant.Jobs.Queue.{
  Job, Queue, ready, succeeded, failed, dead_letter, waiting_reconciliation, is_leased, lease_end,
  or_now, on_jobs,
}

abbrev pub owns : Option String → String → Bool
owns none worker_id = false
owns (some w) worker_id = w == worker_id

abbrev pub is_live : Option ℕ → ℕ → Bool
is_live none now = false
is_live (some t) now = not (leb t now)

module _ {P : Type 0} where
  -- The condition of `_require_lease`
  unfoldable pub holds_lease : Job P → String → ℕ → Bool
  holds_lease job worker_id now =
      is_leased job.state && owns job.lease_owner worker_id && is_live job.lease_until now

  module _ (repr : String → String) where
    unfoldable pub with_found :
        Option (Job P) → String → String → ℕ → (Job P → Job P) → Exec (Queue P) (Job P)
    unfolding concat holds_lease
    with_found none i worker_id now change q = (raise key_error i, q)
    with_found (some job) i worker_id now change q =
        if not (holds_lease job worker_id now)
        then (
          raise lease_conflict
              (concat ("worker " ∷ repr worker_id ∷ " does not own job " ∷ repr i ∷ [])),
          q,
        )
        else (ok (change job), on_jobs (insert i (change job)) q)

    -- `_require_lease`, then a change of the job that it returns.
    unfoldable pub with_lease : String → String → ℕ → (Job P → Job P) → Exec (Queue P) (Job P)
    unfolding with_found
    with_lease i worker_id now change q = with_found (lookup i q.jobs) i worker_id now change q

    unfoldable pub heartbeat : String → String → ℕ → ℤ → Exec (Queue P) (Job P)
    unfolding with_lease lease_end
    heartbeat i worker_id now lease_seconds = with_lease i worker_id now (λ job. record job {
      lease_until = some (lease_end now lease_seconds);
      version = job.version + 1;
    })

    -- `_release`
    released : Job P → Job P
    released job = record job { lease_owner = none; lease_until = none; version = job.version + 1 }

    unfoldable pub complete : String → String → ℕ → P → Exec (Queue P) (Job P)
    unfolding with_lease released
    complete i worker_id now result =
        with_lease i worker_id now
          (λ job. released (record job { state = succeeded; result = some result }))

    unfoldable pub release : String → String → ℕ → Exec (Queue P) (Job P)
    unfolding with_lease released
    release i worker_id now =
        with_lease i worker_id now
          (λ job. released (record job { state = ready; available_at = now }))

    failing : String → Bool → Option ℕ → ℕ → Job P → Job P
    unfolding or_now
    failing error_code retryable retry_at now job =
        if retryable && ltb job.attempts job.max_attempts
        then record job {
          error_code = some error_code;
          state = ready;
          available_at = or_now retry_at now;
        }
        else record job {
          error_code = some error_code;
          state = if retryable then dead_letter else failed;
        }

    unfoldable pub fail : String → String → ℕ → String → Bool → Option ℕ → Exec (Queue P) (Job P)
    unfolding with_lease released failing
    fail i worker_id now error_code retryable retry_at =
        with_lease i worker_id now (λ job. released (failing error_code retryable retry_at now job))

    unfoldable pub mark_unknown : String → String → ℕ → String → Exec (Queue P) (Job P)
    unfolding with_lease released
    mark_unknown i worker_id now diagnostic_code = with_lease i worker_id now (λ job.
        released (record job { state = waiting_reconciliation; error_code = some diagnostic_code }))

-- ===== src/Jobs/Queue.antt =====
-- `Job` of src/personal_assistant/core/jobs/queue.py and `InMemoryJobQueue` of
-- src/personal_assistant/infrastructure/memory/job_queue.py. Payloads and results are values of a type
-- with a decided equality; times are in microseconds. Each method holds the lock, so a call is one
-- step. The clock and the fresh identifier are arguments, and so is Python's `repr` of a text.
use nju_personal_assistant.Base.{
  ℕ, ◌+◌, ◌-◌, ◌*◌, suc, String, Bool, true, false, [], ◌∷◌, Option, none, some, Dict, lookup,
  insert, leb, not, ◌==◌, nat_eq, string_eq, pair_eq, HasEq, if◌then◌else◌,
}
use nju_personal_assistant.Domain.Errors.{ok, raise, concat, key_error, value_error}
use nju_personal_assistant.Domain.Exec.{Exec}
use nju_personal_assistant.Domain.Text.{is_blank}
use nju_personal_assistant.Domain.Values.{ℤ, pos, negsuc}

pub data JobState : Type 0 where
  ready leased succeeded failed dead_letter waiting_reconciliation : JobState

abbrev pub is_ready : JobState → Bool
is_ready ready = true
is_ready _ = false

abbrev pub is_leased : JobState → Bool
is_leased leased = true
is_leased _ = false

pub record Job (P : Type 0) : Type 0 where
  pub id : String
  pub kind : String
  pub payload : P
  pub idempotency_key : String
  pub created_at : ℕ
  pub available_at : ℕ
  pub state : JobState
  pub attempts : ℕ
  pub max_attempts : ℕ
  pub lease_owner : Option String
  pub lease_until : Option ℕ
  pub result : Option P
  pub error_code : Option String
  pub version : ℕ

pub record Queue (P : Type 0) : Type 0 where
  pub jobs : Dict String (Job P)
  pub idempotency : Dict (String × String) String

-- `now + timedelta(seconds=lease_seconds)`
unfoldable pub lease_end : ℕ → ℤ → ℕ
lease_end now (pos n) = now + n * 1000000
lease_end now (negsuc n) = now - suc n * 1000000

abbrev pub below_one : ℤ → Bool
below_one (pos n) = leb n 0
below_one (negsuc n) = true

-- `lease_until is not None and lease_until <= now`
abbrev pub is_past : Option ℕ → ℕ → Bool
is_past none now = false
is_past (some t) now = leb t now

-- What is left of `max_attempts` once it is known to be positive.
natural : ℤ → ℕ
natural (pos n) = n
natural (negsuc n) = 0

unfoldable pub or_now : Option ℕ → ℕ → ℕ
or_now none now = now
or_now (some t) now = t

abbrev pub on_jobs : {P : Type 0} → (Dict String (Job P) → Dict String (Job P)) → Queue P → Queue P
on_jobs f q = record q { jobs = f q.jobs }

module _ {P : Type 0} ⦃e : HasEq P⦄ where
  -- The job that an idempotency key already names.
  unfoldable pub reuse : Option (Job P) → P → Exec (Queue P) (Job P)
  reuse none payload q = (raise key_error "", q)
  reuse (some job) payload q =
      if not (job.payload == payload)
      then (raise value_error "idempotency key was reused with a different job payload", q)
      else (ok job, q)

  unfoldable pub new_job : String → String → P → String → ℕ → Option ℕ → ℤ → Job P
  unfolding concat natural or_now
  new_job fresh kind payload key now available_at max_attempts = record {
    id = concat ("job_" ∷ fresh ∷ []);
    kind = kind;
    payload = payload;
    idempotency_key = key;
    created_at = now;
    available_at = or_now available_at now;
    state = ready;
    attempts = 0;
    max_attempts = natural max_attempts;
    lease_owner = none;
    lease_until = none;
    result = none;
    error_code = none;
    version = 0;
  }

  unfoldable pub add_job : Job P → Exec (Queue P) (Job P)
  add_job job q = (
    ok job,
    record {
      jobs = insert job.id job q.jobs;
      idempotency = insert (job.kind, job.idempotency_key) job.id q.idempotency;
    },
  )

  unfoldable pub enqueue_at : Option String → Job P → Exec (Queue P) (Job P)
  unfolding reuse add_job
  enqueue_at none job q = add_job job q
  enqueue_at (some i) job q = reuse (lookup i q.jobs) job.payload q

  unfoldable pub enqueue : String → String → P → String → ℕ → Option ℕ → ℤ → Exec (Queue P) (Job P)
  unfolding enqueue_at new_job
  enqueue fresh kind payload key now available_at max_attempts q =
      if is_blank key
      then (raise value_error "idempotency_key is required", q)
      else if below_one max_attempts
      then (raise value_error "max_attempts must be positive", q)
      else enqueue_at (lookup (kind, key) q.idempotency)
          (new_job fresh kind payload key now available_at max_attempts) q

unfoldable pub get : {P : Type 0} → String → Queue P → Option (Job P)
get i q = lookup i q.jobs

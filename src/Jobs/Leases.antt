-- ===== src/Jobs/Leases.antt =====
-- Who may change a leased job, which job `claim` hands out, and what a repeated `enqueue` does.
use nju_personal_assistant.Base.{
  ℕ, ◌<◌, String, Bool, true, ◌≡◌, refl, arith, Option, some, none, lookup, lookup-insert_self,
  nat_eq, string_eq, pair_eq,
}
use nju_personal_assistant.Domain.Errors.{ok}
use nju_personal_assistant.Domain.Exec.{Exec}
use nju_personal_assistant.Domain.Values.{ℤ}
use nju_personal_assistant.Jobs.Queue.{Job, Queue, leased}
use nju_personal_assistant.Jobs.Holding.{
  holds_lease, with_lease, with_found, heartbeat, complete, release, fail, mark_unknown, owns,
  is_live,
}

-- What the holder of a lease may report.
pub data Report (P : Type 0) : Type 0 where
  alive : ℤ → Report P
  done : P → Report P
  given_back : Report P
  failure : String → Bool → Option ℕ → Report P
  lost : String → Report P

owns_lem : (o : Option String) (w : String) → owns o w ≡ true → o ≡ some w
owns_lem none w h = ground arith
owns_lem (some o) w h = ground (arith, string_eq.equal_iff o w)

is_live_lem : (o : Option ℕ) (now : ℕ) → is_live o now ≡ true → (t : ℕ) × (o ≡ some t) × (now < t)
is_live_lem none now h = absurd (ground arith)
is_live_lem (some t) now h = (t, refl, ground arith)

module _ {P : Type 0} where
  -- A job is leased to a worker, for some time yet.
  pub record IsHeld (job : Job P) (worker_id : String) (now : ℕ) : Type 0 where
    pub held : job.state ≡ leased
    pub owner : job.lease_owner ≡ some worker_id
    pub until : (t : ℕ) × (job.lease_until ≡ some t) × (now < t)

  unfoldable pub report :
      (String → String) → Report P → String → String → ℕ → Exec (Queue P) (Job P)
  unfolding heartbeat complete release fail mark_unknown
  report repr (alive lease_seconds) i w now = heartbeat repr i w now lease_seconds
  report repr (done result) i w now = complete repr i w now result
  report repr given_back i w now = release repr i w now
  report repr (failure code retryable retry_at) i w now = fail repr i w now code retryable retry_at
  report repr (lost code) i w now = mark_unknown repr i w now code

  held_lem :
      (job : Job P) (worker_id : String) (now : ℕ)
      → holds_lease job worker_id now ≡ true
      → IsHeld job worker_id now
  unfolding holds_lease
  held_lem job w now h = record {
    held = ground arith;
    owner = owns_lem job.lease_owner w (ground arith);
    until = is_live_lem job.lease_until now (ground arith);
  }

  abbrev pub Owned : String → String → ℕ → Queue P → Job P → Queue P → Type 0
  Owned i w now q r after =
      (job : Job P) × (lookup i q.jobs ≡ some job)
      × IsHeld job w now
      × (lookup i after.jobs ≡ some r)

  module _ (repr : String → String) (i w : String) (now : ℕ) (q : Queue P) where
    found_Owned :
        (o : Option (Job P)) (change : Job P → Job P) (r : Job P)
        → lookup i q.jobs ≡ o
        → (with_found repr o i w now change q).0 ≡ ok r
        → Owned i w now q r (with_found repr o i w now change q).1
    unfolding with_found
    found_Owned none change r e h = ground arith
    found_Owned (some job) change r e h = (
      job,
      e,
      held_lem job w now (ground arith),
      ground (arith, lookup-insert_self i (change job) q.jobs),
    )

    with_lease-Owned :
        (change : Job P → Job P) (r : Job P)
        → (with_lease repr i w now change q).0 ≡ ok r
        → Owned i w now q r (with_lease repr i w now change q).1
    unfolding with_lease
    with_lease-Owned change r h = found_Owned (lookup i q.jobs) change r refl h

    -- A report is taken only from the worker that holds the job, before its lease runs out, and the
    -- job that is returned is stored.
    pub report-Owned :
        (m : Report P) (r : Job P)
        → (report repr m i w now q).0 ≡ ok r
        → Owned i w now q r (report repr m i w now q).1
    unfolding report heartbeat complete release fail mark_unknown
    report-Owned (alive s) r h = with_lease-Owned _ r h
    report-Owned (done x) r h = with_lease-Owned _ r h
    report-Owned given_back r h = with_lease-Owned _ r h
    report-Owned (failure c b t) r h = with_lease-Owned _ r h
    report-Owned (lost c) r h = with_lease-Owned _ r h

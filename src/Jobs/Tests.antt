-- ===== src/Jobs/Tests.antt =====
-- The queue at concrete inputs: a job that one worker holds while another claims.
use nju_personal_assistant.Base.{
  String, ◌≡◌, refl, arith, [], ◌∷◌, none, some, lookup, insert, string_eq, pair_eq,
}
use nju_personal_assistant.Domain.Errors.{ok}
use nju_personal_assistant.Domain.Text.{is_blank}
use nju_personal_assistant.Domain.Values.{pos}
use nju_personal_assistant.Jobs.Queue.{Job, Queue, leased, enqueue, enqueue_at, add_job, new_job}
use nju_personal_assistant.Jobs.Claims.{claim}
use nju_personal_assistant.Jobs.Holding.{complete, with_lease, with_found, holds_lease}
use nju_personal_assistant.Jobs.Leases.{IsHeld, done, report, Owned, report-Owned}
use nju_personal_assistant.Jobs.Claimed.{claim_spares}
use nju_personal_assistant.Jobs.Idempotency.{enqueue_twice}
use nju_personal_assistant.Jobs.Schedule.{
  IntervalSchedule, coalesce, catch_up, missed_fire_times, fire_times, last_items, chosen,
}

abbrev job : Job String
job = record {
  id = "job_1";
  kind = "mail";
  payload = "p";
  idempotency_key = "k";
  created_at = 1;
  available_at = 1;
  state = leased;
  attempts = 1;
  max_attempts = 5;
  lease_owner = some "w";
  lease_until = some 100;
  result = none;
  error_code = none;
  version = 1;
}

abbrev queue : Queue String
queue = record { jobs = ("job_1", job) ∷ []; idempotency = (("mail", "k"), "job_1") ∷ [] }

abbrev quoted : String → String
quoted s = s

held : IsHeld job "w" 50
held = record { held = refl; owner = refl; until = (100, refl, omega arith) }

stored : lookup "job_1" queue.jobs ≡ some job
unfolding lookup
stored = refl

claim_spares_example : lookup "job_1" (claim "v" 50 (pos 30) queue).1.jobs ≡ some job
claim_spares_example =
    claim_spares "v" "w" 50 (pos 30) queue "job_1" job ((refl, stored), tt) stored held

completed : (r : Job String) × ((report quoted (done "ok") "job_1" "w" 50 queue).0 ≡ ok r)
unfolding report complete with_lease with_found holds_lease lookup insert
completed = (_, refl)

report-Owned_example :
    Owned "job_1" "w" 50 queue completed.0 (report quoted (done "ok") "job_1" "w" 50 queue).1
report-Owned_example = report-Owned quoted "job_1" "w" 50 queue (done "ok") completed.0 completed.1

abbrev none_yet : Queue String
none_yet = record { jobs = []; idempotency = [] }

enqueued : (r : Job String) × ((enqueue "1" "mail" "p" "k" 1 none (pos 5) none_yet).0 ≡ ok r)
unfolding enqueue enqueue_at add_job new_job lookup is_blank
enqueued = (_, refl)

enqueue_twice_example :
    enqueue "2" "mail" "p" "k" 9 none (pos 5) (enqueue "1" "mail" "p" "k" 1 none (pos 5) none_yet).1
    ≡ (ok enqueued.0, (enqueue "1" "mail" "p" "k" 1 none (pos 5) none_yet).1)
enqueue_twice_example =
    enqueue_twice "1" "2" "mail" "k" "p" 1 9 none none (pos 5) (pos 5) none_yet enqueued.0 refl
      enqueued.1

abbrev reminder : IntervalSchedule
reminder = record {
  id = "s1";
  extension_id = "e1";
  interval = 10;
  timezone = "Asia/Shanghai";
  misfire_policy = coalesce;
  max_catch_up = 1;
}

missed : missed_fire_times reminder 5 38 ≡ 35 ∷ []
unfolding missed_fire_times fire_times last_items chosen
missed = refl

caught_up :
    missed_fire_times (record reminder { misfire_policy = catch_up; max_catch_up = 2 }) 5 38
    ≡ 25 ∷ 35 ∷ []
unfolding missed_fire_times fire_times last_items chosen
caught_up = refl

-- ===== src/Jobs/Schedule.antt =====
-- src/personal_assistant/core/jobs/scheduler.py. An interval, a timedelta in the source, is in
-- microseconds; `max_catch_up` is a natural number, so its own check is left out.
use nju_personal_assistant.Base.{
  ℕ, zero, suc, ◌+◌, ◌-◌, ◌*◌, ◌/◌, String, List, [], ◌∷◌, length, drop, leb, ltb, ◌==◌, nat_eq,
  if◌then◌else◌,
}
use nju_personal_assistant.Domain.Errors.{Result, value_error, reject_if}

pub data MisfirePolicy : Type 0 where
  skip coalesce catch_up : MisfirePolicy

pub record IntervalSchedule : Type 0 where
  pub id : String
  pub extension_id : String
  pub interval : ℕ
  pub timezone : String
  pub misfire_policy : MisfirePolicy
  pub max_catch_up : ℕ

-- `__post_init__`
unfoldable pub check_schedule : IntervalSchedule → Result (Unit {0})
check_schedule s = reject_if (leb s.interval 0) value_error "interval must be positive"

-- The fire times from the i-th on, n of them.
unfoldable pub fire_times : ℕ → ℕ → ℕ → ℕ → List ℕ
fire_times last interval i zero = []
fire_times last interval i (suc n) = (last + interval * i) ∷ fire_times last interval (suc i) n

-- xs[-n:] for a positive n
unfoldable pub last_items : ℕ → List ℕ → List ℕ
last_items n xs = drop (length xs - n) xs

unfoldable pub chosen : MisfirePolicy → ℕ → List ℕ → List ℕ
unfolding last_items
chosen skip max due = []
chosen coalesce max due = last_items 1 due
chosen catch_up max due = if max == 0 then [] else last_items max due

unfoldable pub missed_fire_times : IntervalSchedule → ℕ → ℕ → List ℕ
unfolding fire_times chosen
missed_fire_times s last now =
    let count = (now - last) / s.interval in
    if leb now last
    then []
    else if ltb count 1
    then []
    else chosen s.misfire_policy s.max_catch_up (fire_times last s.interval 1 count)

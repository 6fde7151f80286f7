-- ===== src/Jobs/Firing.antt =====
-- Which fire times `missed_fire_times` makes up for.
use native.Mathlib.Nat.{div-add-mod, mod-lt}
use mathlib.Core.Path.{subst}
use nju_personal_assistant.Base.{
  ◌==◌, nat_eq, ℕ, zero, suc, ◌+◌, ◌-◌, ◌*◌, ◌/◌, ◌≤◌, ◌<◌, ◌≡◌, refl, sym, ap, ◌∙◌, arith, [], ◌∷◌,
  length, drop, All, All-if, leb, ltb,
}
use nju_personal_assistant.Domain.Errors.{ok}
use nju_personal_assistant.Jobs.Schedule.{
  IntervalSchedule, MisfirePolicy, skip, coalesce, catch_up, check_schedule, fire_times, last_items,
  missed_fire_times, chosen,
}

length-fire_times : (last k i n : ℕ) → length (fire_times last k i n) ≡ n
unfolding fire_times
length-fire_times last k i zero = refl
length-fire_times last k i (suc n) = ap suc (length-fire_times last k (suc i) n)

same_times : (last k i j n m : ℕ) → i ≡ j → n ≡ m → fire_times last k i n ≡ fire_times last k j m
same_times last k i j n m p q = cc

drop-fire_times :
    (last k i n m : ℕ) → m ≤ n → drop m (fire_times last k i n) ≡ fire_times last k (i + m) (n - m)
unfolding fire_times
drop-fire_times last k i n zero h =
    same_times last k i (i + 0) n (n - 0) (omega arith) (omega arith)
drop-fire_times last k i zero (suc m) h = absurd (ground arith)
drop-fire_times last k i (suc n) (suc m) h =
    drop-fire_times last k (suc i) n m (omega arith)
    ∙ same_times last k (suc i + m) (i + suc m) (n - m) (suc n - suc m) (omega arith) (omega arith)

last_items-fire_times :
    (last k m n : ℕ)
    → last_items m (fire_times last k 1 n) ≡ fire_times last k (1 + (n - m)) (n - (n - m))
unfolding last_items
last_items-fire_times last k m n =
    ap (λ l. drop (l - m) (fire_times last k 1 n)) (length-fire_times last k 1 n)
    ∙ drop-fire_times last k 1 n (n - m) (omega arith)

All-fire_times :
    (last k i n now : ℕ)
    → 1 ≤ k
    → 1 ≤ i
    → last + k * (i + n) ≤ now + k
    → All (λ t. (last < t) × (t ≤ now)) (fire_times last k i n)
unfolding fire_times
All-fire_times last k i zero now p q h = tt
All-fire_times last k (suc j) (suc n) now p q h = (
  (omega arith, omega arith),
  All-fire_times last k (suc (suc j)) n now p (omega arith) (omega arith),
)
All-fire_times last k zero (suc n) now p q h = absurd (omega arith)

-- The whole intervals that have passed.
within : (last k now : ℕ) → last ≤ now → last + k * ((now - last) / k) ≤ now
within last k now h = omega (arith, div-add-mod (now - last) k)

module _ (s : IntervalSchedule) (last now : ℕ) (valid : 1 ≤ s.interval) (passed : last < now) where
  abbrev count : ℕ
  count = (now - last) / s.interval

  last_items_due :
      (m : ℕ)
      → All (λ t. (last < t) × (t ≤ now)) (last_items m (fire_times last s.interval 1 count))
  last_items_due m =
      subst (All (λ t. (last < t) × (t ≤ now)))
        (sym (last_items-fire_times last s.interval m count))
        (All-fire_times last s.interval (1 + (count - m)) (count - (count - m)) now valid
          (omega arith)
          (let total : (1 + (count - m)) + (count - (count - m)) ≡ 1 + count = omega arith in
            let w = within last s.interval now (omega arith) in
            let at : s.interval * ((1 + (count - m)) + (count - (count - m)))
                ≡ s.interval * (1 + count) =
              ap (λ x. s.interval * x) total in
            omega (arith, at, w)))

  chosen_due :
      (p : MisfirePolicy)
      → All
          (λ t. (last < t) × (t ≤ now))
          (chosen p s.max_catch_up (fire_times last s.interval 1 count))
  unfolding chosen
  chosen_due skip = tt
  chosen_due coalesce = last_items_due 1
  chosen_due catch_up =
      All-if (λ t. (last < t) × (t ≤ now)) (s.max_catch_up == 0) []
        (last_items s.max_catch_up (fire_times last s.interval 1 count)) (λ e. tt)
        (λ e. last_items_due s.max_catch_up)

-- Every fire time that is made up for lies after the last one, and is due.
missed_fire_times_due :
    (s : IntervalSchedule) (last now : ℕ)
    → check_schedule s ≡ ok tt
    → All (λ t. (last < t) × (t ≤ now)) (missed_fire_times s last now)
unfolding missed_fire_times check_schedule
missed_fire_times_due s last now h =
    All-if (λ t. (last < t) × (t ≤ now)) (leb now last) [] _ (λ e. tt)
      (λ e.
        All-if (λ t. (last < t) × (t ≤ now)) (ltb ((now - last) / s.interval) 1) [] _ (λ f. tt)
          (λ f. chosen_due s last now (ground arith) (ground arith) s.misfire_policy))

missed_chosen :
    (s : IntervalSchedule) (last now : ℕ)
    → last < now
    → 1 ≤ (now - last) / s.interval
    → missed_fire_times s last now
      ≡ chosen s.misfire_policy s.max_catch_up
          (fire_times last s.interval 1 ((now - last) / s.interval))
unfolding missed_fire_times
missed_chosen s last now h c = ground arith

one_time : (last k n : ℕ) → 1 ≤ n → chosen coalesce 0 (fire_times last k 1 n) ≡ (last + k * n) ∷ []
unfolding chosen fire_times
one_time last k n h =
    last_items-fire_times last k 1 n
    ∙ same_times last k (1 + (n - 1)) n (n - (n - 1)) 1 (omega arith) (omega arith)

-- Where whole intervals have passed, a schedule that coalesces fires once, at the last time that is
-- due: the next one still lies ahead.
coalesce_latest :
    (s : IntervalSchedule) (last now : ℕ)
    → check_schedule s ≡ ok tt
    → s.misfire_policy ≡ coalesce
    → last < now
    → 1 ≤ (now - last) / s.interval
    → (t : ℕ) × (missed_fire_times s last now ≡ t ∷ []) × (t ≤ now) × (now < t + s.interval)
unfolding check_schedule chosen
coalesce_latest s last now valid p h c =
    let n = (now - last) / s.interval in
    let positive : 0 < s.interval = ground arith in
    (
      last + s.interval * n,
      missed_chosen s last now h c
          ∙ ap (λ p. chosen p s.max_catch_up (fire_times last s.interval 1 n)) p
          ∙ one_time last s.interval n c,
      within last s.interval now (omega arith),
      omega (arith, div-add-mod (now - last) s.interval, mod-lt (now - last) positive),
    )

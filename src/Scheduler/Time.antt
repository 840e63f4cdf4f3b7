-- ===== src/Scheduler/Time.antt =====
-- internal/scheduler/scheduler.go: jobs and when they are due.
use openclawssy.Base.{
  ℕ, ◌+◌, ◌≤◌, ◌<◌, ◌≡◌, ◌≢◌, Bool, true, false, ◌||◌, Option, none, some, [], drop, Text, codes,
  text_eq, trim, to_lower, has_prefix, if◌then◌else◌, ◌==◌, leb, ltb, ℤ, pos_part, nat_eq,
}

pub record Job : Type 0 where
  pub id : Text
  pub schedule : Text
  pub agent_id : Text
  pub message : Text
  pub channel : Text
  pub user_id : Text
  pub room_id : Text
  pub session_id : Text
  pub enabled : Bool
  pub last_run : Text

-- What the code takes from Go's package time. An instant is a number of nanoseconds, counted from a
-- whole second before every instant that time.Parse returns; `zero_time` is that of time.Time{}.
-- RFC 3339 is written with whole seconds, and is read back from the year 1 up to the year 9999.
pub record Clock : Type 0 where
  pub zero_time : ℕ
  pub end_of_years : ℕ
  pub to_second : ℕ → ℕ
  pub parse_time : Text → Option ℕ
  pub format_time : ℕ → Text
  pub parse_duration : Text → Option ℤ
  pub to_second-below : (t : ℕ) → to_second t ≤ t
  pub to_second-close : (t : ℕ) → t < to_second t + 1_000_000_000
  pub format_time-parse :
      (t : ℕ) → zero_time < t → t < end_of_years → parse_time (format_time t) ≡ some (to_second t)
  pub format_time-written : (t : ℕ) → format_time t ≢ []

pub data SchedulerError : Type 0 where
  path_required id_required schedule_required invalid_duration duration_not_positive :
      SchedulerError
  invalid_schedule invalid_last_run job_not_found : SchedulerError
  stat_failed read_failed parse_failed write_failed : SchedulerError

pub data Result {ℓ} (A : Type ℓ) : Type ℓ where
  ok : A → Result A
  err : SchedulerError → Result A

unfoldable pub normalize_schedule : Text → Text
normalize_schedule raw =
    let trimmed = trim raw in
    let lower = to_lower trimmed in
    if lower == codes "@hourly" || lower == codes "hourly" || lower == codes "0 * * * *"
    then codes "@every 1h"
    else if lower == codes "@daily" || lower == codes "daily" || lower == codes "0 0 * * *"
    then codes "@every 24h"
    else trimmed

unfoldable pub parse_last_run : Clock → Text → Result ℕ
parse_last_run clock raw =
    if raw == []
    then ok clock.zero_time
    else elim (clock.parse_time raw) [ none ↦ err invalid_last_run | some t ↦ ok t ]

-- `some` with the interval's text if the schedule is periodic.
unfoldable pub interval_text : Text → Option Text
interval_text schedule =
    if has_prefix schedule (codes "@every ") then some (trim (drop 7 schedule)) else none

unfoldable pub is_missed_run : Clock → Job → ℕ → Bool
unfolding interval_text
is_missed_run clock job now =
    let schedule = normalize_schedule job.schedule in
    elim (interval_text schedule) [
      | some raw ↦ elim (clock.parse_duration raw) [
        | none ↦ false
        | some d ↦ if leb (pos_part d) 0 then false else elim (parse_last_run clock job.last_run) [
          | err e ↦ false
          | ok last ↦ if last == clock.zero_time then false else leb (last + pos_part d) now
        ]
      ]
      | none ↦ elim (clock.parse_time schedule) [
        | none ↦ false
        | some at ↦ elim (parse_last_run clock job.last_run) [
          | err e ↦ false
          | ok last ↦ if last == clock.zero_time then ltb at now else false
        ]
      ]
    ]

-- Whether the job is due, and whether a run disables it.
unfoldable pub next_due : Clock → Job → ℕ → Result (Bool × Bool)
unfolding interval_text
next_due clock job now =
    let schedule = normalize_schedule job.schedule in
    elim (interval_text schedule) [
      | some raw ↦ elim (clock.parse_duration raw) [
        | none ↦ err invalid_duration
        | some d ↦
            if leb (pos_part d) 0
            then err duration_not_positive
            else elim (parse_last_run clock job.last_run) [
              | err e ↦ err e
              | ok last ↦
                  if last == clock.zero_time
                  then ok (true, false)
                  else ok (leb (last + pos_part d) now, false)
            ]
      ]
      | none ↦ elim (clock.parse_time schedule) [
        | none ↦ err invalid_schedule
        | some at ↦ elim (parse_last_run clock job.last_run) [
          | err e ↦ err e
          | ok last ↦
              if last == clock.zero_time
              then if ltb now at then ok (false, false) else ok (true, true)
              else ok (false, true)
        ]
      ]
    ]

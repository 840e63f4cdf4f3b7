-- ===== src/Scheduler/Due.antt =====
-- When a job is due again after a run.
use openclawssy.Base.{
  ℕ, ◌+◌, ◌<◌, ◌≡◌, Bool, true, false, not, some, [], Text, text_eq, nat_eq, eq_iff, has_prefix,
  codes, leb, arith, pos_part, ℤ, Option-cases, inl, inr,
}
use openclawssy.Scheduler.Time.{
  Job, Clock, ok, normalize_schedule, interval_text, parse_last_run, is_missed_run, next_due,
}
use openclawssy.Scheduler.Store.{mark_run}

-- A run that was missed is due, for every schedule and every instant: what the first check passes
-- over when it does not catch up is a run that it would otherwise start, and
-- it disables the job if the job has a single time.
missed-due :
    (clock : Clock) (job : Job) (now : ℕ)
    → is_missed_run clock job now ≡ true
    → next_due clock job now
      ≡ ok (true, not (has_prefix (normalize_schedule job.schedule) (codes "@every ")))
unfolding is_missed_run next_due
missed-due clock job now m = ground arith

parse_last_run-mark_run :
    (clock : Clock) (run_at : ℕ) (disable : Bool) (job : Job)
    → clock.zero_time < clock.to_second run_at
    → run_at < clock.end_of_years
    → parse_last_run clock (mark_run clock run_at disable job).last_run
      ≡ ok (clock.to_second run_at)
unfolding parse_last_run mark_run
parse_last_run-mark_run clock run_at disable job z h = ground (
  arith,
  clock.format_time-parse run_at,
  clock.to_second-below run_at,
  clock.format_time-written run_at,
  eq_iff (clock.format_time run_at) [],
)

mark_run-schedule :
    (clock : Clock) (run_at : ℕ) (disable : Bool) (job : Job)
    → (mark_run clock run_at disable job).schedule ≡ job.schedule
unfolding mark_run
mark_run-schedule clock run_at disable job = ground arith

-- A job with a single time that was due is never due again once its run is noted, even if it is
-- enabled again, for a run before the end of the year 9999 and after the zero time.
pub one_shot-once :
    (clock : Clock) (job : Job) (now later : ℕ)
    → now < clock.end_of_years
    → clock.zero_time < clock.to_second now
    → next_due clock job now ≡ ok (true, true)
    → next_due clock (record (mark_run clock now true job) { enabled = true }) later
      ≡ ok (false, true)
unfolding next_due mark_run
one_shot-once clock job now later h z d = ground (
  arith,
  parse_last_run-mark_run clock now true job z h,
  eq_iff (clock.to_second now) clock.zero_time,
)

-- A periodic job that was due and ran, before the end of the year 9999 and after the zero time, is
-- due again exactly when its interval, which is positive, has passed since the second in which it ran.
pub interval-due :
    (clock : Clock) (job : Job) (now later : ℕ)
    → now < clock.end_of_years
    → clock.zero_time < clock.to_second now
    → next_due clock job now ≡ ok (true, false)
    → (raw : Text) × (d : ℤ) × (interval_text (normalize_schedule job.schedule) ≡ some raw)
      × (clock.parse_duration raw ≡ some d)
      × (0 < pos_part d)
      × (next_due clock (mark_run clock now false job) later
          ≡ ok (leb (clock.to_second now + pos_part d) later, false))
unfolding next_due
interval-due clock job now later h z d =
    elim (Option-cases (interval_text (normalize_schedule job.schedule))) [
      | inl once ↦ absurd (ground (arith, once, d))
      | inr (raw, periodic) ↦ elim (Option-cases (clock.parse_duration raw)) [
        | inl bad ↦ absurd (ground (arith, bad, periodic, d))
        | inr (d', parsed) ↦ (
          raw,
          d',
          periodic,
          parsed,
          ground (arith, parsed, periodic, d),
          ground (
            arith,
            parsed,
            periodic,
            d,
            mark_run-schedule clock now false job,
            parse_last_run-mark_run clock now false job z h,
            eq_iff (clock.to_second now) clock.zero_time,
          ),
        )
      ]
    ]

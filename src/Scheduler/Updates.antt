-- ===== src/Scheduler/Updates.antt =====
-- What the workers' reports do to the jobs, in whichever order they come.
use openclawssy.Base.{
  ◌≡◌, refl, Bool, true, false, Option, none, some, List, [], ◌∷◌, map, Text, text_eq, eq_iff, ◌==◌,
  if◌then◌else◌, arith, contains, NoRepeats, Map, lookup, insert, lookup-insert, Option-cases, inl,
  inr,
}
use openclawssy.Scheduler.Time.{Job, Clock}
use openclawssy.Scheduler.Store.{JobUpdate, mark_run, apply_updates}

-- The report about a job.
unfoldable pub report_on : Text → List JobUpdate → Option JobUpdate
report_on id [] = none
report_on id (u ∷ us) = let later = report_on id us in if u.job_id == id then some u else later

-- A job after the report about it, if there is one.
pub reported : Clock → Option JobUpdate → Option Job → Option Job
reported clock none job = job
reported clock (some u) none = none
reported clock (some u) (some job) = some (mark_run clock u.run_at u.disable job)

abbrev pub ids : List JobUpdate → List Text
ids = map (λ u. u.job_id)

absent-report_on :
    (id : Text) (us : List JobUpdate) → contains (ids us) id ≡ false → report_on id us ≡ none
unfolding contains report_on
absent-report_on id [] a = refl
absent-report_on id (u ∷ us) a = ground (arith, absent-report_on id us)

-- If each job is reported once, the update marks each job as its report says, and leaves the others
-- and the jobs that are gone.
pub lookup-apply_updates :
    (clock : Clock) (us : List JobUpdate) (jobs : Map Text Job) (dirty : Bool) (id : Text)
    → NoRepeats (ids us)
    → lookup id (apply_updates clock us jobs dirty).0
      ≡ reported clock (report_on id us) (lookup id jobs)
unfolding apply_updates report_on reported
lookup-apply_updates clock [] jobs dirty id n = refl
lookup-apply_updates clock (u ∷ us) jobs dirty id n = elim (Option-cases (lookup u.job_id jobs)) [
  | inl gone ↦ ground (
    arith,
    lookup-apply_updates clock us jobs dirty id n.1,
    absent-report_on u.job_id us n.0,
    eq_iff u.job_id id,
  )
  | inr (job, found) ↦ ground (
    arith,
    lookup-apply_updates clock us (insert u.job_id (mark_run clock u.run_at u.disable job) jobs)
        true id n.1,
    lookup-insert u.job_id id (mark_run clock u.run_at u.disable job) jobs,
    absent-report_on u.job_id us n.0,
    eq_iff u.job_id id,
  )
]

-- The order of the reports does not matter: two lists with one report for each job, and the same
-- report for the same job, leave the same jobs.
apply_updates_order :
    (clock : Clock) (us vs : List JobUpdate) (jobs : Map Text Job) (dirty : Bool) (id : Text)
    → NoRepeats (ids us)
    → NoRepeats (ids vs)
    → ((k : Text) → report_on k us ≡ report_on k vs)
    → lookup id (apply_updates clock us jobs dirty).0
      ≡ lookup id (apply_updates clock vs jobs dirty).0
apply_updates_order clock us vs jobs dirty id m n same = rw (
  lookup-apply_updates clock us jobs dirty id m,
  lookup-apply_updates clock vs jobs dirty id n,
  same id,
)

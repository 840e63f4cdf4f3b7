-- ===== src/Scheduler/Executor.antt =====
-- internal/scheduler/scheduler.go: Executor.check, up to the runs of the due jobs and after them.
use openclawssy.Base.{ℕ, Bool, false, not, ◌&&◌, List, [], ◌∷◌, none, Text, if◌then◌else◌}
use openclawssy.Scheduler.Time.{Job, Clock, ok, err, is_missed_run, next_due}
use openclawssy.Scheduler.Store.{
  Codec, File, Written, Store, Outcome, JobUpdate, list, is_paused, update_after_run,
  batch_update_after_run,
}

pub record Executor : Type 0 where
  pub catch_up : Bool
  pub first_check : Bool

-- A due job, and whether its run disables it.
abbrev pub DueJob : Type 0
DueJob = Job × Bool

-- What the loop's guards decide about a listed job: nothing is done with it, it is marked as run
-- without a run, or it runs.
pub data Verdict : Type 0 where
  passes : Verdict
  skips runs : Bool → Verdict

unfoldable pub verdict : Clock → ℕ → Bool → Job → Verdict
verdict clock now skip_missed job =
    if not job.enabled then passes else elim (next_due clock job now) [
      | err e ↦ passes
      | ok (due, disable) ↦
          if not due
          then passes
          else if skip_missed && is_missed_run clock job now
          then skips disable
          else runs disable
    ]

-- The loop over the listed jobs. A write of the store ends as `w` says for the job's id.
unfoldable pub select_due :
    Clock
    → Codec
    → (Text → Written)
    → ℕ
    → Bool
    → List Job
    → Store
    → File
    → List DueJob × Store × File
unfolding verdict
select_due clock codec w now skip_missed [] s f = ([], s, f)
select_due clock codec w now skip_missed (job ∷ jobs) s f =
    elim (verdict clock now skip_missed job) [
      | passes ↦ select_due clock codec w now skip_missed jobs s f
      | skips disable ↦
          let (e, s', f') = update_after_run clock codec (w job.id) job.id now disable s f in
          select_due clock codec w now skip_missed jobs s' f'
      | runs disable ↦
          let (due_jobs, s', f') = select_due clock codec w now skip_missed jobs s f in
          ((job, disable) ∷ due_jobs, s', f')
    ]

-- The first part of a check: which jobs are handed to the workers.
unfoldable pub check :
    Clock
    → Codec
    → (Text → Written)
    → ℕ
    → Executor
    → Store
    → File
    → List DueJob × Executor × Store × File
unfolding select_due
check clock codec w now e s f =
    let (paused, s') = is_paused clock codec s f in
    if paused
    then ([], e, s', f)
    else let (jobs, s'') = list clock codec s' f in
      let (due_jobs, s''', f') =
        select_due clock codec w now (e.first_check && not e.catch_up) jobs s'' f in
      (due_jobs, record e { first_check = false }, s''', f')

-- What a worker reports when it ran a job.
unfoldable pub update_of : ℕ → DueJob → JobUpdate
update_of now (job, disable) = record { job_id = job.id; run_at = now; disable = disable }

-- The last part: the workers' reports, in the order in which they came.
unfoldable pub finish : Clock → Codec → Written → List JobUpdate → Store → File → Outcome
finish clock codec w [] s f = (none, s, f)
finish clock codec w (u ∷ us) s f = batch_update_after_run clock codec w (u ∷ us) s f

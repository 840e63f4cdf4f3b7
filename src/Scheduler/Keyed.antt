-- ===== src/Scheduler/Keyed.antt =====
-- Every call keeps each job under its own id.
use openclawssy.Base.{
  ℕ, ◌≡◌, refl, sym, subst, Bool, true, false, none, some, List, [], ◌∷◌, Text, text_eq,
  if◌then◌else◌, arith, Map, lookup, insert, delete, All-delete, All-insert, insert-UniqueKeys,
  delete-UniqueKeys, lookup-All, Option-cases, inl, inr, ◌⊎◌,
}
use openclawssy.Scheduler.Time.{
  Job, Clock, Result, ok, err, SchedulerError, job_not_found, next_due, normalize_schedule,
}
use openclawssy.Scheduler.Store.{
  Codec, File, missing, stat_error, present, unreadable, Written, failed, replaced, unstatted,
  Store, Outcome, JobUpdate, read_body, reload, save, reloaded, add, list, remove, update_after_run,
  apply_updates, batch_update_after_run, set_paused, set_job_enabled, mark_run,
}
use openclawssy.Scheduler.Persist.{IsKeyed, index_jobs-IsKeyed, insert-IsKeyed}

-- The calls that change the store or the file.
pub data Call : Type 0 where
  adds : ℕ → Job → Call
  removes : Text → Call
  notes_run : Text → ℕ → Bool → Call
  notes_runs : List JobUpdate → Call
  pauses : Bool → Call
  enables : Text → Bool → Call
  lists : Call

pub perform : Clock → Codec → Written → Call → Store → File → Outcome
perform clock codec w (adds now job) s f = add clock codec w now job s f
perform clock codec w (removes id) s f = remove clock codec w id s f
perform clock codec w (notes_run id at once) s f = update_after_run clock codec w id at once s f
perform clock codec w (notes_runs us) s f = batch_update_after_run clock codec w us s f
perform clock codec w (pauses paused) s f = set_paused clock codec w paused s f
perform clock codec w (enables id enabled) s f = set_job_enabled clock codec w id enabled s f
perform clock codec w lists s f = (none, (list clock codec s f).1, f)

Result-cases :
    (r : Result (Bool × Bool))
    → ((e : SchedulerError) × (r ≡ err e)) ⊎ ((due : Bool × Bool) × (r ≡ ok due))
Result-cases (ok due) = inr (due, refl)
Result-cases (err e) = inl (e, refl)

no_jobs-IsKeyed : IsKeyed []
no_jobs-IsKeyed = record { own_id = tt; once = tt }

read_body-IsKeyed :
    (codec : Codec) (time : ℕ) (body : Text) (s : Store)
    → IsKeyed s.jobs
    → IsKeyed (read_body codec time body s).1.jobs
unfolding read_body
read_body-IsKeyed codec time body s k = elim (Option-cases (codec.decode body)) [
  | inl bad ↦ ground (arith, bad, k, no_jobs-IsKeyed)
  | inr ((paused, jobs), read) ↦
      ground (arith, read, k, no_jobs-IsKeyed, index_jobs-IsKeyed jobs [] no_jobs-IsKeyed)
]

pub reload-IsKeyed :
    (clock : Clock) (codec : Codec) (s : Store) (f : File)
    → IsKeyed s.jobs
    → IsKeyed (reload clock codec s f).1.jobs
unfolding reload
reload-IsKeyed clock codec s missing k = no_jobs-IsKeyed
reload-IsKeyed clock codec s stat_error k = k
reload-IsKeyed clock codec s (present time body) k =
    ground (arith, k, read_body-IsKeyed codec time body s k)
reload-IsKeyed clock codec s (unreadable time size) k = ground (arith, k)

save-jobs :
    (codec : Codec) (w : Written) (s : Store) (f : File) → (save codec w s f).1.jobs ≡ s.jobs
unfolding save
save-jobs codec failed s f = refl
save-jobs codec (replaced time) s f = refl
save-jobs codec (unstatted time) s f = refl

save-IsKeyed :
    (codec : Codec) (w : Written) (s : Store) (f : File)
    → IsKeyed s.jobs
    → IsKeyed (save codec w s f).1.jobs
save-IsKeyed codec w s f k = subst IsKeyed (sym (save-jobs codec w s f)) k

-- A step after the reload.
reloaded-IsKeyed :
    (clock : Clock) (codec : Codec) (s : Store) (f : File) (next : Store → Outcome)
    → IsKeyed s.jobs
    → ((s' : Store) → IsKeyed s'.jobs → IsKeyed (next s').1.jobs)
    → IsKeyed (reloaded clock codec s f next).1.jobs
unfolding reloaded
reloaded-IsKeyed clock codec s f next k keeps = elim (Option-cases (reload clock codec s f).0) [
  | inl fine ↦
      ground (arith, fine, keeps (reload clock codec s f).1 (reload-IsKeyed clock codec s f k))
  | inr (e, bad) ↦ ground (arith, bad, reload-IsKeyed clock codec s f k)
]

replace-IsKeyed :
    (id : Text) (job job' : Job) (jobs : Map Text Job)
    → IsKeyed jobs
    → lookup id jobs ≡ some job
    → job'.id ≡ job.id
    → IsKeyed (insert id job' jobs)
replace-IsKeyed id job job' jobs k found same = record {
  own_id =
      All-insert _ id job' jobs (ground (arith, same, lookup-All _ id job jobs found k.own_id))
        k.own_id;
  once = insert-UniqueKeys id job' jobs k.once;
}

delete-IsKeyed : (id : Text) (jobs : Map Text Job) → IsKeyed jobs → IsKeyed (delete id jobs)
delete-IsKeyed id jobs k = record {
  own_id = All-delete _ id jobs k.own_id;
  once = delete-UniqueKeys id jobs k.once;
}

mark_run-id :
    (clock : Clock) (run_at : ℕ) (disable : Bool) (job : Job)
    → (mark_run clock run_at disable job).id ≡ job.id
unfolding mark_run
mark_run-id clock run_at disable job = ground arith

apply_updates-IsKeyed :
    (clock : Clock) (us : List JobUpdate) (jobs : Map Text Job) (dirty : Bool)
    → IsKeyed jobs
    → IsKeyed (apply_updates clock us jobs dirty).0
unfolding apply_updates
apply_updates-IsKeyed clock [] jobs dirty k = k
apply_updates-IsKeyed clock (u ∷ us) jobs dirty k = elim (Option-cases (lookup u.job_id jobs)) [
  | inl gone ↦ ground (arith, gone, apply_updates-IsKeyed clock us jobs dirty k)
  | inr (job, found) ↦
      let marked = mark_run clock u.run_at u.disable job in
      ground (
        arith,
        found,
        apply_updates-IsKeyed clock us (insert u.job_id marked jobs) true (
            replace-IsKeyed u.job_id job marked jobs k found
              (mark_run-id clock u.run_at u.disable job)),
      )
]

-- Every call on a store, whatever it finds in the file and however its write ends, keeps each job
-- under its own id, once.
pub perform-IsKeyed :
    (clock : Clock) (codec : Codec) (w : Written) (call : Call) (s : Store) (f : File)
    → IsKeyed s.jobs
    → IsKeyed (perform clock codec w call s f).1.jobs
unfolding perform add remove update_after_run batch_update_after_run set_paused set_job_enabled list
perform-IsKeyed clock codec w (adds now job) s f k =
    let job' : Job = record job { schedule = normalize_schedule job.schedule } in
    let added =
      reloaded-IsKeyed clock codec s f
        (λ s'. save codec w (record s' { jobs = insert job'.id job' s'.jobs }) f) k
        (λ s' k'.
          save-IsKeyed codec w (record s' { jobs = insert job'.id job' s'.jobs }) f
            (insert-IsKeyed job' s'.jobs k')) in
    elim (Result-cases (next_due clock job' now)) [
      | inl (e, bad) ↦ ground (arith, bad, k)
      | inr (due, fine) ↦ ground (arith, fine, k, added)
    ]
perform-IsKeyed clock codec w (removes id) s f k =
    reloaded-IsKeyed clock codec s f
      (λ s'. elim (lookup id s'.jobs) [
        | none ↦ (some job_not_found, s', f)
        | some job ↦ save codec w (record s' { jobs = delete id s'.jobs }) f
      ])
      k
      (λ s' k'. elim (Option-cases (lookup id s'.jobs)) [
        | inl gone ↦ ground (arith, gone, k')
        | inr (job, found) ↦ ground (
          arith,
          found,
          save-IsKeyed codec w (record s' { jobs = delete id s'.jobs }) f
              (delete-IsKeyed id s'.jobs k'),
        )
      ])
perform-IsKeyed clock codec w (notes_run id at once) s f k =
    reloaded-IsKeyed clock codec s f
      (λ s'. elim (lookup id s'.jobs) [
        | none ↦ (some job_not_found, s', f)
        | some job ↦
            save codec w (record s' { jobs = insert id (mark_run clock at once job) s'.jobs }) f
      ])
      k
      (λ s' k'. elim (Option-cases (lookup id s'.jobs)) [
        | inl gone ↦ ground (arith, gone, k')
        | inr (job, found) ↦
            let marked = mark_run clock at once job in
            ground (
              arith,
              found,
              save-IsKeyed codec w (record s' { jobs = insert id marked s'.jobs }) f
                  (replace-IsKeyed id job marked s'.jobs k' found (mark_run-id clock at once job)),
            )
      ])
perform-IsKeyed clock codec w (notes_runs us) s f k =
    reloaded-IsKeyed clock codec s f
      (λ s'.
        let (jobs, dirty) = apply_updates clock us s'.jobs false in
        let s'' : Store = record s' { jobs = jobs } in
        if dirty then save codec w s'' f else (none, s'', f))
      k
      (λ s' k'.
        let keyed = apply_updates-IsKeyed clock us s'.jobs false k' in
        ground (
          arith,
          keyed,
          save-IsKeyed codec w (record s' { jobs = (apply_updates clock us s'.jobs false).0 }) f
              keyed,
        ))
perform-IsKeyed clock codec w (pauses paused) s f k =
    reloaded-IsKeyed clock codec s f (λ s'. save codec w (record s' { paused = paused }) f) k
      (λ s' k'. save-IsKeyed codec w (record s' { paused = paused }) f k')
perform-IsKeyed clock codec w (enables id enabled) s f k =
    reloaded-IsKeyed clock codec s f
      (λ s'. elim (lookup id s'.jobs) [
        | none ↦ (some job_not_found, s', f)
        | some job ↦
            save codec w (record s' { jobs = insert id (record job { enabled = enabled }) s'.jobs })
              f
      ])
      k
      (λ s' k'. elim (Option-cases (lookup id s'.jobs)) [
        | inl gone ↦ ground (arith, gone, k')
        | inr (job, found) ↦
            let changed : Job = record job { enabled = enabled } in
            ground (
              arith,
              found,
              save-IsKeyed codec w (record s' { jobs = insert id changed s'.jobs }) f
                  (replace-IsKeyed id job changed s'.jobs k' found refl),
            )
      ])
perform-IsKeyed clock codec w lists s f k = reload-IsKeyed clock codec s f k

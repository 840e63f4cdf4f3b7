-- ===== src/Scheduler/Handout.antt =====
-- Which jobs a check hands to the workers, and what their reports lead to.
use openclawssy.Base.{
  ℕ, ◌≡◌, refl, Bool, true, false, not, ◌&&◌, none, List, [], ◌∷◌, map, Text, text_eq, arith,
  contains, All, NoRepeats, inl, inr, ◌⊎◌,
}
use openclawssy.Scheduler.Time.{Job, Clock, ok, next_due}
use openclawssy.Scheduler.Store.{
  Codec, File, Written, Store, reload, list, is_paused, update_after_run, sorted_jobs,
}
use openclawssy.Scheduler.Executor.{
  Executor, DueJob, Verdict, passes, skips, runs, verdict, select_due, check, update_of,
}
use openclawssy.Scheduler.Persist.{IsKeyed, UniqueIds, job_with, sorted_jobs-Lists}
use openclawssy.Scheduler.Keyed.{reload-IsKeyed}
use openclawssy.Scheduler.Updates.{ids}

-- The job is enabled, is due, and its run disables it if the second part says so.
abbrev pub IsDue : Clock → ℕ → DueJob → Type 0
IsDue clock now item = (item.0.enabled ≡ true) × (next_due clock item.0 now ≡ ok (true, item.1))

verdict-IsDue :
    (clock : Clock) (now : ℕ) (skip_missed : Bool) (job : Job) (disable : Bool)
    → verdict clock now skip_missed job ≡ runs disable
    → IsDue clock now (job, disable)
unfolding verdict
verdict-IsDue clock now skip_missed job disable v = ground arith

Verdict-cases :
    (v : Verdict)
    → (v ≡ passes)
      ⊎ (((disable : Bool) × (v ≡ skips disable)) ⊎ ((disable : Bool) × (v ≡ runs disable)))
Verdict-cases passes = inl refl
Verdict-cases (skips disable) = inr (inl (disable, refl))
Verdict-cases (runs disable) = inr (inr (disable, refl))

absent-select_due :
    (clock : Clock) (codec : Codec) (w : Text → Written) (now : ℕ) (skip_missed : Bool)
    (jobs : List Job) (s : Store) (f : File) (id : Text)
    → job_with id jobs ≡ none
    → contains (ids (map (update_of now) (select_due clock codec w now skip_missed jobs s f).0)) id
      ≡ false
unfolding select_due job_with contains update_of
absent-select_due clock codec w now skip_missed [] s f id a = refl
absent-select_due clock codec w now skip_missed (job ∷ jobs) s f id a =
    let noted =
      λ (disable : Bool). update_after_run clock codec (w job.id) job.id now disable s f in
    elim (Verdict-cases (verdict clock now skip_missed job)) [
      | inl pass ↦ ground (arith, pass, absent-select_due clock codec w now skip_missed jobs s f id)
      | inr (inl (disable, skip)) ↦ ground (
        arith,
        skip,
        absent-select_due clock codec w now skip_missed jobs (noted disable).1 (noted disable).2 id,
      )
      | inr (inr (disable, go)) ↦
          ground (arith, go, absent-select_due clock codec w now skip_missed jobs s f id)
    ]

select_due-IsDue :
    (clock : Clock) (codec : Codec) (w : Text → Written) (now : ℕ) (skip_missed : Bool)
    (jobs : List Job) (s : Store) (f : File)
    → UniqueIds jobs
    → All (IsDue clock now) (select_due clock codec w now skip_missed jobs s f).0
      × NoRepeats (ids (map (update_of now) (select_due clock codec w now skip_missed jobs s f).0))
unfolding select_due UniqueIds update_of
select_due-IsDue clock codec w now skip_missed [] s f u = (tt, tt)
select_due-IsDue clock codec w now skip_missed (job ∷ jobs) s f u =
    let noted =
      λ (disable : Bool). update_after_run clock codec (w job.id) job.id now disable s f in
    elim (Verdict-cases (verdict clock now skip_missed job)) [
      | inl pass ↦ ground (arith, pass, select_due-IsDue clock codec w now skip_missed jobs s f u.1)
      | inr (inl (disable, skip)) ↦ ground (
        arith,
        skip,
        select_due-IsDue clock codec w now skip_missed jobs (noted disable).1 (noted disable).2 u.1,
      )
      | inr (inr (disable, go)) ↦ ground (
        arith,
        go,
        verdict-IsDue clock now skip_missed job disable go,
        absent-select_due clock codec w now skip_missed jobs s f job.id u.0,
        select_due-IsDue clock codec w now skip_missed jobs s f u.1,
      )
    ]

-- A check hands out only jobs that are enabled and due, each once.
pub check-IsDue :
    (clock : Clock) (codec : Codec) (w : Text → Written) (now : ℕ) (e : Executor) (s : Store)
    (f : File)
    → IsKeyed s.jobs
    → All (IsDue clock now) (check clock codec w now e s f).0
      × NoRepeats (ids (map (update_of now) (check clock codec w now e s f).0))
unfolding check is_paused list
check-IsDue clock codec w now e s f k =
    let ready = reload clock codec s f in
    let again = reload clock codec ready.1 f in
    let keyed = reload-IsKeyed clock codec ready.1 f (reload-IsKeyed clock codec s f k) in
    ground (
      arith,
      select_due-IsDue clock codec w now (e.first_check && not e.catch_up)
          (sorted_jobs again.1.jobs) again.1 f (sorted_jobs-Lists again.1.jobs keyed).unique,
    )

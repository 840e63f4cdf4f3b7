-- ===== src/Scheduler/Store.antt =====
-- internal/scheduler/scheduler.go: Store, which reads its file again when the file changed. A method
-- runs under the mutex and is one step on the store and the file.
use openclawssy.Base.{
  ℕ, ◌≡◌, Bool, true, false, ◌&&◌, Option, none, some, List, [], ◌∷◌, ◌++◌, Text, text_eq, nat_eq,
  text_ltb, if◌then◌else◌, ◌==◌, length, Map, lookup, insert, delete,
}
use openclawssy.Scheduler.Time.{
  Job, Clock, Result, ok, err, SchedulerError, path_required, id_required, schedule_required,
  job_not_found, stat_failed, read_failed, parse_failed, write_failed, normalize_schedule, next_due,
}

-- encoding/json on persistedJobs: what MarshalIndent writes, with a line feed, Unmarshal reads back.
pub record Codec : Type 0 where
  pub encode : Bool → List Job → Text
  pub decode : Text → Option (Bool × List Job)
  pub decode-encode :
      (paused : Bool) (jobs : List Job)
      → decode (encode paused jobs ++ 10 ∷ []) ≡ some (paused, jobs)

-- What os.Stat and os.ReadFile find at the store's path.
pub data File : Type 0 where
  missing stat_error : File
  present : ℕ → Text → File
  unreadable : ℕ → ℕ → File

-- How an atomic write ends: with the file's new time if it was replaced.
pub data Written : Type 0 where
  failed : Written
  replaced unstatted : ℕ → Written

pub record Store : Type 0 where
  pub jobs : Map Text Job
  pub paused : Bool
  pub last_mod : ℕ
  pub last_size : ℕ

abbrev pub Outcome : Type 0
Outcome = Option SchedulerError × Store × File

-- The loop over the jobs of a file: a later job replaces an earlier one with its id.
unfoldable pub index_jobs : List Job → Map Text Job → Map Text Job
index_jobs [] jobs = jobs
index_jobs (job ∷ rest) jobs = index_jobs rest (insert job.id job jobs)

unfoldable pub read_body : Codec → ℕ → Text → Store → Option SchedulerError × Store
unfolding index_jobs
read_body codec time body s =
    if length body == 0
    then (none, record s { jobs = []; paused = false; last_mod = time; last_size = length body })
    else elim (codec.decode body) [
      | none ↦ (some parse_failed, s)
      | some (paused, jobs) ↦ (
        none,
        record s {
          jobs = index_jobs jobs [];
          paused = paused;
          last_mod = time;
          last_size = length body;
        },
      )
    ]

unfoldable pub reload : Clock → Codec → Store → File → Option SchedulerError × Store
unfolding read_body
reload clock codec s missing =
    (none, record s { jobs = []; paused = false; last_mod = clock.zero_time; last_size = 0 })
reload clock codec s stat_error = (some stat_failed, s)
reload clock codec s (present time body) =
    if time == s.last_mod && length body == s.last_size
    then (none, s)
    else read_body codec time body s
reload clock codec s (unreadable time size) =
    if time == s.last_mod && size == s.last_size then (none, s) else (some read_failed, s)

unfoldable pub insert_job : Job → List Job → List Job
insert_job job [] = job ∷ []
insert_job job (other ∷ rest) =
    if text_ltb other.id job.id then other ∷ insert_job job rest else job ∷ other ∷ rest

-- The jobs of the map in the order of their ids.
unfoldable pub sorted_jobs : Map Text Job → List Job
unfolding insert_job
sorted_jobs [] = []
sorted_jobs ((id, job) ∷ jobs) = insert_job job (sorted_jobs jobs)

unfoldable pub save : Codec → Written → Store → File → Outcome
unfolding sorted_jobs
save codec failed s f = (some write_failed, s, f)
save codec (replaced time) s f =
    let body = codec.encode s.paused (sorted_jobs s.jobs) ++ 10 ∷ [] in
    (none, record s { last_mod = time; last_size = length body }, present time body)
save codec (unstatted time) s f =
    (none, s, present time (codec.encode s.paused (sorted_jobs s.jobs) ++ 10 ∷ []))

-- The store as it is after the file was read again, or that step's error.
unfoldable pub reloaded : Clock → Codec → Store → File → (Store → Outcome) → Outcome
unfolding reload
reloaded clock codec s f next =
    let (e, s') = reload clock codec s f in elim e [ some e ↦ (some e, s', f) | none ↦ next s' ]

unfoldable pub new_store : Clock → Codec → Text → File → Result Store
unfolding reload
new_store clock codec path f =
    if path == []
    then err path_required
    else let (e, s) =
        reload clock codec
          (record { jobs = []; paused = false; last_mod = clock.zero_time; last_size = 0 }) f in
      elim e [ some e ↦ err e | none ↦ ok s ]

unfoldable pub add : Clock → Codec → Written → ℕ → Job → Store → File → Outcome
unfolding reloaded save
add clock codec w now job s f =
    let job' : Job = record job { schedule = normalize_schedule job.schedule } in
    if job.id == []
    then (some id_required, s, f)
    else if job'.schedule == []
    then (some schedule_required, s, f)
    else elim (next_due clock job' now) [
      | err e ↦ (some e, s, f)
      | ok due ↦
          reloaded clock codec s f
            (λ s'. save codec w (record s' { jobs = insert job'.id job' s'.jobs }) f)
    ]

-- An error of the reload is ignored.
unfoldable pub list : Clock → Codec → Store → File → List Job × Store
unfolding reload sorted_jobs
list clock codec s f = let (e, s') = reload clock codec s f in (sorted_jobs s'.jobs, s')

unfoldable pub remove : Clock → Codec → Written → Text → Store → File → Outcome
unfolding reloaded save
remove clock codec w id s f = reloaded clock codec s f (λ s'. elim (lookup id s'.jobs) [
  | none ↦ (some job_not_found, s', f)
  | some job ↦ save codec w (record s' { jobs = delete id s'.jobs }) f
])

-- A job after a run: it gets the time of the run, and is disabled if the run was its only one.
unfoldable pub mark_run : Clock → ℕ → Bool → Job → Job
mark_run clock run_at disable job =
    let marked : Job = record job { last_run = clock.format_time run_at } in
    if disable then record marked { enabled = false } else marked

unfoldable pub update_after_run : Clock → Codec → Written → Text → ℕ → Bool → Store → File → Outcome
unfolding reloaded save mark_run
update_after_run clock codec w id run_at disable s f = reloaded clock codec s f (λ s'.
    elim (lookup id s'.jobs) [
      | none ↦ (some job_not_found, s', f)
      | some job ↦
          save codec w (record s' { jobs = insert id (mark_run clock run_at disable job) s'.jobs })
            f
    ])

pub record JobUpdate : Type 0 where
  pub job_id : Text
  pub run_at : ℕ
  pub disable : Bool

-- The loop over the updates: the jobs, and whether one of them changed.
unfoldable pub apply_updates : Clock → List JobUpdate → Map Text Job → Bool → Map Text Job × Bool
unfolding mark_run
apply_updates clock [] jobs dirty = (jobs, dirty)
apply_updates clock (u ∷ us) jobs dirty = elim (lookup u.job_id jobs) [
  | none ↦ apply_updates clock us jobs dirty
  | some job ↦
      apply_updates clock us (insert u.job_id (mark_run clock u.run_at u.disable job) jobs) true
]

unfoldable pub batch_update_after_run :
    Clock → Codec → Written → List JobUpdate → Store → File → Outcome
unfolding reloaded save apply_updates
batch_update_after_run clock codec w updates s f = reloaded clock codec s f (λ s'.
    let (jobs, dirty) = apply_updates clock updates s'.jobs false in
    let s'' : Store = record s' { jobs = jobs } in
    if dirty then save codec w s'' f else (none, s'', f))

unfoldable pub set_paused : Clock → Codec → Written → Bool → Store → File → Outcome
unfolding reloaded save
set_paused clock codec w paused s f =
    reloaded clock codec s f (λ s'. save codec w (record s' { paused = paused }) f)

-- An error of the reload is ignored.
unfoldable pub is_paused : Clock → Codec → Store → File → Bool × Store
unfolding reload
is_paused clock codec s f = let (e, s') = reload clock codec s f in (s'.paused, s')

unfoldable pub set_job_enabled : Clock → Codec → Written → Text → Bool → Store → File → Outcome
unfolding reloaded save
set_job_enabled clock codec w id enabled s f = reloaded clock codec s f (λ s'.
    elim (lookup id s'.jobs) [
      | none ↦ (some job_not_found, s', f)
      | some job ↦
          save codec w (record s' { jobs = insert id (record job { enabled = enabled }) s'.jobs }) f
    ])

-- ===== src/Scheduler/Persist.antt =====
-- The store and its file.
use openclawssy.Base.{
  ℕ, ◌≡◌, ◌≢◌, refl, Option, none, some, List, [], ◌∷◌, ◌++◌, Text, text_eq, nat_eq, eq_iff, ◌==◌,
  if◌then◌else◌, length, arith, All, Map, lookup, insert, lookup-insert, UniqueKeys,
  insert-UniqueKeys, All-insert, length-append,
}
use openclawssy.Scheduler.Time.{Job, Clock, ok}
use openclawssy.Scheduler.Store.{
  Codec, File, replaced, Store, index_jobs, read_body, reload, sorted_jobs, insert_job, save,
  new_store,
}

-- Each job stands under its own id, once.
pub record IsKeyed (jobs : Map Text Job) : Type 0 where
  pub own_id : All (λ (p : Text × Job). p.1.id ≡ p.0) jobs
  pub once : UniqueKeys jobs

pub insert-IsKeyed :
    (job : Job) (jobs : Map Text Job) → IsKeyed jobs → IsKeyed (insert job.id job jobs)
insert-IsKeyed job jobs k = record {
  own_id = All-insert _ job.id job jobs refl k.own_id;
  once = insert-UniqueKeys job.id job jobs k.once;
}

pub index_jobs-IsKeyed :
    (list : List Job) (jobs : Map Text Job) → IsKeyed jobs → IsKeyed (index_jobs list jobs)
unfolding index_jobs
index_jobs-IsKeyed [] jobs k = k
index_jobs-IsKeyed (job ∷ list) jobs k =
    index_jobs-IsKeyed list (insert job.id job jobs) (insert-IsKeyed job jobs k)

-- The first job of a list with an id.
unfoldable pub job_with : Text → List Job → Option Job
job_with id [] = none
job_with id (job ∷ rest) = let later = job_with id rest in if job.id == id then some job else later

job_with-insert_job :
    (job : Job) (list : List Job) (id : Text)
    → job_with job.id list ≡ none
    → job_with id (insert_job job list) ≡ (if job.id == id then some job else job_with id list)
unfolding job_with insert_job
job_with-insert_job job [] id a = refl
job_with-insert_job job (other ∷ list) id a = ground (
  arith,
  job_with-insert_job job list id,
  eq_iff job.id id,
  eq_iff other.id id,
  eq_iff other.id job.id,
)

unfoldable pub UniqueIds : List Job → Type 0
UniqueIds [] = Unit
UniqueIds (job ∷ rest) = (job_with job.id rest ≡ none) × UniqueIds rest

insert_job-UniqueIds :
    (job : Job) (list : List Job)
    → job_with job.id list ≡ none
    → UniqueIds list
    → UniqueIds (insert_job job list)
unfolding UniqueIds insert_job job_with
insert_job-UniqueIds job [] a u = ground arith
insert_job-UniqueIds job (other ∷ list) a u = ground (
  arith,
  insert_job-UniqueIds job list,
  job_with-insert_job job list other.id,
  eq_iff job.id other.id,
  eq_iff other.id job.id,
)

-- What a map and a list of jobs have in common, if the list holds the map's jobs.
pub record Lists (jobs : Map Text Job) (list : List Job) : Type 0 where
  pub unique : UniqueIds list
  pub same : (id : Text) → job_with id list ≡ lookup id jobs

pub sorted_jobs-Lists : (jobs : Map Text Job) → IsKeyed jobs → Lists jobs (sorted_jobs jobs)
unfolding sorted_jobs lookup job_with UniqueIds
sorted_jobs-Lists [] k = record { unique = tt; same = λ id. refl }
sorted_jobs-Lists ((key, job) ∷ jobs) k =
    let rest = sorted_jobs-Lists jobs (record { own_id = k.own_id.1; once = k.once.1 }) in
    let absent : job_with job.id (sorted_jobs jobs) ≡ none =
      ground (arith, k.once.0, k.own_id.0, rest.same job.id) in
    record {
      unique = insert_job-UniqueIds job (sorted_jobs jobs) absent rest.unique;
      same = λ id.
          ground
            (arith, k.own_id.0, job_with-insert_job job (sorted_jobs jobs) id absent, rest.same id);
    }

or_else : Option Job → Option Job → Option Job
or_else none job = job
or_else (some job) other = some job

lookup-index_jobs :
    (list : List Job) (jobs : Map Text Job) (id : Text)
    → UniqueIds list
    → lookup id (index_jobs list jobs) ≡ or_else (job_with id list) (lookup id jobs)
unfolding index_jobs UniqueIds job_with or_else
lookup-index_jobs [] jobs id u = refl
lookup-index_jobs (job ∷ list) jobs id u = ground (
  arith,
  lookup-index_jobs list (insert job.id job jobs) id u.1,
  lookup-insert job.id id job jobs,
  eq_iff job.id id,
)

index_jobs-sorted_jobs :
    (jobs : Map Text Job) (id : Text)
    → IsKeyed jobs
    → lookup id (index_jobs (sorted_jobs jobs) []) ≡ lookup id jobs
unfolding lookup or_else
index_jobs-sorted_jobs jobs id k =
    let list = sorted_jobs-Lists jobs k in
    ground (arith, lookup-index_jobs (sorted_jobs jobs) [] id list.unique, list.same id)

-- A store whose jobs stand under their own ids, once, and that was saved to the file is read back from
-- it by a new store with a path: every job under its id, and whether the scheduler is paused.
pub save-new_store :
    (clock : Clock) (codec : Codec) (path : Text) (time : ℕ) (s : Store) (f : File)
    → IsKeyed s.jobs
    → path ≢ []
    → (s' : Store) × (new_store clock codec path (save codec (replaced time) s f).2 ≡ ok s')
      × ((id : Text) → lookup id s'.jobs ≡ lookup id s.jobs)
      × (s'.paused ≡ s.paused)
unfolding new_store save reload read_body
save-new_store clock codec path time s f k h =
    let body = codec.encode s.paused (sorted_jobs s.jobs) ++ 10 ∷ [] in
    let read : Store = record {
      jobs = index_jobs (sorted_jobs s.jobs) [];
      paused = s.paused;
      last_mod = time;
      last_size = length body;
    } in
    (
      read,
      ground (
        arith,
        codec.decode-encode s.paused (sorted_jobs s.jobs),
        length-append (codec.encode s.paused (sorted_jobs s.jobs)) (10 ∷ []),
        eq_iff path [],
      ),
      λ id. index_jobs-sorted_jobs s.jobs id k,
      refl,
    )

-- The next step after an own write does not read the file again: it goes on with the same store.
pub save-reload :
    (clock : Clock) (codec : Codec) (time : ℕ) (s : Store) (f : File)
    → let (e, s', f') = save codec (replaced time) s f in reload clock codec s' f' ≡ (none, s')
unfolding save reload
save-reload clock codec time s f = ground arith

-- ===== src/Scheduler/Samples.antt =====
-- The scheduler's statements at concrete jobs, with a codec and a clock that keep their laws.
use openclawssy.Base.{
  ℕ, zero, suc, ◌+◌, ◌<◌, ◌≡◌, refl, ap, Bool, true, false, Option, none, some, List, [], ◌∷◌, ◌++◌,
  map, Text, codes, arith, text_eq, text_beq, lookup, ℤ, pos, pos_part, leb, All, NoRepeats,
  has_prefix, trim, trim_left, trim_right, is_space, to_lower, lower_code, contains, eq_iff, ◌≢◌,
}
use openclawssy.Scheduler.Time.{
  Job, Clock, ok, next_due, is_missed_run, normalize_schedule, interval_text, parse_last_run,
}
use openclawssy.Scheduler.Store.{
  Codec, present, missing, replaced, failed, Store, JobUpdate, mark_run, apply_updates, save,
  new_store,
}
use openclawssy.Scheduler.Executor.{Executor, check, update_of}
use openclawssy.Scheduler.Due.{one_shot-once, interval-due}
use openclawssy.Scheduler.Updates.{lookup-apply_updates, report_on, reported, ids}
use openclawssy.Scheduler.Persist.{IsKeyed, save-new_store}
use openclawssy.Scheduler.Keyed.{notes_run, perform, perform-IsKeyed}
use openclawssy.Scheduler.Handout.{IsDue, check-IsDue}

-- Texts one after the other, each ended by a zero.
join : List Text → Text
join [] = []
join ([] ∷ ts) = 0 ∷ join ts
join ((c ∷ t) ∷ ts) = suc c ∷ join (t ∷ ts)

cons_head : ℕ → List Text → List Text
cons_head c [] = (c ∷ []) ∷ []
cons_head c (t ∷ ts) = (c ∷ t) ∷ ts

split : Text → List Text
split [] = []
split (zero ∷ s) = [] ∷ split s
split (suc c ∷ s) = cons_head c (split s)

split-join : (ts : List Text) → split (join ts ++ 10 ∷ []) ≡ ts ++ (9 ∷ []) ∷ []
unfolding split join cons_head
split-join [] = refl
split-join ([] ∷ ts) = ap (λ r. [] ∷ r) (split-join ts)
split-join ((c ∷ t) ∷ ts) = ap (cons_head c) (split-join (t ∷ ts))

flag : Bool → Text
flag true = 1 ∷ []
flag false = []

unflag : Text → Bool
unflag [] = false
unflag (c ∷ t) = true

fields : List Job → List Text
fields [] = []
fields (j ∷ js) =
    j.id
    ∷ j.schedule
    ∷ j.agent_id
    ∷ j.message
    ∷ j.channel
    ∷ j.user_id
    ∷ j.room_id
    ∷ j.session_id
    ∷ flag j.enabled
    ∷ j.last_run
    ∷ fields js

jobs_of : List Text → List Job
jobs_of (a ∷ b ∷ c ∷ d ∷ e ∷ f ∷ g ∷ h ∷ i ∷ j ∷ rest) =
    record {
      id = a;
      schedule = b;
      agent_id = c;
      message = d;
      channel = e;
      user_id = f;
      room_id = g;
      session_id = h;
      enabled = unflag i;
      last_run = j;
    }
    ∷ jobs_of rest
jobs_of _ = []

unflag-flag : (b : Bool) → unflag (flag b) ≡ b
unfolding flag unflag
unflag-flag true = refl
unflag-flag false = refl

jobs_of-fields : (js : List Job) → jobs_of (fields js ++ (9 ∷ []) ∷ []) ≡ js
unfolding jobs_of fields
jobs_of-fields [] = refl
jobs_of-fields (j ∷ js) = rw (unflag-flag j.enabled, jobs_of-fields js)

paused_of : List Text → Option (Bool × List Job)
paused_of [] = none
paused_of (p ∷ ts) = some (unflag p, jobs_of ts)

paused_of-fields :
    (paused : Bool) (js : List Job)
    → paused_of (split (join (flag paused ∷ fields js) ++ 10 ∷ [])) ≡ some (paused, js)
unfolding paused_of
paused_of-fields paused js =
    rw (split-join (flag paused ∷ fields js), unflag-flag paused, jobs_of-fields js)

plain_codec : Codec
plain_codec = record {
  encode = λ paused js. join (flag paused ∷ fields js);
  decode = λ body. paused_of (split body);
  decode-encode = paused_of-fields;
}

number_of : Text → Option ℕ
number_of (c ∷ []) = some c
number_of _ = none

-- A clock of whole seconds: an instant is written as one character.
plain_clock : Clock
unfolding number_of
plain_clock = record {
  zero_time = 0;
  end_of_years = 1_000_000;
  to_second = λ t. t;
  parse_time = number_of;
  format_time = λ t. t ∷ [];
  parse_duration = λ raw. elim (number_of raw) [ none ↦ none | some d ↦ some (pos d) ];
  to_second-below = λ t. omega arith;
  to_second-close = λ t. omega arith;
  format_time-parse = λ t z h. refl;
  format_time-written = λ t e. cc;
}

abbrev once : Job
once = record {
  id = codes "once";
  schedule = 500 ∷ [];
  agent_id = codes "main";
  message = codes "hello";
  channel = [];
  user_id = [];
  room_id = [];
  session_id = [];
  enabled = true;
  last_run = [];
}

-- The interval "5" is 53 nanoseconds for `plain_clock`.
abbrev often : Job
often = record once { id = codes "often"; schedule = codes "@every 5"; last_run = 700 ∷ [] }

abbrev two_jobs : Store
two_jobs = record {
  jobs = (codes "often", often) ∷ (codes "once", once) ∷ [];
  paused = true;
  last_mod = 3;
  last_size = 4;
}

two_jobs-IsKeyed : IsKeyed two_jobs.jobs
unfolding lookup codes text_beq
two_jobs-IsKeyed = record { own_id = (refl, (refl, tt)); once = (refl, (refl, tt)) }

often_missed : is_missed_run plain_clock often 760 ≡ true
unfolding is_missed_run normalize_schedule interval_text parse_last_run trim trim_left trim_right
    is_space to_lower lower_code has_prefix codes text_beq plain_clock number_of
often_missed = refl

often_due : next_due plain_clock often 760 ≡ ok (true, false)
unfolding next_due normalize_schedule interval_text parse_last_run trim trim_left trim_right
    is_space to_lower lower_code has_prefix codes text_beq plain_clock number_of
often_due = refl

once_due : next_due plain_clock once 510 ≡ ok (true, true)
unfolding next_due normalize_schedule interval_text parse_last_run trim trim_left trim_right
    is_space to_lower lower_code has_prefix codes text_beq plain_clock number_of
once_due = refl

early : (n : ℕ) → n < 1_000 → n < plain_clock.end_of_years
unfolding plain_clock
early n h = omega arith

begun : (n : ℕ) → 0 < n → plain_clock.zero_time < plain_clock.to_second n
unfolding plain_clock
begun n h = h

one_shot-once_example :
    next_due plain_clock (record (mark_run plain_clock 510 true once) { enabled = true }) 900
    ≡ ok (false, true)
one_shot-once_example =
    one_shot-once plain_clock once 510 900 (early 510 (omega arith)) (begun 510 (omega arith))
      once_due

interval-due_example :
    (raw : Text) × (d : ℤ) × (interval_text (normalize_schedule often.schedule) ≡ some raw)
    × (plain_clock.parse_duration raw ≡ some d)
    × (0 < pos_part d)
    × (next_due plain_clock (mark_run plain_clock 760 false often) 800
        ≡ ok (leb (plain_clock.to_second 760 + pos_part d) 800, false))
interval-due_example =
    interval-due plain_clock often 760 800 (early 760 (omega arith)) (begun 760 (omega arith))
      often_due

abbrev reports : List JobUpdate
reports =
    record { job_id = codes "often"; run_at = 760; disable = false }
    ∷ record { job_id = codes "once"; run_at = 760; disable = true }
    ∷ []

abbrev reports' : List JobUpdate
reports' =
    record { job_id = codes "once"; run_at = 760; disable = true }
    ∷ record { job_id = codes "often"; run_at = 760; disable = false }
    ∷ []

reports-NoRepeats : NoRepeats (ids reports)
unfolding codes text_beq contains
reports-NoRepeats = (refl, (refl, tt))

reports'-NoRepeats : NoRepeats (ids reports')
unfolding codes text_beq contains
reports'-NoRepeats = (refl, (refl, tt))

different : text_beq (codes "often") (codes "once") ≡ false
unfolding codes text_beq
different = refl

same_reports : (k : Text) → report_on k reports ≡ report_on k reports'
unfolding report_on
same_reports k = ground (arith, eq_iff (codes "often") k, eq_iff (codes "once") k, different)

lookup-apply_updates_example :
    lookup (codes "once") (apply_updates plain_clock reports two_jobs.jobs false).0
    ≡ reported plain_clock (report_on (codes "once") reports) (lookup (codes "once") two_jobs.jobs)
lookup-apply_updates_example =
    lookup-apply_updates plain_clock reports two_jobs.jobs false (codes "once") reports-NoRepeats

named : codes "jobs.json" ≢ []
unfolding codes
named e = cc

save-new_store_example :
    (s' : Store) × (new_store plain_clock plain_codec
        (codes "jobs.json")
        (save plain_codec (replaced 8) two_jobs missing).2
      ≡ ok s')
    × ((id : Text) → lookup id s'.jobs ≡ lookup id two_jobs.jobs)
    × (s'.paused ≡ true)
save-new_store_example =
    save-new_store plain_clock plain_codec (codes "jobs.json") 8 two_jobs missing two_jobs-IsKeyed
      named

perform-IsKeyed_example :
    IsKeyed
      (perform plain_clock plain_codec
        (replaced 8)
        (notes_run (codes "once") 760 true)
        two_jobs
        (present 3 (codes "body"))).1.jobs
perform-IsKeyed_example =
    perform-IsKeyed plain_clock plain_codec (replaced 8) (notes_run (codes "once") 760 true)
      two_jobs (present 3 (codes "body")) two_jobs-IsKeyed

abbrev running : Store
running = record two_jobs { paused = false }

abbrev first_tick : Executor
first_tick = record { catch_up = false; first_check = true }

check-IsDue_example :
    All
      (IsDue plain_clock 760)
      (check plain_clock plain_codec
        (λ id. failed)
        760
        first_tick
        running
        (present 3 (codes "body"))).0
    × NoRepeats (
        ids (
          map
            (update_of 760)
            (check plain_clock plain_codec
              (λ id. failed)
              760
              first_tick
              running
              (present 3 (codes "body"))).0))
check-IsDue_example =
    check-IsDue plain_clock plain_codec (λ id. failed) 760 first_tick running
      (present 3 (codes "body")) two_jobs-IsKeyed

-- ===== src/Chat/RateLimiter/Window.antt =====
-- The limiter decides as a log of all grants would: by the grants of the last window.
use mathlib.Core.Path.{subst₂}
use openclawssy.Base.{
  ℕ, suc, ◌+◌, ◌≤◌, ◌≡◌, refl, sym, ◌∙◌, Bool, true, false, ◌&&◌, List, [], ◌∷◌, ◌++◌, ltb, leb,
  length, filter_by, if◌then◌else◌, Text, Map, lookup, insert, lookup-insert, ◌==◌, eq_iff, text_eq,
  ℤ, arith, Bool-cases, inl, inr,
}
use openclawssy.Chat.RateLimiter.{
  RateLimiter, new_rate_limiter, kept_events, alive, events_of, allow_with_details, allowed, after,
}

-- How many grants of a key are alive at an instant, in a log of all grants.
unfoldable pub live_count : ℕ → Text → ℕ → List (Text × ℕ) → ℕ
live_count window key now [] = 0
live_count window key now ((k, ts) ∷ log) =
    let rest = live_count window key now log in
    if k == key && alive window now ts then suc rest else rest

-- The specification: a request passes while fewer than `limit` grants of its key are alive.
pub granted : ℕ → ℕ → List (Text × ℕ) → Text → ℕ → Bool
granted limit window log key now = ltb (live_count window key now log) limit

-- The instants of a history do not fall, from a first one on.
abbrev pub IsMonotone : ℕ → List (Text × ℕ) → Type 0
IsMonotone last [] = Unit
IsMonotone last ((key, now) ∷ rest) = (last ≤ now) × IsMonotone now rest

abbrev pub last_instant : ℕ → List (Text × ℕ) → ℕ
last_instant last [] = last
last_instant last ((key, now) ∷ rest) = last_instant now rest

count_alive : ℕ → ℕ → List ℕ → ℕ
count_alive window now ts = length (filter_by (alive window now) ts)

-- Filtering by an earlier instant first loses nothing that is alive later.
count_alive-filter :
    (window early late : ℕ) (ts : List ℕ)
    → early ≤ late
    → count_alive window late (filter_by (alive window early) ts) ≡ count_alive window late ts
unfolding count_alive filter_by alive
count_alive-filter window early late [] h = refl
count_alive-filter window early late (x ∷ ts) h =
    ground (arith, count_alive-filter window early late ts h)

count_alive-append :
    (window now : ℕ) (ts : List ℕ) (x : ℕ)
    → count_alive window now (ts ++ x ∷ [])
      ≡ count_alive window now ts + (if alive window now x then 1 else 0)
unfolding count_alive filter_by
count_alive-append window now [] x = ground arith
count_alive-append window now (y ∷ ts) x = ground (arith, count_alive-append window now ts x)

-- From the last instant on the limiter and the log count alike, for each key.
abbrev Matches : RateLimiter → List (Text × ℕ) → ℕ → Type 0
Matches r log last =
    (key : Text) (now : ℕ)
    → last ≤ now
    → count_alive r.window now (events_of key r.events) ≡ live_count r.window key now log

limit-allow :
    (r : RateLimiter) (key : Text) (now : ℕ)
    → ((allow_with_details r key now).0.limit ≡ r.limit)
      × ((allow_with_details r key now).0.window ≡ r.window)
unfolding allow_with_details
limit-allow r key now = ground arith

events_of-insert :
    (k j : Text) (ts : List ℕ) (m : Map Text (List ℕ))
    → events_of j (insert k ts m) ≡ (if k == j then ts else events_of j m)
unfolding events_of
events_of-insert k j ts m = ground (arith, lookup-insert k j ts m)

length-kept :
    (r : RateLimiter) (key : Text) (now : ℕ)
    → length (kept_events r key now) ≡ count_alive r.window now (events_of key r.events)
unfolding kept_events count_alive
length-kept r key now = refl

count_alive-kept :
    (r : RateLimiter) (key : Text) (now late : ℕ)
    → now ≤ late
    → count_alive r.window late (kept_events r key now)
      ≡ count_alive r.window late (events_of key r.events)
unfolding kept_events
count_alive-kept r key now late h = count_alive-filter r.window now late (events_of key r.events) h

module _ (r : RateLimiter) (log : List (Text × ℕ)) (last : ℕ) (same : Matches r log last) where
  -- One request: the limiter and the specification take the same decision.
  allowed-granted :
      (key : Text) (now : ℕ) → last ≤ now → allowed r key now ≡ granted r.limit r.window log key now
  unfolding allowed allow_with_details granted
  allowed-granted key now h = ground (arith, same key now h, length-kept r key now)

  Matches-refused :
      (key : Text) (now : ℕ)
      → last ≤ now
      → allowed r key now ≡ false
      → Matches (allow_with_details r key now).0 log now
  unfolding allowed allow_with_details
  Matches-refused key now h refused j late g = ground (
    arith,
    events_of-insert key j (kept_events r key now) r.events,
    same j late,
    count_alive-kept r key now late g,
    eq_iff key j,
  )

  Matches-granted :
      (key : Text) (now : ℕ)
      → last ≤ now
      → allowed r key now ≡ true
      → Matches (allow_with_details r key now).0 ((key, now) ∷ log) now
  unfolding allowed allow_with_details live_count
  Matches-granted key now h passed j late g = ground (
    arith,
    events_of-insert key j (kept_events r key now ++ now ∷ []) r.events,
    same j late,
    count_alive-kept r key now late g,
    eq_iff key j,
    count_alive-append r.window late (kept_events r key now) now,
  )

-- The requests that the limiter lets through, newest first, put before those of a log.
pub passed : RateLimiter → List (Text × ℕ) → List (Text × ℕ) → List (Text × ℕ)
passed r log [] = log
passed r log ((key, now) ∷ rest) =
    passed (allow_with_details r key now).0 (if allowed r key now then (key, now) ∷ log else log)
      rest

Matches-step :
    (r : RateLimiter) (log : List (Text × ℕ)) (last : ℕ) (key : Text) (now : ℕ)
    → Matches r log last
    → last ≤ now
    → Matches
        (allow_with_details r key now).0
        (if allowed r key now then (key, now) ∷ log else log)
        now
Matches-step r log last key now same h = elim (Bool-cases (allowed r key now)) [
  | inl e ↦ rw e (Matches-granted r log last same key now h e)
  | inr e ↦ rw e (Matches-refused r log last same key now h e)
]

-- After a history the limiter still matches the log of what it let through.
Matches-after :
    (r : RateLimiter) (log : List (Text × ℕ)) (last : ℕ) (reqs : List (Text × ℕ))
    → Matches r log last
    → IsMonotone last reqs
    → Matches (after r reqs) (passed r log reqs) (last_instant last reqs)
unfolding after passed
Matches-after r log last [] same h = same
Matches-after r log last ((key, now) ∷ rest) same h =
    Matches-after (allow_with_details r key now).0
      (if allowed r key now then (key, now) ∷ log else log) now rest
      (Matches-step r log last key now same h.0) h.1

limits-after :
    (r : RateLimiter) (reqs : List (Text × ℕ))
    → ((after r reqs).limit ≡ r.limit) × ((after r reqs).window ≡ r.window)
unfolding after
limits-after r [] = (refl, refl)
limits-after r ((key, now) ∷ rest) =
    grind (arith, limits-after (allow_with_details r key now).0 rest, limit-allow r key now)

Matches-new : (limit window : ℤ) → Matches (new_rate_limiter limit window) [] 0
unfolding new_rate_limiter events_of lookup live_count count_alive filter_by
Matches-new limit window key now h = refl

-- After any history whose instants do not fall, a new limiter passes a request exactly if fewer
-- than `limit` of the requests of its key that it let through lie less than a window back.
pub allowed-after :
    (limit window : ℤ) (reqs : List (Text × ℕ)) (key : Text) (now : ℕ)
    → IsMonotone 0 reqs
    → last_instant 0 reqs ≤ now
    → let r = new_rate_limiter limit window in
      allowed (after r reqs) key now ≡ granted r.limit r.window (passed r [] reqs) key now
allowed-after limit window reqs key now h g =
    let r = new_rate_limiter limit window in
    cc (
      allowed-granted (after r reqs) (passed r [] reqs) (last_instant 0 reqs)
          (Matches-after r [] 0 reqs (Matches-new limit window) h) key now g,
      (limits-after r reqs).0,
      (limits-after r reqs).1,
    )

-- The entries of a key in a log that lie in the window which ends at `at`.
pub in_window : ℕ → Text → ℕ → List (Text × ℕ) → ℕ
in_window window key at [] = 0
in_window window key at ((k, ts) ∷ log) =
    let rest = in_window window key at log in
    if k == key && leb ts at && alive window at ts then suc rest else rest

in_window-live :
    (window : ℕ) (key : Text) (early at : ℕ) (log : List (Text × ℕ))
    → early ≤ at
    → in_window window key at log ≤ live_count window key early log
unfolding in_window live_count alive
in_window-live window key early at [] h = omega arith
in_window-live window key early at ((k, ts) ∷ log) h =
    ground (arith, in_window-live window key early at log h)

abbrev IsBounded : ℕ → ℕ → List (Text × ℕ) → Type 0
IsBounded limit window log = (key : Text) (at : ℕ) → in_window window key at log ≤ limit

passed_step-IsBounded :
    (r : RateLimiter) (log : List (Text × ℕ)) (last : ℕ) (key : Text) (now : ℕ)
    → Matches r log last
    → last ≤ now
    → IsBounded r.limit r.window log
    → IsBounded r.limit r.window (if allowed r key now then (key, now) ∷ log else log)
unfolding granted in_window
passed_step-IsBounded r log last key now same h bound j at = ground (
  arith,
  allowed-granted r log last same key now h,
  bound j at,
  in_window-live r.window key now at log,
  eq_iff key j,
)

abbrev Limits : RateLimiter → ℕ → ℕ → Type 0
Limits r limit window = (r.limit ≡ limit) × (r.window ≡ window)

passed-IsBounded :
    (r : RateLimiter) (log : List (Text × ℕ)) (last : ℕ) (reqs : List (Text × ℕ)) (limit window : ℕ)
    → Limits r limit window
    → Matches r log last
    → IsMonotone last reqs
    → IsBounded limit window log
    → IsBounded limit window (passed r log reqs)
unfolding passed
passed-IsBounded r log last [] limit window e same h bound = bound
passed-IsBounded r log last ((key, now) ∷ rest) limit window e same h bound =
    passed-IsBounded (allow_with_details r key now).0
      (if allowed r key now then (key, now) ∷ log else log) now rest limit window
      ((limit-allow r key now).0 ∙ e.0, (limit-allow r key now).1 ∙ e.1)
      (Matches-step r log last key now same h.0) h.1
      (subst₂ (λ l w. IsBounded l w (if allowed r key now then (key, now) ∷ log else log)) e.0 e.1
        (passed_step-IsBounded r log last key now same h.0
          (subst₂ (λ l w. IsBounded l w log) (sym e.0) (sym e.1) bound)))

-- In any history whose instants do not fall, a new limiter lets through at most `limit` requests of
-- a key in any stretch of time as long as the window, wherever the stretch ends.
pub window_limit :
    (limit window : ℤ) (reqs : List (Text × ℕ)) (key : Text) (at : ℕ)
    → IsMonotone 0 reqs
    → let r = new_rate_limiter limit window in
      in_window r.window key at (passed r [] reqs) ≤ r.limit
unfolding in_window
window_limit limit window reqs key at h =
    let r = new_rate_limiter limit window in
    passed-IsBounded r [] 0 reqs r.limit r.window (refl, refl) (Matches-new limit window) h
      (λ j t. omega arith) key at

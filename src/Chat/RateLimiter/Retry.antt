-- ===== src/Chat/RateLimiter/Retry.antt =====
-- The retry time of a refusal is honest: once it has passed, the request is let through.
use openclawssy.Base.{
  ℕ, ◌+◌, ◌≤◌, ◌<◌, ◌≡◌, refl, ap, List, [], ◌∷◌, ◌++◌, length, length-append, filter_by,
  length-filter_by-le, if◌then◌else◌, Text, Map, lookup, insert, lookup-insert, ◌==◌, eq_iff,
  text_eq, ℤ, arith,
}
use openclawssy.Chat.RateLimiter.{
  RateLimiter, new_rate_limiter, Decision, allow, deny, panics, kept_events, alive, events_of,
  allow_with_details, after, refuse, retry_after,
}

-- No key holds more instants than the limit, and the limit is at least one.
pub record IsValid (r : RateLimiter) : Type 0 where
  pub positive : 1 ≤ r.limit
  pub at_most : (key : Text) → length (events_of key r.events) ≤ r.limit

pub new-IsValid : (limit window : ℤ) → IsValid (new_rate_limiter limit window)
unfolding new_rate_limiter events_of lookup
new-IsValid limit window = record { positive = ground arith; at_most = λ key. omega arith }

pub events_of-insert :
    (k j : Text) (ts : List ℕ) (m : Map Text (List ℕ))
    → events_of j (insert k ts m) ≡ (if k == j then ts else events_of j m)
unfolding events_of
events_of-insert k j ts m = ground (arith, lookup-insert k j ts m)

length-kept-le :
    (r : RateLimiter) (key : Text) (now : ℕ)
    → length (kept_events r key now) ≤ length (events_of key r.events)
unfolding kept_events
length-kept-le r key now = length-filter_by-le (alive r.window now) (events_of key r.events)

pub allow-IsValid :
    (r : RateLimiter) (key : Text) (now : ℕ) → IsValid r → IsValid (allow_with_details r key now).0
unfolding allow_with_details
allow-IsValid r key now v = record {
  positive = ground (arith, v.positive);
  at_most = λ j. ground (
    arith,
    v.at_most j,
    v.at_most key,
    length-kept-le r key now,
    events_of-insert key j (kept_events r key now) r.events,
    events_of-insert key j (kept_events r key now ++ now ∷ []) r.events,
    length-append (kept_events r key now) (now ∷ []),
    eq_iff key j,
  );
}

pub after-IsValid : (r : RateLimiter) (reqs : List (Text × ℕ)) → IsValid r → IsValid (after r reqs)
unfolding after
after-IsValid r [] v = v
after-IsValid r ((key, now) ∷ rest) v =
    after-IsValid (allow_with_details r key now).0 rest (allow-IsValid r key now v)

abbrev pub NoPanic : Decision → Type 0
NoPanic panics = ⊥
NoPanic _ = Unit

allow_NoPanic :
    (r : RateLimiter) (key : Text) (now : ℕ) → IsValid r → NoPanic (allow_with_details r key now).1
unfolding allow_with_details
allow_NoPanic r key now v = ground (arith, v.positive)

-- A limiter that was built by the constructor never reads `kept[0]` from an empty slice, whatever
-- requests it has served.
pub allow-NoPanic :
    (limit window : ℤ) (reqs : List (Text × ℕ)) (key : Text) (now : ℕ)
    → NoPanic (allow_with_details (after (new_rate_limiter limit window) reqs) key now).1
allow-NoPanic limit window reqs key now =
    allow_NoPanic (after (new_rate_limiter limit window) reqs) key now
      (after-IsValid (new_rate_limiter limit window) reqs (new-IsValid limit window))

filter_alive-twice :
    (window early late : ℕ) (ts : List ℕ)
    → early ≤ late
    → filter_by (alive window late) (filter_by (alive window early) ts)
      ≡ filter_by (alive window late) ts
unfolding filter_by alive
filter_alive-twice window early late [] h = refl
filter_alive-twice window early late (x ∷ ts) h =
    ground (arith, filter_alive-twice window early late ts h)

-- The first kept instant is gone after the retry time.
kept-retry :
    (window now d : ℕ) (ts : List ℕ)
    → refuse ts window now ≡ deny d
    → length (filter_by (alive window (now + d)) ts) < length ts
unfolding filter_by alive refuse retry_after
kept-retry window now d [] e = cc
kept-retry window now d (x ∷ ts) e = ground (arith, length-filter_by-le (alive window (now + d)) ts)

allow_if_room :
    (r : RateLimiter) (key : Text) (now : ℕ)
    → length (kept_events r key now) < r.limit
    → (allow_with_details r key now).1 ≡ allow
unfolding allow_with_details
allow_if_room r key now h = ground arith

-- A refusal stores the kept instants, and changes neither bound.
refused_state :
    (r : RateLimiter) (key : Text) (now d : ℕ)
    → (allow_with_details r key now).1 ≡ deny d
    → (kept_events (allow_with_details r key now).0 key (now + d)
        ≡ filter_by (alive r.window (now + d)) (kept_events r key now))
      × (refuse (kept_events r key now) r.window now ≡ deny d)
      × ((allow_with_details r key now).0.limit ≡ r.limit)
unfolding allow_with_details kept_events
refused_state r key now d e = ground (
  arith,
  events_of-insert key key (filter_by (alive r.window now) (events_of key r.events)) r.events,
  eq_iff key key,
)

-- After a refusal of a valid limiter with retry time `d`, the same request `d` later is let through,
-- if the limiter serves nothing in between.
pub retry_allowed :
    (r : RateLimiter) (key : Text) (now d : ℕ)
    → IsValid r
    → (allow_with_details r key now).1 ≡ deny d
    → (allow_with_details (allow_with_details r key now).0 key (now + d)).1 ≡ allow
retry_allowed r key now d v e =
    let s = refused_state r key now d e in
    allow_if_room (allow_with_details r key now).0 key (now + d) (
      omega (
        arith,
        ap length s.0,
        kept-retry r.window now d (kept_events r key now) s.1,
        length-kept-le r key now,
        v.at_most key,
        s.2,
      ))

-- ===== src/Chat/RateLimiter.antt =====
-- internal/channels/chat/ratelimiter.go. Instants and durations are nanoseconds; the clock's reading
-- is an argument of each call, and the mutex makes a call one step.
pub mod Window
pub mod Retry
mod Samples
use openclawssy.Base.{
  ℕ, zero, suc, ◌+◌, ◌-◌, Bool, true, false, Option, none, some, List, [], ◌∷◌, ◌++◌, ltb, leb,
  length, filter_by, if◌then◌else◌, Text, Map, lookup, insert, ℤ, pos, negsuc, text_eq,
}

pub record RateLimiter : Type 0 where
  pub limit : ℕ
  pub window : ℕ
  pub events : Map Text (List ℕ)

abbrev pub second : ℕ
second = 1_000_000_000

abbrev pub millisecond : ℕ
millisecond = 1_000_000

at_least_one : ℤ → ℕ
at_least_one (pos zero) = 1
at_least_one (pos (suc n)) = suc n
at_least_one (negsuc n) = 1

positive_or_second : ℤ → ℕ
positive_or_second (pos zero) = second
positive_or_second (pos (suc n)) = suc n
positive_or_second (negsuc n) = second

unfoldable pub new_rate_limiter : ℤ → ℤ → RateLimiter
unfolding at_least_one positive_or_second
new_rate_limiter limit window = record {
  limit = at_least_one limit;
  window = positive_or_second window;
  events = [];
}

-- `deny` has the time after which to retry; `panics` is the read of `kept[0]` from an empty slice.
pub data Decision : Type 0 where
  allow : Decision
  deny : ℕ → Decision
  panics : Decision

-- ts.After(now.Add(-window)), with the window moved to the other side.
unfoldable pub alive : ℕ → ℕ → ℕ → Bool
alive window now ts = ltb now (ts + window)

-- A missing key reads as the empty slice.
unfoldable pub events_of : Text → Map Text (List ℕ) → List ℕ
events_of key m = elim (lookup key m) [ none ↦ [] | some ts ↦ ts ]

retry_after : ℕ → ℕ → ℕ → ℕ
retry_after first window now =
    let wait = first + window - now in if ltb wait millisecond then millisecond else wait

refuse : List ℕ → ℕ → ℕ → Decision
refuse [] window now = panics
refuse (first ∷ rest) window now = deny (retry_after first window now)

-- The first loop of the method.
unfoldable pub kept_events : RateLimiter → Text → ℕ → List ℕ
kept_events r key now = filter_by (alive r.window now) (events_of key r.events)

unfoldable pub allow_with_details : RateLimiter → Text → ℕ → RateLimiter × Decision
unfolding refuse retry_after
allow_with_details r key now =
    let kept = kept_events r key now in
    if leb r.limit (length kept)
    then (record r { events = insert key kept r.events }, refuse kept r.window now)
    else (record r { events = insert key (kept ++ now ∷ []) r.events }, allow)

is_allow : Decision → Bool
is_allow allow = true
is_allow (deny d) = false
is_allow panics = false

unfoldable pub allowed : RateLimiter → Text → ℕ → Bool
unfolding is_allow
allowed r key now = is_allow (allow_with_details r key now).1

-- A history of requests, each a key and an instant, and the limiter after it.
unfoldable pub after : RateLimiter → List (Text × ℕ) → RateLimiter
after r [] = r
after r ((key, now) ∷ rest) = after (allow_with_details r key now).0 rest

-- ===== src/Chat/RateLimiter/Samples.antt =====
-- Runs of the limiter at concrete requests.
use openclawssy.Base.{
  ◌≡◌, refl, ◌+◌, ◌≤◌, ℕ, Text, codes, pos, negsuc, List, [], ◌∷◌, false, arith, lookup, insert,
  filter_by, text_beq,
}
use openclawssy.Chat.RateLimiter.{
  new_rate_limiter, RateLimiter, allowed, after, allow, allow_with_details, alive, events_of,
  kept_events, second,
}
use openclawssy.Chat.RateLimiter.Window.{in_window, passed, window_limit, allowed-after, granted}
use openclawssy.Chat.RateLimiter.Retry.{
  retry_allowed, allow-NoPanic, NoPanic, new-IsValid, allow-IsValid,
}

abbrev history : List (Text × ℕ)
history = (codes "u", 1_000_000_000) ∷ (codes "u", 1_200_000_000) ∷ (codes "v", 1_300_000_000) ∷ []

abbrev two_per_second : RateLimiter
two_per_second = new_rate_limiter (pos 2) (negsuc 0)

third_refused : allowed (after two_per_second history) (codes "u") 1_500_000_000 ≡ false
unfolding allowed after allow_with_details kept_events alive events_of lookup insert filter_by
    new_rate_limiter codes text_beq
third_refused = refl

window_limit_example :
    in_window two_per_second.window (codes "u") 1_500_000_000 (passed two_per_second [] history)
    ≤ two_per_second.limit
window_limit_example =
    window_limit (pos 2) (negsuc 0) history (codes "u") 1_500_000_000 (omega arith)

allowed-after_example :
    allowed (after two_per_second history) (codes "u") 1_500_000_000
    ≡ granted two_per_second.limit two_per_second.window
        (passed two_per_second [] history)
        (codes "u")
        1_500_000_000
allowed-after_example =
    allowed-after (pos 2) (negsuc 0) history (codes "u") 1_500_000_000 (omega arith) (omega arith)

one_per_second : RateLimiter
unfolding new_rate_limiter
one_per_second = (allow_with_details (new_rate_limiter (pos 1) (pos second)) (codes "u") 5).0

retry_allowed_example :
    (allow_with_details
      (allow_with_details one_per_second (codes "u") 10).0
      (codes "u")
      (10 + 999_999_995)).1
    ≡ allow
unfolding one_per_second allow_with_details kept_events alive events_of lookup insert filter_by
    new_rate_limiter codes text_beq
retry_allowed_example =
    retry_allowed one_per_second (codes "u") 10 999_999_995
      (allow-IsValid (new_rate_limiter (pos 1) (pos second)) (codes "u") 5
        (new-IsValid (pos 1) (pos second)))
      refl

allow-NoPanic_example :
    NoPanic (allow_with_details (after two_per_second history) (codes "u") 1_500_000_000).1
allow-NoPanic_example = allow-NoPanic (pos 2) (negsuc 0) history (codes "u") 1_500_000_000

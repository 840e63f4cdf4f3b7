-- ===== src/Http/Events/Safety/History.antt =====
-- Every call on a safe bus returns, with a safe bus; so does every history of calls.
use mathlib.Core.Option
use openclawssy.Base.{ℕ, ◌≡◌, refl, Option, some, List, [], ◌∷◌, Text, text_eq, nat_eq, lookup, ℤ}
use openclawssy.Http.Events.Channel.{RunEvent, ◌>>=◌}
use openclawssy.Http.Events.{
  RunEventBus, publish_to, close_run, unsubscribe, receive, subscribe, new_run_event_bus,
}
use openclawssy.Http.Events.Safety.Invariant.{IsSafe}
use openclawssy.Http.Events.Safety.Steps.{
  IsFine, publish-IsFine, close-IsFine, unsubscribe-IsFine, receive-IsSafe,
}
use openclawssy.Http.Events.Safety.Subscribing.{subscribe-IsFine}

-- What can happen to a bus: its methods under the mutex, and a client that takes an event out.
pub data Call : Type 0 where
  subscribes : Text → ℤ → Call
  publishes : Text → Text → RunEvent → ℕ → Call
  closes : Text → Call
  unsubscribes : Text → ℕ → Call
  receives : ℕ → Call

pub step : RunEventBus → Call → Option RunEventBus
step b (subscribes run_id last) = Option.map (λ r. r.0) (subscribe run_id last b)
step b (publishes state_key public_run_id event now) =
    publish_to state_key public_run_id event now b
step b (closes run_id) = close_run run_id b
step b (unsubscribes run_id sub) = unsubscribe run_id sub b
step b (receives address) = some (receive address b)

pub run : RunEventBus → List Call → Option RunEventBus
run b [] = some b
run b (c ∷ cs) = step b c >>= λ b'. run b' cs

step-IsFine : (b : RunEventBus) (c : Call) → IsSafe b → IsFine (step b c)
unfolding step
step-IsFine b (subscribes run_id last) v =
    let (r, e, safe) = subscribe-IsFine run_id last b v in (r.0, rw e, safe)
step-IsFine b (publishes state_key public_run_id event now) v =
    publish-IsFine state_key public_run_id event now b v
step-IsFine b (closes run_id) v = close-IsFine run_id b v
step-IsFine b (unsubscribes run_id sub) v = unsubscribe-IsFine run_id sub b v
step-IsFine b (receives address) v = (receive address b, refl, receive-IsSafe address b v)

run-IsFine : (b : RunEventBus) (cs : List Call) → IsSafe b → IsFine (run b cs)
unfolding run
run-IsFine b [] v = (b, refl, v)
run-IsFine b (c ∷ cs) v =
    let (b', e, safe) = step-IsFine b c v in
    let (b'', e', safe') = run-IsFine b' cs safe in (b'', rw e e', safe')

new-IsSafe : (replay_limit : ℤ) → IsSafe (new_run_event_bus replay_limit)
unfolding new_run_event_bus lookup
new-IsSafe replay_limit = record { streams = λ key state e. cc; fresh = λ a h. refl }

-- From a new bus every history of calls runs to its end: no call sends on a closed channel, closes a
-- channel twice or blocks under the mutex. After it each registered subscription has an open channel
-- of its own, with at most its capacity of events.
pub run_never_panics :
    (replay_limit : ℤ) (cs : List Call)
    → (b : RunEventBus) × (run (new_run_event_bus replay_limit) cs ≡ some b) × IsSafe b
run_never_panics replay_limit cs =
    run-IsFine (new_run_event_bus replay_limit) cs (new-IsSafe replay_limit)

-- ===== src/Http/Events.antt =====
-- internal/channels/http/events.go: RunEventBus. A method runs under the mutex and is one step;
-- `none` stands for a panic (a send on a closed channel, a second close) or for a send that blocks
-- while the mutex is held. Channels live on a heap, since the bus and its clients share them.
pub mod Channel
pub mod Prune
pub mod Safety
pub mod Streams
mod Samples
use openclawssy.Base.{
  ℕ, zero, suc, ◌+◌, ◌-◌, Bool, true, false, ◌&&◌, ◌||◌, not, Option, none, some, List, [], ◌∷◌,
  ◌++◌, length, drop, filter_by, Text, trim, text_eq, nat_eq, ◌==◌, Map, lookup, insert, delete,
  if◌then◌else◌, ltb, leb, ltb_ℤ, ℤ, pos, negsuc, codes,
}
use openclawssy.Http.Events.Channel.{
  Chan, RunEvent, EventType, status, tool_end, model_text, completed, canceled, failed, heartbeat,
  other, enqueue, send_all, ◌>>=◌, is_terminal_run_event_type, close_chan, receive_head,
}
use openclawssy.Http.Events.Prune.{RunEventState, new_state, prune_runs, no_entries}

pub record RunEventBus : Type 0 where
  pub runs : Map Text RunEventState
  pub run_order : List Text
  pub replay_limit : ℕ
  pub subscriber_buffer : ℕ
  pub max_runs : ℕ
  pub chans : Map ℕ Chan
  pub next_chan : ℕ

or_default : ℤ → ℕ
or_default (pos zero) = 128
or_default (pos (suc n)) = suc n
or_default (negsuc n) = 128

unfoldable pub new_run_event_bus : ℤ → RunEventBus
unfolding or_default
new_run_event_bus replay_limit = record {
  runs = [];
  run_order = [];
  replay_limit = or_default replay_limit;
  subscriber_buffer = 32;
  max_runs = 2048;
  chans = [];
  next_chan = 0;
}

unfoldable pub run_event_composite_key : Text → Text → Text → Text
run_event_composite_key instance_id agent_id run_id =
    if trim run_id == []
    then []
    else if trim instance_id == [] && trim agent_id == []
    then trim run_id
    else trim instance_id ++ (codes ":" ++ (trim agent_id ++ (codes ":" ++ trim run_id)))

-- The state behind the pointer that the Go function returns, with the bus after the call.
unfoldable pub ensure_run : Text → RunEventBus → RunEventBus × RunEventState
ensure_run run_id b = elim (lookup run_id b.runs) [
  | some state ↦ (b, state)
  | none ↦
      let (runs, order) =
        prune_runs b.max_runs (insert run_id new_state b.runs) (b.run_order ++ run_id ∷ []) in
      (record b { runs = runs; run_order = order }, new_state)
]

-- A write through the pointer is seen in the map if the map still holds the run.
unfoldable pub write_run : Text → RunEventState → Map Text RunEventState → Map Text RunEventState
write_run run_id state runs = elim (lookup run_id runs) [
  | none ↦ runs
  | some old ↦ insert run_id state runs
]

-- What a new subscriber is sent first.
unfoldable pub replay_for : RunEventState → ℤ → List RunEvent
unfolding no_entries
replay_for state last_event_id =
    let replay = filter_by (λ event. ltb_ℤ last_event_id event.id) state.replay in
    if state.terminal && (no_entries replay && not (no_entries state.terminal_events))
    then replay ++ state.terminal_events
    else replay

-- A new channel on the heap, with its address.
alloc : Chan → RunEventBus → RunEventBus × ℕ
alloc ch b =
    (record b { chans = insert b.next_chan ch b.chans; next_chan = suc b.next_chan }, b.next_chan)

-- The channel's address, and the number that the unsubscribe function holds, if it does anything.
pub record Subscription : Type 0 where
  pub chan : ℕ
  pub sub : Option ℕ

-- int: the buffer's size, enlarged by the replay, and at least 1.
unfoldable pub channel_capacity : ℕ → ℕ → ℕ
channel_capacity buffer replayed =
    let needed = replayed + buffer in
    let capacity = if ltb buffer needed then needed else buffer in
    if leb capacity 0 then 1 else capacity

-- The channel is closed and handed out, and nothing is registered.
unfoldable pub hand_out_closed : Chan → RunEventBus → Option (RunEventBus × Subscription)
unfolding alloc
hand_out_closed ch b = do
  closed ← close_chan ch
  let (b', address) = alloc closed b
  some (b', record { chan = address; sub = none })

unfoldable pub register :
    Text → RunEventState → Chan → RunEventBus → Option (RunEventBus × Subscription)
unfolding alloc write_run hand_out_closed
register run_id state ch b = if state.terminal then hand_out_closed ch b else do
  let (b', address) = alloc ch b
  let state' : RunEventState = record state {
    next_sub_id = suc state.next_sub_id;
    subscribers = insert (suc state.next_sub_id) address state.subscribers;
  }
  some (
    record b' { runs = write_run run_id state' b'.runs },
    record { chan = address; sub = some (suc state.next_sub_id) },
  )

fresh_chan : ℕ → Text → ℕ → Chan
fresh_chan capacity run_id sub = record {
  capacity = capacity;
  buffer = [];
  closed = false;
  run = run_id;
  sub = sub;
}

unfoldable pub subscribe : Text → ℤ → RunEventBus → Option (RunEventBus × Subscription)
unfolding hand_out_closed register fresh_chan
subscribe raw_run_id last_event_id b =
    let run_id = trim raw_run_id in
    if run_id == [] then hand_out_closed (fresh_chan 0 [] 0) b else do
      let (b', state) = ensure_run run_id b
      let replay = replay_for state last_event_id
      ch ←
          send_all
            (fresh_chan (channel_capacity b'.subscriber_buffer (length replay)) run_id
              (suc state.next_sub_id))
            replay
      register run_id state ch b'

unfoldable pub subscribe_composite :
    Text → Text → Text → ℤ → RunEventBus → Option (RunEventBus × Subscription)
subscribe_composite instance_id agent_id run_id last_event_id b =
    subscribe (run_event_composite_key instance_id agent_id run_id) last_event_id b

-- The event's number and the state's next_id: a number that is not positive is replaced.
unfoldable pub assign_id : ℤ → ℕ → ℤ × ℕ
assign_id (pos zero) next_id = (pos (suc next_id), suc next_id)
assign_id (negsuc n) next_id = (pos (suc next_id), suc next_id)
assign_id (pos (suc n)) next_id = (pos (suc n), if ltb next_id (suc n) then suc n else next_id)

-- The last `limit` events.
unfoldable pub keep_last : ℕ → List RunEvent → List RunEvent
keep_last limit events =
    if ltb limit (length events) then drop (length events - limit) events else events

-- The event as it is stored, and the state with it.
unfoldable pub record_event : ℕ → Text → ℕ → RunEvent → RunEventState → RunEvent × RunEventState
unfolding assign_id keep_last
record_event replay_limit public_run_id now event state =
    let (id, next_id) = assign_id event.id state.next_id in
    let stored : RunEvent = record event {
      id = id;
      run_id = public_run_id;
      timestamp = if event.timestamp == 0 then now else event.timestamp;
    } in
    let state' : RunEventState = record state {
      next_id = next_id;
      replay = keep_last replay_limit (state.replay ++ stored ∷ []);
    } in
    (
      stored,
      if is_terminal_run_event_type event.kind
          then record state' { terminal = true; terminal_events = stored ∷ [] }
          else state',
    )

-- The loop over the subscribers, with the count of events that were not sent.
unfoldable pub fan_out : Map ℕ ℕ → RunEvent → Map ℕ Chan → ℕ → Option (Map ℕ Chan × ℕ)
fan_out [] event chans dropped = some (chans, dropped)
fan_out ((sub, address) ∷ subs) event chans dropped = do
  ch ← lookup address chans
  (ch', sent) ← enqueue ch event
  fan_out subs event (insert address ch' chans) (if sent then dropped else suc dropped)

unfoldable pub publish_to : Text → Text → RunEvent → ℕ → RunEventBus → Option RunEventBus
unfolding write_run
publish_to raw_state_key raw_public_run_id event now b =
    let state_key = trim raw_state_key in
    let public_run_id = trim raw_public_run_id in
    if state_key == [] || public_run_id == [] then some b else do
      let (b', state) = ensure_run state_key b
      let (stored, state') = record_event b'.replay_limit public_run_id now event state
      (chans, dropped) ← fan_out state'.subscribers stored b'.chans state'.dropped
      some (record b' {
        chans = chans;
        runs = write_run state_key (record state' { dropped = dropped }) b'.runs;
      })

unfoldable pub publish : Text → RunEvent → ℕ → RunEventBus → Option RunEventBus
publish run_id event now b = publish_to run_id run_id event now b

unfoldable pub publish_composite :
    Text → Text → Text → RunEvent → ℕ → RunEventBus → Option RunEventBus
publish_composite instance_id agent_id run_id event now b =
    publish_to (run_event_composite_key instance_id agent_id run_id) (trim run_id) event now b

-- The loop that closes every subscriber's channel.
unfoldable pub close_subs : Map ℕ ℕ → Map ℕ Chan → Option (Map ℕ Chan)
close_subs [] chans = some chans
close_subs ((sub, address) ∷ subs) chans = do
  ch ← lookup address chans
  ch' ← close_chan ch
  close_subs subs (insert address ch' chans)

unfoldable pub close_run : Text → RunEventBus → Option RunEventBus
close_run raw_run_id b =
    let run_id = trim raw_run_id in
    if run_id == [] then some b else elim (lookup run_id b.runs) [
      | none ↦ some b
      | some state ↦ do
        chans ← close_subs state.subscribers b.chans
        some (record b {
          chans = chans;
          runs = insert run_id (record state { terminal = true; subscribers = [] }) b.runs;
        })
    ]

unfoldable pub close_composite : Text → Text → Text → RunEventBus → Option RunEventBus
close_composite instance_id agent_id run_id b =
    close_run (run_event_composite_key instance_id agent_id run_id) b

unfoldable pub unsubscribe : Text → ℕ → RunEventBus → Option RunEventBus
unsubscribe run_id sub b = elim (lookup run_id b.runs) [
  | none ↦ some b
  | some state ↦ elim (lookup sub state.subscribers) [
    | none ↦ some b
    | some address ↦ do
      ch ← lookup address b.chans
      ch' ← close_chan ch
      some (record b {
        chans = insert address ch' b.chans;
        runs = insert run_id (record state { subscribers = delete sub state.subscribers }) b.runs;
      })
  ]
]

-- A client takes the first event out of a channel.
unfoldable pub receive : ℕ → RunEventBus → RunEventBus
receive address b = elim (lookup address b.chans) [
  | none ↦ b
  | some ch ↦ record b { chans = insert address (receive_head ch) b.chans }
]

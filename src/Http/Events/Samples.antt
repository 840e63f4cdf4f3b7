-- ===== src/Http/Events/Samples.antt =====
-- The event bus at concrete runs.
use openclawssy.Base.{
  ◌≤◌, ◌<◌, ◌≡◌, refl, true, false, some, List, [], ◌∷◌, ◌++◌, Text, codes, text_beq, text_eq,
  lookup, Map, arith, pos, negsuc, pos_part,
}
use openclawssy.Http.Events.Channel.{Chan, RunEvent, completed, status}
use openclawssy.Http.Events.Prune.{
  RunEventState, new_state, IsPruned, prune_runs, prune_runs-IsPruned, prune_runs-keeps,
  is_removable,
}
use openclawssy.Http.Events.{RunEventBus, new_run_event_bus, keep_last, record_event}
use openclawssy.Http.Events.Safety.Invariant.{IsSafe}
use openclawssy.Http.Events.Safety.History.{
  Call, subscribes, publishes, closes, unsubscribes, receives, run, run_never_panics,
}
use openclawssy.Http.Events.Streams.{
  enqueue_all, enqueue_keeps_newest, IsReplay, record_event-IsReplay,
}

abbrev news : RunEvent
news = record {
  id = pos 0;
  kind = status;
  run_id = [];
  instance_id = [];
  agent_id = [];
  timestamp = 0;
  payload = codes "x";
}

abbrev last_news : RunEvent
last_news = record news { kind = completed }

abbrev history : List Call
history =
    subscribes (codes "r") (pos 0)
    ∷ publishes (codes "r") (codes "r") news 5
    ∷ receives 0
    ∷ publishes (codes "r") (codes "r") last_news 6
    ∷ closes (codes "r")
    ∷ unsubscribes (codes "r") 1
    ∷ subscribes (codes "r") (negsuc 0)
    ∷ []

run_never_panics_example :
    (b : RunEventBus) × (run (new_run_event_bus (pos 4)) history ≡ some b) × IsSafe b
run_never_panics_example = run_never_panics (pos 4) history

abbrev narrow : Chan
narrow = record { capacity = 2; buffer = news ∷ []; closed = false; run = codes "r"; sub = 1 }

enqueue_keeps_newest_example :
    enqueue_all narrow (last_news ∷ news ∷ [])
    ≡ some (record narrow { buffer = keep_last 2 (news ∷ last_news ∷ news ∷ []) })
enqueue_keeps_newest_example =
    enqueue_keeps_newest narrow (last_news ∷ news ∷ []) refl (omega arith) (omega arith)

abbrev begun_state : RunEventState
begun_state = record new_state { next_id = 7; replay = record news { id = pos 7 } ∷ [] }

begun_state-IsReplay : IsReplay 3 begun_state
begun_state-IsReplay = record { bounded = omega arith; numbered = (omega arith, tt) }

record_event-IsReplay_example :
    IsReplay 3 (record_event 3 (codes "r") 9 news begun_state).1
    × (7 ≤ (record_event 3 (codes "r") 9 news begun_state).1.next_id)
    × (pos_part news.id ≡ 0 → 7 < pos_part (record_event 3 (codes "r") 9 news begun_state).0.id)
    × ((older : List RunEvent) × ((record_event 3 (codes "r") 9 news begun_state).1.replay
          ≡ older ++ (record_event 3 (codes "r") 9 news begun_state).0 ∷ []))
record_event-IsReplay_example =
    record_event-IsReplay 3 (codes "r") 9 news begun_state (omega arith) begun_state-IsReplay

abbrev ended_state : RunEventState
ended_state = record new_state { terminal = true }

abbrev three_runs : Map Text RunEventState
three_runs = (codes "a", ended_state) ∷ (codes "b", begun_state) ∷ (codes "c", ended_state) ∷ []

abbrev three_ids : List Text
three_ids = codes "a" ∷ codes "b" ∷ codes "c" ∷ []

prune_runs-IsPruned_example :
    IsPruned 1 (prune_runs 1 three_runs three_ids).0 (prune_runs 1 three_runs three_ids).1
prune_runs-IsPruned_example = prune_runs-IsPruned 1 three_runs three_ids (omega arith)

found : lookup (codes "b") three_runs ≡ some begun_state
unfolding lookup codes text_beq
found = refl

listened : is_removable begun_state ≡ false
unfolding is_removable
listened = refl

prune_runs-keeps_example :
    lookup (codes "b") (prune_runs 1 three_runs three_ids).0 ≡ some begun_state
prune_runs-keeps_example =
    prune_runs-keeps (codes "b") begun_state 1 three_runs three_ids listened found

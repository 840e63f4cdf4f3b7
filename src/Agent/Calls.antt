-- ===== src/Agent/Calls.antt =====
-- internal/agent/run_state.go: executeTools, which answers the model's tool calls. A call is executed,
-- or answered from a cache, or refused as a repetition. Times are left out of the records.
pub mod Keys
pub mod Caps
pub mod Texts
pub mod Steps
pub mod Cacheable
pub mod Effects
pub mod Unique
pub mod Once
pub mod Repeats
mod Samples
use openclawssy.Base.{
  ℕ, zero, suc, ◌+◌, ◌-◌, Bool, true, false, ◌&&◌, ◌||◌, not, Option, none, some, List, [], ◌∷◌,
  ◌++◌, drop, length, Text, codes, text_eq, ◌==◌, trim, to_lower, has_prefix, contains_text,
  contains, if◌then◌else◌, leb, ltb, Map, lookup, insert, delete, nat_eq,
}
use openclawssy.Agent.Outcomes.{Outcomes, register_tool_outcome, new_outcomes}
use openclawssy.Agent.Calls.Keys.{ToolCallRequest, Library, one_shot_mutation_repetition_key}
use openclawssy.Agent.Calls.Texts.{
  unique_tool_call_id, is_policy_denial, repetition_error, one_shot_error, creation_error,
  creation_limit_error, extract_agent_id_from_args,
}
use openclawssy.Agent.Calls.Caps.{repeated_call_repetition_key, tool_call_cache_key}

pub record ToolCallResult : Type 0 where
  pub id : Text
  pub output : Text
  pub error : Text

pub record ToolCallRecord : Type 0 where
  pub request : ToolCallRequest
  pub result : ToolCallResult
  pub callback_err : Text

-- A record of the decision ledger on a tool call: allowed, or denied by the policy.
pub record ToolDecision : Type 0 where
  pub tool : Text
  pub tool_call_id : Text
  pub denied : Bool

-- An error of the executor: its text, and whether it is context.DeadlineExceeded.
pub record ExecError : Type 0 where
  pub text : Text
  pub deadline : Bool

-- What a run is given: the library, the tool executor, the callback on a record, and the timeout. The
-- executor may answer by all that it was asked before.
pub record Env : Type 0 where
  pub lib : Library
  pub execute : List ToolCallRequest → ToolCallRequest → ToolCallResult × Option ExecError
  pub on_tool_call : ToolCallRecord → Option Text
  pub timeout_ms : ℕ

-- The fields of runState that the calls change. `executed` is the history of the calls that went to the
-- executor, which the program does not keep.
pub record Calls : Type 0 where
  pub ordinal : ℕ
  pub used_ids : List Text
  pub one_shots : List Text
  pub repetitions : Map Text ℕ
  pub cached : Map Text Text
  pub cached_failed : Map Text (Text × Text)
  pub failed_counts : Map Text ℕ
  pub failed_errors : Map Text Text
  pub last_uncacheable : Map Text Text
  pub outcomes : Outcomes
  pub records : List ToolCallRecord
  pub results : List ToolCallResult
  pub decisions : List ToolDecision
  pub executed : List ToolCallRequest

abbrev pub new_calls : Calls
new_calls = record {
  ordinal = 0;
  used_ids = [];
  one_shots = [];
  repetitions = [];
  cached = [];
  cached_failed = [];
  failed_counts = [];
  failed_errors = [];
  last_uncacheable = [];
  outcomes = new_outcomes;
  records = [];
  results = [];
  decisions = [];
  executed = [];
}

-- A missing key of a Go map of numbers reads as 0.
unfoldable pub count_of : Text → Map Text ℕ → ℕ
count_of key counts = elim (lookup key counts) [ none ↦ 0 | some n ↦ n ]

unfoldable pub bumped : Text → Map Text ℕ → Map Text ℕ
unfolding count_of
bumped key counts = insert key (suc (count_of key counts)) counts

unfoldable pub tool_decision : ToolCallRequest → ToolCallResult → ToolDecision
unfolding is_policy_denial
tool_decision call result = record {
  tool = trim call.name;
  tool_call_id = trim call.id;
  denied = is_policy_denial result.error;
}

unfoldable pub notify_tool_call : Env → ToolCallRequest → ToolCallResult → ToolCallRecord
notify_tool_call env call result =
    let plain : ToolCallRecord = record { request = call; result = result; callback_err = [] } in
    elim (env.on_tool_call plain) [
      | none ↦ plain
      | some text ↦ record plain { callback_err = trim text }
    ]

-- What every call ends with: its record, its result, its outcome and its decision.
unfoldable pub answer : Env → ToolCallRequest → ToolCallResult → Calls → Calls
unfolding notify_tool_call tool_decision
answer env call result s = record s {
  records = s.records ++ notify_tool_call env call result ∷ [];
  results = s.results ++ result ∷ [];
  outcomes = register_tool_outcome result.error s.outcomes;
  decisions = s.decisions ++ tool_decision call result ∷ [];
}

unfoldable pub refused : ToolCallRequest → Text → ToolCallResult
refused call error = record { id = call.id; output = []; error = error }

-- The outcome of a batch: whether a call was executed afresh, and whether a mutation that had already
-- succeeded was asked for again.
pub record Progress : Type 0 where
  pub fresh : Bool
  pub blocked : Bool

abbrev pub no_progress : Progress
no_progress = record { fresh = false; blocked = false }

unfoldable pub is_tool_timeout : ExecError → Bool
is_tool_timeout e = e.deadline || contains_text (to_lower (trim e.text)) (codes "deadline exceeded")

-- What the executor's answer becomes.
unfoldable pub settled : Env → ToolCallRequest → List ToolCallRequest → ToolCallResult
unfolding is_tool_timeout
settled env call before =
    let (raw, failure) = env.execute before call in
    let result : ToolCallResult = record raw { id = if raw.id == [] then call.id else raw.id } in
    elim failure [
      | none ↦ result
      | some e ↦ record result {
        error =
            if is_tool_timeout e && not (contains_text (to_lower e.text) (codes "timeout"))
            then codes "timeout: tool execution exceeded "
              ++ (env.lib.itoa env.timeout_ms ++ codes "ms")
            else e.text;
      }
    ]

unfoldable pub with_one_shot : Option Text → List Text → List Text
with_one_shot none keys = keys
with_one_shot (some key) keys = if contains keys key then keys else key ∷ keys

unfoldable pub note_cacheable : Text → Option Text → ToolCallResult → Calls → Calls
unfolding with_one_shot count_of
note_cacheable key one_shot result s =
    let error = trim result.error in
    let same : Bool = elim (lookup key s.failed_errors) [ none ↦ false | some e ↦ e == error ] in
    let count = if same then suc (count_of key s.failed_counts) else 1 in
    if error == []
    then record s {
      one_shots = with_one_shot one_shot s.one_shots;
      cached = insert key result.output s.cached;
      cached_failed = delete key s.cached_failed;
      failed_counts = delete key s.failed_counts;
      failed_errors = delete key s.failed_errors;
    }
    else record s {
      failed_errors = if same then s.failed_errors else insert key error s.failed_errors;
      failed_counts = insert key count s.failed_counts;
      cached_failed =
          if leb 2 count
          then insert key (result.output, result.error) s.cached_failed
          else s.cached_failed;
    }

-- The state and whether the output is another than the last one.
unfoldable pub note_uncacheable :
    ToolCallRequest → Option Text → ToolCallResult → Calls → Calls × Bool
unfolding with_one_shot
note_uncacheable call one_shot result s =
    let stable_key = call.name ++ (b'|' ∷ call.arguments) in
    let current = trim result.output ++ (0 ∷ trim result.error) in
    let changed : Bool = elim (lookup stable_key s.last_uncacheable) [
      | none ↦ true
      | some e ↦ not (e == current)
    ] in
    let s' : Calls = record s { last_uncacheable = insert stable_key current s.last_uncacheable } in
    if changed
    then (
      if trim result.error == []
          then record s' { one_shots = with_one_shot one_shot s.one_shots }
          else s',
      true,
    )
    else (s', false)

-- The call goes to the executor.
unfoldable pub perform : Env → ToolCallRequest → Option Text → Calls → Calls × Progress
unfolding settled note_cacheable note_uncacheable answer
perform env call one_shot s =
    let key = tool_call_cache_key env.lib call in
    let result = settled env call s.executed in
    let s' : Calls = record s { executed = s.executed ++ call ∷ [] } in
    if not (key == codes "|")
    then (
      answer env call result (note_cacheable key one_shot result s'),
      record { fresh = true; blocked = false },
    )
    else let (s'', changed) = note_uncacheable call one_shot result s' in
      (answer env call result s'', record { fresh = changed; blocked = false })

-- The guard against repeated creations of agents: the counters, and the error when the call is refused.
unfoldable pub creation_check : Env → ToolCallRequest → Map Text ℕ → Map Text ℕ × Option Text
unfolding extract_agent_id_from_args bumped count_of creation_error creation_limit_error
creation_check env call counts =
    let agent_id = extract_agent_id_from_args call.arguments in
    let key = call.name ++ (b'|' ∷ agent_id) in
    let named = if agent_id == [] then counts else bumped key counts in
    let total = bumped (codes "agent.create|total") named in
    let tries = count_of key named in
    let all = count_of (codes "agent.create|total") total in
    if not (call.name == codes "agent.create" || call.name == codes "agents.create")
    then (counts, none)
    else if not (agent_id == []) && leb 3 tries
    then (named, some (creation_error env.lib agent_id tries))
    else if ltb 8 all
    then (total, some (creation_limit_error env.lib (all - 1)))
    else (total, none)

unfoldable pub create_guard : Env → ToolCallRequest → Option Text → Calls → Calls × Progress
unfolding creation_check perform refused
create_guard env call one_shot s =
    let (counts, refusal) = creation_check env call s.repetitions in
    let s' : Calls = record s { repetitions = counts } in
    elim refusal [
      | some error ↦ (answer env call (refused call error) s', no_progress)
      | none ↦ perform env call one_shot s'
    ]

unfoldable pub from_cache : Env → ToolCallRequest → Option Text → Calls → Calls × Progress
unfolding create_guard
from_cache env call one_shot s =
    let key = tool_call_cache_key env.lib call in
    if key == codes "|" then create_guard env call one_shot s else elim (lookup key s.cached) [
      | some output ↦
          (answer env call (record { id = call.id; output = output; error = [] }) s, no_progress)
      | none ↦ elim (lookup key s.cached_failed) [
        | some (output, error) ↦ (
          answer env call (record { id = call.id; output = output; error = error }) s,
          no_progress,
        )
        | none ↦ create_guard env call one_shot s
      ]
    ]

-- The key and the cap that a call is held to; a mutation that is done once is not, but for
-- agent.identity.set.
unfoldable pub held_to : Env → ToolCallRequest → Option Text → Option (Text × ℕ)
held_to env call none = repeated_call_repetition_key env.lib call
held_to env call (some key) =
    if call.name == codes "agent.identity.set"
    then repeated_call_repetition_key env.lib call
    else none

unfoldable pub repetition_guard : Env → ToolCallRequest → Option Text → Calls → Calls × Progress
unfolding held_to bumped count_of refused from_cache
repetition_guard env call one_shot s = elim (held_to env call one_shot) [
  | none ↦ from_cache env call one_shot s
  | some (key, limit) ↦
      let s' : Calls = record s { repetitions = bumped key s.repetitions } in
      let n = count_of key s'.repetitions in
      if ltb limit n
      then (answer env call (refused call (repetition_error env.lib key n)) s', no_progress)
      else from_cache env call one_shot s'
]

unfoldable pub is_done : Option Text → List Text → Bool
is_done none keys = false
is_done (some key) keys = contains keys key

unfoldable pub handle : Env → ToolCallRequest → Calls → Calls × Progress
unfolding refused repetition_guard is_done
handle env call s =
    let one_shot = one_shot_mutation_repetition_key env.lib call.name call.arguments in
    let key : Text = elim one_shot [ none ↦ [] | some key ↦ key ] in
    if is_done one_shot s.one_shots
    then (
      answer env call (refused call (one_shot_error key)) s,
      record { fresh = false; blocked = true },
    )
    else repetition_guard env call one_shot s

-- A call with its ordinal and an id of its own.
unfoldable pub admitted : Env → ToolCallRequest → Calls → Option (ToolCallRequest × Calls)
admitted env incoming s =
    elim (unique_tool_call_id env.lib incoming.id (suc s.ordinal) s.used_ids) [
      | none ↦ none
      | some id ↦ some (
        record incoming { id = id },
        record s { ordinal = suc s.ordinal; used_ids = id ∷ s.used_ids },
      )
    ]

unfoldable pub merged : Progress → Progress → Progress
merged p q = record { fresh = p.fresh || q.fresh; blocked = p.blocked || q.blocked }

-- The loop over the calls of one model response.
unfoldable pub execute_tools : Env → List ToolCallRequest → Calls → Option (Calls × Progress)
unfolding admitted merged
execute_tools env [] s = some (s, no_progress)
execute_tools env (incoming ∷ rest) s = elim (admitted env incoming s) [
  | none ↦ none
  | some (call, s') ↦
      let (s'', p) = handle env call s' in
      elim (execute_tools env rest s'') [ none ↦ none | some (t, q) ↦ some (t, merged p q) ]
]

-- ===== src/Agent/Delegation.antt =====
-- internal/agent/runner.go: executeDelegatedTasks, which gives the ordered tasks of a delegation to
-- sub-agents, from the sorting of the tasks on. The records of the decision ledger, the log, the times of
-- the events and the final text of the run are left out.
pub mod Messages
pub mod Results
pub mod Step
pub mod Loop
pub mod Ends
mod Samples
use openclawssy.Base.{
  ℕ, zero, suc, Bool, true, false, ◌&&◌, Option, none, some, List, [], ◌∷◌, ◌++◌, Text, codes,
  text_eq, ◌==◌, trim, has_prefix, if◌then◌else◌, ltb, Map, lookup, insert, ℤ, pos, ltb_ℤ,
}
use openclawssy.Agent.Order.{DecomposedTask, SortResult, sorted, cycle, topological_sort_tasks}
use openclawssy.Agent.Delegation.Messages.{
  format_delegated_task_message, append_role_routing_context, summarize_for_artifact,
}

-- What the router of internal/roles selects for a message.
pub record RouteSelection : Type 0 where
  pub role_name : Text
  pub confidence : ℕ
  pub rationale : Text
  pub allowed_tools : List Text
  pub max_iterations : ℤ
  pub timeout_ms : ℤ

pub record SubAgentOutput : Type 0 where
  pub success : Bool
  pub final_text : Text
  pub error : Text
  pub message_id : Text
  pub run_id : Text

pub record DelegationEvent : Type 0 where
  pub task_id : Text
  pub message_id : Text
  pub related_run_id : Text
  pub parent_run_id : Text
  pub from_agent_id : Text
  pub to_agent_id : Text
  pub trigger_reason : Text
  pub selected_role : Text
  pub confidence : ℕ
  pub task_assignment : Text
  pub rationale : Text
  pub outcome : Text

-- What a delegation is given. The sub-agents may answer by all that they were asked before.
pub record Env : Type 0 where
  pub route : Text → RouteSelection
  pub execute_sub_agent : List DecomposedTask → DecomposedTask → SubAgentOutput × Option Text
  pub show_confidence : ℕ → Text
  pub run_id : Text
  pub agent_id : Text
  pub reason : Text

-- The fields of runState that a delegation changes. `executed` is the history of the tasks as they were
-- given to sub-agents, which the program does not keep.
pub record Delegation : Type 0 where
  pub completed : Map Text Text
  pub artifacts : Map Text Text
  pub events : List DelegationEvent
  pub executed : List DecomposedTask

unfoldable pub is_failed_subtask_result : Text → Bool
is_failed_subtask_result result = has_prefix (trim result) (codes "FAILED:")

unfoldable pub apply_role_routing : Env → DecomposedTask → DecomposedTask
apply_role_routing env task =
    let selection = env.route task.message in
    let routed : DecomposedTask = record task {
      assigned_role = selection.role_name;
      routing_confidence = selection.confidence;
      routing_rationale = selection.rationale;
      role_allowed_tools = selection.allowed_tools;
      role_max_tool_iterations = selection.max_iterations;
      role_timeout_ms = selection.timeout_ms;
    } in
    if ltb_ℤ (pos 0) selection.timeout_ms
    then if ltb_ℤ (pos 0) task.timeout_ms && ltb_ℤ task.timeout_ms selection.timeout_ms
      then record routed { role_timeout_ms = task.timeout_ms }
      else record routed { timeout_ms = selection.timeout_ms }
    else routed

-- The task with its role and the run that it belongs to.
unfoldable pub routed_task : Env → DecomposedTask → DecomposedTask
unfolding apply_role_routing
routed_task env task =
    let routed = if trim task.assigned_role == [] then apply_role_routing env task else task in
    record routed {
      parent_run_id =
          if trim routed.parent_run_id == [] then trim env.run_id else routed.parent_run_id;
    }

-- The loop over the dependencies: one that has no result, one that has failed, or neither.
pub data Dependencies : Type 0 where
  missing : Text → Dependencies
  failed : Text → Dependencies
  satisfied : Dependencies

unfoldable pub check_dependencies : Map Text Text → List Text → Dependencies
unfolding is_failed_subtask_result
check_dependencies completed [] = satisfied
check_dependencies completed (dep ∷ deps) =
    let rest = check_dependencies completed deps in
    elim (lookup dep completed) [
      | none ↦ missing dep
      | some result ↦ if is_failed_subtask_result result then failed dep else rest
    ]

abbrev pub no_output : SubAgentOutput
no_output = record { success = false; final_text = []; error = []; message_id = []; run_id = [] }

-- recordDelegationEvent, with the trimming of appendDelegationEvent.
unfoldable pub record_delegation_event :
    Env → DecomposedTask → SubAgentOutput → Text → Text → Delegation → Delegation
record_delegation_event env task output rationale outcome s =
    let event : DelegationEvent = record {
      task_id = task.task_id;
      message_id = trim output.message_id;
      related_run_id = trim output.run_id;
      parent_run_id =
          if trim task.parent_run_id == [] then trim env.run_id else trim task.parent_run_id;
      from_agent_id = trim env.agent_id;
      to_agent_id = trim task.agent_id;
      trigger_reason = trim env.reason;
      selected_role = trim task.assigned_role;
      confidence = task.routing_confidence;
      task_assignment = trim task.message;
      rationale = rationale;
      outcome = outcome;
    } in
    record s { events = s.events ++ event ∷ [] }

unfoldable pub store_artifacts : List Text → Text → Map Text Text → Map Text Text
store_artifacts [] summary m = m
store_artifacts (artifact ∷ rest) summary m =
    store_artifacts rest summary (insert artifact summary m)

-- The task succeeded.
unfoldable pub task_succeeded : Env → DecomposedTask → SubAgentOutput → Delegation → Delegation
unfolding record_delegation_event store_artifacts
task_succeeded env task output s =
    let summary = summarize_for_artifact output.final_text in
    let named = if summary == [] then s.artifacts else insert task.task_id summary s.artifacts in
    record_delegation_event env task output (trim task.routing_rationale) (codes "executed")
      (record s {
        completed = insert task.task_id output.final_text s.completed;
        artifacts = store_artifacts task.produces summary named;
      })

-- The task failed in its last attempt.
unfoldable pub task_failed : Env → DecomposedTask → SubAgentOutput → Text → Delegation → Delegation
unfolding record_delegation_event
task_failed env task output reason s =
    if ltb task.routing_confidence 50
    then record_delegation_event env task output
        (trim task.routing_rationale ++ codes "; escalated due to low confidence")
        (codes "escalated")
        (record s {
          completed =
              insert task.task_id (codes "FAILED: escalated after retry - " ++ reason) s.completed;
        })
    else record_delegation_event env task output (trim task.routing_rationale) (codes "failed")
        (record s { completed = insert task.task_id (codes "FAILED: " ++ reason) s.completed })

unfoldable pub failure_reason : SubAgentOutput → Option Text → Text
failure_reason output (some error) = error
failure_reason output none =
    if trim output.error == []
    then codes "subagent returned unsuccessful status"
    else trim output.error

unfoldable pub has_succeeded : SubAgentOutput → Option Text → Bool
has_succeeded output (some error) = false
has_succeeded output none = output.success

-- The attempts, of which `more` are left after this one. `given` is the task as the sub-agent reads it.
unfoldable pub attempt : Env → ℕ → DecomposedTask → DecomposedTask → Delegation → Delegation
unfolding task_succeeded task_failed failure_reason has_succeeded record_delegation_event
attempt env zero task given s =
    let (output, error) = env.execute_sub_agent s.executed given in
    let asked : Delegation = record s { executed = s.executed ++ given ∷ [] } in
    if has_succeeded output error
    then task_succeeded env task output asked
    else task_failed env task output (failure_reason output error) asked
attempt env (suc more) task given s =
    let (output, error) = env.execute_sub_agent s.executed given in
    let asked : Delegation = record s { executed = s.executed ++ given ∷ [] } in
    let retried = attempt env more task given (
      record_delegation_event env task output (trim task.routing_rationale)
        (codes "retry_same_role") asked) in
    if has_succeeded output error then task_succeeded env task output asked else retried

unfoldable pub given_task : Env → DecomposedTask → Delegation → DecomposedTask
given_task env task s =
    let formatted : DecomposedTask = record task {
      message = format_delegated_task_message task s.artifacts;
    } in
    record formatted { message = append_role_routing_context env.show_confidence formatted }

-- The end of a delegation: the results, or an error.
pub data Ending : Type 0 where
  done : Delegation → Ending
  refused : Text → Ending

-- One task of the loop, with its role.
unfoldable pub delegate : Env → DecomposedTask → Delegation → Ending
unfolding check_dependencies record_delegation_event attempt given_task
delegate env task s = elim (check_dependencies s.completed task.depends_on) [
  | missing dep ↦ refused (codes "dependency not satisfied: " ++ dep)
  | failed dep ↦ done (
      record_delegation_event env task no_output (trim task.routing_rationale)
        (codes "failed_dependency")
        (record s {
          completed =
              insert task.task_id (codes "FAILED: dependency " ++ (dep ++ codes " failed"))
                s.completed;
        }))
  | satisfied ↦ done (attempt env 1 task (given_task env task s) s)
]

unfoldable pub delegate_all : Env → List DecomposedTask → Delegation → Ending
unfolding delegate routed_task
delegate_all env [] s = done s
delegate_all env (task ∷ tasks) s = elim (delegate env (routed_task env task) s) [
  | refused error ↦ refused error
  | done s' ↦ delegate_all env tasks s'
]

-- The ids as fmt prints them, between the brackets.
spaced_ids : List Text → Text
spaced_ids [] = []
spaced_ids (id ∷ ids) =
    let rest = spaced_ids ids in elim ids [ [] ↦ id | next ∷ more ↦ id ++ (codes " " ++ rest) ]

unfoldable pub cycle_error : List Text → Text
unfolding spaced_ids
cycle_error ids =
    codes "dependency cycle detected involving tasks: [" ++ (spaced_ids ids ++ codes "]")

-- `none` where the order of the tasks ran out of rounds.
unfoldable pub execute_delegated_tasks : Env → List DecomposedTask → Delegation → Option Ending
unfolding delegate_all
execute_delegated_tasks env tasks s = elim (topological_sort_tasks tasks) [
  | none ↦ none
  | some order ↦ elim order [
    | cycle ids ↦ some (refused (cycle_error ids))
    | sorted ordered ↦ some (delegate_all env ordered s)
  ]
]

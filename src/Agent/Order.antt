-- ===== src/Agent/Order.antt =====
-- internal/agent/complexity.go and runner.go: the tasks of a delegation and topologicalSortTasks, which
-- orders them so that a task comes after those that it depends on.

pub mod Queue
pub mod Degrees
pub mod Release
pub mod Rounds
pub mod Pending
pub mod Invariant
pub mod Distinct
pub mod Sound
mod Samples
use openclawssy.Base.{
  ℕ, zero, suc, ◌+◌, Bool, true, false, not, Option, none, some, List, [], ◌∷◌, ◌++◌, map, length,
  Text, text_eq, contains, if◌then◌else◌, nat_beq, Map, lookup, insert, ℤ, pos, negsuc, ltb_ℤ,
}

-- The confidence of a routing is in hundredths.
pub record DecomposedTask : Type 0 where
  pub task_id : Text
  pub parent_run_id : Text
  pub agent_id : Text
  pub message : Text
  pub acceptance_crit : List Text
  pub depends_on : List Text
  pub produces : List Text
  pub priority : ℤ
  pub timeout_ms : ℤ
  pub assigned_role : Text
  pub routing_confidence : ℕ
  pub routing_rationale : Text
  pub role_allowed_tools : List Text
  pub role_max_tool_iterations : ℤ
  pub role_timeout_ms : ℤ

abbrev pub empty_task : DecomposedTask
empty_task = record {
  task_id = [];
  parent_run_id = [];
  agent_id = [];
  message = [];
  acceptance_crit = [];
  depends_on = [];
  produces = [];
  priority = pos 0;
  timeout_ms = pos 0;
  assigned_role = [];
  routing_confidence = 0;
  routing_rationale = [];
  role_allowed_tools = [];
  role_max_tool_iterations = pos 0;
  role_timeout_ms = pos 0;
}

abbrev pub ids_of : List DecomposedTask → List Text
ids_of [] = []
ids_of (t ∷ ts) = t.task_id ∷ ids_of ts

-- The loops that fill a map by the tasks' ids.
unfoldable pub fill {ℓ} :
    {V : Type ℓ} → (DecomposedTask → V) → List DecomposedTask → Map Text V → Map Text V
fill value [] m = m
fill value (t ∷ ts) m = fill value ts (insert t.task_id (value t) m)

unfoldable pub task_of : Map Text DecomposedTask → Text → DecomposedTask
task_of m id = elim (lookup id m) [ none ↦ empty_task | some t ↦ t ]

unfoldable pub list_of : Map Text (List Text) → Text → List Text
list_of m id = elim (lookup id m) [ none ↦ [] | some ids ↦ ids ]

unfoldable pub degree_of : Map Text ℤ → Text → ℤ
degree_of m id = elim (lookup id m) [ none ↦ pos 0 | some n ↦ n ]

unfoldable pub note_dependents : Text → List Text → Map Text (List Text) → Map Text (List Text)
unfolding list_of
note_dependents id [] m = m
note_dependents id (dep ∷ deps) m =
    note_dependents id deps (insert dep (list_of m dep ++ id ∷ []) m)

unfoldable pub dependents_of : List DecomposedTask → Map Text (List Text) → Map Text (List Text)
unfolding note_dependents
dependents_of [] m = m
dependents_of (t ∷ ts) m = dependents_of ts (note_dependents t.task_id t.depends_on m)

abbrev pub pred_ℤ : ℤ → ℤ
pred_ℤ (pos zero) = negsuc 0
pred_ℤ (pos (suc n)) = pos n
pred_ℤ (negsuc n) = negsuc (suc n)

abbrev pub is_zero : ℤ → Bool
is_zero (pos zero) = true
is_zero (pos (suc n)) = false
is_zero (negsuc n) = false

unfoldable pub initial_queue : List DecomposedTask → Map Text ℤ → List Text
unfolding degree_of
initial_queue [] degrees = []
initial_queue (t ∷ ts) degrees =
    let rest = initial_queue ts degrees in
    if is_zero (degree_of degrees t.task_id) then t.task_id ∷ rest else rest

-- One round of the inner loop: the first place is exchanged with every later one of lower priority.
unfoldable pub exchange : Map Text DecomposedTask → Text → List Text → Text × List Text
unfolding task_of
exchange tasks x [] = (x, [])
exchange tasks x (y ∷ ys) =
    let swapped = exchange tasks y ys in
    let kept = exchange tasks x ys in
    if ltb_ℤ (task_of tasks y).priority (task_of tasks x).priority
    then (swapped.0, x ∷ swapped.1)
    else (kept.0, y ∷ kept.1)

-- The outer loop, one round for each place.
unfoldable pub sort_rounds : Map Text DecomposedTask → ℕ → List Text → List Text
unfolding exchange
sort_rounds tasks zero ids = ids
sort_rounds tasks (suc n) [] = []
sort_rounds tasks (suc n) (x ∷ xs) =
    let (first, rest) = exchange tasks x xs in first ∷ sort_rounds tasks n rest

unfoldable pub sort_by_priority : Map Text DecomposedTask → List Text → List Text
unfolding sort_rounds
sort_by_priority tasks ids = sort_rounds tasks (length ids) ids

-- The loop over the dependents of a task.
unfoldable pub release : List Text → Map Text ℤ → List Text → Map Text ℤ × List Text
unfolding degree_of
release [] degrees queue = (degrees, queue)
release (id ∷ ids) degrees queue =
    let n = pred_ℤ (degree_of degrees id) in
    release ids (insert id n degrees) (if is_zero n then queue ++ id ∷ [] else queue)

pub record Sorting : Type 0 where
  pub queue : List Text
  pub degrees : Map Text ℤ
  pub visited : List Text
  pub result : List DecomposedTask

-- The body of the loop for the id that was taken from the queue.
unfoldable pub visit : Map Text DecomposedTask → Map Text (List Text) → Text → Sorting → Sorting
unfolding release sort_by_priority
visit tasks dependents id s =
    let (degrees, queue) = release (list_of dependents id) s.degrees s.queue in
    if contains s.visited id then s else record {
      queue = sort_by_priority tasks queue;
      degrees = degrees;
      visited = id ∷ s.visited;
      result = s.result ++ task_of tasks id ∷ [];
    }

-- The loop, on fuel.
unfoldable pub kahn : Map Text DecomposedTask → Map Text (List Text) → ℕ → Sorting → Option Sorting
unfolding visit
kahn tasks dependents zero s = elim s.queue [ [] ↦ some s | id ∷ queue ↦ none ]
kahn tasks dependents (suc fuel) s = elim s.queue [
  | [] ↦ some s
  | id ∷ queue ↦ kahn tasks dependents fuel (visit tasks dependents id (record s { queue = queue }))
]

-- The order of the tasks, or the ids of those that were not visited.
pub data SortResult : Type 0 where
  sorted : List DecomposedTask → SortResult
  cycle : List Text → SortResult

unfoldable pub unvisited : List Text → List DecomposedTask → List Text
unvisited visited [] = []
unvisited visited (t ∷ ts) =
    let rest = unvisited visited ts in if contains visited t.task_id then rest else t.task_id ∷ rest

-- As many rounds as there are tasks and dependencies.
unfoldable pub edges : List DecomposedTask → ℕ
edges [] = 0
edges (t ∷ ts) = length t.depends_on + edges ts

unfoldable pub degree_by_task : List DecomposedTask → Map Text ℤ
unfolding fill
degree_by_task tasks = fill (λ t. pos (length t.depends_on)) tasks []

unfoldable pub task_map : List DecomposedTask → Map Text DecomposedTask
unfolding fill
task_map tasks = fill (λ t. t) tasks []

abbrev pub start_of : List DecomposedTask → Sorting
start_of tasks = record {
  queue = sort_by_priority (task_map tasks) (initial_queue tasks (degree_by_task tasks));
  degrees = degree_by_task tasks;
  visited = [];
  result = [];
}

unfoldable pub topological_sort_tasks : List DecomposedTask → Option SortResult
unfolding kahn initial_queue dependents_of unvisited edges
topological_sort_tasks tasks =
    let s =
      kahn (task_map tasks) (dependents_of tasks []) (length tasks + edges tasks)
        (start_of tasks) in
    elim s [
      | none ↦ none
      | some s ↦ some (
          if nat_beq (length s.result) (length tasks)
          then sorted s.result
          else cycle (unvisited s.visited tasks))
    ]

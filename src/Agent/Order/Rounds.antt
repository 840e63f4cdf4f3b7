-- ===== src/Agent/Order/Rounds.antt =====
-- The loop of topologicalSortTasks ends within the rounds that it is given.
use mathlib.Core.Option.{some_inj}
use openclawssy.Base.{
  ℕ, zero, suc, ◌+◌, ◌≤◌, ◌≡◌, refl, sym, ap, subst, ◌∙◌, false, none, some, List, [], ◌∷◌, ◌++◌,
  length, length-append, Text, text_eq, eq_iff, contains, if◌then◌else◌, Map, lookup, insert, arith,
  ℤ, Bool-cases, inl, inr, nat_beq,
}
use openclawssy.Agent.Order.{
  DecomposedTask, Sorting, SortResult, kahn, visit, release, list_of, note_dependents,
  dependents_of, edges, start_of, task_map, initial_queue, degree_by_task, topological_sort_tasks,
  degree_of, is_zero, sorted, cycle, unvisited,
}
use openclawssy.Agent.Order.Queue.{length-sort_by_priority}
use openclawssy.Agent.Order.Release.{length-release}

-- The dependents of the ids that are still to be visited.
remaining : List Text → Map Text (List Text) → ℕ
remaining visited [] = 0
remaining visited ((k, ids) ∷ m) =
    let rest = remaining visited m in if contains visited k then rest else length ids + rest

remaining-later :
    (id : Text) (visited : List Text) (m : Map Text (List Text))
    → remaining (id ∷ visited) m ≤ remaining visited m
unfolding remaining contains
remaining-later id visited [] = omega arith
remaining-later id visited ((k, ids) ∷ m) = ground (arith, remaining-later id visited m)

remaining-visit :
    (id : Text) (visited : List Text) (m : Map Text (List Text))
    → contains visited id ≡ false
    → remaining (id ∷ visited) m + length (list_of m id) ≤ remaining visited m
unfolding remaining contains list_of lookup
remaining-visit id visited [] n = omega arith
remaining-visit id visited ((k, ids) ∷ m) n = ground (
  arith,
  n,
  remaining-visit id visited m n,
  remaining-later id visited m,
  eq_iff k id,
  eq_iff id k,
)

remaining-insert :
    (k : Text) (v : List Text) (m : Map Text (List Text))
    → remaining [] (insert k v m) + length (list_of m k) ≡ remaining [] m + length v
unfolding remaining contains list_of lookup insert
remaining-insert k v [] = omega arith
remaining-insert k v ((j, ids) ∷ m) = ground (arith, remaining-insert k v m)

remaining-note_dependents :
    (id : Text) (deps : List Text) (m : Map Text (List Text))
    → remaining [] (note_dependents id deps m) ≡ remaining [] m + length deps
unfolding note_dependents
remaining-note_dependents id [] m = omega arith
remaining-note_dependents id (dep ∷ deps) m = omega (
  arith,
  remaining-note_dependents id deps (insert dep (list_of m dep ++ id ∷ []) m),
  remaining-insert dep (list_of m dep ++ id ∷ []) m,
  length-append (list_of m dep) (id ∷ []),
)

remaining-dependents_of :
    (ts : List DecomposedTask) (m : Map Text (List Text))
    → remaining [] (dependents_of ts m) ≡ remaining [] m + edges ts
unfolding dependents_of edges
remaining-dependents_of [] m = omega arith
remaining-dependents_of (t ∷ ts) m = omega (
  arith,
  remaining-dependents_of ts (note_dependents t.task_id t.depends_on m),
  remaining-note_dependents t.task_id t.depends_on m,
)

-- A round takes one id off the queue, and adds at most the dependents of an id that it visits.
measure : Map Text (List Text) → Sorting → ℕ
measure dependents s = length s.queue + remaining s.visited dependents

measure-visit :
    (tasks : Map Text DecomposedTask) (dependents : Map Text (List Text)) (id : Text) (s : Sorting)
    → measure dependents (visit tasks dependents id s) ≤ measure dependents s
unfolding visit measure
measure-visit tasks dependents id s = elim (Bool-cases (contains s.visited id)) [
  | inl hit ↦ rw (visit, hit) (omega arith)
  | inr miss ↦
      rw (visit, miss)
        (omega (
          arith,
          length-sort_by_priority tasks (release (list_of dependents id) s.degrees s.queue).1,
          length-release (list_of dependents id) s.degrees s.queue,
          remaining-visit id s.visited dependents miss,
        ))
]

pub kahn_done :
    (tasks : Map Text DecomposedTask) (dependents : Map Text (List Text)) (fuel : ℕ) (s : Sorting)
    → s.queue ≡ []
    → kahn tasks dependents fuel s ≡ some s
unfolding kahn
kahn_done tasks dependents zero s e = rw (kahn, e) (ap (λ q. some (record s { queue = q })) e)
kahn_done tasks dependents (suc fuel) s e = rw (kahn, e) (ap (λ q. some (record s { queue = q })) e)

kahn_stuck :
    (tasks : Map Text DecomposedTask) (dependents : Map Text (List Text)) (id : Text)
    (queue : List Text) (s : Sorting)
    → s.queue ≡ id ∷ queue
    → kahn tasks dependents zero s ≡ none
unfolding kahn
kahn_stuck tasks dependents id queue s e = rw (kahn, e) refl

pub kahn_next :
    (tasks : Map Text DecomposedTask) (dependents : Map Text (List Text)) (fuel : ℕ) (id : Text)
    (queue : List Text) (s : Sorting)
    → s.queue ≡ id ∷ queue
    → kahn tasks dependents (suc fuel) s
      ≡ kahn tasks dependents fuel (visit tasks dependents id (record s { queue = queue }))
unfolding kahn
kahn_next tasks dependents fuel id queue s e = rw (kahn, e) refl

kahn_total :
    (tasks : Map Text DecomposedTask) (dependents : Map Text (List Text)) (fuel : ℕ)
    (queue : List Text) (s : Sorting)
    → s.queue ≡ queue
    → measure dependents s ≤ fuel
    → (t : Sorting) × (kahn tasks dependents fuel s ≡ some t)
unfolding kahn measure
kahn_total tasks dependents zero [] s e h = (s, kahn_done tasks dependents zero s e)
kahn_total tasks dependents (suc fuel) [] s e h = (s, kahn_done tasks dependents (suc fuel) s e)
kahn_total tasks dependents zero (id ∷ queue) s e h = absurd (omega (arith, h, ap length e))
kahn_total tasks dependents (suc fuel) (id ∷ queue) s e h =
    let s' : Sorting = visit tasks dependents id (record s { queue = queue }) in
    let (t, e') = kahn_total tasks dependents fuel s'.queue s' refl (
      omega
        (arith, h, ap length e, measure-visit tasks dependents id (record s { queue = queue }))) in
    (t, kahn_next tasks dependents fuel id queue s e ∙ e')

length-initial_queue :
    (ts : List DecomposedTask) (degrees : Map Text ℤ)
    → length (initial_queue ts degrees) ≤ length ts
unfolding initial_queue
length-initial_queue [] degrees = omega arith
length-initial_queue (t ∷ ts) degrees = elim (Bool-cases (is_zero (degree_of degrees t.task_id))) [
  | inl hit ↦ rw (initial_queue, hit) (omega (arith, length-initial_queue ts degrees))
  | inr miss ↦ rw (initial_queue, miss) (omega (arith, length-initial_queue ts degrees))
]

pub kahn_ends :
    (tasks : List DecomposedTask)
    → (t : Sorting) × (kahn
          (task_map tasks)
          (dependents_of tasks [])
          (length tasks + edges tasks)
          (start_of tasks)
        ≡ some t)
unfolding measure remaining
kahn_ends tasks =
    let queue = initial_queue tasks (degree_by_task tasks) in
    kahn_total (task_map tasks) (dependents_of tasks []) (length tasks + edges tasks)
      (start_of tasks).queue (start_of tasks) refl
      (omega (
        arith,
        length-sort_by_priority (task_map tasks) queue,
        length-initial_queue tasks (degree_by_task tasks),
        remaining-dependents_of tasks [],
      ))

-- The loop over the queue ends, for any tasks, within as many rounds as there are tasks and dependencies.
pub topological_sort_tasks_total :
    (tasks : List DecomposedTask) → (r : SortResult) × (topological_sort_tasks tasks ≡ some r)
unfolding topological_sort_tasks
topological_sort_tasks_total tasks =
    let (t, e) = kahn_ends tasks in
    (
      if nat_beq (length t.result) (length tasks)
          then sorted t.result
          else cycle (unvisited t.visited tasks),
      rw (topological_sort_tasks, e) refl,
    )

-- What each visit keeps holds where the loop stops, which is when the queue is empty.
pub kahn-keeps :
    (tasks : Map Text DecomposedTask) (dependents : Map Text (List Text)) (P : Sorting → Type 0)
    (step : (id : Text) (queue : List Text) (s : Sorting)
      → s.queue ≡ id ∷ queue
      → P s
      → P (visit tasks dependents id (record s { queue = queue })))
    (fuel : ℕ) (queue : List Text) (s t : Sorting)
    → s.queue ≡ queue
    → kahn tasks dependents fuel s ≡ some t
    → P s
    → P t × (t.queue ≡ [])
unfolding kahn
kahn-keeps tasks dependents P step fuel [] s t e k h =
    let same : s ≡ t = some_inj.0 (sym (kahn_done tasks dependents fuel s e) ∙ k) in
    (subst P same h, ap (λ x. x.queue) (sym same) ∙ e)
kahn-keeps tasks dependents P step zero (id ∷ queue) s t e k h =
    absurd (cc (kahn_stuck tasks dependents id queue s e, k))
kahn-keeps tasks dependents P step (suc fuel) (id ∷ queue) s t e k h =
    let s' : Sorting = visit tasks dependents id (record s { queue = queue }) in
    kahn-keeps tasks dependents P step fuel s'.queue s' t refl
      (sym (kahn_next tasks dependents fuel id queue s e) ∙ k) (step id queue s e h)

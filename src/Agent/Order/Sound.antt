-- ===== src/Agent/Order/Sound.antt =====
-- topologicalSortTasks gives an order of the tasks exactly when there is one.
use mathlib.Core.List.{Memᴰ}
use mathlib.Core.Option.{some_inj}
use openclawssy.Base.{
  suc, ◌+◌, ◌≤◌, ◌≡◌, refl, sym, ap, subst, ◌∙◌, true, false, ◌||◌, some, List, [], ◌∷◌, length,
  Text, text_eq, ◌==◌, eq_iff, contains, if◌then◌else◌, lookup, arith, Bool-cases, inl, inr,
  nat_beq, NoRepeats, AllIn, AllIn-length, AllIn-NoRepeats, AllIn-onto, ◌≢◌, nat_beq_iff, All,
  All-map,
}
use openclawssy.Agent.Order.{
  DecomposedTask, fill, Sorting, SortResult, sorted, cycle, ids_of, dependents_of, task_map,
  start_of, topological_sort_tasks, edges, unvisited,
}
use openclawssy.Agent.Order.Rounds.{kahn_ends, kahn-keeps}
use openclawssy.Agent.Order.Invariant.{Inv, start-Inv, visit-Inv}
use openclawssy.Agent.Order.Pending.{DepsFirst, pending, All-pending, ids_of-Mem}
use openclawssy.Agent.Order.Distinct.{Distinct, visit-Distinct, start-Distinct}
use openclawssy.Agent.Order.Degrees.{lookup-fill, contains-ids_of}

-- The same tasks, each once and after those that it depends on.
pub record IsOrder (tasks result : List DecomposedTask) : Type 0 where
  pub length_same : length result ≡ length tasks
  pub only : (t : DecomposedTask) → Memᴰ t result → Memᴰ t tasks
  pub all : (t : DecomposedTask) → Memᴰ t tasks → Memᴰ t result
  pub first : DepsFirst [] result

length-ids_of : (ts : List DecomposedTask) → length (ids_of ts) ≡ length ts
length-ids_of [] = refl
length-ids_of (t ∷ ts) = ap suc (length-ids_of ts)

absent :
    (x : Text) (seen ys : List Text)
    → All (λ y. contains (x ∷ seen) y ≡ false) ys
    → contains ys x ≡ false
unfolding contains
absent x seen [] a = refl
absent x seen (y ∷ ys) a = ground (arith, a.0, absent x seen ys a.1, eq_iff x y, eq_iff y x)

DepsFirst-NoRepeats :
    (seen : List Text) (ts : List DecomposedTask)
    → DepsFirst seen ts
    → NoRepeats (ids_of ts) × All (λ x. contains seen x ≡ false) (ids_of ts)
unfolding contains
DepsFirst-NoRepeats seen [] h = (tt, tt)
DepsFirst-NoRepeats seen (t ∷ ts) h =
    let (n, a) = DepsFirst-NoRepeats (t.task_id ∷ seen) ts h.2 in
    (
      (absent t.task_id seen (ids_of ts) a, n),
      (
        h.1,
        All-map (λ x. (t.task_id == x || contains seen x) ≡ false) (λ x. contains seen x ≡ false)
            (ids_of ts) (λ x e. ground (arith, e)) a,
      ),
    )

within-AllIn :
    (us ts : List Text) → ((x : Text) → contains ts x ≡ true → contains us x ≡ true) → AllIn us ts
unfolding contains
within-AllIn us [] f = tt
within-AllIn us (t ∷ ts) f =
    (f t (ground (arith, eq_iff t t)), within-AllIn us ts (λ x c. f x (ground (arith, c))))

same_task :
    (tasks : List DecomposedTask) (u v : DecomposedTask)
    → NoRepeats (ids_of tasks)
    → Memᴰ u tasks
    → Memᴰ v tasks
    → u.task_id ≡ v.task_id
    → u ≡ v
same_task tasks u v n a b e = some_inj.0 (
    sym (lookup-fill (λ t. t) tasks [] u n a)
    ∙ ap (λ x. lookup x (fill (λ t. t) tasks [])) e
    ∙ lookup-fill (λ t. t) tasks [] v n b)

outcome : List DecomposedTask → Sorting → SortResult
outcome tasks t =
    if nat_beq (length t.result) (length tasks)
    then sorted t.result
    else cycle (unvisited t.visited tasks)

-- Where the loop stops.
record Ended (tasks : List DecomposedTask) : Type 0 where
  final : Sorting
  distinct : Distinct tasks final
  inv : (n : NoRepeats (ids_of tasks)) → Inv tasks n final
  empty : final.queue ≡ []
  answer : topological_sort_tasks tasks ≡ some (outcome tasks final)

ended : (tasks : List DecomposedTask) → Ended tasks
unfolding topological_sort_tasks outcome
ended tasks =
    let (t, e) = kahn_ends tasks in
    let fuel = length tasks + edges tasks in
    let (d, q) =
      kahn-keeps (task_map tasks) (dependents_of tasks []) (Distinct tasks) (visit-Distinct tasks)
        fuel (start_of tasks).queue (start_of tasks) t refl e (start-Distinct tasks) in
    record {
      final = t;
      distinct = d;
      inv = λ n.
          (kahn-keeps (task_map tasks) (dependents_of tasks []) (Inv tasks n) (visit-Inv tasks n)
            fuel (start_of tasks).queue (start_of tasks) t refl e (start-Inv tasks n)).0;
      empty = q;
      answer = rw (topological_sort_tasks, e) refl;
    }

module _ (tasks : List DecomposedTask) (end : Ended tasks) where
  AllIn-result : AllIn (ids_of tasks) (ids_of end.final.result)
  AllIn-result = within-AllIn (ids_of tasks) (ids_of end.final.result) end.distinct.within

  full-IsOrder : length end.final.result ≡ length tasks → IsOrder tasks end.final.result
  full-IsOrder l =
      let r = end.final.result in
      let short : length (ids_of tasks) ≤ length (ids_of r) =
        omega (arith, length-ids_of tasks, length-ids_of r, l) in
      let n : NoRepeats (ids_of tasks) =
        AllIn-NoRepeats (ids_of tasks) (ids_of r) end.distinct.once AllIn-result short in
      let inv = end.inv n in
      record {
        length_same = l;
        only = inv.members;
        all = λ t m.
            let (u, mu, e) = ids_of-Mem t.task_id r (
              AllIn-onto (ids_of tasks) (ids_of r) t.task_id end.distinct.once AllIn-result short
                (contains-ids_of t tasks m)) in
            subst (λ v. Memᴰ v r) (same_task tasks u t n (inv.members u mu) m e) mu;
        first = inv.order;
      }

  -- Every task of an order of the tasks has been visited.
  visited-all :
      (n : NoRepeats (ids_of tasks)) (before : List Text) (ts : List DecomposedTask)
      → DepsFirst before ts
      → ((t : DecomposedTask) → Memᴰ t ts → Memᴰ t tasks)
      → ((x : Text) → contains before x ≡ true → contains end.final.visited x ≡ true)
      → AllIn end.final.visited (ids_of ts)
  unfolding contains
  visited-all n before [] h m v = tt
  visited-all n before (t ∷ ts) h m v =
      let deps : pending end.final.visited t.depends_on ≡ 0 =
        All-pending end.final.visited t.depends_on (
          All-map (λ d. contains before d ≡ true) (λ d. contains end.final.visited d ≡ true)
            t.depends_on v h.0) in
      let here : contains end.final.visited t.task_id ≡ true = ground (
        arith,
        (end.inv n).ready t (m t (Memᴰ.head refl)) deps,
        ap (λ q. contains q t.task_id) end.empty,
      ) in
      (
        here,
        visited-all n (t.task_id ∷ before) ts h.2 (λ u k. m u (Memᴰ.tail k))
            (λ x c. ground (
              arith,
              c,
              v x,
              here,
              ap (contains end.final.visited) {x = t.task_id} {y = x},
              eq_iff t.task_id x,
            )),
      )

not_sorted : (ids : List Text) (r : List DecomposedTask) → cycle ids ≢ sorted r
not_sorted ids r e = cc e

nothing_in : (x : Text) → contains [] x ≢ true
unfolding contains
nothing_in x e = cc e

AllIn-seen :
    (us vs ts : List Text)
    → ((x : Text) → contains us x ≡ contains vs x)
    → AllIn us ts
    → AllIn vs ts
AllIn-seen us vs [] f a = tt
AllIn-seen us vs (t ∷ ts) f a = (sym (f t) ∙ a.0, AllIn-seen us vs ts f a.1)

sorted_inj : (outs r : List DecomposedTask) → sorted outs ≡ sorted r → outs ≡ r
sorted_inj outs r e = cc e

-- A result of topologicalSortTasks has the same tasks, each once and after all those that it depends on.
pub topological_sort_tasks-IsOrder :
    (tasks result : List DecomposedTask)
    → topological_sort_tasks tasks ≡ some (sorted result)
    → IsOrder tasks result
unfolding outcome
topological_sort_tasks-IsOrder tasks result e =
    let end = ended tasks in
    let same : outcome tasks end.final ≡ sorted result = some_inj.0 (sym end.answer ∙ e) in
    elim (Bool-cases (nat_beq (length end.final.result) (length tasks))) [
      | inl hit ↦
          subst (IsOrder tasks)
            (sorted_inj end.final.result result (sym (rw (outcome, hit) refl) ∙ same))
            (full-IsOrder tasks end (ground (arith, hit)))
      | inr miss ↦ absurd (
          not_sorted (unvisited end.final.visited tasks) result
            (sym (rw (outcome, miss) refl) ∙ same))
    ]

-- Where the tasks have an order, topologicalSortTasks gives one and no error.
pub topological_sort_tasks_complete :
    (tasks order : List DecomposedTask)
    → IsOrder tasks order
    → (result : List DecomposedTask) × (topological_sort_tasks tasks ≡ some (sorted result))
unfolding outcome
topological_sort_tasks_complete tasks order o =
    let end = ended tasks in
    let (once, _) = DepsFirst-NoRepeats [] order o.first in
    let into : AllIn (ids_of tasks) (ids_of order) =
      within-AllIn (ids_of tasks) (ids_of order) λ x c.
        let (u, m, i) = ids_of-Mem x order c in
        subst (λ y. contains (ids_of tasks) y ≡ true) i (contains-ids_of u tasks (o.only u m)) in
    let n =
      AllIn-NoRepeats (ids_of tasks) (ids_of order) once into
        (omega (arith, length-ids_of tasks, length-ids_of order, o.length_same)) in
    let seen = visited-all tasks end n [] order o.first o.only (λ x c. absurd (nothing_in x c)) in
    let most =
      AllIn-length (ids_of tasks) (ids_of end.final.result) end.distinct.once
        (AllIn-result tasks end) in
    let least = AllIn-length (ids_of end.final.result) (ids_of order) once (
      AllIn-seen end.final.visited (ids_of end.final.result) (ids_of order) end.distinct.seen
        seen) in
    let same : nat_beq (length end.final.result) (length tasks) ≡ true =
      (nat_beq_iff (length end.final.result) (length tasks)).1 (
        omega (
          arith,
          most,
          least,
          length-ids_of tasks,
          length-ids_of order,
          length-ids_of end.final.result,
          o.length_same,
        )) in
    (end.final.result, end.answer ∙ rw (outcome, same) refl)

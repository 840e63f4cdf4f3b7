-- ===== src/Agent/Delegation/Ends.antt =====
-- How a delegation ends.
use mathlib.Core.List.{Memᴰ}
use mathlib.Core.Option.{some_inj}
use openclawssy.Base.{
  ◌≤◌, ◌≡◌, ◌≢◌, refl, sym, ap, subst, ◌∙◌, true, Option, none, some, List, [], ◌∷◌, ◌++◌, Text,
  text_eq, contains, lookup, inl, inr, ◌⊎◌, All,
}
use openclawssy.Agent.Order.{DecomposedTask, SortResult, sorted, cycle, topological_sort_tasks}
use openclawssy.Agent.Order.Sound.{
  IsOrder, topological_sort_tasks-IsOrder, topological_sort_tasks_complete,
}
use openclawssy.Agent.Delegation.{
  Env, Delegation, Ending, done, refused, cycle_error, execute_delegated_tasks,
}
use openclawssy.Agent.Delegation.Results.{Succeeded}
use openclawssy.Agent.Delegation.Loop.{Loop, delegate_all-Loop, attempts}

All-Mem :
    (P : DecomposedTask → Type 0) (ts : List DecomposedTask) (t : DecomposedTask)
    → Memᴰ t ts
    → All P ts
    → P t
All-Mem P [] t m a = elim m [ ]
All-Mem P (u ∷ ts) t (Memᴰ.head e) a = subst P (sym e) a.0
All-Mem P (u ∷ ts) t (Memᴰ.tail m) a = All-Mem P ts t m a.1

nothing_before : (x : Text) → contains [] x ≢ true
unfolding contains
nothing_before x e = cc e

module _ (env : Env) (tasks ordered : List DecomposedTask) (s : Delegation) where
  loop_of : topological_sort_tasks tasks ≡ some (sorted ordered) → Loop env ordered s
  loop_of e =
      delegate_all-Loop env [] ordered s (topological_sort_tasks-IsOrder tasks ordered e).first
        (λ x c. absurd (nothing_before x c))

  sorted_runs :
      (e : topological_sort_tasks tasks ≡ some (sorted ordered))
      → execute_delegated_tasks env tasks s ≡ some (done (loop_of e).final)
  unfolding execute_delegated_tasks
  sorted_runs e = rw (execute_delegated_tasks, e) (ap some (loop_of e).runs)

-- Where the tasks have an order, the delegation ends without an error, and every task has a result: no
-- dependency is ever found to be missing.
pub execute_delegated_tasks-ends :
    (env : Env) (tasks order : List DecomposedTask) (s : Delegation)
    → IsOrder tasks order
    → (t : Delegation) × (execute_delegated_tasks env tasks s ≡ some (done t))
      × ((task : DecomposedTask) → Memᴰ task tasks → lookup task.task_id t.completed ≢ none)
execute_delegated_tasks-ends env tasks order s o =
    let (result, e) = topological_sort_tasks_complete tasks order o in
    let loop = loop_of env tasks result s e in
    (
      loop.final,
      sorted_runs env tasks result s e,
      λ task m.
          All-Mem (λ t. lookup t.task_id loop.final.completed ≢ none) result task
            ((topological_sort_tasks-IsOrder tasks result e).all task m) loop.all,
    )

done_inj : (s t : Delegation) → done s ≡ done t → s ≡ t
done_inj s t e = cc e

refused_not_done :
    (error : Text) (t : Delegation)
    → ◌≡◌ {A = Option Ending} (some (refused error)) (some (done t))
    → ⊥
refused_not_done error t e = cc e

SortResult-cases :
    (o : Option SortResult)
    → (o ≡ none)
      ⊎ (((ids : List Text) × (o ≡ some (cycle ids)))
          ⊎ ((ts : List DecomposedTask) × (o ≡ some (sorted ts))))
SortResult-cases none = inl refl
SortResult-cases (some (cycle ids)) = inr (inl (ids, refl))
SortResult-cases (some (sorted ts)) = inr (inr (ts, refl))

module _ (env : Env) (tasks : List DecomposedTask) (s : Delegation) where
  none_runs : topological_sort_tasks tasks ≡ none → execute_delegated_tasks env tasks s ≡ none
  unfolding execute_delegated_tasks
  none_runs e = rw (execute_delegated_tasks, e) refl

  cycle_runs :
      (ids : List Text)
      → topological_sort_tasks tasks ≡ some (cycle ids)
      → execute_delegated_tasks env tasks s ≡ some (refused (cycle_error ids))
  unfolding execute_delegated_tasks
  cycle_runs ids e = rw (execute_delegated_tasks, e) refl

  -- A delegation that is done went through its loop.
  done_loop :
      (t : Delegation)
      → execute_delegated_tasks env tasks s ≡ some (done t)
      → (ordered : List DecomposedTask) × ((loop : Loop env ordered s) × (loop.final ≡ t))
  done_loop t d = elim (SortResult-cases (topological_sort_tasks tasks)) [
    | inl e ↦ absurd (cc (none_runs e, d))
    | inr (inl (ids, e)) ↦
        absurd (refused_not_done (cycle_error ids) t (sym (cycle_runs ids e) ∙ d))
    | inr (inr (ordered, e)) ↦ (
      ordered,
      (
        loop_of env tasks ordered s e,
        done_inj (loop_of env tasks ordered s e).final t
            (some_inj.0 (sym (sorted_runs env tasks ordered s e) ∙ d)),
      ),
    )
  ]

-- A sub-agent is given a task only when every task that it depends on has a result that is no failure:
-- the tasks that a delegation hands out, those of before left aside, have only such dependencies.
pub execute_delegated_tasks_ready :
    (env : Env) (tasks : List DecomposedTask) (s t : Delegation)
    → execute_delegated_tasks env tasks s ≡ some (done t)
    → (extra : List DecomposedTask) × (t.executed ≡ s.executed ++ extra)
      × All (λ given. All (Succeeded t.completed) given.depends_on) extra
execute_delegated_tasks_ready env tasks s t d =
    let (ordered, (loop, e)) = done_loop env tasks s t d in
    (
      loop.extra,
      sym (ap (λ x. x.executed) e) ∙ loop.asked,
      subst
          (λ (x : Delegation).
            All (λ given. All (Succeeded x.completed) given.depends_on) loop.extra)
          e loop.ready,
    )

-- A delegation gives no task to a sub-agent more than twice.
pub execute_delegated_tasks_twice :
    (env : Env) (tasks : List DecomposedTask) (s t : Delegation) (id : Text)
    → execute_delegated_tasks env tasks s ≡ some (done t)
    → (extra : List DecomposedTask) × (t.executed ≡ s.executed ++ extra) × (attempts id extra ≤ 2)
execute_delegated_tasks_twice env tasks s t id d =
    let (ordered, (loop, e)) = done_loop env tasks s t d in
    (loop.extra, sym (ap (λ x. x.executed) e) ∙ loop.asked, loop.twice id)

-- ===== src/Agent/Delegation/Step.antt =====
-- What executeDelegatedTasks does with one task.
use mathlib.Core.List.{append-nil}
use openclawssy.Base.{
  ◌≤◌, ◌≡◌, refl, sym, ap, ◌∙◌, false, List, [], ◌++◌, length, Text, text_eq, ◌==◌, Map, lookup,
  insert, arith, inl, inr, ◌⊎◌, All, All-map, trim, codes,
}
use openclawssy.Agent.Order.{DecomposedTask}
use openclawssy.Agent.Delegation.{
  Env, Delegation, done, Dependencies, missing, failed, satisfied, check_dependencies, attempt,
  record_delegation_event, no_output, given_task, routed_task, delegate, apply_role_routing,
}
use openclawssy.Agent.Delegation.Results.{
  Succeeded, attempt-Settled, HasResult, check_dependencies-All, check_dependencies-found,
  own_result, other_result,
}

Dependencies-cases :
    (x : Dependencies)
    → ((d : Text) × (x ≡ missing d)) ⊎ (((d : Text) × (x ≡ failed d)) ⊎ (x ≡ satisfied))
Dependencies-cases (missing d) = inl (d, refl)
Dependencies-cases (failed d) = inr (inl (d, refl))
Dependencies-cases satisfied = inr (inr refl)

-- A task as it was given: for this task, whose dependencies have succeeded.
abbrev pub GivenFor : Map Text Text → DecomposedTask → DecomposedTask → Type 0
GivenFor completed task g =
    (g.task_id ≡ task.task_id)
    × (g.depends_on ≡ task.depends_on)
    × All (Succeeded completed) task.depends_on

pub record Step (env : Env) (task : DecomposedTask) (s : Delegation) : Type 0 where
  pub final : Delegation
  pub runs : delegate env task s ≡ done final
  pub own : HasResult final.completed task.task_id
  pub others :
      (id : Text) → (task.task_id == id) ≡ false → lookup id final.completed ≡ lookup id s.completed
  pub extra : List DecomposedTask
  pub asked : final.executed ≡ s.executed ++ extra
  pub twice : length extra ≤ 2
  pub given : All (GivenFor s.completed task) extra

module _ (env : Env) where
  given_id :
      (task : DecomposedTask) (s : Delegation) → (given_task env task s).task_id ≡ task.task_id
  unfolding given_task
  given_id task s = refl

  given_deps :
      (task : DecomposedTask) (s : Delegation)
      → (given_task env task s).depends_on ≡ task.depends_on
  unfolding given_task
  given_deps task s = refl

  pub delegate-Step :
      (task : DecomposedTask) (s : Delegation)
      → All (HasResult s.completed) task.depends_on
      → Step env task s
  unfolding delegate record_delegation_event
  delegate-Step task s h =
      elim (Dependencies-cases (check_dependencies s.completed task.depends_on)) [
        | inl (d, e) ↦ absurd (check_dependencies-found s.completed task.depends_on d h e)
        | inr (inl (d, e)) ↦ record {
          final =
              record_delegation_event env task no_output (trim task.routing_rationale)
                (codes "failed_dependency")
                (record s {
                  completed =
                      insert task.task_id (codes "FAILED: dependency " ++ (d ++ codes " failed"))
                        s.completed;
                });
          runs = rw (delegate, e) refl;
          own =
              own_result task.task_id (codes "FAILED: dependency " ++ (d ++ codes " failed"))
                s.completed;
          others = λ id n.
              other_result task.task_id id (codes "FAILED: dependency " ++ (d ++ codes " failed"))
                s.completed n;
          extra = [];
          asked = sym (append-nil s.executed);
          twice = omega arith;
          given = tt;
        }
        | inr (inr e) ↦
            let settled = attempt-Settled env task (given_task env task s) 1 s in
            let (extra, x, l, a) = settled.asked in
            record {
              final = attempt env 1 task (given_task env task s) s;
              runs = rw (delegate, e) refl;
              own = settled.own;
              others = settled.others;
              extra = extra;
              asked = x;
              twice = l;
              given =
                  All-map (λ g. g ≡ given_task env task s) (GivenFor s.completed task) extra
                    (λ g same. (
                      ap (λ x. x.task_id) same ∙ given_id task s,
                      ap (λ x. x.depends_on) same ∙ given_deps task s,
                      check_dependencies-All s.completed task.depends_on e,
                    ))
                    a;
            }
      ]

  pub routed_id : (task : DecomposedTask) → (routed_task env task).task_id ≡ task.task_id
  unfolding routed_task apply_role_routing
  routed_id task = ground arith

  pub routed_deps : (task : DecomposedTask) → (routed_task env task).depends_on ≡ task.depends_on
  unfolding routed_task apply_role_routing
  routed_deps task = ground arith

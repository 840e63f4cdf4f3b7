-- ===== src/Agent/Delegation/Samples.antt =====
-- A delegation of two tasks, of which the sub-agent does the first and fails at the second.
use mathlib.Core.List.{Memᴰ}
use openclawssy.Base.{
  ◌≤◌, ◌≡◌, ◌≢◌, refl, Option, none, some, List, [], ◌∷◌, ◌++◌, codes, text_eq, text_beq, ◌==◌,
  contains, lookup, All, pos,
}
use openclawssy.Agent.Order.{DecomposedTask, empty_task}
use openclawssy.Agent.Order.Sound.{IsOrder}
use openclawssy.Agent.Delegation.{Env, Delegation, Ending, done, refused, execute_delegated_tasks}
use openclawssy.Agent.Delegation.Results.{Succeeded}
use openclawssy.Agent.Delegation.Loop.{attempts}
use openclawssy.Agent.Delegation.Ends.{
  execute_delegated_tasks-ends, execute_delegated_tasks_ready, execute_delegated_tasks_twice,
}

abbrev sample_env : Env
sample_env = record {
  route = λ m. record {
    role_name = codes "implementer";
    confidence = 20;
    rationale = [];
    allowed_tools = [];
    max_iterations = pos 5;
    timeout_ms = pos 60000;
  };
  execute_sub_agent = λ before task. (
    record {
      success = task.task_id == codes "read";
      final_text = codes "ok";
      error = codes "no";
      message_id = [];
      run_id = [];
    },
    none,
  );
  show_confidence = λ n. [];
  run_id = codes "r";
  agent_id = codes "default";
  reason = [];
}

abbrev reading : DecomposedTask
reading = record empty_task { task_id = codes "read" }

abbrev writing : DecomposedTask
writing = record empty_task { task_id = codes "write"; depends_on = codes "read" ∷ [] }

abbrev two_tasks : List DecomposedTask
two_tasks = reading ∷ writing ∷ []

abbrev idle : Delegation
idle = record { completed = []; artifacts = []; events = []; executed = [] }

two_tasks-IsOrder : IsOrder two_tasks two_tasks
unfolding contains codes text_beq
two_tasks-IsOrder = record {
  length_same = refl;
  only = λ t m. m;
  all = λ t m. m;
  first = (tt, refl, ((refl, tt), refl, tt));
}

execute_delegated_tasks-ends_example :
    (t : Delegation) × (execute_delegated_tasks sample_env two_tasks idle ≡ some (done t))
    × ((task : DecomposedTask) → Memᴰ task two_tasks → lookup task.task_id t.completed ≢ none)
execute_delegated_tasks-ends_example =
    execute_delegated_tasks-ends sample_env two_tasks two_tasks idle two_tasks-IsOrder

-- The state after the delegation.
after_two : Delegation
after_two = elim (execute_delegated_tasks sample_env two_tasks idle) [
  | none ↦ idle
  | some ending ↦ elim ending [ done t ↦ t | refused e ↦ idle ]
]

found :
    (o : Option Ending) (t : Delegation)
    → o ≡ some (done t)
    → o
      ≡ some (
          done (elim o as (λ x. Delegation) [
            | none ↦ idle
            | some ending ↦ elim ending [ done t ↦ t | refused e ↦ idle ]
          ]))
found none t e = absurd (cc e)
found (some (done u)) t e = refl
found (some (refused x)) t e = absurd (cc e)

two_done : execute_delegated_tasks sample_env two_tasks idle ≡ some (done after_two)
unfolding after_two
two_done =
    let (t, e, all) =
      execute_delegated_tasks-ends sample_env two_tasks two_tasks idle two_tasks-IsOrder in
    found (execute_delegated_tasks sample_env two_tasks idle) t e

execute_delegated_tasks_ready_example :
    (extra : List DecomposedTask) × (after_two.executed ≡ [] ++ extra)
    × All (λ given. All (Succeeded after_two.completed) given.depends_on) extra
execute_delegated_tasks_ready_example =
    execute_delegated_tasks_ready sample_env two_tasks idle after_two two_done

execute_delegated_tasks_twice_example :
    (extra : List DecomposedTask) × (after_two.executed ≡ [] ++ extra)
    × (attempts (codes "write") extra ≤ 2)
execute_delegated_tasks_twice_example =
    execute_delegated_tasks_twice sample_env two_tasks idle after_two (codes "write") two_done

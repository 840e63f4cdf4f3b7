-- ===== src/Agent/Order/Samples.antt =====
-- Three tasks, the last of which depends on the others.

use openclawssy.Base.{
  ◌≡◌, refl, some, List, [], ◌∷◌, codes, pos, contains, text_beq, lookup, insert,
}
use openclawssy.Agent.Order.{
  DecomposedTask, SortResult, sorted, empty_task, topological_sort_tasks, degree_by_task, task_map,
}
use openclawssy.Agent.Order.Sound.{
  IsOrder, topological_sort_tasks-IsOrder, topological_sort_tasks_complete,
}
use openclawssy.Agent.Order.Rounds.{topological_sort_tasks_total}

abbrev plan : DecomposedTask
plan = record empty_task { task_id = codes "plan"; priority = pos 3 }

abbrev build : DecomposedTask
build = record empty_task {
  task_id = codes "build";
  depends_on = codes "plan" ∷ [];
  priority = pos 2;
}

abbrev review : DecomposedTask
review = record empty_task {
  task_id = codes "review";
  depends_on = codes "build" ∷ codes "plan" ∷ [];
  priority = pos 1;
}

abbrev given : List DecomposedTask
given = review ∷ build ∷ plan ∷ []

abbrev ordered : List DecomposedTask
ordered = plan ∷ build ∷ review ∷ []

given_sorted : topological_sort_tasks given ≡ some (sorted ordered)
unfolding topological_sort_tasks lookup degree_by_task insert text_beq codes contains task_map
given_sorted = refl

topological_sort_tasks-IsOrder_example : IsOrder given ordered
topological_sort_tasks-IsOrder_example = topological_sort_tasks-IsOrder given ordered given_sorted

ordered_first : IsOrder ordered ordered
unfolding contains codes text_beq
ordered_first = record {
  length_same = refl;
  only = λ t m. m;
  all = λ t m. m;
  first = (tt, refl, ((refl, tt), refl, ((refl, (refl, tt)), refl, tt)));
}

topological_sort_tasks_complete_example :
    (result : List DecomposedTask) × (topological_sort_tasks ordered ≡ some (sorted result))
topological_sort_tasks_complete_example =
    topological_sort_tasks_complete ordered ordered ordered_first

topological_sort_tasks_total_example : (r : SortResult) × (topological_sort_tasks given ≡ some r)
topological_sort_tasks_total_example = topological_sort_tasks_total given

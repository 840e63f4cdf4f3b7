-- ===== src/Agent/Order/Distinct.antt =====
-- Where topologicalSortTasks gives an order, the tasks have different ids.
use openclawssy.Base.{
  ◌≡◌, ◌≢◌, refl, sym, ap, ◌∙◌, true, false, ◌||◌, none, some, List, [], ◌∷◌, ◌++◌, Text, text_eq,
  ◌==◌, eq_iff, contains, Map, lookup, insert, lookup-insert, arith, ℤ, Bool-cases, Option-cases,
  inl, inr, NoRepeats,
}
use openclawssy.Agent.Order.{
  DecomposedTask, Sorting, ids_of, fill, visit, release, list_of, dependents_of, task_map, task_of,
  start_of, initial_queue, degree_by_task,
}
use openclawssy.Agent.Order.Queue.{contains-sort_by_priority}
use openclawssy.Agent.Order.Degrees.{occurrences, occurrences-dependents_of, needs-other}
use openclawssy.Agent.Order.Release.{contains-release_other}
use openclawssy.Agent.Order.Pending.{contains-ids_of_snoc, contains-initial_cons}

-- A map of tasks by their ids.
abbrev IsKeyed : Map Text DecomposedTask → Type 0
IsKeyed m = (x : Text) (u : DecomposedTask) → lookup x m ≡ some u → u.task_id ≡ x

nil-IsKeyed : IsKeyed []
unfolding lookup
nil-IsKeyed x u e = absurd (cc e)

fill-IsKeyed :
    (ts : List DecomposedTask) (m : Map Text DecomposedTask)
    → IsKeyed m
    → IsKeyed (fill (λ t. t) ts m)
unfolding fill
fill-IsKeyed [] m k = k
fill-IsKeyed (t ∷ ts) m k =
    fill-IsKeyed ts (insert t.task_id t m)
      λ x u e. ground (arith, k x u, lookup-insert t.task_id x t m, eq_iff t.task_id x, e)

fill-kept :
    (x : Text) (ts : List DecomposedTask) (m : Map Text DecomposedTask)
    → lookup x m ≢ none
    → lookup x (fill (λ t. t) ts m) ≢ none
unfolding fill
fill-kept x [] m n = n
fill-kept x (t ∷ ts) m n =
    fill-kept x ts (insert t.task_id t m) λ e. ground (arith, n, lookup-insert t.task_id x t m, e)

fill-found :
    (x : Text) (ts : List DecomposedTask) (m : Map Text DecomposedTask)
    → contains (ids_of ts) x ≡ true
    → lookup x (fill (λ t. t) ts m) ≢ none
unfolding fill contains
fill-found x [] m c = absurd (cc c)
fill-found x (t ∷ ts) m c = elim (Bool-cases (t.task_id == x)) [
  | inl hit ↦
      fill-kept x ts (insert t.task_id t m)
        λ e. ground (arith, lookup-insert t.task_id x t m, hit, e)
  | inr miss ↦ fill-found x ts (insert t.task_id t m) (ground (arith, c, miss))
]

task_of-id :
    (x : Text) (ts : List DecomposedTask)
    → contains (ids_of ts) x ≡ true
    → (task_of (task_map ts) x).task_id ≡ x
unfolding task_of task_map
task_of-id x ts c = elim (Option-cases (lookup x (task_map ts))) [
  | inl e ↦ absurd (fill-found x ts [] c e)
  | inr (u, e) ↦ rw (task_of, e) (fill-IsKeyed ts [] nil-IsKeyed x u e)
]

NoRepeats-snoc :
    (ts : List DecomposedTask) (u : DecomposedTask)
    → NoRepeats (ids_of ts)
    → contains (ids_of ts) u.task_id ≡ false
    → NoRepeats (ids_of (ts ++ u ∷ []))
unfolding contains
NoRepeats-snoc [] u n e = (refl, tt)
NoRepeats-snoc (t ∷ ts) u n e = (
  ground (
    arith,
    contains-ids_of_snoc ts u t.task_id,
    n.0,
    e,
    eq_iff u.task_id t.task_id,
    eq_iff t.task_id u.task_id,
  ),
  NoRepeats-snoc ts u n.1 (ground (arith, e)),
)

module _ (tasks : List DecomposedTask) where
  pub record Distinct (s : Sorting) : Type 0 where
    pub queued : (x : Text) → contains s.queue x ≡ true → contains (ids_of tasks) x ≡ true
    pub seen : (x : Text) → contains s.visited x ≡ contains (ids_of s.result) x
    pub within : (x : Text) → contains (ids_of s.result) x ≡ true → contains (ids_of tasks) x ≡ true
    pub once : NoRepeats (ids_of s.result)

  released :
      (id x : Text) (degrees : Map Text ℤ) (q : List Text)
      → contains (ids_of tasks) x ≡ false
      → contains (release (list_of (dependents_of tasks []) id) degrees q).1 x ≡ contains q x
  unfolding occurrences list_of lookup
  released id x degrees q n =
      contains-release_other x (list_of (dependents_of tasks []) id) degrees q
        (occurrences-dependents_of x id tasks [] ∙ omega (arith, needs-other x id tasks n))

  pub visit-Distinct :
      (id : Text) (queue : List Text) (s : Sorting)
      → s.queue ≡ id ∷ queue
      → Distinct s
      → Distinct (visit (task_map tasks) (dependents_of tasks []) id (record s { queue = queue }))
  unfolding visit contains
  visit-Distinct id queue s e inv =
      let c : (x : Text) → contains s.queue x ≡ (id == x || contains queue x) =
        λ x. ap (λ q. contains q x) e in
      elim (Bool-cases (contains s.visited id)) [
        | inl again ↦
            rw (visit, again)
              (record {
                queued = λ x h. inv.queued x (ground (arith, c x, h));
                seen = inv.seen;
                within = inv.within;
                once = inv.once;
              })
        | inr new ↦
            let u = task_of (task_map tasks) id in
            let i : u.task_id ≡ id =
              task_of-id id tasks (inv.queued id (ground (arith, c id, eq_iff id id))) in
            let q' = (release (list_of (dependents_of tasks []) id) s.degrees queue).1 in
            rw (visit, new)
              (record {
                queued = λ x h. ground (
                  arith,
                  contains-sort_by_priority (task_map tasks) q' x,
                  released id x s.degrees queue,
                  inv.queued x,
                  c x,
                  h,
                );
                seen = λ x.
                    ground
                      (arith, contains-ids_of_snoc s.result u x, inv.seen x, ap (λ y. y == x) i);
                within = λ x h. ground (
                  arith,
                  contains-ids_of_snoc s.result u x,
                  inv.within x,
                  ap (λ y. y == x) i,
                  h,
                  eq_iff id x,
                  inv.queued x,
                  c x,
                );
                once =
                    NoRepeats-snoc s.result u inv.once
                      (sym (inv.seen u.task_id) ∙ ap (contains s.visited) i ∙ new);
              })
      ]

  contains-initial :
      (x : Text) (ts : List DecomposedTask)
      → contains (initial_queue ts (degree_by_task tasks)) x ≡ true
      → contains (ids_of ts) x ≡ true
  unfolding contains initial_queue
  contains-initial x [] e = cc e
  contains-initial x (t ∷ ts) e =
      ground (arith, contains-initial_cons x t ts (degree_by_task tasks), contains-initial x ts, e)

  pub start-Distinct : Distinct (start_of tasks)
  unfolding contains
  start-Distinct = record {
    queued = λ x h. contains-initial x tasks (
        sym (
          contains-sort_by_priority (task_map tasks) (initial_queue tasks (degree_by_task tasks)) x)
        ∙ h);
    seen = λ x. refl;
    within = λ x h. absurd (cc h);
    once = tt;
  }

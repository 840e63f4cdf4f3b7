-- ===== src/Agent/Order/Invariant.antt =====
-- What the loop of topologicalSortTasks keeps, for tasks with different ids.
use mathlib.Core.List.{Memᴰ}
use openclawssy.Base.{
  ◌+◌, ◌≡◌, refl, sym, ap, subst, ◌∙◌, true, false, ◌||◌, ◌&&◌, List, [], ◌∷◌, length, Text,
  text_eq, ◌==◌, eq_iff, contains, lookup, arith, pos, Bool-cases, inl, inr, nat_beq, leb,
  NoRepeats, All-map,
}
use openclawssy.Agent.Order.{
  DecomposedTask, Sorting, ids_of, visit, release, list_of, dependents_of, task_map, initial_queue,
  degree_by_task, degree_of, task_of, is_zero, start_of,
}
use openclawssy.Agent.Order.Queue.{contains-sort_by_priority}
use openclawssy.Agent.Order.Degrees.{
  occurrences, lookup-fill, occurrences-dependents_of, needs, needs-own, needs-other,
}
use openclawssy.Agent.Order.Release.{degree_of-release, contains-release, contains-release_other}
use openclawssy.Agent.Order.Pending.{
  pending, pending-visit, pending_nil, pending-All, DepsFirst, DepsFirst-snoc, ids_of-Mem,
  contains-ids_of_snoc, Mem-snoc, initial_queue-Mem, contains-initial_queue, pos_zero,
}

module _ (tasks : List DecomposedTask) (unique : NoRepeats (ids_of tasks)) where
  pub record Inv (s : Sorting) : Type 0 where
    pub degrees :
        (u : DecomposedTask)
        → Memᴰ u tasks
        → degree_of s.degrees u.task_id ≡ pos (pending s.visited u.depends_on)
    pub queued :
        (x : Text)
        → contains s.queue x ≡ true
        → (u : DecomposedTask) × Memᴰ u tasks
          × (u.task_id ≡ x)
          × (pending s.visited u.depends_on ≡ 0)
    pub ready :
        (u : DecomposedTask)
        → Memᴰ u tasks
        → pending s.visited u.depends_on ≡ 0
        → (contains s.queue u.task_id || contains s.visited u.task_id) ≡ true
    pub seen : (x : Text) → contains s.visited x ≡ contains (ids_of s.result) x
    pub members : (r : DecomposedTask) → Memᴰ r s.result → Memᴰ r tasks
    pub order : DepsFirst [] s.result

  abbrev D : Text → List Text
  D id = list_of (dependents_of tasks []) id

  occurrences-D : (id x : Text) → occurrences x (D id) ≡ needs x id tasks
  unfolding occurrences list_of lookup
  occurrences-D id x = occurrences-dependents_of x id tasks [] ∙ omega arith

  own-D :
      (id : Text) (u : DecomposedTask)
      → Memᴰ u tasks
      → occurrences u.task_id (D id) ≡ occurrences id u.depends_on
  own-D id u m = occurrences-D id u.task_id ∙ needs-own id tasks u unique m

  task_of-own : (u : DecomposedTask) → Memᴰ u tasks → task_of (task_map tasks) u.task_id ≡ u
  unfolding task_of task_map
  task_of-own u m = rw (task_of, lookup-fill (λ t. t) tasks [] u unique m) refl

  module _ (id : Text) (s : Sorting) (new : contains s.visited id ≡ false) (inv : Inv s) where
    fewer :
        (u : DecomposedTask)
        → pending (id ∷ s.visited) u.depends_on + occurrences id u.depends_on
          ≡ pending s.visited u.depends_on
    fewer u = pending-visit id s.visited u.depends_on new

    -- The degree of a task that is released, before and after.
    degrees-visit :
        (q : List Text) (u : DecomposedTask)
        → Memᴰ u tasks
        → degree_of (release (D id) s.degrees q).0 u.task_id
          ≡ pos (pending (id ∷ s.visited) u.depends_on)
    degrees-visit q u m =
        degree_of-release u.task_id (pending s.visited u.depends_on) (D id) s.degrees q
          (inv.degrees u m) (omega (arith, own-D id u m, fewer u))
        ∙ ap pos (omega (arith, own-D id u m, fewer u))

    contains-visit :
        (q : List Text) (u : DecomposedTask)
        → Memᴰ u tasks
        → contains (release (D id) s.degrees q).1 u.task_id ≡ (
            contains q u.task_id
            || (leb 1 (occurrences id u.depends_on)
                && nat_beq (pending (id ∷ s.visited) u.depends_on) 0))
    contains-visit q u m =
        contains-release u.task_id (pending s.visited u.depends_on) (D id) s.degrees q
          (inv.degrees u m) (omega (arith, own-D id u m, fewer u))
        ∙ ground (arith, own-D id u m, fewer u)

    queued-visit :
        (q : List Text) (x : Text)
        → ((y : Text) → contains q y ≡ true → contains s.queue y ≡ true)
        → contains (release (D id) s.degrees q).1 x ≡ true
        → (u : DecomposedTask) × Memᴰ u tasks
          × (u.task_id ≡ x)
          × (pending (id ∷ s.visited) u.depends_on ≡ 0)
    queued-visit q x sub e =
        let old : contains q x ≡ true
            → (u : DecomposedTask) × Memᴰ u tasks
              × (u.task_id ≡ x)
              × (pending (id ∷ s.visited) u.depends_on ≡ 0) =
          λ c. let (u, m, i, z) = inv.queued x (sub x c) in (u, m, i, omega (arith, z, fewer u)) in
        elim (Bool-cases (contains (ids_of tasks) x)) [
          | inr none_such ↦ old (
              sym (
                contains-release_other x (D id) s.degrees q
                  (occurrences-D id x ∙ needs-other x id tasks none_such))
              ∙ e)
          | inl some_task ↦
              let (u, m, i) = ids_of-Mem x tasks some_task in
              elim (Bool-cases (contains q x)) [
                | inl there ↦ old there
                | inr fresh ↦ (
                  u,
                  m,
                  i,
                  ground (
                    arith,
                    contains-visit q u m,
                    ap (λ y. contains (release (D id) s.degrees q).1 y) i,
                    ap (contains q) i,
                    e,
                    fresh,
                  ),
                )
              ]
        ]

  -- A visit keeps the invariant.
  pub visit-Inv :
      (id : Text) (queue : List Text) (s : Sorting)
      → s.queue ≡ id ∷ queue
      → Inv s
      → Inv (visit (task_map tasks) (dependents_of tasks []) id (record s { queue = queue }))
  unfolding visit contains
  visit-Inv id queue s e inv = elim (Bool-cases (contains s.visited id)) [
    | inl again ↦
        rw (visit, again)
          (record {
            degrees = inv.degrees;
            queued = λ x c. inv.queued x (ground (arith, c, ap (λ q. contains q x) e));
            ready = λ u m z. ground (
              arith,
              again,
              inv.ready u m z,
              ap (λ q. contains q u.task_id) e,
              eq_iff id u.task_id,
            );
            seen = inv.seen;
            members = inv.members;
            order = inv.order;
          })
    | inr new ↦
        let c : (x : Text) → contains s.queue x ≡ (id == x || contains queue x) =
          λ x. ap (λ q. contains q x) e in
        let (u, m, i, z) = inv.queued id (ground (arith, c id, eq_iff id id)) in
        let t : task_of (task_map tasks) id ≡ u =
          ap (task_of (task_map tasks)) (sym i) ∙ task_of-own u m in
        let q' = (release (D id) s.degrees queue).1 in
        rw (visit, new, t)
          (record {
            degrees = degrees-visit id s new inv queue;
            queued = λ x h.
                queued-visit id s new inv queue x (λ y k. ground (arith, c y, k))
                  (sym (contains-sort_by_priority (task_map tasks) q' x) ∙ h);
            ready = λ w n h. ground (
              arith,
              contains-sort_by_priority (task_map tasks) q' w.task_id,
              contains-visit id s new inv queue w n,
              fewer id s new inv w,
              inv.ready w n,
              c w.task_id,
              eq_iff id w.task_id,
              h,
            );
            seen = λ x.
                ground (arith, contains-ids_of_snoc s.result u x, inv.seen x, ap (λ y. y == x) i);
            members = λ r h. elim (Mem-snoc r s.result u h) [
              | inl old ↦ inv.members r old
              | inr same ↦ subst (λ v. Memᴰ v tasks) (sym same) m
            ];
            order =
                DepsFirst-snoc [] s.result u inv.order
                  (All-map (λ d. contains s.visited d ≡ true)
                    (λ d. contains (ids_of s.result) d ≡ true) u.depends_on
                    (λ d h. sym (inv.seen d) ∙ h) (pending-All s.visited u.depends_on z))
                  (sym (inv.seen u.task_id) ∙ ap (contains s.visited) i ∙ new);
          })
  ]

  degree_of-start :
      (u : DecomposedTask)
      → Memᴰ u tasks
      → degree_of (degree_by_task tasks) u.task_id ≡ pos (pending [] u.depends_on)
  unfolding degree_of degree_by_task
  degree_of-start u m =
      rw (degree_of, lookup-fill (λ t. pos (length t.depends_on)) tasks [] u unique m)
        (ap pos (sym (pending_nil u.depends_on)))

  pub start-Inv : Inv (start_of tasks)
  unfolding contains
  start-Inv =
      let sorted_queue : (x : Text)
          → contains (start_of tasks).queue x
            ≡ contains (initial_queue tasks (degree_by_task tasks)) x =
        contains-sort_by_priority (task_map tasks) (initial_queue tasks (degree_by_task tasks)) in
      record {
        degrees = degree_of-start;
        queued = λ x c.
            let (u, m, i, z) =
              initial_queue-Mem x tasks (degree_by_task tasks) (sym (sorted_queue x) ∙ c) in
            (
              u,
              m,
              i,
              pos_zero (pending [] u.depends_on) (ap is_zero (sym (degree_of-start u m)) ∙ z),
            );
        ready = λ u m z. ground (
          arith,
          sorted_queue u.task_id,
          contains-initial_queue u tasks (degree_by_task tasks) m
              (ap is_zero (degree_of-start u m ∙ ap pos z)),
        );
        seen = λ x. refl;
        members = λ r h. elim h [ ];
        order = tt;
      }

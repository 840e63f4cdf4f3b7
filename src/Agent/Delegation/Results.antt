-- ===== src/Agent/Delegation/Results.antt =====
-- Every task of a delegation gets a result, and none is given to a sub-agent before the tasks that it
-- depends on have succeeded.
use mathlib.Core.List.{append_assoc}
use openclawssy.Base.{
  ℕ, zero, suc, ◌≤◌, ◌≡◌, ◌≢◌, refl, sym, ap, ◌∙◌, false, none, some, List, [], ◌∷◌, ◌++◌, length,
  Text, text_eq, ◌==◌, eq_iff, Map, lookup, insert, lookup-insert, arith, Bool-cases, Option-cases,
  inl, inr, All, ltb, trim, codes,
}
use openclawssy.Agent.Order.{DecomposedTask}
use openclawssy.Agent.Delegation.{
  Env, Delegation, missing, failed, satisfied, check_dependencies, attempt, task_succeeded,
  task_failed, record_delegation_event, has_succeeded, failure_reason, is_failed_subtask_result,
  SubAgentOutput,
}

-- The result of a task that succeeded.
abbrev pub Succeeded : Map Text Text → Text → Type 0
Succeeded completed id =
    (result : Text) × (lookup id completed ≡ some result)
    × (is_failed_subtask_result result ≡ false)

-- What an attempt changes in the results: only that of the task, which has one afterwards.
pub record Settled (task : DecomposedTask) (given : DecomposedTask) (more : ℕ) (s t : Delegation)
    : Type 0 where
  pub own : lookup task.task_id t.completed ≢ none
  pub others :
      (id : Text) → (task.task_id == id) ≡ false → lookup id t.completed ≡ lookup id s.completed
  pub asked :
      (extra : List DecomposedTask) × (t.executed ≡ s.executed ++ extra)
      × (length extra ≤ suc more)
      × All (λ g. g ≡ given) extra

pub own_result : (id text : Text) (m : Map Text Text) → lookup id (insert id text m) ≢ none
own_result id text m e = ground (arith, e, lookup-insert id id text m, eq_iff id id)

pub other_result :
    (id j text : Text) (m : Map Text Text)
    → (id == j) ≡ false
    → lookup j (insert id text m) ≡ lookup j m
other_result id j text m n = ground (arith, n, lookup-insert id j text m)

module _ (env : Env) (task given : DecomposedTask) where
  succeeded_first :
      (output : SubAgentOutput) (s : Delegation)
      → Settled task given 0 s
          (task_succeeded env task output (record s { executed = s.executed ++ given ∷ [] }))
  unfolding task_succeeded record_delegation_event
  succeeded_first output s = record {
    own = own_result task.task_id output.final_text s.completed;
    others = λ id n. other_result task.task_id id output.final_text s.completed n;
    asked = (given ∷ [], refl, omega arith, (refl, tt));
  }

  failed_last :
      (output : SubAgentOutput) (reason : Text) (s : Delegation)
      → Settled task given 0 s
          (task_failed env task output reason (record s { executed = s.executed ++ given ∷ [] }))
  unfolding task_failed record_delegation_event
  failed_last output reason s = elim (Bool-cases (ltb task.routing_confidence 50)) [
    | inl low ↦
        rw (task_failed, low)
          (record {
            own = own_result task.task_id _ s.completed;
            others = λ id n. other_result task.task_id id _ s.completed n;
            asked = (given ∷ [], refl, omega arith, (refl, tt));
          })
    | inr high ↦
        rw (task_failed, high)
          (record {
            own = own_result task.task_id _ s.completed;
            others = λ id n. other_result task.task_id id _ s.completed n;
            asked = (given ∷ [], refl, omega arith, (refl, tt));
          })
  ]

  more_asked : (n : ℕ) (s t : Delegation) → Settled task given 0 s t → Settled task given n s t
  more_asked n s t h =
      let (extra, e, l, a) = h.asked in
      record { own = h.own; others = h.others; asked = (extra, e, omega (arith, l), a) }

  retry_completed :
      (output : SubAgentOutput) (s : Delegation)
      → (record_delegation_event env task output
          (trim task.routing_rationale)
          (codes "retry_same_role")
          (record s { executed = s.executed ++ given ∷ [] })).completed
        ≡ s.completed
  unfolding record_delegation_event
  retry_completed output s = refl

  retry_executed :
      (output : SubAgentOutput) (s : Delegation)
      → (record_delegation_event env task output
          (trim task.routing_rationale)
          (codes "retry_same_role")
          (record s { executed = s.executed ++ given ∷ [] })).executed
        ≡ s.executed ++ given ∷ []
  unfolding record_delegation_event
  retry_executed output s = refl

  retried :
      (more : ℕ) (s s' t : Delegation)
      → s'.completed ≡ s.completed
      → s'.executed ≡ s.executed ++ given ∷ []
      → Settled task given more s' t
      → Settled task given (suc more) s t
  retried more s s' t c x h =
      let (extra, e, l, a) = h.asked in
      record {
        own = h.own;
        others = λ id n. h.others id n ∙ ap (lookup id) c;
        asked = (
          given ∷ extra,
          e ∙ ap (λ xs. xs ++ extra) x ∙ append_assoc s.executed (given ∷ []) extra,
          omega (arith, l),
          (refl, a),
        );
      }

  pub attempt-Settled :
      (more : ℕ) (s : Delegation) → Settled task given more s (attempt env more task given s)
  unfolding attempt
  attempt-Settled zero s =
      let (output, error) = env.execute_sub_agent s.executed given in
      elim (Bool-cases (has_succeeded output error)) [
        | inl ok ↦ rw (attempt, ok) (succeeded_first output s)
        | inr bad ↦ rw (attempt, bad) (failed_last output (failure_reason output error) s)
      ]
  attempt-Settled (suc more) s =
      let (output, error) = env.execute_sub_agent s.executed given in
      let s' : Delegation =
        record_delegation_event env task output (trim task.routing_rationale)
          (codes "retry_same_role") (record s { executed = s.executed ++ given ∷ [] }) in
      elim (Bool-cases (has_succeeded output error)) [
        | inl ok ↦
            rw (attempt, ok)
              (more_asked (suc more) s
                (task_succeeded env task output (record s { executed = s.executed ++ given ∷ [] }))
                (succeeded_first output s))
        | inr bad ↦
            rw (attempt, bad)
              (retried more s s' (attempt env more task given s') (retry_completed output s)
                (retry_executed output s) (attempt-Settled more s'))
      ]

-- The results that were there before a task, and those that the tasks so far have.
abbrev pub HasResult : Map Text Text → Text → Type 0
HasResult completed id = lookup id completed ≢ none

missing_satisfied : (d : Text) → missing d ≢ satisfied
missing_satisfied d e = cc e

failed_satisfied : (d : Text) → failed d ≢ satisfied
failed_satisfied d e = cc e

failed_missing : (d d' : Text) → failed d ≢ missing d'
failed_missing d d' e = cc e

pub check_dependencies-All :
    (completed : Map Text Text) (deps : List Text)
    → check_dependencies completed deps ≡ satisfied
    → All (Succeeded completed) deps
unfolding check_dependencies
check_dependencies-All completed [] e = tt
check_dependencies-All completed (dep ∷ deps) e = elim (Option-cases (lookup dep completed)) [
  | inl n ↦ absurd (missing_satisfied dep (sym (rw (check_dependencies, n) refl) ∙ e))
  | inr (result, r) ↦ elim (Bool-cases (is_failed_subtask_result result)) [
    | inl bad ↦ absurd (failed_satisfied dep (sym (rw (check_dependencies, r, bad) refl) ∙ e))
    | inr fine ↦ (
      (result, r, fine),
      check_dependencies-All completed deps (sym (rw (check_dependencies, r, fine) refl) ∙ e),
    )
  ]
]

pub check_dependencies-found :
    (completed : Map Text Text) (deps : List Text) (d : Text)
    → All (HasResult completed) deps
    → check_dependencies completed deps ≢ missing d
unfolding check_dependencies
check_dependencies-found completed [] d h e = cc e
check_dependencies-found completed (dep ∷ deps) d h e = elim (Option-cases (lookup dep completed)) [
  | inl n ↦ h.0 n
  | inr (result, r) ↦ elim (Bool-cases (is_failed_subtask_result result)) [
    | inl bad ↦ failed_missing dep d (sym (rw (check_dependencies, r, bad) refl) ∙ e)
    | inr fine ↦
        check_dependencies-found completed deps d h.1
          (sym (rw (check_dependencies, r, fine) refl) ∙ e)
  ]
]

-- ===== src/Agent/Complexity/Rising.antt =====
-- A run that is worse off is never scored lower.
use openclawssy.Base.{
  ℕ, ◌≤◌, ◌≡◌, refl, Bool, true, false, ◌&&◌, ◌||◌, Option, none, some, [], ◌∷◌, Text, Map,
  if◌then◌else◌, ltb, leb, arith, not,
}
use openclawssy.Agent.Complexity.{
  RunState, failure_part, progress_part, blocked_part, loop_part, context_part, iteration_part,
  level_of, compute_complexity, DelegationTrigger, should_trigger_delegation,
}

-- Some call was repeated twice or more.
unfoldable pub has_repetition : Map Text ℕ → Bool
has_repetition [] = false
has_repetition ((key, count) ∷ rest) = leb 2 count || has_repetition rest

loop_part-score : (m : Map Text ℕ) → (loop_part m).0 ≡ (if has_repetition m then 2 else 0)
unfolding loop_part has_repetition
loop_part-score [] = refl
loop_part-score ((key, count) ∷ rest) = ground (arith, loop_part-score rest)

-- The second state has every counter of the first, or more.
pub record IsWorse (state state' : RunState) : Type 0 where
  pub failures : state.consecutive_tool_failures ≤ state'.consecutive_tool_failures
  pub idle : state.no_progress_iterations ≤ state'.no_progress_iterations
  pub blocked : state.all_blocked_iterations ≤ state'.all_blocked_iterations
  pub repeats :
      has_repetition state.repetition_prevention ≡ true
      → has_repetition state'.repetition_prevention ≡ true
  pub iterations : state.tool_iterations ≤ state'.tool_iterations

failure_part-rises : (m n : ℕ) → m ≤ n → (failure_part m).0 ≤ (failure_part n).0
unfolding failure_part
failure_part-rises m n h = ground arith

progress_part-rises : (m n : ℕ) → m ≤ n → (progress_part m).0 ≤ (progress_part n).0
unfolding progress_part
progress_part-rises m n h = ground arith

blocked_part-rises : (m n : ℕ) → m ≤ n → (blocked_part m).0 ≤ (blocked_part n).0
unfolding blocked_part
blocked_part-rises m n h = ground arith

iteration_part-rises : (m n : ℕ) → m ≤ n → (iteration_part m).0 ≤ (iteration_part n).0
unfolding iteration_part
iteration_part-rises m n h = ground arith

context_part-rises : (m n w : ℕ) → m ≤ n → (context_part m w).0 ≤ (context_part n w).0
unfolding context_part
context_part-rises m n w h = ground arith

level_of-rises : (b b' t t' : ℕ) → b ≤ b' → t ≤ t' → level_of b t ≤ level_of b' t'
unfolding level_of
level_of-rises b b' t t' h k = ground arith

-- If no counter and no token count falls, neither the total score nor the level of the run falls.
pub compute_complexity-rises :
    (state state' : RunState) (tokens tokens' window : ℕ)
    → IsWorse state state'
    → tokens ≤ tokens'
    → ((compute_complexity state tokens window).total_score
        ≤ (compute_complexity state' tokens' window).total_score)
      × ((compute_complexity state tokens window).level
          ≤ (compute_complexity state' tokens' window).level)
unfolding compute_complexity
compute_complexity-rises state state' tokens tokens' window w t =
    let failures = failure_part-rises _ _ w.failures in
    let idle = progress_part-rises _ _ w.idle in
    let blocked = blocked_part-rises _ _ w.blocked in
    let iterations = iteration_part-rises _ _ w.iterations in
    let context = context_part-rises tokens tokens' window t in
    let looped : (loop_part state.repetition_prevention).0
        ≤ (loop_part state'.repetition_prevention).0 =
      ground (
        arith,
        w.repeats,
        loop_part-score state.repetition_prevention,
        loop_part-score state'.repetition_prevention,
      ) in
    (omega arith, level_of-rises _ _ _ _ blocked (omega arith))

level_of-bound : (b t : ℕ) → level_of b t ≤ 3
unfolding level_of
level_of-bound b t = ground arith

pub triggered : Option DelegationTrigger → Bool
triggered none = false
triggered (some trigger) = true

-- A delegation is triggered exactly at a level above low, unless the model asked the user and the
-- level is not critical: at the critical level it is triggered even then.
pub should_trigger_delegation-triggered :
    (state : RunState) (tokens window : ℕ) (asked : Bool)
    → let score = compute_complexity state tokens window in
      triggered (should_trigger_delegation score asked)
      ≡ (ltb 0 score.level && (not asked || leb 3 score.level))
unfolding should_trigger_delegation triggered compute_complexity
should_trigger_delegation-triggered state tokens window asked = ground (
  arith,
  level_of-bound (blocked_part state.all_blocked_iterations).0
      (compute_complexity state tokens window).total_score,
)

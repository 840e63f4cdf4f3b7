-- ===== src/Agent/Complexity.antt =====
-- internal/agent/complexity.go: the score of a run that is stuck, and the delegation that follows.
pub mod Rising
mod Samples
use openclawssy.Base.{
  ℕ, zero, suc, ◌+◌, ◌*◌, Bool, true, false, ◌&&◌, ◌||◌, Option, none, some, List, [], ◌∷◌, ◌++◌,
  Text, codes, Map, if◌then◌else◌, ltb, leb, to_lower, contains_text, ◌==◌, nat_eq,
}

-- The fields of runState that the score reads.
pub record RunState : Type 0 where
  pub consecutive_tool_failures : ℕ
  pub no_progress_iterations : ℕ
  pub all_blocked_iterations : ℕ
  pub repetition_prevention : Map Text ℕ
  pub tool_iterations : ℕ

pub record ComplexityScore : Type 0 where
  pub level : ℕ
  pub total_score : ℕ
  pub iteration_score : ℕ
  pub progress_score : ℕ
  pub failure_score : ℕ
  pub blocked_score : ℕ
  pub loop_score : ℕ
  pub context_score : ℕ
  pub triggers : List Text

-- Each part of the score, with what it appends to the triggers.
unfoldable pub failure_part : ℕ → ℕ × List Text
failure_part failures =
    if leb 3 failures
    then (3, codes "failures>=3" ∷ [])
    else if leb 2 failures
    then (2, codes "failures>=2" ∷ [])
    else (0, [])

unfoldable pub progress_part : ℕ → ℕ × List Text
progress_part idle = if leb 2 idle then (2, codes "no_progress>=2" ∷ []) else (0, [])

unfoldable pub blocked_part : ℕ → ℕ × List Text
blocked_part blocked = if leb 1 blocked then (3, codes "all_blocked>=1" ∷ []) else (0, [])

-- The loop over the map, which stops at the first entry that it counts.
unfoldable pub loop_part : Map Text ℕ → ℕ × List Text
loop_part [] = (0, [])
loop_part ((key, count) ∷ rest) =
    let later = loop_part rest in
    if leb 2 count then (2, (codes "repetition:" ++ key) ∷ []) else later

-- The ratio of two token counts, compared without rounding: p / w >= 0.92 as 92 w <= 100 p. For
-- counts below 2^45 this is what the division of float64 gives.
unfoldable pub context_part : ℕ → ℕ → ℕ × List Text
context_part prompt_tokens context_window =
    if ltb 0 context_window
    then if leb (92 * context_window) (100 * prompt_tokens)
      then (3, codes "context>92%" ∷ [])
      else if leb (85 * context_window) (100 * prompt_tokens)
      then (2, codes "context>85%" ∷ [])
      else if leb (75 * context_window) (100 * prompt_tokens)
      then (1, codes "context>75%" ∷ [])
      else (0, [])
    else (0, [])

unfoldable pub iteration_part : ℕ → ℕ × List Text
iteration_part iterations =
    if leb 120 iterations
    then (3, codes "iterations>=120" ∷ [])
    else if leb 80 iterations
    then (2, codes "iterations>=80" ∷ [])
    else if leb 40 iterations
    then (1, codes "iterations>=40" ∷ [])
    else (0, [])

-- 0 low, 1 moderate, 2 high, 3 critical.
unfoldable pub level_of : ℕ → ℕ → ℕ
level_of blocked total =
    if leb 3 blocked && leb 4 total
    then 3
    else if leb 6 total
    then 3
    else if leb 4 total || leb 3 blocked
    then 2
    else if leb 2 total
    then 1
    else 0

unfoldable pub compute_complexity : RunState → ℕ → ℕ → ComplexityScore
unfolding failure_part progress_part blocked_part loop_part context_part iteration_part level_of
compute_complexity state prompt_tokens context_window =
    let (failure, t1) = failure_part state.consecutive_tool_failures in
    let (progress, t2) = progress_part state.no_progress_iterations in
    let (blocked, t3) = blocked_part state.all_blocked_iterations in
    let (looped, t4) = loop_part state.repetition_prevention in
    let (context, t5) = context_part prompt_tokens context_window in
    let (iteration, t6) = iteration_part state.tool_iterations in
    let total = failure + progress + blocked + looped + context + iteration in
    record {
      level = level_of blocked total;
      total_score = total;
      iteration_score = iteration;
      progress_score = progress;
      failure_score = failure;
      blocked_score = blocked;
      loop_score = looped;
      context_score = context;
      triggers = t1 ++ (t2 ++ (t3 ++ (t4 ++ (t5 ++ t6))));
    }

pub data DelegationMode : Type 0 where
  prompt_only tool_gated auto_execute : DelegationMode

-- `triggers` is joined by commas in the field Reason.
pub record DelegationTrigger : Type 0 where
  pub mode : DelegationMode
  pub triggers : List Text
  pub allowed_tools : List Text
  pub cooldown_for : ℕ

unfoldable pub should_trigger_delegation : ComplexityScore → Bool → Option DelegationTrigger
should_trigger_delegation score asked_user_question =
    if asked_user_question && ltb score.level 3
    then none
    else if score.level == 3
    then some (record {
      mode = auto_execute;
      triggers = score.triggers;
      allowed_tools = codes "agent.list" ∷ codes "agent.run" ∷ [];
      cooldown_for = 20;
    })
    else if score.level == 2
    then some (record {
      mode = tool_gated;
      triggers = score.triggers;
      allowed_tools = codes "agent.list" ∷ codes "agent.run" ∷ [];
      cooldown_for = 15;
    })
    else if score.level == 1
    then some (record {
      mode = prompt_only;
      triggers = score.triggers;
      allowed_tools = [];
      cooldown_for = 10;
    })
    else none

unfoldable pub question_indicators : List Text
question_indicators =
    codes "which option"
    ∷ codes "do you want"
    ∷ codes "should i"
    ∷ codes "would you prefer"
    ∷ codes "please confirm"
    ∷ codes "please provide"
    ∷ codes "what is your"
    ∷ codes "can you clarify"
    ∷ codes "i need more information"
    ∷ codes "unable to proceed without"
    ∷ []

any_indicator : Text → List Text → Bool
any_indicator lower [] = false
any_indicator lower (i ∷ is) = contains_text lower i || any_indicator lower is

unfoldable pub detect_user_question : Text → Bool
unfolding any_indicator
detect_user_question output = any_indicator (to_lower output) question_indicators

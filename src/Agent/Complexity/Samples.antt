-- ===== src/Agent/Complexity/Samples.antt =====
-- The score of a run that is stuck, at concrete counters.
use openclawssy.Base.{◌≤◌, ◌≡◌, refl, true, ◌&&◌, ◌||◌, not, [], ◌∷◌, codes, ltb, leb, arith}
use openclawssy.Agent.Complexity.{
  RunState, compute_complexity, should_trigger_delegation, level_of, failure_part, progress_part,
  blocked_part, loop_part, context_part, iteration_part,
}
use openclawssy.Agent.Complexity.Rising.{
  IsWorse, has_repetition, compute_complexity-rises, triggered, should_trigger_delegation-triggered,
}

abbrev stuck : RunState
stuck = record {
  consecutive_tool_failures = 2;
  no_progress_iterations = 1;
  all_blocked_iterations = 0;
  repetition_prevention = (codes "fs.read", 1) ∷ [];
  tool_iterations = 30;
}

abbrev blocked : RunState
blocked = record stuck {
  all_blocked_iterations = 1;
  repetition_prevention = (codes "fs.read", 2) ∷ [];
  tool_iterations = 45;
}

critical : (compute_complexity blocked 80_000 100_000).level ≡ 3
unfolding compute_complexity level_of failure_part progress_part blocked_part loop_part context_part
    iteration_part
critical = refl

repeated : has_repetition blocked.repetition_prevention ≡ true
unfolding has_repetition
repeated = refl

blocked-IsWorse : IsWorse stuck blocked
blocked-IsWorse = record {
  failures = omega arith;
  idle = omega arith;
  blocked = omega arith;
  repeats = λ r. repeated;
  iterations = omega arith;
}

compute_complexity-rises_example :
    ((compute_complexity stuck 10 100).total_score
      ≤ (compute_complexity blocked 80 100).total_score)
    × ((compute_complexity stuck 10 100).level ≤ (compute_complexity blocked 80 100).level)
compute_complexity-rises_example =
    compute_complexity-rises stuck blocked 10 80 100 blocked-IsWorse (omega arith)

should_trigger_delegation-triggered_example :
    triggered (should_trigger_delegation (compute_complexity blocked 80 100) true) ≡ (
      ltb 0 (compute_complexity blocked 80 100).level
      && (not true || leb 3 (compute_complexity blocked 80 100).level))
should_trigger_delegation-triggered_example =
    should_trigger_delegation-triggered blocked 80 100 true

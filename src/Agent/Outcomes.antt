-- ===== src/Agent/Outcomes.antt =====
-- internal/agent/run_state.go: how a run counts the outcomes of its tool calls.
pub mod Recovery
mod Samples
use openclawssy.Base.{
  ℕ, zero, suc, ◌+◌, Bool, true, false, not, ◌&&◌, ◌||◌, Option, none, some, List, [], ◌∷◌, Text,
  codes, text_eq, ◌==◌, trim, to_lower, contains_text, if◌then◌else◌, leb, Map, lookup, insert,
}

-- The fields of runState that count outcomes.
pub record Outcomes : Type 0 where
  pub consecutive_tool_failures : ℕ
  pub failure_recovery_active : Bool
  pub failures_since_recovery : ℕ
  pub successes_since_recovery : ℕ
  pub structural_blocker_counts : Map Text ℕ

abbrev pub new_outcomes : Outcomes
new_outcomes = record {
  consecutive_tool_failures = 0;
  failure_recovery_active = false;
  failures_since_recovery = 0;
  successes_since_recovery = 0;
  structural_blocker_counts = [];
}

abbrev pub failure_recovery_trigger : ℕ
failure_recovery_trigger = 2

abbrev pub structural_blocker_cap : ℕ
structural_blocker_cap = 3

unfoldable pub structural_blocker_category : Text → Text
structural_blocker_category err_text =
    let lower = to_lower err_text in
    if contains_text lower (codes "write parent does not exist")
    then codes "missing_parent_directory"
    else if contains_text lower (codes "no existing ancestor")
    then codes "missing_parent_directory"
    else if contains_text lower (codes "capability denied")
    then codes "capability_denied"
    else if contains_text lower (codes "outside workspace")
    then codes "outside_workspace"
    else if contains_text lower (codes "protected control-plane path")
    then codes "protected_path"
    else []

-- A missing key of a Go map of numbers reads as 0.
unfoldable pub raised : Text → Map Text ℕ → Map Text ℕ
raised category counts = elim (lookup category counts) [
  | none ↦ insert category 1 counts
  | some n ↦ insert category (suc n) counts
]

unfoldable pub note_success : Outcomes → Outcomes
note_success s =
    if not s.failure_recovery_active
    then record s { consecutive_tool_failures = 0 }
    else if leb 3 (suc s.successes_since_recovery)
    then record s {
      consecutive_tool_failures = 0;
      failure_recovery_active = false;
      failures_since_recovery = 0;
      successes_since_recovery = 0;
    }
    else record s {
      consecutive_tool_failures = 0;
      successes_since_recovery = suc s.successes_since_recovery;
    }

unfoldable pub note_failure : Text → Outcomes → Outcomes
unfolding structural_blocker_category raised
note_failure trimmed s =
    let category = structural_blocker_category trimmed in
    let counts =
      if category == []
      then s.structural_blocker_counts
      else raised category s.structural_blocker_counts in
    let failures = suc s.consecutive_tool_failures in
    let s' : Outcomes = record s {
      consecutive_tool_failures = failures;
      successes_since_recovery = 0;
      structural_blocker_counts = counts;
    } in
    if not s.failure_recovery_active && leb failure_recovery_trigger failures
    then record s' { failure_recovery_active = true; failures_since_recovery = 0 }
    else if s.failure_recovery_active
    then record s' { failures_since_recovery = suc s.failures_since_recovery }
    else s'

unfoldable pub register_tool_outcome : Text → Outcomes → Outcomes
unfolding note_success note_failure
register_tool_outcome err_text s =
    let trimmed = trim err_text in
    if contains_text (to_lower trimmed) (codes "repetition detected")
    then s
    else if trimmed == []
    then note_success s
    else note_failure trimmed s

-- The first category in the map that reached the cap, with its count.
unfoldable pub structural_blocker_triggered : Map Text ℕ → Text × ℕ
structural_blocker_triggered [] = ([], 0)
structural_blocker_triggered ((category, count) ∷ rest) =
    let later = structural_blocker_triggered rest in
    if leb structural_blocker_cap count then (category, count) else later

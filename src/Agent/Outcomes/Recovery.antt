-- ===== src/Agent/Outcomes/Recovery.antt =====
-- When a run is in recovery from failures.
use openclawssy.Base.{
  ◌<◌, ◌≡◌, refl, false, List, [], ◌∷◌, Text, codes, text_eq, trim, to_lower, contains_text, arith,
  trim_left, trim_right, has_prefix, text_beq,
}
use openclawssy.Agent.Outcomes.{
  Outcomes, new_outcomes, failure_recovery_trigger, note_success, note_failure,
  register_tool_outcome,
}

-- Outside of recovery the failures in a row are too few for it, and no success is counted; within it
-- fewer than three successes in a row are.
pub record IsSound (s : Outcomes) : Type 0 where
  pub few_failures :
      s.failure_recovery_active ≡ false → s.consecutive_tool_failures < failure_recovery_trigger
  pub no_successes : s.failure_recovery_active ≡ false → s.successes_since_recovery ≡ 0
  pub few_successes : s.successes_since_recovery < 3

pub registered : List Text → Outcomes → Outcomes
registered [] s = s
registered (err_text ∷ rest) s = registered rest (register_tool_outcome err_text s)

note_success-IsSound : (s : Outcomes) → IsSound s → IsSound (note_success s)
unfolding note_success
note_success-IsSound s v = record {
  few_failures = λ q. ground (arith, v.few_failures);
  no_successes = λ q. ground (arith, v.no_successes);
  few_successes = ground (arith, v.few_successes);
}

note_failure-IsSound :
    (trimmed : Text) (s : Outcomes) → IsSound s → IsSound (note_failure trimmed s)
unfolding note_failure
note_failure-IsSound trimmed s v = record {
  few_failures = λ q. ground (arith, v.few_failures);
  no_successes = λ q. ground (arith, v.no_successes);
  few_successes = ground (arith, v.few_successes);
}

register-IsSound :
    (err_text : Text) (s : Outcomes) → IsSound s → IsSound (register_tool_outcome err_text s)
unfolding register_tool_outcome
register-IsSound err_text s v =
    ground (arith, v, note_success-IsSound s v, note_failure-IsSound (trim err_text) s v)

registered-IsSound : (errors : List Text) (s : Outcomes) → IsSound s → IsSound (registered errors s)
unfolding registered
registered-IsSound [] s v = v
registered-IsSound (err_text ∷ rest) s v =
    registered-IsSound rest (register_tool_outcome err_text s) (register-IsSound err_text s v)

-- After any outcomes of a new run: outside of recovery the failures in a row stay below the trigger,
-- and within it fewer than three successes in a row are counted.
pub recovery-IsSound : (errors : List Text) → IsSound (registered errors new_outcomes)
recovery-IsSound errors = registered-IsSound errors new_outcomes (record {
  few_failures = λ q. omega arith;
  no_successes = λ q. refl;
  few_successes = omega arith;
})

register-success : (s : Outcomes) → register_tool_outcome [] s ≡ note_success s
unfolding register_tool_outcome trim trim_left trim_right to_lower contains_text has_prefix codes
    text_beq
register-success s = refl

note_success-thrice :
    (s : Outcomes)
    → ((note_success (note_success (note_success s))).failure_recovery_active ≡ false)
      × ((note_success (note_success (note_success s))).consecutive_tool_failures ≡ 0)
unfolding note_success
note_success-thrice s = ground arith

-- After any outcomes of a new run, three successes in a row end any recovery and leave no failure in a
-- row.
pub three_successes :
    (errors : List Text)
    → let s = registered ([] ∷ [] ∷ [] ∷ []) (registered errors new_outcomes) in
      (s.failure_recovery_active ≡ false) × (s.consecutive_tool_failures ≡ 0)
unfolding registered
three_successes errors =
    let s = registered errors new_outcomes in
    ground (
      arith,
      register-success s,
      register-success (note_success s),
      register-success (note_success (note_success s)),
      note_success-thrice s,
    )

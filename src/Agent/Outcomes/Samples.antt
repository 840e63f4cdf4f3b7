-- ===== src/Agent/Outcomes/Samples.antt =====
-- Outcomes of a run that recovers.
use openclawssy.Base.{◌≡◌, false, List, [], ◌∷◌, Text, codes}
use openclawssy.Agent.Outcomes.{new_outcomes}
use openclawssy.Agent.Outcomes.Recovery.{IsSound, registered, recovery-IsSound, three_successes}

abbrev errors : List Text
errors = codes "timeout" ∷ [] ∷ codes "capability denied" ∷ codes "capability denied" ∷ []

recovery-IsSound_example : IsSound (registered errors new_outcomes)
recovery-IsSound_example = recovery-IsSound errors

three_successes_example :
    ((registered ([] ∷ [] ∷ [] ∷ []) (registered errors new_outcomes)).failure_recovery_active
      ≡ false)
    × ((registered ([] ∷ [] ∷ [] ∷ []) (registered errors new_outcomes)).consecutive_tool_failures
        ≡ 0)
three_successes_example = three_successes errors

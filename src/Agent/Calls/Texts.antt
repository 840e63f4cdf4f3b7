-- ===== src/Agent/Calls/Texts.antt =====
-- internal/agent/runner.go and run_state.go: the ids of tool calls, the errors of calls that are refused,
-- and the agent that a call names.
use openclawssy.Base.{
  ℕ, zero, suc, Bool, ◌&&◌, ◌||◌, not, Option, none, some, List, [], ◌∷◌, ◌++◌, drop, length, Text,
  codes, text_eq, ◌==◌, trim, to_lower, has_prefix, contains_text, contains, if◌then◌else◌, nat_eq,
}
use openclawssy.Agent.Calls.Keys.{Library}

-- The candidates for a call's id: the base, then the base with -2, -3 and so on.
unfoldable pub id_candidate : Library → Text → ℕ → Text
id_candidate lib base zero = base
id_candidate lib base (suc k) = base ++ (b'-' ∷ lib.itoa (suc (suc k)))

-- The loop over the candidates, on fuel.
unfoldable pub find_id : Library → ℕ → ℕ → Text → List Text → Option Text
unfolding id_candidate
find_id lib zero k base used = none
find_id lib (suc fuel) k base used =
    let later = find_id lib fuel (suc k) base used in
    if contains used (id_candidate lib base k) then later else some (id_candidate lib base k)

-- One candidate more than there are ids in use.
unfoldable pub unique_tool_call_id : Library → Text → ℕ → List Text → Option Text
unfolding find_id
unique_tool_call_id lib raw_id ordinal used =
    let base = if trim raw_id == [] then codes "tool-call-" ++ lib.itoa ordinal else trim raw_id in
    find_id lib (suc (length used)) 0 base used

unfoldable pub is_policy_denial : Text → Bool
is_policy_denial error =
    let lower = to_lower (trim error) in
    not (trim error == [])
    && (contains_text lower (codes "policy.denied")
        || contains_text lower (codes "capability denied"))

unfoldable pub repetition_error : Library → Text → ℕ → Text
repetition_error lib key n =
    codes "repetition detected: "
    ++ (key
        ++ (codes " has been attempted "
            ++ (lib.itoa n
                ++ (if has_prefix key (codes "agent.run|")
                    then codes
                        " times in this run. Do not rerun this same subagent task; move to the next required subagent or finalize with current results."
                    else codes
                        " times in this run. Stop rewriting and provide a final response from current evidence."))))

unfoldable pub one_shot_error : Text → Text
one_shot_error key =
    codes "repetition detected: "
    ++ (key
        ++ codes
            " has already succeeded in this run. Do not rerun it; provide a final response from current evidence.")

unfoldable pub creation_error : Library → Text → ℕ → Text
creation_error lib agent_id n =
    codes "repetition detected: agent '"
    ++ (agent_id
        ++ (codes "' creation was already attempted "
            ++ (lib.itoa n
                ++ codes
                    " times. If the agent exists, use it directly. If not, check previous errors.")))

unfoldable pub creation_limit_error : Library → ℕ → Text
creation_limit_error lib n =
    codes "agent creation limit reached: you have already created "
    ++ (lib.itoa n
        ++ codes
            " agents in this run. Reuse existing agents or finish with the current roster before creating more.")

-- strings.Index and the text after the match.
after_text : Text → Text → Option Text
after_text [] p = none
after_text (c ∷ s) p =
    let later = after_text s p in
    if has_prefix (c ∷ s) p then some (drop (length p) (c ∷ s)) else later

skip_colon : Text → Text
skip_colon [] = []
skip_colon (c ∷ s) =
    let rest = skip_colon s in if contains (codes " \t\n\r:") c then rest else c ∷ s

until_quote : Text → Option Text
until_quote [] = none
until_quote (c ∷ s) =
    let later = until_quote s in
    if c == b'"' then some [] else elim later [ none ↦ none | some t ↦ some (c ∷ t) ]

unfoldable pub extract_agent_id_from_args : Text → Text
unfolding after_text skip_colon until_quote
extract_agent_id_from_args arguments = elim (after_text arguments (codes "\"agent_id\"")) [
  | none ↦ []
  | some rest ↦
      let value = skip_colon rest in
      if has_prefix value (codes "\"")
      then elim (until_quote (drop 1 value)) [ none ↦ [] | some id ↦ id ]
      else []
]

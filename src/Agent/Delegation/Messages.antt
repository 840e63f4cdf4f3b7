-- ===== src/Agent/Delegation/Messages.antt =====
-- internal/agent/runner.go: the messages to sub-agents and the summaries of their answers.
use openclawssy.Base.{
  ℕ, zero, suc, none, some, List, [], ◌∷◌, ◌++◌, Text, codes, text_eq, nat_eq, ◌==◌, trim,
  if◌then◌else◌, leb, length, Map, lookup,
}
use openclawssy.Agent.Order.{DecomposedTask}

newline : Text
newline = codes "\n"

-- strings.Split by newlines: the first line, and the others.
split_lines : Text → Text × List Text
split_lines [] = ([], [])
split_lines (c ∷ s) =
    let (line, lines) = split_lines s in
    if c == b'\n' then ([], line ∷ lines) else (c ∷ line, lines)

first_lines : ℕ → Text → List Text → Text
unfolding newline
first_lines zero line lines = line
first_lines (suc n) line [] = line
first_lines (suc n) line (next ∷ lines) = line ++ (newline ++ first_lines n next lines)

unfoldable pub summarize_for_artifact : Text → Text
unfolding split_lines first_lines
summarize_for_artifact full_text =
    let (line, lines) = split_lines full_text in
    if leb (suc (length lines)) 3 then full_text else first_lines 2 line lines ++ codes "..."

artifact_lines : List Text → Map Text Text → Text
unfolding newline
artifact_lines [] artifacts = []
artifact_lines (dep ∷ deps) artifacts =
    let rest = artifact_lines deps artifacts in
    elim (lookup dep artifacts) [
      | none ↦ rest
      | some artifact ↦ codes "- " ++ (dep ++ (codes ": " ++ (artifact ++ (newline ++ rest))))
    ]

unfoldable pub inject_artifacts : Text → List Text → Map Text Text → Text
unfolding artifact_lines
inject_artifacts message deps artifacts =
    trim message ++ (codes "\n\nContext from previous steps:\n" ++ artifact_lines deps artifacts)

criteria_lines : List Text → Text
unfolding newline
criteria_lines [] = []
criteria_lines (item ∷ items) =
    let rest = criteria_lines items in
    if trim item == [] then rest else codes "- " ++ (trim item ++ (newline ++ rest))

execution_rules : Text
execution_rules =
    codes "\nExecution rules:\n"
    ++ (codes "- Complete only this delegated task; do not broaden scope.\n"
        ++ (codes "- Prefer concrete execution over planning when the next step is clear.\n"
            ++ (codes
                  "- If blocked, report the exact blocker and the best next step instead of looping.\n"
                ++ codes
                    "- End with a concise result that states what was done, what was verified, and any remaining risk.\n")))

unfoldable pub format_delegated_task_message : DecomposedTask → Map Text Text → Text
unfolding inject_artifacts criteria_lines execution_rules
format_delegated_task_message task artifacts =
    let base : Text = elim task.depends_on [
      | [] ↦ trim task.message
      | dep ∷ deps ↦ inject_artifacts (trim task.message) (dep ∷ deps) artifacts
    ] in
    let criteria : Text = elim task.acceptance_crit [
      | [] ↦ []
      | item ∷ items ↦ codes "\n\nAcceptance criteria:\n" ++ criteria_lines (item ∷ items)
    ] in
    base ++ (criteria ++ execution_rules)

-- `show` prints a confidence with two decimals.
unfoldable pub append_role_routing_context : (ℕ → Text) → DecomposedTask → Text
unfolding newline
append_role_routing_context show task =
    if task.assigned_role == []
    then trim task.message
    else trim task.message
      ++ (codes "\n\nRole assignment:\n- assigned_role: "
          ++ (task.assigned_role
              ++ (codes "\n- confidence: "
                  ++ (show task.routing_confidence
                      ++ (codes "\n- rationale: " ++ (trim task.routing_rationale ++ newline))))))

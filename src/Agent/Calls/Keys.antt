-- ===== src/Agent/Calls/Keys.antt =====
-- internal/agent/run_state.go: under which key a tool call counts as a repetition, as a mutation that is
-- done once, and as cached. Texts are cut by characters, which for ASCII are bytes.
use mathlib.Core.List.{reverse}
use openclawssy.Base.{
  ℕ, zero, suc, Bool, true, false, ◌&&◌, ◌||◌, not, Option, none, some, List, [], ◌∷◌, ◌++◌, Text,
  codes, text_eq, ◌==◌, trim, to_lower, has_prefix, if◌then◌else◌, leb, Map, lookup, nat_beq,
}

pub record ToolCallRequest : Type 0 where
  pub id : Text
  pub name : Text
  pub arguments : Text

-- A value of a JSON object: a string, null, or any other, with what json.Marshal makes of it.
pub data Value : Type 0 where
  string : Text → Value
  null : Value
  other : Text → Value

pub record Url : Type 0 where
  pub scheme : Text
  pub host : Text
  pub path : Text
  pub query : Text
  pub fragment : Text

-- What the code takes from encoding/json, net/url, regexp, strconv and strings.
pub record Library : Type 0 where
  pub parse_object : Text → Option (Map Text Value)
  pub marshal_string : Text → Text
  pub parse_url : Text → Option Url
  pub print_url : Url → Text
  pub strip_retry_suffix : Text → Text
  pub to_upper : Text → Text
  pub itoa : ℕ → Text

unfoldable pub parse_tool_args : Library → Text → Option (Map Text Value)
parse_tool_args lib args = if args == [] then none else lib.parse_object args

unfoldable pub text_value : Option Value → Text
text_value (some (string t)) = trim t
text_value (some null) = []
text_value (some (other t)) = []
text_value none = []

unfoldable pub first_trimmed : Map Text Value → List Text → Text
unfolding text_value
first_trimmed values [] = []
first_trimmed values (key ∷ keys) =
    let found = text_value (lookup key values) in
    let later = first_trimmed values keys in if found == [] then later else found

unfoldable pub first_n : ℕ → Text → Text
first_n zero s = []
first_n (suc n) [] = []
first_n (suc n) (c ∷ s) = c ∷ first_n n s

pub has_suffix : Text → Text → Bool
has_suffix s p = has_prefix (reverse s) (reverse p)

is_lane_letter : ℕ → Bool
is_lane_letter c = leb b'a' c && leb c b'z'

is_digit : ℕ → Bool
is_digit c = leb b'0' c && leb c b'9'

-- The loop over the characters, with what was seen: letters, then digits, and nothing else.
lane_from : Bool → Bool → Text → Bool
unfolding is_lane_letter is_digit
lane_from letter digit [] = letter && digit
lane_from letter digit (c ∷ s) =
    let after_letter = lane_from true digit s in
    let after_digit = lane_from letter true s in
    if is_lane_letter c
    then not digit && after_letter
    else if is_digit c
    then letter && after_digit
    else false

unfoldable pub looks_lane_task_id : Text → Bool
unfolding lane_from
looks_lane_task_id value = if value == [] then false else lane_from false false value

-- The text before the first of the four separators.
before_separator : Text → Text
before_separator [] = []
before_separator (c ∷ s) =
    let rest = before_separator s in
    if nat_beq c b'-' || nat_beq c b'_' || nat_beq c b'.' || nat_beq c b' ' then [] else c ∷ rest

unfoldable pub normalize_task_id_for_repetition : Library → Text → Text
unfolding before_separator looks_lane_task_id
normalize_task_id_for_repetition lib task_id =
    let value = to_lower (trim task_id) in
    let base = trim (before_separator value) in
    if value == []
    then []
    else if looks_lane_task_id base
    then base
    else if looks_lane_task_id value
    then value
    else lib.strip_retry_suffix value

unfoldable pub normalize_schedule_for_repetition : Text → Text
normalize_schedule_for_repetition schedule =
    let trimmed = to_lower (trim schedule) in
    if trimmed == codes "@hourly" || trimmed == codes "hourly" || trimmed == codes "0 * * * *"
    then codes "@every 1h"
    else if trimmed == codes "@daily" || trimmed == codes "daily" || trimmed == codes "0 0 * * *"
    then codes "@every 24h"
    else trimmed

abbrev bar : Text → Text → Text
bar a b = a ++ (b'|' ∷ b)

or_text : Text → Text → Text
or_text value default = if value == [] then default else value

lower_of : Map Text Value → List Text → Text
lower_of args keys = to_lower (first_trimmed args keys)

scheduler_add_key : Text → Map Text Value → Option Text
unfolding or_text lower_of normalize_schedule_for_repetition
scheduler_add_key name args =
    let id = lower_of args (codes "id" ∷ []) in
    let schedule = normalize_schedule_for_repetition (lower_of args (codes "schedule" ∷ [])) in
    let message = lower_of args (codes "message" ∷ codes "prompt" ∷ codes "content" ∷ []) in
    let agent_id = or_text (lower_of args (codes "agent_id" ∷ [])) (codes "default") in
    let place = bar (lower_of args (codes "channel" ∷ [])) (
      bar (lower_of args (codes "user_id" ∷ []))
        (bar (lower_of args (codes "room_id" ∷ [])) (lower_of args (codes "session_id" ∷ [])))) in
    if not (id == [])
    then some (bar name id)
    else if schedule == [] || message == []
    then none
    else some (
        bar name
          (bar (codes "semantic") (bar schedule (bar agent_id (bar place (first_n 160 message))))))

config_set_key : Library → Text → Map Text Value → Option Text
unfolding lower_of
config_set_key lib name args =
    let dry =
      if lower_of args (codes "dry_run" ∷ codes "dryRun" ∷ []) == codes "true"
      then codes "true"
      else codes "false" in
    elim (lookup (codes "updates") args) [
      | none ↦ none
      | some updates ↦ elim updates [
        | null ↦ none
        | string t ↦ some (bar name (bar (codes "dry_run=" ++ dry) (lib.marshal_string t)))
        | other t ↦ some (bar name (bar (codes "dry_run=" ++ dry) t))
      ]
    ]

-- The switch on the name; `none` where it returns false.
unfoldable pub named_mutation_key : Library → Text → Map Text Value → Option Text
unfolding scheduler_add_key config_set_key or_text lower_of
named_mutation_key lib name args =
    let agent_id = lower_of args (codes "agent_id" ∷ []) in
    let capability = lower_of args (codes "capability" ∷ codes "tool" ∷ []) in
    let session_id = lower_of args (codes "session_id" ∷ codes "id" ∷ []) in
    let target = lower_of args (codes "agent_id" ∷ codes "id" ∷ codes "agent" ∷ []) in
    let assistant_name = lower_of args (codes "assistant_name" ∷ []) in
    let user_name = lower_of args (codes "user_name" ∷ []) in
    if name == codes "scheduler.add"
    then scheduler_add_key name args
    else if name == codes "scheduler.remove"
        || name == codes "scheduler.pause"
        || name == codes "scheduler.resume"
    then some (bar name (or_text (lower_of args (codes "id" ∷ [])) (codes "global")))
    else if name == codes "policy.grant" || name == codes "policy.revoke"
    then if agent_id == [] || capability == []
      then none
      else some (bar name (bar agent_id capability))
    else if name == codes "session.close"
    then if session_id == [] then none else some (bar name session_id)
    else if name == codes "agent.switch"
    then if target == []
      then none
      else some
          (bar name (bar target (or_text (lower_of args (codes "scope" ∷ [])) (codes "both"))))
    else if name == codes "agent.identity.set"
    then if assistant_name == [] || user_name == []
      then none
      else some (bar name (bar (or_text agent_id (codes "current")) (bar assistant_name user_name)))
    else if name == codes "config.set"
    then config_set_key lib name args
    else none

unfoldable pub one_shot_mutation_repetition_key : Library → Text → Text → Option Text
unfolding named_mutation_key
one_shot_mutation_repetition_key lib name args_json = elim (parse_tool_args lib args_json) [
  | none ↦ none
  | some args ↦ named_mutation_key lib (trim name) args
]

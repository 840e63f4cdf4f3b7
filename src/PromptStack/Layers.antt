-- ===== src/PromptStack/Layers.antt =====
-- internal/promptstack/types.go: the five layers of a prompt.
use openclawssy.Base.{
  ℕ, ◌≡◌, Bool, ◌||◌, not, Option, none, some, List, [], ◌∷◌, Text, codes, text_eq, eq_iff, ◌==◌,
  trim, trim-trim, if◌then◌else◌, arith,
}

pub record PromptLayer : Type 0 where
  pub layer_id : Text
  pub content : Text
  pub updated_at : ℕ
  pub version : ℕ

pub record PromptStack : Type 0 where
  pub global_operator_policy : PromptLayer
  pub agent_identity : PromptLayer
  pub tool_safety_rules : PromptLayer
  pub delegation_policy : PromptLayer
  pub session_overlay : PromptLayer

blank_layer : Text → PromptLayer
blank_layer id = record { layer_id = id; content = []; updated_at = 0; version = 0 }

unfoldable pub new_prompt_stack : PromptStack
unfolding blank_layer
new_prompt_stack = record {
  global_operator_policy = blank_layer (codes "global_operator_policy");
  agent_identity = blank_layer (codes "agent_identity");
  tool_safety_rules = blank_layer (codes "tool_safety_rules");
  delegation_policy = blank_layer (codes "delegation_policy");
  session_overlay = blank_layer (codes "session_overlay");
}

unfoldable pub layer_ids : List Text
layer_ids =
    codes "global_operator_policy"
    ∷ codes "agent_identity"
    ∷ codes "tool_safety_rules"
    ∷ codes "delegation_policy"
    ∷ codes "session_overlay"
    ∷ []

unfoldable pub layers_in_order : PromptStack → List PromptLayer
layers_in_order s =
    s.global_operator_policy ∷ s.agent_identity ∷ s.tool_safety_rules ∷ s.delegation_policy
    ∷ s.session_overlay ∷ []

-- `none` is ErrInvalidLayerID, here and in set_layer.
unfoldable pub layer : PromptStack → Text → Option PromptLayer
layer s raw =
    let id = trim raw in
    if id == codes "global_operator_policy"
    then some s.global_operator_policy
    else if id == codes "agent_identity"
    then some s.agent_identity
    else if id == codes "tool_safety_rules"
    then some s.tool_safety_rules
    else if id == codes "delegation_policy"
    then some s.delegation_policy
    else if id == codes "session_overlay"
    then some s.session_overlay
    else none

unfoldable pub is_valid_layer_id : Text → Bool
is_valid_layer_id raw =
    let id = trim raw in
    id == codes "global_operator_policy"
    || id == codes "agent_identity"
    || id == codes "tool_safety_rules"
    || id == codes "delegation_policy"
    || id == codes "session_overlay"

unfoldable pub set_layer : PromptLayer → PromptStack → Option PromptStack
set_layer l s =
    let id = trim l.layer_id in
    let l' : PromptLayer = record l { layer_id = id } in
    if not (is_valid_layer_id id)
    then none
    else if id == codes "global_operator_policy"
    then some (record s { global_operator_policy = l' })
    else if id == codes "agent_identity"
    then some (record s { agent_identity = l' })
    else if id == codes "tool_safety_rules"
    then some (record s { tool_safety_rules = l' })
    else if id == codes "delegation_policy"
    then some (record s { delegation_policy = l' })
    else if id == codes "session_overlay"
    then some (record s { session_overlay = l' })
    else none

-- A layer whose id can be read can be set, and then it is what is read under its id, blanks around it
-- ignored, while every other id reads as before.
layer-set_layer :
    (l : PromptLayer) (s : PromptStack) (id : Text)
    → (set_layer l s ≡ none → layer s l.layer_id ≡ none)
      × ((s' : PromptStack)
          → set_layer l s ≡ some s'
          → layer s' id ≡ (
              if trim id == trim l.layer_id
              then some (record l { layer_id = trim l.layer_id })
              else layer s id))
unfolding layer set_layer is_valid_layer_id
layer-set_layer l s id =
    let key = trim l.layer_id in
    (
      λ n. ground (arith, trim-trim l.layer_id),
      λ s' e. ground (
        arith,
        trim-trim l.layer_id,
        eq_iff (trim id) key,
        eq_iff key (codes "global_operator_policy"),
        eq_iff key (codes "agent_identity"),
        eq_iff key (codes "tool_safety_rules"),
        eq_iff key (codes "delegation_policy"),
        eq_iff key (codes "session_overlay"),
        eq_iff (trim id) (codes "global_operator_policy"),
        eq_iff (trim id) (codes "agent_identity"),
        eq_iff (trim id) (codes "tool_safety_rules"),
        eq_iff (trim id) (codes "delegation_policy"),
        eq_iff (trim id) (codes "session_overlay"),
      ),
    )

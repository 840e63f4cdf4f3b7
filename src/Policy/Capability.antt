-- ===== src/Policy/Capability.antt =====
-- internal/policy/capability.go and NormalizeCapabilities of grants.go. A read under the lock is a
-- function of the enforcer, a write returns the new one.
pub mod Names
pub mod Checks
pub mod Listing
mod Samples
use openclawssy.Base.{
  ℕ, Bool, true, false, Option, none, some, List, [], ◌∷◌, Text, Map, lookup, insert, text_eq, ◌==◌,
  trim, to_lower, contains, sort_texts, if◌then◌else◌,
}
use openclawssy.Toolparse.Names.{canonical_tool_name}

pub record CapabilityError : Type 0 where
  pub agent_id : Text
  pub tool : Text

pub record Enforcer : Type 0 where
  pub workspace : Text
  pub capabilities : Map Text (Map Text Bool)

-- What of a name is left that the table of tools does not know.
or_lower : Option Text → Text → Text
or_lower (some canonical) candidate = canonical
or_lower none candidate = to_lower candidate

unfoldable pub canonical_capability_tool : Text → Text
unfolding or_lower
canonical_capability_tool tool =
    let candidate = trim tool in
    if candidate == [] then [] else or_lower (canonical_tool_name candidate) candidate

-- The set that a list of tools fills, in a loop.
unfoldable pub fill_set : List Text → Map Text Bool → Map Text Bool
fill_set [] set = set
fill_set (tool ∷ tools) set =
    let canonical = canonical_capability_tool tool in
    fill_set tools (if canonical == [] then set else insert canonical true set)

-- The map that the constructor fills from the grants, in the order that it meets them.
unfoldable pub fill_agents :
    List (Text × List Text) → Map Text (Map Text Bool) → Map Text (Map Text Bool)
fill_agents [] m = m
fill_agents ((agent, tools) ∷ grants) m = fill_agents grants (insert agent (fill_set tools []) m)

unfoldable pub new_enforcer : Text → List (Text × List Text) → Enforcer
new_enforcer workspace grants = record {
  workspace = workspace;
  capabilities = fill_agents grants [];
}

-- A missing key of a Go map of booleans reads as false.
unfoldable pub flag : Text → Map Text Bool → Bool
flag key set = elim (lookup key set) [ none ↦ false | some b ↦ b ]

-- `none` is the nil error.
unfoldable pub check_tool : Enforcer → Text → Text → Option CapabilityError
check_tool e agent_id tool =
    let canonical = canonical_capability_tool tool in
    let denied : Option CapabilityError = some (record { agent_id = agent_id; tool = canonical }) in
    elim (lookup agent_id e.capabilities) [
      | none ↦ denied
      | some agent_caps ↦ if flag canonical agent_caps then none else denied
    ]

unfoldable pub has_capability : Enforcer → Text → Text → Bool
has_capability e agent_id capability =
    let canonical = canonical_capability_tool capability in
    if canonical == [] then false else elim (lookup agent_id e.capabilities) [
      | none ↦ false
      | some agent_caps ↦ flag canonical agent_caps
    ]

unfoldable pub set_capabilities : Enforcer → Text → List Text → Enforcer
set_capabilities e agent_id capabilities =
    if trim agent_id == []
    then e
    else record e { capabilities = insert agent_id (fill_set capabilities []) e.capabilities }

-- The keys of the entries that are granted.
unfoldable pub granted_keys : Map Text Bool → List Text
granted_keys [] = []
granted_keys ((cap, granted) ∷ rest) =
    let others = granted_keys rest in if granted then cap ∷ others else others

unfoldable pub list_capabilities : Enforcer → Text → List Text
unfolding granted_keys
list_capabilities e agent_id = elim (lookup agent_id e.capabilities) [
  | none ↦ []
  | some agent_caps ↦ sort_texts (granted_keys agent_caps)
]

-- The keys of a set of grants.go, whose values are empty structs.
unfoldable pub fill_keys : List Text → List Text → List Text
fill_keys [] set = set
fill_keys (capability ∷ rest) set =
    let canonical = canonical_capability_tool capability in
    fill_keys rest
      (if canonical == [] then set else if contains set canonical then set else canonical ∷ set)

unfoldable pub normalize_capabilities : List Text → List Text
unfolding fill_keys
normalize_capabilities capabilities = sort_texts (fill_keys capabilities [])

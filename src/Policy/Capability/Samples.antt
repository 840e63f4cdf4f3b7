-- ===== src/Policy/Capability/Samples.antt =====
-- An enforcer at concrete grants.
use openclawssy.Base.{
  ◌≡◌, refl, true, false, none, some, List, [], ◌∷◌, Text, codes, text_beq, trim, to_lower, lookup,
  contains_text, insert, replace_all, if◌then◌else◌, ◌==◌, text_eq,
}
use openclawssy.Toolparse.Names.{canonical_tool_name, tool_aliases}
use openclawssy.Policy.Capability.{
  Enforcer, new_enforcer, check_tool, has_capability, set_capabilities, list_capabilities,
  normalize_capabilities, canonical_capability_tool, fill_set, fill_agents, flag,
}
use openclawssy.Policy.Capability.Checks.{after, check_tool-after}
use openclawssy.Policy.Capability.Listing.{list-set_capabilities}

abbrev grants : List (Text × List Text)
grants = (codes "default", codes "fs.read" ∷ codes " Bash.Exec " ∷ codes " " ∷ []) ∷ []

abbrev built : Enforcer
built = new_enforcer (codes "/w") grants

alias_granted : has_capability built (codes "default") (codes "shell__exec") ≡ true
unfolding has_capability new_enforcer fill_agents fill_set canonical_capability_tool
    canonical_tool_name tool_aliases lookup insert flag codes text_beq trim to_lower contains_text
    replace_all
alias_granted = refl

check_tool-after_example :
    let e = after built ((codes "ops", codes "run.list" ∷ []) ∷ []) in
    check_tool e (codes "ops") (codes "fs.read") ≡ (
      if has_capability e (codes "ops") (codes "fs.read")
      then none
      else some
          (record { agent_id = codes "ops"; tool = canonical_capability_tool (codes "fs.read") }))
check_tool-after_example =
    check_tool-after (codes "/w") grants ((codes "ops", codes "run.list" ∷ []) ∷ []) (codes "ops")
      (codes "fs.read")

not_blank : (trim (codes "ops") == []) ≡ false
unfolding trim codes text_beq
not_blank = refl

list-set_capabilities_example :
    list_capabilities (set_capabilities built (codes "ops") (codes "run.list" ∷ [])) (codes "ops")
    ≡ (if codes "ops" == codes "ops"
        then normalize_capabilities (codes "run.list" ∷ [])
        else list_capabilities built (codes "ops"))
list-set_capabilities_example =
    list-set_capabilities built (codes "ops") (codes "run.list" ∷ []) (codes "ops") not_blank

-- ===== src/Policy/Capability/Checks.antt =====
-- Who may use what, after any history of grants.
use openclawssy.Base.{
  ◌≡◌, refl, Bool, true, false, ◌&&◌, ◌||◌, not, none, some, List, [], ◌∷◌, Text, trim, text_eq,
  ◌==◌, eq_iff, arith, if◌then◌else◌, Map, lookup, insert, lookup-insert, Bool-cases, Option-cases,
  inl, inr,
}
use openclawssy.Policy.Capability.{
  Enforcer, canonical_capability_tool, fill_set, fill_agents, new_enforcer, flag, check_tool,
  has_capability, set_capabilities,
}

-- Some name of the list has this canonical form, which is not blank.
unfoldable pub confers : List Text → Text → Bool
confers [] cap = false
confers (tool ∷ tools) cap =
    (not (canonical_capability_tool tool == []) && canonical_capability_tool tool == cap)
    || confers tools cap

pub flag-insert :
    (k j : Text) (b : Bool) (set : Map Text Bool)
    → flag j (insert k b set) ≡ (if k == j then b else flag j set)
unfolding flag
flag-insert k j b set = ground (arith, lookup-insert k j b set)

pub flag-fill_set :
    (tools : List Text) (set : Map Text Bool) (cap : Text)
    → flag cap (fill_set tools set) ≡ (confers tools cap || flag cap set)
unfolding fill_set confers
flag-fill_set [] set cap = refl
flag-fill_set (tool ∷ tools) set cap = ground (
  arith,
  flag-fill_set tools set cap,
  flag-fill_set tools (insert (canonical_capability_tool tool) true set) cap,
  flag-insert (canonical_capability_tool tool) cap true set,
)

pub flag-empty : (cap : Text) → flag cap [] ≡ false
unfolding flag lookup
flag-empty cap = refl

confers-blank : (tools : List Text) → confers tools [] ≡ false
unfolding confers
confers-blank [] = refl
confers-blank (tool ∷ tools) = ground (arith, confers-blank tools)

-- No agent has the blank capability.
abbrev pub IsClean : Map Text (Map Text Bool) → Type 0
IsClean m = (agent : Text) (set : Map Text Bool) → lookup agent m ≡ some set → flag [] set ≡ false

insert-IsClean :
    (agent : Text) (tools : List Text) (m : Map Text (Map Text Bool))
    → IsClean m
    → IsClean (insert agent (fill_set tools []) m)
insert-IsClean agent tools m c j set e = ground (
  arith,
  lookup-insert agent j (fill_set tools []) m,
  flag-fill_set tools [] [],
  confers-blank tools,
  flag-empty [],
  c j set,
)

fill_agents-IsClean :
    (grants : List (Text × List Text)) (m : Map Text (Map Text Bool))
    → IsClean m
    → IsClean (fill_agents grants m)
unfolding fill_agents
fill_agents-IsClean [] m c = c
fill_agents-IsClean ((agent, tools) ∷ grants) m c =
    fill_agents-IsClean grants (insert agent (fill_set tools []) m) (insert-IsClean agent tools m c)

-- The enforcer after a history of calls of SetCapabilities.
unfoldable pub after : Enforcer → List (Text × List Text) → Enforcer
after e [] = e
after e ((agent, caps) ∷ calls) = after (set_capabilities e agent caps) calls

set_capabilities-IsClean :
    (e : Enforcer) (agent : Text) (caps : List Text)
    → IsClean e.capabilities
    → IsClean (set_capabilities e agent caps).capabilities
unfolding set_capabilities
set_capabilities-IsClean e agent caps c = elim (Bool-cases (trim agent == [])) [
  | inl blank ↦ rw blank c
  | inr full ↦ rw full (insert-IsClean agent caps e.capabilities c)
]

after-IsClean :
    (e : Enforcer) (calls : List (Text × List Text))
    → IsClean e.capabilities
    → IsClean (after e calls).capabilities
unfolding after
after-IsClean e [] c = c
after-IsClean e ((agent, caps) ∷ calls) c =
    after-IsClean (set_capabilities e agent caps) calls (set_capabilities-IsClean e agent caps c)

check_tool-IsClean :
    (e : Enforcer) (agent tool : Text)
    → IsClean e.capabilities
    → check_tool e agent tool ≡ (
        if has_capability e agent tool
        then none
        else some (record { agent_id = agent; tool = canonical_capability_tool tool }))
unfolding check_tool has_capability
check_tool-IsClean e agent tool c = elim (Option-cases (lookup agent e.capabilities)) [
  | inl missing ↦ ground arith
  | inr (set, found) ↦ ground (arith, c agent set found, eq_iff (canonical_capability_tool tool) [])
]

-- From the grants that an enforcer is built with and any calls of SetCapabilities on, CheckTool
-- passes exactly what HasCapability reports, and otherwise names the agent and the canonical tool.
pub check_tool-after :
    (workspace : Text) (grants calls : List (Text × List Text)) (agent tool : Text)
    → let e = after (new_enforcer workspace grants) calls in
      check_tool e agent tool ≡ (
        if has_capability e agent tool
        then none
        else some (record { agent_id = agent; tool = canonical_capability_tool tool }))
unfolding new_enforcer lookup
check_tool-after workspace grants calls agent tool =
    check_tool-IsClean (after (new_enforcer workspace grants) calls) agent tool (
      after-IsClean (new_enforcer workspace grants) calls
        (fill_agents-IsClean grants [] (λ j set e. cc)))

-- SetCapabilities for an agent whose name is not blank replaces what that agent has by exactly the
-- named capabilities, compared in canonical form, and leaves every other agent alone.
has_capability-set_capabilities :
    (e : Enforcer) (agent : Text) (caps : List Text) (other cap : Text)
    → (trim agent == []) ≡ false
    → has_capability (set_capabilities e agent caps) other cap ≡ (
        if agent == other
        then confers caps (canonical_capability_tool cap)
        else has_capability e other cap)
unfolding has_capability set_capabilities
has_capability-set_capabilities e agent caps other cap full = ground (
  arith,
  lookup-insert agent other (fill_set caps []) e.capabilities,
  flag-fill_set caps [] (canonical_capability_tool cap),
  flag-empty (canonical_capability_tool cap),
  confers-blank caps,
  eq_iff (canonical_capability_tool cap) [],
)

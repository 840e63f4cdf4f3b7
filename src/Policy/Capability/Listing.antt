-- ===== src/Policy/Capability/Listing.antt =====
-- What ListCapabilities and NormalizeCapabilities list.
use openclawssy.Base.{
  ◌≡◌, refl, sym, ◌∙◌, Bool, true, false, ◌||◌, List, [], ◌∷◌, Text, trim, text_eq, ◌==◌, eq_iff,
  arith, if◌then◌else◌, Map, lookup, insert, lookup-insert, contains, sort_texts,
  contains-sort_texts, sort_texts-IsStrictlySorted, NoRepeats, IsStrictlySorted, sorted_unique,
  UniqueKeys, insert-UniqueKeys,
}
use openclawssy.Policy.Capability.{
  Enforcer, canonical_capability_tool, fill_set, set_capabilities, granted_keys, list_capabilities,
  fill_keys, normalize_capabilities, flag,
}
use openclawssy.Policy.Capability.Names.{canonical_capability_tool_idem}
use openclawssy.Policy.Capability.Checks.{confers, flag-fill_set, flag-empty}

contains-cons : (t u : Text) (ts : List Text) → contains (t ∷ ts) u ≡ (t == u || contains ts u)
unfolding contains
contains-cons t u ts = refl

contains-fill_keys :
    (caps set : List Text) (key : Text)
    → contains (fill_keys caps set) key ≡ (confers caps key || contains set key)
unfolding fill_keys confers
contains-fill_keys [] set key = refl
contains-fill_keys (tool ∷ caps) set key = ground (
  arith,
  contains-fill_keys caps set key,
  contains-fill_keys caps (canonical_capability_tool tool ∷ set) key,
  eq_iff (canonical_capability_tool tool) key,
  contains-cons (canonical_capability_tool tool) key set,
)

fill_keys-NoRepeats : (caps set : List Text) → NoRepeats set → NoRepeats (fill_keys caps set)
unfolding fill_keys
fill_keys-NoRepeats [] set h = h
fill_keys-NoRepeats (tool ∷ caps) set h =
    fill_keys-NoRepeats caps
      (if canonical_capability_tool tool == []
        then set
        else if contains set (canonical_capability_tool tool)
        then set
        else canonical_capability_tool tool ∷ set)
      (ground arith)

pub contains-normalize :
    (caps : List Text) (key : Text) → contains (normalize_capabilities caps) key ≡ confers caps key
unfolding normalize_capabilities contains
contains-normalize caps key =
    ground (arith, contains-sort_texts key (fill_keys caps []), contains-fill_keys caps [] key)

pub normalize-IsStrictlySorted : (caps : List Text) → IsStrictlySorted (normalize_capabilities caps)
unfolding normalize_capabilities
normalize-IsStrictlySorted caps =
    sort_texts-IsStrictlySorted (fill_keys caps []) (fill_keys-NoRepeats caps [] tt)

-- A capability that a list confers is in canonical form and not blank.
confers-fixed :
    (caps : List Text) (key : Text)
    → confers caps key ≡ true
    → (canonical_capability_tool key ≡ key) × ((key == []) ≡ false)
unfolding confers
confers-fixed [] key h = (cc, cc)
confers-fixed (tool ∷ caps) key h = ground (
  arith,
  confers-fixed caps key,
  eq_iff (canonical_capability_tool tool) key,
  canonical_capability_tool_idem tool,
)

abbrev AllFixed : List Text → Type 0
AllFixed caps =
    (key : Text)
    → contains caps key ≡ true
    → (canonical_capability_tool key ≡ key) × ((key == []) ≡ false)

confers-AllFixed :
    (caps : List Text) (key : Text) → AllFixed caps → confers caps key ≡ contains caps key
unfolding confers contains
confers-AllFixed [] key h = refl
confers-AllFixed (tool ∷ caps) key h =
    ground (arith, confers-AllFixed caps key (λ t m. h t (ground arith)), h tool, eq_iff tool tool)

-- Normalising a list of capabilities twice is normalising it once.
normalize_capabilities_idem :
    (caps : List Text)
    → normalize_capabilities (normalize_capabilities caps) ≡ normalize_capabilities caps
normalize_capabilities_idem caps =
    sorted_unique (normalize_capabilities (normalize_capabilities caps))
      (normalize_capabilities caps) (normalize-IsStrictlySorted (normalize_capabilities caps))
      (normalize-IsStrictlySorted caps)
      λ key.
        contains-normalize (normalize_capabilities caps) key
        ∙ confers-AllFixed (normalize_capabilities caps) key
            (λ t h. confers-fixed caps t (sym (contains-normalize caps t) ∙ h))

contains-granted_keys :
    (set : Map Text Bool) (key : Text)
    → UniqueKeys set
    → contains (granted_keys set) key ≡ flag key set
unfolding granted_keys flag lookup contains
contains-granted_keys [] key h = refl
contains-granted_keys ((k, b) ∷ set) key h =
    ground (arith, contains-granted_keys set key h.1, eq_iff k key)

granted_keys-NoRepeats : (set : Map Text Bool) → UniqueKeys set → NoRepeats (granted_keys set)
unfolding granted_keys flag
granted_keys-NoRepeats [] h = tt
granted_keys-NoRepeats ((k, b) ∷ set) h =
    ground (arith, granted_keys-NoRepeats set h.1, contains-granted_keys set k h.1, h.0)

fill_set-UniqueKeys :
    (tools : List Text) (set : Map Text Bool) → UniqueKeys set → UniqueKeys (fill_set tools set)
unfolding fill_set
fill_set-UniqueKeys [] set h = h
fill_set-UniqueKeys (tool ∷ tools) set h =
    fill_set-UniqueKeys tools
      (if canonical_capability_tool tool == []
        then set
        else insert (canonical_capability_tool tool) true set)
      (ground (arith, insert-UniqueKeys (canonical_capability_tool tool) true set h))

listed :
    (tools : List Text)
    → sort_texts (granted_keys (fill_set tools [])) ≡ normalize_capabilities tools
listed tools =
    let unique : UniqueKeys (fill_set tools []) = fill_set-UniqueKeys tools [] tt in
    sorted_unique (sort_texts (granted_keys (fill_set tools []))) (normalize_capabilities tools)
      (sort_texts-IsStrictlySorted (granted_keys (fill_set tools []))
        (granted_keys-NoRepeats (fill_set tools []) unique))
      (normalize-IsStrictlySorted tools)
      λ key. ground (
        arith,
        contains-sort_texts key (granted_keys (fill_set tools [])),
        contains-granted_keys (fill_set tools []) key unique,
        flag-fill_set tools [] key,
        flag-empty key,
        contains-normalize tools key,
      )

-- After SetCapabilities for an agent whose name is not blank, ListCapabilities lists for that agent
-- what NormalizeCapabilities makes of the given names, and for any other agent what it listed before.
pub list-set_capabilities :
    (e : Enforcer) (agent : Text) (caps : List Text) (other : Text)
    → (trim agent == []) ≡ false
    → list_capabilities (set_capabilities e agent caps) other
      ≡ (if agent == other then normalize_capabilities caps else list_capabilities e other)
unfolding list_capabilities set_capabilities
list-set_capabilities e agent caps other full =
    ground (arith, lookup-insert agent other (fill_set caps []) e.capabilities, listed caps)

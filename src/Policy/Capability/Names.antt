-- ===== src/Policy/Capability/Names.antt =====
-- Capability names are normalised once and for all.
use openclawssy.Base.{
  ◌≡◌, refl, sym, ap, ◌∙◌, true, false, none, some, [], ◌∷◌, Text, trim, to_lower, text_eq,
  text_beq, ◌==◌, trim-trim, trim-to_lower, to_lower-to_lower, Option-cases, Bool-cases, inl, inr,
}
use openclawssy.Toolparse.Names.{canonical_tool_name}
use openclawssy.Toolparse.Names.Stable.{
  canonical_tool_name-normal, canonical_tool_name-stable, canonical_tool_name-trim,
  canonical_ne_blank,
}
use openclawssy.Policy.Capability.{canonical_capability_tool}

to_lower-blank : (s : Text) → (to_lower s == []) ≡ (s == [])
unfolding to_lower text_beq
to_lower-blank [] = refl
to_lower-blank (c ∷ s) = refl

canonical_known :
    (tool name : Text)
    → (trim tool == []) ≡ false
    → canonical_tool_name (trim tool) ≡ some name
    → canonical_capability_tool tool ≡ name
unfolding canonical_capability_tool
canonical_known tool name full e = rw (full, e)

canonical_unknown :
    (tool : Text)
    → (trim tool == []) ≡ false
    → canonical_tool_name (trim tool) ≡ none
    → canonical_capability_tool tool ≡ to_lower (trim tool)
unfolding canonical_capability_tool
canonical_unknown tool full e = rw (full, e)

canonical_blank : (tool : Text) → (trim tool == []) ≡ true → canonical_capability_tool tool ≡ []
unfolding canonical_capability_tool
canonical_blank tool blank = rw blank

idem_known :
    (tool name : Text)
    → canonical_tool_name (trim tool) ≡ some name
    → canonical_capability_tool name ≡ name
idem_known tool name e =
    canonical_known name name (canonical_ne_blank (trim tool) name e)
      (canonical_tool_name-trim name ∙ canonical_tool_name-stable (trim tool) name e)

idem_unknown :
    (tool : Text)
    → (trim tool == []) ≡ false
    → canonical_tool_name (trim tool) ≡ none
    → canonical_capability_tool (to_lower (trim tool)) ≡ to_lower (trim tool)
idem_unknown tool full e =
    let t : trim (to_lower (trim tool)) ≡ to_lower (trim tool) =
      trim-to_lower (trim tool) ∙ ap to_lower (trim-trim tool) in
    canonical_unknown (to_lower (trim tool))
      (ap (λ (s : Text). s == []) t ∙ to_lower-blank (trim tool) ∙ full)
      (ap canonical_tool_name t
        ∙ canonical_tool_name-normal tool
        ∙ sym (canonical_tool_name-trim tool)
        ∙ e)
    ∙ ap to_lower t
    ∙ to_lower-to_lower (trim tool)

-- Normalising a capability name twice is normalising it once.
pub canonical_capability_tool_idem :
    (tool : Text)
    → canonical_capability_tool (canonical_capability_tool tool) ≡ canonical_capability_tool tool
canonical_capability_tool_idem tool = elim (Bool-cases (trim tool == [])) [
  | inl blank ↦ rw (canonical_blank tool blank) blank_idem
  | inr full ↦ elim (Option-cases (canonical_tool_name (trim tool))) [
    | inl unknown ↦ rw (canonical_unknown tool full unknown) (idem_unknown tool full unknown)
    | inr (name, known) ↦ rw (canonical_known tool name full known) (idem_known tool name known)
  ]
]
  where
    blank_idem : canonical_capability_tool [] ≡ []
    blank_idem = canonical_blank [] (unfold trim text_beq in refl)

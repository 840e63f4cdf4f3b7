-- ===== src/Toolparse/Names/Stable.antt =====
-- A canonical name stands for itself, and only the trimmed, lower-case form of a name counts.
use openclawssy.Base.{
  ◌≡◌, refl, sym, ap, ◌∙◌, Bool, true, false, ◌&&◌, not, Option, none, some, [], ◌∷◌, Text, codes,
  trim, to_lower, Map, lookup, text_eq, ◌==◌, eq_iff, arith, subst, trim-trim, trim-to_lower,
  to_lower-to_lower, text_beq, contains_text, replace_all, Option-cases, inl, inr, Bool-cases,
}
use openclawssy.Toolparse.Names.{tool_aliases, alias_of, canonical_tool_name}

pub is_some_of : Option Text → Text → Bool
is_some_of none name = false
is_some_of (some n) name = n == name

-- Each name of a table is a key of the whole table that stands for itself, trimmed and lower case.
names_stable : Map Text Text → Bool
unfolding is_some_of
names_stable [] = true
names_stable ((key, name) ∷ rest) =
    is_some_of (lookup name tool_aliases) name
    && to_lower (trim name) == name
    && not (name == [])
    && names_stable rest

aliases_stable : names_stable tool_aliases ≡ true
unfolding names_stable tool_aliases lookup codes text_beq trim to_lower
aliases_stable = refl

pub record IsCanonical (name : Text) : Type 0 where
  pub known : lookup name tool_aliases ≡ some name
  pub normal : to_lower (trim name) ≡ name
  pub not_blank : (name == []) ≡ false

-- What `names_stable` says of one entry.
abbrev stable_name : Text → Bool
stable_name name =
    is_some_of (lookup name tool_aliases) name && to_lower (trim name) == name && not (name == [])

is_some_of-eq : (o : Option Text) (name : Text) → is_some_of o name ≡ true → o ≡ some name
unfolding is_some_of
is_some_of-eq none name h = cc
is_some_of-eq (some n) name h = ap some ((eq_iff n name).0 h)

stable-IsCanonical : (name : Text) → stable_name name ≡ true → IsCanonical name
stable-IsCanonical name h = record {
  known = is_some_of-eq (lookup name tool_aliases) name (ground arith);
  normal = (eq_iff (to_lower (trim name)) name).0 (ground arith);
  not_blank = ground arith;
}

head_stable :
    (key name : Text) (m : Map Text Text)
    → names_stable ((key, name) ∷ m) ≡ true
    → (stable_name name ≡ true) × (names_stable m ≡ true)
unfolding names_stable
head_stable key name m h = ground arith

lookup-IsCanonical :
    (m : Map Text Text) (key name : Text)
    → names_stable m ≡ true
    → lookup key m ≡ some name
    → IsCanonical name
unfolding lookup
lookup-IsCanonical [] key name h e = record { known = cc; normal = cc; not_blank = cc }
lookup-IsCanonical ((k, n) ∷ m) key name h e = elim (Bool-cases (k == key)) [
  | inl hit ↦
      let q : n ≡ name = ground arith in
      subst IsCanonical q (stable-IsCanonical n (head_stable k n m h).0)
  | inr miss ↦ lookup-IsCanonical m key name (head_stable k n m h).1 (rw miss at e)
]

alias_of-IsCanonical : (candidate name : Text) → alias_of candidate ≡ some name → IsCanonical name
unfolding alias_of
alias_of-IsCanonical candidate name e = elim (Option-cases (lookup candidate tool_aliases)) [
  | inl none_here ↦ elim (Bool-cases (contains_text candidate (codes "__"))) [
    | inl dots ↦
        lookup-IsCanonical tool_aliases (replace_all (codes "__") (codes ".") candidate) name
          aliases_stable (rw (none_here, dots, alias_of) at e)
    | inr plain ↦ cc (rw (none_here, plain, alias_of) at e)
  ]
  | inr (n, here) ↦
      lookup-IsCanonical tool_aliases candidate name aliases_stable
        (here ∙ rw (here, alias_of) at e)
]

canonical_tool_name-IsCanonical :
    (tool name : Text) → canonical_tool_name tool ≡ some name → IsCanonical name
unfolding canonical_tool_name
canonical_tool_name-IsCanonical tool name e = elim (Bool-cases (to_lower (trim tool) == [])) [
  | inl blank ↦ cc (rw blank at e)
  | inr full ↦ alias_of-IsCanonical (to_lower (trim tool)) name (rw full at e)
]

-- Of a name only its trimmed, lower-case form counts.
pub canonical_tool_name-normal :
    (tool : Text) → canonical_tool_name (to_lower (trim tool)) ≡ canonical_tool_name tool
unfolding canonical_tool_name
canonical_tool_name-normal tool =
    rw (trim-to_lower (trim tool), trim-trim tool, to_lower-to_lower (trim tool))

-- A canonical name is its own canonical name.
pub canonical_tool_name-stable :
    (tool name : Text) → canonical_tool_name tool ≡ some name → canonical_tool_name name ≡ some name
unfolding canonical_tool_name alias_of
canonical_tool_name-stable tool name e =
    let c = canonical_tool_name-IsCanonical tool name e in
    rw (c.normal, c.not_blank, c.known, alias_of)

pub canonical_tool_name-trim :
    (tool : Text) → canonical_tool_name (trim tool) ≡ canonical_tool_name tool
unfolding canonical_tool_name
canonical_tool_name-trim tool = rw trim-trim

-- A canonical name is not blank.
pub canonical_ne_blank :
    (tool name : Text) → canonical_tool_name tool ≡ some name → (trim name == []) ≡ false
unfolding to_lower text_beq
canonical_ne_blank tool name e =
    let c = canonical_tool_name-IsCanonical tool name e in go (trim name) c.normal c.not_blank
  where
    go : (t : Text) → to_lower t ≡ name → (name == []) ≡ false → (t == []) ≡ false
    go [] e n = subst (λ (u : Text). (u == []) ≡ false) (sym e) n
    go (x ∷ t) e n = refl

-- ===== src/Policy/PathGuard/Tree.antt =====
-- A file system for the tests of the path guard: every path is there, "/l" is a link to "/w", the
-- paths without ".." that begin with a slash are absolute, and Rel goes down only.
use openclawssy.Base.{
  suc, ◌≡◌, ◌⊎◌, subst, inl, inr, refl, ap, sym, ◌∙◌, Bool, true, false, ◌&&◌, not, Option, some,
  none, List, [], ◌∷◌, ◌++◌, drop, length, Text, codes, if◌then◌else◌, nat_beq, eq_iff, Bool-cases,
  filter_by, arith, text_beq, text_eq, ◌==◌, has_prefix, contains,
}
use openclawssy.Policy.PathGuard.{Paths, split_slashes, add_to_first}
use openclawssy.Policy.PathGuard.Laws.{Lawful, IsTidy, is_name, components, climbing}

unfoldable pub rooted : Text → Bool
rooted p = has_prefix p (codes "/") && not (climbing p)

unfoldable pub relative : Text → Text → Option Text
relative a b =
    let rest = drop (suc (length a)) b in
    if rooted a && rooted b
    then if a == b
      then some (codes ".")
      else if (a ++ (b'/' ∷ rest)) == b && not (climbing rest) && not (rest == codes ".")
      then some rest
      else none
    else none

unfoldable pub joined : Text → Text → Text
joined a r = if r == codes "." then a else a ++ (b'/' ∷ r)

unfoldable pub led : Text → Text
led p = if p == codes "/l" then codes "/w" else p

unfoldable pub tree : Paths
tree = record {
  path_clean = λ p. p;
  abs = λ p. if rooted p then some p else none;
  eval_symlinks = λ p. some (led p);
  is_abs = rooted;
  clean = λ p. p;
  join = joined;
  dir = λ p. codes "/l";
  base = λ p. p;
  rel = relative;
  exists = λ p. p == codes "/l";
  lexists = λ p. true;
  dir-settles = λ p. inl refl;
}

split_slashes_cons :
    (s : Text) → (part : Text) × (parts : List Text) × (split_slashes s ≡ part ∷ parts)
unfolding split_slashes add_to_first
split_slashes_cons [] = ([], [], refl)
split_slashes_cons (c ∷ s) =
    let (part, parts, shape) = split_slashes_cons s in
    elim (Bool-cases (nat_beq c b'/')) [
      | inl slash ↦ ([], split_slashes s, ground (arith, slash))
      | inr other ↦ (c ∷ part, parts, ground (arith, other, shape))
    ]

split_slashes-append :
    (a r : Text) → split_slashes (a ++ (b'/' ∷ r)) ≡ split_slashes a ++ split_slashes r
unfolding split_slashes add_to_first
split_slashes-append [] r = ground arith
split_slashes-append (c ∷ a) r =
    let (part, parts, shape) = split_slashes_cons a in
    ground (arith, shape, split_slashes-append a r)

filter_by-append :
    (p : Text → Bool) (xs ys : List Text)
    → filter_by p (xs ++ ys) ≡ filter_by p xs ++ filter_by p ys
unfolding filter_by
filter_by-append p [] ys = refl
filter_by-append p (x ∷ xs) ys = ground (arith, filter_by-append p xs ys)

append_nil : (xs : List Text) → xs ++ [] ≡ xs
append_nil [] = refl
append_nil (x ∷ xs) = ap (λ rest. x ∷ rest) (append_nil xs)

components_here : (r : Text) → (r == codes ".") ≡ true → components r ≡ []
unfolding components codes split_slashes add_to_first text_beq filter_by
components_here r here = ap components ((eq_iff r (codes ".")).0 here)

joined_here : (a : Text) → joined a (codes ".") ≡ a
unfolding joined codes text_beq
joined_here a = refl

joined_below : (a r : Text) → (r == codes ".") ≡ false → joined a r ≡ a ++ (b'/' ∷ r)
unfolding joined
joined_below a r apart = ground (arith, apart)

components-joined : (a r : Text) → components (joined a r) ≡ components a ++ components r
unfolding joined components
components-joined a r = elim (Bool-cases (r == codes ".")) [
  | inl here ↦ ground (arith, here, components_here r here, append_nil (components a))
  | inr there ↦
      ap components (joined_below a r there)
      ∙ ap (filter_by is_name) (split_slashes-append a r)
      ∙ filter_by-append is_name (split_slashes a) (split_slashes r)
]

-- The two results of Rel.
relative_cases :
    (a b r : Text)
    → relative a b ≡ some r
    → ((a ≡ b) × (codes "." ≡ r))
      ⊎ ((a ++ (b'/' ∷ r) ≡ b) × (climbing r ≡ false) × ((r == codes ".") ≡ false))
unfolding relative
relative_cases a b r e = elim (Bool-cases (a == b)) [
  | inl same ↦ inl ((eq_iff a b).0 same, ground (arith, same))
  | inr apart ↦
      let rest = drop (suc (length a)) b in
      let found : rest ≡ r = ground (arith, apart) in
      let met : (((a ++ (b'/' ∷ rest)) == b) && not (climbing rest) && not (rest == codes "."))
          ≡ true =
        ground (arith, apart) in
      below r (
        subst (λ r. (((a ++ (b'/' ∷ r)) == b) && not (climbing r) && not (r == codes ".")) ≡ true)
          found met)
]
  where
    below :
        (r : Text)
        → (((a ++ (b'/' ∷ r)) == b) && not (climbing r) && not (r == codes ".")) ≡ true
        → ((a ≡ b) × (codes "." ≡ r))
          ⊎ ((a ++ (b'/' ∷ r) ≡ b) × (climbing r ≡ false) × ((r == codes ".") ≡ false))
    below r met = inr ((eq_iff (a ++ (b'/' ∷ r)) b).0 (ground arith), ground arith, ground arith)

relative-joined : (a b r : Text) → relative a b ≡ some r → joined a r ≡ b
relative-joined a b r e = elim (relative_cases a b r e) [
  | inl (same, here) ↦ sym (ap (joined a) here) ∙ joined_here a ∙ same
  | inr (below, level, apart) ↦ joined_below a r apart ∙ below
]

relative-rooted : (a b r : Text) → relative a b ≡ some r → rooted a ≡ rooted b
unfolding relative
relative-rooted a b r e = ground arith

level_here : climbing (codes ".") ≡ false
unfolding climbing components codes split_slashes add_to_first text_beq filter_by contains
level_here = refl

relative-level : (a b r : Text) → relative a b ≡ some r → climbing r ≡ false
relative-level a b r e = elim (relative_cases a b r e) [
  | inl (same, here) ↦ sym (ap climbing here) ∙ level_here
  | inr (below, level, apart) ↦ level
]

led_target : led (codes "/w") ≡ codes "/w"
unfolding led codes text_beq
led_target = refl

target_rooted : rooted (codes "/w") ≡ true
unfolding rooted climbing components is_name codes split_slashes add_to_first text_beq filter_by
    contains has_prefix
target_rooted = refl

-- A path is the link, which leads to "/w", or it stays.
led_cases : (p q : Text) → some (led p) ≡ some q → (codes "/w" ≡ q) ⊎ ((p ≡ q) × (led q ≡ q))
unfolding led
led_cases p q e = elim (Bool-cases (p == codes "/l")) [
  | inl link ↦ inl (ground (arith, link))
  | inr plain ↦
      let same : p ≡ q = ground (arith, plain) in
      let stays : led p ≡ p = ground (arith, plain) in inr (same, subst (λ p. led p ≡ p) same stays)
]

led-led : (p q : Text) → some (led p) ≡ some q → some (led q) ≡ some q
led-led p q e = elim (led_cases p q e) [
  | inl link ↦ ap some (subst (λ p. led p ≡ p) link led_target)
  | inr (same, stays) ↦ ap some stays
]

led-rooted : (p q : Text) → rooted p ≡ true → some (led p) ≡ some q → rooted q ≡ true
led-rooted p q h e = elim (led_cases p q e) [
  | inl link ↦ subst (λ p. rooted p ≡ true) link target_rooted
  | inr (same, stays) ↦ subst (λ p. rooted p ≡ true) same h
]

pub tree-Lawful : Lawful tree
unfolding tree rooted IsTidy
tree-Lawful = record {
  abs_rooted = λ p q e. ground arith;
  eval_rooted = λ p q h e. led-rooted p q h e;
  eval_clean = λ p q e. refl;
  eval_again = λ p q e. led-led p q e;
  eval_exists = λ p q h e. refl;
  join_clean = λ a b h. refl;
  clean_plain = λ p h. ground arith;
  rel_joins = λ a b r e. relative-joined a b r e;
  rel_rooted = λ a b r e. relative-rooted a b r e;
  rel_climbs = λ a b r e h. absurd (ground (arith, relative-level a b r e));
  join_below = λ a r h k. components-joined a r;
}

-- ===== src/Policy/PathGuard/Laws.antt =====
-- What path/filepath documents of Unix paths, and what containment in the workspace comes to with it.
use openclawssy.Base.{
  ◌≡◌, sym, ap, ◌∙◌, Bool, true, false, ◌&&◌, ◌||◌, not, some, List, [], ◌∷◌, ◌++◌, filter_by, Text,
  codes, text_eq, text_beq, ◌==◌, eq_iff, has_prefix, contains, arith, Bool-cases, Option-cases,
  inl, inr, refl,
}
use openclawssy.Policy.PathGuard.{
  Paths, split_slashes, add_to_first, is_within_workspace, protected_parts, protected_control_files,
  is_protected_control_path,
}

-- Neither empty nor ".", which stays in place.
unfoldable pub is_name : Text → Bool
is_name part = not (part == [] || part == codes ".")

unfoldable pub components : Text → List Text
unfolding is_name
components p = filter_by is_name (split_slashes p)

unfoldable pub climbing : Text → Bool
climbing p = contains (components p) (codes "..")

-- Clean leaves the path, if it is absolute.
unfoldable pub IsTidy : Paths → Text → Type 0
IsTidy fs p = fs.is_abs p ≡ true → fs.clean p ≡ p

-- The laws of package path/filepath on Unix, with a file system that stays as it is during the call:
-- Abs and EvalSymlinks of an absolute path are absolute; what EvalSymlinks returns is clean and
-- has no links left; an absolute path for which it succeeds exists for Lstat; an absolute path that
-- Join returns is clean, and a clean absolute path has no "..";
-- Join of a base with the Rel of a target from it is the target; Rel has a result only for two
-- absolute or two relative paths, and it climbs first; Join puts the elements of its arguments
-- together where neither climbs.
pub record Lawful (fs : Paths) : Type 0 where
  pub abs_rooted : (p q : Text) → fs.abs p ≡ some q → fs.is_abs q ≡ true
  pub eval_rooted :
      (p q : Text) → fs.is_abs p ≡ true → fs.eval_symlinks p ≡ some q → fs.is_abs q ≡ true
  pub eval_clean : (p q : Text) → fs.eval_symlinks p ≡ some q → fs.clean q ≡ q
  pub eval_again : (p q : Text) → fs.eval_symlinks p ≡ some q → fs.eval_symlinks q ≡ some q
  pub eval_exists :
      (p q : Text) → fs.is_abs p ≡ true → fs.eval_symlinks p ≡ some q → fs.lexists p ≡ true
  pub join_clean : (a b : Text) → IsTidy fs (fs.join a b)
  pub clean_plain : (p : Text) → fs.is_abs p ≡ true → climbing (fs.clean p) ≡ false
  pub rel_joins : (a b r : Text) → fs.rel a b ≡ some r → fs.join a r ≡ fs.clean b
  pub rel_rooted : (a b r : Text) → fs.rel a b ≡ some r → fs.is_abs a ≡ fs.is_abs b
  pub rel_climbs :
      (a b r : Text)
      → fs.rel a b ≡ some r
      → climbing r ≡ true
      → (r == codes ".." || has_prefix r (codes "../")) ≡ true
  pub join_below :
      (a r : Text)
      → climbing a ≡ false
      → climbing r ≡ false
      → components (fs.join a r) ≡ components a ++ components r

-- An absolute path without ".." whose elements begin with those of the workspace.
pub record IsBelow (fs : Paths) (workspace path : Text) : Type 0 where
  pub rooted : fs.is_abs path ≡ true
  pub plain : climbing path ≡ false
  pub below : (rest : List Text) × (components path ≡ components workspace ++ rest)

-- A path without symbolic links.
unfoldable pub IsReal : Paths → Text → Type 0
IsReal fs path = fs.eval_symlinks path ≡ some path

stays : (r : Text) → (r == codes ".") ≡ true → climbing r ≡ false
unfolding climbing components codes split_slashes add_to_first text_beq contains filter_by
stays r here = ap climbing ((eq_iff r (codes ".")).0 here)

within_rel :
    (fs : Paths) (workspace path : Text)
    → is_within_workspace fs workspace path ≡ true
    → (r : Text) × (fs.rel workspace path ≡ some r)
      × (((r == codes ".") || not (r == codes ".." || has_prefix r (codes "../"))) ≡ true)
unfolding is_within_workspace
within_rel fs workspace path within = elim (Option-cases (fs.rel workspace path)) [
  | inl bad ↦ absurd (ground (arith, bad))
  | inr (r, related) ↦ (r, related, ground (arith, related))
]

-- A clean path that the check on Rel accepts lies below the workspace.
pub is_within_workspace-IsBelow :
    (fs : Paths) (workspace path : Text)
    → Lawful fs
    → fs.is_abs workspace ≡ true
    → fs.clean workspace ≡ workspace
    → IsTidy fs path
    → is_within_workspace fs workspace path ≡ true
    → IsBelow fs workspace path
unfolding IsTidy
is_within_workspace-IsBelow fs workspace path lawful rooted clean tidy within =
    let (r, related, inward) = within_rel fs workspace path within in
    let plain = not_climbing r related inward in
    let workspace_plain = sym (ap climbing clean) ∙ lawful.clean_plain workspace rooted in
    let path_rooted = sym (lawful.rel_rooted workspace path r related) ∙ rooted in
    let path_clean = tidy path_rooted in
    record {
      rooted = path_rooted;
      plain = sym (ap climbing path_clean) ∙ lawful.clean_plain path path_rooted;
      below = (
        components r,
        ap components (sym path_clean)
            ∙ ap components (sym (lawful.rel_joins workspace path r related))
            ∙ lawful.join_below workspace r workspace_plain plain,
      );
    }
  where
    not_climbing :
        (r : Text)
        → fs.rel workspace path ≡ some r
        → ((r == codes ".") || not (r == codes ".." || has_prefix r (codes "../"))) ≡ true
        → climbing r ≡ false
    not_climbing r related inward = elim (Bool-cases (climbing r)) [
      | inl up ↦ ground (arith, stays r, lawful.rel_climbs workspace path r related up)
      | inr level ↦ level
    ]

-- Where the control files stand: a path that ends in ".openclawssy", or one with such an element
-- and the name of a control file.
unfoldable pub ends_in : Text → List Text → Bool
ends_in name [] = false
ends_in name (part ∷ parts) = elim parts [ [] ↦ part == name | next ∷ rest ↦ ends_in name parts ]

unfoldable pub is_control : Paths → Text → Bool
is_control fs path =
    let parts = split_slashes path in
    ends_in (codes ".openclawssy") parts
    || (contains parts (codes ".openclawssy") && contains protected_control_files (fs.base path))

protected_parts_lem :
    (base : Text) (parts : List Text)
    → protected_parts base parts ≡ (
        ends_in (codes ".openclawssy") parts
        || (contains parts (codes ".openclawssy") && contains protected_control_files base))
unfolding protected_parts ends_in contains
protected_parts_lem base [] = refl
protected_parts_lem base (part ∷ []) = ground arith
protected_parts_lem base (part ∷ next ∷ rest) =
    ground (arith, protected_parts_lem base (next ∷ rest))

pub is_protected_control_path_lem :
    (fs : Paths) (path : Text) → is_protected_control_path fs path ≡ is_control fs path
unfolding is_protected_control_path is_control
is_protected_control_path_lem fs path = protected_parts_lem (fs.base path) (split_slashes path)

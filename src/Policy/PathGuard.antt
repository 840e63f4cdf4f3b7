-- ===== src/Policy/PathGuard.antt =====
-- internal/policy/pathguard.go: which paths a tool may read, write or create, on Unix.
pub mod Inside
pub mod Traversal
pub mod Laws
pub mod Granted
mod Tree
mod Samples
use openclawssy.Base.{
  ℕ, zero, suc, ◌+◌, ◌<◌, ◌≡◌, ◌⊎◌, Bool, true, false, ◌&&◌, ◌||◌, not, Option, none, some, List,
  [], ◌∷◌, ◌++◌, drop, length, Text, codes, text_eq, ◌==◌, trim, has_prefix, replace_all,
  if◌then◌else◌, leb, nat_beq, contains,
}

-- What the code takes from packages path, path/filepath and os, with the documented law that its loop
-- rests on: Dir drops the last element, until it comes to a root or to ".". The other laws are in Laws.
pub record Paths : Type 0 where
  pub path_clean : Text → Text
  pub abs : Text → Option Text
  pub eval_symlinks : Text → Option Text
  pub is_abs : Text → Bool
  pub clean : Text → Text
  pub join : Text → Text → Text
  pub dir : Text → Text
  pub base : Text → Text
  pub rel : Text → Text → Option Text
  pub exists : Text → Bool
  pub lexists : Text → Bool
  pub dir-settles : (p : Text) → (dir (dir p) ≡ dir p) ⊎ (length (dir p) < length p)

pub data PathError : Type 0 where
  workspace_required empty_path invalid_path path_traversal workspace_unresolved : PathError
  no_write_parent no_read_path no_ancestor ancestor_unresolved no_relative_path : PathError
  outside_workspace protected_path loops : PathError

pub data Resolved : Type 0 where
  ok : Text → Resolved
  err : PathError → Resolved

-- strings.Split at "/".
unfoldable pub add_to_first : ℕ → List Text → List Text
add_to_first c [] = (c ∷ []) ∷ []
add_to_first c (part ∷ parts) = (c ∷ part) ∷ parts

unfoldable pub split_slashes : Text → List Text
unfolding add_to_first
split_slashes [] = [] ∷ []
split_slashes (c ∷ s) =
    let parts = split_slashes s in if nat_beq c b'/' then [] ∷ parts else add_to_first c parts

unfoldable pub slashed : Text → Text
slashed s = replace_all (codes "\\") (codes "/") s

is_letter : ℕ → Bool
is_letter c = (leb b'a' c && leb c b'z') || (leb b'A' c && leb c b'Z')

unfoldable pub has_windows_drive_prefix : Text → Bool
unfolding is_letter
has_windows_drive_prefix [] = false
has_windows_drive_prefix (c ∷ []) = false
has_windows_drive_prefix (c ∷ d ∷ s) = is_letter c && nat_beq d b':'

-- The text after the first slash.
after_slash : Text → Option Text
after_slash [] = none
after_slash (c ∷ s) = let later = after_slash s in if nat_beq c b'/' then some s else later

-- The third part of strings.SplitN(rest, "/", 3).
third_part : Text → Option Text
unfolding after_slash
third_part rest = elim (after_slash rest) [ none ↦ none | some s ↦ after_slash s ]

unfoldable pub strip_windows_path_root : Text → Text
unfolding third_part has_windows_drive_prefix
strip_windows_path_root value =
    let trimmed = trim value in
    let device =
      if has_prefix trimmed (codes "//?/") || has_prefix trimmed (codes "//./")
      then drop 4 trimmed
      else trimmed in
    let driven = if has_windows_drive_prefix device then drop 2 device else device in
    if has_prefix driven (codes "//")
    then elim (third_part (drop 2 driven)) [ none ↦ codes "/" | some rest ↦ b'/' ∷ rest ]
    else driven

unfoldable pub has_traversal : Paths → Text → Bool
unfolding strip_windows_path_root split_slashes slashed
has_traversal fs target =
    if trim target == []
    then false
    else let normalized = strip_windows_path_root (slashed (trim target)) in
      let clean = fs.path_clean normalized in
      if clean == codes ".." || has_prefix clean (codes "../")
      then true
      else contains (split_slashes normalized) (codes "..")

unfoldable pub is_absolute_target : Paths → Text → Bool
unfolding slashed has_windows_drive_prefix
is_absolute_target fs target =
    let clean = trim target in
    if clean == []
    then false
    else if fs.is_abs clean
    then true
    else let normalized = slashed clean in
      if has_windows_drive_prefix normalized && has_prefix (drop 2 normalized) (codes "/")
      then true
      else has_prefix normalized (codes "//")

unfoldable pub is_windows_drive_relative : Text → Bool
unfolding slashed has_windows_drive_prefix
is_windows_drive_relative target =
    let normalized = slashed (trim target) in
    has_windows_drive_prefix normalized && not (has_prefix (drop 2 normalized) (codes "/"))

unfoldable pub protected_control_files : List Text
protected_control_files =
    codes "config.json"
    ∷ codes "master.key"
    ∷ codes "secrets.enc"
    ∷ codes "SOUL.md"
    ∷ codes "RULES.md"
    ∷ codes "SPECPLAN.md"
    ∷ []

-- The loop over the parts of the path.
unfoldable pub protected_parts : Text → List Text → Bool
protected_parts base [] = false
protected_parts base (part ∷ parts) =
    let later = protected_parts base parts in
    if not (part == codes ".openclawssy") then later else elim parts [
      | [] ↦ true
      | next ∷ rest ↦ if contains protected_control_files base then true else later
    ]

unfoldable pub is_protected_control_path : Paths → Text → Bool
unfolding protected_parts split_slashes
is_protected_control_path fs abs_path = protected_parts (fs.base abs_path) (split_slashes abs_path)

unfoldable pub is_within_workspace : Paths → Text → Text → Bool
is_within_workspace fs workspace_real path_real = elim (fs.rel workspace_real path_real) [
  | none ↦ false
  | some rel ↦
      if rel == codes "."
      then true
      else if rel == codes ".." || has_prefix rel (codes "../")
      then false
      else not (fs.is_abs rel)
]

-- The guards on the target that both functions begin with, and the real path of the workspace.
unfoldable pub guarded : Paths → Text → Text → (Text → Resolved) → Resolved
unfolding has_traversal is_windows_drive_relative
guarded fs workspace target next =
    if workspace == []
    then err workspace_required
    else if target == []
    then err empty_path
    else if is_windows_drive_relative target
    then err invalid_path
    else if has_traversal fs target
    then err path_traversal
    else elim (fs.abs workspace) [
      | none ↦ err workspace_unresolved
      | some ws_abs ↦ elim (fs.eval_symlinks ws_abs) [
        | none ↦ err workspace_unresolved
        | some ws_real ↦ next ws_real
      ]
    ]

unfoldable pub target_path : Paths → Text → Text → Text
unfolding is_absolute_target slashed
target_path fs ws_real target =
    fs.clean (if is_absolute_target fs target then slashed target else fs.join ws_real target)

-- The path to check: for a write the parent's real path with the name, and what a link there points to.
unfoldable pub candidate_path : Paths → Bool → Text → Resolved
candidate_path fs true target_abs = elim (fs.eval_symlinks (fs.dir target_abs)) [
  | none ↦ err no_write_parent
  | some parent ↦
      let candidate = fs.join parent (fs.base target_abs) in
      if fs.lexists candidate
      then elim (fs.eval_symlinks candidate) [ none ↦ ok candidate | some real ↦ ok real ]
      else ok candidate
]
candidate_path fs false target_abs = elim (fs.eval_symlinks target_abs) [
  | none ↦ err no_read_path
  | some candidate ↦ ok candidate
]

unfoldable pub checked : Paths → Bool → Text → Text → Resolved
unfolding is_within_workspace is_protected_control_path
checked fs write ws_real candidate =
    if not (is_within_workspace fs ws_real candidate)
    then err outside_workspace
    else if write && is_protected_control_path fs candidate
    then err protected_path
    else ok candidate

unfoldable pub resolve_path : Paths → Text → Text → Bool → Resolved
unfolding guarded target_path candidate_path checked
resolve_path fs workspace target write = guarded fs workspace target (λ ws_real.
    elim (candidate_path fs write (target_path fs ws_real target)) [
      | err e ↦ err e
      | ok candidate ↦ checked fs write ws_real candidate
    ])

-- The loop that walks up to an ancestor that exists, on fuel.
unfoldable pub find_ancestor : Paths → ℕ → Text → Resolved
find_ancestor fs zero path = err loops
find_ancestor fs (suc fuel) path =
    let above = find_ancestor fs fuel (fs.dir path) in
    if fs.exists path then ok path else if fs.dir path == path then err no_ancestor else above

unfoldable pub resolve_mkdir_path : Paths → Text → Text → Resolved
unfolding guarded target_path find_ancestor checked
resolve_mkdir_path fs workspace target = guarded fs workspace target (λ ws_real.
    let target_abs = target_path fs ws_real target in
    elim (find_ancestor fs (suc (suc (length target_abs))) target_abs) [
      | err e ↦ err e
      | ok ancestor ↦ elim (fs.eval_symlinks ancestor) [
        | none ↦ err ancestor_unresolved
        | some ancestor_real ↦
            if not (is_within_workspace fs ws_real ancestor_real)
            then err outside_workspace
            else elim (fs.rel ancestor target_abs) [
              | none ↦ err no_relative_path
              | some rel ↦ checked fs true ws_real (fs.join ancestor_real rel)
            ]
      ]
    ])

-- ===== src/Policy/PathGuard/Traversal.antt =====
-- HasTraversal tests the parts of the path that the caller gave, at separators of either kind.
use openclawssy.Base.{
  ℕ, ◌≡◌, refl, sym, ap, ◌∙◌, Bool, true, false, ◌&&◌, ◌||◌, not, text_beq, List, [], ◌∷◌, map,
  Text, codes, trim, trim-trim, trim-map, is_space, has_prefix, contains, text_eq, ◌==◌, nat_beq,
  if◌then◌else◌, replace_all-map, arith, Bool-cases, inl, inr,
}
use openclawssy.Policy.PathGuard.{
  Paths, slashed, add_to_first, strip_windows_path_root, has_windows_drive_prefix, split_slashes,
  has_traversal,
}

-- The parts of a path between slashes and backslashes.
unfoldable pub split_separators : Text → List Text
split_separators [] = [] ∷ []
split_separators (c ∷ s) =
    let parts = split_separators s in
    if nat_beq c b'/' || nat_beq c b'\\' then [] ∷ parts else add_to_first c parts

turned : ℕ → ℕ
turned c = if nat_beq c b'\\' then b'/' else c

slashed-map : (s : Text) → slashed s ≡ map turned s
unfolding slashed codes turned
slashed-map s = replace_all-map b'\\' b'/' s

split_slashes-slashed : (s : Text) → split_slashes (slashed s) ≡ split_separators s
unfolding split_slashes split_separators turned
split_slashes-slashed s = ap split_slashes (slashed-map s) ∙ turned_parts s
  where
    turned_parts : (s : Text) → split_slashes (map turned s) ≡ split_separators s
    turned_parts [] = refl
    turned_parts (c ∷ s) = ground (arith, turned_parts s)

-- Two separators or a drive stand at the beginning.
unfoldable pub has_root : Text → Bool
has_root target =
    has_prefix (slashed (trim target)) (codes "//")
    || has_windows_drive_prefix (slashed (trim target))

turned_space : (c : ℕ) → is_space (turned c) ≡ is_space c
unfolding turned is_space
turned_space c = ground arith

trim-slashed : (s : Text) → trim (slashed (trim s)) ≡ slashed (trim s)
trim-slashed s =
    ap trim (slashed-map (trim s))
    ∙ trim-map turned turned_space (trim s)
    ∙ ap (map turned) (trim-trim s)
    ∙ sym (slashed-map (trim s))

device_prefix :
    (s : Text)
    → has_prefix s (codes "//") ≡ false
    → (has_prefix s (codes "//?/") || has_prefix s (codes "//./")) ≡ false
unfolding has_prefix codes
device_prefix [] h = refl
device_prefix (c ∷ []) h = ground (arith, h)
device_prefix (c ∷ d ∷ s) h = ground (arith, h)

strip_plain :
    (s : Text)
    → trim s ≡ s
    → has_prefix s (codes "//") ≡ false
    → has_windows_drive_prefix s ≡ false
    → strip_windows_path_root s ≡ s
unfolding strip_windows_path_root
strip_plain s trimmed flat driveless = ground (arith, device_prefix s flat)

strip_rootless :
    (target : Text)
    → has_root target ≡ false
    → strip_windows_path_root (slashed (trim target)) ≡ slashed (trim target)
unfolding has_root
strip_rootless target rootless =
    strip_plain (slashed (trim target)) (trim-slashed target) (ground arith) (ground arith)

-- A path that Clean brought out of the directory that it starts in.
unfoldable pub climbs : Text → Bool
climbs clean = clean == codes ".." || has_prefix clean (codes "../")

-- A target that is not blank and has no root in the way of Windows has a traversal exactly if ".." is
-- one of its parts, at separators of either kind, or Clean brings it above the directory it starts in.
pub has_traversal-parts :
    (fs : Paths) (target : Text)
    → has_root target ≡ false
    → (trim target == []) ≡ false
    → has_traversal fs target ≡ (
        climbs (fs.path_clean (slashed (trim target)))
        || contains (split_separators (trim target)) (codes ".."))
unfolding has_traversal climbs
has_traversal-parts fs target rootless full =
    let stripped = strip_rootless target rootless in
    let parts = split_slashes-slashed (trim target) in ground (arith, full, stripped, parts)

blank_clear : (s : Text) → (s == []) ≡ true → contains (split_separators s) (codes "..") ≡ false
unfolding split_separators codes text_beq contains
blank_clear [] h = refl
blank_clear (c ∷ s) h = ground (arith, h)

-- Without a traversal no part of a target without root is "..".
pub has_traversal-clear :
    (fs : Paths) (target : Text)
    → has_traversal fs target ≡ false
    → (not (has_root target) && contains (split_separators (trim target)) (codes "..")) ≡ false
has_traversal-clear fs target clear = elim (Bool-cases (trim target == [])) [
  | inl blank ↦ ground (arith, blank_clear (trim target) blank)
  | inr full ↦ elim (Bool-cases (has_root target)) [
    | inl rooted ↦ ground (arith, rooted)
    | inr rootless ↦ ground (arith, has_traversal-parts fs target rootless full)
  ]
]

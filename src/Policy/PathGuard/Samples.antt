-- ===== src/Policy/PathGuard/Samples.antt =====
-- The path guard on a file system with one link.
use openclawssy.Base.{
  ◌≡◌, ◌≢◌, refl, true, false, ◌||◌, some, [], Text, codes, filter_by, text_beq, text_eq, ◌==◌,
  trim, trim_left, trim_right, is_space, has_prefix, replace_all, contains,
}
use openclawssy.Policy.PathGuard.{
  err, ok, loops, find_ancestor, has_traversal, resolve_path, resolve_mkdir_path, slashed,
  split_slashes, add_to_first, strip_windows_path_root, has_windows_drive_prefix,
  is_windows_drive_relative, is_absolute_target, guarded, target_path, candidate_path, checked,
  is_within_workspace, is_protected_control_path, protected_parts, protected_control_files,
}
use openclawssy.Policy.PathGuard.Inside.{
  resolve_path-IsGranted, resolve_mkdir_path-IsGranted, resolve_mkdir_path-ends,
}
use openclawssy.Policy.PathGuard.Granted.{IsGranted, IsResolved, Nearest}
use openclawssy.Policy.PathGuard.Laws.{components, climbing, IsBelow, IsReal}
use openclawssy.Policy.PathGuard.Traversal.{has_traversal-parts, has_root, climbs, split_separators}
use openclawssy.Policy.PathGuard.Tree.{tree, tree-Lawful, led, relative, rooted, joined}

read_note : resolve_path tree (codes "/w") (codes "/l") false ≡ ok (codes "/w")
unfolding tree led relative rooted joined climbing components filter_by resolve_path guarded
    target_path candidate_path checked is_within_workspace is_protected_control_path protected_parts
    protected_control_files has_traversal slashed split_slashes add_to_first strip_windows_path_root
    has_windows_drive_prefix is_windows_drive_relative is_absolute_target trim trim_left trim_right
    is_space has_prefix replace_all contains codes text_beq
read_note = refl

made_dir : resolve_mkdir_path tree (codes "/w") (codes "/l/note") ≡ ok (codes "/w/note")
unfolding tree led relative rooted joined climbing components filter_by resolve_mkdir_path guarded
    target_path find_ancestor checked is_within_workspace is_protected_control_path protected_parts
    protected_control_files has_traversal slashed split_slashes add_to_first strip_windows_path_root
    has_windows_drive_prefix is_windows_drive_relative is_absolute_target trim trim_left trim_right
    is_space has_prefix replace_all contains codes text_beq
made_dir = refl

resolve_path-IsGranted_example :
    (ws_real : Text) × IsGranted tree (codes "/w") ws_real (codes "/l") false (codes "/w")
    × IsResolved tree false (target_path tree ws_real (codes "/l")) (codes "/w")
resolve_path-IsGranted_example =
    resolve_path-IsGranted tree (codes "/w") (codes "/l") false (codes "/w") tree-Lawful read_note

resolve_mkdir_path-IsGranted_example :
    (ws_real ancestor real_dir rest : Text) × IsGranted tree
      (codes "/w")
      ws_real
      (codes "/l/note")
      true
      (codes "/w/note")
    × Nearest tree (target_path tree ws_real (codes "/l/note")) ancestor
    × (tree.eval_symlinks ancestor ≡ some real_dir)
    × IsReal tree real_dir
    × IsBelow tree ws_real real_dir
    × (tree.rel ancestor (target_path tree ws_real (codes "/l/note")) ≡ some rest)
    × (codes "/w/note" ≡ tree.join real_dir rest)
resolve_mkdir_path-IsGranted_example =
    resolve_mkdir_path-IsGranted tree (codes "/w") (codes "/l/note") (codes "/w/note") tree-Lawful
      made_dir

resolve_mkdir_path-ends_example : resolve_mkdir_path tree (codes "/w") (codes "a/b") ≢ err loops
resolve_mkdir_path-ends_example = resolve_mkdir_path-ends tree (codes "/w") (codes "a/b")

not_blank : (trim (codes "a\\..\\b") == []) ≡ false
unfolding trim trim_left trim_right is_space codes text_beq
not_blank = refl

rootless : has_root (codes "a\\..\\b") ≡ false
unfolding has_root slashed has_windows_drive_prefix replace_all trim trim_left trim_right is_space
    codes has_prefix
rootless = refl

has_traversal-parts_example : has_traversal tree (codes "a\\..\\b") ≡ (
    climbs (tree.path_clean (slashed (trim (codes "a\\..\\b"))))
    || contains (split_separators (trim (codes "a\\..\\b"))) (codes ".."))
has_traversal-parts_example = has_traversal-parts tree (codes "a\\..\\b") rootless not_blank

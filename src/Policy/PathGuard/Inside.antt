-- ===== src/Policy/PathGuard/Inside.antt =====
-- A resolved path lies in the workspace, and the search for an ancestor ends.
use openclawssy.Base.{
  ℕ, zero, suc, ◌<◌, ◌≡◌, ◌≢◌, inl, inr, sym, ap, ◌∙◌, subst, Bool, true, some, Text, length,
  text_eq, eq_iff, arith, Option-cases, Bool-cases,
}
use openclawssy.Policy.PathGuard.{
  Paths, Resolved, ok, err, loops, guarded, checked, candidate_path, target_path, resolve_path,
  find_ancestor, resolve_mkdir_path, is_within_workspace,
}
use openclawssy.Policy.PathGuard.Laws.{Lawful, IsBelow, IsReal, is_within_workspace-IsBelow, IsTidy}
use openclawssy.Policy.PathGuard.Granted.{
  IsGranted, IsResolved, Nearest, here, above, Resolved-cases, guarded-ok, checked-IsGranted,
  candidate_path-IsResolved, candidate_path-IsTidy,
}

-- With the documented laws of package path/filepath, a path that is resolved for reading or writing
-- is absolute, free of "..", and below the real path of the workspace, from a target that has no part
-- ".." unless it has a root in the way of Windows. For reading it is what EvalSymlinks makes of the
-- target, without links. For writing it is what EvalSymlinks makes of the target's name in the real
-- path of its directory, without links, or that very path where EvalSymlinks fails for it, and it is
-- no control file.
pub resolve_path-IsGranted :
    (fs : Paths) (workspace target : Text) (write : Bool) (path : Text)
    → Lawful fs
    → resolve_path fs workspace target write ≡ ok path
    → (ws_real : Text) × IsGranted fs workspace ws_real target write path
      × IsResolved fs write (target_path fs ws_real target) path
unfolding resolve_path
resolve_path-IsGranted fs workspace target write path lawful e =
    let (clear, (ws_abs, ws_real, found, real, rest)) = guarded-ok fs workspace target path _ e in
    let target_abs = target_path fs ws_real target in
    elim (Resolved-cases (candidate_path fs write target_abs)) [
      | inl (bad, failed) ↦ absurd (ground (arith, failed, rest))
      | inr (candidate, found_path) ↦
          let (same, granted) =
            checked-IsGranted fs workspace target ws_abs ws_real write candidate path lawful clear
              found real (candidate_path-IsTidy fs write target_abs candidate lawful found_path)
              (ground (arith, found_path, rest)) in
          (
            ws_real,
            granted,
            candidate_path-IsResolved fs write target_abs path lawful granted.inside.rooted
                (found_path ∙ ap ok same),
          )
    ]

find_ancestor-Nearest :
    (fs : Paths) (fuel : ℕ) (path ancestor : Text)
    → find_ancestor fs fuel path ≡ ok ancestor
    → Nearest fs path ancestor
unfolding find_ancestor
find_ancestor-Nearest fs zero path ancestor e = absurd (ground arith)
find_ancestor-Nearest fs (suc fuel) path ancestor e = elim (Bool-cases (fs.exists path)) [
  | inl there ↦
      let same : path ≡ ancestor = ground (arith, there) in
      subst (λ p. Nearest fs path p) same (here there)
  | inr missing ↦
      above missing (find_ancestor-Nearest fs fuel (fs.dir path) ancestor (ground (arith, missing)))
]

-- With the documented laws of package path/filepath, a directory that ResolveMkdirPath lets be made
-- is absolute, free of "..", below the real path of the workspace and no control file, from a target
-- that has no part ".." unless it has a root in the way of Windows. It is the Join of the real path of
-- the target's nearest ancestor that exists, which is itself below the workspace and without links,
-- and of the Rel of the target from that ancestor.
pub resolve_mkdir_path-IsGranted :
    (fs : Paths) (workspace target path : Text)
    → Lawful fs
    → resolve_mkdir_path fs workspace target ≡ ok path
    → (ws_real ancestor real_dir rest : Text) × IsGranted fs workspace ws_real target true path
      × Nearest fs (target_path fs ws_real target) ancestor
      × (fs.eval_symlinks ancestor ≡ some real_dir)
      × IsReal fs real_dir
      × IsBelow fs ws_real real_dir
      × (fs.rel ancestor (target_path fs ws_real target) ≡ some rest)
      × (path ≡ fs.join real_dir rest)
unfolding resolve_mkdir_path IsReal IsTidy
resolve_mkdir_path-IsGranted fs workspace target path lawful e =
    let (clear, (ws_abs, ws_real, found, real, rest)) = guarded-ok fs workspace target path _ e in
    let target_abs = target_path fs ws_real target in
    let fuel = suc (suc (length target_abs)) in
    let rooted =
      lawful.eval_rooted ws_abs ws_real (lawful.abs_rooted workspace ws_abs found) real in
    elim (Resolved-cases (find_ancestor fs fuel target_abs)) [
      | inl (bad, failed) ↦ absurd (ground (arith, failed, rest))
      | inr (ancestor, walked) ↦ elim (Option-cases (fs.eval_symlinks ancestor)) [
        | inl bad ↦ absurd (ground (arith, walked, bad, rest))
        | inr (real_dir, linked) ↦ elim (Option-cases (fs.rel ancestor target_abs)) [
          | inl bad ↦ absurd (ground (arith, walked, linked, bad, rest))
          | inr (rel, related) ↦
              let within : is_within_workspace fs ws_real real_dir ≡ true =
                ground (arith, walked, linked, related, rest) in
              let (same, granted) =
                checked-IsGranted fs workspace target ws_abs ws_real true (fs.join real_dir rel)
                  path lawful clear found real (lawful.join_clean real_dir rel)
                  (ground (arith, walked, linked, related, rest)) in
              let below =
                is_within_workspace-IsBelow fs ws_real real_dir lawful rooted
                  (lawful.eval_clean ws_abs ws_real real)
                  (λ _. lawful.eval_clean ancestor real_dir linked) within in
              (
                ws_real,
                ancestor,
                real_dir,
                rel,
                granted,
                find_ancestor-Nearest fs fuel target_abs ancestor walked,
                linked,
                lawful.eval_again ancestor real_dir linked,
                below,
                related,
                sym same,
              )
        ]
      ]
    ]

find_ancestor-settled :
    (fs : Paths) (fuel : ℕ) (path : Text)
    → fs.dir path ≡ path
    → find_ancestor fs (suc fuel) path ≢ err loops
unfolding find_ancestor
find_ancestor-settled fs fuel path settled e = ground (arith, eq_iff (fs.dir path) path)

find_ancestor-ends :
    (fs : Paths) (fuel : ℕ) (path : Text)
    → suc (length path) < fuel
    → find_ancestor fs fuel path ≢ err loops
unfolding find_ancestor
find_ancestor-ends fs zero path h e = absurd (omega arith)
find_ancestor-ends fs (suc zero) path h e = absurd (omega arith)
find_ancestor-ends fs (suc (suc fuel)) path h e = elim (fs.dir-settles path) [
  | inl settled ↦ ground (arith, find_ancestor-settled fs fuel (fs.dir path) settled)
  | inr shorter ↦ ground (arith, find_ancestor-ends fs (suc fuel) (fs.dir path) (omega arith))
]

checked-ends :
    (fs : Paths) (write : Bool) (ws_real candidate : Text)
    → checked fs write ws_real candidate ≢ err loops
unfolding checked
checked-ends fs write ws_real candidate e = ground arith

guarded-ends :
    (fs : Paths) (workspace target : Text) (next : Text → Resolved)
    → ((ws_real : Text) → next ws_real ≢ err loops)
    → guarded fs workspace target next ≢ err loops
unfolding guarded
guarded-ends fs workspace target next ends e = elim (Option-cases (fs.abs workspace)) [
  | inl bad ↦ ground (arith, bad)
  | inr (ws_abs, found) ↦ elim (Option-cases (fs.eval_symlinks ws_abs)) [
    | inl bad ↦ ground (arith, found, bad)
    | inr (ws_real, real) ↦ ground (arith, found, real, ends ws_real)
  ]
]

-- The walk up to an ancestor that exists always ends: the steps that ResolveMkdirPath is given, two
-- more than the target has characters, are enough, so that it never runs out of them.
pub resolve_mkdir_path-ends :
    (fs : Paths) (workspace target : Text) → resolve_mkdir_path fs workspace target ≢ err loops
unfolding resolve_mkdir_path
resolve_mkdir_path-ends fs workspace target = guarded-ends fs workspace target _ (λ ws_real e.
    let target_abs = target_path fs ws_real target in
    let ends = find_ancestor-ends fs (suc (suc (length target_abs))) target_abs (omega arith) in
    elim (Resolved-cases (find_ancestor fs (suc (suc (length target_abs))) target_abs)) [
      | inl (bad, failed) ↦ ground (arith, failed, ends)
      | inr (ancestor, walked) ↦ elim (Option-cases (fs.eval_symlinks ancestor)) [
        | inl bad ↦ ground (arith, walked, bad)
        | inr (ancestor_real, linked) ↦ elim (Option-cases (fs.rel ancestor target_abs)) [
          | inl bad ↦ ground (arith, walked, linked, bad)
          | inr (rel, related) ↦ ground (
            arith,
            walked,
            linked,
            related,
            checked-ends fs true ws_real (fs.join ancestor_real rel),
          )
        ]
      ]
    ])

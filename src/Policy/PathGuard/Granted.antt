-- ===== src/Policy/PathGuard/Granted.antt =====
-- What a path that ResolveReadPath, ResolveWritePath or ResolveMkdirPath grants has to be.
use openclawssy.Base.{
  ◌≡◌, sym, ap, subst, ◌∙◌, ◌⊎◌, inl, inr, refl, Bool, true, false, ◌&&◌, not, some, none, Text,
  codes, text_eq, trim, contains, arith, Option-cases, Bool-cases,
}
use openclawssy.Policy.PathGuard.{
  Paths, PathError, Resolved, ok, err, has_traversal, is_within_workspace,
  is_protected_control_path, guarded, checked, candidate_path,
}
use openclawssy.Policy.PathGuard.Laws.{
  Lawful, IsBelow, IsReal, IsTidy, is_control, is_within_workspace-IsBelow,
  is_protected_control_path_lem,
}
use openclawssy.Policy.PathGuard.Traversal.{has_root, split_separators, has_traversal-clear}

-- `ws_real` is the real path of the workspace, no part of a target without root is "..", the path lies below
-- `ws_real`, and it is not the path of a control file if it is to be written.
pub record IsGranted (fs : Paths) (workspace ws_real target : Text) (write : Bool) (path : Text)
    : Type 0 where
  pub clear :
      (not (has_root target) && contains (split_separators (trim target)) (codes "..")) ≡ false
  pub real :
      (ws_abs : Text) × (fs.abs workspace ≡ some ws_abs) × (fs.eval_symlinks ws_abs ≡ some ws_real)
  pub inside : IsBelow fs ws_real path
  pub free : (write && is_control fs path) ≡ false

-- A path with its links resolved, or one for which EvalSymlinks fails in a directory with its links
-- resolved.
unfoldable pub IsResolved : Paths → Bool → Text → Text → Type 0
IsResolved fs false target_abs path = (fs.eval_symlinks target_abs ≡ some path) × IsReal fs path
IsResolved fs true target_abs path =
    (parent : Text) × (fs.eval_symlinks (fs.dir target_abs) ≡ some parent)
    × IsReal fs parent
    × (((fs.eval_symlinks (fs.join parent (fs.base target_abs)) ≡ some path) × IsReal fs path)
        ⊎ ((path ≡ fs.join parent (fs.base target_abs)) × (fs.eval_symlinks path ≡ none)))

-- The nearest of a path's ancestors that exists.
pub data Nearest (fs : Paths) : Text → Text → Type 0 where
  here : {path : Text} → fs.exists path ≡ true → Nearest fs path path
  above :
      {path ancestor : Text}
      → fs.exists path ≡ false
      → Nearest fs (fs.dir path) ancestor
      → Nearest fs path ancestor

checked-ok :
    (fs : Paths) (write : Bool) (ws_real candidate path : Text)
    → checked fs write ws_real candidate ≡ ok path
    → (candidate ≡ path)
      × (is_within_workspace fs ws_real path ≡ true)
      × ((write && is_protected_control_path fs path) ≡ false)
unfolding checked
checked-ok fs write ws_real candidate path e = (ground arith, ground arith, ground arith)

-- What the guards let through.
pub guarded-ok :
    (fs : Paths) (workspace target path : Text) (next : Text → Resolved)
    → guarded fs workspace target next ≡ ok path
    → (has_traversal fs target ≡ false)
      × ((ws_abs ws_real : Text) × (fs.abs workspace ≡ some ws_abs)
          × (fs.eval_symlinks ws_abs ≡ some ws_real)
          × (next ws_real ≡ ok path))
unfolding guarded
guarded-ok fs workspace target path next e = elim (Option-cases (fs.abs workspace)) [
  | inl bad ↦ absurd (ground (arith, bad))
  | inr (ws_abs, found) ↦ elim (Option-cases (fs.eval_symlinks ws_abs)) [
    | inl bad ↦ absurd (ground (arith, found, bad))
    | inr (ws_real, real) ↦
        (ground (arith, found, real), (ws_abs, ws_real, found, real, ground (arith, found, real)))
  ]
]

pub Resolved-cases : (r : Resolved) → ((e : PathError) × (r ≡ err e)) ⊎ ((p : Text) × (r ≡ ok p))
Resolved-cases (ok p) = inr (p, refl)
Resolved-cases (err e) = inl (e, refl)

-- The last checks grant a clean path.
pub checked-IsGranted :
    (fs : Paths) (workspace target ws_abs ws_real : Text) (write : Bool) (candidate path : Text)
    → Lawful fs
    → has_traversal fs target ≡ false
    → fs.abs workspace ≡ some ws_abs
    → fs.eval_symlinks ws_abs ≡ some ws_real
    → IsTidy fs candidate
    → checked fs write ws_real candidate ≡ ok path
    → (candidate ≡ path) × IsGranted fs workspace ws_real target write path
checked-IsGranted fs workspace target ws_abs ws_real write candidate path lawful clear found real
      tidy e =
    let (same, within, free) = checked-ok fs write ws_real candidate path e in
    let rooted =
      lawful.eval_rooted ws_abs ws_real (lawful.abs_rooted workspace ws_abs found) real in
    let clean = lawful.eval_clean ws_abs ws_real real in
    let tidy_path = subst (λ p. IsTidy fs p) same tidy in
    (
      same,
      record {
        clear = has_traversal-clear fs target clear;
        real = (ws_abs, found, real);
        inside = is_within_workspace-IsBelow fs ws_real path lawful rooted clean tidy_path within;
        free =
            ap (λ protected. write && protected) (sym (is_protected_control_path_lem fs path))
            ∙ free;
      },
    )

candidate_path-read :
    (fs : Paths) (target_abs path : Text)
    → candidate_path fs false target_abs ≡ ok path
    → fs.eval_symlinks target_abs ≡ some path
unfolding candidate_path
candidate_path-read fs target_abs path e = elim (Option-cases (fs.eval_symlinks target_abs)) [
  | inl bad ↦ absurd (ground (arith, bad))
  | inr (real, linked) ↦ let same : real ≡ path = ground (arith, linked) in linked ∙ ap some same
]

-- The three ways to a path for writing.
candidate_path-write :
    (fs : Paths) (target_abs path : Text)
    → candidate_path fs true target_abs ≡ ok path
    → (parent : Text) × (fs.eval_symlinks (fs.dir target_abs) ≡ some parent)
      × ((fs.eval_symlinks (fs.join parent (fs.base target_abs)) ≡ some path)
          ⊎ ((fs.join parent (fs.base target_abs) ≡ path)
              × ((fs.lexists path ≡ false) ⊎ (fs.eval_symlinks path ≡ none))))
unfolding candidate_path
candidate_path-write fs target_abs path e =
    elim (Option-cases (fs.eval_symlinks (fs.dir target_abs))) [
      | inl bad ↦ absurd (ground (arith, bad))
      | inr (parent, linked) ↦
          let joined = fs.join parent (fs.base target_abs) in
          elim (Bool-cases (fs.lexists joined)) [
            | inr missing ↦
                let same : joined ≡ path = ground (arith, linked, missing) in
                (parent, linked, inr (same, inl (subst (λ p. fs.lexists p ≡ false) same missing)))
            | inl there ↦ elim (Option-cases (fs.eval_symlinks joined)) [
              | inl failed ↦
                  let same : joined ≡ path = ground (arith, linked, there, failed) in
                  (
                    parent,
                    linked,
                    inr (same, inr (subst (λ p. fs.eval_symlinks p ≡ none) same failed)),
                  )
              | inr (real, led) ↦
                  let same : real ≡ path = ground (arith, linked, there, led) in
                  (parent, linked, inl (led ∙ ap some same))
            ]
          ]
    ]

pub candidate_path-IsTidy :
    (fs : Paths) (write : Bool) (target_abs path : Text)
    → Lawful fs
    → candidate_path fs write target_abs ≡ ok path
    → IsTidy fs path
unfolding IsTidy
candidate_path-IsTidy fs false target_abs path lawful e rooted =
    lawful.eval_clean target_abs path (candidate_path-read fs target_abs path e)
candidate_path-IsTidy fs true target_abs path lawful e rooted =
    let (parent, linked, way) = candidate_path-write fs target_abs path e in
    elim way [
      | inl led ↦ lawful.eval_clean (fs.join parent (fs.base target_abs)) path led
      | inr (same, missing) ↦
          subst (λ p. IsTidy fs p) same (lawful.join_clean parent (fs.base target_abs)) rooted
    ]

missing-none :
    (fs : Paths) (path : Text)
    → Lawful fs
    → fs.is_abs path ≡ true
    → fs.lexists path ≡ false
    → fs.eval_symlinks path ≡ none
missing-none fs path lawful rooted missing = elim (Option-cases (fs.eval_symlinks path)) [
  | inl failed ↦ failed
  | inr (real, led) ↦ absurd (ground (arith, missing, lawful.eval_exists path real rooted led))
]

-- An existing file is read or written where its links lead, any other where its directory's links do.
pub candidate_path-IsResolved :
    (fs : Paths) (write : Bool) (target_abs path : Text)
    → Lawful fs
    → fs.is_abs path ≡ true
    → candidate_path fs write target_abs ≡ ok path
    → IsResolved fs write target_abs path
unfolding IsResolved IsReal
candidate_path-IsResolved fs false target_abs path lawful rooted e =
    let linked = candidate_path-read fs target_abs path e in
    (linked, lawful.eval_again target_abs path linked)
candidate_path-IsResolved fs true target_abs path lawful rooted e =
    let (parent, linked, way) = candidate_path-write fs target_abs path e in
    (
      parent,
      linked,
      lawful.eval_again (fs.dir target_abs) parent linked,
      elim way [
        | inl led ↦ inl (led, lawful.eval_again (fs.join parent (fs.base target_abs)) path led)
        | inr (same, inl missing) ↦ inr (sym same, missing-none fs path lawful rooted missing)
        | inr (same, inr failed) ↦ inr (sym same, failed)
      ],
    )

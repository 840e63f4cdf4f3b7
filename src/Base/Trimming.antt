-- ===== src/Base/Trimming.antt =====
-- Laws of trimming and of lower case.
use Prim.Native.Nat.{ℕ}
use mathlib.Core.Path.{◌≡◌, refl, ap, ◌∙◌}
use mathlib.Core.Bool.{false}
use mathlib.Core.List.{
  [], ◌∷◌, ◌++◌, map, reverse, reverse-append, reverse-reverse, reverse-cons, reverse_aux,
}
use native.Mathlib.Omega.{arith}
use openclawssy.Base.Strings.{Text, is_space, trim_left, trim_right, trim, lower_code, to_lower}

-- Empty, or with a first character that is no space.
abbrev pub IsSolid : Text → Type 0
IsSolid [] = Unit
IsSolid (c ∷ s) = is_space c ≡ false

trim_left-IsSolid : (s : Text) → IsSolid (trim_left s)
unfolding trim_left
trim_left-IsSolid [] = tt
trim_left-IsSolid (c ∷ s) = ground (arith, trim_left-IsSolid s)

trim_left_of_IsSolid : (s : Text) → IsSolid s → trim_left s ≡ s
unfolding trim_left
trim_left_of_IsSolid [] h = refl
trim_left_of_IsSolid (c ∷ s) h = rw h

trim_left-append_solid :
    (s : Text) (c : ℕ) → is_space c ≡ false → trim_left (s ++ c ∷ []) ≡ trim_left s ++ c ∷ []
unfolding trim_left
trim_left-append_solid [] c h = rw h
trim_left-append_solid (d ∷ s) c h = ground (arith, trim_left-append_solid s c h)

trim_right-IsSolid : (s : Text) → IsSolid s → IsSolid (trim_right s)
unfolding trim_right trim_left
trim_right-IsSolid [] h = tt
trim_right-IsSolid (c ∷ s) h =
    rw
      (
        reverse-cons c s,
        trim_left-append_solid (reverse s) c h,
        reverse-append (trim_left (reverse s)) (c ∷ []),
      )
      h

trim_right-trim_right : (s : Text) → trim_right (trim_right s) ≡ trim_right s
unfolding trim_right
trim_right-trim_right s =
    rw (
      reverse-reverse,
      trim_left_of_IsSolid (trim_left (reverse s)) (trim_left-IsSolid (reverse s)),
    )

pub trim-trim : (s : Text) → trim (trim s) ≡ trim s
unfolding trim
trim-trim s =
    ap trim_right
      (trim_left_of_IsSolid (trim s) (trim_right-IsSolid (trim_left s) (trim_left-IsSolid s)))
    ∙ trim_right-trim_right (trim_left s)

-- Characters that are mapped to spaces from spaces alone do not move the ends.
module _ (f : ℕ → ℕ) (same : (c : ℕ) → is_space (f c) ≡ is_space c) where
  trim_left-map : (s : Text) → trim_left (map f s) ≡ map f (trim_left s)
  unfolding trim_left
  trim_left-map [] = refl
  trim_left-map (c ∷ s) = ground (arith, trim_left-map s, same c)

  reverse_aux-map : (s t : Text) → reverse_aux (map f s) (map f t) ≡ map f (reverse_aux s t)
  reverse_aux-map [] t = refl
  reverse_aux-map (c ∷ s) t = reverse_aux-map s (c ∷ t)

  trim_right-map : (s : Text) → trim_right (map f s) ≡ map f (trim_right s)
  unfolding trim_right
  trim_right-map s =
      ap (λ t. reverse (trim_left t)) (reverse_aux-map s [])
      ∙ ap reverse (trim_left-map (reverse s))
      ∙ reverse_aux-map (trim_left (reverse s)) []

  pub trim-map : (s : Text) → trim (map f s) ≡ map f (trim s)
  unfolding trim
  trim-map s = ap trim_right (trim_left-map s) ∙ trim_right-map (trim_left s)

is_space-lower_code : (c : ℕ) → is_space (lower_code c) ≡ is_space c
unfolding is_space lower_code
is_space-lower_code c = ground arith

pub trim-to_lower : (s : Text) → trim (to_lower s) ≡ to_lower (trim s)
unfolding to_lower
trim-to_lower s = trim-map lower_code is_space-lower_code s

lower_code_idem : (c : ℕ) → lower_code (lower_code c) ≡ lower_code c
unfolding lower_code
lower_code_idem c = ground arith

pub to_lower-to_lower : (s : Text) → to_lower (to_lower s) ≡ to_lower s
unfolding to_lower
to_lower-to_lower [] = refl
to_lower-to_lower (c ∷ s) = cc (to_lower-to_lower s, lower_code_idem c)

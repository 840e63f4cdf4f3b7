-- ===== src/Base/Pigeonhole.antt =====
-- Lists of different texts whose entries all stand in another list.
use Prim.Native.Nat.{suc, ◌≤◌}
use mathlib.Core.Path.{◌≡◌}
use mathlib.Core.Logic.{inl, inr, ◌⊎◌}
use mathlib.Core.Bool.{true, false}
use mathlib.Core.List.{List, [], ◌∷◌}
use native.Mathlib.Omega.{arith}
use openclawssy.Base.Tests.{if◌then◌else◌, Bool-cases}
use openclawssy.Base.Lists.{length, All}
use openclawssy.Base.Equality.{◌==◌, eq_iff, contains}
use openclawssy.Base.Strings.{Text, text_eq}
use openclawssy.Base.Sorting.{NoRepeats}

-- A list without an entry, where it stands first.
without : Text → List Text → List Text
without t [] = []
without t (u ∷ us) = let rest = without t us in if u == t then us else u ∷ rest

length-without :
    (t : Text) (us : List Text) → contains us t ≡ true → suc (length (without t us)) ≡ length us
unfolding without contains
length-without t [] c = cc
length-without t (u ∷ us) c = ground (arith, length-without t us)

contains-without :
    (t v : Text) (us : List Text)
    → (v == t) ≡ false
    → contains us v ≡ true
    → contains (without t us) v ≡ true
unfolding without contains
contains-without t v [] d c = cc
contains-without t v (u ∷ us) d c =
    ground (arith, eq_iff u t, eq_iff u v, eq_iff v t, contains-without t v us d)

abbrev pub AllIn : List Text → List Text → Type 0
AllIn us = All (λ t. contains us t ≡ true)

AllIn-without :
    (t : Text) (us ts : List Text) → contains ts t ≡ false → AllIn us ts → AllIn (without t us) ts
unfolding contains
AllIn-without t us [] n a = a
AllIn-without t us (v ∷ ts) n a =
    (contains-without t v us (ground (arith, n)) a.0, AllIn-without t us ts (ground (arith, n)) a.1)

-- The pigeonhole principle.
pub AllIn-length : (us ts : List Text) → NoRepeats ts → AllIn us ts → length ts ≤ length us
AllIn-length us [] n a = omega arith
AllIn-length us (t ∷ ts) n a = omega (
  arith,
  length-without t us a.0,
  AllIn-length (without t us) ts n.1 (AllIn-without t us ts n.0 a.1),
)

abbrev AllWithin : List Text → List Text → Type 0
AllWithin us ys = (x : Text) → contains us x ≡ true → contains ys x ≡ true

-- A list with a repeated entry has no more entries than some shorter list.
shorter :
    (us : List Text)
    → NoRepeats us ⊎ ((ys : List Text) × (suc (length ys) ≤ length us) × AllWithin us ys)
unfolding contains
shorter [] = inl tt
shorter (u ∷ us) = elim (Bool-cases (contains us u)) [
  | inl hit ↦ inr (us, omega arith, λ x c. ground (arith, c, hit, eq_iff u x))
  | inr miss ↦ elim (shorter us) [
    | inl n ↦ inl (miss, n)
    | inr (ys, l, f) ↦ inr (u ∷ ys, omega (arith, l), λ x c. ground (arith, c, f x))
  ]
]

AllWithin-AllIn : (us ys ts : List Text) → AllWithin us ys → AllIn us ts → AllIn ys ts
AllWithin-AllIn us ys [] f a = tt
AllWithin-AllIn us ys (t ∷ ts) f a = (f t a.0, AllWithin-AllIn us ys ts f a.1)

-- A list that is no longer than one of different texts that all stand in it has no repeats either.
pub AllIn-NoRepeats :
    (us ts : List Text) → NoRepeats ts → AllIn us ts → length us ≤ length ts → NoRepeats us
AllIn-NoRepeats us ts n a l = elim (shorter us) [
  | inl fine ↦ fine
  | inr (ys, short, f) ↦
      absurd (omega (arith, l, short, AllIn-length ys ts n (AllWithin-AllIn us ys ts f a)))
]

-- And all its entries are among those.
pub AllIn-onto :
    (us ts : List Text) (u : Text)
    → NoRepeats ts
    → AllIn us ts
    → length us ≤ length ts
    → contains us u ≡ true
    → contains ts u ≡ true
AllIn-onto us ts u n a l c = elim (Bool-cases (contains ts u)) [
  | inl hit ↦ hit
  | inr miss ↦ absurd (omega (arith, l, AllIn-length us (u ∷ ts) (miss, n) (c, a)))
]

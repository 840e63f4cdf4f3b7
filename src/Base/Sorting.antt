-- ===== src/Base/Sorting.antt =====
-- The order of Go strings, and sort.Strings. Equal strings cannot be told apart, so any sort gives
-- the same list.
use mathlib.Core.Path.{◌≡◌, refl, sym, ap₂, ◌∙◌}
use mathlib.Core.Bool.{Bool, true, false, ◌&&◌, ◌||◌}
use mathlib.Core.List.{List, [], ◌∷◌}
use native.Mathlib.Omega.{arith}
use openclawssy.Base.Tests.{nat_beq, ltb, if◌then◌else◌}
use openclawssy.Base.Equality.{◌==◌, eq_iff, contains}
use openclawssy.Base.Strings.{Text, text_eq, text_beq}

unfoldable pub text_ltb : Text → Text → Bool
text_ltb xs [] = false
text_ltb [] (y ∷ ys) = true
text_ltb (x ∷ xs) (y ∷ ys) = ltb x y || (nat_beq x y && text_ltb xs ys)

pub text_ltb_irrefl : (a : Text) → text_ltb a a ≡ false
unfolding text_ltb
text_ltb_irrefl [] = refl
text_ltb_irrefl (x ∷ xs) = ground (arith, text_ltb_irrefl xs)

pub text_ltb_trans :
    (a b c : Text) → text_ltb a b ≡ true → text_ltb b c ≡ true → text_ltb a c ≡ true
unfolding text_ltb
text_ltb_trans a b [] h k = ground arith
text_ltb_trans [] [] (z ∷ c) h k = ground arith
text_ltb_trans [] (y ∷ b) (z ∷ c) h k = refl
text_ltb_trans (x ∷ a) [] (z ∷ c) h k = ground arith
text_ltb_trans (x ∷ a) (y ∷ b) (z ∷ c) h k = ground (arith, text_ltb_trans a b c)

pub text_ltb_total :
    (a b : Text) → text_ltb a b ≡ false → text_beq a b ≡ false → text_ltb b a ≡ true
unfolding text_ltb text_beq
text_ltb_total [] [] h k = ground arith
text_ltb_total [] (y ∷ b) h k = ground arith
text_ltb_total (x ∷ a) [] h k = refl
text_ltb_total (x ∷ a) (y ∷ b) h k = ground (arith, text_ltb_total a b)

unfoldable pub insert_sorted : Text → List Text → List Text
insert_sorted t [] = t ∷ []
insert_sorted t (u ∷ us) = if text_ltb u t then u ∷ insert_sorted t us else t ∷ u ∷ us

unfoldable pub sort_texts : List Text → List Text
unfolding insert_sorted
sort_texts [] = []
sort_texts (t ∷ ts) = insert_sorted t (sort_texts ts)

-- Above a bound and strictly rising.
abbrev pub Rises : Text → List Text → Type 0
Rises t [] = Unit
Rises t (u ∷ us) = (text_ltb t u ≡ true) × Rises u us

abbrev pub IsStrictlySorted : List Text → Type 0
IsStrictlySorted [] = Unit
IsStrictlySorted (t ∷ ts) = Rises t ts

abbrev pub NoRepeats : List Text → Type 0
NoRepeats [] = Unit
NoRepeats (t ∷ ts) = (contains ts t ≡ false) × NoRepeats ts

pub contains-insert_sorted :
    (t u : Text) (ts : List Text) → contains (insert_sorted t ts) u ≡ (t == u || contains ts u)
unfolding insert_sorted contains
contains-insert_sorted t u [] = refl
contains-insert_sorted t u (x ∷ ts) = ground (arith, contains-insert_sorted t u ts)

pub contains-sort_texts : (u : Text) (ts : List Text) → contains (sort_texts ts) u ≡ contains ts u
unfolding sort_texts contains
contains-sort_texts u [] = refl
contains-sort_texts u (t ∷ ts) =
    ground (arith, contains-sort_texts u ts, contains-insert_sorted t u (sort_texts ts))

insert_sorted-Rises :
    (b t : Text) (ts : List Text)
    → text_ltb b t ≡ true
    → contains ts t ≡ false
    → Rises b ts
    → Rises b (insert_sorted t ts)
unfolding insert_sorted contains
insert_sorted-Rises b t [] h k r = (h, tt)
insert_sorted-Rises b t (u ∷ ts) h k r =
    ground (arith, insert_sorted-Rises u t ts, text_ltb_total u t)

insert_sorted-IsStrictlySorted :
    (t : Text) (ts : List Text)
    → contains ts t ≡ false
    → IsStrictlySorted ts
    → IsStrictlySorted (insert_sorted t ts)
unfolding insert_sorted contains
insert_sorted-IsStrictlySorted t [] k r = tt
insert_sorted-IsStrictlySorted t (u ∷ ts) k r =
    ground (arith, insert_sorted-Rises u t ts, text_ltb_total u t)

pub sort_texts-IsStrictlySorted : (ts : List Text) → NoRepeats ts → IsStrictlySorted (sort_texts ts)
unfolding sort_texts
sort_texts-IsStrictlySorted [] h = tt
sort_texts-IsStrictlySorted (t ∷ ts) h =
    insert_sorted-IsStrictlySorted t (sort_texts ts) (contains-sort_texts t ts ∙ h.0)
      (sort_texts-IsStrictlySorted ts h.1)

-- A list that rises from a bound holds nothing at or below the bound.
Rises-contains :
    (b t : Text) (ts : List Text) → Rises b ts → contains ts t ≡ true → text_ltb b t ≡ true
unfolding contains
Rises-contains b t [] r h = cc
Rises-contains b t (u ∷ ts) r h =
    ground (arith, eq_iff u t, Rises-contains u t ts r.1, text_ltb_trans b u t r.0)

Rises-sorted : (b : Text) (ts : List Text) → Rises b ts → IsStrictlySorted ts
Rises-sorted b [] r = tt
Rises-sorted b (t ∷ ts) r = r.1

abbrev pub SameMembers : List Text → List Text → Type 0
SameMembers xs ys = (t : Text) → contains xs t ≡ contains ys t

not-below-head :
    (x y : Text) (xs ys : List Text)
    → Rises y ys
    → SameMembers (x ∷ xs) (y ∷ ys)
    → text_ltb x y ≡ false
unfolding contains
not-below-head x y xs ys ry same = ground (
  arith,
  same x,
  eq_iff x x,
  eq_iff y x,
  Rises-contains y x ys ry,
  text_ltb_trans x y x,
  text_ltb_irrefl x,
)

heads-eq :
    (x y : Text) (xs ys : List Text)
    → Rises x xs
    → Rises y ys
    → SameMembers (x ∷ xs) (y ∷ ys)
    → x ≡ y
heads-eq x y xs ys rx ry same = ground (
  arith,
  not-below-head x y xs ys ry same,
  not-below-head y x ys xs rx (λ t. sym (same t)),
  text_ltb_total x y,
  eq_iff x y,
)

tails-SameMembers :
    (x y : Text) (xs ys : List Text)
    → Rises x xs
    → Rises y ys
    → x ≡ y
    → SameMembers (x ∷ xs) (y ∷ ys)
    → SameMembers xs ys
unfolding contains
tails-SameMembers x y xs ys rx ry e same t = ground (
  arith,
  same t,
  eq_iff x t,
  eq_iff y t,
  Rises-contains x t xs rx,
  Rises-contains y t ys ry,
  text_ltb_irrefl t,
)

-- A strictly sorted list is determined by its members.
pub sorted_unique :
    (xs ys : List Text) → IsStrictlySorted xs → IsStrictlySorted ys → SameMembers xs ys → xs ≡ ys
unfolding contains
sorted_unique [] [] sx sy same = refl
sorted_unique [] (y ∷ ys) sx sy same = ground (arith, same y, eq_iff y y)
sorted_unique (x ∷ xs) [] sx sy same = ground (arith, same x, eq_iff x x)
sorted_unique (x ∷ xs) (y ∷ ys) sx sy same =
    let e : x ≡ y = heads-eq x y xs ys sx sy same in
    ap₂ ◌∷◌ e (
      sorted_unique xs ys (Rises-sorted x xs sx) (Rises-sorted y ys sy)
        (tails-SameMembers x y xs ys sx sy e same))

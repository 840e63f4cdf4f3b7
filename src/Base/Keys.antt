-- ===== src/Base/Keys.antt =====
-- Keys of parts that are joined by colons.
use Prim.Native.Nat.{ℕ}
use mathlib.Core.Path.{◌≡◌}
use mathlib.Core.Bool.{false}
use mathlib.Core.List.{[], ◌∷◌, ◌++◌}
use native.Mathlib.Omega.{arith}
use openclawssy.Base.Equality.{contains, eq_iff, nat_eq}
use openclawssy.Base.Strings.{Text}

-- Two texts that agree up to the first mark of each agree before and after it.
pub joined_parts :
    (mark : ℕ) (a b s t : Text)
    → contains a mark ≡ false
    → contains b mark ≡ false
    → a ++ (mark ∷ s) ≡ b ++ (mark ∷ t)
    → (a ≡ b) × (s ≡ t)
unfolding contains
joined_parts mark [] [] s t h k e = ground (arith, e)
joined_parts mark [] (y ∷ b) s t h k e = ground (arith, e, eq_iff y mark)
joined_parts mark (x ∷ a) [] s t h k e = ground (arith, e, eq_iff x mark)
joined_parts mark (x ∷ a) (y ∷ b) s t h k e = ground (arith, e, joined_parts mark a b s t)

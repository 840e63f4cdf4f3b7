-- ===== src/PromptStack/Diff/Sides.antt =====
-- The two contents can be read off a diff.
use openclawssy.Base.{ℕ, suc, ◌≡◌, refl, ap, List, [], ◌∷◌, map, Text, text_eq, eq_iff, arith}
use openclawssy.PromptStack.Diff.{
  DiffLine, unchanged, added, removed, line, walk, diff_of, diff_lines, split_content_lines,
}

pub from_side : List DiffLine → List Text
from_side [] = []
from_side (l ∷ ls) =
    let rest = from_side ls in
    elim l.type [ unchanged ↦ l.content ∷ rest | removed ↦ l.content ∷ rest | added ↦ rest ]

pub to_side : List DiffLine → List Text
to_side [] = []
to_side (l ∷ ls) =
    let rest = to_side ls in
    elim l.type [ unchanged ↦ l.content ∷ rest | added ↦ l.content ∷ rest | removed ↦ rest ]

from_side-added : (ys : List Text) → from_side (map (line added) ys) ≡ []
unfolding from_side
from_side-added [] = refl
from_side-added (y ∷ ys) = from_side-added ys

to_side-added : (ys : List Text) → to_side (map (line added) ys) ≡ ys
unfolding to_side
to_side-added [] = refl
to_side-added (y ∷ ys) = ap (λ r. y ∷ r) (to_side-added ys)

from_side-removed : (xs : List Text) → from_side (map (line removed) xs) ≡ xs
unfolding from_side
from_side-removed [] = refl
from_side-removed (x ∷ xs) = ap (λ r. x ∷ r) (from_side-removed xs)

to_side-removed : (xs : List Text) → to_side (map (line removed) xs) ≡ []
unfolding to_side
to_side-removed [] = refl
to_side-removed (x ∷ xs) = to_side-removed xs

from_side-walk :
    (table : List (List ℕ)) (i j : ℕ) (from to : List Text)
    → from_side (walk table i j from to) ≡ from
unfolding walk from_side
from_side-walk table i j [] to = from_side-added to
from_side-walk table i j (x ∷ from) [] = from_side-removed (x ∷ from)
from_side-walk table i j (x ∷ from) (y ∷ to) = ground (
  arith,
  from_side-walk table (suc i) (suc j) from to,
  from_side-walk table (suc i) j from (y ∷ to),
  from_side-walk table i (suc j) (x ∷ from) to,
)

to_side-walk :
    (table : List (List ℕ)) (i j : ℕ) (from to : List Text) → to_side (walk table i j from to) ≡ to
unfolding walk to_side
to_side-walk table i j [] to = to_side-added to
to_side-walk table i j (x ∷ from) [] = to_side-removed (x ∷ from)
to_side-walk table i j (x ∷ from) (y ∷ to) = ground (
  arith,
  eq_iff x y,
  to_side-walk table (suc i) (suc j) from to,
  to_side-walk table (suc i) j from (y ∷ to),
  to_side-walk table i (suc j) (x ∷ from) to,
)

-- The unchanged and removed lines of a diff are the lines of the old content, in order, and the
-- unchanged and added ones are those of the new content.
pub diff_lines-sides :
    (from_content to_content : Text)
    → (from_side (diff_lines from_content to_content) ≡ split_content_lines from_content)
      × (to_side (diff_lines from_content to_content) ≡ split_content_lines to_content)
unfolding diff_lines diff_of
diff_lines-sides from_content to_content = (from_side-walk _ 0 0 _ _, to_side-walk _ 0 0 _ _)

-- ===== src/PromptStack/Diff/Longest.antt =====
-- A diff keeps as many lines as any common subsequence of the two contents has.
use openclawssy.Base.{
  ℕ, zero, suc, ◌+◌, ◌≤◌, ◌≡◌, refl, ◌∙◌, Bool, true, false, List, [], ◌∷◌, map, length, drop, Text,
  text_eq, eq_iff, ◌==◌, if◌then◌else◌, leb, arith,
}
use openclawssy.PromptStack.Diff.{
  DiffLine, unchanged, added, removed, line, entry, cell, fill_row, first_row, lcs_table, walk,
  diff_of, diff_lines, split_content_lines,
}

-- The specification: the length of a longest common subsequence.
pub lcs_length : List Text → List Text → ℕ
lcs_length [] ys = 0
lcs_length (x ∷ xs) [] = 0
lcs_length (x ∷ xs) (y ∷ ys) =
    let both = lcs_length xs ys in
    let without_x = lcs_length xs (y ∷ ys) in
    let without_y = lcs_length (x ∷ xs) ys in
    if x == y then suc both else if leb without_y without_x then without_x else without_y

-- The texts of the first list stand in the second in this order.
unfoldable pub is_subsequence : List Text → List Text → Bool
is_subsequence [] xs = true
is_subsequence (z ∷ zs) [] = false
is_subsequence (z ∷ zs) (x ∷ xs) =
    let taken = is_subsequence zs xs in
    let passed = is_subsequence (z ∷ zs) xs in if z == x then taken else passed

is_subsequence-tail :
    (z : Text) (zs xs : List Text) → is_subsequence (z ∷ zs) xs ≡ true → is_subsequence zs xs ≡ true
unfolding is_subsequence
is_subsequence-tail z zs [] s = cc
is_subsequence-tail z [] (x ∷ xs) s = refl
is_subsequence-tail z (w ∷ ws) (x ∷ xs) s =
    ground (arith, is_subsequence-tail z (w ∷ ws) xs, is_subsequence-tail w ws xs)

lcs_length-longest :
    (zs xs ys : List Text)
    → is_subsequence zs xs ≡ true
    → is_subsequence zs ys ≡ true
    → length zs ≤ lcs_length xs ys
unfolding is_subsequence lcs_length
lcs_length-longest [] xs ys s t = omega arith
lcs_length-longest (z ∷ zs) [] ys s t = cc
lcs_length-longest (z ∷ zs) (x ∷ xs) [] s t = cc
lcs_length-longest (z ∷ zs) (x ∷ xs) (y ∷ ys) s t = ground (
  arith,
  eq_iff x y,
  eq_iff z x,
  eq_iff z y,
  is_subsequence-tail z zs xs,
  is_subsequence-tail z zs ys,
  lcs_length-longest zs xs ys,
  lcs_length-longest (z ∷ zs) xs (y ∷ ys),
  lcs_length-longest (z ∷ zs) (x ∷ xs) ys,
)

entry-drop : (row : List ℕ) (j : ℕ) → entry (drop 1 row) j ≡ entry row (suc j)
unfolding entry
entry-drop [] j = refl
entry-drop (n ∷ row) j = refl

entry-fill_row :
    (x : Text) (xs ys : List Text) (below : List ℕ)
    → ((j : ℕ) → entry below j ≡ lcs_length xs (drop j ys))
    → (j : ℕ) → entry (fill_row x ys below) j ≡ lcs_length (x ∷ xs) (drop j ys)
unfolding entry fill_row lcs_length
entry-fill_row x xs [] below h zero = refl
entry-fill_row x xs [] below h (suc j) = refl
entry-fill_row x xs (y ∷ ys) below h zero =
    ground (
      arith,
      h 0,
      h 1,
      entry-fill_row x xs ys (drop 1 below) (λ k. entry-drop below k ∙ h (suc k)) 0,
    )
entry-fill_row x xs (y ∷ ys) below h (suc j) =
    entry-fill_row x xs ys (drop 1 below) (λ k. entry-drop below k ∙ h (suc k)) j

entry-zeros : (ys : List Text) (j : ℕ) → entry (map (λ y. 0) ys) j ≡ 0
unfolding entry
entry-zeros [] j = refl
entry-zeros (y ∷ ys) zero = refl
entry-zeros (y ∷ ys) (suc j) = entry-zeros ys j

entry-first_row : (rows : List (List ℕ)) (j : ℕ) → entry (first_row rows) j ≡ cell rows 0 j
unfolding entry first_row cell
entry-first_row [] j = refl
entry-first_row (row ∷ rows) j = refl

cell-lcs_table :
    (xs ys : List Text) (i j : ℕ) → cell (lcs_table xs ys) i j ≡ lcs_length (drop i xs) (drop j ys)
unfolding lcs_table cell lcs_length entry
cell-lcs_table [] ys zero zero = refl
cell-lcs_table [] ys zero (suc j) = entry-zeros ys j
cell-lcs_table [] ys (suc i) j = refl
cell-lcs_table (x ∷ xs) ys zero j =
    entry-fill_row x xs ys (first_row (lcs_table xs ys))
      (λ k. entry-first_row (lcs_table xs ys) k ∙ cell-lcs_table xs ys 0 k) j
cell-lcs_table (x ∷ xs) ys (suc i) j = cell-lcs_table xs ys i j

pub kept_lines : List DiffLine → ℕ
kept_lines [] = 0
kept_lines (l ∷ ls) =
    let rest = kept_lines ls in elim l.type [ unchanged ↦ suc rest | added ↦ rest | removed ↦ rest ]

kept_lines-added : (ys : List Text) → kept_lines (map (line added) ys) ≡ 0
unfolding kept_lines
kept_lines-added [] = refl
kept_lines-added (y ∷ ys) = kept_lines-added ys

kept_lines-removed : (xs : List Text) → kept_lines (map (line removed) xs) ≡ 0
unfolding kept_lines
kept_lines-removed [] = refl
kept_lines-removed (x ∷ xs) = kept_lines-removed xs

kept_lines-walk :
    (table : List (List ℕ)) (i j : ℕ) (from to : List Text)
    → ((a b : ℕ) → cell table (a + i) (b + j) ≡ lcs_length (drop a from) (drop b to))
    → kept_lines (walk table i j from to) ≡ lcs_length from to
unfolding walk kept_lines lcs_length
kept_lines-walk table i j [] to h = kept_lines-added to
kept_lines-walk table i j (x ∷ from) [] h = kept_lines-removed (x ∷ from)
kept_lines-walk table i j (x ∷ from) (y ∷ to) h = ground (
  arith,
  h 0 1,
  h 1 0,
  kept_lines-walk table (suc i) (suc j) from to (λ a b. ground (arith, h (suc a) (suc b))),
  kept_lines-walk table (suc i) j from (y ∷ to) (λ a b. ground (arith, h (suc a) b)),
  kept_lines-walk table i (suc j) (x ∷ from) to (λ a b. ground (arith, h a (suc b))),
)

-- No common subsequence of the lines of the two contents is longer than the unchanged lines of their
-- diff.
pub diff_lines-longest :
    (from_content to_content : Text) (zs : List Text)
    → is_subsequence zs (split_content_lines from_content) ≡ true
    → is_subsequence zs (split_content_lines to_content) ≡ true
    → length zs ≤ kept_lines (diff_lines from_content to_content)
unfolding diff_lines diff_of
diff_lines-longest from_content to_content zs s t =
    let from = split_content_lines from_content in
    let to = split_content_lines to_content in
    let kept =
      kept_lines-walk (lcs_table from to) 0 0 from to
        (λ a b. ground (arith, cell-lcs_table from to a b)) in
    ground (arith, kept, lcs_length-longest zs from to s t)

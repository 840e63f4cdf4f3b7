-- ===== src/PromptStack/Diff.antt =====
-- internal/promptstack/diff.go: diffLines by the table of longest common subsequences, and its print.
pub mod Sides
pub mod Longest
use openclawssy.Base.{
  ℕ, zero, suc, ◌+◌, Bool, true, false, ◌&&◌, Option, none, some, List, [], ◌∷◌, ◌++◌, map, length,
  drop, Text, codes, text_eq, ◌==◌, if◌then◌else◌, leb, nat_beq, replace_all,
}

pub data LineType : Type 0 where
  unchanged added removed : LineType

pub record DiffLine : Type 0 where
  pub type : LineType
  pub content : Text

abbrev pub line : LineType → Text → DiffLine
line type content = record { type = type; content = content }

-- strings.Split at line feeds: always at least one part.
abbrev pub add_code : ℕ → List Text → List Text
add_code c [] = (c ∷ []) ∷ []
add_code c (part ∷ parts) = (c ∷ part) ∷ parts

unfoldable pub split_at_feeds : Text → List Text
split_at_feeds [] = [] ∷ []
split_at_feeds (c ∷ s) =
    let parts = split_at_feeds s in if nat_beq c 10 then [] ∷ parts else add_code c parts

unfoldable pub drop_last_empty : List Text → List Text
drop_last_empty [] = []
drop_last_empty ([] ∷ []) = []
drop_last_empty (part ∷ parts) = part ∷ drop_last_empty parts

unfoldable pub split_content_lines : Text → List Text
unfolding split_at_feeds drop_last_empty
split_content_lines content =
    let normalized = replace_all (13 ∷ 10 ∷ []) (10 ∷ []) content in
    if normalized == [] then [] else drop_last_empty (split_at_feeds normalized)

-- An entry of a row of the table.
unfoldable pub entry : List ℕ → ℕ → ℕ
entry [] j = 0
entry (n ∷ row) zero = n
entry (n ∷ row) (suc j) = entry row j

unfoldable pub cell : List (List ℕ) → ℕ → ℕ → ℕ
unfolding entry
cell [] i j = 0
cell (row ∷ rows) zero j = entry row j
cell (row ∷ rows) (suc i) j = cell rows i j

-- The inner loop over j, downwards: a row from the row below it.
unfoldable pub fill_row : Text → List Text → List ℕ → List ℕ
unfolding entry
fill_row x [] below = 0 ∷ []
fill_row x (y ∷ ys) below =
    let right = fill_row x ys (drop 1 below) in
    let longest =
      if x == y
      then suc (entry below 1)
      else if leb (entry right 0) (entry below 0)
      then entry below 0
      else entry right 0 in
    longest ∷ right

unfoldable pub first_row : List (List ℕ) → List ℕ
first_row [] = []
first_row (row ∷ rows) = row

-- The outer loop over i, downwards, above the row of zeros.
unfoldable pub lcs_table : List Text → List Text → List (List ℕ)
unfolding cell
lcs_table [] to = (0 ∷ map (λ y. 0) to) ∷ []
lcs_table (x ∷ from) to = let below = lcs_table from to in fill_row x to (first_row below) ∷ below

-- The loops that walk through the table, from the entry (i, j), with the lines that are left.
unfoldable pub walk : List (List ℕ) → ℕ → ℕ → List Text → List Text → List DiffLine
walk table i j [] to = map (line added) to
walk table i j (x ∷ from) [] = map (line removed) (x ∷ from)
walk table i j (x ∷ from) (y ∷ to) = elim (x == y) [
  | true ↦ line unchanged x ∷ walk table (suc i) (suc j) from to
  | false ↦ elim (leb (cell table i (suc j)) (cell table (suc i) j)) [
    | true ↦ line removed x ∷ walk table (suc i) j from (y ∷ to)
    | false ↦ line added y ∷ walk table i (suc j) (x ∷ from) to
  ]
]

unfoldable pub diff_of : List Text → List Text → List DiffLine
unfolding walk
diff_of from to = walk (lcs_table from to) 0 0 from to

unfoldable pub diff_lines : Text → Text → List DiffLine
diff_lines from_content to_content =
    diff_of (split_content_lines from_content) (split_content_lines to_content)

sign : LineType → Text
sign unchanged = codes " "
sign added = codes "+"
sign removed = codes "-"

unfoldable pub render_lines : List DiffLine → Text
unfolding sign
render_lines [] = []
render_lines (l ∷ ls) = sign l.type ++ (l.content ++ (10 ∷ render_lines ls))

-- `itoa` stands for strconv.Itoa.
unfoldable pub render_unified_diff : (ℕ → Text) → ℕ → ℕ → List DiffLine → Text
render_unified_diff itoa from_version to_version lines =
    codes "--- version "
    ++ (itoa from_version
        ++ (10 ∷ codes "+++ version " ++ (itoa to_version ++ (10 ∷ render_lines lines))))

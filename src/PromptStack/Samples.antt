-- ===== src/PromptStack/Samples.antt =====
-- Diffs and layers at concrete contents.
use openclawssy.Base.{
  ◌≡◌, refl, ◌≤◌, true, List, [], ◌∷◌, Text, codes, text_beq, text_eq, replace_all,
}
use openclawssy.PromptStack.Diff.{diff_lines, split_content_lines, split_at_feeds, drop_last_empty}
use openclawssy.PromptStack.Diff.Sides.{from_side, to_side, diff_lines-sides}
use openclawssy.PromptStack.Diff.Longest.{is_subsequence, kept_lines, diff_lines-longest}
use openclawssy.PromptStack.Layers.{PromptLayer}

abbrev old_text : Text
old_text = codes "a\nb\nc"

abbrev new_text : Text
new_text = codes "b\r\nc\nd\n"

abbrev common : List Text
common = codes "b" ∷ codes "c" ∷ []

common_old : is_subsequence common (split_content_lines old_text) ≡ true
unfolding is_subsequence split_content_lines split_at_feeds drop_last_empty replace_all codes
    text_beq
common_old = refl

common_new : is_subsequence common (split_content_lines new_text) ≡ true
unfolding is_subsequence split_content_lines split_at_feeds drop_last_empty replace_all codes
    text_beq
common_new = refl

diff_lines-sides_example :
    (from_side (diff_lines old_text new_text) ≡ split_content_lines old_text)
    × (to_side (diff_lines old_text new_text) ≡ split_content_lines new_text)
diff_lines-sides_example = diff_lines-sides old_text new_text

diff_lines-longest_example : 2 ≤ kept_lines (diff_lines old_text new_text)
diff_lines-longest_example = diff_lines-longest old_text new_text common common_old common_new

abbrev identity_layer : PromptLayer
identity_layer = record {
  layer_id = codes " agent_identity ";
  content = codes "I am";
  updated_at = 3;
  version = 1;
}

-- ===== src/Chat/Allowlist/Samples.antt =====
-- Runs of the allowlist at concrete identifiers.
use openclawssy.Base.{
  ◌≡◌, refl, codes, [], ◌∷◌, true, text_beq, trim, to_lower, contains, ◌&&◌, ◌||◌,
}
use openclawssy.Chat.Allowlist.{
  new_allowlist, message_allowed, message_allowed_iff, user_allowed, room_allowed, normalized_set,
  normalize_allowlist_id, names, all_blank,
}

mixed_case :
    message_allowed (new_allowlist (codes " Ada " ∷ []) (codes "  " ∷ [])) (codes "ada") (codes "r")
    ≡ true
unfolding message_allowed user_allowed room_allowed new_allowlist normalized_set
    normalize_allowlist_id trim to_lower contains codes text_beq
mixed_case = refl

message_allowed_iff_example :
    message_allowed
      (new_allowlist (codes " Ada " ∷ []) (codes "ops" ∷ []))
      (codes "ada")
      (codes "OPS")
    ≡ (names (codes " Ada " ∷ []) (codes "ada")
        && (all_blank (codes "ops" ∷ []) || names (codes "ops" ∷ []) (codes "OPS")))
message_allowed_iff_example =
    message_allowed_iff (codes " Ada " ∷ []) (codes "ops" ∷ []) (codes "ada") (codes "OPS")

-- ===== src/Chat/Allowlist.antt =====
-- internal/channels/chat/allowlist.go. The sets are maps with no values; text is ASCII where its
-- case matters.
mod Samples
use openclawssy.Base.{
  ℕ, ◌≡◌, refl, ◌↔◌, Bool, true, false, ◌&&◌, ◌||◌, List, [], ◌∷◌, map, Text, trim, to_lower,
  contains, ◌==◌, text_eq, eq_iff, if◌then◌else◌, arith, Bool-cases, inl, inr, ◌⊎◌, filter_by, not,
  any_by,
}

pub record Allowlist : Type 0 where
  pub users : List Text
  pub rooms : List Text

unfoldable pub normalize_allowlist_id : Text → Text
normalize_allowlist_id value = to_lower (trim value)

-- The set that one of the loops of the constructor fills.
unfoldable pub normalized_set : List Text → List Text
normalized_set [] = []
normalized_set (id ∷ ids) =
    let rest = normalized_set ids in
    if normalize_allowlist_id id == [] then rest else normalize_allowlist_id id ∷ rest

unfoldable pub new_allowlist : List Text → List Text → Allowlist
new_allowlist user_ids room_ids = record {
  users = normalized_set user_ids;
  rooms = normalized_set room_ids;
}

is_empty : List Text → Bool
is_empty [] = true
is_empty (x ∷ xs) = false

unfoldable pub user_allowed : Allowlist → Text → Bool
unfolding is_empty
user_allowed a user_id =
    if is_empty a.users then false else contains a.users (normalize_allowlist_id user_id)

unfoldable pub room_allowed : Allowlist → Text → Bool
unfolding is_empty
room_allowed a room_id =
    if is_empty a.rooms then true else contains a.rooms (normalize_allowlist_id room_id)

unfoldable pub message_allowed : Allowlist → Text → Text → Bool
message_allowed a user_id room_id = user_allowed a user_id && room_allowed a room_id

-- Some configured identifier names the given one, blank ones aside.
pub names : List Text → Text → Bool
names [] value = false
names (id ∷ ids) value =
    (not (normalize_allowlist_id id == [])
      && normalize_allowlist_id id == normalize_allowlist_id value)
    || names ids value

-- No configured identifier counts.
pub all_blank : List Text → Bool
all_blank [] = true
all_blank (id ∷ ids) = normalize_allowlist_id id == [] && all_blank ids

contains-normalized_set :
    (ids : List Text) (value : Text)
    → contains (normalized_set ids) (normalize_allowlist_id value) ≡ names ids value
unfolding contains normalized_set names
contains-normalized_set [] value = refl
contains-normalized_set (id ∷ ids) value = ground (arith, contains-normalized_set ids value)

is_empty-normalized_set : (ids : List Text) → is_empty (normalized_set ids) ≡ all_blank ids
unfolding is_empty normalized_set all_blank
is_empty-normalized_set [] = refl
is_empty-normalized_set (id ∷ ids) = ground (arith, is_empty-normalized_set ids)

names-all_blank : (ids : List Text) (value : Text) → all_blank ids ≡ true → names ids value ≡ false
unfolding names all_blank
names-all_blank [] value h = refl
names-all_blank (id ∷ ids) value h = ground (arith, names-all_blank ids value)

-- A message passes exactly if a configured user names its sender and, unless every configured room
-- is blank, a configured room names its room. Names are compared without case and outer blanks; with
-- no user configured nothing passes.
pub message_allowed_iff :
    (user_ids room_ids : List Text) (user_id room_id : Text)
    → message_allowed (new_allowlist user_ids room_ids) user_id room_id
      ≡ (names user_ids user_id && (all_blank room_ids || names room_ids room_id))
unfolding message_allowed user_allowed room_allowed new_allowlist
message_allowed_iff user_ids room_ids user_id room_id = ground (
  arith,
  contains-normalized_set user_ids user_id,
  contains-normalized_set room_ids room_id,
  is_empty-normalized_set user_ids,
  is_empty-normalized_set room_ids,
  names-all_blank user_ids user_id,
  names-all_blank room_ids room_id,
)

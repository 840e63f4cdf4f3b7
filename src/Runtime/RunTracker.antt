-- ===== src/Runtime/RunTracker.antt =====
-- internal/runtime/run_tracker.go: RunTracker. A cancel function is a number, and cancel returns the
-- one that it calls; `none` is ErrRunNotFound. The receiver is not nil.
pub mod Composite
mod Samples
use openclawssy.Base.{
  ℕ, Bool, true, false, ◌||◌, Option, none, some, List, [], ◌∷◌, ◌++◌, Text, codes, text_eq, ◌==◌,
  trim, if◌then◌else◌, Map, lookup, insert, delete, length,
}

abbrev pub RunTracker : Type 0
RunTracker = Map Text ℕ

unfoldable pub composite_run_key : Text → Text → Text → Text
composite_run_key instance_id agent_id run_id =
    if trim instance_id == [] || trim agent_id == [] || trim run_id == []
    then []
    else trim instance_id ++ (b':' ∷ trim agent_id ++ (b':' ∷ trim run_id))

unfoldable pub track : Text → ℕ → RunTracker → RunTracker
track run_id c t = insert run_id c t

unfoldable pub track_composite : Text → Text → Text → ℕ → RunTracker → RunTracker
unfolding track
track_composite instance_id agent_id run_id c t =
    track (composite_run_key instance_id agent_id run_id) c t

unfoldable pub cancel : Text → RunTracker → Option ℕ
cancel run_id t = lookup run_id t

unfoldable pub cancel_composite : Text → Text → Text → RunTracker → Option ℕ
unfolding cancel
cancel_composite instance_id agent_id run_id t =
    cancel (composite_run_key instance_id agent_id run_id) t

unfoldable pub remove : Text → RunTracker → RunTracker
remove run_id t = delete run_id t

unfoldable pub remove_composite : Text → Text → Text → RunTracker → RunTracker
unfolding remove
remove_composite instance_id agent_id run_id t =
    remove (composite_run_key instance_id agent_id run_id) t

unfoldable pub is_tracked : Text → RunTracker → Bool
is_tracked run_id t = elim (lookup run_id t) [ none ↦ false | some c ↦ true ]

unfoldable pub is_tracked_composite : Text → Text → Text → RunTracker → Bool
unfolding is_tracked
is_tracked_composite instance_id agent_id run_id t =
    is_tracked (composite_run_key instance_id agent_id run_id) t

unfoldable pub count : RunTracker → ℕ
count t = length t

-- ===== src/Http/RunCancel.antt =====
-- internal/channels/http/run_cancel_tracker.go: ActiveRunTracker. A cancel function is a number, and
-- cancel returns the one that it calls; `none` is ErrTrackedRunNotFound. The receiver is not nil.
pub mod Isolation
mod Samples
use openclawssy.Base.{
  ℕ, Bool, true, false, ◌||◌, Option, none, some, List, [], ◌∷◌, ◌++◌, Text, codes, text_eq, ◌==◌,
  trim, if◌then◌else◌, Map, lookup, insert, delete,
}

abbrev pub ActiveRunTracker : Type 0
ActiveRunTracker = Map Text ℕ

unfoldable pub tracked_run_key : Text → Text → Text → Text
tracked_run_key instance_id agent_id run_id =
    if trim instance_id == []
    then trim run_id
    else trim instance_id ++ (b':' ∷ trim agent_id ++ (b':' ∷ trim run_id))

-- `none` is a nil function.
unfoldable pub track : Text → Option ℕ → ActiveRunTracker → ActiveRunTracker
track run_id none t = t
track run_id (some c) t = if run_id == [] then t else insert run_id c t

unfoldable pub track_composite : Text → Text → Text → Option ℕ → ActiveRunTracker → ActiveRunTracker
unfolding track tracked_run_key
track_composite instance_id agent_id run_id none t = t
track_composite instance_id agent_id run_id (some c) t =
    let key = tracked_run_key instance_id agent_id run_id in
    if key == [] || key == trim run_id then t else track key (some c) t

unfoldable pub cancel : Text → ActiveRunTracker → Option ℕ
cancel run_id t = lookup run_id t

unfoldable pub cancel_composite : Text → Text → Text → ActiveRunTracker → Option ℕ
unfolding cancel tracked_run_key
cancel_composite instance_id agent_id run_id t =
    let key = tracked_run_key instance_id agent_id run_id in
    if key == [] then none else cancel key t

unfoldable pub remove : Text → ActiveRunTracker → ActiveRunTracker
remove run_id t = if run_id == [] then t else delete run_id t

unfoldable pub remove_composite : Text → Text → Text → ActiveRunTracker → ActiveRunTracker
unfolding remove tracked_run_key
remove_composite instance_id agent_id run_id t =
    let key = tracked_run_key instance_id agent_id run_id in
    if key == [] || key == trim run_id then t else remove key t

unfoldable pub is_tracked : Text → ActiveRunTracker → Bool
is_tracked run_id t =
    if run_id == [] then false else elim (lookup run_id t) [ none ↦ false | some c ↦ true ]

unfoldable pub is_tracked_composite : Text → Text → Text → ActiveRunTracker → Bool
unfolding is_tracked tracked_run_key
is_tracked_composite instance_id agent_id run_id t =
    let key = tracked_run_key instance_id agent_id run_id in
    if key == [] then false else is_tracked key t

-- ===== src/Runtime/RunTracker/Composite.antt =====
-- Composite keys of the runtime's tracker.
use openclawssy.Base.{
  ℕ, ◌≡◌, true, false, ◌||◌, some, [], ◌∷◌, ◌++◌, Text, text_eq, eq_iff, ◌==◌, trim, lookup-insert,
  contains, nat_eq, arith, joined_parts,
}
use openclawssy.Runtime.RunTracker.{
  RunTracker, composite_run_key, track, track_composite, cancel, cancel_composite,
}

-- Every part of the identity is named, and its instance and agent have no colon.
pub record IsWhole (instance_id agent_id run_id : Text) : Type 0 where
  pub instance_named : (trim instance_id == []) ≡ false
  pub agent_named : (trim agent_id == []) ≡ false
  pub run_named : (trim run_id == []) ≡ false
  pub instance_plain : contains (trim instance_id) b':' ≡ false
  pub agent_plain : contains (trim agent_id) b':' ≡ false

-- Two identities with no blank part and with no colon in the instance and the agent that have the same
-- key are the same identity, but for white space around their parts.
pub composite_run_key_apart :
    (i a r i' a' r' : Text)
    → IsWhole i a r
    → IsWhole i' a' r'
    → composite_run_key i a r ≡ composite_run_key i' a' r'
    → (trim i ≡ trim i') × (trim a ≡ trim a') × (trim r ≡ trim r')
unfolding composite_run_key
composite_run_key_apart i a r i' a' r' n n' e =
    let joined : trim i ++ (b':' ∷ trim a ++ (b':' ∷ trim r))
        ≡ trim i' ++ (b':' ∷ trim a' ++ (b':' ∷ trim r')) =
      ground (
        arith, e, n.instance_named, n.agent_named, n.run_named, n'.instance_named, n'.agent_named,
        n'.run_named,
      ) in
    let (same_i, rest) =
      joined_parts b':' (trim i) (trim i') _ _ n.instance_plain n'.instance_plain joined in
    let (same_a, same_r) =
      joined_parts b':' (trim a) (trim a') _ _ n.agent_plain n'.agent_plain rest in
    (same_i, same_a, same_r)

-- Identities with a blank part share one key, so that the last of them that is tracked is the one that
-- a cancellation of any of them calls.
cancel_composite-blank :
    (i a r i' a' r' : Text) (c : ℕ) (t : RunTracker)
    → (trim i == [] || trim a == [] || trim r == []) ≡ true
    → (trim i' == [] || trim a' == [] || trim r' == []) ≡ true
    → cancel_composite i' a' r' (track_composite i a r c t) ≡ some c
unfolding composite_run_key track_composite cancel_composite track cancel
cancel_composite-blank i a r i' a' r' c t b b' =
    ground (arith, b, b', lookup-insert [] [] c t, eq_iff {A = Text} [] [])

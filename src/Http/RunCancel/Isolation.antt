-- ===== src/Http/RunCancel/Isolation.antt =====
-- The calls about one run leave every other run's cancel function.
use openclawssy.Base.{
  ℕ, ◌≡◌, Bool, true, false, ◌&&◌, none, some, [], ◌∷◌, ◌++◌, Text, text_eq, eq_iff, ◌==◌, trim,
  if◌then◌else◌, lookup-insert, lookup-delete, contains, nat_eq, arith, joined_parts, length,
  length-append, suc, ◌+◌,
}
use openclawssy.Http.RunCancel.{
  ActiveRunTracker, tracked_run_key, track, track_composite, cancel, cancel_composite, remove,
  remove_composite,
}

-- A run's identity whose instance is named, and whose instance and agent have no colon.
pub record IsNamed (instance_id agent_id : Text) : Type 0 where
  pub named : (trim instance_id == []) ≡ false
  pub instance_plain : contains (trim instance_id) b':' ≡ false
  pub agent_plain : contains (trim agent_id) b':' ≡ false

-- Two identities with the same key are the same identity, but for white space around their parts.
pub tracked_run_key_apart :
    (i a r i' a' r' : Text)
    → IsNamed i a
    → IsNamed i' a'
    → tracked_run_key i a r ≡ tracked_run_key i' a' r'
    → (trim i ≡ trim i') × (trim a ≡ trim a') × (trim r ≡ trim r')
unfolding tracked_run_key
tracked_run_key_apart i a r i' a' r' n n' e =
    let joined : trim i ++ (b':' ∷ trim a ++ (b':' ∷ trim r))
        ≡ trim i' ++ (b':' ∷ trim a' ++ (b':' ∷ trim r')) =
      ground (arith, e, n.named, n'.named) in
    let (same_i, rest) =
      joined_parts b':' (trim i) (trim i') _ _ n.instance_plain n'.instance_plain joined in
    let (same_a, same_r) =
      joined_parts b':' (trim a) (trim a') _ _ n.agent_plain n'.agent_plain rest in
    (same_i, same_a, same_r)

-- The two identities agree, but for white space around their parts.
pub same_run : Text → Text → Text → Text → Text → Text → Bool
same_run i a r i' a' r' = trim i == trim i' && trim a == trim a' && trim r == trim r'

same_run-key :
    (i a r i' a' r' : Text)
    → IsNamed i a
    → IsNamed i' a'
    → (tracked_run_key i a r == tracked_run_key i' a' r') ≡ same_run i a r i' a' r'
unfolding same_run tracked_run_key
same_run-key i a r i' a' r' n n' =
    let back : same_run i a r i' a' r' ≡ true → tracked_run_key i a r ≡ tracked_run_key i' a' r' =
      ground
        (arith, eq_iff (trim i) (trim i'), eq_iff (trim a) (trim a'), eq_iff (trim r) (trim r')) in
    ground (
      arith,
      tracked_run_key_apart i a r i' a' r' n n',
      back,
      eq_iff (tracked_run_key i a r) (tracked_run_key i' a' r'),
      eq_iff (trim i) (trim i'),
      eq_iff (trim a) (trim a'),
      eq_iff (trim r) (trim r'),
    )

-- A key of a named instance is not blank and not the run's own id, so the guards let it through.
tracked_run_key_long :
    (i a r : Text)
    → (trim i == []) ≡ false
    → ((tracked_run_key i a r == []) ≡ false) × ((tracked_run_key i a r == trim r) ≡ false)
unfolding tracked_run_key
tracked_run_key_long i a r h =
    let key = trim i ++ (b':' ∷ trim a ++ (b':' ∷ trim r)) in
    let long : length key ≡ length (trim i) + suc (length (trim a) + suc (length (trim r))) =
      ground (
        arith,
        length-append (trim i) (b':' ∷ trim a ++ (b':' ∷ trim r)),
        length-append (trim a) (b':' ∷ trim r),
      ) in
    ground (arith, h, long, eq_iff key [], eq_iff key (trim r))

-- After a run is tracked whose instance is not blank, cancelling it calls its function, and cancelling
-- any other such run calls what it called before, if no instance and no agent has a colon.
pub cancel-track_composite :
    (i a r i' a' r' : Text) (c : ℕ) (t : ActiveRunTracker)
    → IsNamed i a
    → IsNamed i' a'
    → cancel_composite i' a' r' (track_composite i a r (some c) t)
      ≡ (if same_run i a r i' a' r' then some c else cancel_composite i' a' r' t)
unfolding cancel_composite track_composite track cancel
cancel-track_composite i a r i' a' r' c t n n' = ground (
  arith,
  same_run-key i a r i' a' r' n n',
  tracked_run_key_long i a r n.named,
  tracked_run_key_long i' a' r' n'.named,
  lookup-insert (tracked_run_key i a r) (tracked_run_key i' a' r') c t,
)

-- After a run is removed whose instance is not blank, it can no longer be cancelled, and any other such
-- run can as before, if no instance and no agent has a colon.
cancel-remove_composite :
    (i a r i' a' r' : Text) (t : ActiveRunTracker)
    → IsNamed i a
    → IsNamed i' a'
    → cancel_composite i' a' r' (remove_composite i a r t)
      ≡ (if same_run i a r i' a' r' then none else cancel_composite i' a' r' t)
unfolding cancel_composite remove_composite remove cancel
cancel-remove_composite i a r i' a' r' t n n' = ground (
  arith,
  same_run-key i a r i' a' r' n n',
  tracked_run_key_long i a r n.named,
  tracked_run_key_long i' a' r' n'.named,
  lookup-delete (tracked_run_key i a r) (tracked_run_key i' a' r') t,
)

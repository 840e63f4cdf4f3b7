-- ===== src/Http/Events/Safety/Steps.antt =====
-- Each call on a safe bus but subscribe returns, with a safe bus.

use openclawssy.Base.{
  ℕ, ◌≤◌, ◌≡◌, sym, subst, Bool, true, ◌||◌, Option, some, [], Text, text_eq, nat_eq, ◌==◌, eq_iff,
  Map, lookup, insert, delete, lookup-delete, UniqueKeys, delete-UniqueKeys, All, All-forall,
  All-delete, lookup-All, arith, Option-cases, Bool-cases, inl, inr, trim,
}
use openclawssy.Http.Events.Channel.{Chan, RunEvent, receive_head, ◌>>=◌}
use openclawssy.Http.Events.Prune.{RunEventState}
use openclawssy.Http.Events.{
  RunEventBus, ensure_run, write_run, record_event, publish_to, close_run, unsubscribe, receive,
}
use openclawssy.Http.Events.Safety.Channels.{
  serves, Subs, Keeps, Subs-Keeps, everyone, fan_out_total, close_subs_total, other_runs,
  other_subs, close_serving, absent-other_subs, receive_head-Keeps,
}
use openclawssy.Http.Events.Safety.Invariant.{
  IsStream, IsSafe, insert-streams, write_run-streams, ensure_run-IsSafe, ensure_run-IsStream,
  streams-Keeps, IsStream-Keeps,
}

-- The call returns, with a safe bus.
abbrev pub IsFine : Option RunEventBus → Type 0
IsFine r = (b : RunEventBus) × (r ≡ some b) × IsSafe b

record_event-subs :
    (limit : ℕ) (public : Text) (now : ℕ) (event : RunEvent) (state : RunEventState)
    → ((record_event limit public now event state).1.subscribers ≡ state.subscribers)
      × ((record_event limit public now event state).1.next_sub_id ≡ state.next_sub_id)
unfolding record_event
record_event-subs limit public now event state = ground arith

-- The fields that a stream's laws speak of.
IsStream-same :
    (key : Text) (chans : Map ℕ Chan) (state state' : RunEventState)
    → state'.subscribers ≡ state.subscribers
    → state'.next_sub_id ≡ state.next_sub_id
    → IsStream key chans state
    → IsStream key chans state'
IsStream-same key chans state state' e f s = record {
  served = subst (Subs key chans) (sym e) s.served;
  unique = subst (λ (m : Map ℕ ℕ). UniqueKeys m) (sym e) s.unique;
  numbered =
      subst (λ n. All (λ (p : ℕ × ℕ). p.0 ≤ n) state'.subscribers) (sym f)
        (subst (λ (m : Map ℕ ℕ). All (λ (p : ℕ × ℕ). p.0 ≤ state.next_sub_id) m) (sym e)
          s.numbered);
}

write_back-IsSafe :
    (key : Text) (state : RunEventState) (chans : Map ℕ Chan) (b : RunEventBus)
    → IsSafe b
    → Keeps everyone b.chans chans
    → IsStream key b.chans state
    → IsSafe (record b { chans = chans; runs = write_run key state b.runs })
write_back-IsSafe key state chans b v k s = record {
  streams =
      write_run-streams key state b.runs chans (IsStream-Keeps key b.chans chans state k s)
        (λ j t e. IsStream-Keeps j b.chans chans t k (v.streams j t e));
  fresh = λ a h. k.free a (v.fresh a h);
}

pub publish-IsFine :
    (state_key public_run_id : Text) (event : RunEvent) (now : ℕ) (b : RunEventBus)
    → IsSafe b
    → IsFine (publish_to state_key public_run_id event now b)
unfolding publish_to
publish-IsFine state_key public_run_id event now b v =
    elim (Bool-cases (trim state_key == [] || trim public_run_id == [])) [
      | inl blank ↦ (b, rw blank, v)
      | inr full ↦
          let key = trim state_key in
          let b' = (ensure_run key b).0 in
          let state = (ensure_run key b).1 in
          let done = record_event b'.replay_limit (trim public_run_id) now event state in
          let same = record_event-subs b'.replay_limit (trim public_run_id) now event state in
          let s : IsStream key b'.chans done.1 =
            IsStream-same key b'.chans state done.1 same.0 same.1 (ensure_run-IsStream key b v) in
          let (chans, e, k) =
            fan_out_total key done.1.subscribers done.0 b'.chans done.1.dropped s.served in
          (
            record b' {
              chans = chans;
              runs = write_run key (record (done.1) { dropped = done.1.dropped }) b'.runs;
            },
            rw (full, e, ◌>>=◌),
            write_back-IsSafe key done.1 chans b' (ensure_run-IsSafe key b v) k s,
          )
    ]

-- A stream of another run is spared by a call that only closes channels of one run.
spared-IsStream :
    (spared : Text → ℕ → Bool) (j : Text) (chans chans' : Map ℕ Chan) (t : RunEventState)
    → ((sub : ℕ) → spared j sub ≡ true)
    → Keeps spared chans chans'
    → IsStream j chans t
    → IsStream j chans' t
spared-IsStream spared j chans chans' t all k s = record {
  served =
      Subs-Keeps spared j chans chans' t.subscribers k
        (All-forall (λ (p : ℕ × ℕ). spared j p.0 ≡ true) t.subscribers (λ p. all p.0)) s.served;
  unique = s.unique;
  numbered = s.numbered;
}

pub close-IsFine : (run_id : Text) (b : RunEventBus) → IsSafe b → IsFine (close_run run_id b)
unfolding close_run
close-IsFine run_id b v = elim (Bool-cases (trim run_id == [])) [
  | inl blank ↦ (b, rw blank, v)
  | inr full ↦ elim (Option-cases (lookup (trim run_id) b.runs)) [
    | inl missing ↦ (b, rw (full, missing), v)
    | inr (state, found) ↦
        let key = trim run_id in
        let s = v.streams key state found in
        let (chans, e, k) = close_subs_total key state.subscribers b.chans s.served s.unique in
        (
          record b {
            chans = chans;
            runs = insert key (record state { terminal = true; subscribers = [] }) b.runs;
          },
          rw (full, found, close_run, e, ◌>>=◌),
          record {
            streams =
                insert-streams key (record state { terminal = true; subscribers = [] }) b.runs chans
                  (record { served = tt; unique = tt; numbered = tt })
                  (λ j t d f.
                    spared-IsStream (other_runs key) j b.chans chans t (λ sub. ground arith) k
                      (v.streams j t f));
            fresh = λ a h. k.free a (v.fresh a h);
          },
        )
  ]
]

-- A run's stream after one of its subscriptions is gone.
removed-IsStream :
    (key : Text) (sub : ℕ) (chans chans' : Map ℕ Chan) (state : RunEventState)
    → Keeps (other_subs key sub) chans chans'
    → IsStream key chans state
    → IsStream key chans' (record state { subscribers = delete sub state.subscribers })
removed-IsStream key sub chans chans' state k s = record {
  served =
      Subs-Keeps (other_subs key sub) key chans chans' (delete sub state.subscribers) k
        (absent-other_subs key sub (delete sub state.subscribers)
          (ground (arith, lookup-delete sub sub state.subscribers)))
        (All-delete (λ (p : ℕ × ℕ). serves key p.0 (lookup p.1 chans) ≡ true) sub state.subscribers
          s.served);
  unique = delete-UniqueKeys sub state.subscribers s.unique;
  numbered = All-delete (λ (p : ℕ × ℕ). p.0 ≤ state.next_sub_id) sub state.subscribers s.numbered;
}

pub unsubscribe-IsFine :
    (run_id : Text) (sub : ℕ) (b : RunEventBus) → IsSafe b → IsFine (unsubscribe run_id sub b)
unfolding unsubscribe
unsubscribe-IsFine run_id sub b v = elim (Option-cases (lookup run_id b.runs)) [
  | inl missing ↦ (b, rw (missing, unsubscribe), v)
  | inr (state, found) ↦ elim (Option-cases (lookup sub state.subscribers)) [
    | inl gone ↦ (b, rw (found, unsubscribe, gone), v)
    | inr (address, here) ↦
        let s = v.streams run_id state found in
        let (ch, ch', e, c, k) =
          close_serving (other_subs run_id sub) run_id sub address b.chans
            (lookup-All (λ (p : ℕ × ℕ). serves run_id p.0 (lookup p.1 b.chans) ≡ true) sub address
              state.subscribers here s.served)
            (ground (arith, eq_iff run_id run_id)) in
        let chans : Map ℕ Chan = insert address ch' b.chans in
        let state' : RunEventState = record state { subscribers = delete sub state.subscribers } in
        (
          record b { chans = chans; runs = insert run_id state' b.runs },
          rw (found, unsubscribe, here, e, ◌>>=◌, c),
          record {
            streams =
                insert-streams run_id state' b.runs chans
                  (removed-IsStream run_id sub b.chans chans state k s)
                  (λ j t d f.
                    spared-IsStream (other_subs run_id sub) j b.chans chans t (λ i. ground arith) k
                      (v.streams j t f));
            fresh = λ a h. k.free a (v.fresh a h);
          },
        )
  ]
]

pub receive-IsSafe : (address : ℕ) (b : RunEventBus) → IsSafe b → IsSafe (receive address b)
unfolding receive
receive-IsSafe address b v = elim (Option-cases (lookup address b.chans)) [
  | inl missing ↦ rw (missing, receive) v
  | inr (ch, found) ↦
      rw (found, receive)
        (streams-Keeps b (insert address (receive_head ch) b.chans) v
          (receive_head-Keeps address ch b.chans found))
]

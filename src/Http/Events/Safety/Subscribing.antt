-- ===== src/Http/Events/Safety/Subscribing.antt =====
-- A subscription on a safe bus returns, with a safe bus.

use openclawssy.Base.{
  ℕ, suc, ◌≤◌, ◌≡◌, refl, true, false, Option, none, some, List, [], ◌∷◌, length, Text, text_eq,
  nat_eq, ◌==◌, eq_iff, Map, lookup, insert, lookup-insert, insert-UniqueKeys, All, All-insert,
  arith, Bool-cases, inl, inr, trim, ℤ,
}
use openclawssy.Http.Events.Channel.{Chan, RunEvent, send_all, close_chan}
use openclawssy.Http.Events.Prune.{RunEventState}
use openclawssy.Http.Events.{
  RunEventBus, Subscription, ensure_run, write_run, subscribe, replay_for, channel_capacity,
  register, hand_out_closed,
}
use openclawssy.Http.Events.Safety.Channels.{
  serves, Subs, everyone, send_all_open, insert-Keeps_new,
}
use openclawssy.Http.Events.Safety.Invariant.{
  IsStream, IsSafe, write_run-streams, ensure_run-IsSafe, ensure_run-IsStream,
}

new_Subs :
    (key : Text) (ch : Chan) (b : RunEventBus)
    → lookup b.next_chan b.chans ≡ none
    → (subs : Map ℕ ℕ) → Subs key b.chans subs
    → Subs key (insert b.next_chan ch b.chans) subs
new_Subs key ch b free [] h = tt
new_Subs key ch b free ((sub, a) ∷ subs) h = (
  insert-Keeps_new everyone b.next_chan ch b.chans key sub a free h.0,
  new_Subs key ch b free subs h.1,
)

numbered_suc :
    (n : ℕ) (subs : Map ℕ ℕ)
    → All (λ (p : ℕ × ℕ). p.0 ≤ n) subs
    → All (λ (p : ℕ × ℕ). p.0 ≤ suc n) subs
numbered_suc n [] h = tt
numbered_suc n (p ∷ subs) h = (omega arith, numbered_suc n subs h.1)

-- A channel put at a free address spares all.
alloc-IsSafe :
    (ch : Chan) (b : RunEventBus)
    → IsSafe b
    → IsSafe (record b { chans = insert b.next_chan ch b.chans; next_chan = suc b.next_chan })
alloc-IsSafe ch b v =
    let free : lookup b.next_chan b.chans ≡ none = v.fresh b.next_chan (omega arith) in
    record {
      streams = λ key state e.
          let s = v.streams key state e in
          record {
            served = new_Subs key ch b free state.subscribers s.served;
            unique = s.unique;
            numbered = s.numbered;
          };
      fresh =
          λ a h. ground (arith, lookup-insert b.next_chan a ch b.chans, v.fresh a (omega arith));
    }

-- A subscription that the call registers.
subscribed-IsSafe :
    (key : Text) (state : RunEventState) (ch : Chan) (b : RunEventBus)
    → IsSafe b
    → IsStream key b.chans state
    → serves key (suc state.next_sub_id) (some ch) ≡ true
    → IsSafe (record b {
      runs =
          write_run key
            (record state {
              next_sub_id = suc state.next_sub_id;
              subscribers = insert (suc state.next_sub_id) b.next_chan state.subscribers;
            })
            b.runs;
      chans = insert b.next_chan ch b.chans;
      next_chan = suc b.next_chan;
    })
subscribed-IsSafe key state ch b v s here =
    let safe = alloc-IsSafe ch b v in
    let chans : Map ℕ Chan = insert b.next_chan ch b.chans in
    let free : lookup b.next_chan b.chans ≡ none = v.fresh b.next_chan (omega arith) in
    let at_new : lookup b.next_chan chans ≡ some ch =
      ground (arith, lookup-insert b.next_chan b.next_chan ch b.chans) in
    record {
      streams =
          write_run-streams key
            (record state {
              next_sub_id = suc state.next_sub_id;
              subscribers = insert (suc state.next_sub_id) b.next_chan state.subscribers;
            })
            b.runs chans
            (record {
              served =
                  All-insert (λ (p : ℕ × ℕ). serves key p.0 (lookup p.1 chans) ≡ true)
                    (suc state.next_sub_id) b.next_chan state.subscribers (rw at_new here)
                    (new_Subs key ch b free state.subscribers s.served);
              unique =
                  insert-UniqueKeys (suc state.next_sub_id) b.next_chan state.subscribers s.unique;
              numbered =
                  All-insert (λ (p : ℕ × ℕ). p.0 ≤ suc state.next_sub_id) (suc state.next_sub_id)
                    b.next_chan state.subscribers (omega arith)
                    (numbered_suc state.next_sub_id state.subscribers s.numbered);
            })
            safe.streams;
      fresh = safe.fresh;
    }

capacity_fits :
    (buffer replayed : ℕ)
    → (replayed ≤ channel_capacity buffer replayed) × (1 ≤ channel_capacity buffer replayed)
unfolding channel_capacity
capacity_fits buffer replayed = ground arith

-- The channel of a new subscription once the replay has been sent.
filled : ℕ → Text → ℕ → List RunEvent → Chan
filled capacity key sub replay = record {
  capacity = capacity;
  buffer = replay;
  closed = false;
  run = key;
  sub = sub;
}

filled-serves :
    (buffer : ℕ) (key : Text) (sub : ℕ) (replay : List RunEvent)
    → serves key sub (some (filled (channel_capacity buffer (length replay)) key sub replay)) ≡ true
unfolding serves filled
filled-serves buffer key sub replay =
    ground (arith, capacity_fits buffer (length replay), eq_iff key key)

replay_fits :
    (buffer : ℕ) (key : Text) (sub : ℕ) (replay : List RunEvent)
    → send_all (filled (channel_capacity buffer (length replay)) key sub []) replay
      ≡ some (filled (channel_capacity buffer (length replay)) key sub replay)
unfolding filled
replay_fits buffer key sub replay =
    send_all_open (filled (channel_capacity buffer (length replay)) key sub []) replay refl
      (omega (arith, capacity_fits buffer (length replay)))

abbrev pub IsFineSub : Option (RunEventBus × Subscription) → Type 0
IsFineSub r = (p : RunEventBus × Subscription) × (r ≡ some p) × IsSafe p.0

register-IsFine :
    (key : Text) (state : RunEventState) (replay : List RunEvent) (b : RunEventBus)
    → IsSafe b
    → IsStream key b.chans state
    → IsFineSub (
        register key state
          (filled
            (channel_capacity b.subscriber_buffer (length replay))
            key
            (suc state.next_sub_id)
            replay)
          b)
unfolding register close_chan filled
register-IsFine key state replay b v s =
    let ch : Chan =
      filled (channel_capacity b.subscriber_buffer (length replay)) key (suc state.next_sub_id)
        replay in
    elim (Bool-cases state.terminal) [
      | inl over ↦ (
        (
          record b {
            chans = insert b.next_chan (record ch { closed = true }) b.chans;
            next_chan = suc b.next_chan;
          },
          record { chan = b.next_chan; sub = none },
        ),
        rw (over, register),
        alloc-IsSafe (record ch { closed = true }) b v,
      )
      | inr on ↦ (
        (
          record b {
            runs =
                write_run key
                  (record state {
                    next_sub_id = suc state.next_sub_id;
                    subscribers = insert (suc state.next_sub_id) b.next_chan state.subscribers;
                  })
                  b.runs;
            chans = insert b.next_chan ch b.chans;
            next_chan = suc b.next_chan;
          },
          record { chan = b.next_chan; sub = some (suc state.next_sub_id) },
        ),
        rw (on, register),
        subscribed-IsSafe key state ch b v s
            (filled-serves b.subscriber_buffer key (suc state.next_sub_id) replay),
      )
    ]

pub subscribe-IsFine :
    (run_id : Text) (last : ℤ) (b : RunEventBus) → IsSafe b → IsFineSub (subscribe run_id last b)
unfolding subscribe hand_out_closed close_chan filled
subscribe-IsFine run_id last b v = elim (Bool-cases (trim run_id == [])) [
  | inl blank ↦
      let ch : Chan = record { capacity = 0; buffer = []; closed = true; run = []; sub = 0 } in
      (
        (
          record b { chans = insert b.next_chan ch b.chans; next_chan = suc b.next_chan },
          record { chan = b.next_chan; sub = none },
        ),
        rw (blank, subscribe),
        alloc-IsSafe ch b v,
      )
  | inr full ↦
      let key = trim run_id in
      let b' = (ensure_run key b).0 in
      let state = (ensure_run key b).1 in
      let replay = replay_for state last in
      let (r, e, safe) =
        register-IsFine key state replay b' (ensure_run-IsSafe key b v)
          (ensure_run-IsStream key b v) in
      (
        r,
        rw (full, subscribe, replay_fits b'.subscriber_buffer key (suc state.next_sub_id) replay) e,
        safe,
      )
]

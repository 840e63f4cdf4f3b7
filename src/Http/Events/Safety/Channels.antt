-- ===== src/Http/Events/Safety/Channels.antt =====
-- Which channels serve a subscription, and what a call may do to the others.
use mathlib.Core.List.{append_assoc, append-nil}
use openclawssy.Base.{
  ℕ, ◌+◌, ◌-◌, ◌≤◌, ◌≡◌, refl, sym, ap, Bool, true, false, ◌&&◌, not, Option, none, some, List, [],
  ◌∷◌, ◌++◌, length, length-append, Text, text_eq, nat_eq, ◌==◌, eq_iff, Map, lookup, insert,
  lookup-insert, UniqueKeys, All, if◌then◌else◌, ltb, leb, arith,
}
use openclawssy.Http.Events.Channel.{
  Chan, RunEvent, enqueue, send_all, close_chan, receive_head, tail, ◌>>=◌,
}
use openclawssy.Http.Events.{fan_out, close_subs}

-- The channel is open, has room for an event, is not over-full, and was made for the subscription.
unfoldable pub serves : Text → ℕ → Option Chan → Bool
serves key sub none = false
serves key sub (some ch) =
    not ch.closed
    && leb 1 ch.capacity
    && leb (length ch.buffer) ch.capacity
    && ch.run == key
    && ch.sub == sub

abbrev pub Subs : Text → Map ℕ Chan → Map ℕ ℕ → Type 0
Subs key chans subs = All (λ (p : ℕ × ℕ). serves key p.0 (lookup p.1 chans) ≡ true) subs

-- A heap keeps what is free, and the channels of every subscription that is spared.
pub record Keeps (spared : Text → ℕ → Bool) (chans chans' : Map ℕ Chan) : Type 0 where
  pub free : (a : ℕ) → lookup a chans ≡ none → lookup a chans' ≡ none
  pub served :
      (a : ℕ) (key : Text) (sub : ℕ)
      → spared key sub ≡ true
      → serves key sub (lookup a chans) ≡ true
      → serves key sub (lookup a chans') ≡ true

pub Keeps-refl : (spared : Text → ℕ → Bool) (chans : Map ℕ Chan) → Keeps spared chans chans
Keeps-refl spared chans = record { free = λ a e. e; served = λ a key sub s e. e }

pub Keeps-trans :
    (spared : Text → ℕ → Bool) (a b c : Map ℕ Chan)
    → Keeps spared a b
    → Keeps spared b c
    → Keeps spared a c
Keeps-trans spared a b c h k = record {
  free = λ x e. k.free x (h.free x e);
  served = λ x key sub s e. k.served x key sub s (h.served x key sub s e);
}

pub Subs-Keeps :
    (spared : Text → ℕ → Bool) (key : Text) (chans chans' : Map ℕ Chan) (subs : Map ℕ ℕ)
    → Keeps spared chans chans'
    → All (λ (p : ℕ × ℕ). spared key p.0 ≡ true) subs
    → Subs key chans subs
    → Subs key chans' subs
Subs-Keeps spared key chans chans' [] k s h = tt
Subs-Keeps spared key chans chans' ((sub, a) ∷ subs) k s h =
    (k.served a key sub s.0 h.0, Subs-Keeps spared key chans chans' subs k s.1 h.1)

-- A write to the channel of a subscription that keeps it in service spares all.
pub insert-Keeps :
    (spared : Text → ℕ → Bool) (key : Text) (sub a : ℕ) (ch ch' : Chan) (chans : Map ℕ Chan)
    → lookup a chans ≡ some ch
    → serves key sub (some ch) ≡ true
    → serves key sub (some ch') ≡ true
    → Keeps spared chans (insert a ch' chans)
unfolding serves
insert-Keeps spared key sub a ch ch' chans e s s' = record {
  free = λ x h. ground (arith, lookup-insert a x ch' chans);
  served = λ x k j p h. ground (
    arith,
    lookup-insert a x ch' chans,
    eq_iff ch.run key,
    eq_iff ch.run k,
    eq_iff ch'.run key,
    eq_iff ch'.run k,
  );
}

-- Any write to the channel of a subscription that is not spared spares the rest.
pub insert-Keeps_other :
    (spared : Text → ℕ → Bool) (key : Text) (sub a : ℕ) (ch ch' : Chan) (chans : Map ℕ Chan)
    → lookup a chans ≡ some ch
    → serves key sub (some ch) ≡ true
    → spared key sub ≡ false
    → Keeps spared chans (insert a ch' chans)
unfolding serves
insert-Keeps_other spared key sub a ch ch' chans e s p = record {
  free = λ x h. ground (arith, lookup-insert a x ch' chans);
  served =
      λ x k j q h. ground (arith, lookup-insert a x ch' chans, eq_iff ch.run key, eq_iff ch.run k);
}

-- A new channel spares all.
pub insert-Keeps_new :
    (spared : Text → ℕ → Bool) (a : ℕ) (ch : Chan) (chans : Map ℕ Chan) (key : Text) (sub x : ℕ)
    → lookup a chans ≡ none
    → serves key sub (lookup x chans) ≡ true
    → serves key sub (lookup x (insert a ch chans)) ≡ true
unfolding serves
insert-Keeps_new spared a ch chans key sub x e h = ground (arith, lookup-insert a x ch chans)

-- What a channel holds after an event was put in: the oldest event makes room.
unfoldable pub pushed : Chan → RunEvent → List RunEvent
pushed ch event =
    if ltb (length ch.buffer) ch.capacity
    then ch.buffer ++ event ∷ []
    else tail ch.buffer ++ event ∷ []

length-tail : (events : List RunEvent) → length (tail events) ≡ length events - 1
unfolding tail
length-tail [] = omega arith
length-tail (event ∷ events) = omega arith

pub length-pushed :
    (ch : Chan) (event : RunEvent)
    → 1 ≤ ch.capacity
    → length ch.buffer ≤ ch.capacity
    → length (pushed ch event) ≤ ch.capacity
unfolding pushed
length-pushed ch event h k = ground (
  arith,
  length-append ch.buffer (event ∷ []),
  length-append (tail ch.buffer) (event ∷ []),
  length-tail ch.buffer,
)

-- Into an open channel with room for one event an event always goes, as the newest.
pub enqueue_sends :
    (ch : Chan) (event : RunEvent)
    → ch.closed ≡ false
    → 1 ≤ ch.capacity
    → length ch.buffer ≤ ch.capacity
    → enqueue ch event ≡ some (record ch { buffer = pushed ch event }, true)
unfolding enqueue pushed
enqueue_sends ch event o h k = ground (arith, length-tail ch.buffer)

pub enqueue-serves :
    (key : Text) (sub : ℕ) (ch : Chan) (event : RunEvent)
    → serves key sub (some ch) ≡ true
    → (enqueue ch event ≡ some (record ch { buffer = pushed ch event }, true))
      × (serves key sub (some (record ch { buffer = pushed ch event })) ≡ true)
unfolding serves
enqueue-serves key sub ch event s = ground (arith, enqueue_sends ch event, length-pushed ch event)

pub send_all_open :
    (ch : Chan) (events : List RunEvent)
    → ch.closed ≡ false
    → length ch.buffer + length events ≤ ch.capacity
    → send_all ch events ≡ some (record ch { buffer = ch.buffer ++ events })
unfolding send_all
send_all_open ch [] o h = ap some (ap (λ b. record ch { buffer = b }) (sym (append-nil ch.buffer)))
send_all_open ch (event ∷ events) o h = ground (
  arith,
  send_all_open (record ch { buffer = ch.buffer ++ event ∷ [] }) events,
  length-append ch.buffer (event ∷ []),
  append_assoc ch.buffer (event ∷ []) events,
)

abbrev pub everyone : Text → ℕ → Bool
everyone key sub = true

everyone-All : (key : Text) (subs : Map ℕ ℕ) → All (λ (p : ℕ × ℕ). everyone key p.0 ≡ true) subs
everyone-All key [] = tt
everyone-All key (p ∷ subs) = (refl, everyone-All key subs)

pub Keeps-Subs :
    (key : Text) (chans chans' : Map ℕ Chan) (subs : Map ℕ ℕ)
    → Keeps everyone chans chans'
    → Subs key chans subs
    → Subs key chans' subs
Keeps-Subs key chans chans' subs k h =
    Subs-Keeps everyone key chans chans' subs k (everyone-All key subs) h

pub serving :
    (key : Text) (sub : ℕ) (o : Option Chan)
    → serves key sub o ≡ true
    → (ch : Chan) × (o ≡ some ch) × (serves key sub (some ch) ≡ true)
unfolding serves
serving key sub none h = cc
serving key sub (some ch) h = (ch, refl, h)

-- The loop over the subscribers of a run ends, sends to each of them, and drops no event.
pub fan_out_total :
    (key : Text) (subs : Map ℕ ℕ) (event : RunEvent) (chans : Map ℕ Chan) (dropped : ℕ)
    → Subs key chans subs
    → (chans' : Map ℕ Chan) × (fan_out subs event chans dropped ≡ some (chans', dropped))
      × Keeps everyone chans chans'
unfolding fan_out
fan_out_total key [] event chans dropped h = (chans, refl, Keeps-refl everyone chans)
fan_out_total key ((sub, a) ∷ subs) event chans dropped h =
    let (ch, e, s) = serving key sub (lookup a chans) h.0 in
    let (sent, s') = enqueue-serves key sub ch event s in
    let ch' : Chan = record ch { buffer = pushed ch event } in
    let k : Keeps everyone chans (insert a ch' chans) =
      insert-Keeps everyone key sub a ch ch' chans e s s' in
    let (chans', rest, k') =
      fan_out_total key subs event (insert a ch' chans) dropped
        (Keeps-Subs key chans (insert a ch' chans) subs k h.1) in
    (chans', rw (e, ◌>>=◌, sent) rest, Keeps-trans everyone chans (insert a ch' chans) chans' k k')

-- The subscriptions of other runs.
abbrev pub other_runs : Text → Text → ℕ → Bool
other_runs closing key sub = not (closing == key)

abbrev pub other_subs : Text → ℕ → Text → ℕ → Bool
other_subs closing gone key sub = not (closing == key && gone == sub)

-- Closing a channel that serves a subscription works, and spares the others.
pub close_serving :
    (spared : Text → ℕ → Bool) (key : Text) (sub a : ℕ) (chans : Map ℕ Chan)
    → serves key sub (lookup a chans) ≡ true
    → spared key sub ≡ false
    → (ch : Chan) × (ch' : Chan) × (lookup a chans ≡ some ch)
      × (close_chan ch ≡ some ch')
      × Keeps spared chans (insert a ch' chans)
unfolding serves close_chan
close_serving spared key sub a chans h p =
    let (ch, e, s) = serving key sub (lookup a chans) h in
    (
      ch,
      record ch { closed = true },
      e,
      open_closes ch s,
      insert-Keeps_other spared key sub a ch (record ch { closed = true }) chans e s p,
    )
  where
    open_closes :
        (ch : Chan)
        → serves key sub (some ch) ≡ true
        → close_chan ch ≡ some (record ch { closed = true })
    open_closes ch s = ground arith

pub Keeps-weaken :
    (wide narrow : Text → ℕ → Bool) (chans chans' : Map ℕ Chan)
    → ((key : Text) (sub : ℕ) → narrow key sub ≡ true → wide key sub ≡ true)
    → Keeps wide chans chans'
    → Keeps narrow chans chans'
Keeps-weaken wide narrow chans chans' w k = record {
  free = k.free;
  served = λ a key sub s h. k.served a key sub (w key sub s) h;
}

pub absent-other_subs :
    (key : Text) (sub : ℕ) (subs : Map ℕ ℕ)
    → lookup sub subs ≡ none
    → All (λ (p : ℕ × ℕ). other_subs key sub key p.0 ≡ true) subs
unfolding lookup
absent-other_subs key sub [] h = tt
absent-other_subs key sub ((j, a) ∷ subs) h =
    (ground arith, absent-other_subs key sub subs (ground arith))

-- The loop that closes a run's subscribers ends, and spares the channels of other runs.
pub close_subs_total :
    (key : Text) (subs : Map ℕ ℕ) (chans : Map ℕ Chan)
    → Subs key chans subs
    → UniqueKeys subs
    → (chans' : Map ℕ Chan) × (close_subs subs chans ≡ some chans')
      × Keeps (other_runs key) chans chans'
unfolding close_subs
close_subs_total key [] chans h u = (chans, refl, Keeps-refl (other_runs key) chans)
close_subs_total key ((sub, a) ∷ subs) chans h u =
    let (ch, ch', e, c, k) =
      close_serving (other_subs key sub) key sub a chans h.0 (ground (arith, eq_iff key key)) in
    let (chans', rest, k') =
      close_subs_total key subs (insert a ch' chans)
        (Subs-Keeps (other_subs key sub) key chans (insert a ch' chans) subs k
          (absent-other_subs key sub subs u.0) h.1)
        u.1 in
    (
      chans',
      rw (e, ◌>>=◌, c) rest,
      Keeps-trans (other_runs key) chans (insert a ch' chans) chans'
          (Keeps-weaken (other_subs key sub) (other_runs key) chans (insert a ch' chans)
            (λ j s o. ground arith) k)
          k',
    )

pub receive_head-Keeps :
    (a : ℕ) (ch : Chan) (chans : Map ℕ Chan)
    → lookup a chans ≡ some ch
    → Keeps everyone chans (insert a (receive_head ch) chans)
unfolding serves receive_head
receive_head-Keeps a ch chans e = record {
  free = λ x h. ground (arith, lookup-insert a x (receive_head ch) chans);
  served = λ x key sub p h.
      ground (arith, lookup-insert a x (receive_head ch) chans, length-tail ch.buffer);
}

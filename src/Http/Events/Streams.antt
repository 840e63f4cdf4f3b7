-- ===== src/Http/Events/Streams.antt =====
-- What clients of a stream see: the newest events, in order, under rising numbers.
use mathlib.Core.List.{append_assoc, append-nil}
use openclawssy.Base.{
  ℕ, zero, suc, ◌-◌, ◌≤◌, ◌<◌, ◌≡◌, refl, sym, ◌∙◌, false, Option, some, List, [], ◌∷◌, ◌++◌,
  length, length-append, length-drop, drop, drop-append, drop-drop, All, All-append, All-drop, Text,
  ltb, arith, Bool-cases, inl, inr, subst, ℤ, pos, negsuc, pos_part,
}
use openclawssy.Http.Events.Channel.{Chan, RunEvent, enqueue, tail, ◌>>=◌}
use openclawssy.Http.Events.Prune.{RunEventState}
use openclawssy.Http.Events.{keep_last, assign_id, record_event}
use openclawssy.Http.Events.Safety.Channels.{pushed, enqueue_sends, length-pushed}

length-keep_last : (limit : ℕ) (events : List RunEvent) → length (keep_last limit events) ≤ limit
unfolding keep_last
length-keep_last limit events = ground (arith, length-drop (length events - limit) events)

keep_last-append :
    (limit : ℕ) (xs ys : List RunEvent)
    → keep_last limit (keep_last limit xs ++ ys) ≡ keep_last limit (xs ++ ys)
unfolding keep_last
keep_last-append limit xs ys = elim (Bool-cases (ltb limit (length xs))) [
  | inl long ↦ ground (
    arith,
    length-append xs ys,
    length-drop (length xs - limit) xs,
    length-append (drop (length xs - limit) xs) ys,
    drop-append (length xs - limit) xs ys,
    drop-drop (length (drop (length xs - limit) xs ++ ys) - limit) (length xs - limit) (xs ++ ys),
  )
  | inr short ↦ rw short
]

-- Events put into a channel one after the other, while nobody takes any out.
pub enqueue_all : Chan → List RunEvent → Option Chan
enqueue_all ch [] = some ch
enqueue_all ch (event ∷ events) = do (ch', sent) ← enqueue ch event; enqueue_all ch' events

drop-one : (events : List RunEvent) → drop 1 events ≡ tail events
unfolding tail
drop-one [] = refl
drop-one (event ∷ events) = refl

pushed-keep_last :
    (ch : Chan) (event : RunEvent)
    → 1 ≤ ch.capacity
    → length ch.buffer ≤ ch.capacity
    → pushed ch event ≡ keep_last ch.capacity (ch.buffer ++ event ∷ [])
unfolding pushed keep_last
pushed-keep_last ch event h k = ground (
  arith,
  length-append ch.buffer (event ∷ []),
  drop-append 1 ch.buffer (event ∷ []),
  drop-one ch.buffer,
)

-- A channel that is open and has room for an event takes any events without a panic, and then holds
-- the newest of all that it was sent, in order, as many as fit.
pub enqueue_keeps_newest :
    (ch : Chan) (events : List RunEvent)
    → ch.closed ≡ false
    → 1 ≤ ch.capacity
    → length ch.buffer ≤ ch.capacity
    → enqueue_all ch events
      ≡ some (record ch { buffer = keep_last ch.capacity (ch.buffer ++ events) })
unfolding enqueue_all keep_last
enqueue_keeps_newest ch [] o h k = ground (arith, append-nil ch.buffer)
enqueue_keeps_newest ch (event ∷ events) o h k = rw (
  enqueue_sends ch event o h k,
  enqueue_keeps_newest (record ch { buffer = pushed ch event }) events o h
      (length-pushed ch event h k),
  pushed-keep_last ch event h k,
  keep_last-append ch.capacity (ch.buffer ++ event ∷ []) events,
  append_assoc ch.buffer (event ∷ []) events,
)

keep_last_snoc :
    (limit : ℕ) (xs : List RunEvent) (x : RunEvent)
    → 1 ≤ limit
    → (older : List RunEvent) × (keep_last limit (xs ++ x ∷ []) ≡ older ++ x ∷ [])
unfolding keep_last
keep_last_snoc limit xs x h = elim (Bool-cases (ltb limit (length (xs ++ x ∷ [])))) [
  | inl long ↦ (
    drop (length (xs ++ x ∷ []) - limit) xs,
    ground
        (arith, length-append xs (x ∷ []), drop-append (length (xs ++ x ∷ []) - limit) xs (x ∷ [])),
  )
  | inr short ↦ (xs, ground arith)
]

All-keep_last {ℓ} :
    (P : RunEvent → Type ℓ) (limit : ℕ) (xs : List RunEvent) → All P xs → All P (keep_last limit xs)
unfolding keep_last
All-keep_last P limit xs a = ground (arith, All-drop P (length xs - limit) xs a)

assign_id_rises :
    (id : ℤ) (next_id : ℕ)
    → (next_id ≤ (assign_id id next_id).1)
      × (pos_part (assign_id id next_id).0 ≤ (assign_id id next_id).1)
      × (pos_part id ≡ 0 → next_id < pos_part (assign_id id next_id).0)
unfolding assign_id
assign_id_rises (pos zero) next_id = ground arith
assign_id_rises (negsuc n) next_id = ground arith
assign_id_rises (pos (suc n)) next_id = ground arith

All-up_to :
    (low high : ℕ) (xs : List RunEvent)
    → low ≤ high
    → All (λ (e : RunEvent). pos_part e.id ≤ low) xs
    → All (λ (e : RunEvent). pos_part e.id ≤ high) xs
All-up_to low high [] h a = a
All-up_to low high (x ∷ xs) h a = (omega arith, All-up_to low high xs h a.1)

-- The events that are kept for a replay: within the limit, and numbered up to the counter.
pub record IsReplay (limit : ℕ) (state : RunEventState) : Type 0 where
  pub bounded : length state.replay ≤ limit
  pub numbered : All (λ (e : RunEvent). pos_part e.id ≤ state.next_id) state.replay

record_event_parts :
    (limit : ℕ) (public : Text) (now : ℕ) (event : RunEvent) (state : RunEventState)
    → let (stored, state') = record_event limit public now event state in
      (state'.replay ≡ keep_last limit (state.replay ++ stored ∷ []))
      × (state'.next_id ≡ (assign_id event.id state.next_id).1)
      × (stored.id ≡ (assign_id event.id state.next_id).0)
unfolding record_event
record_event_parts limit public now event state = ground arith

-- Recording an event keeps the replay within the limit and its numbers up to the counter, which does
-- not fall; an event that comes without a number gets one above all that are kept, and the stored
-- event is the last of the replay.
pub record_event-IsReplay :
    (limit : ℕ) (public : Text) (now : ℕ) (event : RunEvent) (state : RunEventState)
    → 1 ≤ limit
    → IsReplay limit state
    → let (stored, state') = record_event limit public now event state in
      IsReplay limit state'
      × (state.next_id ≤ state'.next_id)
      × (pos_part event.id ≡ 0 → state.next_id < pos_part stored.id)
      × ((older : List RunEvent) × (state'.replay ≡ older ++ stored ∷ []))
record_event-IsReplay limit public now event state h v =
    let stored = (record_event limit public now event state).0 in
    let state' = (record_event limit public now event state).1 in
    let (replays, counts, numbers) = record_event_parts limit public now event state in
    let (rises, within, above) = assign_id_rises event.id state.next_id in
    let top : pos_part stored.id ≤ state'.next_id = ground (arith, within) in
    let grown : state.next_id ≤ state'.next_id = ground (arith, rises) in
    (
      record {
        bounded = ground (arith, replays, length-keep_last limit (state.replay ++ stored ∷ []));
        numbered = subst (All (λ (e : RunEvent). pos_part e.id ≤ state'.next_id)) (sym replays) (
            All-keep_last _ limit (state.replay ++ stored ∷ []) (
              All-append _ state.replay (stored ∷ [])
                (All-up_to state.next_id state'.next_id state.replay grown v.numbered) (top, tt)));
      },
      grown,
      (λ z. ground (arith, above z)),
      (let (older, e) = keep_last_snoc limit state.replay stored h in (older, replays ∙ e)),
    )

-- ===== src/Http/Events/Channel.antt =====
-- Events, Go channels with a buffer, and enqueueRunEvent.
use openclawssy.Base.{
  ℕ, Bool, true, false, Option, none, some, List, [], ◌∷◌, ◌++◌, length, Text, ltb, if◌then◌else◌,
  ℤ,
}

pub data EventType : Type 0 where
  status tool_end model_text completed canceled failed heartbeat : EventType
  other : Text → EventType

unfoldable pub is_terminal_run_event_type : EventType → Bool
is_terminal_run_event_type completed = true
is_terminal_run_event_type canceled = true
is_terminal_run_event_type failed = true
is_terminal_run_event_type _ = false

-- `payload` is the field Data, which the bus only carries. A timestamp of 0 is the zero time.
pub record RunEvent : Type 0 where
  pub id : ℤ
  pub kind : EventType
  pub run_id : Text
  pub instance_id : Text
  pub agent_id : Text
  pub timestamp : ℕ
  pub payload : Text

-- `run` and `sub` say for which subscription a channel was made; the program does not read them.
pub record Chan : Type 0 where
  pub capacity : ℕ
  pub buffer : List RunEvent
  pub closed : Bool
  pub run : Text
  pub sub : ℕ

infixl 5 ◌>>=◌
abbrev pub ◌>>=◌ {ℓ κ} : {A : Type ℓ} {B : Type κ} → Option A → (A → Option B) → Option B
none >>= f = none
some a >>= f = f a

-- A send in a select with a default case: `false` if the buffer is full.
try_send : Chan → RunEvent → Option (Chan × Bool)
try_send ch event =
    if ch.closed
    then none
    else if ltb (length ch.buffer) ch.capacity
    then some (record ch { buffer = ch.buffer ++ event ∷ [] }, true)
    else some (ch, false)

unfoldable pub tail : List RunEvent → List RunEvent
tail [] = []
tail (event ∷ rest) = rest

-- A receive in a select with a default case.
unfoldable pub receive_head : Chan → Chan
unfolding tail
receive_head ch = record ch { buffer = tail ch.buffer }

unfoldable pub enqueue : Chan → RunEvent → Option (Chan × Bool)
unfolding try_send receive_head
enqueue ch event = do
  (ch', sent) ← try_send ch event
  if sent then some (ch', true) else try_send (receive_head ch') event

-- Plain sends, one after the other. A full buffer blocks.
unfoldable pub send_all : Chan → List RunEvent → Option Chan
unfolding try_send
send_all ch [] = some ch
send_all ch (event ∷ events) = do
  (ch', sent) ← try_send ch event
  if sent then send_all ch' events else none

unfoldable pub close_chan : Chan → Option Chan
close_chan ch = if ch.closed then none else some (record ch { closed = true })

-- ===== src/Daemon/EventBuffer.antt =====
-- `EventBuffer` of crates/daemon/src/state.rs: a session's event history, of bounded length, with
-- the position of each event and what no wait has reported yet. Oldest first.
pub mod Log
pub mod Refine
pub mod Delivery
use lazydap.Prelude.{
  ℕ, ◌+◌, ◌-◌, max, Option, none, some, Bool, true, false, List, [], ◌∷◌, ◌++◌, map, ltb, leb, ◌==◌,
  if◌then◌else◌, length, filter, add_u64,
}
use lazydap.Core.Session.{OutputChunk}
use lazydap.Core.Event.{Event, output}

pub record SeqEvent : Type 0 where
  pub seq : ℕ
  pub event : Event

pub record EventBuffer : Type 0 where
  pub events : List SeqEvent
  pub capacity : ℕ
  pub dropped : ℕ
  pub undelivered_loss : ℕ
  pub next_seq : ℕ
  pub delivered : ℕ

unfoldable pub new : ℕ → EventBuffer
new capacity = record {
  events = [];
  capacity = capacity;
  dropped = 0;
  undelivered_loss = 0;
  next_seq = 1;
  delivered = 0;
}

-- The body of `if let Some(lost)`: `lost` leaves the buffer, and counts as a loss if no wait had
-- reported it.
forget : EventBuffer → SeqEvent → List SeqEvent → EventBuffer
forget b lost rest = record b {
  events = rest;
  undelivered_loss =
      if ltb b.delivered lost.seq then add_u64 b.undelivered_loss 1 else b.undelivered_loss;
  delivered = max b.delivered lost.seq;
}

pop_front : EventBuffer → EventBuffer
unfolding forget
pop_front b = elim b.events [ [] ↦ b | lost ∷ rest ↦ forget b lost rest ]

make_room : EventBuffer → EventBuffer
unfolding pop_front
make_room b =
    if length b.events == b.capacity
    then (let b' = pop_front b in record b' { dropped = add_u64 b'.dropped 1 })
    else b

unfoldable pub push : EventBuffer → Event → EventBuffer × SeqEvent
unfolding make_room
push b event =
    let sequenced : SeqEvent = record { seq = b.next_seq; event = event } in
    let b' = make_room (record b { next_seq = add_u64 b.next_seq 1 }) in
    (record b' { events = b'.events ++ sequenced ∷ [] }, sequenced)

unfoldable pub watermark : EventBuffer → ℕ
watermark b = b.next_seq - 1

unfoldable pub since : EventBuffer → ℕ → List SeqEvent
since b seq = filter (λ s. ltb seq s.seq) b.events

unfoldable pub undelivered : EventBuffer → List Event × ℕ × ℕ
unfolding watermark
undelivered b = (
  map (λ s. s.event) (filter (λ s. ltb b.delivered s.seq) b.events),
  watermark b,
  b.undelivered_loss,
)

unfoldable pub mark_delivered : EventBuffer → ℕ → EventBuffer
mark_delivered b seq = record b { delivered = max b.delivered seq; undelivered_loss = 0 }

-- `filter_map` to the chunks of the output events
unfoldable pub chunks : List SeqEvent → List OutputChunk
chunks [] = []
chunks (s ∷ rest) =
    let more = chunks rest in elim s.event [ output id chunk ↦ chunk ∷ more | _ ↦ more ]

-- `since_ms.is_none_or(..)`
abbrev pub recent : Option ℕ → OutputChunk → Bool
recent none chunk = true
recent (some since_ms) chunk = leb since_ms chunk.timestamp_ms

-- `EventBuffer::output`
unfoldable pub buffered_output : EventBuffer → Option ℕ → List OutputChunk × ℕ
unfolding chunks
buffered_output b since_ms = (filter (recent since_ms) (chunks b.events), b.dropped)

-- `EventBuffer::len`
abbrev pub len : EventBuffer → ℕ
len b = length b.events

abbrev pub is_output : SeqEvent → Bool
is_output s = elim s.event [ output id chunk ↦ true | _ ↦ false ]

unfoldable pub output_chunks : EventBuffer → ℕ
output_chunks b = length (filter is_output b.events)

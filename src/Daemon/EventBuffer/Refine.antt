-- ===== src/Daemon/EventBuffer/Refine.antt =====
-- `EventBuffer` of crates/daemon/src/state.rs: each operation and reader of the buffer against the
-- log.
use lazydap.Prelude.{
  sym, if◌then◌else◌, ap₂, ne→==, ◌∙◌, ℕ, suc, ◌+◌, ◌-◌, ◌≤◌, ◌<◌, max, ◌≡◌, refl, ap, List, [],
  ◌∷◌, ◌++◌, arith, ltb, length, drop, filter, u64_mod, length-append, length-drop, drop-append,
  drop-drop, drop-cons, dec_lt,
}
use lazydap.Core.Event.{Event}
use lazydap.Daemon.EventBuffer.{
  add_u64, SeqEvent, EventBuffer, new, make_room, push, since, mark_delivered,
}
use lazydap.Daemon.EventBuffer.Log.{
  Log, empty, evicted, append, mark, numbered, from_position, embody, length-numbered,
  numbered-append, filter-numbered, drop-numbered,
}

-- A fresh buffer holds the empty log.
pub new-embody : (cap : ℕ) → new cap ≡ embody cap empty
unfolding new embody numbered
new-embody cap = let e : 0 - cap ≡ 0 = omega arith in rw e

length-from_position : (k : ℕ) (h : List Event) → length (from_position k h) ≡ length h - k
unfolding from_position
length-from_position k h = omega (arith, length-numbered (suc k) (drop k h), length-drop k h)

-- A new event goes behind the others.
from_position-append :
    (k : ℕ) (h : List Event) (e : Event)
    → k ≤ length h
    → from_position k (h ++ e ∷ [])
      ≡ from_position k h ++ record { seq = suc (length h); event = e } ∷ []
unfolding from_position
from_position-append k h e le = rw (drop-append k h (e ∷ []) le) (
    numbered-append (suc k) (drop k h) e
    ∙ ap (λ n. numbered (suc k) (drop k h) ++ record { seq = n; event = e } ∷ [])
        (omega (arith, length-drop k h)))

-- The oldest of the events after position `k` has position `k + 1`.
from_position-cons :
    (k : ℕ) (h : List Event)
    → k < length h
    → (e : Event) × (from_position k h
        ≡ record { seq = suc k; event = e } ∷ from_position (suc k) h)
unfolding from_position numbered
from_position-cons k h lt = let (e, kept) = drop-cons k h lt in (e, rw kept)

-- Two buffers with the same fields are the same.
same_fields :
    {a b : EventBuffer}
    → a.events ≡ b.events
    → a.capacity ≡ b.capacity
    → a.dropped ≡ b.dropped
    → a.undelivered_loss ≡ b.undelivered_loss
    → a.next_seq ≡ b.next_seq
    → a.delivered ≡ b.delivered
    → a ≡ b
same_fields e c d u n r = λ i. record {
  events = e i;
  capacity = c i;
  dropped = d i;
  undelivered_loss = u i;
  next_seq = n i;
  delivered = r i;
}

make_room_spare : (b : EventBuffer) → ¬ (length b.events ≡ b.capacity) → make_room b ≡ b
unfolding make_room
make_room_spare b h = rw (ne→== _ _ h)

make_room_full :
    (b : EventBuffer) (lost : SeqEvent) (rest : List SeqEvent)
    → length b.events ≡ b.capacity
    → b.events ≡ lost ∷ rest
    → make_room b ≡ record b {
      events = rest;
      dropped = add_u64 b.dropped 1;
      undelivered_loss =
          if ltb b.delivered lost.seq then add_u64 b.undelivered_loss 1 else b.undelivered_loss;
      delivered = max b.delivered lost.seq;
    }
unfolding make_room
make_room_full b lost rest full e = ground arith

module _ (cap : ℕ) (l : Log) (e : Event) where
  -- The buffer after the increment of `next_seq`.
  abbrev counted : EventBuffer
  counted = record (embody cap l) { next_seq = add_u64 (suc (length l.history)) 1 }

  longer : length (append l e).history ≡ suc (length l.history)
  longer = omega (arith, length-append l.history (e ∷ []))

  events_after :
      (k : ℕ)
      → k ≤ length l.history
      → k ≡ evicted cap (append l e)
      → from_position k l.history ++ record { seq = suc (length l.history); event = e } ∷ []
        ≡ from_position (evicted cap (append l e)) (l.history ++ e ∷ [])
  events_after k le same =
      sym (from_position-append k l.history e le)
      ∙ ap (λ n. from_position n (l.history ++ e ∷ [])) same

  -- With room to spare nothing is pushed out.
  push_spare :
      length l.history + 2 < u64_mod
      → length l.history < cap
      → (push (embody cap l) e).0 ≡ embody cap (append l e)
  unfolding push embody
  push_spare room spare =
      rw (make_room_spare counted (omega (arith, length-from_position (evicted cap l) l.history))) (
        same_fields (events_after (evicted cap l) (omega arith) (omega (arith, longer))) refl
          (omega (arith, longer)) (omega (arith, longer)) (omega (arith, longer))
          (omega (arith, longer)))

  push_full :
      0 < cap
      → length l.history + 2 < u64_mod
      → ¬ (length l.history < cap)
      → (push (embody cap l) e).0 ≡ embody cap (append l e)
  unfolding push embody
  push_full pos room full =
      let (oldest, kept) = from_position-cons (evicted cap l) l.history (omega arith) in
      rw
        (make_room_full counted _ _ (omega (arith, length-from_position (evicted cap l) l.history))
          kept)
        (same_fields (events_after (suc (evicted cap l)) (omega arith) (omega (arith, longer))) refl
          (omega (arith, longer)) (ground (arith, longer)) (omega (arith, longer))
          (omega (arith, longer)))

-- Emitting an event appends it to the log, under the next position.
pub push-embody :
    (cap : ℕ) (l : Log) (e : Event)
    → 0 < cap
    → length l.history + 2 < u64_mod
    → push (embody cap l) e
      ≡ (embody cap (append l e), record { seq = suc (length l.history); event = e })
unfolding push embody
push-embody cap l e pos room =
    ap (λ (b : EventBuffer). (b, record { seq = suc (length l.history); event = e })) buffer
  where
    buffer : (push (embody cap l) e).0 ≡ embody cap (append l e)
    buffer = elim (dec_lt (length l.history) cap) [
      | yes spare ↦ push_spare cap l e room spare
      | no full ↦ push_full cap l e pos room full
    ]

-- Reporting up to a position marks the log.
pub mark_delivered-embody :
    (cap : ℕ) (l : Log) (seq : ℕ) → mark_delivered (embody cap l) seq ≡ embody cap (mark cap l seq)
unfolding mark_delivered embody
mark_delivered-embody cap l seq = same_fields refl refl refl (omega arith) refl (omega arith)

pub since-from_position :
    (seq k : ℕ) (h : List Event)
    → filter (λ s. ltb seq s.seq) (from_position k h) ≡ from_position (max seq k) h
unfolding from_position
since-from_position seq k h =
    filter-numbered seq (suc k) (drop k h)
    ∙ drop-numbered (suc seq - suc k) (suc k) (drop k h)
    ∙ ap (λ xs. numbered (suc k + (suc seq - suc k)) xs) (drop-drop (suc seq - suc k) k h)
    ∙ ap₂ (λ n m. numbered n (drop m h)) (omega arith) (omega arith)

-- `events_since` reads the events after a position, as far back as they are kept.
pub since-embody :
    (cap : ℕ) (l : Log) (seq : ℕ)
    → since (embody cap l) seq ≡ from_position (max seq (evicted cap l)) l.history
unfolding since embody
since-embody cap l seq = since-from_position seq (evicted cap l) l.history

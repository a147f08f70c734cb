-- ===== src/Daemon/EventBuffer/Log.antt =====
-- The specification of the event buffer: a log of everything that happened, with a mark up to which
-- it has been reported, of which only the newest `cap` events can be read.
use lazydap.Prelude.{
  not-lt→ltb, lt→ltb, dec_lt, drop-nil, sym, ℕ, zero, suc, ◌+◌, ◌-◌, max, ◌≡◌, refl, ap, List, [],
  ◌∷◌, ◌++◌, map, arith, ltb, length, drop, filter,
}
use lazydap.Core.Event.{Event}
use lazydap.Daemon.EventBuffer.{SeqEvent, EventBuffer}

pub record Log : Type 0 where
  pub history : List Event
  pub marked : ℕ

abbrev pub empty : Log
empty = record { history = []; marked = 0 }

-- How many events have been pushed out.
abbrev pub evicted : ℕ → Log → ℕ
evicted cap l = length l.history - cap

-- Up to where nothing is left to report: reported, or pushed out.
abbrev pub settled : ℕ → Log → ℕ
settled cap l = max l.marked (evicted cap l)

abbrev pub append : Log → Event → Log
append l e = record l { history = l.history ++ e ∷ [] }

abbrev pub mark : ℕ → Log → ℕ → Log
mark cap l seq = record l { marked = max (settled cap l) seq }

-- The events with their positions, from `n` on.
unfoldable pub numbered : ℕ → List Event → List SeqEvent
numbered n [] = []
numbered n (e ∷ es) = record { seq = n; event = e } ∷ numbered (suc n) es

-- The positioned events after the first `k`.
unfoldable pub from_position : ℕ → List Event → List SeqEvent
unfolding numbered
from_position k h = numbered (suc k) (drop k h)

-- The buffer that holds a log.
unfoldable pub embody : ℕ → Log → EventBuffer
unfolding from_position
embody cap l = record {
  events = from_position (evicted cap l) l.history;
  capacity = cap;
  dropped = evicted cap l;
  undelivered_loss = evicted cap l - l.marked;
  next_seq = suc (length l.history);
  delivered = settled cap l;
}

pub length-numbered : (n : ℕ) (h : List Event) → length (numbered n h) ≡ length h
unfolding numbered
length-numbered n [] = refl
length-numbered n (e ∷ h) = ap suc (length-numbered (suc n) h)

suc_shift : (n k : ℕ) → suc n + k ≡ n + suc k
suc_shift n k = omega arith

pub numbered-append :
    (n : ℕ) (h : List Event) (e : Event)
    → numbered n (h ++ e ∷ []) ≡ numbered n h ++ record { seq = n + length h; event = e } ∷ []
unfolding numbered
numbered-append n [] e = ap (λ k. record { seq = k; event = e } ∷ []) (omega arith)
numbered-append n (x ∷ h) e =
    ap (◌∷◌ (record { seq = n; event = x }))
      (rw (← suc_shift n (length h)) (numbered-append (suc n) h e))

-- The events after position `k`, of a list numbered from `n`.
pub filter-numbered :
    (k n : ℕ) (h : List Event)
    → filter (λ s. ltb k s.seq) (numbered n h) ≡ drop (suc k - n) (numbered n h)
unfolding numbered
filter-numbered k n [] = sym (drop-nil (suc k - n))
filter-numbered k n (e ∷ h) = elim (dec_lt k n) [
  | yes p ↦
      let none_dropped : suc k - n ≡ 0 = omega arith in
      let same : suc k - suc n ≡ 0 = omega arith in
      rw none_dropped (
        rw (lt→ltb k n p)
          (ap (◌∷◌ (record { seq = n; event = e })) (rw same at (filter-numbered k (suc n) h))))
  | no p ↦
      let one_more : suc k - n ≡ suc (suc k - suc n) = omega arith in
      rw one_more (rw (not-lt→ltb k n p) (filter-numbered k (suc n) h))
]

pub drop-numbered : (k n : ℕ) (h : List Event) → drop k (numbered n h) ≡ numbered (n + k) (drop k h)
unfolding numbered
drop-numbered zero n h = ap (λ m. numbered m h) (omega arith)
drop-numbered (suc k) n [] = refl
drop-numbered (suc k) n (e ∷ h) = rw (← suc_shift n k) (drop-numbered k (suc n) h)

pub map-event-numbered : (n : ℕ) (h : List Event) → map (λ s. s.event) (numbered n h) ≡ h
unfolding numbered
map-event-numbered n [] = refl
map-event-numbered n (e ∷ h) = ap (◌∷◌ e) (map-event-numbered (suc n) h)

-- ===== src/Daemon/Wait/Progress.antt =====
-- crates/daemon/src/wait.rs: which event a wait settles on, and a wait that fell behind the channel.
use lazydap.Prelude.{
  suc, drop, max, ℕ, ◌≤◌, ◌<◌, ◌≡◌, refl, arith, List, [], ◌∷◌, map, Bool, true, false, Option,
  none, some, Bool-cases, Option-cases, inl, inr, if◌then◌else◌, sym,
}
use lazydap.Core.Session.{SessionId, WaitOutcome}
use lazydap.Core.Event.{
  Event, session_started, session_ended, stopped, continued, output, breakpoint_updated,
  thread_changed, watch_updated,
}
use lazydap.Daemon.EventBuffer.{EventBuffer, SeqEvent, since}
use lazydap.Daemon.EventBuffer.Log.{Log, embody, numbered, from_position, evicted}
use lazydap.Daemon.EventBuffer.Refine.{since-embody}
use lazydap.Daemon.Wait.{
  Wait, record_loss, absorb, consider, outcome, reconcile_over, reconcile, turn, run, is_stale,
  is_of, event, lagged, absorb_output, settled_if,
}

-- Events in the order of their positions, all after `n`.
unfoldable pub IsAfter : ℕ → List SeqEvent → Type 0
IsAfter n [] = Unit
IsAfter n (s ∷ rest) = n < s.seq × IsAfter s.seq rest

IsAfter-weaken : (m n : ℕ) (events : List SeqEvent) → m ≤ n → IsAfter n events → IsAfter m events
unfolding IsAfter
IsAfter-weaken m n [] le h = h
IsAfter-weaken m n (s ∷ rest) le h = (omega (arith, h.0), h.1)

-- The outcome of the first event of the session that settles a wait.
unfoldable pub first_outcome : SessionId → Bool → List SeqEvent → Option WaitOutcome
first_outcome id all_threads [] = none
first_outcome id all_threads (s ∷ rest) =
    let later = first_outcome id all_threads rest in
    let now = outcome s.event all_threads in
    if is_of id s.event then elim now [ none ↦ later | some found ↦ some found ] else later

-- A new event of the session is not passed over, and one of another session is.
not_stale :
    (id : SessionId) (w : Wait) (s : SeqEvent)
    → w.watermark < s.seq
    → is_of id s.event ≡ true
    → is_stale id w s ≡ false
not_stale id w s later own = rw own (ground arith)

stale_other :
    (id : SessionId) (w : Wait) (s : SeqEvent) → is_of id s.event ≡ false → is_stale id w s ≡ true
stale_other id w s other = rw other (ground arith)

absorb-watermark : (w : Wait) (e : Event) → (absorb w e).watermark ≡ w.watermark
unfolding absorb absorb_output
absorb-watermark w (output id chunk) = ground arith
absorb-watermark w (stopped id stop) = refl
absorb-watermark w (session_ended id reason) = refl
absorb-watermark w (breakpoint_updated id b) = refl
absorb-watermark w (thread_changed id update) = refl
absorb-watermark w (session_started id adapter) = refl
absorb-watermark w (continued id thread all_continued) = refl
absorb-watermark w (watch_updated watch) = refl

-- The wait after an event that it took up.
abbrev taken : Wait → SeqEvent → Wait
taken w s = absorb (record w { watermark = s.seq }) s.event

IsAfter-taken :
    (w : Wait) (s : SeqEvent) (rest : List SeqEvent)
    → IsAfter s.seq rest
    → IsAfter (taken w s).watermark rest
IsAfter-taken w s rest h = rw (absorb-watermark (record w { watermark = s.seq }) s.event) h

-- The loop over new events of the channel, in order.
pub run-reconcile_over :
    (id : SessionId) (all_threads : Bool) (w : Wait) (events : List SeqEvent)
    → IsAfter w.watermark events
    → run id all_threads w (map event events) ≡ (
      settled_if (reconcile_over id events w all_threads).0,
      (reconcile_over id events w all_threads).1,
    )
unfolding run turn reconcile_over consider IsAfter
run-reconcile_over id all_threads w [] h = refl
run-reconcile_over id all_threads w (s ∷ rest) h = elim (Bool-cases (is_of id s.event)) [
  | inl own ↦ elim (Option-cases (outcome s.event all_threads)) [
    | inl goes_on ↦
        rw (not_stale id w s h.0 own) rw own rw goes_on
          (run-reconcile_over id all_threads (taken w s) rest (IsAfter-taken w s rest h.1))
    | inr (o, ends) ↦ rw (not_stale id w s h.0 own) rw own rw ends refl
  ]
  | inr other ↦ rw (stale_other id w s other) rw other (
      run-reconcile_over id all_threads w rest
        (IsAfter-weaken w.watermark s.seq rest (omega (arith, h.0)) h.1))
]

-- A wait that meets new events in order settles on the first event of its session that settles a
-- wait, and goes on if there is none.
pub run-first_outcome :
    (id : SessionId) (all_threads : Bool) (w : Wait) (events : List SeqEvent)
    → IsAfter w.watermark events
    → (run id all_threads w (map event events)).0 ≡ settled_if (first_outcome id all_threads events)
unfolding run turn first_outcome consider IsAfter
run-first_outcome id all_threads w [] h = refl
run-first_outcome id all_threads w (s ∷ rest) h = elim (Bool-cases (is_of id s.event)) [
  | inl own ↦ elim (Option-cases (outcome s.event all_threads)) [
    | inl goes_on ↦
        rw (not_stale id w s h.0 own) rw own rw goes_on
          (run-first_outcome id all_threads (taken w s) rest (IsAfter-taken w s rest h.1))
    | inr (o, ends) ↦ rw (not_stale id w s h.0 own) rw own rw ends refl
  ]
  | inr other ↦ rw (stale_other id w s other) rw other (
      run-first_outcome id all_threads w rest
        (IsAfter-weaken w.watermark s.seq rest (omega (arith, h.0)) h.1))
]

-- The losses are counted, and no position changes.
record_loss-watermark : (w : Wait) (n : ℕ) → (record_loss w n).watermark ≡ w.watermark
unfolding record_loss
record_loss-watermark w n = ground arith

turn-lagged_after :
    (id : SessionId) (all_threads : Bool) (w : Wait) (missed : ℕ) (b : EventBuffer)
    → IsAfter w.watermark (since b w.watermark)
    → turn id all_threads w (lagged missed b)
      ≡ run id all_threads (record_loss w missed) (map event (since b w.watermark))
unfolding turn reconcile record_loss
turn-lagged_after id all_threads w missed b h = rw (record_loss-watermark w missed) (
    sym (
      run-reconcile_over id all_threads (record_loss w missed) (since b w.watermark)
        (rw (record_loss-watermark w missed) h)))

IsAfter-numbered : (k n : ℕ) (h : List Event) → k < n → IsAfter k (numbered n h)
unfolding IsAfter numbered
IsAfter-numbered k n [] lt = _
IsAfter-numbered k n (e ∷ h) lt = (lt, IsAfter-numbered n (suc n) h (omega arith))

-- What is read from a history after a position comes in order, after that position.
pub since-IsAfter : (cap : ℕ) (l : Log) (k : ℕ) → IsAfter k (since (embody cap l) k)
unfolding from_position
since-IsAfter cap l k = rw (since-embody cap l k) (
    IsAfter-numbered k (suc (max k (evicted cap l))) (drop (max k (evicted cap l)) l.history)
      (omega arith))

-- A wait that fell behind the channel does what it would have done had the events that the history
-- still holds come through the channel in order, once it has counted the loss.
pub turn-lagged :
    (id : SessionId) (all_threads : Bool) (w : Wait) (missed cap : ℕ) (l : Log)
    → turn id all_threads w (lagged missed (embody cap l))
      ≡ run id all_threads (record_loss w missed) (map event (since (embody cap l) w.watermark))
turn-lagged id all_threads w missed cap l =
    turn-lagged_after id all_threads w missed (embody cap l) (since-IsAfter cap l w.watermark)

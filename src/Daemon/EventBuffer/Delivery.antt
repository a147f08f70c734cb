-- ===== src/Daemon/EventBuffer/Delivery.antt =====
-- `EventBuffer` of crates/daemon/src/state.rs: what a wait is told of the history, and what is left
-- for the next one.
use lazydap.Prelude.{
  drop-append_length, append_assoc, ◌∙◌, append-nil, length-append, ℕ, ◌+◌, ◌-◌, ◌≤◌, ◌<◌, max, ◌≡◌,
  refl, ap, List, [], ◌∷◌, ◌++◌, map, arith, length, drop, u64_mod,
}
use lazydap.Core.Event.{Event}
use lazydap.Daemon.EventBuffer.{
  ltb, filter, EventBuffer, new, push, watermark, undelivered, mark_delivered,
}
use lazydap.Daemon.EventBuffer.Log.{
  Log, empty, evicted, settled, append, mark, from_position, embody, map-event-numbered,
}
use lazydap.Daemon.EventBuffer.Refine.{
  new-embody, push-embody, mark_delivered-embody, since-from_position,
}

same_answer :
    {es es' : List Event} {n n' k k' : ℕ}
    → es ≡ es'
    → n ≡ n'
    → k ≡ k'
    → ◌≡◌ {A = List Event × ℕ × ℕ} (es, n, k) (es', n', k')
same_answer p q r = λ i. (p i, q i, r i)

pub watermark-embody : (cap : ℕ) (l : Log) → watermark (embody cap l) ≡ length l.history
unfolding watermark embody
watermark-embody cap l = omega arith

-- What a wait reads is what the log has not settled, where the log ends, and how many events were
-- pushed out unreported.
pub undelivered-embody :
    (cap : ℕ) (l : Log)
    → undelivered (embody cap l)
      ≡ (drop (settled cap l) l.history, length l.history, evicted cap l - l.marked)
unfolding undelivered embody from_position
undelivered-embody cap l = same_answer events (omega arith) refl
  where
    later : max (settled cap l) (evicted cap l) ≡ settled cap l
    later = omega arith

    events :
        map
          (λ s. s.event)
          (filter (λ s. ltb (settled cap l) s.seq) (from_position (evicted cap l) l.history))
        ≡ drop (settled cap l) l.history
    events =
        ap (map (λ s. s.event)) (since-from_position (settled cap l) (evicted cap l) l.history)
        ∙ map-event-numbered _ _
        ∙ ap (λ n. drop n l.history) later

-- What happens to a session's buffer over its life.
pub data Op : Type 0 where
  emit : Event → Op
  report : ℕ → Op

pub run : EventBuffer → List Op → EventBuffer
run b [] = b
run b (emit e ∷ ops) = run (push b e).0 ops
run b (report seq ∷ ops) = run (mark_delivered b seq) ops

pub run_log : ℕ → Log → List Op → Log
run_log cap l [] = l
run_log cap l (emit e ∷ ops) = run_log cap (append l e) ops
run_log cap l (report seq ∷ ops) = run_log cap (mark cap l seq) ops

run-embody_from :
    (cap : ℕ) (l : Log) (ops : List Op)
    → 0 < cap
    → length l.history + length ops + 2 < u64_mod
    → run (embody cap l) ops ≡ embody cap (run_log cap l ops)
unfolding run run_log
run-embody_from cap l [] pos room = refl
run-embody_from cap l (emit e ∷ ops) pos room =
    rw (push-embody cap l e pos (omega arith))
      (run-embody_from cap (append l e) ops pos (omega (arith, length-append l.history (e ∷ []))))
run-embody_from cap l (report seq ∷ ops) pos room =
    rw mark_delivered-embody (run-embody_from cap (mark cap l seq) ops pos (omega arith))

-- Through any sequence of emitted events and reports, a buffer of positive capacity is the one that
-- holds the log of them, as long as the event counter does not wrap.
pub run-embody :
    (cap : ℕ) (ops : List Op)
    → 0 < cap
    → length ops + 2 < u64_mod
    → run (new cap) ops ≡ embody cap (run_log cap empty ops)
run-embody cap ops pos room = rw new-embody (run-embody_from cap empty ops pos (omega arith))

pub push_all : EventBuffer → List Event → EventBuffer
push_all b [] = b
push_all b (e ∷ es) = push_all (push b e).0 es

push_all-embody :
    (cap : ℕ) (l : Log) (es : List Event)
    → 0 < cap
    → length l.history + length es + 2 < u64_mod
    → push_all (embody cap l) es ≡ embody cap (record l { history = l.history ++ es })
unfolding push_all
push_all-embody cap l [] pos room = rw append-nil
push_all-embody cap l (e ∷ es) pos room = rw (push-embody cap l e pos (omega arith)) (
    push_all-embody cap (append l e) es pos (omega (arith, length-append l.history (e ∷ [])))
    ∙ ap (λ h. embody cap (record l { history = h })) (append_assoc l.history (e ∷ []) es))

-- A wait that has reported the whole log leaves to the next wait exactly the events that come
-- after it: the newest `cap` of them, in order, and the number of those that are gone. The capacity
-- is positive, the counter does not wrap and nothing is marked beyond the log.
pub undelivered-push_all :
    (cap : ℕ) (l : Log) (es : List Event)
    → 0 < cap
    → length l.history + length es + 2 < u64_mod
    → l.marked ≤ length l.history
    → undelivered (push_all (mark_delivered (embody cap l) (watermark (embody cap l))) es)
      ≡ (drop (length es - cap) es, length l.history + length es, length es - cap)
undelivered-push_all cap l es pos room old =
    rw (watermark-embody, mark_delivered-embody)
      (rw (push_all-embody cap (mark cap l (length l.history)) es pos room) (
        undelivered-embody cap after
        ∙ same_answer
            (ap (λ n. drop n (l.history ++ es)) (omega (arith, longer))
              ∙ drop-append_length (length es - cap) l.history es)
            longer (omega (arith, longer))))
  where
    longer : length (l.history ++ es) ≡ length l.history + length es
    longer = length-append l.history es

    after : Log
    after = record (mark cap l (length l.history)) { history = l.history ++ es }

-- A wait that marks a position no earlier than the last mark, when the buffer has already pushed out
-- all events up to that position and perhaps more, forgets every loss: of the events between its
-- position and the oldest one kept, the next wait is told neither the text nor the number.
pub undelivered-mark_delivered :
    (cap : ℕ) (l : Log) (seq : ℕ)
    → l.marked ≤ seq
    → seq ≤ evicted cap l
    → undelivered (mark_delivered (embody cap l) seq)
      ≡ (drop (evicted cap l) l.history, length l.history, 0)
undelivered-mark_delivered cap l seq late gone = rw mark_delivered-embody (
    undelivered-embody cap (mark cap l seq)
    ∙ same_answer (ap (λ n. drop n l.history) (omega arith)) refl (omega arith))

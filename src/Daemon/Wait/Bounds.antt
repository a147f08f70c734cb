-- ===== src/Daemon/Wait/Bounds.antt =====
-- crates/daemon/src/wait.rs: the output that a wait holds, and its count of it.
use Prim.Native.String.{len}
use lazydap.Prelude.{ℕ, ◌+◌, ◌≤◌, ◌≡◌, refl, arith, List, [], ◌∷◌, ◌++◌, Bool}
use lazydap.Core.Session.{SessionId, OutputChunk}
use lazydap.Core.Event.{
  Event, Stop, StableState, session_started, session_ended, stopped, continued, output,
  breakpoint_updated, thread_changed, watch_updated,
}
use lazydap.Daemon.EventBuffer.{EventBuffer, undelivered}
use lazydap.Daemon.Wait.Kept.{absorb_pending-kept, run-kept}
use lazydap.Daemon.Wait.{
  fresh, Wait, record_loss, absorb_output, absorb_stop, later_stop, absorb_end, absorb, begin,
  output_cap_bytes, run, Received,
}

-- The bytes of the output a wait holds.
unfoldable pub bytes : List OutputChunk → ℕ
bytes [] = 0
bytes (chunk ∷ rest) = len chunk.output + bytes rest

bytes-append : (xs ys : List OutputChunk) → bytes (xs ++ ys) ≡ bytes xs + bytes ys
unfolding bytes
bytes-append [] ys = omega arith
bytes-append (x ∷ xs) ys = omega (arith, bytes-append xs ys)

-- The count of a wait is the bytes that it holds, and within the cap.
unfoldable pub IsCapped : Wait → Type 0
IsCapped w = (bytes w.blob.captured_output ≡ w.captured_bytes) × w.captured_bytes ≤ output_cap_bytes

record_loss-IsCapped : (w : Wait) (n : ℕ) → IsCapped w → IsCapped (record_loss w n)
unfolding IsCapped record_loss
record_loss-IsCapped w n h = ground arith

absorb_output-IsCapped :
    (w : Wait) (chunk : OutputChunk) → IsCapped w → IsCapped (absorb_output w chunk)
unfolding IsCapped absorb_output bytes
absorb_output-IsCapped w chunk h = ground (arith, bytes-append w.blob.captured_output (chunk ∷ []))

absorb_stop-captured :
    (blob : StableState) (stop : Stop)
    → (absorb_stop blob stop).captured_output ≡ blob.captured_output
unfolding absorb_stop later_stop
absorb_stop-captured blob stop = ground arith

absorb-IsCapped : (w : Wait) (e : Event) → IsCapped w → IsCapped (absorb w e)
unfolding absorb IsCapped absorb_end
absorb-IsCapped w (output id chunk) h = absorb_output-IsCapped w chunk h
absorb-IsCapped w (stopped id stop) h = rw (absorb_stop-captured w.blob stop) h
absorb-IsCapped w (session_ended id reason) h = ground arith
absorb-IsCapped w (breakpoint_updated id b) h = h
absorb-IsCapped w (thread_changed id update) h = h
absorb-IsCapped w (session_started id adapter) h = h
absorb-IsCapped w (continued id thread all_continued) h = h
absorb-IsCapped w (watch_updated watch) h = h

mark-IsCapped : (w : Wait) (n : ℕ) → IsCapped w → IsCapped (record w { watermark = n })
unfolding IsCapped
mark-IsCapped w n h = h

begin-IsCapped : (b : EventBuffer) → IsCapped (begin b)
unfolding begin IsCapped bytes
begin-IsCapped b =
    absorb_pending-kept IsCapped absorb-IsCapped record_loss-IsCapped mark-IsCapped
      (record_loss (fresh (undelivered b).1) (undelivered b).2) (undelivered b).0
      (record_loss-IsCapped (fresh (undelivered b).1) (undelivered b).2 (refl, omega arith))

-- A wait that starts from any history and meets any events holds at most a million bytes of
-- output, and its count of them is the length of the chunks that it holds.
pub run-IsCapped :
    (id : SessionId) (all_threads : Bool) (b : EventBuffer) (received : List Received)
    → IsCapped (run id all_threads (begin b) received).1
run-IsCapped id all_threads b received =
    run-kept IsCapped absorb-IsCapped record_loss-IsCapped mark-IsCapped id all_threads (begin b)
      received (begin-IsCapped b)

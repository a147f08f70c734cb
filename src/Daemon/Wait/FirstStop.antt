-- ===== src/Daemon/Wait/FirstStop.antt =====
-- crates/daemon/src/wait.rs: which of the stops that it meets a wait reports.
use lazydap.Prelude.{
  String, ℕ, ◌≡◌, refl, ◌∙◌, ap, arith, ℤ, Bool, true, Option, List, is_some, Option-cases, inl,
  inr,
}
use lazydap.Core.Session.{SessionId}
use lazydap.Core.Reason.{PauseReason}
use lazydap.Core.Event.{
  Event, Stop, StableState, session_started, session_ended, stopped, continued, output,
  breakpoint_updated, thread_changed, watch_updated,
}
use lazydap.Daemon.EventBuffer.{SeqEvent}
use lazydap.Daemon.Wait.{
  Wait, absorb, absorb_output, absorb_stop, later_stop, absorb_end, record_loss, coalesce, run,
  Received,
}
use lazydap.Daemon.Wait.Kept.{run-kept, coalesce-kept}

-- What a wait says of the stop that it reports.
pub record Reported : Type 0 where
  pub reason : Option PauseReason
  pub raw_reason : Option String
  pub thread_id : Option ℤ
  pub adapter_thread_id : Option ℤ
  pub hit_breakpoint_ids : List ℕ

abbrev pub reported : StableState → Reported
reported blob = record {
  reason = blob.reason;
  raw_reason = blob.raw_reason;
  thread_id = blob.thread_id;
  adapter_thread_id = blob.adapter_thread_id;
  hit_breakpoint_ids = blob.hit_breakpoint_ids;
}

-- The wait has a stop to report, and it is this one.
Reports : Reported → Wait → Type 0
Reports r w = (is_some w.blob.reason ≡ true) × (reported w.blob ≡ r)

later_stop-reported :
    (blob : StableState) (stop : Stop) → reported (later_stop blob stop) ≡ reported blob
unfolding later_stop
later_stop-reported blob stop = elim (Option-cases stop.thread_id) [
  | inl unnamed ↦ rw (unnamed, later_stop) refl
  | inr (thread, named) ↦ rw (named, later_stop) refl
]

absorb_stop-reported :
    (blob : StableState) (stop : Stop)
    → is_some blob.reason ≡ true
    → reported (absorb_stop blob stop) ≡ reported blob
unfolding absorb_stop
absorb_stop-reported blob stop has = rw has (later_stop-reported blob stop)

absorb-Reports : (r : Reported) (w : Wait) (e : Event) → Reports r w → Reports r (absorb w e)
unfolding Reports absorb absorb_end absorb_output
absorb-Reports r w (output id chunk) h = ground arith
absorb-Reports r w (stopped id stop) h =
    let same = absorb_stop-reported w.blob stop h.0 in
    (ap (λ (s : Reported). is_some s.reason) same ∙ h.0, same ∙ h.1)
absorb-Reports r w (session_ended id reason) h = ground arith
absorb-Reports r w (breakpoint_updated id b) h = h
absorb-Reports r w (thread_changed id update) h = h
absorb-Reports r w (session_started id adapter) h = h
absorb-Reports r w (continued id thread all_continued) h = h
absorb-Reports r w (watch_updated watch) h = h

record_loss-Reports : (r : Reported) (w : Wait) (n : ℕ) → Reports r w → Reports r (record_loss w n)
unfolding Reports record_loss
record_loss-Reports r w n h = ground arith

mark-Reports :
    (r : Reported) (w : Wait) (n : ℕ) → Reports r w → Reports r (record w { watermark = n })
unfolding Reports
mark-Reports r w n h = h

-- Whatever a wait meets after the stop that it reports, in its loop and while it gathers the stops of
-- other threads, it reports that stop's reason, thread and breakpoints.
pub reported-coalesce :
    (id : SessionId) (all_threads : Bool) (w : Wait) (received : List Received)
    (gathered : List SeqEvent)
    → is_some w.blob.reason ≡ true
    → reported (coalesce id (run id all_threads w received).1 gathered).blob ≡ reported w.blob
unfolding Reports
reported-coalesce id all_threads w received gathered has =
    let r = reported w.blob in
    (coalesce-kept (Reports r) (absorb-Reports r) (record_loss-Reports r) (mark-Reports r) id
      (run id all_threads w received).1 gathered
      (run-kept (Reports r) (absorb-Reports r) (record_loss-Reports r) (mark-Reports r) id
        all_threads w received (has, refl))).1

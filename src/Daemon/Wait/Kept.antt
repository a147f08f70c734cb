-- ===== src/Daemon/Wait/Kept.antt =====
-- crates/daemon/src/wait.rs: properties of waits, carried from one event through a whole wait.
use lazydap.Prelude.{ℕ, Bool, List, [], ◌∷◌, Bool-cases, Option-cases, inl, inr}
use lazydap.Core.Session.{SessionId}
use lazydap.Core.Event.{
  Event, session_started, session_ended, stopped, continued, output, breakpoint_updated,
  thread_changed, watch_updated,
}
use lazydap.Daemon.EventBuffer.{SeqEvent, since}
use lazydap.Daemon.Wait.{
  resume, Settled, waiting, abandoned, settled, Wait, record_loss, absorb, absorb_backlog,
  absorb_pending, consider, reconcile_over, reconcile, turn, run, is_stale, is_of, Received, event,
  lagged, closed, deadline, gone, coalesce, coalesce_one, outcome,
}

module _ (P : Wait → Type 0) (P-absorb : (w : Wait) (e : Event) → P w → P (absorb w e))
    (P-loss : (w : Wait) (n : ℕ) → P w → P (record_loss w n))
    (P-mark : (w : Wait) (n : ℕ) → P w → P (record w { watermark = n })) where
  absorb_backlog-kept : (w : Wait) (e : Event) → P w → P (absorb_backlog w e)
  unfolding absorb_backlog
  absorb_backlog-kept w (output id chunk) h = P-absorb w (output id chunk) h
  absorb_backlog-kept w (breakpoint_updated id b) h = P-absorb w (breakpoint_updated id b) h
  absorb_backlog-kept w (thread_changed id update) h = P-absorb w (thread_changed id update) h
  absorb_backlog-kept w (session_started id adapter) h = h
  absorb_backlog-kept w (session_ended id reason) h = h
  absorb_backlog-kept w (stopped id stop) h = h
  absorb_backlog-kept w (continued id thread all_continued) h = h
  absorb_backlog-kept w (watch_updated watch) h = h

  pub absorb_pending-kept : (w : Wait) (events : List Event) → P w → P (absorb_pending w events)
  unfolding absorb_pending
  absorb_pending-kept w [] h = h
  absorb_pending-kept w (e ∷ rest) h =
      absorb_pending-kept (absorb_backlog w e) rest (absorb_backlog-kept w e h)

  considered : (w : Wait) (s : SeqEvent) → P w → P (absorb (record w { watermark = s.seq }) s.event)
  considered w s h = P-absorb (record w { watermark = s.seq }) s.event (P-mark w s.seq h)

  reconcile_over-kept :
      (id : SessionId) (events : List SeqEvent) (w : Wait) (all_threads : Bool)
      → P w
      → P (reconcile_over id events w all_threads).1
  unfolding reconcile_over consider
  reconcile_over-kept id [] w all_threads h = h
  reconcile_over-kept id (s ∷ rest) w all_threads h =
      let w' = absorb (record w { watermark = s.seq }) s.event in
      let k = considered w s h in
      elim (Bool-cases (is_of id s.event)) [
        | inl own ↦ elim (Option-cases (outcome s.event all_threads)) [
          | inl goes_on ↦ rw own rw goes_on (reconcile_over-kept id rest w' all_threads k)
          | inr (o, ends) ↦ rw own rw ends k
        ]
        | inr other ↦ rw other (reconcile_over-kept id rest w all_threads h)
      ]

  turn-kept :
      (id : SessionId) (all_threads : Bool) (w : Wait) (received : Received)
      → P w
      → P (turn id all_threads w received).1
  unfolding turn reconcile consider
  turn-kept id all_threads w (event s) h = elim (Bool-cases (is_stale id w s)) [
    | inl stale ↦ rw stale h
    | inr fresh ↦ rw fresh (considered w s h)
  ]
  turn-kept id all_threads w (lagged missed b) h =
      reconcile_over-kept id (since b (record_loss w missed).watermark) (record_loss w missed)
        all_threads (P-loss w missed h)
  turn-kept id all_threads w closed h = h
  turn-kept id all_threads w deadline h = h
  turn-kept id all_threads w gone h = h

  resume-kept :
      (verdict : Settled) (w : Wait) (later : Settled × Wait)
      → P w
      → P later.1
      → P (resume verdict w later).1
  resume-kept waiting w later h k = k
  resume-kept abandoned w later h k = h
  resume-kept (settled found) w later h k = h

  pub run-kept :
      (id : SessionId) (all_threads : Bool) (w : Wait) (received : List Received)
      → P w
      → P (run id all_threads w received).1
  unfolding run
  run-kept id all_threads w [] h = h
  run-kept id all_threads w (r ∷ rest) h =
      let k = turn-kept id all_threads w r h in
      let later = run-kept id all_threads (turn id all_threads w r).1 rest k in
      resume-kept (turn id all_threads w r).0 (turn id all_threads w r).1
        (run id all_threads (turn id all_threads w r).1 rest) k later

  pub coalesce-kept :
      (id : SessionId) (w : Wait) (events : List SeqEvent) → P w → P (coalesce id w events)
  unfolding coalesce coalesce_one
  coalesce-kept id w [] h = h
  coalesce-kept id w (s ∷ rest) h =
      coalesce-kept id (coalesce_one id w s) rest (elim (Bool-cases (is_stale id w s)) [
        | inl stale ↦ rw stale h
        | inr fresh ↦ rw fresh (considered w s h)
      ])

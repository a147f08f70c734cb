-- ===== src/Daemon/Pump/Stops.antt =====
-- crates/daemon/src/adapter/pump.rs: which thread a stop is reported for, and which request it
-- answers.
use lazydap.Prelude.{◌≡◌, ◌≢◌, arith, ℤ, true, none, some, or_else, if◌then◌else◌}
use lazydap.Core.Reason.{PauseReason}
use lazydap.Daemon.Session.{Session, OutstandingStep, withdraw, withdraw_marker, MarkerId}
use lazydap.Daemon.Pump.{stopped_thread_ids, answered, is_step, is_pause}

-- The stop of a step is reported for the thread that was asked to step, whatever thread the adapter
-- names; and what the adapter named is reported too.
pub stopped_thread_ids_lem :
    (reason : PauseReason) (asked : OutstandingStep) (said : ℤ)
    → (is_step reason ≡ true
        → (stopped_thread_ids reason (some asked) (some said)).0 ≡ some asked.thread_id)
      × (or_else
            (stopped_thread_ids reason (some asked) (some said)).1
            (stopped_thread_ids reason (some asked) (some said)).0
          ≡ some said)
unfolding stopped_thread_ids
stopped_thread_ids_lem reason asked said = (λ h. ground arith, ground arith)

-- A stop that a pause asked for leaves the mark of a step, and any other stop leaves that of a
-- pause, where the two marks are different.
pub answered_other :
    (s : Session) (reason : PauseReason) (asked : OutstandingStep) (id : MarkerId)
    → s.outstanding.slots ≡ record { step = some asked; pause = some id }
    → asked.id ≢ id
    → (answered s reason s.outstanding.slots).outstanding.slots ≡ (
        if is_pause reason
        then record { step = some asked; pause = none }
        else record { step = none; pause = some id })
unfolding answered withdraw withdraw_marker
answered_other s reason asked id up apart = rw up (ground arith)

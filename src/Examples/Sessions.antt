-- ===== src/Examples/Sessions.antt =====
-- Event histories, sessions and slots: crates/daemon/src/state.rs and adapter/pump.rs.
use lazydap.Prelude.{◌-◌, ◌+◌, ◌≡◌, refl, arith, pos, some, true, List, [], ◌∷◌, ◌++◌, length, drop}
use lazydap.Core.Session.{paused, codelldb, stdout, OutputChunk}
use lazydap.Core.Breakpoint.{FilePath}
use lazydap.Core.Event.{Event, output}
use lazydap.Daemon.EventBuffer.{new, undelivered, mark_delivered, watermark}
use lazydap.Daemon.EventBuffer.Log.{Log, empty, embody, evicted}
use lazydap.Daemon.EventBuffer.Delivery.{
  run, run_log, emit, report, run-embody, push_all, undelivered-push_all,
  undelivered-mark_delivered,
}
use lazydap.Daemon.Session.{Session, start, OutstandingStep}
use lazydap.Daemon.Session.Marking.{IsMarked}
use lazydap.Daemon.Pump.{DapEvent, output_event, exited_event, terminated_event, handle_all, finish}
use lazydap.Daemon.Pump.Endings.{endings, ends_once}
use lazydap.Daemon.Slots.Single.{
  Phase, launch, succeed, disconnect, acts, idle_daemon, acts-IsSingle,
}

abbrev pub program : FilePath
program = record { is_absolute = true; components = "home" ∷ "app" ∷ [] }

abbrev line : OutputChunk
line = record { category = stdout; output = "hello"; timestamp_ms = 7 }

abbrev said : Event
said = output 1 line

abbrev pub stopped_session : Session
stopped_session = start 1 codelldb program paused 0

-- A history of capacity two, over four events and a report.
run-embody_example :
    run (new 2) (emit said ∷ emit said ∷ report 1 ∷ emit said ∷ emit said ∷ [])
    ≡ embody 2 (run_log 2 empty (emit said ∷ emit said ∷ report 1 ∷ emit said ∷ emit said ∷ []))
run-embody_example =
    run-embody 2 (emit said ∷ emit said ∷ report 1 ∷ emit said ∷ emit said ∷ []) (omega arith)
      (omega arith)

abbrev three : Log
three = record { history = said ∷ said ∷ said ∷ []; marked = 1 }

undelivered-push_all_example :
    undelivered (
      push_all
        (mark_delivered (embody 2 three) (watermark (embody 2 three)))
        (said ∷ said ∷ said ∷ []))
    ≡ (drop (3 - 2) (said ∷ said ∷ said ∷ []), 3 + 3, 3 - 2)
undelivered-push_all_example =
    undelivered-push_all 2 three (said ∷ said ∷ said ∷ []) (omega arith) (omega arith) (omega arith)

undelivered-mark_delivered_example :
    undelivered (mark_delivered (embody 1 three) 1) ≡ (drop (evicted 1 three) three.history, 3, 0)
undelivered-mark_delivered_example =
    undelivered-mark_delivered 1 three 1 (omega arith) (omega arith)

-- A second launch is refused while the first holds the slot, and granted after the disconnect.
acts-IsSingle_example :
    Phase
      (acts (idle_daemon 0) (
        launch 1
        ∷ launch 2
        ∷ succeed stopped_session
        ∷ disconnect 1
        ∷ launch 2
        ∷ [])).daemon.sessions
      (acts
        (idle_daemon 0)
        (launch 1 ∷ launch 2 ∷ succeed stopped_session ∷ disconnect 1 ∷ launch 2 ∷ [])).held
acts-IsSingle_example =
    acts-IsSingle 0 (launch 1 ∷ launch 2 ∷ succeed stopped_session ∷ disconnect 1 ∷ launch 2 ∷ [])

-- An adapter that says twice that the program is over, and then goes away.
abbrev stream : List DapEvent
stream =
    output_event (some line)
    ∷ exited_event (some (pos 3))
    ∷ terminated_event
    ∷ terminated_event
    ∷ []

ends_once_example :
    length (
      endings (
        (handle_all stopped_session stream).0
        ++ (finish (handle_all stopped_session stream).1 "closed").0))
    ≡ 1
unfolding start
ends_once_example = ends_once stopped_session stream "closed" refl

stopped_IsMarked : IsMarked stopped_session
unfolding IsMarked start
stopped_IsMarked = (tt, tt, omega arith)

abbrev asked : OutstandingStep
asked = record { id = 1; thread_id = pos 4 }

abbrev asked_both : Session
asked_both = record stopped_session {
  outstanding = record { slots = record { step = some asked; pause = some 2 }; next_id = 2 };
}

-- ===== src/Examples/Waits.antt =====
-- Waits: crates/daemon/src/wait.rs.
use lazydap.Prelude.{◌≡◌, arith, pos, none, some, true, false, List, [], ◌∷◌, map}
use lazydap.Core.Session.{stdout, OutputChunk}
use lazydap.Core.Reason.{breakpoint}
use lazydap.Core.Event.{Stop, output, stopped}
use lazydap.Daemon.EventBuffer.{SeqEvent, new, since, push}
use lazydap.Daemon.EventBuffer.Log.{Log, embody}
use lazydap.Daemon.Wait.{fresh, begin, run, turn, event, lagged, settled_if, record_loss}
use lazydap.Daemon.Wait.Bounds.{IsCapped, run-IsCapped}
use lazydap.Daemon.Wait.Progress.{IsAfter, first_outcome, run-first_outcome, turn-lagged}

abbrev line : OutputChunk
line = record { category = stdout; output = "hello"; timestamp_ms = 7 }

abbrev pub stop : Stop
stop = record {
  thread_id = some (pos 1);
  adapter_thread_id = none;
  reason = breakpoint;
  raw_reason = none;
  all_threads_stopped = true;
  hit_breakpoint_ids = [];
}

-- Output, a stop of another session, and a stop of session 1.
abbrev arriving : List SeqEvent
arriving =
    record { seq = 4; event = output 1 line }
    ∷ record { seq = 5; event = stopped 2 stop }
    ∷ record { seq = 6; event = stopped 1 stop }
    ∷ []

arriving-IsAfter : IsAfter 3 arriving
unfolding IsAfter
arriving-IsAfter = (omega arith, (omega arith, (omega arith, tt)))

run-first_outcome_example :
    (run 1 false (fresh 3) (map event arriving)).0 ≡ settled_if (first_outcome 1 false arriving)
run-first_outcome_example = run-first_outcome 1 false (fresh 3) arriving arriving-IsAfter

abbrev history : Log
history = record { history = output 1 line ∷ output 1 line ∷ stopped 1 stop ∷ []; marked = 0 }

turn-lagged_example :
    turn 1 false (fresh 1) (lagged 5 (embody 2 history))
    ≡ run 1 false (record_loss (fresh 1) 5) (map event (since (embody 2 history) 1))
turn-lagged_example = turn-lagged 1 false (fresh 1) 5 2 history

run-IsCapped_example :
    IsCapped (run 1 false (begin (push (new 4) (output 1 line)).0) (map event arriving)).1
run-IsCapped_example = run-IsCapped 1 false (push (new 4) (output 1 line)).0 (map event arriving)

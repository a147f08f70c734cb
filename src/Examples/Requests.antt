-- ===== src/Examples/Requests.antt =====
-- Requests and the waits they make: crates/daemon/src/handlers/session.rs and wait.rs.
use lazydap.Prelude.{pos, ◌≡◌, refl, none, some, true, false, [], ◌∷◌}
use lazydap.Core.Session.{SessionState, running, paused}
use lazydap.Core.Breakpoint.{AdapterBreakpoint}
use lazydap.Core.Inspect.{StackFrame}
use lazydap.Core.Event.{stopped}
use lazydap.Core.Reason.{breakpoint}
use lazydap.Daemon.EventBuffer.{SeqEvent}
use lazydap.Daemon.Session.{Session, BreakpointMap}
use lazydap.Daemon.Session.Claims.{claim_run-verdict}
use lazydap.Daemon.Wait.{Wait, event, fresh, run, coalesce}
use lazydap.Daemon.Wait.Context.{World, Adapter, fetch_stop_context}
use lazydap.Daemon.Wait.Collect.{Aftermath}
use lazydap.Daemon.Wait.Located.{HasKept, fetch_stop_context-HasKept}
use lazydap.Daemon.Wait.FirstStop.{reported, reported-coalesce}
use lazydap.Daemon.Execute.{
  Execution, Around, continue, no_wait, execute_on, failed, adapter_failed,
}
use lazydap.Daemon.Execute.Requests.{execute_on-running, execute_on-refused}
use lazydap.Core.Breakpoint.{FilePath}
use lazydap.Core.Text.{eq_ignore_ascii_case}
use lazydap.Daemon.Session.{start, still_at}
use lazydap.Examples.Sessions.{stopped_session}
use lazydap.Examples.Waits.{stop}

abbrev in_state : SessionState → Session
in_state state = record stopped_session { state = state }

-- An adapter that answers one frame, and meanwhile the program runs on.
abbrev top : StackFrame
top = record { id = pos 1000; name = "main"; source = none; line = 3; column = 1 }

abbrev runs_on : World → World
runs_on (n, s) = (n, record s { state = running; stop_generation = 9 })

abbrev adapter : Adapter
adapter = record {
  stack_trace = λ thread limit. record { answer = some (top ∷ []); meanwhile = runs_on };
  scopes = λ frame. record { answer = none; meanwhile = λ at. at };
  variables = λ reference limit. record { answer = none; meanwhile = λ at. at };
}

abbrev aftermath : Aftermath
aftermath = record { gathered = []; adapter = adapter; polled = [] }

-- A wait that has met a stop of thread 1.
abbrev met : Wait
met = record (fresh 3) {
  blob = record (fresh 3).blob { reason = some breakpoint; thread_id = some (pos 1) };
}

abbrev other_stop : SeqEvent
other_stop = record { seq = 4; event = stopped 1 (record stop { thread_id = some (pos 2) }) }

reported-coalesce_example :
    reported (coalesce 1 (run 1 true met (event other_stop ∷ [])).1 (other_stop ∷ [])).blob
    ≡ reported met.blob
reported-coalesce_example =
    reported-coalesce 1 true met (event other_stop ∷ []) (other_stop ∷ []) refl

-- An adapter that answers a frame of the program, its scope and a variable, and the program stays.
abbrev main_file : FilePath
main_file = record { is_absolute = true; components = "main.rs" ∷ [] }

abbrev own_frame : StackFrame
own_frame = record top {
  source = some (record { name = none; path = some main_file; source_reference = none });
}

abbrev answering : (World → World) → Adapter
answering meanwhile = record {
  stack_trace = λ thread limit. record { answer = some (own_frame ∷ []); meanwhile = λ at. at };
  scopes = λ frame. record {
    answer = some (
        record {
          name = "Local";
          variables_reference = pos 7;
          expensive = false;
          named_variables = none;
          indexed_variables = none;
        }
        ∷ []);
    meanwhile = meanwhile;
  };
  variables = λ reference limit. record {
    answer = some (
        record {
          name = "x";
          value = "1";
          type_name = none;
          evaluate_name = none;
          variables_reference = pos 0;
          named_variables = none;
          indexed_variables = none;
        }
        ∷ []);
    meanwhile = λ at. at;
  };
}

fetch_stop_context-HasKept_example :
    HasKept met.blob.locals stopped_session.stop_generation
      (fetch_stop_context (answering (λ at. at)) met (0, stopped_session))
fetch_stop_context-HasKept_example =
    fetch_stop_context-HasKept (answering (λ at. at)) met (0, stopped_session)

-- A program that runs on while its scopes are asked for.
ran_on_example :
    (fetch_stop_context (answering runs_on) met (0, stopped_session)).0.blob.locals ≡ none
unfolding fetch_stop_context start still_at eq_ignore_ascii_case
ran_on_example = refl

-- Around a request: the adapter refuses, with the program as it was.
abbrev refusing : (World → World) → Around
refusing permit = record {
  threads = record { answer = some (pos 1 ∷ []); meanwhile = λ at. at };
  permit = permit;
  answer = record { answer = none; meanwhile = λ at. at };
  received = [];
  until_settled = λ at. at;
  aftermath = aftermath;
}

abbrev resume : Execution
resume = record { movement = continue; thread_id = none; wait = no_wait; all_threads = false }

execute_on-running_example :
    (execute_on resume
      (refusing (λ at. (at.0, in_state running)))
      (0, stopped_session)
      (pos 1)).asked
    ≡ none
execute_on-running_example =
    execute_on-running resume (refusing (λ at. (at.0, in_state running))) (0, stopped_session)
      (pos 1) refl refl

execute_on-refused_example :
    ((execute_on resume (refusing (λ at. at)) (0, in_state paused) (pos 1)).response
      ≡ failed adapter_failed)
    × ((execute_on resume (refusing (λ at. at)) (0, in_state paused) (pos 1)).world.1.state
        ≡ paused)
unfolding lazydap.Daemon.Session.Claims.verdict
execute_on-refused_example =
    execute_on-refused resume (refusing (λ at. at)) (0, in_state paused) (pos 1) refl
      (claim_run-verdict (in_state paused) true) refl (λ world. refl)

abbrev known : AdapterBreakpoint
known = record {
  id = some 1;
  adapter_id = some (pos 70);
  verified = false;
  line = none;
  message = some "pending";
}

abbrev verified : AdapterBreakpoint
verified = record {
  id = none;
  adapter_id = some (pos 70);
  verified = true;
  line = some 12;
  message = none;
}

abbrev statuses : BreakpointMap
statuses = (1, known) ∷ []

-- ===== src/Daemon/Pump.antt =====
-- crates/daemon/src/adapter/pump.rs: what the daemon makes of each event of the adapter. The body
-- of a DAP event is JSON, which `serde_json` reads; an event here has the fields that
-- `handle_event` reads of it, a missing or ill-typed one as `none`. Also `normalise_stop` of
-- crates/daemon/src/adapter/mod.rs and codelldb.rs.
pub mod Stops
pub mod Endings
use lazydap.Prelude.{
  ℕ, ◌+◌, ◌-◌, ◌%◌, ◌^◌, ℤ, pos, negsuc, String, Option, none, some, Bool, true, false, not, ◌&&◌,
  List, [], ◌∷◌, ◌++◌, if◌then◌else◌, ltb, ite, ℤ_discrete, is_some, unwrap_or, u32_mod,
}
use lazydap.Core.Text.{contains_text}
use lazydap.Core.Reason.{PauseReason, from, exception, pause, entry, step}
use lazydap.Core.Session.{
  AdapterKind, codelldb, debugpy, delve, OutputChunk, EndReason, exited, terminated, adapter_died,
  paused, running, is_live,
}
use lazydap.Core.Breakpoint.{AdapterBreakpoint, BreakpointId, without_settled_message}
use lazydap.Core.Inspect.{ThreadUpdateKind, started}
use lazydap.Core.Event.{Event, Stop, output, stopped, continued, breakpoint_updated, thread_changed}
use lazydap.Daemon.EventBuffer.{SeqEvent}
use lazydap.Daemon.Session.{
  Published, publish, Session, Outstanding, OutstandingStep, StartedProcess, emit, set_state,
  set_last_thread_id, set_exit_code, set_debuggee, withdraw, end_once,
}
use lazydap.Daemon.Session.Breakpoints.{breakpoint_id_for, update_breakpoint}

-- The body of a `stopped` event.
pub record StoppedBody : Type 0 where
  pub reason : Option String
  pub description : Option String
  pub thread_id : Option ℤ
  pub all_threads_stopped : Option Bool
  pub hit_breakpoint_ids : List ℤ

-- The breakpoint of a `breakpoint` event.
pub record BreakpointBody : Type 0 where
  pub id : Option ℤ
  pub verified : Option Bool
  pub line : Option ℕ
  pub message : Option String

pub data DapEvent : Type 0 where
  -- `output_chunk` and `started_process` answer `None` on a body that they cannot read
  output_event : Option OutputChunk → DapEvent
  process_event : Option StartedProcess → DapEvent
  stopped_event : StoppedBody → DapEvent
  breakpoint_event : BreakpointBody → DapEvent
  thread_event : Option ℤ → ThreadUpdateKind → DapEvent
  continued_event : Option ℤ → Option Bool → DapEvent
  exited_event : Option ℤ → DapEvent
  terminated_event : DapEvent
  -- an event of any other name
  unhandled_event : DapEvent

pub record StopContext : Type 0 where
  pub stop_on_entry : Bool
  pub pause_requested : Bool

-- codelldb's names for a stop that is a SIGSTOP
abbrev renamed : StopContext → PauseReason → String → PauseReason × Option String
renamed context reason raw =
    if context.pause_requested
    then (pause, some raw)
    else if context.stop_on_entry
    then (entry, some raw)
    else (reason, none)

abbrev is_exception : PauseReason → Bool
is_exception exception = true
is_exception _ = false

-- `normalise_stop`: codelldb overrides what the other adapters take from the trait.
unfoldable pub normalise_stop :
    AdapterKind → String → String → StopContext → PauseReason × Option String
normalise_stop codelldb raw description context =
    let reason = from raw in
    if is_exception reason && contains_text description "SIGSTOP"
    then renamed context reason raw
    else (reason, none)
normalise_stop debugpy raw description context = (from raw, none)
normalise_stop delve raw description context = (from raw, none)

abbrev pub is_pause : PauseReason → Bool
is_pause pause = true
is_pause _ = false

abbrev pub is_step : PauseReason → Bool
is_step step = true
is_step _ = false

abbrev withdraw_if : Session → Option ℕ → Session
withdraw_if s none = s
withdraw_if s (some id) = withdraw s id

-- `step.map(|step| step.id)`
abbrev step_marker : Option OutstandingStep → Option ℕ
step_marker none = none
step_marker (some asked) = some asked.id

unfoldable pub answered : Session → PauseReason → Outstanding → Session
answered s reason outstanding =
    if is_pause reason
    then withdraw_if s outstanding.pause
    else withdraw_if s (step_marker outstanding.step)

-- `said == Some(thread)`
abbrev pub said_thread : ℤ → Option ℤ → Bool
said_thread thread none = false
said_thread thread (some said) = ite (ℤ_discrete said thread) true false

-- The thread that is reported, and the adapter's where that is another.
unfoldable pub stopped_thread_ids :
    PauseReason → Option OutstandingStep → Option ℤ → Option ℤ × Option ℤ
stopped_thread_ids reason none said = (said, none)
stopped_thread_ids reason (some asked) said =
    if not (is_step reason)
    then (said, none)
    else if said_thread asked.thread_id said
    then (said, none)
    else (some asked.thread_id, said)

unfoldable pub hit_breakpoints : Session → List ℤ → List BreakpointId
hit_breakpoints s [] = []
hit_breakpoints s (id ∷ rest) =
    let more = hit_breakpoints s rest in
    elim (breakpoint_id_for s id) [ none ↦ more | some ours ↦ ours ∷ more ]

-- `line as u32`
abbrev as_u32 : Option ℕ → Option ℕ
as_u32 none = none
as_u32 (some line) = some (line % u32_mod)

unfoldable pub adapter_breakpoint : BreakpointBody → AdapterBreakpoint
adapter_breakpoint body = without_settled_message (record {
  id = none;
  adapter_id = body.id;
  verified = unwrap_or body.verified false;
  line = as_u32 body.line;
  message = body.message;
})

-- `code as i32`
unfoldable pub as_i32 : ℤ → ℤ
as_i32 (pos n) = let m = n % u32_mod in if ltb m (2 ^ 31) then pos m else negsuc (u32_mod - 1 - m)
as_i32 (negsuc n) =
    let m = n % u32_mod in if ltb m (2 ^ 31) then negsuc m else pos (u32_mod - 1 - m)

abbrev exit_status : Option ℤ → Option ℤ
exit_status none = none
exit_status (some code) = some (as_i32 code)

-- What was asked of the program when it stopped, over the marks of the session.
unfoldable pub handle_stop : Session → StoppedBody → Published
unfolding normalise_stop stopped_thread_ids answered set_state set_last_thread_id hit_breakpoints
handle_stop s body =
    let outstanding : Outstanding = s.outstanding.slots in
    let context : StopContext = record {
      stop_on_entry = false;
      pause_requested = is_some outstanding.pause;
    } in
    let (reason, raw_reason) =
      normalise_stop s.adapter_kind (unwrap_or body.reason "unknown")
        (unwrap_or body.description "") context in
    let (thread_id, adapter_thread_id) =
      stopped_thread_ids reason outstanding.step body.thread_id in
    let s' = set_last_thread_id (set_state (answered s reason outstanding) paused) thread_id in
    publish s' (
      stopped s.id (record {
        thread_id = thread_id;
        adapter_thread_id = adapter_thread_id;
        reason = reason;
        raw_reason = raw_reason;
        all_threads_stopped = unwrap_or body.all_threads_stopped false;
        hit_breakpoint_ids = hit_breakpoints s' body.hit_breakpoint_ids;
      }))

-- `adapter_id.and_then(|id| session.breakpoint_id_for(id))`
abbrev ours_of : Session → Option ℤ → Option BreakpointId
ours_of s none = none
ours_of s (some id) = breakpoint_id_for s id

unfoldable pub handle_breakpoint : Session → BreakpointBody → Published
unfolding adapter_breakpoint
handle_breakpoint s body =
    let said = adapter_breakpoint body in
    let s' = update_breakpoint s said in
    publish s' (breakpoint_updated (some s.id) (record said { id = ours_of s' said.adapter_id }))

-- `terminated`: the ending is an exit when the adapter told the status before.
abbrev end_reason : Option ℤ → EndReason
end_reason none = terminated
end_reason (some code) = exited (some code)

unfoldable pub handle_event : Session → DapEvent → Published
unfolding handle_stop handle_breakpoint end_once set_state set_debuggee set_exit_code
handle_event s (output_event none) = ([], s)
handle_event s (output_event (some chunk)) = publish s (output s.id chunk)
handle_event s (process_event none) = ([], s)
handle_event s (process_event (some said)) = ([], set_debuggee s said)
handle_event s (stopped_event body) = handle_stop s body
handle_event s (breakpoint_event body) = handle_breakpoint s body
handle_event s (thread_event none kind) = ([], s)
handle_event s (thread_event (some thread) kind) =
    publish s (thread_changed s.id (record { thread_id = thread; kind = kind; name = none }))
handle_event s (continued_event thread all_continued) =
    publish (set_state s running) (continued s.id thread (unwrap_or all_continued false))
handle_event s (exited_event code) = ([], set_exit_code s (exit_status code))
handle_event s terminated_event = (end_once s (end_reason s.exit_code)).1
handle_event s unhandled_event = ([], s)

-- What the pump does when the adapter's stream ends: the ending is made up if there was none. The
-- detail says what became of the processes, which are the operating system's.
unfoldable pub finish : Session → String → Published
unfolding end_once
finish s detail = (end_once s (adapter_died detail)).1

-- The events of an adapter's stream, in order.
unfoldable pub handle_all : Session → List DapEvent → Published
unfolding handle_event
handle_all s [] = ([], s)
handle_all s (event ∷ rest) =
    let (now, s') = handle_event s event in
    let (later, s'') = handle_all s' rest in (now ++ later, s'')

-- `ended_by_itself`
unfoldable pub ended_by_itself : Session → Bool
ended_by_itself s = not (is_live s.state) && not s.client_teardown

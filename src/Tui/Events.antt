-- ===== src/Tui/Events.antt =====
-- crates/tui/src/update.rs: what the daemon announces, and the breakpoints that it reports.
use lazydap.Prelude.{
  ℤ, ℕ, Option, none, some, Bool, true, false, not, List, [], ◌∷◌, map, filter, ◌&&◌, ◌||◌, ◌==◌,
  if◌then◌else◌,
}
use lazydap.Core.Session.{SessionId, SessionState, EndReason, is_live}
use lazydap.Core.Reason.{PauseReason}
use lazydap.Core.Breakpoint.{FilePath, AdapterBreakpoint, BreakpointId, BreakpointStatus, apply}
use lazydap.Core.Selector.{same_path}
use lazydap.Core.Event.{Event, session_of}
use lazydap.Core.Request.{Request, BreakpointAction}
use lazydap.Tui.State.{AppState, no_command, Step, SessionSnapshot}
use lazydap.Tui.Sending.{send, request_watch_list, inspect, forget_position}
use lazydap.Tui.Connection.{forget_verification}
use lazydap.Tui.Repl.{ReplOutput}
use lazydap.Tui.Repl

-- `at`: whether a breakpoint was asked for on a line.
unfoldable pub at : FilePath → ℕ → BreakpointStatus → Bool
at source line status = same_path status.breakpoint.source source && status.breakpoint.line == line

unfoldable pub upsert : BreakpointStatus → List BreakpointStatus → List BreakpointStatus
unfolding at
upsert status [] = status ∷ []
upsert status (held ∷ rest) =
    let others = upsert status rest in
    if at status.breakpoint.source status.breakpoint.line held then status ∷ rest else held ∷ others

unfoldable pub upsert_all : List BreakpointStatus → List BreakpointStatus → List BreakpointStatus
unfolding upsert
upsert_all [] held = held
upsert_all (status ∷ rest) held = upsert_all rest (upsert status held)

unfoldable pub without_all : List BreakpointStatus → List BreakpointStatus → List BreakpointStatus
unfolding at
without_all [] held = held
without_all (gone ∷ rest) held = without_all rest (
    filter
      (λ (status : BreakpointStatus). not (at gone.breakpoint.source gone.breakpoint.line status))
      held)

unfoldable pub reconcile :
    BreakpointAction → List BreakpointStatus → List BreakpointStatus → List BreakpointStatus
unfolding upsert_all without_all
reconcile BreakpointAction.listed breakpoints held = breakpoints
reconcile BreakpointAction.removed breakpoints held = without_all breakpoints held
reconcile _ breakpoints held = upsert_all breakpoints held

-- `iter_mut().filter(..)` and `apply`
unfoldable pub apply_update :
    BreakpointId → AdapterBreakpoint → List BreakpointStatus → List BreakpointStatus
unfolding apply
apply_update id update = map (λ (status : BreakpointStatus).
    if status.breakpoint.id == id then apply status update else status)

abbrev pub is_session : SessionId → Option SessionSnapshot → Bool
is_session id none = false
is_session id (some session) = session.id == id

unfoldable pub breakpoint_updated : Option SessionId → AdapterBreakpoint → AppState → Step
unfolding send apply_update
breakpoint_updated none update s = send Request.breakpoint_list s
breakpoint_updated (some session_id) update s =
    if is_session session_id s.session
    then (elim update.id [
      | none ↦ (s, no_command)
      | some id ↦ (record s { breakpoints = apply_update id update s.breakpoints }, no_command)
    ])
    else (s, no_command)

abbrev pub is_id : SessionId → Option SessionId → Bool
is_id id none = false
is_id id (some other) = other == id

abbrev pub is_start : Event → Bool
is_start (Event.session_started id adapter) = true
is_start _ = false

unfoldable pub applies : AppState → Event → Bool
unfolding session_of is_live
applies s event = is_start event || elim s.session [
  | none ↦ true
  | some session ↦ is_id session.id (session_of event) && is_live session.state
]

unfoldable pub ended_as : EndReason → SessionState
ended_as (EndReason.exited status) = SessionState.exited
ended_as (EndReason.adapter_died message) = SessionState.adapter_died
ended_as EndReason.disconnected = SessionState.terminated
ended_as EndReason.terminated = SessionState.terminated

-- The repl of another session is not this one's.
unfoldable pub with_repl_of : SessionId → AppState → AppState
with_repl_of session_id s =
    if is_session session_id s.session
    then s
    else record s { repl = Repl.empty_view; pending_repl = [] }

abbrev pub followed : SessionId → SessionState → Option ℤ → Option PauseReason → AppState → AppState
followed session_id state thread_id reason s = record s {
  session =
      some (record { id = session_id; state = state; thread_id = thread_id; reason = reason });
}

unfoldable pub started : SessionId → AppState → Step
unfolding with_repl_of
started session_id s = (
  record (followed session_id SessionState.running none none (with_repl_of session_id s)) {
    notice = none;
  },
  no_command,
)

-- An event that is about the session that is followed.
unfoldable pub follow : Event → AppState → Step
unfolding started inspect forget_position ended_as forget_verification
follow (Event.session_started session_id adapter) s = started session_id s
follow (Event.stopped session_id stop) s =
    inspect session_id stop.thread_id
      (followed session_id SessionState.paused stop.thread_id (some stop.reason) s)
follow (Event.continued session_id thread_id all_threads) s =
    (forget_position (followed session_id SessionState.running thread_id none s), no_command)
follow (Event.session_ended session_id reason) s = (
  forget_verification (forget_position (followed session_id (ended_as reason) none none s)),
  no_command,
)
follow _ s = (s, no_command)

unfoldable pub daemon_event : Event → AppState → Step
unfolding breakpoint_updated request_watch_list applies follow
daemon_event (Event.breakpoint_updated session_id update) s = breakpoint_updated session_id update s
daemon_event (Event.watch_updated id) s = request_watch_list s
daemon_event event s = if applies s event then follow event s else (s, no_command)

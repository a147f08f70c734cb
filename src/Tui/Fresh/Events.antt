-- ===== src/Tui/Fresh/Events.antt =====
-- The ids of the requests that the daemon's announcements and answers lead to.
use lazydap.Prelude.{
  arith, ℕ, ◌+◌, Option, none, some, List, length, String, Option-cases, Bool-cases, inl, inr,
}
use lazydap.Core.Session.{SessionId, SessionState}
use lazydap.Core.Breakpoint.{AdapterBreakpoint}
use lazydap.Core.Inspect.{StackFrame}
use lazydap.Core.Event.{Event}
use lazydap.Core.Request.{Response, WatchReport, SessionSummary}
use lazydap.Tui.State.{AppState, Location, SessionSnapshot, paused_session, from_summary}
use lazydap.Tui.Sending.{
  send, request_watch_list, evaluate_in, evaluate_watches, forget_position, with_source,
  watch_requests, one_or_batch, eval_frame,
}
use lazydap.Tui.Connection.{forget_verification}
use lazydap.Tui.Events.{breakpoint_updated, follow, followed, daemon_event, started, with_repl_of}
use lazydap.Tui.Answers.{
  evaluated, settle_watch, settle_repl, variables_arrived, status_answered, stacked, stack_answered,
  scopes_answered, breakpoints_answered, listed, list_arrived, complained, watches_answered,
  daemon_response, refused, daemon_failed,
}
use lazydap.Tui.Fresh.{
  ids, HasRoom, IsFresh, most, next_request_id_lem, request_watch_list-IsFresh, inspect-IsFresh,
  watch_requests-IsFresh, weaken,
}
use lazydap.Tui.Fresh.Actions.{one_or_batch-IsFresh, show-ids}
use lazydap.Tui.Watches

pub breakpoint_updated-IsFresh :
    (session_id : Option SessionId) (update : AdapterBreakpoint) (s : AppState)
    → HasRoom 1 s.next_request
    → IsFresh 1 s.next_request (breakpoint_updated session_id update s)
unfolding breakpoint_updated send ids
breakpoint_updated-IsFresh session_id update s h = ground (arith, next_request_id_lem s h)

follow-IsFresh :
    (event : Event) (s : AppState)
    → HasRoom (most s) s.next_request
    → IsFresh (most s) s.next_request (follow event s)
unfolding follow started with_repl_of forget_position forget_verification with_source ids
follow-IsFresh (Event.session_started id adapter) s h = ground arith
follow-IsFresh (Event.stopped id stop) s h =
    inspect-IsFresh id stop.thread_id
      (followed id SessionState.paused stop.thread_id (some stop.reason) s) h
follow-IsFresh (Event.session_ended id reason) s h = omega arith
follow-IsFresh (Event.continued id thread all_threads) s h = omega arith
follow-IsFresh (Event.output id chunk) s h = omega arith
follow-IsFresh (Event.breakpoint_updated id update) s h = omega arith
follow-IsFresh (Event.thread_changed id update) s h = omega arith
follow-IsFresh (Event.watch_updated id) s h = omega arith

pub daemon_event-IsFresh :
    (event : Event) (s : AppState)
    → HasRoom (most s) s.next_request
    → IsFresh (most s) s.next_request (daemon_event event s)
unfolding daemon_event ids
daemon_event-IsFresh (Event.breakpoint_updated id update) s h =
    weaken 1 (most s) s.next_request (breakpoint_updated id update s)
      (breakpoint_updated-IsFresh id update s (omega arith)) (omega arith)
daemon_event-IsFresh (Event.watch_updated id) s h =
    weaken 1 (most s) s.next_request (request_watch_list s)
      (request_watch_list-IsFresh s (omega arith)) (omega arith)
daemon_event-IsFresh (Event.session_started id adapter) s h =
    ground (arith, follow-IsFresh (Event.session_started id adapter) s h)
daemon_event-IsFresh (Event.stopped id stop) s h =
    ground (arith, follow-IsFresh (Event.stopped id stop) s h)
daemon_event-IsFresh (Event.session_ended id reason) s h =
    ground (arith, follow-IsFresh (Event.session_ended id reason) s h)
daemon_event-IsFresh (Event.continued id thread all_threads) s h =
    ground (arith, follow-IsFresh (Event.continued id thread all_threads) s h)
daemon_event-IsFresh (Event.output id chunk) s h =
    ground (arith, follow-IsFresh (Event.output id chunk) s h)
daemon_event-IsFresh (Event.thread_changed id update) s h =
    ground (arith, follow-IsFresh (Event.thread_changed id update) s h)

status_answered-IsFresh :
    (report : Option SessionSummary) (s : AppState)
    → HasRoom (most s) s.next_request
    → IsFresh (most s) s.next_request (status_answered report s)
unfolding status_answered from_summary forget_position with_source ids
status_answered-IsFresh none s h = omega arith
status_answered-IsFresh (some summary) s h =
    let s' : AppState = record s { session = some (from_summary summary) } in
    ground (arith, inspect-IsFresh summary.session_id none s' h)

stack_answered-IsFresh :
    (id : ℕ) (frames : List StackFrame) (s : AppState)
    → IsFresh 1 s.next_request (stack_answered id frames s)
unfolding stack_answered ids
stack_answered-IsFresh id frames s =
    let shown = λ (location : Location). show-ids location (stacked frames s) in
    grind (arith, shown)

evaluate_in-IsFresh :
    (session : SessionSnapshot) (s : AppState)
    → HasRoom (most s) s.next_request
    → IsFresh (most s) s.next_request (evaluate_in session s)
unfolding evaluate_in
evaluate_in-IsFresh session s h =
    let frame = eval_frame s in
    let asked = watch_requests session.id frame s in
    weaken (length s.watches.watches) (most s) s.next_request (asked.0, one_or_batch asked.1)
      (one_or_batch-IsFresh (length s.watches.watches) s.next_request asked.0 asked.1
        (watch_requests-IsFresh session.id frame s (omega arith)))
      (omega arith)

evaluate_watches-IsFresh :
    (s : AppState)
    → HasRoom (most s) s.next_request
    → IsFresh (most s) s.next_request (evaluate_watches s)
unfolding evaluate_watches ids
evaluate_watches-IsFresh s h = elim (Option-cases (paused_session s)) [
  | inl e ↦ rw (e, evaluate_watches) (omega arith)
  | inr (session, e) ↦ rw (e, evaluate_watches) (evaluate_in-IsFresh session s h)
]

list_arrived-IsFresh :
    (report : WatchReport) (s : AppState)
    → HasRoom (length report.watches + 2) s.next_request
    → IsFresh (length report.watches + 2) s.next_request (list_arrived report s)
unfolding list_arrived listed Watches.replace Watches.scroll_to_selection
list_arrived-IsFresh report s h = elim (Bool-cases s.watch_list_dirty) [
  | inl e ↦
      rw (e, list_arrived)
        (weaken 1 (length report.watches + 2) s.next_request (request_watch_list (listed report s))
          (request_watch_list-IsFresh (listed report s) (omega arith)) (omega arith))
  | inr e ↦ rw (e, list_arrived) (evaluate_watches-IsFresh (listed report s) h)
]

refused-IsFresh :
    (id : ℕ) (message : String) (s : AppState)
    → HasRoom 1 s.next_request
    → IsFresh 1 s.next_request (refused id message s)
unfolding refused complained send ids
refused-IsFresh id message s h = ground (arith, next_request_id_lem s h)

pub daemon_failed-IsFresh :
    (id : ℕ) (message : String) (s : AppState)
    → HasRoom 1 s.next_request
    → IsFresh 1 s.next_request (daemon_failed id message s)
unfolding daemon_failed settle_watch settle_repl ids
daemon_failed-IsFresh id message s h = ground (arith, refused-IsFresh id message s h)

watches_answered-IsFresh :
    (id : ℕ) (report : WatchReport) (s : AppState)
    → HasRoom (length report.watches + 2) s.next_request
    → IsFresh (length report.watches + 2) s.next_request (watches_answered id report s)
unfolding watches_answered ids
watches_answered-IsFresh id report s h =
    ground (arith, request_watch_list-IsFresh s (omega arith), list_arrived-IsFresh report s h)

-- The watches that a message brings, which may each be asked for.
abbrev pub brought : Response → ℕ
brought (Response.watches report) = length report.watches
brought _ = 0

pub daemon_response-IsFresh :
    (id : ℕ) (response : Response) (s : AppState)
    → HasRoom (brought response + most s) s.next_request
    → IsFresh (brought response + most s) s.next_request (daemon_response id response s)
unfolding daemon_response scopes_answered variables_arrived breakpoints_answered evaluated
    settle_watch settle_repl ids
daemon_response-IsFresh id (Response.status report) s h =
    weaken (most s) (0 + most s) s.next_request (status_answered report s)
      (status_answered-IsFresh report s (omega arith)) (omega arith)
daemon_response-IsFresh id (Response.stack_trace frames) s h =
    weaken 1 (0 + most s) s.next_request (stack_answered id frames s)
      (stack_answered-IsFresh id frames s) (omega arith)
daemon_response-IsFresh id (Response.scopes scopes) s h = ground arith
daemon_response-IsFresh id (Response.variables variables) s h = ground arith
daemon_response-IsFresh id (Response.breakpoints report) s h = ground arith
daemon_response-IsFresh id (Response.watches report) s h =
    weaken (length report.watches + 2) (length report.watches + most s) s.next_request
      (watches_answered id report s) (watches_answered-IsFresh id report s (omega arith))
      (omega arith)
daemon_response-IsFresh id (Response.evaluated result) s h = ground arith
daemon_response-IsFresh id Response.not_read s h = ground arith

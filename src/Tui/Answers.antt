-- ===== src/Tui/Answers.antt =====
-- crates/tui/src/update.rs: the answers of the daemon. An answer is known by the id of its request.
use lazydap.Prelude.{
  ℕ, Option, none, some, Bool, true, false, not, List, [], ◌∷◌, filter, ◌==◌, if◌then◌else◌,
  contains, lookup, ℕ_discrete, String,
}
use lazydap.Core.Inspect.{StackFrame, Scope, EvalResult, Variable}
use lazydap.Core.Watch.{WatchValue}
use lazydap.Core.Request.{
  Request, Response, WatchAction, WatchReport, BreakpointReport, SessionSummary,
}
use lazydap.Tui.State.{
  AppState, no_command, Step, SessionSnapshot, from_summary, PendingWatch, PendingExpansion,
  remove_key, paused_session, Location,
}
use lazydap.Tui.Sending.{
  send, request_watch_list, inspect, evaluate_watches, forget_position, show, frame_location,
}
use lazydap.Tui.Events.{reconcile}
use lazydap.Tui.Repl.{ReplOutput}
use lazydap.Tui.Repl
use lazydap.Tui.Scopes
use lazydap.Tui.Stack
use lazydap.Tui.Watches

-- An answer to an expression, by who asked: a watch in a round, an entry of the repl, or nobody.
unfoldable pub settle_watch : ℕ → PendingWatch → WatchValue → AppState → AppState
unfolding remove_key Watches.record_value
settle_watch id pending known s = record s {
  pending_watches = remove_key id s.pending_watches;
  watches = Watches.record_value pending.generation pending.watch known s.watches;
}

unfoldable pub settle_repl : ℕ → ℕ → ReplOutput → AppState → AppState
unfolding remove_key Repl.answer
settle_repl id entry output s = record s {
  pending_repl = remove_key id s.pending_repl;
  repl = Repl.answer entry output s.repl;
}

unfoldable pub evaluated : ℕ → EvalResult → AppState → AppState
unfolding settle_watch settle_repl
evaluated id result s = elim (lookup ℕ_discrete id s.pending_watches) [
  | some pending ↦ settle_watch id pending (WatchValue.value result) s
  | none ↦ elim (lookup ℕ_discrete id s.pending_repl) [
    | some entry ↦ settle_repl id entry (ReplOutput.value result) s
    | none ↦ s
  ]
]

unfoldable pub variables_arrived : ℕ → List Variable → AppState → AppState
unfolding remove_key Scopes.populate
variables_arrived id variables s = elim (lookup ℕ_discrete id s.pending_variables) [
  | none ↦ s
  | some pending ↦
      let s' = record s { pending_variables = remove_key id s.pending_variables } in
      if pending.scopes == s.scopes.generation
      then record s' { scopes = (Scopes.populate pending.path variables s.scopes).1 }
      else s'
]

abbrev pub session_from : Option SessionSummary → Option SessionSnapshot
unfolding from_summary
session_from none = none
session_from (some summary) = some (from_summary summary)

unfoldable pub status_answered : Option SessionSummary → AppState → Step
unfolding inspect forget_position
status_answered report s =
    let s' = record s { session = session_from report } in
    elim (paused_session s') [
      | none ↦ (forget_position s', no_command)
      | some session ↦ inspect session.id session.thread_id s'
    ]

abbrev pub top_location : List StackFrame → Option Location
unfolding frame_location
top_location [] = none
top_location (frame ∷ frames) = frame_location frame

unfoldable pub stacked : List StackFrame → AppState → AppState
unfolding Stack.replace
stacked frames s = record s { stack = Stack.replace frames s.stack }

unfoldable pub stack_answered : ℕ → List StackFrame → AppState → Step
unfolding stacked show
stack_answered id frames s =
    if id == s.latest_stack
    then (elim (top_location frames) [
      | none ↦ (stacked frames s, no_command)
      | some location ↦ show location (stacked frames s)
    ])
    else (s, no_command)

unfoldable pub scopes_answered : ℕ → List Scope → AppState → AppState
unfolding Scopes.replace
scopes_answered id scopes s =
    if id == s.latest_scopes
    then record s {
      scopes = Scopes.replace scopes id s.scopes;
      pending_variables =
          filter (λ (p : ℕ × PendingExpansion). p.1.scopes == id) s.pending_variables;
    }
    else s

unfoldable pub remove_id : ℕ → List ℕ → List ℕ
remove_id id = filter (λ k. not (k == id))

unfoldable pub breakpoints_answered : ℕ → BreakpointReport → AppState → AppState
unfolding remove_id reconcile
breakpoints_answered id report s =
    let s' = record s { pending_breakpoints = remove_id id s.pending_breakpoints } in
    if report.dry_run
    then s'
    else record s' { breakpoints = reconcile report.action report.breakpoints s.breakpoints }

abbrev pub is_request : ℕ → Option ℕ → Bool
is_request id none = false
is_request id (some pending) = pending == id

-- The list that is waited for, taken over; then it is asked for once more if it has changed meanwhile, else the values.
unfoldable pub listed : WatchReport → AppState → AppState
unfolding Watches.replace
listed report s = record s {
  pending_watch_list = none;
  watches = Watches.replace report.watches s.watches;
  watch_list_dirty = false;
}

unfoldable pub list_arrived : WatchReport → AppState → Step
unfolding listed request_watch_list evaluate_watches
list_arrived report s =
    if s.watch_list_dirty
    then request_watch_list (listed report s)
    else evaluate_watches (listed report s)

abbrev pub is_list : WatchAction → Bool
is_list WatchAction.listed = true
is_list _ = false

unfoldable pub watches_answered : ℕ → WatchReport → AppState → Step
unfolding request_watch_list list_arrived
watches_answered id report s =
    if report.dry_run
    then (s, no_command)
    else if is_list report.action
    then if is_request id s.pending_watch_list then list_arrived report s else (s, no_command)
    else request_watch_list s

unfoldable pub daemon_response : ℕ → Response → AppState → Step
unfolding status_answered stack_answered scopes_answered variables_arrived breakpoints_answered
    watches_answered evaluated
daemon_response id (Response.status report) s = status_answered report s
daemon_response id (Response.stack_trace frames) s = stack_answered id frames s
daemon_response id (Response.scopes scopes) s = (scopes_answered id scopes s, no_command)
daemon_response id (Response.variables variables) s = (variables_arrived id variables s, no_command)
daemon_response id (Response.breakpoints report) s = (breakpoints_answered id report s, no_command)
daemon_response id (Response.watches report) s = watches_answered id report s
daemon_response id (Response.evaluated result) s = (evaluated id result s, no_command)
daemon_response id Response.not_read s = (s, no_command)

unfoldable pub complained : ℕ → String → AppState → AppState
complained id message s = record s {
  pending_watch_list = if is_request id s.pending_watch_list then none else s.pending_watch_list;
  notice = some message;
}

-- The rest of `daemon_failed`, for a request that is neither a watch's nor the repl's: the watch
-- list may be asked for again, the error is shown, and what waited is given up.
unfoldable pub refused : ℕ → String → AppState → Step
unfolding complained remove_key Scopes.abandon_pending remove_id send
refused id message s =
    let s' = complained id message s in
    elim (lookup ℕ_discrete id s.pending_variables) [
      | some pending ↦ (
        record s' {
          pending_variables = remove_key id s.pending_variables;
          scopes = Scopes.abandon_pending pending.path s.scopes;
        },
        no_command,
      )
      | none ↦
          if contains ℕ_discrete s.pending_breakpoints id
          then send Request.breakpoint_list
              (record s' { pending_breakpoints = remove_id id s.pending_breakpoints })
          else (s', no_command)
    ]

unfoldable pub daemon_failed : ℕ → String → AppState → Step
unfolding settle_watch settle_repl refused
daemon_failed id message s = elim (lookup ℕ_discrete id s.pending_watches) [
  | some pending ↦ (settle_watch id pending (WatchValue.error message) s, no_command)
  | none ↦ elim (lookup ℕ_discrete id s.pending_repl) [
    | some entry ↦ (settle_repl id entry (ReplOutput.error message) s, no_command)
    | none ↦ refused id message s
  ]
]

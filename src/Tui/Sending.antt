-- ===== src/Tui/Sending.antt =====
-- crates/tui/src/update.rs: the requests that the interface sends of itself, and what it records of
-- each.
use lazydap.Prelude.{
  ℕ, ℤ, String, Option, none, some, Bool, true, false, List, [], ◌∷◌, filter, ◌==◌, if◌then◌else◌,
  is_some, insert, ℕ_discrete, add_u64,
}
use lazydap.Core.Session.{SessionId}
use lazydap.Core.Breakpoint.{BreakpointStatus, FilePath}
use lazydap.Core.Watch.{Watch}
use lazydap.Core.Inspect.{StackFrame, EvalContext}
use lazydap.Core.Request.{Request}
use lazydap.Tui.State.{
  AppState, Cmd, no_command, send_ipc, load_source, batch, Cmds, nothing, also, Step, Location,
  PendingWatch, SessionSnapshot, next_request_id, paused_session, is_reachable,
}
use lazydap.Tui.Stack
use lazydap.Tui.Scopes
use lazydap.Tui.Watches
use lazydap.Tui.Source
use lazydap.Tui.Source.{SourceView}

abbrev pub stack_levels : ℕ
stack_levels = 64

-- The counter after an id is taken.
abbrev pub advanced : AppState → AppState
advanced s = record s { next_request = next_request_id s }

unfoldable pub send : Request → AppState → Step
unfolding next_request_id
send request s = (advanced s, send_ipc (next_request_id s) request)

unfoldable pub request_watch_list : AppState → Step
unfolding next_request_id
request_watch_list s =
    if is_some s.pending_watch_list
    then (record s { watch_list_dirty = true }, no_command)
    else let id = next_request_id s in
      (record s { next_request = id; pending_watch_list = some id }, send_ipc id Request.watch_list)

unfoldable pub stack_request : SessionId → Option ℤ → AppState → Step
unfolding next_request_id
stack_request session_id thread_id s =
    let id = next_request_id s in
    (
      record s { next_request = id; latest_stack = id },
      send_ipc id (Request.stack_trace session_id thread_id (some 0) (some stack_levels)),
    )

unfoldable pub scopes_request : SessionId → Option ℤ → AppState → Step
unfolding next_request_id
scopes_request session_id frame_id s =
    let id = next_request_id s in
    (
      record s { next_request = id; latest_scopes = id },
      send_ipc id (Request.scopes session_id frame_id),
    )

-- The request for one watch, in the round.
unfoldable pub watch_request : SessionId → Option ℤ → Watch → AppState → Step
unfolding next_request_id
watch_request session_id frame_id w s =
    let id = next_request_id s in
    let asked : PendingWatch = record { generation = s.watches.generation; watch = w.id } in
    (
      record s {
        next_request = id;
        pending_watches = insert ℕ_discrete id asked s.pending_watches;
      },
      send_ipc id (Request.eval session_id w.expression frame_id EvalContext.watch),
    )

-- `into_iter().map(..).collect()`
unfoldable pub each_watch : SessionId → Option ℤ → List Watch → AppState → AppState × Cmds
unfolding watch_request
each_watch session_id frame_id [] s = (s, nothing)
each_watch session_id frame_id (w ∷ ws) s =
    let (s', cmd) = watch_request session_id frame_id w s in
    let (s'', cmds) = each_watch session_id frame_id ws s' in (s'', also cmd cmds)

-- `begin_round`, and the pending requests of that round alone.
unfoldable pub with_round : AppState → AppState
unfolding Watches.begin_round
with_round s =
    let watches = Watches.begin_round s.watches in
    record s {
      watches = watches;
      pending_watches =
          filter (λ (p : ℕ × PendingWatch). p.1.generation == watches.generation) s.pending_watches;
    }

unfoldable pub watch_requests : SessionId → Option ℤ → AppState → AppState × Cmds
unfolding Watches.is_empty with_round each_watch
watch_requests session_id frame_id s =
    if Watches.is_empty s.watches
    then (s, nothing)
    else each_watch session_id frame_id s.watches.watches (with_round s)

unfoldable pub invalidated : AppState → AppState
unfolding Stack.invalidate Scopes.invalidate
invalidated s = record s { stack = Stack.invalidate s.stack; scopes = Scopes.invalidate s.scopes }

unfoldable pub inspect : SessionId → Option ℤ → AppState → Step
unfolding invalidated stack_request scopes_request watch_requests
inspect session_id thread_id s =
    let (s₁, stack) = stack_request session_id thread_id (invalidated s) in
    let (s₂, scopes) = scopes_request session_id none s₁ in
    let (s₃, watches) = watch_requests session_id none s₂ in
    (s₃, batch (also stack (also scopes watches)))

unfoldable pub one_or_batch : Cmds → Cmd
one_or_batch nothing = no_command
one_or_batch (also cmd nothing) = cmd
one_or_batch (also cmd (also next cmds)) = batch (also cmd (also next cmds))

unfoldable pub eval_frame : AppState → Option ℤ
unfolding Stack.is_actionable Stack.selected_frame
eval_frame s =
    if Stack.is_actionable s.stack
    then elim (Stack.selected_frame s.stack) [ none ↦ none | some frame ↦ some frame.id ]
    else none

unfoldable pub evaluate_in : SessionSnapshot → AppState → Step
unfolding eval_frame watch_requests one_or_batch
evaluate_in session s =
    let (s', cmds) = watch_requests session.id (eval_frame s) s in (s', one_or_batch cmds)

unfoldable pub evaluate_watches : AppState → Step
unfolding evaluate_in
evaluate_watches s = elim (paused_session s) [
  | none ↦ (s, no_command)
  | some session ↦ evaluate_in session s
]

abbrev pub on_source : (SourceView → SourceView) → Option SourceView → Option SourceView
on_source action none = none
on_source action (some v) = some (action v)

unfoldable pub with_source : (SourceView → SourceView) → AppState → AppState
with_source action s = record s { source = on_source action s.source }

-- `load_source` of a path
unfoldable pub load : FilePath → AppState → Step
load path s =
    let id = add_u64 s.latest_load 1 in (record s { latest_load = id }, load_source id path)

abbrev pub is_open : FilePath → Option SourceView → Bool
unfolding Source.shows
is_open path none = false
is_open path (some v) = Source.shows path v

unfoldable pub show : Location → AppState → Step
unfolding is_open load with_source Source.set_marker
show location s =
    if is_open location.path s.source
    then (
      record (with_source (Source.set_marker location.line) s) { location = some location },
      no_command,
    )
    else load location.path (record s { location = some location })

unfoldable pub frame_location : StackFrame → Option Location
frame_location frame = elim frame.source [
  | none ↦ none
  | some source ↦ elim source.path [
    | none ↦ none
    | some path ↦ some (record { path = path; line = frame.line })
  ]
]

-- `forget_position`
unfoldable pub forget_position : AppState → AppState
unfolding with_source Source.clear_marker Stack.clear Scopes.clear Watches.forget_values
forget_position s = record (with_source Source.clear_marker s) {
  location = none;
  stack = Stack.clear s.stack;
  scopes = Scopes.clear s.scopes;
  pending_variables = [];
  watches = Watches.forget_values s.watches;
  pending_watches = [];
}

unfoldable pub unverify : BreakpointStatus → BreakpointStatus
unverify status = record status { verified = false; adapter_line = none; message = none }

unfoldable pub unreachable_notice : AppState → Option String
unreachable_notice s =
    if is_reachable s then none else some "the daemon is not reachable — reconnecting"

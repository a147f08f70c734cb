-- ===== src/Tui/Actions.antt =====
-- crates/tui/src/update.rs: what the interface does on the user's part: it moves the program,
-- sets breakpoints and watches, unfolds variables and evaluates expressions.
use Prim.Native.String.{String}
use Prim.Native.String
use lazydap.Prelude.{
  ℕ, ℤ, Option, none, some, Bool, true, false, not, List, [], ◌∷◌, filter, find, ◌++◌, ◌&&◌, ◌==◌,
  if◌then◌else◌, insert, ℕ_discrete, ℤ_discrete, contains,
}
use lazydap.Core.Session.{is_live}
use lazydap.Core.Breakpoint.{FilePath, BreakpointStatus, NewBreakpoint, unverified, effective_line}
use lazydap.Core.Inspect.{StackFrame, StepKind, EvalContext, VariableFilter}
use lazydap.Core.Selector.{same_path, BreakpointSelector, WatchSelector}
use lazydap.Core.Request.{Request, no_wait}
use lazydap.Tui.State.{
  AppState, Cmd, no_command, batch, Cmds, also, Step, add_watch, paused_session, next_request_id,
  SessionSnapshot, PendingExpansion, send_ipc,
}
use lazydap.Tui.Sending.{
  send, scopes_request, watch_requests, one_or_batch, eval_frame, show, frame_location,
  unreachable_notice,
}
use lazydap.Tui.Input.{TextInput}
use lazydap.Tui.Repl.{ReplOutput}
use lazydap.Tui.Repl
use lazydap.Tui.Scopes.{head, Node, NodePath}
use lazydap.Tui.Scopes
use lazydap.Tui.Stack
use lazydap.Tui.Watches

-- A notice, and nothing else.
abbrev pub noticed : String → AppState → Step
noticed notice s = (record s { notice = some notice }, no_command)

-- What is done if the daemon is reachable; otherwise the notice says that it is not.
abbrev pub if_reachable : AppState → Step → Step
unfolding unreachable_notice
if_reachable s step = elim (unreachable_notice s) [ some notice ↦ noticed notice s | none ↦ step ]

pub data Movement : Type 0 where
  continue : Movement
  step : StepKind → Movement

abbrev pub movement_request : SessionSnapshot → Movement → Request
movement_request session continue = Request.continue session.id session.thread_id no_wait false
movement_request session (step kind) = Request.step session.id session.thread_id kind no_wait

abbrev pub live_only : SessionSnapshot → Option SessionSnapshot
unfolding is_live
live_only session = if is_live session.state then some session else none

abbrev pub live_session : AppState → Option SessionSnapshot
live_session s = elim s.session [ none ↦ none | some session ↦ live_only session ]

unfoldable pub execute : Movement → AppState → Step
unfolding send
execute movement s = if_reachable s (elim (live_session s) [
  | none ↦ noticed "no live session — run `lazydap launch` first" s
  | some session ↦ send (movement_request session movement) (record s { notice = none })
])

-- `shown_at` and `at`: whether a breakpoint is shown on a line, and whether it was asked for there.
unfoldable pub shown_at : FilePath → ℕ → BreakpointStatus → Bool
unfolding effective_line
shown_at source line status =
    same_path status.breakpoint.source source && effective_line status == line

-- A breakpoint as it is asked for on a line, and as it stands in the pane until the daemon answers.
unfoldable pub wanted : FilePath → ℕ → NewBreakpoint
wanted path line = record {
  source = path;
  line = line;
  column = none;
  condition = none;
  hit_condition = none;
  log_message = none;
  enabled = true;
}

unfoldable pub placeholder : FilePath → ℕ → BreakpointStatus
unfolding unverified
placeholder path line = unverified (record {
  id = 0;
  source = path;
  line = line;
  column = none;
  condition = none;
  hit_condition = none;
  log_message = none;
  enabled = true;
})

-- The breakpoints that the pane shows from now on, and the request.
unfoldable pub toggled :
    Option BreakpointStatus → FilePath → ℕ → List BreakpointStatus → List BreakpointStatus × Request
unfolding shown_at wanted placeholder
toggled none path line breakpoints =
    (breakpoints ++ (placeholder path line ∷ []), Request.breakpoint_add (wanted path line) false)
toggled (some held) path line breakpoints = (
  filter (λ (status : BreakpointStatus). not (shown_at path line status)) breakpoints,
  Request.breakpoint_remove (BreakpointSelector.location path held.breakpoint.line) false,
)

-- `toggle_breakpoint`, on a line of a file
unfoldable pub toggle_at : FilePath → ℕ → AppState → Step
unfolding toggled shown_at next_request_id
toggle_at path line s =
    let held = find (shown_at path line) s.breakpoints in
    let (breakpoints, request) = toggled held path line s.breakpoints in
    let id = next_request_id s in
    (
      record s {
        breakpoints = breakpoints;
        next_request = id;
        pending_breakpoints = id ∷ s.pending_breakpoints;
      },
      send_ipc id request,
    )

unfoldable pub toggle_breakpoint : AppState → Step
unfolding toggle_at
toggle_breakpoint s = elim s.source [
  | none ↦ (s, no_command)
  | some source ↦ if_reachable s (toggle_at source.path source.cursor_line s)
]

-- A jump in front of the requests, where there is one.
unfoldable pub with_jump : Cmds → Cmd → Cmd
unfolding one_or_batch
with_jump cmds no_command = one_or_batch cmds
with_jump cmds jump = batch (also jump cmds)

-- A selected frame of a session that is paused: its scopes, its values of the watches, its place.
unfoldable pub enter_frame : StackFrame → SessionSnapshot → AppState → Step
unfolding frame_location show scopes_request watch_requests with_jump one_or_batch
enter_frame frame session s =
    let (s₁, scopes) = scopes_request session.id (some frame.id) s in
    let (s₂, watches) = watch_requests session.id (some frame.id) s₁ in
    elim (frame_location frame) [
      | none ↦ (s₂, one_or_batch (also scopes watches))
      | some location ↦
          let (s₃, jump) = show location s₂ in (s₃, with_jump (also scopes watches) jump)
    ]

-- A selected frame with no session that is paused: its place alone.
unfoldable pub show_frame : StackFrame → AppState → Step
unfolding frame_location show
show_frame frame s = elim (frame_location frame) [
  | none ↦ (s, no_command)
  | some location ↦ show location s
]

unfoldable pub select_frame : AppState → Step
unfolding Stack.is_actionable Stack.selected_frame enter_frame show_frame
select_frame s =
    if Stack.is_actionable s.stack
    then (elim (Stack.selected_frame s.stack) [
      | none ↦ (s, no_command)
      | some frame ↦ elim (paused_session s) [
        | none ↦ show_frame frame s
        | some session ↦ enter_frame frame session s
      ]
    ])
    else (s, no_command)

-- The request for the variables of a node, as the last step of `expand`.
unfoldable pub ask_variables : NodePath → ℤ → SessionSnapshot → AppState → Step
unfolding next_request_id Scopes.mark_pending
ask_variables path reference session s =
    let id = next_request_id s in
    let asked : PendingExpansion = record { scopes = s.scopes.generation; path = path } in
    (
      record s {
        next_request = id;
        scopes = Scopes.mark_pending path s.scopes;
        pending_variables = insert ℕ_discrete id asked s.pending_variables;
      },
      send_ipc id (Request.variables session.id reference VariableFilter.all none none (some 0)),
    )

-- `expand`, of a node that is neither loaded nor asked for
unfoldable pub load_node : NodePath → ℤ → AppState → Step
unfolding Scopes.ancestor_references ask_variables
load_node path reference s =
    if contains ℤ_discrete (Scopes.ancestor_references path s.scopes) reference
    then noticed "already expanded further up — this points back at itself" s
    else if_reachable s (elim (paused_session s) [
      | none ↦ noticed "the program is not paused" s
      | some session ↦ ask_variables path reference session s
    ])

unfoldable pub expand_node : NodePath → Scopes.Head → AppState → Step
unfolding Scopes.expandable Scopes.set_expanded load_node
expand_node path h s =
    if not (Scopes.expandable h)
    then (s, no_command)
    else if h.pending
    then (s, no_command)
    else if h.loaded
    then (record s { scopes = Scopes.set_expanded path (not h.expanded) s.scopes }, no_command)
    else load_node path h.reference s

unfoldable pub expand : AppState → Step
unfolding Scopes.selected_path Scopes.is_actionable Scopes.node_at expand_node
expand s = elim (Scopes.selected_path s.scopes) [
  | none ↦ (s, no_command)
  | some path ↦
      if Scopes.is_actionable s.scopes
      then (elim (Scopes.node_at s.scopes.nodes path) [
        | none ↦ (s, no_command)
        | some n ↦ expand_node path (head n) s
      ])
      else (s, no_command)
]

-- `add_watch`, of the line that was typed; a modal that is open again where it cannot be sent.
unfoldable pub add_watch_of : TextInput → AppState → Step
unfolding unreachable_notice send
add_watch_of input s = elim (unreachable_notice s) [
  | some notice ↦ (record s { notice = some notice; modal = some (add_watch input) }, no_command)
  | none ↦ send (Request.watch_add (record { expression = input.value; label = none }) false) s
]

unfoldable pub remove_watch : AppState → Step
unfolding Watches.selected_watch send
remove_watch s = elim (Watches.selected_watch s.watches) [
  | none ↦ (s, no_command)
  | some w ↦ if_reachable s (send (Request.watch_remove (WatchSelector.ids (w.id ∷ [])) false) s)
]

abbrev pub not_a_command : String → String
not_a_command input = String.◌++◌ (String.◌++◌ "`" input) "` is not a command"

abbrev pub eval_context : Bool → EvalContext
eval_context true = EvalContext.repl
eval_context false = EvalContext.watch

-- What was submitted: refused if it is no command, else sent, under the entry it belongs to.
unfoldable pub evaluate : SessionSnapshot → ℕ → String → AppState → Step
unfolding Repl.parse Repl.answer eval_frame next_request_id
evaluate session entry input s = elim (Repl.parse input) [
  | none ↦ (
    record s { repl = Repl.answer entry (ReplOutput.error (not_a_command input)) s.repl },
    no_command,
  )
  | some (expression, is_command) ↦
      let id = next_request_id s in
      (
        record s { next_request = id; pending_repl = insert ℕ_discrete id entry s.pending_repl },
        send_ipc id (Request.eval session.id expression (eval_frame s) (eval_context is_command)),
      )
]

unfoldable pub submit_repl : AppState → Step
unfolding Repl.submit evaluate
submit_repl s = if_reachable s (elim (paused_session s) [
  | none ↦ noticed "the program is not paused" s
  | some session ↦
      let (submitted, repl) = Repl.submit s.repl in
      elim submitted [
        | none ↦ (s, no_command)
        | some (entry, input) ↦ evaluate session entry input (record s { repl = repl })
      ]
])

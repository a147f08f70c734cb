-- ===== src/Examples/Terminal.antt =====
-- The theorems on the terminal interface at concrete states.
use lazydap.Prelude.{
  arith, ℕ, ◌≡◌, ◌≢◌, refl, Option, none, some, Bool, true, false, List, [], ◌∷◌, ℤ, String, first,
  drop, inl, inr, All, ◌-◌,
}
use lazydap.Prelude as P
use lazydap.Core.Session
use lazydap.Core.Session.{SessionState, EndReason}
use lazydap.Core.Breakpoint.{FilePath, effective_line, unverified}
use lazydap.Core.Inspect.{Scope, Variable}
use lazydap.Core.Event.{Event}
use lazydap.Core.Request.{Request, Response, WatchReport, WatchAction}
use lazydap.Core.Selector.{BreakpointSelector}
use lazydap.Tui.State.{
  AppState, Msg, Focus, SessionSnapshot, no_command, send_ipc, next_request_id, Key, KeyCode,
}
use lazydap.Tui.State
use lazydap.Tui.Repl
use lazydap.Tui.Stack
use lazydap.Tui.Scopes
use lazydap.Tui.Watches
use lazydap.Tui.Source
use lazydap.Tui.Source.Cursor
use lazydap.Tui.Source.Cursor.{drawn-cursor}
use lazydap.Tui.Scopes.Rows
use lazydap.Tui.Scopes.Rows.{operate_all-Shows, Shows}
use lazydap.Tui.Scopes.Changing.{populate-node_at}
use lazydap.Tui.Repl.History.{operate_all-IsHistory, IsHistory}
use lazydap.Tui.Repl.History
use lazydap.Tui.Fresh.{Rising}
use lazydap.Tui.Fresh.Updates.{sent_ids-Rising, sent_ids, after, HasRooms}
use lazydap.Tui.WatchList.{announced-listed, announce, AllQuiet}
use lazydap.Tui.Toggling.{toggled_twice}
use lazydap.Tui.State.{send_ipc, next_request_id}
use lazydap.Tui.Actions.{toggle_breakpoint, shown_at, placeholder, wanted}
use lazydap.Tui.Ended.{hear, hear-over}
use lazydap.Tui.Answers.{daemon_response}

-- `AppState::default()`
abbrev idle : AppState
idle = record {
  source = none;
  stack = Stack.empty_view;
  scopes = Scopes.empty_view;
  watches = Watches.empty_view;
  repl = Repl.empty_view;
  modal = none;
  breakpoints = [];
  focus = Focus.source;
  notice = none;
  awaiting_g = false;
  awaiting_d = false;
  session = none;
  location = none;
  latest_load = 0;
  next_request = 0;
  latest_stack = 0;
  latest_scopes = 0;
  pending_variables = [];
  pending_breakpoints = [];
  pending_watches = [];
  pending_repl = [];
  pending_watch_list = none;
  watch_list_dirty = false;
  connection = State.connected;
  reconnect_attempt = 0;
  connected_for = 0;
}

abbrev complain : FilePath → String → String
complain path error = error

abbrev main_file : FilePath
main_file = record { is_absolute = true; components = "main.rs" ∷ [] }

abbrev messages : List Msg
messages =
    Msg.connected ∷ Msg.tick ∷ Msg.daemon_event (Event.watch_updated 1) ∷ Msg.daemon_gone ∷ []

sent_ids_example : sent_ids complain messages idle ≡ 2 ∷ 3 ∷ 4 ∷ []
unfolding sent_ids
sent_ids_example = refl

sent_ids-Rising_example :
    Rising 0 (sent_ids complain messages idle) (after complain messages idle).next_request
unfolding HasRooms
sent_ids-Rising_example = sent_ids-Rising complain messages idle (omega arith)

abbrev open_file : Source.SourceView
unfolding Source.from_contents
open_file = Source.from_contents main_file "fn main() {}"

abbrev awaiting_list : AppState
awaiting_list = record idle { pending_watch_list = some 4; next_request = 4 }

abbrev report : WatchReport
report = record {
  action = WatchAction.listed;
  dry_run = false;
  watches = record { id = 1; expression = "x"; label = none } ∷ [];
  not_found = [];
}

announced-listed_example :
    let (told, cmds) = announce (1 ∷ 2 ∷ []) awaiting_list in
    let (t, cmd) = daemon_response 4 (Response.watches report) told in
    AllQuiet cmds
    × (cmd ≡ send_ipc (next_request_id awaiting_list) Request.watch_list)
    × (t.pending_watch_list ≡ some (next_request_id awaiting_list))
    × (t.watch_list_dirty ≡ false)
    × (t.watches.watches ≡ report.watches)
announced-listed_example = announced-listed 1 (2 ∷ []) awaiting_list 4 report refl refl refl

-- A file is open, its cursor on line 1, and a breakpoint is shown elsewhere.
abbrev reading : AppState
reading = record idle { source = some open_file; breakpoints = placeholder main_file 7 ∷ [] }

toggled_twice_example :
    let first = toggle_breakpoint reading in
    let second = toggle_breakpoint first.0 in
    (P.find (shown_at main_file 1) first.0.breakpoints ≡ some (placeholder main_file 1))
    × (first.1
        ≡ send_ipc (next_request_id reading) (Request.breakpoint_add (wanted main_file 1) false))
    × (second.0.breakpoints ≡ placeholder main_file 7 ∷ [])
    × (second.1
        ≡ send_ipc
            (next_request_id first.0)
            (Request.breakpoint_remove (BreakpointSelector.location main_file 1) false))
    × (second.0.pending_breakpoints ≡ next_request_id first.0 ∷ (next_request_id reading ∷ []))
unfolding shown_at placeholder effective_line unverified Source.from_contents
toggled_twice_example = toggled_twice reading open_file refl refl (ground arith)

abbrev over : SessionSnapshot
over = record { id = 1; state = SessionState.exited; thread_id = none; reason = none }

hear-over_example :
    (hear
      (Event.continued 1 none true ∷ Event.session_ended 2 EndReason.terminated ∷ [])
      (record idle { session = some over })).session
    ≡ some over
unfolding Session.is_live
hear-over_example =
    hear-over (Event.continued 1 none true ∷ Event.session_ended 2 EndReason.terminated ∷ [])
      (record idle { session = some over }) over refl refl (refl, (refl, tt))

abbrev typed : List History.Operation
typed = History.paste "x" ∷ History.enter ∷ History.older ∷ []

operate_all-IsHistory_example : IsHistory (History.operate_all typed Repl.empty_view)
operate_all-IsHistory_example = operate_all-IsHistory typed

abbrev shown_file : List Cursor.Operation
shown_file = Cursor.draw 5 [] ∷ Cursor.move (P.pos 3) ∷ Cursor.stop_at 1 ∷ []

abbrev file_view : Source.SourceView
unfolding Cursor.operate_all Source.from_contents
file_view = Cursor.operate_all shown_file (Source.from_contents main_file "fn main() {}")

drawn-cursor_example :
    let v = Cursor.operate_all shown_file (Source.from_contents main_file "fn main() {}") in
    let (rows, w) = Source.render 4 [] v in
    (row : Source.Row) × (first (drop (w.cursor_line - w.top_line) rows) ≡ some row)
    × (row.number ≡ v.cursor_line)
    × (first (drop (v.cursor_line - 1) v.lines) ≡ some row.content)
unfolding Cursor.operate_all Source.from_contents
drawn-cursor_example =
    drawn-cursor main_file "fn main() {}" shown_file 4 [] (omega arith) (omega arith)

abbrev locals : Scope
locals = record {
  name = "Local";
  variables_reference = P.pos 7;
  expensive = false;
  named_variables = none;
  indexed_variables = none;
}

abbrev variable_x : Variable
variable_x = record {
  name = "x";
  value = "1";
  type_name = none;
  evaluate_name = none;
  variables_reference = P.pos 0;
  named_variables = none;
  indexed_variables = none;
}

abbrev tree : List Rows.Operation
tree = Rows.replaced (locals ∷ []) 3 ∷ Rows.arrived (0 ∷ []) (variable_x ∷ []) ∷ []

operate_all-Shows_example :
    let v = Rows.operate_all tree Scopes.empty_view in All (Shows v.nodes) v.rows
operate_all-Shows_example = operate_all-Shows tree

abbrev two_scopes : Scopes.ScopesView
two_scopes = record Scopes.empty_view {
  nodes = Scopes.cons (Scopes.scope locals) (Scopes.cons (Scopes.scope locals) Scopes.nil);
}

populate-node_at_example :
    let (found, w) = Scopes.populate (0 ∷ []) (variable_x ∷ []) two_scopes in
    (found ≡ true)
    × (Scopes.node_at w.nodes (0 ∷ [])
        ≡ some (
            Scopes.node
              (record (Scopes.head (Scopes.scope locals)) {
                loaded = true;
                pending = false;
                expanded = true;
              })
              (Scopes.nodes Scopes.variable (variable_x ∷ []))))
    × (Scopes.node_at w.nodes (1 ∷ []) ≡ Scopes.node_at two_scopes.nodes (1 ∷ []))
unfolding Scopes.scope Scopes.node_at
populate-node_at_example =
    populate-node_at (0 ∷ []) (1 ∷ []) (variable_x ∷ []) two_scopes
      (Scopes.head (Scopes.scope locals)) Scopes.nil refl (inl (omega arith))

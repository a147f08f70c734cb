-- ===== src/Tui/State.antt =====
-- crates/tui/src/state.rs and msg.rs: the state of the terminal interface, the messages that it
-- takes and the commands that it answers. `Key` is what the interface reads of a key event of the
-- terminal library.
use Prim.Native.Char.{Char}
use lazydap.Prelude.{
  ℕ, max, ℤ, String, Option, none, some, Bool, true, false, List, [], ◌∷◌, ◌==◌, if◌then◌else◌,
  add_u64,
}
use lazydap.Core.Session.{SessionId, SessionState, is_paused}
use lazydap.Core.Reason.{PauseReason}
use lazydap.Core.Breakpoint.{BreakpointStatus, FilePath}
use lazydap.Core.Watch.{WatchId}
use lazydap.Core.Event.{Event}
use lazydap.Core.Request.{Request, Response, SessionSummary}
use lazydap.Tui.Input.{TextInput}
use lazydap.Tui.Repl.{ReplView}
use lazydap.Tui.Scopes.{ScopesView, NodePath}
use lazydap.Tui.Source.{SourceView}
use lazydap.Tui.Stack.{StackView}
use lazydap.Tui.Watches.{WatchesView}

abbrev pub reserved_ids : ℕ
reserved_ids = 1

pub data Focus : Type 0 where
  source stack scopes watches repl : Focus

unfoldable pub next : Focus → Focus
next source = stack
next stack = scopes
next scopes = watches
next watches = repl
next repl = source

unfoldable pub previous : Focus → Focus
previous source = repl
previous stack = source
previous scopes = stack
previous watches = scopes
previous repl = watches

abbrev pub is_typing : Focus → Bool
is_typing repl = true
is_typing _ = false

pub data Modal : Type 0 where
  add_watch : TextInput → Modal

pub record PendingWatch : Type 0 where
  pub generation : ℕ
  pub watch : WatchId

pub data Connection : Type 0 where
  connected : Connection
  -- the attempt, a `u32`
  reconnecting : ℕ → Connection

pub record PendingExpansion : Type 0 where
  pub scopes : ℕ
  pub path : NodePath

pub record SessionSnapshot : Type 0 where
  pub id : SessionId
  pub state : SessionState
  pub thread_id : Option ℤ
  pub reason : Option PauseReason

unfoldable pub from_summary : SessionSummary → SessionSnapshot
from_summary s = record { id = s.session_id; state = s.state; thread_id = none; reason = none }

pub record Location : Type 0 where
  pub path : FilePath
  pub line : ℕ

-- Maps by request ids are association lists, a set of ids a list.
pub record AppState : Type 0 where
  pub source : Option SourceView
  pub stack : StackView
  pub scopes : ScopesView
  pub watches : WatchesView
  pub repl : ReplView
  pub modal : Option Modal
  pub breakpoints : List BreakpointStatus
  pub focus : Focus
  pub notice : Option String
  pub awaiting_g : Bool
  pub awaiting_d : Bool
  pub session : Option SessionSnapshot
  pub location : Option Location
  pub latest_load : ℕ
  pub next_request : ℕ
  pub latest_stack : ℕ
  pub latest_scopes : ℕ
  pub pending_variables : List (ℕ × PendingExpansion)
  pub pending_breakpoints : List ℕ
  pub pending_watches : List (ℕ × PendingWatch)
  pub pending_repl : List (ℕ × ℕ)
  pub pending_watch_list : Option ℕ
  pub watch_list_dirty : Bool
  pub connection : Connection
  pub reconnect_attempt : ℕ
  pub connected_for : ℕ

-- `AppState::next_request_id`: the id, which is also the counter from then on.
unfoldable pub next_request_id : AppState → ℕ
next_request_id s = add_u64 (max s.next_request reserved_ids) 1

-- The session, if it is paused.
abbrev pub paused_only : SessionSnapshot → Option SessionSnapshot
paused_only session = if is_paused session.state then some session else none

abbrev pub paused_session : AppState → Option SessionSnapshot
paused_session s = elim s.session [ none ↦ none | some session ↦ paused_only session ]

-- `AppState::is_awaiting`
abbrev pub is_attempt : ℕ → Connection → Bool
is_attempt attempt connected = false
is_attempt attempt (reconnecting n) = n == attempt

unfoldable pub is_awaiting : ℕ → AppState → Bool
is_awaiting attempt s = is_attempt attempt s.connection

abbrev pub is_connected : Connection → Bool
is_connected connected = true
is_connected (reconnecting attempt) = false

abbrev pub is_reachable : AppState → Bool
is_reachable s = is_connected s.connection

pub data KeyCode : Type 0 where
  char : Char → KeyCode
  -- a function key by its number
  f : ℕ → KeyCode
  esc tab back_tab enter down up backspace other : KeyCode

pub record Key : Type 0 where
  pub code : KeyCode
  pub control : Bool
  pub shift : Bool
  pub alt : Bool
  pub super_key : Bool
  -- whether the event is a press, rather than a repetition or a release
  pub is_press : Bool

-- `Result`, of a text for an error
pub data Outcome (A : Type 0) : Type 0 where
  ok : A → Outcome A
  err : String → Outcome A

pub data Msg : Type 0 where
  key : Key → Msg
  connected : Msg
  paste : String → Msg
  resize tick input_closed : Msg
  -- the id of the load, the path, its canonical path and the contents
  source_loaded : ℕ → FilePath → FilePath → Outcome String → Msg
  daemon_event : Event → Msg
  daemon_response : ℕ → Response → Msg
  -- the message of the error
  daemon_failed : ℕ → String → Msg
  daemon_gone : Msg
  reconnected : ℕ → Outcome Unit → Msg

mutual
  pub data Cmd : Type 0 where
    no_command quit : Cmd
    load_source : ℕ → FilePath → Cmd
    send_ipc : ℕ → Request → Cmd
    batch : Cmds → Cmd
    -- the attempt and the delay in milliseconds
    reconnect : ℕ → ℕ → Cmd

  -- `Vec<Cmd>`
  pub data Cmds : Type 0 where
    nothing : Cmds
    also : Cmd → Cmds → Cmds

abbrev pub Step : Type 0
Step = AppState × Cmd

-- `remove` of a map: what was there, and the map without it.
unfoldable pub remove_key {ℓ} : {V : Type ℓ} → ℕ → List (ℕ × V) → List (ℕ × V)
remove_key k [] = []
remove_key k ((j, v) ∷ m) = let rest = remove_key k m in if j == k then rest else (j, v) ∷ rest

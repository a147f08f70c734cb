-- ===== src/Tui/Keys.antt =====
-- crates/tui/src/update.rs: which key does what. A key goes to the line of the modal, to the line of
-- the repl, or to the command that it stands for.
use Prim.Native.Char.{Char, code}
use Prim.Native.String.{String, ◌++◌}
use lazydap.Prelude.{
  ℕ, zero, suc, ℤ, pos, negsuc, none, some, Bool, true, false, not, List, [], ◌∷◌, ◌&&◌, ◌||◌, ◌==◌,
  if◌then◌else◌,
}
use lazydap.Core.Inspect.{StepKind}
use lazydap.Tui.State.{
  AppState, no_command, quit, Step, Focus, next, previous, is_typing, add_watch, Key, KeyCode, char,
  f, esc, tab, back_tab, enter, down, up, other,
}
use lazydap.Tui.Sending.{with_source}
use lazydap.Tui.Actions.{
  Movement, step, execute, toggle_breakpoint, select_frame, expand, add_watch_of, remove_watch,
  submit_repl,
}
use lazydap.Tui.Input.{TextInput, default}
use lazydap.Tui.Input
use lazydap.Tui.Repl
use lazydap.Tui.Scopes
use lazydap.Tui.Source.{SourceView}
use lazydap.Tui.Source
use lazydap.Tui.Stack
use lazydap.Tui.Watches

unfoldable pub moved : ℤ → AppState → AppState
unfolding with_source Source.move_cursor Stack.move_selection Scopes.move_selection
    Watches.move_selection
moved delta s = elim s.focus [
  | Focus.source ↦ with_source (Source.move_cursor delta) s
  | Focus.stack ↦ record s { stack = Stack.move_selection delta s.stack }
  | Focus.scopes ↦ record s { scopes = Scopes.move_selection delta s.scopes }
  | Focus.watches ↦ record s { watches = Watches.move_selection delta s.watches }
  | Focus.repl ↦ s
]

-- `enter`
unfoldable pub entered : AppState → Step
unfolding select_frame expand
entered s = elim s.focus [
  | Focus.stack ↦ select_frame s
  | Focus.scopes ↦ expand s
  | _ ↦ (s, no_command)
]

-- `split(['\n', '\r'])`: the pieces, the last of them too.
abbrev pub front : Char → List String → List String
front c [] = String.◌∷◌ c String.[] ∷ []
front c (p ∷ ps) = String.◌∷◌ c p ∷ ps

unfoldable pub pieces : String → List String
pieces String.[] = "" ∷ []
pieces (String.◌∷◌ c s) =
    let rest = pieces s in if code c == 10 || code c == 13 then "" ∷ rest else front c rest

-- `filter(|piece| !piece.is_empty())` and `join(" ")`
unfoldable pub joined : List String → String
joined [] = ""
joined (String.[] ∷ ps) = joined ps
joined (String.◌∷◌ c p ∷ ps) = elim (joined ps) [
  | String.[] ↦ String.◌∷◌ c p
  | String.◌∷◌ d q ↦ (String.◌∷◌ c p ++ " ") ++ String.◌∷◌ d q
]

-- A paste of a text that is one line and not empty.
unfoldable pub paste_line : String → AppState → AppState
unfolding Input.push_str Repl.push_str
paste_line text s = elim s.modal [
  | some (add_watch input) ↦ record s { modal = some (add_watch (Input.push_str text input)) }
  | none ↦ if is_typing s.focus then record s { repl = Repl.push_str text s.repl } else s
]

unfoldable pub paste_joined : String → AppState → AppState
unfolding paste_line
paste_joined String.[] s = s
paste_joined (String.◌∷◌ c line) s = paste_line (String.◌∷◌ c line) s

unfoldable pub pasted : String → AppState → AppState
unfolding pieces joined paste_joined
pasted text s = paste_joined (joined (pieces text)) s

unfoldable pub repl_claims : KeyCode → Bool
repl_claims (char c) = true
repl_claims KeyCode.backspace = true
repl_claims enter = true
repl_claims esc = true
repl_claims _ = false

-- A character typed at the repl's line.
unfoldable pub repl_char : Char → Bool → Repl.ReplView → Repl.ReplView
unfolding Repl.previous Repl.next Repl.clear_input Repl.push_char
repl_char c control v =
    if control
    then if code c == b'p'
      then Repl.previous v
      else if code c == b'n'
      then Repl.next v
      else if code c == b'c'
      then Repl.clear_input v
      else v
    else Repl.push_char c v

unfoldable pub repl_key : KeyCode → Bool → AppState → Step
unfolding repl_char Repl.backspace Repl.input_is_empty Repl.clear_input submit_repl
repl_key (char c) control s = (record s { repl = repl_char c control s.repl }, no_command)
repl_key KeyCode.backspace control s = (record s { repl = Repl.backspace s.repl }, no_command)
repl_key enter control s = submit_repl s
repl_key esc control s = (
  if Repl.input_is_empty s.repl
      then record s { focus = Focus.source }
      else record s { repl = Repl.clear_input s.repl },
  no_command,
)
repl_key _ control s = (s, no_command)

-- A modal that is open again with its line.
abbrev pub reopened : TextInput → AppState → Step
reopened input s = (record s { modal = some (add_watch input) }, no_command)

-- `modal_key`, of a state whose modal is taken
unfoldable pub modal_key : KeyCode → Bool → TextInput → AppState → Step
unfolding Input.is_empty add_watch_of Input.backspace Input.clear Input.push
modal_key esc control input s = (s, no_command)
modal_key enter control input s =
    if Input.is_empty input then (s, no_command) else add_watch_of input s
modal_key KeyCode.backspace control input s = reopened (Input.backspace input) s
modal_key (char c) control input s =
    if control
    then if code c == b'c' then reopened (Input.clear input) s else reopened input s
    else reopened (Input.push c input) s
modal_key _ control input s = reopened input s

abbrev pub is_source : Focus → Bool
is_source Focus.source = true
is_source _ = false

abbrev pub is_watches : Focus → Bool
is_watches Focus.watches = true
is_watches _ = false

-- The letters that move within a pane, by the pending `g`.
unfoldable pub motion_char : ℕ → Bool → AppState → AppState
unfolding moved with_source Source.go_to_top Source.go_to_bottom
motion_char c awaiting_g s =
    if c == b'j'
    then moved (pos 1) s
    else if c == b'k'
    then moved (negsuc 0) s
    else if c == b'g' && awaiting_g
    then with_source Source.go_to_top s
    else if c == b'g'
    then record s { awaiting_g = true }
    else if c == b'G'
    then with_source Source.go_to_bottom s
    else s

-- The letters of the watches' pane, by the pending `d`; any other letter moves.
unfoldable pub watch_char : ℕ → Bool → Bool → AppState → Step
unfolding remove_watch motion_char
watch_char c awaiting_g awaiting_d s =
    if c == b'a' && is_watches s.focus
    then reopened default s
    else if c == b'd' && (awaiting_d && is_watches s.focus)
    then remove_watch s
    else if c == b'd' && is_watches s.focus
    then (record s { awaiting_d = true }, no_command)
    else (motion_char c awaiting_g s, no_command)

-- The letters that stand for commands when no modifier but shift is held.
unfoldable pub plain_char : ℕ → Bool → Bool → AppState → Step
unfolding execute toggle_breakpoint watch_char
plain_char c awaiting_g awaiting_d s =
    if c == b'q'
    then (s, quit)
    else if c == b'c'
    then execute Movement.continue s
    else if c == b'n'
    then execute (step StepKind.over) s
    else if c == b'b' && is_source s.focus
    then toggle_breakpoint s
    else watch_char c awaiting_g awaiting_d s

-- `-n` of a number that is not negative
abbrev pub negated : ℕ → ℤ
negated zero = pos 0
negated (suc n) = negsuc n

abbrev pub half_down : SourceView → SourceView
unfolding Source.half_page Source.move_cursor
half_down v = Source.move_cursor (pos (Source.half_page v)) v

abbrev pub half_up : SourceView → SourceView
unfolding Source.half_page Source.move_cursor
half_up v = Source.move_cursor (negated (Source.half_page v)) v

unfoldable pub control_char : ℕ → AppState → AppState
unfolding with_source
control_char c s =
    if c == b'd' then with_source half_down s else if c == b'u' then with_source half_up s else s

-- `plain`: neither control, alt nor super is held.
abbrev pub is_plain : Key → Bool
is_plain key = not key.control && (not key.alt && not key.super_key)

unfoldable pub char_key : Key → ℕ → Bool → Bool → AppState → Step
unfolding plain_char control_char
char_key key c awaiting_g awaiting_d s =
    if is_plain key
    then plain_char c awaiting_g awaiting_d s
    else if key.control
    then (control_char c s, no_command)
    else (s, no_command)

unfoldable pub function_key : Key → ℕ → AppState → Step
unfolding execute
function_key key n s =
    if n == 5
    then execute Movement.continue s
    else if n == 10
    then execute (step StepKind.over) s
    else if n == 11
    then execute (step (if key.shift then StepKind.out else StepKind.into)) s
    else (s, no_command)

unfoldable pub command : Key → KeyCode → Bool → Bool → AppState → Step
unfolding char_key function_key next previous entered moved
command key (char c) awaiting_g awaiting_d s = char_key key (code c) awaiting_g awaiting_d s
command key (f n) awaiting_g awaiting_d s = function_key key n s
command key esc awaiting_g awaiting_d s = (s, quit)
command key tab awaiting_g awaiting_d s = (record s { focus = next s.focus }, no_command)
command key back_tab awaiting_g awaiting_d s = (record s { focus = previous s.focus }, no_command)
command key enter awaiting_g awaiting_d s = entered s
command key down awaiting_g awaiting_d s = (moved (pos 1) s, no_command)
command key up awaiting_g awaiting_d s = (moved (negsuc 0) s, no_command)
command key KeyCode.backspace awaiting_g awaiting_d s = (s, no_command)
command key other awaiting_g awaiting_d s = (s, no_command)

-- The state with nothing awaited.
abbrev pub unawaited : AppState → AppState
unawaited s = record s { awaiting_g = false; awaiting_d = false }

-- A key that goes to the repl's line, or to the command that it stands for.
unfoldable pub pane_key : Key → AppState → Step
unfolding repl_claims repl_key command
pane_key key s =
    if is_typing s.focus && repl_claims key.code
    then repl_key key.code key.control (unawaited s)
    else command key key.code s.awaiting_g s.awaiting_d (unawaited s)

unfoldable pub key_press : Key → AppState → Step
unfolding modal_key pane_key
key_press key s = elim s.modal [
  | some (add_watch input) ↦ modal_key key.code key.control input (record s { modal = none })
  | none ↦ pane_key key s
]

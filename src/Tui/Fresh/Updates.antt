-- ===== src/Tui/Fresh/Updates.antt =====
-- The ids of the requests that any message leads to, and any sequence of messages.
use Prim.Native.Char as Char
use lazydap.Prelude.{
  if◌then◌else◌, arith, ℕ, ◌+◌, ◌≡◌, refl, ℤ, none, Bool, List, [], ◌∷◌, ◌++◌, String,
}
use lazydap.Core.Breakpoint.{FilePath}
use lazydap.Tui.State.{AppState, next_request_id, Msg, Key, KeyCode, Outcome, ok, err}
use lazydap.Tui.Connection.{
  connected, daemon_gone, lost, attempt_now, reconnected, settle, tick, forget_verification,
}
use lazydap.Tui.Sending.{send, request_watch_list, with_source, forget_position}
use lazydap.Tui.Keys.{
  key_press, pane_key, unawaited, command, char_key, function_key, plain_char, watch_char,
  motion_char, control_char, repl_key, modal_key, entered, moved, pasted, paste_line, paste_joined,
  joined, pieces,
}
use lazydap.Tui.Events
use lazydap.Tui.Answers
use lazydap.Tui.Update.{update, source_loaded, loaded}
use lazydap.Tui.Input.{TextInput}
use lazydap.Tui.Fresh.{ids, all_ids, Rising, Rising-append, HasRoom, IsFresh, most, weaken}
use lazydap.Tui.Fresh.Actions.{
  execute-IsFresh, toggle_breakpoint-IsFresh, add_watch_of-IsFresh, remove_watch-IsFresh,
  submit_repl-IsFresh, expand-IsFresh, select_frame-IsFresh,
}
use lazydap.Tui.Fresh.Events.{
  daemon_event-IsFresh, daemon_response-IsFresh, daemon_failed-IsFresh, brought,
}
use lazydap.Tui.Actions.{Movement, step}
use lazydap.Core.Inspect.{StepKind}

connected-IsFresh :
    (s : AppState) → HasRoom 3 s.next_request → IsFresh 3 s.next_request (connected s)
unfolding connected send next_request_id request_watch_list ids all_ids
connected-IsFresh s h = omega arith

attempt-IsFresh :
    (attempt : ℕ) (outcome : Outcome Unit) (s : AppState)
    → HasRoom 3 s.next_request
    → IsFresh 3 s.next_request (reconnected attempt outcome s)
unfolding reconnected settle attempt_now ids
attempt-IsFresh attempt (ok done) s h =
    ground (arith, connected-IsFresh (record s { notice = none }) h)
attempt-IsFresh attempt (err error) s h = ground arith

daemon_gone-IsFresh : (s : AppState) → IsFresh 0 s.next_request (daemon_gone s)
unfolding daemon_gone lost attempt_now forget_position forget_verification with_source ids
daemon_gone-IsFresh s = ground arith

moved-same : (delta : ℤ) (s : AppState) → (moved delta s).next_request ≡ s.next_request
unfolding moved with_source
moved-same delta s = ground arith

motion_char-same :
    (c : ℕ) (awaiting_g : Bool) (s : AppState)
    → (motion_char c awaiting_g s).next_request ≡ s.next_request
unfolding motion_char with_source
motion_char-same c awaiting_g s = ground (arith, moved-same (ℤ.pos 1) s, moved-same (ℤ.negsuc 0) s)

watch_char-IsFresh :
    (c : ℕ) (awaiting_g awaiting_d : Bool) (s : AppState)
    → HasRoom 1 s.next_request
    → IsFresh 1 s.next_request (watch_char c awaiting_g awaiting_d s)
unfolding watch_char ids
watch_char-IsFresh c awaiting_g awaiting_d s h =
    ground (arith, remove_watch-IsFresh s h, motion_char-same c awaiting_g s)

plain_char-IsFresh :
    (c : ℕ) (awaiting_g awaiting_d : Bool) (s : AppState)
    → HasRoom 1 s.next_request
    → IsFresh 1 s.next_request (plain_char c awaiting_g awaiting_d s)
unfolding plain_char ids
plain_char-IsFresh c awaiting_g awaiting_d s h = ground (
  arith,
  execute-IsFresh Movement.continue s h,
  execute-IsFresh (step StepKind.over) s h,
  toggle_breakpoint-IsFresh s h,
  watch_char-IsFresh c awaiting_g awaiting_d s h,
)

entered-IsFresh :
    (s : AppState) → HasRoom (most s) s.next_request → IsFresh (most s) s.next_request (entered s)
unfolding entered ids
entered-IsFresh s h = ground (arith, select_frame-IsFresh s h, expand-IsFresh s (omega arith))

char_key-IsFresh :
    (key : Key) (c : ℕ) (awaiting_g awaiting_d : Bool) (s : AppState)
    → HasRoom 1 s.next_request
    → IsFresh 1 s.next_request (char_key key c awaiting_g awaiting_d s)
unfolding char_key control_char with_source ids
char_key-IsFresh key c awaiting_g awaiting_d s h =
    ground (arith, plain_char-IsFresh c awaiting_g awaiting_d s h)

function_key-IsFresh :
    (key : Key) (n : ℕ) (s : AppState)
    → HasRoom 1 s.next_request
    → IsFresh 1 s.next_request (function_key key n s)
unfolding function_key ids
function_key-IsFresh key n s h = ground (
  arith,
  execute-IsFresh Movement.continue s h,
  execute-IsFresh (step StepKind.over) s h,
  execute-IsFresh (step (if key.shift then StepKind.out else StepKind.into)) s h,
)

command-IsFresh :
    (key : Key) (code : KeyCode) (awaiting_g awaiting_d : Bool) (s : AppState)
    → HasRoom (most s) s.next_request
    → IsFresh (most s) s.next_request (command key code awaiting_g awaiting_d s)
unfolding command ids
command-IsFresh key (KeyCode.char c) awaiting_g awaiting_d s h =
    weaken 1 (most s) s.next_request (char_key key (Char.code c) awaiting_g awaiting_d s)
      (char_key-IsFresh key (Char.code c) awaiting_g awaiting_d s (omega arith)) (omega arith)
command-IsFresh key (KeyCode.f n) awaiting_g awaiting_d s h =
    weaken 1 (most s) s.next_request (function_key key n s)
      (function_key-IsFresh key n s (omega arith)) (omega arith)
command-IsFresh key KeyCode.esc awaiting_g awaiting_d s h = omega arith
command-IsFresh key KeyCode.tab awaiting_g awaiting_d s h = omega arith
command-IsFresh key KeyCode.back_tab awaiting_g awaiting_d s h = omega arith
command-IsFresh key KeyCode.enter awaiting_g awaiting_d s h = entered-IsFresh s h
command-IsFresh key KeyCode.down awaiting_g awaiting_d s h = omega (arith, moved-same (ℤ.pos 1) s)
command-IsFresh key KeyCode.up awaiting_g awaiting_d s h = omega (arith, moved-same (ℤ.negsuc 0) s)
command-IsFresh key KeyCode.backspace awaiting_g awaiting_d s h = omega arith
command-IsFresh key KeyCode.other awaiting_g awaiting_d s h = omega arith

repl_key-IsFresh :
    (code : KeyCode) (control : Bool) (s : AppState)
    → HasRoom 1 s.next_request
    → IsFresh 1 s.next_request (repl_key code control s)
unfolding repl_key ids
repl_key-IsFresh KeyCode.enter control s h = submit_repl-IsFresh s h
repl_key-IsFresh code control s h = ground arith

modal_key-IsFresh :
    (code : KeyCode) (control : Bool) (input : TextInput) (s : AppState)
    → HasRoom 1 s.next_request
    → IsFresh 1 s.next_request (modal_key code control input s)
unfolding modal_key ids
modal_key-IsFresh code control input s h = ground (arith, add_watch_of-IsFresh input s h)

pane_key-IsFresh :
    (key : Key) (s : AppState)
    → HasRoom (most s) s.next_request
    → IsFresh (most s) s.next_request (pane_key key s)
unfolding pane_key ids
pane_key-IsFresh key s h = ground (
  arith,
  repl_key-IsFresh key.code key.control (unawaited s) (omega arith),
  command-IsFresh key key.code s.awaiting_g s.awaiting_d (unawaited s) h,
)

key_press-IsFresh :
    (key : Key) (s : AppState)
    → HasRoom (most s) s.next_request
    → IsFresh (most s) s.next_request (key_press key s)
unfolding key_press ids
key_press-IsFresh key s h =
    let typed = λ (input : TextInput).
      modal_key-IsFresh key.code key.control input (record s { modal = none }) (omega arith) in
    grind (arith, typed, pane_key-IsFresh key s h)

-- The watches that a message brings and that may each be asked for.
abbrev pub asked_for : Msg → ℕ
asked_for (Msg.daemon_response id response) = brought response
asked_for _ = 0

-- The most requests that a message may lead to.
abbrev pub cost : Msg → AppState → ℕ
cost msg s = asked_for msg + most s + 1

paste-same : (text : String) (s : AppState) → (paste_joined text s).next_request ≡ s.next_request
unfolding paste_joined paste_line
paste-same String.[] s = refl
paste-same (String.◌∷◌ c line) s = ground arith

module _ (complaint : FilePath → String → String) where
  source_loaded-same :
      (id : ℕ) (path canonical : FilePath) (contents : Outcome String) (s : AppState)
      → (source_loaded complaint id path canonical contents s).next_request ≡ s.next_request
  unfolding source_loaded loaded
  source_loaded-same id path canonical (ok contents) s = ground arith
  source_loaded-same id path canonical (err error) s = ground arith

  -- One message.
  pub update-IsFresh :
      (msg : Msg) (s : AppState)
      → HasRoom (cost msg s) s.next_request
      → IsFresh (cost msg s) s.next_request (update complaint msg s)
  unfolding update pasted tick ids
  update-IsFresh (Msg.key key) s h = ground (arith, key_press-IsFresh key s (omega arith))
  update-IsFresh Msg.connected s h = omega (arith, connected-IsFresh s (omega arith))
  update-IsFresh (Msg.paste text) s h = omega (arith, paste-same (joined (pieces text)) s)
  update-IsFresh Msg.resize s h = omega arith
  update-IsFresh Msg.tick s h = ground arith
  update-IsFresh Msg.input_closed s h = omega arith
  update-IsFresh (Msg.source_loaded id path canonical contents) s h =
      omega (arith, source_loaded-same id path canonical contents s)
  update-IsFresh (Msg.daemon_event event) s h =
      weaken (most s) (0 + most s + 1) s.next_request (Events.daemon_event event s)
        (daemon_event-IsFresh event s (omega arith)) (omega arith)
  update-IsFresh (Msg.daemon_response id response) s h =
      weaken (brought response + most s) (brought response + most s + 1) s.next_request
        (Answers.daemon_response id response s)
        (daemon_response-IsFresh id response s (omega arith)) (omega arith)
  update-IsFresh (Msg.daemon_failed id message) s h =
      weaken 1 (0 + most s + 1) s.next_request (Answers.daemon_failed id message s)
        (daemon_failed-IsFresh id message s (omega arith)) (omega arith)
  update-IsFresh Msg.daemon_gone s h =
      weaken 0 (0 + most s + 1) s.next_request (daemon_gone s) (daemon_gone-IsFresh s) (omega arith)
  update-IsFresh (Msg.reconnected attempt outcome) s h =
      weaken 3 (0 + most s + 1) s.next_request (reconnected attempt outcome s)
        (attempt-IsFresh attempt outcome s (omega arith)) (omega arith)

  -- What is sent through a sequence of messages, in order.
  unfoldable pub sent_ids : List Msg → AppState → List ℕ
  unfolding update ids
  sent_ids [] s = []
  sent_ids (msg ∷ msgs) s = let step = update complaint msg s in ids step.1 ++ sent_ids msgs step.0

  unfoldable pub after : List Msg → AppState → AppState
  unfolding update
  after [] s = s
  after (msg ∷ msgs) s = after msgs (update complaint msg s).0

  -- The counter has room at each message.
  unfoldable pub HasRooms : List Msg → AppState → Type 0
  unfolding update
  HasRooms [] s = Unit
  HasRooms (msg ∷ msgs) s =
      HasRoom (cost msg s) s.next_request × HasRooms msgs (update complaint msg s).0

  -- Through any sequence of messages, the ids of the requests that are sent rise, above the counter
  -- and above the reserved id, so that none is given out twice, as long as the counter has room at
  -- each message.
  pub sent_ids-Rising :
      (msgs : List Msg) (s : AppState)
      → HasRooms msgs s
      → Rising s.next_request (sent_ids msgs s) (after msgs s).next_request
  unfolding sent_ids after HasRooms
  sent_ids-Rising [] s h = omega arith
  sent_ids-Rising (msg ∷ msgs) s h =
      let step = update complaint msg s in
      Rising-append s.next_request (ids step.1) step.0.next_request (sent_ids msgs step.0)
        (after msgs step.0).next_request (update-IsFresh msg s h.0).0
        (sent_ids-Rising msgs step.0 h.1)

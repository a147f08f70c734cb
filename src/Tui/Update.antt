-- ===== src/Tui/Update.antt =====
-- crates/tui/src/update.rs: `update`, which answers every message, and the files that it asked for.
use lazydap.Prelude.{ℕ, Option, none, some, ◌==◌, if◌then◌else◌, String}
use lazydap.Core.Breakpoint.{FilePath}
use lazydap.Core.Selector.{same_path}
use lazydap.Tui.State.{AppState, no_command, quit, Step, Msg, Outcome, ok, err, Location}
use lazydap.Tui.Connection.{connected, daemon_gone, reconnected, tick}
use lazydap.Tui.Keys.{key_press, pasted}
use lazydap.Tui.Events.{daemon_event}
use lazydap.Tui.Answers.{daemon_response, daemon_failed}
use lazydap.Tui.Source.{SourceView}
use lazydap.Tui.Source

-- The marker of a file that is the one the program is stopped in.
unfoldable pub marked : FilePath → Option Location → SourceView → SourceView
unfolding Source.set_marker
marked path none v = v
marked path (some location) v =
    if same_path location.path path then Source.set_marker location.line v else v

-- How a path and an error are shown is the standard library's.
module _ (complaint : FilePath → String → String) where
  unfoldable pub loaded : FilePath → FilePath → Outcome String → AppState → AppState
  unfolding marked Source.opened Source.from_contents
  loaded path canonical (ok contents) s = record s {
    source =
        some
          (marked path s.location (Source.opened path (Source.from_contents canonical contents)));
    notice = none;
  }
  loaded path canonical (err error) s = record s { notice = some (complaint path error) }

  unfoldable pub source_loaded : ℕ → FilePath → FilePath → Outcome String → AppState → AppState
  unfolding loaded
  source_loaded id path canonical contents s =
      if id == s.latest_load then loaded path canonical contents s else s

  unfoldable pub update : Msg → AppState → Step
  unfolding source_loaded connected key_press pasted daemon_event daemon_response daemon_failed
      daemon_gone reconnected tick
  update (Msg.key key) s = if key.is_press then key_press key s else (s, no_command)
  update Msg.connected s = connected s
  update (Msg.paste text) s = (pasted text s, no_command)
  update Msg.resize s = (s, no_command)
  update Msg.tick s = (tick s, no_command)
  update Msg.input_closed s = (s, quit)
  update (Msg.source_loaded id path canonical contents) s =
      (source_loaded id path canonical contents s, no_command)
  update (Msg.daemon_event event) s = daemon_event event s
  update (Msg.daemon_response id response) s = daemon_response id response s
  update (Msg.daemon_failed id message) s = daemon_failed id message s
  update Msg.daemon_gone s = daemon_gone s
  update (Msg.reconnected attempt outcome) s = reconnected attempt outcome s

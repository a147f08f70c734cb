-- ===== src/Tui/Ended.antt =====
-- What a session that is over is told.
use lazydap.Prelude.{arith, ◌≡◌, ◌∙◌, Option, some, false, List, [], ◌∷◌}
use lazydap.Core.Session.{SessionId, is_live}
use lazydap.Core.Breakpoint.{AdapterBreakpoint}
use lazydap.Core.Event.{Event}
use lazydap.Tui.State.{AppState, SessionSnapshot}
use lazydap.Tui.Sending.{send, request_watch_list}
use lazydap.Tui.Events.{daemon_event, breakpoint_updated, applies, is_start}

unfoldable pub hear : List Event → AppState → AppState
unfolding daemon_event
hear [] s = s
hear (event ∷ events) s = hear events (daemon_event event s).0

abbrev pub NoStart : List Event → Type 0
NoStart [] = Unit
NoStart (event ∷ events) = (is_start event ≡ false) × NoStart events

breakpoint_updated-session :
    (id : Option SessionId) (update : AdapterBreakpoint) (s : AppState)
    → (breakpoint_updated id update s).0.session ≡ s.session
unfolding breakpoint_updated send
breakpoint_updated-session id update s = ground arith

daemon_event-over :
    (event : Event) (s : AppState) (session : SessionSnapshot)
    → s.session ≡ some session
    → is_live session.state ≡ false
    → is_start event ≡ false
    → (daemon_event event s).0.session ≡ some session
unfolding daemon_event breakpoint_updated request_watch_list send applies is_live
daemon_event-over (Event.session_started id adapter) s session h over q = absurd (cc q)
daemon_event-over (Event.session_ended id reason) s session h over q = ground arith
daemon_event-over (Event.stopped id stop) s session h over q = ground arith
daemon_event-over (Event.continued id thread all_threads) s session h over q = ground arith
daemon_event-over (Event.output id chunk) s session h over q = ground arith
daemon_event-over (Event.breakpoint_updated id update) s session h over q =
    breakpoint_updated-session id update s ∙ h
daemon_event-over (Event.thread_changed id update) s session h over q = ground arith
daemon_event-over (Event.watch_updated id) s session h over q = ground arith

-- A session that is over stays as it was, whatever is announced, until a session starts.
pub hear-over :
    (events : List Event) (s : AppState) (session : SessionSnapshot)
    → s.session ≡ some session
    → is_live session.state ≡ false
    → NoStart events
    → (hear events s).session ≡ some session
unfolding hear
hear-over [] s session h over q = h
hear-over (event ∷ events) s session h over q =
    hear-over events (daemon_event event s).0 session (daemon_event-over event s session h over q.0)
      over q.1

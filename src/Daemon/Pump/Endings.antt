-- ===== src/Daemon/Pump/Endings.antt =====
-- crates/daemon/src/adapter/pump.rs, `end_once` of crates/daemon/src/state.rs: the announcements of a
-- session's end.
use lazydap.Prelude.{
  ℕ, ◌≡◌, refl, ap, ◌∙◌, arith, String, Option, none, some, Bool, true, false, List, [], ◌∷◌, ◌++◌,
  Bool-cases, inl, inr, length, length-append, ◌+◌, ℤ,
}
use lazydap.Core.Session.{EndReason, adapter_died, paused}
use lazydap.Core.Event.{Event, session_ended, output}
use lazydap.Daemon.EventBuffer.{push, SeqEvent}
use lazydap.Daemon.Session.{
  publish, Session, Published, end_once, set_debuggee, set_state, bump, emit, StartedProcess,
  Outstanding, set_last_thread_id, withdraw, set_exit_code,
}
use lazydap.Core.Reason.{PauseReason}
use lazydap.Daemon.Session.Breakpoints.{update_breakpoint}
use lazydap.Daemon.Pump.{
  StoppedBody, answered, DapEvent, handle_event, handle_all, handle_stop, handle_breakpoint, finish,
  output_event, process_event, stopped_event, breakpoint_event, thread_event, continued_event,
  exited_event, terminated_event, unhandled_event, end_reason,
}

-- The endings among broadcast events.
unfoldable pub endings : List SeqEvent → List EndReason
endings [] = []
endings (s ∷ rest) =
    let more = endings rest in elim s.event [ session_ended id reason ↦ reason ∷ more | _ ↦ more ]

endings-append : (xs ys : List SeqEvent) → endings (xs ++ ys) ≡ endings xs ++ endings ys
unfolding endings
endings-append [] ys = refl
endings-append (s ∷ xs) ys = ground (arith, endings-append xs ys)

-- How many endings a session has announced.
abbrev pub told : Bool → ℕ
told true = 1
told false = 0

-- The endings that a step announces are the change of the session's count.
Accounts : Session → Published → Type 0
Accounts s published = told s.ended + length (endings published.0) ≡ told published.1.ended

-- Broadcasting an event that is no ending, from a session that has announced as many.
publish-Accounts :
    (s s' : Session) (e : Event) (seq : ℕ)
    → endings (record { seq = seq; event = e } ∷ []) ≡ []
    → s'.ended ≡ s.ended
    → Accounts s (publish s' e)
unfolding Accounts endings emit push
publish-Accounts s s' e seq quiet same = rw quiet rw same (omega arith)

end_once-Accounts : (s : Session) (reason : EndReason) → Accounts s (end_once s reason).1
unfolding Accounts end_once endings set_state bump emit push
end_once-Accounts s reason = elim (Bool-cases s.ended) [
  | inl before ↦ rw before (omega arith)
  | inr not_yet ↦ rw not_yet (omega arith)
]

set_debuggee-ended : (s : Session) (said : StartedProcess) → (set_debuggee s said).ended ≡ s.ended
unfolding set_debuggee
set_debuggee-ended s said = ground arith

answered-ended :
    (s : Session) (reason : PauseReason) (outstanding : Outstanding)
    → (answered s reason outstanding).ended ≡ s.ended
unfolding answered withdraw
answered-ended s reason outstanding = ground arith

set_last_thread_id-ended :
    (s : Session) (thread : Option ℤ) → (set_last_thread_id s thread).ended ≡ s.ended
unfolding set_last_thread_id
set_last_thread_id-ended s none = refl
set_last_thread_id-ended s (some thread) = refl

handle_stop-Accounts : (s : Session) (body : StoppedBody) → Accounts s (handle_stop s body)
unfolding handle_stop endings set_state bump
handle_stop-Accounts s body = publish-Accounts s _ _ 0 refl (
    set_last_thread_id-ended (set_state (answered s _ s.outstanding.slots) paused) _
    ∙ answered-ended s _ s.outstanding.slots)

handle_event-Accounts : (s : Session) (event : DapEvent) → Accounts s (handle_event s event)
unfolding Accounts handle_event endings handle_breakpoint update_breakpoint set_state bump
    set_exit_code
handle_event-Accounts s (output_event none) = omega arith
handle_event-Accounts s (output_event (some chunk)) =
    publish-Accounts s s (output s.id chunk) 0 refl refl
handle_event-Accounts s (process_event none) = omega arith
handle_event-Accounts s (process_event (some said)) = rw (set_debuggee-ended s said) (omega arith)
handle_event-Accounts s (stopped_event body) = handle_stop-Accounts s body
handle_event-Accounts s (breakpoint_event body) = publish-Accounts s _ _ 0 refl refl
handle_event-Accounts s (thread_event none kind) = omega arith
handle_event-Accounts s (thread_event (some thread) kind) = publish-Accounts s s _ 0 refl refl
handle_event-Accounts s (continued_event thread all_continued) = publish-Accounts s _ _ 0 refl refl
handle_event-Accounts s (exited_event code) = omega arith
handle_event-Accounts s terminated_event = end_once-Accounts s (end_reason s.exit_code)
handle_event-Accounts s unhandled_event = omega arith

handle_all-Accounts : (s : Session) (events : List DapEvent) → Accounts s (handle_all s events)
unfolding Accounts handle_all endings
handle_all-Accounts s [] = omega arith
handle_all-Accounts s (event ∷ rest) = omega (
  arith,
  handle_event-Accounts s event,
  handle_all-Accounts (handle_event s event).1 rest,
  ap length (endings-append (handle_event s event).0 (handle_all (handle_event s event).1 rest).0),
  length-append (endings (handle_event s event).0)
      (endings (handle_all (handle_event s event).1 rest).0),
)

finish-ended : (s : Session) (detail : String) → (finish s detail).1.ended ≡ true
unfolding finish end_once emit set_state bump
finish-ended s detail = elim (Bool-cases s.ended) [
  | inl yes_ended ↦ rw yes_ended refl
  | inr not_ended ↦ rw not_ended refl
]

finish-Accounts : (s : Session) (detail : String) → Accounts s (finish s detail)
unfolding finish
finish-Accounts s detail = end_once-Accounts s (adapter_died detail)

-- A session that has not ended announces exactly one ending by the time its adapter's stream is over,
-- whatever the adapter sent.
pub ends_once :
    (s : Session) (events : List DapEvent) (detail : String)
    → s.ended ≡ false
    → length (endings ((handle_all s events).0 ++ (finish (handle_all s events).1 detail).0)) ≡ 1
unfolding Accounts
ends_once s events detail fresh = omega (
  arith,
  handle_all-Accounts s events,
  finish-Accounts (handle_all s events).1 detail,
  ap told (finish-ended (handle_all s events).1 detail),
  ap told fresh,
  ap length (endings-append (handle_all s events).0 (finish (handle_all s events).1 detail).0),
  length-append (endings (handle_all s events).0)
      (endings (finish (handle_all s events).1 detail).0),
)

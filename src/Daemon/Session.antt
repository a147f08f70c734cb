-- ===== src/Daemon/Session.antt =====
-- `Session` of crates/daemon/src/state.rs: what the daemon keeps of one debug session and how each
-- operation moves it. A field behind its own lock is a field here; an operation that holds a lock
-- to its end is one function.
pub mod Marking
pub mod Breakpoints
pub mod Statuses
pub mod Claims
pub mod Fence
use lazydap.Prelude.{
  ◌∷◌, ◌*◌, zero, [], ℕ, ◌+◌, ℤ, pos, Option, none, some, Bool, true, false, List, map,
  if◌then◌else◌, ite, ◌&&◌, ◌==◌, not, add_u64, unwrap_or,
}
use lazydap.Core.Session.{
  SessionId, AdapterKind, SessionState, running, paused, exited, terminated, adapter_died,
  EndReason, disconnected, is_live, is_paused, is_running, SessionState-discrete, OutputChunk,
}
use lazydap.Core.Breakpoint.{
  FilePath, Breakpoint, BreakpointId, AdapterBreakpoint, BreakpointStatus, unverified, apply,
}
use lazydap.Core.Inspect.{StackFrame}
use lazydap.Core.Event.{Event, session_ended}
use lazydap.Daemon.EventBuffer.{
  EventBuffer, SeqEvent, push, mark_delivered, undelivered, since, watermark, buffered_output,
  output_chunks, len,
}
use lazydap.Daemon.Handles.{HandleTable, HandleKind, frame, variables, Resolved}

-- `MarkerId`
abbrev pub MarkerId : Type 0
MarkerId = ℕ

pub record OutstandingStep : Type 0 where
  pub id : MarkerId
  pub thread_id : ℤ

pub record Outstanding : Type 0 where
  pub step : Option OutstandingStep
  pub pause : Option MarkerId

abbrev pub nothing_outstanding : Outstanding
nothing_outstanding = record { step = none; pause = none }

pub record Markers : Type 0 where
  pub slots : Outstanding
  pub next_id : ℕ

abbrev pub no_markers : Markers
no_markers = record { slots = nothing_outstanding; next_id = 0 }

-- `Markers::issue`: the marker, and the markers after it.
unfoldable pub issue : Markers → MarkerId × Markers
issue m = let id = add_u64 m.next_id 1 in (id, record m { next_id = id })

abbrev pub withdraw_step : MarkerId → Option OutstandingStep → Option OutstandingStep
withdraw_step id none = none
withdraw_step id (some step) = if step.id == id then none else some step

abbrev pub withdraw_pause : MarkerId → Option MarkerId → Option MarkerId
withdraw_pause id none = none
withdraw_pause id (some pause) = if pause == id then none else some pause

-- `Markers::withdraw`
unfoldable pub withdraw_marker : Markers → MarkerId → Markers
withdraw_marker m id = record m {
  slots = record { step = withdraw_step id m.slots.step; pause = withdraw_pause id m.slots.pause };
}

pub record Debuggee : Type 0 where
  pub pid : ℕ
  pub program : FilePath

-- `StartedProcess` of crates/daemon/src/adapter/handshake.rs
pub record StartedProcess : Type 0 where
  pub pid : ℕ
  pub program : Option FilePath

-- `BreakpointMap`: what the adapter last said of each of our breakpoints.
abbrev pub BreakpointMap : Type 0
BreakpointMap = List (BreakpointId × AdapterBreakpoint)

pub record Session : Type 0 where
  pub id : SessionId
  pub adapter_kind : AdapterKind
  pub program : FilePath
  pub state : SessionState
  pub stop_generation : ℕ
  pub exit_code : Option ℤ
  pub ended : Bool
  pub events : EventBuffer
  pub last_thread_id : Option ℤ
  pub outstanding : Markers
  pub breakpoints : BreakpointMap
  pub handles : HandleTable
  pub debuggee : Option Debuggee
  pub client_teardown : Bool

abbrev pub event_channel_capacity : ℕ
event_channel_capacity = 1024

abbrev pub event_buffer_capacity : ℕ
event_buffer_capacity = event_channel_capacity * 4

unfoldable pub start : SessionId → AdapterKind → FilePath → SessionState → ℕ → Session
start id adapter_kind program state sequence = record {
  id = id;
  adapter_kind = adapter_kind;
  program = program;
  state = state;
  stop_generation = 0;
  exit_code = none;
  ended = false;
  events = lazydap.Daemon.EventBuffer.new event_buffer_capacity;
  last_thread_id = none;
  outstanding = no_markers;
  breakpoints = [];
  handles = lazydap.Daemon.Handles.new sequence;
  debuggee = none;
  client_teardown = false;
}

unfoldable pub set_last_thread_id : Session → Option ℤ → Session
set_last_thread_id s none = s
set_last_thread_id s (some thread) = record s { last_thread_id = some thread }

unfoldable pub expect_step : Session → ℤ → MarkerId × Session
unfolding issue
expect_step s thread =
    let (id, m) = issue s.outstanding in
    let slots' = record m.slots { step = some (record { id = id; thread_id = thread }) } in
    (id, record s { outstanding = record m { slots = slots' } })

unfoldable pub expect_pause : Session → MarkerId × Session
unfolding issue
expect_pause s =
    let (id, m) = issue s.outstanding in
    (id, record s { outstanding = record m { slots = record m.slots { pause = some id } } })

unfoldable pub expect_nothing : Session → Session
expect_nothing s = record s { outstanding = record s.outstanding { slots = nothing_outstanding } }

unfoldable pub withdraw : Session → MarkerId → Session
unfolding withdraw_marker
withdraw s id = record s { outstanding = withdraw_marker s.outstanding id }

unfoldable pub set_debuggee : Session → StartedProcess → Session
set_debuggee s started = elim s.debuggee [
  | some held ↦ s
  | none ↦ record s {
    debuggee = some (record { pid = started.pid; program = unwrap_or started.program s.program });
  }
]

unfoldable pub release_debuggee : Session → Option Debuggee × Session
release_debuggee s = (s.debuggee, record s { debuggee = none })

unfoldable pub begin_client_teardown : Session → Session
begin_client_teardown s = record s { client_teardown = true }

-- `bump_stop_generation`
unfoldable pub bump : Session → Session
bump s = record s { stop_generation = add_u64 s.stop_generation 1 }

unfoldable pub set_state : Session → SessionState → Session
unfolding bump
set_state s state = bump (record s { state = state })

-- `mint_frame` and the rest take the daemon's handle counter and answer what it is afterwards.
unfoldable pub mint_frame_id : ℕ → Session → ℕ → ℤ → ℤ × ℕ × Session
mint_frame_id sequence s fence adapter =
    let (handle, sequence', t) =
      lazydap.Daemon.Handles.mint sequence s.handles fence frame adapter in
    (handle, sequence', record s { handles = t })

unfoldable pub mint_frame : ℕ → Session → ℕ → StackFrame → StackFrame × ℕ × Session
unfolding mint_frame_id
mint_frame sequence s fence f =
    let (handle, sequence', s') = mint_frame_id sequence s fence f.id in
    (record f { id = handle }, sequence', s')

unfoldable pub mint_variables_reference : ℕ → Session → ℕ → ℤ → ℤ × ℕ × Session
mint_variables_reference sequence s fence (pos zero) = (pos 0, sequence, s)
mint_variables_reference sequence s fence adapter =
    let (handle, sequence', t) =
      lazydap.Daemon.Handles.mint sequence s.handles fence variables adapter in
    (handle, sequence', record s { handles = t })

unfoldable pub resolve_handle : ℕ → Session → ℕ → HandleKind → ℤ → Resolved × Session
resolve_handle sequence s fence kind handle =
    let (answer, t) = lazydap.Daemon.Handles.resolve sequence s.handles fence kind handle in
    (answer, record s { handles = t })

unfoldable pub still_at : Session → ℕ → Bool
still_at s fence = is_paused s.state && s.stop_generation == fence

pub data RunClaim : Type 0 where
  ask : SessionState → RunClaim
  already_running : RunClaim
  finished : SessionState → RunClaim

unfoldable pub claim_run : Session → Bool → RunClaim × Session
unfolding bump
claim_run s resume_only =
    if not (is_live s.state)
    then (finished s.state, s)
    else if resume_only && is_running s.state
    then (already_running, s)
    else (ask s.state, bump (record s { state = running }))

-- `restore_state(expected, previous)`
unfoldable pub restore_state : Session → SessionState → SessionState → Bool × Session
unfolding set_state
restore_state s expected previous =
    ite (SessionState-discrete s.state expected) (true, set_state s previous) (false, s)

unfoldable pub set_exit_code : Session → Option ℤ → Session
set_exit_code s code = record s { exit_code = code }

-- The event goes to the history and, as a value, to whoever subscribes.
unfoldable pub emit : Session → Event → SeqEvent × Session
emit s event = let (b, sequenced) = push s.events event in (sequenced, record s { events = b })

unfoldable pub session_mark_delivered : Session → ℕ → Session
session_mark_delivered s seq = record s { events = mark_delivered s.events seq }

abbrev pub state_after : EndReason → SessionState
state_after (exited code) = exited
state_after (adapter_died detail) = adapter_died
state_after disconnected = terminated
state_after terminated = terminated

-- The session afterwards, and what was broadcast.
abbrev pub Published : Type 0
Published = List SeqEvent × Session

abbrev pub publish : Session → Event → Published
publish s event = let (sequenced, s') = emit s event in (sequenced ∷ [], s')

unfoldable pub end_once : Session → EndReason → Bool × Published
unfolding set_state
end_once s reason = if s.ended then (false, ([], s)) else (
  true,
  publish (set_state (record s { ended = true }) (state_after reason)) (session_ended s.id reason),
)

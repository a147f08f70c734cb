-- ===== src/Core/Event.antt =====
-- crates/protocol/src/types.rs: the events that the daemon broadcasts, and the answer of a wait.
use lazydap.Prelude.{ℕ, ℤ, String, Option, none, some, Bool, false, List, []}
use lazydap.Core.Session.{SessionId, AdapterKind, OutputChunk, EndReason, WaitOutcome}
use lazydap.Core.Reason.{PauseReason}
use lazydap.Core.Breakpoint.{AdapterBreakpoint, BreakpointId}
use lazydap.Core.Watch.{WatchId}
use lazydap.Core.Inspect.{StackFrame, ThreadUpdate, Variable}

-- The fields of `Event::Stopped` behind its session.
pub record Stop : Type 0 where
  pub thread_id : Option ℤ
  pub adapter_thread_id : Option ℤ
  pub reason : PauseReason
  pub raw_reason : Option String
  pub all_threads_stopped : Bool
  pub hit_breakpoint_ids : List BreakpointId

pub data Event : Type 0 where
  session_started : SessionId → AdapterKind → Event
  session_ended : SessionId → EndReason → Event
  stopped : SessionId → Stop → Event
  continued : SessionId → Option ℤ → Bool → Event
  output : SessionId → OutputChunk → Event
  breakpoint_updated : Option SessionId → AdapterBreakpoint → Event
  thread_changed : SessionId → ThreadUpdate → Event
  watch_updated : WatchId → Event

-- `Event::session_id`
unfoldable pub session_of : Event → Option SessionId
session_of (session_started id adapter) = some id
session_of (session_ended id reason) = some id
session_of (stopped id stop) = some id
session_of (continued id thread all) = some id
session_of (output id chunk) = some id
session_of (thread_changed id update) = some id
session_of (breakpoint_updated id breakpoint) = id
session_of (watch_updated watch) = none

pub record FrameLocals : Type 0 where
  pub frame_id : ℤ
  pub variables_reference : ℤ
  pub variables : List Variable
  pub truncated : Bool

pub record StableState : Type 0 where
  pub state : WaitOutcome
  pub reason : Option PauseReason
  pub raw_reason : Option String
  pub thread_id : Option ℤ
  pub adapter_thread_id : Option ℤ
  pub all_threads_stopped : Bool
  pub additional_stopped_threads : List ℤ
  pub hit_breakpoint_ids : List BreakpointId
  pub exit_code : Option ℤ
  pub frame : Option StackFrame
  pub user_frame : Option StackFrame
  pub locals : Option FrameLocals
  pub captured_output : List OutputChunk
  pub output_truncated : Bool
  pub dropped_events : ℕ
  pub breakpoint_updates : List AdapterBreakpoint
  pub thread_updates : List ThreadUpdate
  pub elapsed_ms : ℕ

-- `StableState::new`
abbrev pub new_blob : WaitOutcome → StableState
new_blob state = record {
  state = state;
  reason = none;
  raw_reason = none;
  thread_id = none;
  adapter_thread_id = none;
  all_threads_stopped = false;
  additional_stopped_threads = [];
  hit_breakpoint_ids = [];
  exit_code = none;
  frame = none;
  user_frame = none;
  locals = none;
  captured_output = [];
  output_truncated = false;
  dropped_events = 0;
  breakpoint_updates = [];
  thread_updates = [];
  elapsed_ms = 0;
}

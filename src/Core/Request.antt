-- ===== src/Core/Request.antt =====
-- crates/protocol/src/types.rs: the requests that the terminal interface sends, and what it reads of
-- the answers. The constructors that it neither sends nor reads are left out; the answers among
-- them are one, `not_read`.
use lazydap.Prelude.{ℕ, ℤ, String, Option, Bool, List}
use lazydap.Core.Session.{SessionId, SessionState}
use lazydap.Core.Breakpoint.{BreakpointId, BreakpointStatus, NewBreakpoint}
use lazydap.Core.Watch.{Watch, WatchId, NewWatch}
use lazydap.Core.Selector.{BreakpointSelector, WatchSelector}
use lazydap.Core.Inspect.{
  StackFrame, Scope, Variable, StepKind, EvalResult, EvalContext, VariableFilter,
}

pub data WaitMode : Type 0 where
  no_wait : WaitMode
  -- a timeout in milliseconds, a `u32`
  wait : Option ℕ → WaitMode

pub data EventKind : Type 0 where
  session_started session_ended stopped continued : EventKind
  output breakpoint_updated thread_changed watch_updated : EventKind

pub data Request : Type 0 where
  -- the session, its thread, the wait, and whether all threads continue
  continue : SessionId → Option ℤ → WaitMode → Bool → Request
  step : SessionId → Option ℤ → StepKind → WaitMode → Request
  -- the session, its thread, the first frame and the number of frames
  stack_trace : SessionId → Option ℤ → Option ℕ → Option ℕ → Request
  -- the session and the frame
  scopes : SessionId → Option ℤ → Request
  -- the session, the reference, the filter, the start, the count and the cap
  variables : SessionId → ℤ → VariableFilter → Option ℕ → Option ℕ → Option ℕ → Request
  -- the session, the expression, the frame and the context
  eval : SessionId → String → Option ℤ → EvalContext → Request
  breakpoint_list : Request
  -- the last field of each of the next four says whether it is a dry run
  breakpoint_add : NewBreakpoint → Bool → Request
  breakpoint_remove : BreakpointSelector → Bool → Request
  watch_list : Request
  watch_add : NewWatch → Bool → Request
  watch_remove : WatchSelector → Bool → Request
  subscribe : List EventKind → Request

pub data BreakpointAction : Type 0 where
  listed added updated unchanged removed toggled : BreakpointAction

pub record BreakpointReport : Type 0 where
  pub action : BreakpointAction
  pub dry_run : Bool
  pub breakpoints : List BreakpointStatus
  pub not_found : List BreakpointId
  pub applied_to_session : Bool

pub data WatchAction : Type 0 where
  listed added removed : WatchAction

pub record WatchReport : Type 0 where
  pub action : WatchAction
  pub dry_run : Bool
  pub watches : List Watch
  pub not_found : List WatchId

pub record SessionSummary : Type 0 where
  pub session_id : SessionId
  pub state : SessionState

pub data Response : Type 0 where
  -- the session of the report, if it has one
  status : Option SessionSummary → Response
  stack_trace : List StackFrame → Response
  scopes : List Scope → Response
  variables : List Variable → Response
  evaluated : EvalResult → Response
  breakpoints : BreakpointReport → Response
  watches : WatchReport → Response
  not_read : Response

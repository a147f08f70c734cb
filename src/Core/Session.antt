-- ===== src/Core/Session.antt =====
-- crates/core/src/session.rs: the lifecycle of a session, the output it captures and how it ends;
-- `WaitOutcome` of crates/core/src/inspect.rs.
use lazydap.Prelude.{ℕ, ℤ, String, Option, Bool, true, false}

-- A UUID is compared and never computed with.
abbrev pub SessionId : Type 0
SessionId = ℕ

pub data AdapterKind : Type 0 where
  codelldb debugpy delve : AdapterKind

pub data SessionState : Type 0 where
  initialising running paused exited terminated adapter_died : SessionState

pub SessionState-discrete : Discrete SessionState
SessionState-discrete = hlevel

abbrev pub is_paused : SessionState → Bool
is_paused paused = true
is_paused _ = false

abbrev pub is_running : SessionState → Bool
is_running running = true
is_running _ = false

unfoldable pub is_stable : SessionState → Bool
is_stable paused = true
is_stable exited = true
is_stable terminated = true
is_stable adapter_died = true
is_stable _ = false

unfoldable pub is_live : SessionState → Bool
is_live initialising = true
is_live running = true
is_live paused = true
is_live _ = false

pub data OutputCategory : Type 0 where
  stdout stderr console telemetry : OutputCategory
  other : String → OutputCategory

pub record OutputChunk : Type 0 where
  pub category : OutputCategory
  pub output : String
  pub timestamp_ms : ℕ

pub data EndReason : Type 0 where
  disconnected : EndReason
  exited : Option ℤ → EndReason
  terminated : EndReason
  adapter_died : String → EndReason

pub data WaitOutcome : Type 0 where
  paused exited terminated timeout adapter_died : WaitOutcome

-- `WaitOutcome::is_live`
unfoldable pub outcome_is_live : WaitOutcome → Bool
outcome_is_live paused = true
outcome_is_live timeout = true
outcome_is_live _ = false

-- ===== src/Core/Breakpoint.antt =====
-- crates/core/src/breakpoint.rs: breakpoints as the project keeps them, and what the adapter says
-- of them. A `PathBuf` is its components, which is what the standard library compares.
use lazydap.Prelude.{
  arith, ℕ, ◌≡◌, ℤ, String, Option, none, some, Bool, false, List, if◌then◌else◌, ◌==◌, unwrap_or,
  is_some, String_discrete, ℕ_discrete,
}

pub record FilePath : Type 0 where
  pub is_absolute : Bool
  pub components : List String

pub FilePath-discrete : Discrete FilePath
FilePath-discrete = hlevel String_discrete

-- a `u32`
abbrev pub BreakpointId : Type 0
BreakpointId = ℕ

pub record Breakpoint : Type 0 where
  pub id : BreakpointId
  pub source : FilePath
  pub line : ℕ
  pub column : Option ℕ
  pub condition : Option String
  pub hit_condition : Option String
  pub log_message : Option String
  pub enabled : Bool

pub Breakpoint-discrete : Discrete Breakpoint
Breakpoint-discrete = hlevel (ℕ_discrete, String_discrete, FilePath-discrete)

pub record AdapterBreakpoint : Type 0 where
  pub id : Option BreakpointId
  pub adapter_id : Option ℤ
  pub verified : Bool
  pub line : Option ℕ
  pub message : Option String

unfoldable pub without_settled_message : AdapterBreakpoint → AdapterBreakpoint
without_settled_message b = if b.verified then record b { message = none } else b

pub record BreakpointStatus : Type 0 where
  pub breakpoint : Breakpoint
  pub verified : Bool
  pub adapter_line : Option ℕ
  pub message : Option String

unfoldable pub unverified : Breakpoint → BreakpointStatus
unverified b = record { breakpoint = b; verified = false; adapter_line = none; message = none }

-- `Option::filter(|line| *line != n)`
abbrev pub moved_from : ℕ → Option ℕ → Option ℕ
moved_from n none = none
moved_from n (some line) = if line == n then none else some line

-- `BreakpointStatus::apply`
unfoldable pub apply : BreakpointStatus → AdapterBreakpoint → BreakpointStatus
apply status update = record status {
  verified = update.verified;
  adapter_line = moved_from status.breakpoint.line update.line;
  message = if is_some update.message then update.message else status.message;
}

unfoldable pub effective_line : BreakpointStatus → ℕ
effective_line status = unwrap_or status.adapter_line status.breakpoint.line

pub record NewBreakpoint : Type 0 where
  pub source : FilePath
  pub line : ℕ
  pub column : Option ℕ
  pub condition : Option String
  pub hit_condition : Option String
  pub log_message : Option String
  pub enabled : Bool

-- The debugger stops where the adapter says that it put the breakpoint, and on the line that was
-- asked for if the adapter says nothing.
pub effective_line-apply :
    (b : Breakpoint) (update : AdapterBreakpoint)
    → effective_line (apply (unverified b) update) ≡ unwrap_or update.line b.line
unfolding effective_line apply unverified
effective_line-apply b update = ground arith

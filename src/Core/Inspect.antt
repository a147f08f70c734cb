-- ===== src/Core/Inspect.antt =====
-- crates/core/src/inspect.rs: what a paused program looks like, as clients are shown it.
use lazydap.Prelude.{ℕ, ℤ, String, Option, Bool}
use lazydap.Core.Breakpoint.{FilePath}

pub record SourceRef : Type 0 where
  pub name : Option String
  pub path : Option FilePath
  pub source_reference : Option ℤ

pub record StackFrame : Type 0 where
  pub id : ℤ
  pub name : String
  pub source : Option SourceRef
  pub line : ℕ
  pub column : ℕ

pub record Scope : Type 0 where
  pub name : String
  pub variables_reference : ℤ
  pub expensive : Bool
  pub named_variables : Option ℕ
  pub indexed_variables : Option ℕ

pub record Variable : Type 0 where
  pub name : String
  pub value : String
  pub type_name : Option String
  pub evaluate_name : Option String
  pub variables_reference : ℤ
  pub named_variables : Option ℕ
  pub indexed_variables : Option ℕ

pub data ThreadUpdateKind : Type 0 where
  started exited : ThreadUpdateKind

pub record ThreadUpdate : Type 0 where
  pub thread_id : ℤ
  pub kind : ThreadUpdateKind
  pub name : Option String

pub data StepKind : Type 0 where
  over into out : StepKind

pub record EvalResult : Type 0 where
  pub value : String
  pub type_name : Option String
  pub variables_reference : ℤ

pub data EvalContext : Type 0 where
  watch repl hover : EvalContext

pub data VariableFilter : Type 0 where
  all named indexed : VariableFilter

-- ===== src/Core/Launch.antt =====
-- crates/core/src/launch.rs: a launch configuration, and whether it can be run.
use lazydap.Prelude.{Option, none, some, Bool, List, [], ◌∷◌}
use lazydap.Core.Session.{AdapterKind}
use lazydap.Core.Breakpoint.{FilePath}

pub data LaunchKind : Type 0 where
  launch attach : LaunchKind

pub data LaunchConfigSource : Type 0 where
  project_state vs_code_launch_json : LaunchConfigSource

-- The texts are of any type, and so are the problems that a configuration is blocked by.
module _ (Text Problem : Type 0) where
  pub data NotRunnable : Type 0 where
    unsupported_adapter : Text → NotRunnable
    attach_not_supported no_program : NotRunnable
    unresolved_variables : List Text → NotRunnable
    bad_arguments delve_mode : Problem → NotRunnable

  pub record LaunchConfig : Type 0 where
    pub name : Text
    pub adapter : Option AdapterKind
    pub adapter_type : Text
    pub kind : LaunchKind
    pub program : Option FilePath
    pub args : List Text
    pub cwd : Option FilePath
    pub env : List (Text × Text)
    pub stop_on_entry : Bool
    pub adapter_command : Option FilePath
    pub source : LaunchConfigSource
    pub unresolved : List Text
    pub blocked : Option NotRunnable

  pub data Runnable : Type 0 where
    ok : FilePath → Runnable
    err : NotRunnable → Runnable

  unfoldable pub of_program : Option FilePath → Runnable
  of_program none = err no_program
  of_program (some program) = ok program

  unfoldable pub of_unresolved : LaunchConfig → Runnable
  unfolding of_program
  of_unresolved c = elim c.unresolved [
    | [] ↦ of_program c.program
    | token ∷ tokens ↦ err (unresolved_variables (token ∷ tokens))
  ]

  unfoldable pub of_kind : LaunchConfig → Runnable
  unfolding of_unresolved
  of_kind c = elim c.kind [ attach ↦ err attach_not_supported | launch ↦ of_unresolved c ]

  unfoldable pub of_adapter : LaunchConfig → Runnable
  unfolding of_kind
  of_adapter c = elim c.adapter [
    | none ↦ err (unsupported_adapter c.adapter_type)
    | some adapter ↦ of_kind c
  ]

  -- `LaunchConfig::runnable_program`
  unfoldable pub runnable_program : LaunchConfig → Runnable
  unfolding of_adapter
  runnable_program c = elim c.blocked [ some blocked ↦ err blocked | none ↦ of_adapter c ]

  -- `Result::err`
  abbrev pub error_of : Runnable → Option NotRunnable
  error_of (ok program) = none
  error_of (err reason) = some reason

  unfoldable pub not_runnable : LaunchConfig → Option NotRunnable
  unfolding runnable_program
  not_runnable c = error_of (runnable_program c)

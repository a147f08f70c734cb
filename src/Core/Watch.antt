-- ===== src/Core/Watch.antt =====
-- crates/core/src/watch.rs: watch expressions as the project keeps them.
use lazydap.Prelude.{ℕ, String, Option, unwrap_or}
use lazydap.Core.Inspect.{EvalResult}

-- a `u32`
abbrev pub WatchId : Type 0
WatchId = ℕ

pub record Watch : Type 0 where
  pub id : WatchId
  pub expression : String
  pub label : Option String

unfoldable pub display_name : Watch → String
display_name w = unwrap_or w.label w.expression

pub record NewWatch : Type 0 where
  pub expression : String
  pub label : Option String

pub data WatchValue : Type 0 where
  value : EvalResult → WatchValue
  error : String → WatchValue

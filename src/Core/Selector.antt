-- ===== src/Core/Selector.antt =====
-- crates/core/src/selector.rs and `WatchSelector` of crates/core/src/watch.rs: which breakpoints
-- and watches a command is about.
use lazydap.Prelude.{
  ℕ, String, Bool, true, false, List, ite, ◌==◌, ◌&&◌, contains, filter, ℕ_discrete,
  String_discrete,
}
use lazydap.Core.Breakpoint.{FilePath, FilePath-discrete, Breakpoint, BreakpointId}
use lazydap.Core.Watch.{Watch, WatchId}

pub data BreakpointSelector : Type 0 where
  ids : List BreakpointId → BreakpointSelector
  location : FilePath → ℕ → BreakpointSelector
  source : FilePath → BreakpointSelector
  all : BreakpointSelector

abbrev pub same_path : FilePath → FilePath → Bool
same_path a b = ite (FilePath-discrete a b) true false

unfoldable pub matches : BreakpointSelector → Breakpoint → Bool
matches (ids wanted) b = contains ℕ_discrete wanted b.id
matches (location path line) b = same_path b.source path && b.line == line
matches (source path) b = same_path b.source path
matches all b = true

unfoldable pub pick : BreakpointSelector → List Breakpoint → List Breakpoint
unfolding matches
pick selector = filter (matches selector)

pub data WatchSelector : Type 0 where
  ids : List WatchId → WatchSelector
  expression : String → WatchSelector
  all : WatchSelector

-- `WatchSelector::matches`
unfoldable pub watch_matches : WatchSelector → Watch → Bool
watch_matches (ids wanted) w = contains ℕ_discrete wanted w.id
watch_matches (expression text) w = ite (String_discrete w.expression text) true false
watch_matches all w = true

-- `WatchSelector::pick`
unfoldable pub pick_watches : WatchSelector → List Watch → List Watch
unfolding watch_matches
pick_watches selector = filter (watch_matches selector)

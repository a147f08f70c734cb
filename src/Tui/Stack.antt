-- ===== src/Tui/Stack.antt =====
-- crates/tui/src/panes/stack.rs: the frames of the stopped thread and the selected one. The drawing
-- is what it changes of the pane, the height and the scrolling, and the frames that it draws.
use lazydap.Prelude.{
  ℕ, ◌-◌, ℤ, Option, Bool, true, false, not, List, [], ◌&&◌, ◌==◌, if◌then◌else◌, length, take,
  drop, first,
}
use lazydap.Core.Inspect.{StackFrame}
use lazydap.Tui.Viewport.{moved_by, scroll}

pub record StackView : Type 0 where
  pub frames : List StackFrame
  pub selected : ℕ
  pub stale : Bool
  pub viewport_height : ℕ
  pub top : ℕ

-- `StackView::default()`
abbrev pub empty_view : StackView
empty_view = record { frames = []; selected = 0; stale = false; viewport_height = 0; top = 0 }

unfoldable pub replace : List StackFrame → StackView → StackView
replace frames v = record v { frames = frames; selected = 0; top = 0; stale = false }

unfoldable pub invalidate : StackView → StackView
invalidate v = record v { stale = true }

unfoldable pub is_actionable : StackView → Bool
is_actionable v = not v.stale && not (length v.frames == 0)

unfoldable pub clear : StackView → StackView
unfolding replace
clear v = replace [] v

unfoldable pub selected_frame : StackView → Option StackFrame
selected_frame v = first (drop v.selected v.frames)

unfoldable pub scroll_to_selection : StackView → StackView
unfolding scroll
scroll_to_selection v = record v { top = scroll v.selected v.top v.viewport_height }

unfoldable pub move_selection : ℤ → StackView → StackView
unfolding moved_by scroll_to_selection
move_selection delta v =
    if length v.frames == 0
    then v
    else scroll_to_selection
        (record v { selected = moved_by v.selected delta 0 (length v.frames - 1) })

-- The drawing at a height: the pane after it, and the frames that are drawn.
unfoldable pub render : ℕ → StackView → List StackFrame × StackView
unfolding scroll_to_selection
render height v =
    let w = scroll_to_selection (record v { viewport_height = height }) in
    (take height (drop w.top w.frames), w)

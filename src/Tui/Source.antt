-- ===== src/Tui/Source.antt =====
-- crates/tui/src/panes/source.rs: the file that is shown, the cursor, and the line that the program
-- is stopped at. Lines are `u32`. The drawing is what it changes of the pane, and the numbers and
-- the texts of the lines that it draws.
pub mod Cursor
use Prim.Native.Char.{Char, code}
use Prim.Native.String.{String}
use lazydap.Prelude.{
  ◌%◌, u32_mod, ℕ, ◌+◌, ◌-◌, ◌/◌, max, ℤ, Option, none, some, Bool, false, List, [], ◌∷◌, ◌&&◌,
  ◌||◌, ◌==◌, if◌then◌else◌, length, take, drop, find, filter,
}
use lazydap.Core.Breakpoint.{FilePath, BreakpointStatus, effective_line}
use lazydap.Core.Selector.{same_path}
use lazydap.Tui.Viewport.{clamp, moved_by, scroll}

pub record SourceView : Type 0 where
  pub path : FilePath
  pub opened_as : Option FilePath
  pub lines : List String
  pub cursor_line : ℕ
  pub top_line : ℕ
  pub viewport_height : ℕ
  pub marker_line : Option ℕ

abbrev front : Char → List String → List String
front c [] = String.◌∷◌ c String.[] ∷ []
front c (l ∷ ls) = String.◌∷◌ c l ∷ ls

abbrev starts_line_feed : String → Bool
starts_line_feed String.[] = false
starts_line_feed (String.◌∷◌ c s) = code c == 10

-- `str::lines`: a line ends with a line feed, or with a carriage return and one, or with the text.
unfoldable pub lines_of : String → List String
lines_of String.[] = []
lines_of (String.◌∷◌ c s) =
    let rest = lines_of s in
    if code c == 10
    then "" ∷ rest
    else if code c == 13 && starts_line_feed s
    then rest
    else front c rest

unfoldable pub from_contents : FilePath → String → SourceView
unfolding lines_of
from_contents path contents = record {
  path = path;
  opened_as = none;
  lines = lines_of contents;
  cursor_line = 1;
  top_line = 1;
  viewport_height = 0;
  marker_line = none;
}

-- `SourceView::opened_as`
unfoldable pub opened : FilePath → SourceView → SourceView
opened requested v =
    if same_path requested v.path then v else record v { opened_as = some requested }

abbrev is_path : FilePath → Option FilePath → Bool
is_path path none = false
is_path path (some other) = same_path other path

unfoldable pub shows : FilePath → SourceView → Bool
shows path v = same_path v.path path || is_path path v.opened_as

-- `as u32` keeps the low 32 bits of the length.
unfoldable pub line_count : SourceView → ℕ
line_count v = max (length v.lines % u32_mod) 1

unfoldable pub scroll_to_cursor : SourceView → SourceView
unfolding scroll
scroll_to_cursor v = record v { top_line = scroll v.cursor_line v.top_line v.viewport_height }

unfoldable pub go_to_line : ℕ → SourceView → SourceView
unfolding line_count scroll_to_cursor
go_to_line line v = scroll_to_cursor (record v { cursor_line = clamp line 1 (line_count v) })

unfoldable pub set_marker : ℕ → SourceView → SourceView
unfolding go_to_line line_count
set_marker line v = go_to_line line (record v { marker_line = some (clamp line 1 (line_count v)) })

unfoldable pub clear_marker : SourceView → SourceView
clear_marker v = record v { marker_line = none }

unfoldable pub move_cursor : ℤ → SourceView → SourceView
unfolding go_to_line line_count moved_by
move_cursor delta v = go_to_line (moved_by v.cursor_line delta 1 (line_count v)) v

unfoldable pub go_to_top : SourceView → SourceView
unfolding go_to_line
go_to_top v = go_to_line 1 v

unfoldable pub go_to_bottom : SourceView → SourceView
unfolding go_to_line line_count
go_to_bottom v = go_to_line (line_count v) v

unfoldable pub half_page : SourceView → ℕ
half_page v = max (v.viewport_height / 2) 1

-- What a line of the pane shows: the breakpoint on it, whether the program is stopped at it, its
-- number and its text.
pub record Row : Type 0 where
  pub sign : Option BreakpointStatus
  pub is_marker : Bool
  pub number : ℕ
  pub content : String

abbrev is_line : ℕ → Option ℕ → Bool
is_line n none = false
is_line n (some m) = m == n

unfoldable pub line : SourceView → List BreakpointStatus → ℕ → String → Row
unfolding effective_line
line v mine number content = record {
  sign = find (λ (status : BreakpointStatus). effective_line status == number) mine;
  is_marker = is_line number v.marker_line;
  number = number;
  content = content;
}

-- `iter().enumerate()` from a number on, and the map of `line`
unfoldable pub numbered : SourceView → List BreakpointStatus → ℕ → List String → List Row
unfolding line
numbered v mine n [] = []
numbered v mine n (l ∷ ls) = line v mine n l ∷ numbered v mine (n + 1) ls

-- The drawing at a height: the pane after it, and its rows.
unfoldable pub render : ℕ → List BreakpointStatus → SourceView → List Row × SourceView
unfolding scroll_to_cursor numbered
render height breakpoints v =
    let w = scroll_to_cursor (record v { viewport_height = height }) in
    let mine =
      filter (λ (status : BreakpointStatus). same_path status.breakpoint.source w.path)
        breakpoints in
    (take height (numbered w mine (w.top_line - 1 + 1) (drop (w.top_line - 1) w.lines)), w)

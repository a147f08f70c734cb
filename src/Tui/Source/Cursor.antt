-- ===== src/Tui/Source/Cursor.antt =====
-- Where the cursor of the source pane can be, and what a drawing shows of it.
use lazydap.Prelude.{
  arith, ℕ, zero, suc, ◌+◌, ◌-◌, ◌≤◌, ◌<◌, ◌≡◌, refl, max, ℤ, Option, none, some, List, [], ◌∷◌, ap,
  sym, ◌∙◌, filter, drop-drop, length, length-drop, take, drop, first, String,
}
use lazydap.Core.Breakpoint.{FilePath, BreakpointStatus}
use lazydap.Tui.Source.{
  SourceView, Row, from_contents, line_count, scroll_to_cursor, go_to_line, set_marker,
  clear_marker, move_cursor, go_to_top, go_to_bottom, line, numbered, render,
}
use lazydap.Core.Selector.{same_path}
use lazydap.Tui.Viewport.{clamp, scroll, scroll-within}

-- What the interface does to a file that is shown.
pub data Operation : Type 0 where
  stop_at : ℕ → Operation
  move_on : Operation
  move : ℤ → Operation
  go_to : ℕ → Operation
  top bottom : Operation
  -- a drawing at a height, with the breakpoints
  draw : ℕ → List BreakpointStatus → Operation

unfoldable pub operate : Operation → SourceView → SourceView
unfolding set_marker clear_marker move_cursor go_to_line go_to_top go_to_bottom render
operate (stop_at line) v = set_marker line v
operate move_on v = clear_marker v
operate (move delta) v = move_cursor delta v
operate (go_to line) v = go_to_line line v
operate top v = go_to_top v
operate bottom v = go_to_bottom v
operate (draw height breakpoints) v = (render height breakpoints v).1

unfoldable pub operate_all : List Operation → SourceView → SourceView
unfolding operate
operate_all [] v = v
operate_all (op ∷ ops) v = operate_all ops (operate op v)

abbrev pub IsLine : ℕ → Option ℕ → Type 0
IsLine count none = Unit
IsLine count (some n) = (1 ≤ n) × (n ≤ count)

-- The cursor and the marker are on lines of the file, and the first line that is drawn is one.
pub record IsPlaced (v : SourceView) : Type 0 where
  pub cursor_from : 1 ≤ v.cursor_line
  pub cursor_to : v.cursor_line ≤ max (length v.lines) 1
  pub marker : IsLine (max (length v.lines) 1) v.marker_line
  pub drawn_from : 1 ≤ v.top_line

scroll-from : (row at height : ℕ) → 1 ≤ row → 1 ≤ at → 1 ≤ scroll row at height
unfolding scroll
scroll-from row at height h g = ground arith

clamp-within : (n high : ℕ) → 1 ≤ high → (1 ≤ clamp n 1 high) × (clamp n 1 high ≤ high)
clamp-within n high h = (ground arith, ground arith)

line_count-within : (v : SourceView) → (1 ≤ line_count v) × (line_count v ≤ max (length v.lines) 1)
unfolding line_count
line_count-within v = (omega arith, omega arith)

go_to_line-IsPlaced : (n : ℕ) (v : SourceView) → IsPlaced v → IsPlaced (go_to_line n v)
unfolding go_to_line scroll_to_cursor
go_to_line-IsPlaced n v h =
    let (from, to) = clamp-within n (line_count v) (line_count-within v).0 in
    record {
      cursor_from = from;
      cursor_to = omega (arith, to, (line_count-within v).1);
      marker = h.marker;
      drawn_from = scroll-from _ v.top_line v.viewport_height from h.drawn_from;
    }

operate-IsPlaced : (op : Operation) (v : SourceView) → IsPlaced v → IsPlaced (operate op v)
unfolding operate set_marker clear_marker move_cursor go_to_top go_to_bottom render scroll_to_cursor
operate-IsPlaced (stop_at n) v h =
    let (from, to) = clamp-within n (line_count v) (line_count-within v).0 in
    go_to_line-IsPlaced n (record v { marker_line = some (clamp n 1 (line_count v)) })
      (record {
        cursor_from = h.cursor_from;
        cursor_to = h.cursor_to;
        marker = (from, omega (arith, to, (line_count-within v).1));
        drawn_from = h.drawn_from;
      })
operate-IsPlaced move_on v h = record {
  cursor_from = h.cursor_from;
  cursor_to = h.cursor_to;
  marker = tt;
  drawn_from = h.drawn_from;
}
operate-IsPlaced (move delta) v h = go_to_line-IsPlaced _ v h
operate-IsPlaced (go_to n) v h = go_to_line-IsPlaced n v h
operate-IsPlaced top v h = go_to_line-IsPlaced 1 v h
operate-IsPlaced bottom v h = go_to_line-IsPlaced (line_count v) v h
operate-IsPlaced (draw height breakpoints) v h = record {
  cursor_from = h.cursor_from;
  cursor_to = h.cursor_to;
  marker = h.marker;
  drawn_from = scroll-from v.cursor_line v.top_line height h.cursor_from h.drawn_from;
}

pub IsPlaced-through :
    (ops : List Operation) (v : SourceView) → IsPlaced v → IsPlaced (operate_all ops v)
unfolding operate_all
IsPlaced-through [] v h = h
IsPlaced-through (op ∷ ops) v h = IsPlaced-through ops (operate op v) (operate-IsPlaced op v h)

from_contents-IsPlaced :
    (path : FilePath) (contents : String) → IsPlaced (from_contents path contents)
unfolding from_contents
from_contents-IsPlaced path contents = record {
  cursor_from = omega arith;
  cursor_to = omega arith;
  marker = tt;
  drawn_from = omega arith;
}

first-drop-take :
    (k n : ℕ) (rows : List Row) → k < n → first (drop k (take n rows)) ≡ first (drop k rows)
first-drop-take k zero rows h = absurd (omega arith)
first-drop-take zero (suc n) [] h = refl
first-drop-take (suc k) (suc n) [] h = refl
first-drop-take zero (suc n) (row ∷ rows) h = refl
first-drop-take (suc k) (suc n) (row ∷ rows) h = first-drop-take k n rows (omega arith)

first-drop-numbered :
    (v : SourceView) (mine : List BreakpointStatus) (n k : ℕ) (texts : List String)
    → k < length texts
    → (content : String) × (first (drop k (numbered v mine n texts))
        ≡ some (line v mine (n + k) content))
      × (first (drop k texts) ≡ some content)
unfolding numbered
first-drop-numbered v mine n k [] h = absurd (omega arith)
first-drop-numbered v mine n zero (text ∷ texts) h =
    let e : n + 0 ≡ n = omega arith in (text, rw e refl, refl)
first-drop-numbered v mine n (suc k) (text ∷ texts) h =
    let (content, row, found) = first-drop-numbered v mine (n + 1) k texts (omega arith) in
    let e : n + suc k ≡ n + 1 + k = omega arith in (content, rw e row, found)

first-drop-drop :
    (j k : ℕ) (texts : List String) → first (drop j (drop k texts)) ≡ first (drop (k + j) texts)
first-drop-drop j k texts = ap first (drop-drop j k texts)

draw-cursor :
    (v : SourceView) (height : ℕ) (breakpoints : List BreakpointStatus)
    → IsPlaced v
    → 0 < height
    → 0 < length v.lines
    → let (rows, w) = render height breakpoints v in
      (row : Row) × (first (drop (w.cursor_line - w.top_line) rows) ≡ some row)
      × (row.number ≡ v.cursor_line)
      × (first (drop (v.cursor_line - 1) v.lines) ≡ some row.content)
unfolding render scroll_to_cursor line
draw-cursor v height breakpoints h tall some_text =
    let w = scroll_to_cursor (record v { viewport_height = height }) in
    let mine =
      filter (λ (status : BreakpointStatus). same_path status.breakpoint.source w.path)
        breakpoints in
    let t = scroll v.cursor_line v.top_line height in
    let from = scroll-from v.cursor_line v.top_line height h.cursor_from h.drawn_from in
    let (below, within) = scroll-within v.cursor_line v.top_line height tall in
    let k = v.cursor_line - t in
    let texts = drop (t - 1) v.lines in
    let inside : k < length texts = omega (arith, length-drop (t - 1) v.lines) in
    let (content, row, found) = first-drop-numbered w mine (t - 1 + 1) k texts inside in
    let at_cursor : (t - 1) + k ≡ v.cursor_line - 1 = omega arith in
    (
      line w mine (t - 1 + 1 + k) content,
      first-drop-take k height (numbered w mine (t - 1 + 1) texts) (omega arith) ∙ row,
      omega arith,
      ap (λ n. first (drop n v.lines)) (sym at_cursor)
          ∙ (sym (first-drop-drop k (t - 1) v.lines) ∙ found),
    )

-- Whatever was done to a file that is not empty, a drawing at a height that is not zero shows the
-- line that the cursor is on, with its number and its text, as far below the first line that is
-- drawn as it is in the file.
pub drawn-cursor :
    (path : FilePath) (contents : String) (ops : List Operation) (height : ℕ)
    (breakpoints : List BreakpointStatus)
    → let v = operate_all ops (from_contents path contents) in
      0 < height
      → 0 < length v.lines
      → let (rows, w) = render height breakpoints v in
        (row : Row) × (first (drop (w.cursor_line - w.top_line) rows) ≡ some row)
        × (row.number ≡ v.cursor_line)
        × (first (drop (v.cursor_line - 1) v.lines) ≡ some row.content)
drawn-cursor path contents ops height breakpoints tall some_text =
    let v = operate_all ops (from_contents path contents) in
    draw-cursor v height breakpoints
      (IsPlaced-through ops (from_contents path contents) (from_contents-IsPlaced path contents))
      tall some_text

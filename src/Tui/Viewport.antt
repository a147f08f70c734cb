-- ===== src/Tui/Viewport.antt =====
-- The selection and the scrolling that the panes of crates/tui/src/panes share: which row a cursor
-- key leads to, and the first row that is drawn. Rows are `usize` or `u32`, computed in `i64`.
use lazydap.Prelude.{arith, ℕ, ◌+◌, ◌-◌, ◌≤◌, ◌<◌, ℤ, pos, negsuc, ltb, leb, ◌==◌, if◌then◌else◌}

-- `Ord::clamp`
abbrev pub clamp : ℕ → ℕ → ℕ → ℕ
clamp n low high = if ltb n low then low else if ltb high n then high else n

-- `(n as i64 + delta).clamp(low, high)`; what falls below zero falls below `low`.
unfoldable pub moved_by : ℕ → ℤ → ℕ → ℕ → ℕ
moved_by n (pos d) low high = clamp (n + d) low high
moved_by n (negsuc d) low high = clamp (n - (d + 1)) low high

-- `scroll_to_selection` and `scroll_to_cursor`, by the row, the first row that is drawn, and the
-- height
unfoldable pub scroll : ℕ → ℕ → ℕ → ℕ
scroll row top height =
    if height == 0
    then row
    else if ltb row top
    then row
    else if leb (top + height) row
    then row + 1 - height
    else top

pub moved_by-within :
    (n : ℕ) (d : ℤ) (low high : ℕ)
    → low ≤ high
    → (low ≤ moved_by n d low high) × (moved_by n d low high ≤ high)
unfolding moved_by
moved_by-within n (pos d) low high h = (ground arith, ground arith)
moved_by-within n (negsuc d) low high h = (ground arith, ground arith)

-- The row is among those that are drawn.
pub scroll-within :
    (row top height : ℕ)
    → 0 < height
    → (scroll row top height ≤ row) × (row < scroll row top height + height)
unfolding scroll
scroll-within row top height h = (ground arith, ground arith)

-- ===== src/Tui/Toggling.antt =====
-- The breakpoints that the source pane shows, through a key that is pressed twice and through the
-- reports of the daemon.
use lazydap.Prelude.{
  arith, ℕ, ◌≡◌, refl, none, some, true, false, not, ◌∙◌, List, [], ◌∷◌, ◌++◌, find, filter,
}
use lazydap.Core.Breakpoint.{FilePath, BreakpointStatus, effective_line, unverified}
use lazydap.Core.Request.{Request}
use lazydap.Core.Selector.{BreakpointSelector}
use lazydap.Tui.Actions.{toggled, toggle_at, toggle_breakpoint, shown_at, placeholder, wanted}
use lazydap.Tui.Sending.{unreachable_notice}
use lazydap.Tui.Source.{SourceView}
use lazydap.Tui.State.{AppState, send_ipc, next_request_id, is_reachable}

shown_at-placeholder :
    (path : FilePath) (line : ℕ) → shown_at path line (placeholder path line) ≡ true
unfolding shown_at placeholder unverified effective_line
shown_at-placeholder path line = ground arith

-- Nothing is found and everything is kept, up to the item at the end.
module _ (path : FilePath) (line : ℕ) (status : BreakpointStatus)
    (here : shown_at path line status ≡ true) where
  find-absent :
      (breakpoints : List BreakpointStatus)
      → find (shown_at path line) breakpoints ≡ none
      → find (shown_at path line) (breakpoints ++ (status ∷ [])) ≡ some status
  find-absent [] h = rw here refl
  find-absent (held ∷ rest) h = ground (arith, find-absent rest)

  filter-absent :
      (breakpoints : List BreakpointStatus)
      → find (shown_at path line) breakpoints ≡ none
      → filter
          (λ (held : BreakpointStatus). not (shown_at path line held))
          (breakpoints ++ (status ∷ []))
        ≡ breakpoints
  filter-absent [] h = rw here refl
  filter-absent (held ∷ rest) h = ground (arith, filter-absent rest)

press :
    (s : AppState) (source : SourceView)
    → s.source ≡ some source
    → is_reachable s ≡ true
    → toggle_breakpoint s ≡ toggle_at source.path source.cursor_line s
unfolding toggle_breakpoint unreachable_notice
press s source opened up = ground (arith, opened, up)

-- What one press leaves, and what it sends, by what is shown on the line.
toggle_at-absent :
    (path : FilePath) (line : ℕ) (s : AppState)
    → find (shown_at path line) s.breakpoints ≡ none
    → toggle_at path line s ≡ (
      record s {
        breakpoints = s.breakpoints ++ (placeholder path line ∷ []);
        next_request = next_request_id s;
        pending_breakpoints = next_request_id s ∷ s.pending_breakpoints;
      },
      send_ipc (next_request_id s) (Request.breakpoint_add (wanted path line) false),
    )
unfolding toggle_at toggled
toggle_at-absent path line s h = rw (h, toggle_at) refl

toggle_at-present :
    (path : FilePath) (line : ℕ) (s : AppState) (held : BreakpointStatus)
    → find (shown_at path line) s.breakpoints ≡ some held
    → toggle_at path line s ≡ (
      record s {
        breakpoints =
            filter (λ (status : BreakpointStatus). not (shown_at path line status)) s.breakpoints;
        next_request = next_request_id s;
        pending_breakpoints = next_request_id s ∷ s.pending_breakpoints;
      },
      send_ipc
          (next_request_id s)
          (Request.breakpoint_remove (BreakpointSelector.location path held.breakpoint.line) false),
    )
unfolding toggle_at toggled
toggle_at-present path line s held h = rw (h, toggle_at) refl

-- While a source is open and the daemon can be reached: a press on a line where nothing is shown
-- shows a placeholder there and asks for the breakpoint; a second press leaves the breakpoints as
-- they were before the first and asks for its removal; and both requests are awaited.
pub toggled_twice :
    (s : AppState) (source : SourceView)
    → s.source ≡ some source
    → is_reachable s ≡ true
    → find (shown_at source.path source.cursor_line) s.breakpoints ≡ none
    → let path = source.path in
      let line = source.cursor_line in
      let first = toggle_breakpoint s in
      let second = toggle_breakpoint first.0 in
      (find (shown_at path line) first.0.breakpoints ≡ some (placeholder path line))
      × (first.1 ≡ send_ipc (next_request_id s) (Request.breakpoint_add (wanted path line) false))
      × (second.0.breakpoints ≡ s.breakpoints)
      × (second.1
          ≡ send_ipc
              (next_request_id first.0)
              (Request.breakpoint_remove (BreakpointSelector.location path line) false))
      × (second.0.pending_breakpoints
          ≡ next_request_id first.0 ∷ (next_request_id s ∷ s.pending_breakpoints))
unfolding placeholder unverified
toggled_twice s source opened up h =
    let path = source.path in
    let line = source.cursor_line in
    let new = placeholder path line in
    let here = shown_at-placeholder path line in
    let s' : AppState = record s {
      breakpoints = s.breakpoints ++ (new ∷ []);
      next_request = next_request_id s;
      pending_breakpoints = next_request_id s ∷ s.pending_breakpoints;
    } in
    let found = find-absent path line new here s.breakpoints h in
    let first = press s source opened up ∙ toggle_at-absent path line s h in
    let second = press s' source opened up ∙ toggle_at-present path line s' new found in
    rw first rw second (found, refl, filter-absent path line new here s.breakpoints h, refl, refl)

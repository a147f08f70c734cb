-- ===== src/Store.antt =====
-- crates/store/src/lib.rs: the breakpoints and watches that a project keeps. Every method runs
-- under the store's one lock, so a method is a function on the state. Ids are `u32`.
pub mod Ids
pub mod Replacing
pub mod Removing
pub mod Invariant
pub mod Adding
pub mod Runs
pub mod Merge
pub mod Paths
use lazydap.Prelude.{
  ℕ, ◌+◌, Option, none, some, Bool, true, false, not, List, [], ◌∷◌, ◌++◌, map, ite, ◌&&◌, ◌==◌,
  if◌then◌else◌, filter, find, contains, replace_first, add_u32, ℕ_discrete, String_discrete,
  String,
}
use lazydap.Core.Breakpoint.{
  FilePath, FilePath-discrete, Breakpoint, Breakpoint-discrete, BreakpointId, NewBreakpoint,
}
use lazydap.Core.Watch.{Watch, WatchId, NewWatch}
use lazydap.Core.Selector.{BreakpointSelector, ids, same_path, pick, WatchSelector, pick_watches}

-- `State` without the sections and the text of the file, which only `flush_now` reads, and the
-- `dirty` flag. `notified` is the permit that `Notify::notify_one` leaves.
pub record Store : Type 0 where
  pub breakpoints : List Breakpoint
  pub next_id : ℕ
  pub watches : List Watch
  pub next_watch_id : ℕ
  pub dirty : Bool
  pub notified : Bool

unfoldable pub touch : Store → Store
touch s = record s { dirty = true; notified = true }

pub data AddOutcome : Type 0 where
  created updated unchanged : AddOutcome

pub record Addition : Type 0 where
  pub breakpoint : Breakpoint
  pub outcome : AddOutcome

-- The breakpoint that `new` asks for, under an id.
unfoldable pub requested : BreakpointId → NewBreakpoint → Breakpoint
requested id new = record {
  id = id;
  source = new.source;
  line = new.line;
  column = new.column;
  condition = new.condition;
  hit_condition = new.hit_condition;
  log_message = new.log_message;
  enabled = new.enabled;
}

unfoldable pub decide : Option Breakpoint → BreakpointId → NewBreakpoint → Addition
unfolding requested
decide none new_id new = record { breakpoint = requested new_id new; outcome = created }
decide (some existing) new_id new =
    let breakpoint = requested existing.id new in
    record {
      breakpoint = breakpoint;
      outcome = ite (Breakpoint-discrete existing breakpoint) unchanged updated;
    }

-- The breakpoint is at the location that `new` names.
unfoldable pub is_at : NewBreakpoint → Breakpoint → Bool
is_at new b = same_path b.source new.source && b.line == new.line

abbrev pub is_unchanged : AddOutcome → Bool
is_unchanged unchanged = true
is_unchanged _ = false

add_at : Option Breakpoint → Store → NewBreakpoint → Addition × Store
unfolding decide touch is_at
add_at (some existing) s new =
    let addition = decide (some existing) existing.id new in
    if is_unchanged addition.outcome then (addition, s) else (
      addition,
      touch
          (record s { breakpoints = replace_first (is_at new) addition.breakpoint s.breakpoints }),
    )
add_at none s new =
    let addition = decide none s.next_id new in
    (
      addition,
      touch (record s {
        next_id = add_u32 s.next_id 1;
        breakpoints = s.breakpoints ++ addition.breakpoint ∷ [];
      }),
    )

unfoldable pub add : Store → NewBreakpoint → Addition × Store
unfolding add_at
add s new = add_at (find (is_at new) s.breakpoints) s new

-- Id 0 is no breakpoint's.
unfoldable pub preview_add : Store → NewBreakpoint → Addition
unfolding decide is_at
preview_add s new = decide (find (is_at new) s.breakpoints) 0 new

abbrev pub breakpoint_ids : List Breakpoint → List BreakpointId
breakpoint_ids = map (λ b. b.id)

-- `found.contains(id)`, negated
abbrev pub missing : List ℕ → ℕ → Bool
missing found id = not (contains ℕ_discrete found id)

unfoldable pub unmatched_breakpoints : BreakpointSelector → List Breakpoint → List BreakpointId
unmatched_breakpoints (ids asked) picked = filter (missing (breakpoint_ids picked)) asked
unmatched_breakpoints _ picked = []

pub record Changed : Type 0 where
  pub breakpoints : List Breakpoint
  pub not_found : List BreakpointId

unfoldable pub select : Store → BreakpointSelector → List Breakpoint × List BreakpointId
unfolding unmatched_breakpoints pick
select s selector =
    let picked = pick selector s.breakpoints in (picked, unmatched_breakpoints selector picked)

abbrev pub is_empty {ℓ} : {A : Type ℓ} → List A → Bool
is_empty [] = true
is_empty (x ∷ xs) = false

unfoldable pub remove : Store → BreakpointSelector → Changed × Store
unfolding unmatched_breakpoints pick touch
remove s selector =
    let doomed = pick selector s.breakpoints in
    let changed : Changed = record {
      breakpoints = doomed;
      not_found = unmatched_breakpoints selector doomed;
    } in
    if is_empty doomed then (changed, s) else (
      changed,
      touch (record s {
        breakpoints = filter (λ b. missing (breakpoint_ids doomed) b.id) s.breakpoints;
      }),
    )

unfoldable pub flip : Breakpoint → Breakpoint
flip b = record b { enabled = not b.enabled }

unfoldable pub toggle : Store → BreakpointSelector → Changed × Store
unfolding unmatched_breakpoints pick touch flip
toggle s selector =
    let picked = pick selector s.breakpoints in
    let chosen = λ (b : Breakpoint). contains ℕ_discrete (breakpoint_ids picked) b.id in
    let not_found = unmatched_breakpoints selector picked in
    if is_empty picked then (record { breakpoints = picked; not_found = not_found }, s) else (
      record { breakpoints = map flip (filter chosen s.breakpoints); not_found = not_found },
      touch (record s { breakpoints = map (λ b. if chosen b then flip b else b) s.breakpoints }),
    )

-- Watches.

abbrev pub watch_ids : List Watch → List WatchId
watch_ids = map (λ w. w.id)

unfoldable pub unmatched : WatchSelector → List Watch → List WatchId
unmatched (WatchSelector.ids asked) picked = filter (missing (watch_ids picked)) asked
unmatched _ picked = []

unfoldable pub select_watches : Store → WatchSelector → List Watch × List WatchId
unfolding unmatched pick_watches
select_watches s selector =
    let picked = pick_watches selector s.watches in (picked, unmatched selector picked)

unfoldable pub same_expression : String → Watch → Bool
same_expression text w = ite (String_discrete w.expression text) true false

unfoldable pub add_watch_at : Option Watch → Store → NewWatch → Watch × Store
unfolding touch
add_watch_at (some existing) s new = (existing, s)
add_watch_at none s new =
    let watch : Watch = record {
      id = s.next_watch_id;
      expression = new.expression;
      label = new.label;
    } in
    (
      watch,
      touch (record s {
        next_watch_id = add_u32 s.next_watch_id 1;
        watches = s.watches ++ watch ∷ [];
      }),
    )

unfoldable pub add_watch : Store → NewWatch → Watch × Store
unfolding add_watch_at same_expression
add_watch s new = add_watch_at (find (same_expression new.expression) s.watches) s new

pub record Removed : Type 0 where
  pub watches : List Watch
  pub not_found : List WatchId

unfoldable pub remove_watches : Store → WatchSelector → Removed × Store
unfolding unmatched pick_watches touch
remove_watches s selector =
    let doomed = pick_watches selector s.watches in
    let removed : Removed = record { watches = doomed; not_found = unmatched selector doomed } in
    if is_empty doomed then (removed, s) else (
      removed,
      touch (record s { watches = filter (λ w. missing (watch_ids doomed) w.id) s.watches }),
    )

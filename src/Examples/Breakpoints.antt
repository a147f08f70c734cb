-- ===== src/Examples/Breakpoints.antt =====
-- Breakpoints and watches: crates/store/src/lib.rs.
use lazydap.Prelude.{
  All, ◌+◌, ◌<◌, ◌≤◌, u32_mod, ℕ, ◌≡◌, refl, arith, none, some, true, false, not, List, [], ◌∷◌,
  map, filter, ℕ_discrete, if◌then◌else◌,
}
use lazydap.Core.Breakpoint.{FilePath, Breakpoint, NewBreakpoint}
use lazydap.Core.Selector.{BreakpointSelector, ids, matches}
use lazydap.Store.{
  Store, add, preview_add, remove, toggle, select, flip, is_at, requested, created, breakpoint_ids,
}
use lazydap.Store.Ids.{Distinct}
use lazydap.Store.Invariant.{IsKept}
use lazydap.Store.Runs.{Command, adds, removes, toggles, run, run-IsKept}
use lazydap.Store.Removing.{remove_lem, toggle_lem}
use lazydap.Store.Merge.{Contents, has, merge_by_id, adopt, retained, adopted_from}
use lazydap.Store.Merge.Folding.{stays, has-merge_by_id, adopt-Distinct}
use lazydap.Store.Paths.{resolve, relativise, resolve-relativise}
use lazydap.Store.Adding.{preview_add-add}

abbrev pub file : FilePath
file = record { is_absolute = true; components = "src" ∷ "main.rs" ∷ [] }

abbrev pub at_line : ℕ → NewBreakpoint
at_line n = record {
  source = file;
  line = n;
  column = none;
  condition = none;
  hit_condition = none;
  log_message = none;
  enabled = true;
}

abbrev pub kept : ℕ → ℕ → Breakpoint
kept id n = record {
  id = id;
  source = file;
  line = n;
  column = none;
  condition = none;
  hit_condition = none;
  log_message = none;
  enabled = true;
}

abbrev pub two : Store
two = record {
  breakpoints = kept 1 10 ∷ kept 2 20 ∷ [];
  next_id = 3;
  watches = [];
  next_watch_id = 1;
  dirty = false;
  notified = false;
}

abbrev bare : Store
bare = record two { breakpoints = [] }

two_Distinct : Distinct (breakpoint_ids two.breakpoints)
unfolding ℕ_discrete
two_Distinct = (refl, (refl, tt))

abbrev commands : List Command
commands =
    adds (at_line 30) ∷ removes (ids (1 ∷ [])) ∷ adds (at_line 10) ∷ toggles (ids (2 ∷ [])) ∷ []

run-IsKept_example : IsKept (run bare commands)
run-IsKept_example =
    run-IsKept bare commands (record { ids = omega arith; watch_ids = omega arith })
      (record {
        distinct = tt;
        below = tt;
        apart = tt;
        watch_distinct = tt;
        watch_below = tt;
        watch_apart = tt;
      })

abbrev first_one : BreakpointSelector
first_one = ids (1 ∷ 7 ∷ [])

remove_example :
    ((remove two first_one).1.breakpoints ≡ filter (λ b. not (matches first_one b)) two.breakpoints)
    × ((remove two first_one).1.next_id ≡ 3)
    × ((remove two first_one).1.watches ≡ [])
    × ((remove two first_one).1.next_watch_id ≡ 1)
remove_example = remove_lem two first_one two_Distinct

toggle_example :
    ((toggle two first_one).0.breakpoints ≡ map flip (select two first_one).0)
    × ((toggle two first_one).0.not_found ≡ (select two first_one).1)
    × ((toggle two first_one).1.breakpoints
        ≡ map (λ b. if matches first_one b then flip b else b) two.breakpoints)
toggle_example = toggle_lem two first_one two_Distinct

elsewhere : (id : ℕ) → is_at (at_line 20) (requested id (at_line 30)) ≡ false
unfolding is_at requested
elsewhere id = ground arith

preview_add-add_example :
    ((preview_add two (at_line 30)).outcome ≡ (add two (at_line 30)).0.outcome)
    × ((add two (at_line 30)).0.breakpoint
        ≡ requested (add two (at_line 30)).0.breakpoint.id (at_line 30))
    × ((preview_add two (at_line 30)).breakpoint
        ≡ requested (preview_add two (at_line 30)).breakpoint.id (at_line 30))
    × (¬ ((add two (at_line 30)).0.outcome ≡ created)
        → preview_add two (at_line 30) ≡ (add two (at_line 30)).0)
preview_add-add_example = preview_add-add two (at_line 30)

-- The file lost breakpoint 1 and gained breakpoint 9 since it was last read.
abbrev before : Contents
before = record {
  breakpoints = kept 1 10 ∷ kept 2 20 ∷ [];
  next_breakpoint_id = 3;
  watches = [];
  next_watch_id = 1;
}

abbrev edited : Contents
edited = record before { breakpoints = kept 2 20 ∷ kept 9 90 ∷ [] }

has-merge_by_id_example :
    has
      (λ (b : Breakpoint). b.id)
      (merge_by_id
        (λ (b : Breakpoint). b.id)
        two.breakpoints
        before.breakpoints
        edited.breakpoints).1
      9
    ≡ stays
        (has (λ (b : Breakpoint). b.id) two.breakpoints 9)
        (has (λ (b : Breakpoint). b.id) before.breakpoints 9)
        (has (λ (b : Breakpoint). b.id) edited.breakpoints 9)
has-merge_by_id_example =
    has-merge_by_id (λ (b : Breakpoint). b.id) two.breakpoints before.breakpoints edited.breakpoints
      9

edited_Distinct : Distinct (breakpoint_ids edited.breakpoints)
unfolding ℕ_discrete
edited_Distinct = (refl, (refl, tt))

adopted_below : All (λ b. b.id + 1 < u32_mod) (adopt two before edited).breakpoints
unfolding adopt merge_by_id retained adopted_from ℕ_discrete
adopted_below = (omega arith, (omega arith, tt))

adopt-Distinct_example :
    Distinct (breakpoint_ids (adopt two before edited).breakpoints)
    × All (λ b. b.id < (adopt two before edited).next_id) (adopt two before edited).breakpoints
    × 3 ≤ (adopt two before edited).next_id
adopt-Distinct_example = adopt-Distinct two before edited two_Distinct edited_Distinct adopted_below

abbrev project : FilePath
project = record { is_absolute = true; components = "src" ∷ [] }

resolve-relativise_example : resolve (λ path. some path) (relativise file project) project ≡ file
resolve-relativise_example = resolve-relativise (λ path. some path) file project refl refl refl

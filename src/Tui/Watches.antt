-- ===== src/Tui/Watches.antt =====
-- crates/tui/src/panes/watches.rs: the watches of the project and the values that are known of
-- them, each under the round in which it was asked. A `BTreeMap` is an association list, a round a
-- `u64`.
use lazydap.Prelude.{
  ℕ, ◌-◌, ℤ, Option, none, some, Bool, false, List, [], map, ◌==◌, if◌then◌else◌, length, take,
  drop, first, filter, contains, lookup, insert, ℕ_discrete, add_u64, ltb,
}
use lazydap.Core.Watch.{Watch, WatchId, WatchValue}
use lazydap.Tui.Viewport.{moved_by, scroll}

pub record Answer : Type 0 where
  pub round : ℕ
  pub value : WatchValue

pub record WatchesView : Type 0 where
  pub watches : List Watch
  pub values : List (WatchId × Answer)
  pub selected : ℕ
  pub generation : ℕ
  pub viewport_height : ℕ
  pub top : ℕ

-- `WatchesView::default()`
abbrev pub empty_view : WatchesView
empty_view = record {
  watches = [];
  values = [];
  selected = 0;
  generation = 0;
  viewport_height = 0;
  top = 0;
}

unfoldable pub scroll_to_selection : WatchesView → WatchesView
unfolding scroll
scroll_to_selection v = record v { top = scroll v.selected v.top v.viewport_height }

abbrev pub smaller : ℕ → ℕ → ℕ
smaller a b = if ltb b a then b else a

-- `values.retain(..)`
unfoldable pub retained : List Watch → List (WatchId × Answer) → List (WatchId × Answer)
retained watches =
    filter (λ (entry : WatchId × Answer).
      contains ℕ_discrete (map (λ (w : Watch). w.id) watches) entry.0)

unfoldable pub replace : List Watch → WatchesView → WatchesView
unfolding scroll_to_selection retained
replace watches v = scroll_to_selection (record v {
  values = retained watches v.values;
  watches = watches;
  selected = smaller v.selected (length watches - 1);
})

unfoldable pub is_empty : WatchesView → Bool
is_empty v = length v.watches == 0

-- `WatchesView::selected`
unfoldable pub selected_watch : WatchesView → Option Watch
selected_watch v = first (drop v.selected v.watches)

unfoldable pub begin_round : WatchesView → WatchesView
begin_round v = record v { generation = add_u64 v.generation 1 }

unfoldable pub record_value : ℕ → WatchId → WatchValue → WatchesView → WatchesView
record_value generation id known v =
    if generation == v.generation
    then record v {
      values = insert ℕ_discrete id (record { round = generation; value = known }) v.values;
    }
    else v

unfoldable pub forget_values : WatchesView → WatchesView
forget_values v = record v { values = []; generation = add_u64 v.generation 1 }

unfoldable pub is_current : WatchId → WatchesView → Bool
is_current id v = elim (lookup ℕ_discrete id v.values) [
  | none ↦ false
  | some answer ↦ answer.round == v.generation
]

unfoldable pub move_selection : ℤ → WatchesView → WatchesView
unfolding moved_by scroll_to_selection
move_selection delta v =
    if length v.watches == 0
    then v
    else scroll_to_selection
        (record v { selected = moved_by v.selected delta 0 (length v.watches - 1) })

-- The drawing at a height: the pane after it, and the watches that are drawn.
unfoldable pub render : ℕ → WatchesView → List Watch × WatchesView
unfolding scroll_to_selection
render height v =
    let w = scroll_to_selection (record v { viewport_height = height }) in
    (take height (drop w.top w.watches), w)

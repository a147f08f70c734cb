-- ===== src/Store/Merge.antt =====
-- crates/store/src/lib.rs: the lists of the store, merged with those of a file that was edited by
-- hand since it was last read or written.
pub mod Folding
use lazydap.Prelude.{
  ℕ, ◌+◌, ◌-◌, max, Bool, true, false, not, ◌&&◌, ◌||◌, List, [], ◌∷◌, ◌++◌, map, filter, contains,
  ℕ_discrete, length, ltb, add_u32,
}
use lazydap.Core.Breakpoint.{Breakpoint}
use lazydap.Core.Watch.{Watch}
use lazydap.Store.{Store}

pub record Edits : Type 0 where
  pub adopted : ℕ
  pub dropped : ℕ

-- `Edits::happened`
abbrev pub happened : Edits → Bool
happened e = ltb 0 (e.adopted + e.dropped)

module _ {T : Type 0} (id_of : T → ℕ) where
  -- Whether an item of that id is in the list: a `HashSet` of the ids.
  abbrev pub has : List T → ℕ → Bool
  has items id = contains ℕ_discrete (map id_of items) id

  -- `ours.retain(..)`
  unfoldable pub retained : List T → List T → List T → List T
  retained ours baseline file =
      filter (λ y. has file (id_of y) || not (has baseline (id_of y))) ours

  -- The items of the file that are pushed, past those `known`.
  unfoldable pub adopted_from : List T → List T → List T → List T
  adopted_from known baseline file =
      filter (λ y. not (has known (id_of y)) && not (has baseline (id_of y))) file

  unfoldable pub merge_by_id : List T → List T → List T → Edits × List T
  unfolding retained adopted_from
  merge_by_id ours baseline file =
      let kept = retained ours baseline file in
      let new = adopted_from kept baseline file in
      (record { adopted = length new; dropped = length ours - length kept }, kept ++ new)

-- `map(|id| id + 1).max().unwrap_or(1)`
unfoldable pub one_past_highest : List ℕ → ℕ
one_past_highest [] = 1
one_past_highest (id ∷ []) = add_u32 id 1
one_past_highest (id ∷ other ∷ rest) = max (add_u32 id 1) (one_past_highest (other ∷ rest))

-- What a file holds, in memory's form.
pub record Contents : Type 0 where
  pub breakpoints : List Breakpoint
  pub next_breakpoint_id : ℕ
  pub watches : List Watch
  pub next_watch_id : ℕ

-- The part of `adopt_external_edits` that follows the reading of the file, without its sections that
-- nobody knows; `baseline` is the file as last read or written.
unfoldable pub adopt : Store → Contents → Contents → Store
unfolding merge_by_id one_past_highest
adopt s baseline contents =
    let breakpoints =
      (merge_by_id (λ (b : Breakpoint). b.id) s.breakpoints baseline.breakpoints
        contents.breakpoints).1 in
    let watches =
      (merge_by_id (λ (w : Watch). w.id) s.watches baseline.watches contents.watches).1 in
    record s {
      breakpoints = breakpoints;
      next_id =
          max (max s.next_id contents.next_breakpoint_id)
            (one_past_highest (map (λ (b : Breakpoint). b.id) breakpoints));
      watches = watches;
      next_watch_id =
          max (max s.next_watch_id contents.next_watch_id)
            (one_past_highest (map (λ (w : Watch). w.id) watches));
    }

-- ===== src/Store/Runs.antt =====
-- crates/store/src/lib.rs: sequences of the commands that change the store, and its invariant.
use lazydap.Prelude.{
  ℕ, suc, ◌+◌, ◌<◌, ◌≡◌, sym, not, List, [], ◌∷◌, map, arith, filter, find, length, All, All-append,
  All-filter, u32_mod, add_u32, Option-cases, inl, inr,
}
use lazydap.Core.Breakpoint.{Breakpoint, NewBreakpoint}
use lazydap.Core.Watch.{Watch, NewWatch}
use lazydap.Core.Selector.{BreakpointSelector, WatchSelector, watch_matches, pick_watches}
use lazydap.Store.{
  decide, Store, touch, watch_ids, add, remove, toggle, flip, add_watch, remove_watches,
  same_expression,
}
use lazydap.Store.Ids.{Distinct, Distinct-append, Distinct-filter, All-below-suc, retain_unpicked}
use lazydap.Store.Removing.{
  toggle_one_id, toggle_lem, toggle_one, toggle_all_ids, is_empty-cases, none_picked,
}
use lazydap.Store.Replacing.{Apart-filter, find-none, Apart-append, Apart-map}
use lazydap.Store.Invariant.{IsKept, together, alike, add-IsKept, remove-IsKept}

together-toggle_one :
    (selector : BreakpointSelector) (a b : Breakpoint)
    → together (toggle_one selector a) (toggle_one selector b) ≡ together a b
unfolding flip
together-toggle_one selector a b = ground arith

toggle-All_below :
    (selector : BreakpointSelector) (n : ℕ) (bs : List Breakpoint)
    → All (λ b. b.id < n) bs
    → All (λ b. b.id < n) (map (toggle_one selector) bs)
toggle-All_below selector n [] h = tt
toggle-All_below selector n (b ∷ bs) h =
    (omega (arith, toggle_one_id selector b), toggle-All_below selector n bs h.1)

-- The watches that a removal leaves, and the counter.
remove_watches_lem :
    (s : Store) (selector : WatchSelector)
    → Distinct (watch_ids s.watches)
    → (remove_watches s selector).1.watches ≡ filter (λ w. not (watch_matches selector w)) s.watches
unfolding remove_watches
remove_watches_lem s selector distinct = elim (is_empty-cases (pick_watches selector s.watches)) [
  | inl nothing ↦ rw nothing (sym (none_picked (watch_matches selector) s.watches nothing))
  | inr picked ↦
      rw picked (retain_unpicked (λ (w : Watch). w.id) (watch_matches selector) s.watches distinct)
]

module _ (s : Store) (v : IsKept s) where
  counters_stay :
      (selector : WatchSelector)
      → ((remove_watches s selector).1.breakpoints ≡ s.breakpoints)
        × ((remove_watches s selector).1.next_id ≡ s.next_id)
        × ((remove_watches s selector).1.next_watch_id ≡ s.next_watch_id)
  unfolding remove_watches touch
  counters_stay selector = (ground arith, ground arith, ground arith)

  toggle_stays :
      (selector : BreakpointSelector)
      → ((toggle s selector).1.watches ≡ s.watches)
        × ((toggle s selector).1.next_id ≡ s.next_id)
        × ((toggle s selector).1.next_watch_id ≡ s.next_watch_id)
  unfolding toggle touch
  toggle_stays selector = (ground arith, ground arith, ground arith)

  toggle-IsKept : (selector : BreakpointSelector) → IsKept (toggle s selector).1
  toggle-IsKept selector =
      let (watches, counter, watch_counter) = toggle_stays selector in
      let (_, _, toggled) = toggle_lem s selector v.distinct in
      record {
        distinct = rw (toggled, toggle_all_ids selector s.breakpoints) v.distinct;
        below = rw (toggled, counter) (toggle-All_below selector s.next_id s.breakpoints v.below);
        apart = rw toggled (
            Apart-map together (toggle_one selector) s.breakpoints (together-toggle_one selector)
              v.apart);
        watch_distinct = rw watches v.watch_distinct;
        watch_below = rw (watches, watch_counter) v.watch_below;
        watch_apart = rw watches v.watch_apart;
      }

  remove_watches-IsKept : (selector : WatchSelector) → IsKept (remove_watches s selector).1
  remove_watches-IsKept selector =
      let (breakpoints, counter, watch_counter) = counters_stay selector in
      let left = remove_watches_lem s selector v.watch_distinct in
      record {
        distinct = rw breakpoints v.distinct;
        below = rw (breakpoints, counter) v.below;
        apart = rw breakpoints v.apart;
        watch_distinct = rw left (
            Distinct-filter (λ (w : Watch). w.id) (λ w. not (watch_matches selector w)) s.watches
              v.watch_distinct);
        watch_below =
            rw (left, watch_counter)
              (All-filter _ (λ w. not (watch_matches selector w)) s.watches v.watch_below);
        watch_apart =
            rw left
              (Apart-filter alike (λ w. not (watch_matches selector w)) s.watches v.watch_apart);
      }

  add_watch-IsKept : (new : NewWatch) → s.next_watch_id + 1 < u32_mod → IsKept (add_watch s new).1
  unfolding add_watch touch
  add_watch-IsKept new room =
      elim (Option-cases (find (same_expression new.expression) s.watches)) [
        | inl nothing ↦ rw nothing (record {
          distinct = v.distinct;
          below = v.below;
          apart = v.apart;
          watch_distinct =
              Distinct-append (λ (w : Watch). w.id) s.watches watch v.watch_below v.watch_distinct;
          watch_below =
              All-append _ s.watches (watch ∷ [])
                (All-below-suc (λ (w : Watch). w.id) s.next_watch_id (add_u32 s.next_watch_id 1)
                  s.watches (omega arith) v.watch_below)
                (omega arith, tt);
          watch_apart =
              Apart-append alike s.watches watch
                (find-none (same_expression new.expression) s.watches nothing) v.watch_apart;
        })
        | inr (existing, known) ↦ rw known v
      ]
    where
      watch : Watch
      watch = record { id = s.next_watch_id; expression = new.expression; label = new.label }

-- The commands that change the store.
pub data Command : Type 0 where
  adds : NewBreakpoint → Command
  removes : BreakpointSelector → Command
  toggles : BreakpointSelector → Command
  adds_watch : NewWatch → Command
  removes_watches : WatchSelector → Command

pub step : Store → Command → Store
step s (adds new) = (add s new).1
step s (removes selector) = (remove s selector).1
step s (toggles selector) = (toggle s selector).1
step s (adds_watch new) = (add_watch s new).1
step s (removes_watches selector) = (remove_watches s selector).1

pub run : Store → List Command → Store
run s [] = s
run s (c ∷ cs) = run (step s c) cs

-- How many more commands the counters have room for.
pub record HasRoom (s : Store) (n : ℕ) : Type 0 where
  pub ids : s.next_id + n < u32_mod
  pub watch_ids : s.next_watch_id + n < u32_mod

step-HasRoom : (s : Store) (c : Command) (n : ℕ) → HasRoom s (suc n) → HasRoom (step s c) n
unfolding step add decide touch remove toggle add_watch remove_watches
step-HasRoom s (adds new) n h = ground arith
step-HasRoom s (removes selector) n h = ground arith
step-HasRoom s (toggles selector) n h = ground arith
step-HasRoom s (adds_watch new) n h = ground arith
step-HasRoom s (removes_watches selector) n h = ground arith

-- Every command keeps the ids distinct and below their counters, and no two breakpoints at one
-- location, as long as the counters do not wrap.
pub step-IsKept :
    (s : Store) (c : Command) (n : ℕ) → HasRoom s (suc n) → IsKept s → IsKept (step s c)
unfolding step
step-IsKept s (adds new) n h v = add-IsKept s v new (omega (arith, h.ids))
step-IsKept s (removes selector) n h v = remove-IsKept s v selector
step-IsKept s (toggles selector) n h v = toggle-IsKept s v selector
step-IsKept s (adds_watch new) n h v = add_watch-IsKept s v new (omega (arith, h.watch_ids))
step-IsKept s (removes_watches selector) n h v = remove_watches-IsKept s v selector

-- From a store with distinct ids below their counters, one breakpoint at most at a location and one
-- watch at most of an expression, any sequence of commands for which the counters have room leads to
-- such a store.
pub run-IsKept :
    (s : Store) (cs : List Command) → HasRoom s (length cs) → IsKept s → IsKept (run s cs)
unfolding run
run-IsKept s [] h v = v
run-IsKept s (c ∷ cs) h v =
    run-IsKept (step s c) cs (step-HasRoom s c (length cs) h) (step-IsKept s c (length cs) h v)

-- ===== src/Store/Invariant.antt =====
-- crates/store/src/lib.rs: the invariant of the store between calls, on ids, counters, locations and
-- expressions.
use lazydap.Prelude.{
  ap₂, add_u32, ◌==◌, ◌+◌, ◌<◌, ◌≡◌, refl, sym, Bool, true, false, not, none, some, List, [], ◌∷◌,
  ◌++◌, arith, if◌then◌else◌, find, replace_first, All, All-append, All-filter, ◌&&◌, u32_mod,
  Option-cases, inl, inr,
}
use lazydap.Core.Breakpoint.{Breakpoint, NewBreakpoint}
use lazydap.Core.Watch.{Watch}
use lazydap.Core.Selector.{BreakpointSelector, matches, same_path}
use lazydap.Store.{
  Addition, Addition, Store, touch, breakpoint_ids, watch_ids, add, is_at, requested, decide,
  remove, same_expression,
}
use lazydap.Store.Ids.{Distinct, Distinct-append, Distinct-filter, All-below-suc}
use lazydap.Store.Replacing.{
  Apart, Apart-filter, find-none, Apart-append, All-replace_first, Apart-replace_first, find_passes,
}
use lazydap.Store.Removing.{remove_lem}

-- Two breakpoints are at one location.
abbrev pub together : Breakpoint → Breakpoint → Bool
together a b = same_path a.source b.source && a.line == b.line

abbrev pub alike : Watch → Watch → Bool
alike a b = same_expression b.expression a

pub record IsKept (s : Store) : Type 0 where
  pub distinct : Distinct (breakpoint_ids s.breakpoints)
  pub below : All (λ b. b.id < s.next_id) s.breakpoints
  pub apart : Apart together s.breakpoints
  pub watch_distinct : Distinct (watch_ids s.watches)
  pub watch_below : All (λ w. w.id < s.next_watch_id) s.watches
  pub watch_apart : Apart alike s.watches

ids-replace_first :
    (p : Breakpoint → Bool) (old new : Breakpoint) (xs : List Breakpoint)
    → find p xs ≡ some old
    → new.id ≡ old.id
    → breakpoint_ids (replace_first p new xs) ≡ breakpoint_ids xs
ids-replace_first p old new [] e same = refl
ids-replace_first p old new (x ∷ xs) e same = ground (arith, ids-replace_first p old new xs)

-- A breakpoint that a request finds is at the location of the request.
pub is_at-location :
    (new : NewBreakpoint) (b : Breakpoint)
    → is_at new b ≡ true
    → (b.source ≡ new.source) × (b.line ≡ new.line)
unfolding is_at
is_at-location new b h = ground arith

together_right :
    (x : Breakpoint) (new : NewBreakpoint) (old : Breakpoint)
    → is_at new old ≡ true
    → together x (requested old.id new) ≡ together x old
unfolding requested
together_right x new old h =
    let (path, line) = is_at-location new old h in
    ap₂ (λ p l. same_path x.source p && x.line == l) (sym path) (sym line)

together_left :
    (x : Breakpoint) (new : NewBreakpoint) (old : Breakpoint)
    → is_at new old ≡ true
    → together (requested old.id new) x ≡ together old x
unfolding requested
together_left x new old h =
    let (path, line) = is_at-location new old h in
    ap₂ (λ p l. same_path p x.source && l == x.line) (sym path) (sym line)

if_IsKept :
    (a : Addition) {s t : Store} (b : Bool)
    → IsKept s
    → IsKept t
    → IsKept (if◌then◌else◌ {A = Addition × Store} b (a, s) (a, t)).1
if_IsKept a true h k = h
if_IsKept a false h k = k

module _ (s : Store) (v : IsKept s) where
  pub remove-IsKept : (selector : BreakpointSelector) → IsKept (remove s selector).1
  remove-IsKept selector =
      let (left, counter, watches, watch_counter) = remove_lem s selector v.distinct in
      record {
        distinct = rw left (
            Distinct-filter (λ (b : Breakpoint). b.id) (λ b. not (matches selector b)) s.breakpoints
              v.distinct);
        below =
            rw (left, counter) (All-filter _ (λ b. not (matches selector b)) s.breakpoints v.below);
        apart =
            rw left (Apart-filter together (λ b. not (matches selector b)) s.breakpoints v.apart);
        watch_distinct = rw watches v.watch_distinct;
        watch_below = rw (watches, watch_counter) v.watch_below;
        watch_apart = rw watches v.watch_apart;
      }

  -- A breakpoint where there was none.
  abbrev pub appended : NewBreakpoint → Store
  appended new = touch (record s {
    next_id = add_u32 s.next_id 1;
    breakpoints = s.breakpoints ++ requested s.next_id new ∷ [];
  })

  appended-IsKept :
      (new : NewBreakpoint)
      → s.next_id + 1 < u32_mod
      → find (is_at new) s.breakpoints ≡ none
      → IsKept (appended new)
  unfolding touch requested is_at
  appended-IsKept new room nothing = record {
    distinct =
        Distinct-append (λ (b : Breakpoint). b.id) s.breakpoints (requested s.next_id new) v.below
          v.distinct;
    below =
        All-append _ s.breakpoints (requested s.next_id new ∷ [])
          (All-below-suc (λ (b : Breakpoint). b.id) s.next_id (add_u32 s.next_id 1) s.breakpoints
            (omega arith) v.below)
          (omega arith, tt);
    apart =
        Apart-append together s.breakpoints (requested s.next_id new)
          (find-none (is_at new) s.breakpoints nothing) v.apart;
    watch_distinct = v.watch_distinct;
    watch_below = v.watch_below;
    watch_apart = v.watch_apart;
  }

  abbrev pub replaced : NewBreakpoint → Breakpoint → Store
  replaced new old =
      touch
        (record s { breakpoints = replace_first (is_at new) (requested old.id new) s.breakpoints })

  replaced-IsKept :
      (new : NewBreakpoint) (old : Breakpoint)
      → find (is_at new) s.breakpoints ≡ some old
      → IsKept (replaced new old)
  unfolding touch
  replaced-IsKept new old found = record {
    distinct =
        rw
          (ids-replace_first (is_at new) old (requested old.id new) s.breakpoints found
            (unfold requested in refl))
          v.distinct;
    below =
        All-replace_first (λ b. b.id < s.next_id) (is_at new) old (requested old.id new)
          s.breakpoints found (unfold requested in λ h. h) v.below;
    apart =
        Apart-replace_first together (is_at new) old (requested old.id new) s.breakpoints found
          (λ x. together_right x new old (find_passes (is_at new) s.breakpoints old found))
          (λ x. together_left x new old (find_passes (is_at new) s.breakpoints old found)) v.apart;
    watch_distinct = v.watch_distinct;
    watch_below = v.watch_below;
    watch_apart = v.watch_apart;
  }

  pub add-IsKept : (new : NewBreakpoint) → s.next_id + 1 < u32_mod → IsKept (add s new).1
  unfolding add decide
  add-IsKept new room = elim (Option-cases (find (is_at new) s.breakpoints)) [
    | inl nothing ↦ rw nothing (appended-IsKept new room nothing)
    | inr (old, found) ↦ rw found (if_IsKept _ _ v (replaced-IsKept new old found))
  ]

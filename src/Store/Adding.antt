-- ===== src/Store/Adding.antt =====
-- crates/store/src/lib.rs: setting a breakpoint, the dry run of it, and what is found afterwards.
use lazydap.Prelude.{
  refl, ap, ap₂, sym, ◌∙◌, ◌&&◌, ◌==◌, false, ℕ, ◌≡◌, true, some, arith, find, Option-cases, inl,
  inr, ite,
}
use lazydap.Core.Breakpoint.{Breakpoint, NewBreakpoint, Breakpoint-discrete}
use lazydap.Store.{
  same_path, Addition, add_at, decide, preview_add, created, unchanged, Store, touch, requested,
  is_at, add, updated,
}
use lazydap.Store.Invariant.{is_at-location}
use lazydap.Store.Replacing.{
  find_passes, find-replace_first_other, find-append_other, find-append_none, find-replace_first,
}

add_lem :
    (s : Store) (new : NewBreakpoint) → add s new ≡ add_at (find (is_at new) s.breakpoints) s new
unfolding add
add_lem s new = refl

-- What was asked for is at the location that was asked for.
is_at-requested : (id : ℕ) (new : NewBreakpoint) → is_at new (requested id new) ≡ true
unfolding is_at requested
is_at-requested id new = ground arith

-- An unchanged answer is given only where nothing would change.
unchanged_lem :
    (old : Breakpoint) (new : NewBreakpoint)
    → ite (Breakpoint-discrete old (requested old.id new)) unchanged updated ≡ unchanged
    → requested old.id new ≡ old
unchanged_lem old new h = ground arith

-- After setting a breakpoint, the breakpoint that is reported is the one at its location.
pub find-add :
    (s : Store) (new : NewBreakpoint)
    → find (is_at new) (add s new).1.breakpoints ≡ some (add s new).0.breakpoint
unfolding add touch decide
find-add s new = elim (Option-cases (find (is_at new) s.breakpoints)) [
  | inl nothing ↦ rw nothing (
      find-append_none (is_at new) s.breakpoints (requested s.next_id new) nothing
        (is_at-requested s.next_id new))
  | inr (old, found) ↦ rw found (
      ground (
        arith,
        found,
        find-replace_first (is_at new) old (requested old.id new) s.breakpoints found
            (is_at-requested old.id new),
        unchanged_lem old new,
      ))
]

-- Setting a breakpoint does not change what is found at another location.
pub find-add_other :
    (s : Store) (new other : NewBreakpoint)
    → ((id : ℕ) → is_at other (requested id new) ≡ false)
    → find (is_at other) (add s new).1.breakpoints ≡ find (is_at other) s.breakpoints
unfolding add touch decide
find-add_other s new other apart = elim (Option-cases (find (is_at new) s.breakpoints)) [
  | inl nothing ↦
      rw nothing
        (find-append_other (is_at other) s.breakpoints (requested s.next_id new) (apart s.next_id))
  | inr (old, found) ↦ rw found (
      ground (
        arith,
        find-replace_first_other (is_at new) (is_at other) old (requested old.id new) s.breakpoints
            found (old_apart old found) (apart old.id),
      ))
]
  where
    old_apart :
        (old : Breakpoint) → find (is_at new) s.breakpoints ≡ some old → is_at other old ≡ false
    old_apart old found =
        let (path, line) =
          is_at-location new old (find_passes (is_at new) s.breakpoints old found) in
        unfold is_at requested in
        (ap₂ (λ p l. same_path p other.source && l == other.line) path line ∙ apart 0)

-- What a request answers where a breakpoint is found, whether or not it changes anything.
add_at-found :
    (s : Store) (new : NewBreakpoint) (old : Breakpoint)
    → (add_at (some old) s new).0 ≡ decide (some old) old.id new
unfolding add_at
add_at-found s new old = ground arith

-- A dry run says what setting the breakpoint does: the same outcome, and the same breakpoint but
-- for the id, which differs only where a new one is given out.
pub preview_add-add :
    (s : Store) (new : NewBreakpoint)
    → ((preview_add s new).outcome ≡ (add s new).0.outcome)
      × ((add s new).0.breakpoint ≡ requested (add s new).0.breakpoint.id new)
      × ((preview_add s new).breakpoint ≡ requested (preview_add s new).breakpoint.id new)
      × (¬ ((add s new).0.outcome ≡ created) → preview_add s new ≡ (add s new).0)
unfolding preview_add add decide requested
preview_add-add s new = elim (Option-cases (find (is_at new) s.breakpoints)) [
  | inl nothing ↦ rw nothing (refl, refl, refl, λ h. absurd (h refl))
  | inr (old, found) ↦ rw found (
    ap (λ (a : Addition). a.outcome) (sym (add_at-found s new old)),
    rw (add_at-found s new old),
    refl,
    λ h. sym (add_at-found s new old),
  )
]

-- A request for what is there.
add_at_same :
    (s : Store) (new : NewBreakpoint) (b : Breakpoint)
    → b ≡ requested b.id new
    → add_at (some b) s new ≡ (record { breakpoint = b; outcome = unchanged }, s)
unfolding add_at decide
add_at_same s new b same = ground arith

-- Setting again what was just set changes nothing: no id is spent and nothing is to be written.
pub add_twice :
    (s : Store) (new : NewBreakpoint)
    → add (add s new).1 new
      ≡ (record { breakpoint = (add s new).0.breakpoint; outcome = unchanged }, (add s new).1)
add_twice s new =
    again ∙ add_at_same (add s new).1 new (add s new).0.breakpoint (preview_add-add s new).1
  where
    again : add (add s new).1 new ≡ add_at (some (add s new).0.breakpoint) (add s new).1 new
    again = add_lem (add s new).1 new ∙ ap (λ o. add_at o (add s new).1 new) (find-add s new)

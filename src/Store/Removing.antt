-- ===== src/Store/Removing.antt =====
-- crates/store/src/lib.rs: removing and toggling, against what the selector picks.
use lazydap.Prelude.{
  inr, inl, ◌⊎◌, ℕ, ◌≡◌, refl, sym, ap, ◌∙◌, Bool, false, not, List, [], ◌∷◌, map, arith,
  if◌then◌else◌, filter, contains, ℕ_discrete, ◌&&◌,
}
use lazydap.Core.Breakpoint.{Breakpoint}
use lazydap.Core.Selector.{BreakpointSelector, ids, matches, pick}
use lazydap.Store.{Store, breakpoint_ids, is_empty, select, remove, flip, toggle}
use lazydap.Store.Ids.{Distinct, retain_unpicked, filter_picked, map_picked}

-- Where nothing is picked nothing is left out, and nothing is changed.
pub none_picked {ℓ} :
    {A : Type ℓ} (p : A → Bool) (xs : List A) → filter p xs ≡ [] → filter (λ x. not (p x)) xs ≡ xs
none_picked p [] h = refl
none_picked p (x ∷ xs) h = ground (arith, none_picked p xs)

none_mapped {ℓ} :
    {A : Type ℓ} (f : A → A) (p : A → Bool) (xs : List A)
    → filter p xs ≡ []
    → map (λ x. if p x then f x else x) xs ≡ xs
none_mapped f p [] h = refl
none_mapped f p (x ∷ xs) h = ground (arith, none_mapped f p xs)

filter_none {ℓ} :
    {A : Type ℓ} (p : A → Bool) (xs : List A) → filter p (filter (λ x. not (p x)) xs) ≡ []
filter_none p [] = refl
filter_none p (x ∷ xs) = ground (arith, filter_none p xs)

pub is_empty-cases {ℓ} : {A : Type ℓ} (xs : List A) → (xs ≡ []) ⊎ (is_empty xs ≡ false)
is_empty-cases [] = inl refl
is_empty-cases (x ∷ xs) = inr refl

module _ (s : Store) (selector : BreakpointSelector) where
  -- A removal reports what a dry run of it says.
  pub remove-select :
      ((remove s selector).0.breakpoints ≡ (select s selector).0)
      × ((remove s selector).0.not_found ≡ (select s selector).1)
  unfolding remove select
  remove-select = ground arith

  removed :
      Distinct (breakpoint_ids s.breakpoints)
      → (remove s selector).1.breakpoints ≡ filter (λ b. not (matches selector b)) s.breakpoints
  unfolding remove
  removed distinct = elim (is_empty-cases (pick selector s.breakpoints)) [
    | inl nothing ↦ rw nothing (sym (none_picked (matches selector) s.breakpoints nothing))
    | inr some ↦
        rw some
          (retain_unpicked (λ (b : Breakpoint). b.id) (matches selector) s.breakpoints distinct)
  ]

  -- Where ids are distinct, what is left after a removal are the breakpoints that the selector does
  -- not match, in their order. The counter stands where it stood, so the ids are not given out again, and the watches
  -- are not touched.
  pub remove_lem :
      Distinct (breakpoint_ids s.breakpoints)
      → ((remove s selector).1.breakpoints ≡ filter (λ b. not (matches selector b)) s.breakpoints)
        × ((remove s selector).1.next_id ≡ s.next_id)
        × ((remove s selector).1.watches ≡ s.watches)
        × ((remove s selector).1.next_watch_id ≡ s.next_watch_id)
  remove_lem distinct = (
    removed distinct,
    unfold remove in ground arith,
    unfold remove in ground arith,
    unfold remove in ground arith,
  )

  -- Where ids are distinct, no breakpoint that a removal selected is left.
  pub select-remove :
      Distinct (breakpoint_ids s.breakpoints) → (select (remove s selector).1 selector).0 ≡ []
  unfolding select
  select-remove distinct = rw (removed distinct) (filter_none (matches selector) s.breakpoints)

  toggled :
      Distinct (breakpoint_ids s.breakpoints)
      → (toggle s selector).1.breakpoints
        ≡ map (λ b. if matches selector b then flip b else b) s.breakpoints
  unfolding toggle
  toggled distinct = elim (is_empty-cases (pick selector s.breakpoints)) [
    | inl nothing ↦ rw nothing (sym (none_mapped flip (matches selector) s.breakpoints nothing))
    | inr some ↦
        rw some
          (map_picked (λ (b : Breakpoint). b.id) flip (matches selector) s.breakpoints distinct)
  ]

  reported :
      Distinct (breakpoint_ids s.breakpoints)
      → (toggle s selector).0.breakpoints ≡ map flip (select s selector).0
  unfolding toggle select
  reported distinct = elim (is_empty-cases (pick selector s.breakpoints)) [
    | inl nothing ↦ rw nothing refl
    | inr some ↦ rw some (
        ap (map flip)
          (filter_picked (λ (b : Breakpoint). b.id) (matches selector) s.breakpoints distinct))
  ]

  -- Where ids are distinct, a toggle reports the breakpoints that a dry run selects, with `enabled` flipped, and changes
  -- those and no others.
  pub toggle_lem :
      Distinct (breakpoint_ids s.breakpoints)
      → ((toggle s selector).0.breakpoints ≡ map flip (select s selector).0)
        × ((toggle s selector).0.not_found ≡ (select s selector).1)
        × ((toggle s selector).1.breakpoints
            ≡ map (λ b. if matches selector b then flip b else b) s.breakpoints)
  toggle_lem distinct = (reported distinct, unfold toggle select in ground arith, toggled distinct)

matches-flip :
    (selector : BreakpointSelector) (b : Breakpoint)
    → matches selector (flip b) ≡ matches selector b
unfolding matches flip
matches-flip (ids wanted) b = refl
matches-flip _ b = refl

-- One toggle of `selector`, on one breakpoint.
abbrev pub toggle_one : BreakpointSelector → Breakpoint → Breakpoint
toggle_one selector b = if matches selector b then flip b else b

pub toggle_one_id :
    (selector : BreakpointSelector) (b : Breakpoint) → (toggle_one selector b).id ≡ b.id
unfolding flip
toggle_one_id selector b = ground arith

toggle_one_twice :
    (selector : BreakpointSelector) (b : Breakpoint)
    → toggle_one selector (toggle_one selector b) ≡ b
unfolding flip
toggle_one_twice selector b = ground (arith, matches-flip selector b)

toggle_all_twice :
    (selector : BreakpointSelector) (bs : List Breakpoint)
    → map (toggle_one selector) (map (toggle_one selector) bs) ≡ bs
toggle_all_twice selector [] = refl
toggle_all_twice selector (b ∷ bs) = rw (toggle_one_twice selector b, toggle_all_twice selector bs)

pub toggle_all_ids :
    (selector : BreakpointSelector) (bs : List Breakpoint)
    → breakpoint_ids (map (toggle_one selector) bs) ≡ breakpoint_ids bs
toggle_all_ids selector [] = refl
toggle_all_ids selector (b ∷ bs) = rw (toggle_one_id selector b, toggle_all_ids selector bs)

-- Where ids are distinct, the same toggle twice gives the breakpoints back as they were.
pub toggle_twice :
    (s : Store) (selector : BreakpointSelector)
    → Distinct (breakpoint_ids s.breakpoints)
    → (toggle (toggle s selector).1 selector).1.breakpoints ≡ s.breakpoints
toggle_twice s selector distinct =
    toggled (toggle s selector).1 selector
      (rw (toggled s selector distinct, toggle_all_ids selector s.breakpoints) distinct)
    ∙ ap (map (toggle_one selector)) (toggled s selector distinct)
    ∙ toggle_all_twice selector s.breakpoints

contains-filter :
    (p : ℕ → Bool) (xs : List ℕ) (i : ℕ)
    → contains ℕ_discrete (filter p xs) i ≡ (contains ℕ_discrete xs i && p i)
contains-filter p [] i = refl
contains-filter p (x ∷ xs) i = ground (arith, contains-filter p xs i)

contains_picked :
    (asked : List ℕ) (bs : List Breakpoint) (i : ℕ)
    → contains ℕ_discrete (breakpoint_ids (filter (λ b. contains ℕ_discrete asked b.id) bs)) i
      ≡ (contains ℕ_discrete asked i && contains ℕ_discrete (breakpoint_ids bs) i)
contains_picked asked [] i = ground arith
contains_picked asked (b ∷ bs) i = ground (arith, contains_picked asked bs i)

-- Of the ids that a command named, exactly those that no breakpoint has are reported as not found.
pub not_found-select :
    (s : Store) (asked : List ℕ) (i : ℕ)
    → contains ℕ_discrete (select s (ids asked)).1 i
      ≡ (contains ℕ_discrete asked i && not (contains ℕ_discrete (breakpoint_ids s.breakpoints) i))
unfolding select
not_found-select s asked i =
    contains-filter _ asked i ∙ ground (arith, contains_picked asked s.breakpoints i)

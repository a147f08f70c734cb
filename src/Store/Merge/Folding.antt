-- ===== src/Store/Merge/Folding.antt =====
-- crates/store/src/lib.rs: who wins when a project's file and the daemon's memory have both changed.
use lazydap.Prelude.{
  ap, ap₂, ℕ, ◌+◌, ◌<◌, ◌≤◌, ◌≡◌, refl, ◌∙◌, arith, Bool, true, false, not, ◌&&◌, ◌||◌, List, [],
  ◌∷◌, ◌++◌, map, filter, All, if◌then◌else◌, u32_mod,
}
use lazydap.Core.Breakpoint.{Breakpoint}
use lazydap.Store.{Store, breakpoint_ids}
use lazydap.Store.Ids.{Distinct, Distinct-filter}
use lazydap.Store.Merge.{
  has, retained, adopted_from, merge_by_id, one_past_highest, Contents, adopt,
}

-- Whether an id is in a merged list, by whether it is in memory, in the file now, and in the file as
-- it was: memory's items stay unless the file dropped them, and the file's are adopted if new.
abbrev pub stays : Bool → Bool → Bool → Bool
stays ours was now = if ours then now || not was else now && not was

stays_lem :
    (ours was now : Bool)
    → ((now || not was) && ours || (not ((now || not was) && ours) && not was) && now)
      ≡ stays ours was now
stays_lem true true true = refl
stays_lem true true false = refl
stays_lem true false true = refl
stays_lem true false false = refl
stays_lem false true true = refl
stays_lem false true false = refl
stays_lem false false true = refl
stays_lem false false false = refl

module _ {T : Type 0} (id_of : T → ℕ) where
  has-filter :
      (q : ℕ → Bool) (xs : List T) (i : ℕ)
      → has id_of (filter (λ y. q (id_of y)) xs) i ≡ (q i && has id_of xs i)
  has-filter q [] i = ground arith
  has-filter q (x ∷ xs) i = ground (arith, has-filter q xs i)

  has-append :
      (xs ys : List T) (i : ℕ) → has id_of (xs ++ ys) i ≡ (has id_of xs i || has id_of ys i)
  has-append [] ys i = refl
  has-append (x ∷ xs) ys i = ground (arith, has-append xs ys i)

  -- An id is in the merged list if memory has it and the file still has it or never had it, or if
  -- memory does not have it, the file does, and the baseline does not.
  pub has-merge_by_id :
      (ours baseline file : List T) (i : ℕ)
      → has id_of (merge_by_id id_of ours baseline file).1 i
        ≡ stays (has id_of ours i) (has id_of baseline i) (has id_of file i)
  unfolding merge_by_id retained adopted_from
  has-merge_by_id ours baseline file i =
      let q : ℕ → Bool = λ j. has id_of file j || not (has id_of baseline j) in
      let kept = filter (λ y. q (id_of y)) ours in
      let new : ℕ → Bool = λ j. not (has id_of kept j) && not (has id_of baseline j) in
      let o = has id_of ours i in
      let w = has id_of baseline i in
      let n = has id_of file i in
      has-append kept (filter (λ y. new (id_of y)) file) i
      ∙ ap₂ (λ x y. x || y) (has-filter q ours i) (has-filter new file i)
      ∙ ap (λ k. (n || not w) && o || (not k && not w) && n) (has-filter q ours i)
      ∙ stays_lem o w n

  disjoint-Distinct :
      (xs ys : List T)
      → Distinct (map id_of xs)
      → Distinct (map id_of ys)
      → ((i : ℕ) → has id_of xs i ≡ true → has id_of ys i ≡ false)
      → Distinct (map id_of (xs ++ ys))
  disjoint-Distinct [] ys hx hy apart = hy
  disjoint-Distinct (x ∷ xs) ys hx hy apart = (
    has-append xs ys (id_of x) ∙ ap₂ (λ a b. a || b) hx.0 (apart (id_of x) (ground arith)),
    disjoint-Distinct xs ys hx.1 hy (λ i h. apart i (ground (arith, h))),
  )

  -- Where the ids in memory are distinct and those in the file are, the ids of the merged list are.
  pub merge_by_id-Distinct :
      (ours baseline file : List T)
      → Distinct (map id_of ours)
      → Distinct (map id_of file)
      → Distinct (map id_of (merge_by_id id_of ours baseline file).1)
  unfolding merge_by_id retained adopted_from
  merge_by_id-Distinct ours baseline file ho hf =
      let q : ℕ → Bool = λ j. has id_of file j || not (has id_of baseline j) in
      let kept = filter (λ y. q (id_of y)) ours in
      let new : ℕ → Bool = λ j. not (has id_of kept j) && not (has id_of baseline j) in
      disjoint-Distinct kept (filter (λ y. new (id_of y)) file)
        (Distinct-filter id_of (λ y. q (id_of y)) ours ho)
        (Distinct-filter id_of (λ y. new (id_of y)) file hf)
        (λ i h.
          has-filter new file i
          ∙ ap (λ k. (not k && not (has id_of baseline i)) && has id_of file i) h)

-- All ids of a list are below one past the highest, while ids stay below the last `u32`.
one_past_highest-above :
    {T : Type 0} (id_of : T → ℕ) (xs : List T)
    → All (λ y. id_of y + 1 < u32_mod) xs
    → (n : ℕ) → one_past_highest (map id_of xs) ≤ n
    → All (λ y. id_of y < n) xs
unfolding one_past_highest
one_past_highest-above id_of [] room n le = tt
one_past_highest-above id_of (x ∷ []) room n le = (omega (arith, room.0), tt)
one_past_highest-above id_of (x ∷ y ∷ rest) room n le =
    (omega (arith, room.0), one_past_highest-above id_of (y ∷ rest) room.1 n (omega arith))

-- Where the ids of the breakpoints in memory are distinct, those in the file are, and those that are
-- left stay below the last `u32`: after the file's edits are taken over, the breakpoints' ids are
-- distinct and below the next id to be given out, which has not fallen.
pub adopt-Distinct :
    (s : Store) (baseline contents : Contents)
    → Distinct (breakpoint_ids s.breakpoints)
    → Distinct (breakpoint_ids contents.breakpoints)
    → All (λ b. b.id + 1 < u32_mod) (adopt s baseline contents).breakpoints
    → Distinct (breakpoint_ids (adopt s baseline contents).breakpoints)
      × All
          (λ b. b.id < (adopt s baseline contents).next_id)
          (adopt s baseline contents).breakpoints
      × s.next_id ≤ (adopt s baseline contents).next_id
unfolding adopt
adopt-Distinct s baseline contents ho hf room = (
  merge_by_id-Distinct (λ (b : Breakpoint). b.id) s.breakpoints baseline.breakpoints
      contents.breakpoints ho hf,
  one_past_highest-above (λ (b : Breakpoint). b.id) (adopt s baseline contents).breakpoints room
      (adopt s baseline contents).next_id (omega arith),
  omega arith,
)

-- ===== src/Daemon/Watching/Previews.antt =====
-- The dry runs of the watch commands, against the commands.
use lazydap.Prelude.{
  ◌≡◌, refl, sym, ap, ◌⊎◌, inl, inr, ℕ, none, some, Bool, true, false, List, [], ◌∷◌, ◌++◌, map,
  find, filter, All, String, arith, Bool-cases,
}
use lazydap.Core.Watch.{Watch, NewWatch}
use lazydap.Core.Selector.{WatchSelector, pick_watches, watch_matches}
use lazydap.Store.{select_watches, add_watch, add_watch_at, remove_watches, same_expression}
use lazydap.Core.Request.{WatchReport}
use lazydap.Daemon.Editing.{World}
use lazydap.Daemon.Watching.{add, remove, previewed, announcement, announce}

-- A list, cut at the first item that a test finds, if there is one.
filter-found {ℓ} :
    {A : Type ℓ} (p : A → Bool) (xs : List A)
    → ((find p xs ≡ none) × (filter p xs ≡ []) × All (λ y. p y ≡ false) xs)
      ⊎ ((x : A) × (before : List A) × (after : List A) × (find p xs ≡ some x)
          × (filter p xs ≡ x ∷ filter p after)
          × (xs ≡ before ++ (x ∷ after))
          × (p x ≡ true)
          × All (λ y. p y ≡ false) before)
filter-found p [] = inl (refl, refl, tt)
filter-found p (x ∷ xs) = elim (Bool-cases (p x)) [
  | inl hit ↦ inr (x, [], xs, rw hit refl, rw hit refl, refl, hit, tt)
  | inr miss ↦ elim (filter-found p xs) [
    | inl (absent, nothing, others) ↦ inl (rw miss absent, rw miss nothing, (miss, others))
    | inr (y, before, after, found, picked, cut, hit, others) ↦ inr (
      y,
      x ∷ before,
      after,
      rw miss found,
      rw miss picked,
      ap (λ ys. x ∷ ys) cut,
      hit,
      (miss, others),
    )
  ]
]

unfoldable pub numbered : ℕ → NewWatch → Watch
numbered id new = record { id = id; expression = new.expression; label = new.label }

remove-agrees :
    (selector : WatchSelector) (w : World)
    → (remove selector true w).0 ≡ record (remove selector false w).0 { dry_run = true }
unfolding remove select_watches remove_watches
remove-agrees selector w = ground arith

says→has :
    (text : String) (watch : Watch) → same_expression text watch ≡ true → watch.expression ≡ text
unfolding same_expression
says→has text watch h = ground arith

says_not→has_not :
    (text : String) (watch : Watch)
    → same_expression text watch ≡ false
    → ¬ (watch.expression ≡ text)
unfolding same_expression
says_not→has_not text watch h = λ same. ground (arith, same)

All-has_not :
    (text : String) (watches : List Watch)
    → All (λ y. same_expression text y ≡ false) watches
    → All (λ y. ¬ (y.expression ≡ text)) watches
All-has_not text [] h = tt
All-has_not text (y ∷ ys) h = (says_not→has_not text y h.0, All-has_not text ys h.1)

-- The first watch of the project with the expression is what an addition and its dry run show.
unfoldable pub IsListed : NewWatch → World → Type 0
IsListed new w =
    (watch : Watch) × (before : List Watch) × (after : List Watch) × (w.store.watches
      ≡ before ++ (watch ∷ after))
    × All (λ y. ¬ (y.expression ≡ new.expression)) before
    × (watch.expression ≡ new.expression)
    × ((add new true w).0.watches ≡ watch ∷ [])
    × ((add new false w).0.watches ≡ watch ∷ [])
    × ((add new false w).1.store ≡ w.store)

-- No watch has the expression: one is made, and the dry run shows it without its id.
unfoldable pub IsNew : NewWatch → World → Type 0
unfolding numbered
IsNew new w =
    All (λ y. ¬ (y.expression ≡ new.expression)) w.store.watches
    × ((add new true w).0.watches ≡ numbered 0 new ∷ [])
    × ((add new false w).0.watches ≡ numbered w.store.next_watch_id new ∷ [])
    × ((add new false w).1.store.watches
        ≡ w.store.watches ++ (numbered w.store.next_watch_id new ∷ []))

add-agrees : (new : NewWatch) (w : World) → IsListed new w ⊎ IsNew new w
unfolding add select_watches add_watch add_watch_at pick_watches watch_matches same_expression
    previewed announce numbered IsListed IsNew
add-agrees new w = elim (filter-found (same_expression new.expression) w.store.watches) [
  | inl (absent, nothing, others) ↦ inr (
    All-has_not new.expression w.store.watches others,
    ap (λ found. previewed found new ∷ []) nothing,
    ap (λ held. (add_watch_at held w.store new).0 ∷ []) absent,
    ap (λ held. (add_watch_at held w.store new).1.watches) absent,
  )
  | inr (x, before, after, found, picked, cut, hit, others) ↦ inl (
    x,
    before,
    after,
    cut,
    All-has_not new.expression before others,
    says→has new.expression x hit,
    ap (λ found. previewed found new ∷ []) picked,
    ap (λ held. (add_watch_at held w.store new).0 ∷ []) found,
    ap (λ held. (add_watch_at held w.store new).1) found,
  )
]

-- A removal of watches reports what its dry run reports, but for saying that it was none; and what
-- went is announced. Of an addition, either a watch of the project has the expression: the first that
-- has is what the addition and its dry run report, and the store stays as it was. Or no watch has it:
-- the addition puts one at the end of the list and reports it, with the store's counter for its id,
-- and the dry run reports it with the id 0.
pub previews_agree :
    (selector : WatchSelector) (new : NewWatch) (w : World)
    → ((remove selector true w).0 ≡ record (remove selector false w).0 { dry_run = true })
      × ((remove selector false w).1.announced
          ≡ w.announced ++ map announcement (remove selector true w).0.watches)
      × (IsListed new w ⊎ IsNew new w)
unfolding remove announce
previews_agree selector new w = (
  remove-agrees selector w,
  ap (λ gone. w.announced ++ map announcement gone)
      (sym (ap (λ (r : WatchReport). r.watches) (remove-agrees selector w))),
  add-agrees new w,
)

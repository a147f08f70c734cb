-- ===== src/Examples/Editing.antt =====
-- The commands on breakpoints: crates/daemon/src/handlers/breakpoints.rs.
use mathlib.Mathlib.Data.List.Dedup.{subset-dedup, dedup-subset, Nodup-dedup_self}
use mathlib.Mathlib.Data.List.Defs.{dedup}
use mathlib.Core.List.{dec_all_r}
use lazydap.Prelude.{
  ◌≡◌, refl, ℕ, arith, Option, none, some, false, List, [], ◌∷◌, ◌++◌, map, ℕ_discrete,
  if◌then◌else◌,
}
use lazydap.Daemon.Editing.Due.{IsSetOf, AreDue}
use lazydap.Daemon.Editing.{Call}
use lazydap.Core.Breakpoint.{FilePath-discrete, FilePath, Breakpoint}
use lazydap.Core.Selector.{ids}
use lazydap.Store.{Store, is_unchanged}
use lazydap.Store
use lazydap.Daemon.Session.{start}
use lazydap.Daemon.Editing.{
  Reply, World, announcement, canonical_new, canonical_selector, toggle, remove, add,
}
use lazydap.Daemon.Editing.Recorded.{
  Says, is_applied, remove-Recorded, toggle-applied, add-announced,
}
use lazydap.Examples.Breakpoints.{two, at_line, kept}
use lazydap.Examples.Sessions.{stopped_session}

abbrev world : World
world = record { store = two; session = some stopped_session; announced = []; calls = [] }

abbrev as_given : FilePath → Option FilePath
as_given path = some path

-- The paths of a list, each once.
abbrev each_once : List FilePath → List FilePath
each_once = dedup FilePath-discrete

each_once-IsSetOf : (paths : List FilePath) → IsSetOf paths (each_once paths)
each_once-IsSetOf paths = record {
  kept = subset-dedup FilePath-discrete paths;
  only = dedup-subset FilePath-discrete paths;
  once = Nodup-dedup_self FilePath-discrete paths;
}

abbrev answering : Option ℕ → FilePath → List Breakpoint → Reply ℕ
answering refusal path sent = record {
  refusal = refusal;
  meanwhile = λ s. s;
  recorded = λ held. held;
}

remove-Recorded_example :
    let removal = Store.remove two (canonical_selector as_given (ids (1 ∷ 7 ∷ []))) in
    let after = remove as_given each_once (answering (some 5)) (ids (1 ∷ 7 ∷ [])) false world in
    (after.1.store ≡ removal.1)
    × (after.1.announced ≡ [] ++ map announcement removal.0.breakpoints)
    × Says after.0 removal.0
remove-Recorded_example =
    remove-Recorded as_given each_once (answering (some 5)) (λ path sent s. refl) (ids (1 ∷ 7 ∷ []))
      world

-- Both breakpoints of the file are on, and the second is switched off.
toggle-applied_example :
    let flipped = Store.toggle two (canonical_selector as_given (ids (2 ∷ []))) in
    (calls : List Call) × ((toggle as_given each_once
        (answering none)
        (ids (2 ∷ []))
        false
        world).1.calls
      ≡ [] ++ calls)
    × AreDue flipped.1 flipped.0.breakpoints calls
unfolding is_applied toggle start ℕ_discrete dec_all_r
toggle-applied_example =
    toggle-applied as_given each_once (answering none) (λ path sent s. refl) (ids (2 ∷ [])) world
      (each_once-IsSetOf _) refl

add-announced_example :
    let addition = (Store.add two (canonical_new as_given (at_line 10))).0 in
    let after = add as_given each_once (answering none) (at_line 10) false world in
    after.1.announced
    ≡ []
      ++ (if is_unchanged addition.outcome
          then if is_applied after.0 then map announcement (addition.breakpoint ∷ []) else []
          else map announcement (addition.breakpoint ∷ []))
add-announced_example = add-announced as_given each_once (answering none) (at_line 10) world

-- What is there already is announced once the adapter has taken it, and not where it has not.
again_example :
    ((add as_given each_once (answering none) (at_line 10) false world).1.announced
      ≡ announcement (kept 1 10) ∷ [])
    × ((add as_given each_once (answering (some 5)) (at_line 10) false world).1.announced ≡ [])
unfolding add start ℕ_discrete
again_example = (ground arith, ground arith)

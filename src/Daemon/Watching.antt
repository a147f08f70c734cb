-- ===== src/Daemon/Watching.antt =====
-- crates/daemon/src/handlers/watches.rs: the commands that change the project's watches. There is no
-- request that installs a watch, so that they touch the store alone.
pub mod Previews
use lazydap.Prelude.{ℕ, Option, none, some, Bool, true, false, List, [], ◌∷◌, ◌++◌, map}
use lazydap.Core.Watch.{Watch, NewWatch}
use lazydap.Core.Selector.{WatchSelector}
use lazydap.Core.Event.{Event}
use lazydap.Core.Request.{WatchAction, WatchReport}
use lazydap.Store.{Store, Removed, select_watches, add_watch, remove_watches}
use lazydap.Daemon.Editing.{World}

unfoldable pub announcement : Watch → Event
announcement watch = Event.watch_updated watch.id

unfoldable pub announce : List Watch → World → World
unfolding announcement
announce changed w = record w { announced = w.announced ++ map announcement changed }

unfoldable pub list : World → WatchReport
list w = record {
  action = WatchAction.listed;
  dry_run = false;
  watches = w.store.watches;
  not_found = [];
}

-- The watch that a dry run shows: the first that is there, or one with an id that is no watch's.
unfoldable pub previewed : List Watch → NewWatch → Watch
previewed [] new = record { id = 0; expression = new.expression; label = new.label }
previewed (existing ∷ rest) new = existing

unfoldable pub add : NewWatch → Bool → World → WatchReport × World
unfolding select_watches add_watch announce previewed
add new true w =
    let (existing, ignored) = select_watches w.store (WatchSelector.expression new.expression) in
    (
      record {
        action = WatchAction.added;
        dry_run = true;
        watches = previewed existing new ∷ [];
        not_found = [];
      },
      w,
    )
add new false w =
    let (watch, store) = add_watch w.store new in
    (
      record { action = WatchAction.added; dry_run = false; watches = watch ∷ []; not_found = [] },
      announce (watch ∷ []) (record w { store = store }),
    )

unfoldable pub remove : WatchSelector → Bool → World → WatchReport × World
unfolding select_watches remove_watches announce
remove selector true w =
    let (picked, not_found) = select_watches w.store selector in
    (
      record {
        action = WatchAction.removed;
        dry_run = true;
        watches = picked;
        not_found = not_found;
      },
      w,
    )
remove selector false w =
    let (gone, store) = remove_watches w.store selector in
    (
      record {
        action = WatchAction.removed;
        dry_run = false;
        watches = gone.watches;
        not_found = gone.not_found;
      },
      announce gone.watches (record w { store = store }),
    )

-- ===== src/Examples/Watching.antt =====
-- The commands on watches: crates/daemon/src/handlers/watches.rs.
use lazydap.Prelude.{◌≡◌, ◌⊎◌, none, some, true, false, [], ◌∷◌, ◌++◌, map}
use lazydap.Core.Watch.{Watch, NewWatch}
use lazydap.Core.Selector.{WatchSelector}
use lazydap.Daemon.Editing.{World}
use lazydap.Daemon.Watching.{remove, announcement}
use lazydap.Daemon.Watching.Previews.{IsListed, IsNew, previews_agree}
use lazydap.Examples.Breakpoints.{two}
use lazydap.Examples.Sessions.{stopped_session}

abbrev counted : Watch
counted = record { id = 1; expression = "count"; label = none }

abbrev world : World
world = record {
  store = record two { watches = counted ∷ []; next_watch_id = 2 };
  session = some stopped_session;
  announced = [];
  calls = [];
}

abbrev total : NewWatch
total = record { expression = "total"; label = some "sum" }

previews_agree_example :
    let gone = remove (WatchSelector.ids (1 ∷ 9 ∷ [])) in
    ((gone true world).0 ≡ record (gone false world).0 { dry_run = true })
    × ((gone false world).1.announced ≡ [] ++ map announcement (gone true world).0.watches)
    × (IsListed total world ⊎ IsNew total world)
previews_agree_example = previews_agree (WatchSelector.ids (1 ∷ 9 ∷ [])) total world

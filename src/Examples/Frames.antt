-- ===== src/Examples/Frames.antt =====
-- Handles: crates/daemon/src/handles.rs.
use lazydap.Prelude.{ℕ, ◌<◌, ◌≤◌, ◌≡◌, refl, arith, pos}
use lazydap.Daemon.Handles.{
  HandleTable, clear, mint, resolve, frame, ok, err, stale_handle, earlier_stop, i64_limit,
}
use lazydap.Daemon.Handles.Invariant.{IsSound, clear-Agrees}
use lazydap.Daemon.Handles.Laws.{resolve-mint}
use lazydap.Daemon.Handles.Stale.{resolve_earlier_stop}

-- A session that starts after five handles were issued, and its table at the first stop.
abbrev table : HandleTable
table = record {
  generation = 0;
  session_floor = pos 5;
  stale_floor = pos 5;
  frames = clear;
  variables = clear;
}

-- With `issued` handles issued by now.
abbrev table_IsSound : (issued : ℕ) → 5 ≤ issued → issued < i64_limit → IsSound issued table
table_IsSound issued later room = record {
  session_issued = 5;
  stale_issued = 5;
  session_floor = refl;
  stale_floor = refl;
  floors = omega arith;
  counter = later;
  room = room;
  frames = clear-Agrees 5 issued;
  variables = clear-Agrees 5 issued;
}

abbrev sound : IsSound 5 table
sound = table_IsSound 5 (omega arith) (omega arith)

resolve-mint_example :
    (resolve 9 (mint 5 table 1 frame (pos 1000)).2 1 frame (mint 5 table 1 frame (pos 1000)).0).0
    ≡ ok (pos 1000)
resolve-mint_example = resolve-mint 5 table 1 frame (pos 1000) (omega arith) sound 9

resolve_earlier_stop_example :
    (resolve 7 table 1 frame (pos 6)).0 ≡ err (stale_handle earlier_stop frame (pos 6))
resolve_earlier_stop_example =
    resolve_earlier_stop 7 table 1 frame 6 (table_IsSound 7 (omega arith) (omega arith))
      (omega arith) (omega arith) (omega arith)

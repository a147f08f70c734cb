-- ===== src/Tui/WatchList.antt =====
-- The asking for the list of watches: one request at a time, and one more where something changed
-- while it was under way.
use lazydap.Prelude.{arith, ℕ, ◌≡◌, refl, some, true, false, List, [], ◌∷◌}
use lazydap.Core.Watch.{WatchId}
use lazydap.Core.Event.{Event}
use lazydap.Core.Request.{Request, Response, WatchReport, WatchAction}
use lazydap.Tui.State.{AppState, Cmd, no_command, send_ipc, next_request_id}
use lazydap.Tui.Sending.{request_watch_list}
use lazydap.Tui.Events.{daemon_event}
use lazydap.Tui.Answers.{daemon_response, watches_answered, list_arrived, listed}
use lazydap.Tui.Watches

-- The announcements of changed watches, and the commands that they lead to.
unfoldable pub announce : List WatchId → AppState → AppState × List Cmd
unfolding daemon_event
announce [] s = (s, [])
announce (id ∷ rest) s =
    let (t, cmd) = daemon_event (Event.watch_updated id) s in
    let (u, cmds) = announce rest t in (u, cmd ∷ cmds)

abbrev pub AllQuiet : List Cmd → Type 0
AllQuiet [] = Unit
AllQuiet (cmd ∷ cmds) = (cmd ≡ no_command) × AllQuiet cmds

abbrev dirtied : AppState → AppState
dirtied s = record s { watch_list_dirty = true }

request-pending :
    (s : AppState) (pending : ℕ)
    → s.pending_watch_list ≡ some pending
    → request_watch_list s ≡ (dirtied s, no_command)
unfolding request_watch_list
request-pending s pending h = ground arith

announce-dirty :
    (id : WatchId) (rest : List WatchId) (s : AppState) (pending : ℕ)
    → s.pending_watch_list ≡ some pending
    → ((announce (id ∷ rest) s).0 ≡ dirtied s) × AllQuiet (announce (id ∷ rest) s).1
unfolding announce
announce-dirty id [] s pending h = rw (request-pending s pending h) (refl, (refl, tt))
announce-dirty id (next ∷ rest) s pending h =
    let (same, quiet) = announce-dirty next rest (dirtied s) pending h in
    rw (request-pending s pending h) (same, (refl, quiet))

list_arrived-dirty :
    (s : AppState) (pending : ℕ) (report : WatchReport)
    → s.pending_watch_list ≡ some pending
    → report.action ≡ WatchAction.listed
    → report.dry_run ≡ false
    → watches_answered pending report (dirtied s) ≡ request_watch_list (listed report (dirtied s))
unfolding watches_answered list_arrived
list_arrived-dirty s pending report h listing wet = ground arith

-- However many changes are announced while a list is waited for, nothing is asked for until the list
-- comes. Then it is shown and asked for once more, with nothing left to be asked for.
pub announced-listed :
    (id : WatchId) (rest : List WatchId) (s : AppState) (pending : ℕ) (report : WatchReport)
    → s.pending_watch_list ≡ some pending
    → report.action ≡ WatchAction.listed
    → report.dry_run ≡ false
    → let (told, cmds) = announce (id ∷ rest) s in
      let (t, cmd) = daemon_response pending (Response.watches report) told in
      AllQuiet cmds
      × (cmd ≡ send_ipc (next_request_id s) Request.watch_list)
      × (t.pending_watch_list ≡ some (next_request_id s))
      × (t.watch_list_dirty ≡ false)
      × (t.watches.watches ≡ report.watches)
unfolding daemon_response watches_answered list_arrived listed request_watch_list Watches.replace
    Watches.scroll_to_selection
announced-listed id rest s pending report h listing wet =
    let (same, quiet) = announce-dirty id rest s pending h in
    let arrived = list_arrived-dirty s pending report h listing wet in
    (
      quiet,
      rw (same, arrived) refl,
      rw (same, arrived) refl,
      rw (same, arrived) refl,
      rw (same, arrived) refl,
    )

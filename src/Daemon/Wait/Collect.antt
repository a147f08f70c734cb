-- ===== src/Daemon/Wait/Collect.antt =====
-- `Wait::collect` of crates/daemon/src/wait.rs: the loop, and what is read once the wait settled.
use lazydap.Prelude.{
  ℤ, Option, none, some, Bool, true, false, not, ◌&&◌, List, [], ◌∷◌, is_some, if◌then◌else◌,
}
use lazydap.Core.Session.{WaitOutcome, paused, exited, terminated, timeout, outcome_is_live}
use lazydap.Core.Event.{StableState}
use lazydap.Daemon.EventBuffer.{SeqEvent}
use lazydap.Daemon.Session.{Session, session_mark_delivered}
use lazydap.Daemon.Wait.{Wait, Received, Settled, waiting, abandoned, settled, run, coalesce}
use lazydap.Daemon.Wait.Context.{Adapter, World, fetch_stop_context}

-- What the world does to a wait after its loop: the events of the window in which stops are
-- gathered, the adapter, and the exit code at each poll, until the grace is over.
pub record Aftermath : Type 0 where
  pub gathered : List SeqEvent
  pub adapter : Adapter
  pub polled : List (Option ℤ)

abbrev is_terminated : WaitOutcome → Bool
is_terminated terminated = true
is_terminated _ = false

abbrev is_stop : WaitOutcome → Bool
is_stop paused = true
is_stop _ = false

-- `grace_for_exit_code` over the polls
unfoldable pub grace_for_exit_code : StableState → List (Option ℤ) → StableState
grace_for_exit_code blob [] = blob
grace_for_exit_code blob (none ∷ rest) = grace_for_exit_code blob rest
grace_for_exit_code blob (some code ∷ rest) = record blob {
  exit_code = some code;
  state = if is_terminated blob.state then exited else blob.state;
}

-- A wait that settled on a stop reads where the program is.
unfoldable pub read_stop : Bool → Aftermath → Wait → World → Wait × World
read_stop all_threads aftermath w at =
    let s : Session = at.1 in
    let gathered = if all_threads then w else coalesce s.id w aftermath.gathered in
    fetch_stop_context aftermath.adapter gathered at

-- One that settled on an ending waits a little for the exit status.
unfoldable pub read_status : Aftermath → StableState → StableState
unfolding grace_for_exit_code
read_status aftermath blob =
    if not (outcome_is_live blob.state) && not (is_some blob.exit_code)
    then grace_for_exit_code blob aftermath.polled
    else blob

-- `collect` from the outcome on, in the world at that moment; the session is marked up to the wait's watermark.
unfoldable pub settle : Bool → Aftermath → WaitOutcome → Wait → World → StableState × World
unfolding read_stop read_status
settle all_threads aftermath outcome w at =
    let w' = record w { blob = record w.blob { state = outcome } } in
    let (w'', at') = if is_stop outcome then read_stop all_threads aftermath w' at else (w', at) in
    (read_status aftermath w''.blob, (at'.0, session_mark_delivered at'.1 w''.watermark))

-- `collect` from what the loop found, `none` when the wait goes on.
unfoldable pub conclude : Bool → Aftermath → Settled → Wait → World → Option (StableState × World)
unfolding settle
conclude all_threads aftermath waiting w at = none
conclude all_threads aftermath abandoned w at = some (record w.blob { state = timeout }, at)
conclude all_threads aftermath (settled outcome) w at =
    some (settle all_threads aftermath outcome w at)

-- The loop is entered only if no ending was adopted before it.
abbrev pub entered : Option WaitOutcome → Wait → Settled × Wait → Settled × Wait
entered (some outcome) w looped = (settled outcome, w)
entered none w looped = looped

unfoldable pub collect :
    Bool → Aftermath → Wait → List Received → World → Option (StableState × World)
unfolding conclude
collect all_threads aftermath w received at =
    let s : Session = at.1 in
    let found = entered w.preempted w (run s.id all_threads w received) in
    conclude all_threads aftermath found.0 found.1 at

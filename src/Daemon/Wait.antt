-- ===== src/Daemon/Wait.antt =====
-- crates/daemon/src/wait.rs: a client's wait for the program to settle. `Wait` is the state a
-- wait carries; the broadcast channel is the sequence of what `recv` answers, and the session,
-- which the pump moves meanwhile, is a parameter at each point where the wait reads it.
pub mod Kept
pub mod Bounds
pub mod Progress
pub mod Context
pub mod Collect
pub mod FirstStop
pub mod Located
pub mod Reporting
use Prim.Native.String.{len}
use lazydap.Prelude.{
  ℕ, ◌+◌, ℤ, Option, none, some, Bool, true, false, List, [], ◌∷◌, ◌++◌, if◌then◌else◌, ◌&&◌, ◌||◌,
  not, ltb, leb, ◌==◌, find, replace_first, contains, is_some, ite, ℤ_discrete, ℕ_discrete, length,
  take, first, or_else, add_u64,
}
use lazydap.Core.Session.{
  SessionId, OutputChunk, EndReason, WaitOutcome, paused, exited, terminated, timeout, adapter_died,
  disconnected, outcome_is_live,
}
use lazydap.Core.Breakpoint.{AdapterBreakpoint}
use lazydap.Core.Inspect.{StackFrame}
use lazydap.Core.Event.{
  Event, Stop, StableState, new_blob, session_started, session_ended, stopped, continued, output,
  breakpoint_updated, thread_changed, watch_updated, session_of,
}
use lazydap.Daemon.EventBuffer.{EventBuffer, SeqEvent, undelivered, since, mark_delivered}

abbrev pub output_cap_bytes : ℕ
output_cap_bytes = 1000000

-- The channel and the session stand beside the wait, and the clock is not modelled.
pub record Wait : Type 0 where
  pub watermark : ℕ
  pub blob : StableState
  pub captured_bytes : ℕ
  pub preempted : Option WaitOutcome

unfoldable pub record_loss : Wait → ℕ → Wait
record_loss w count = if count == 0 then w else record w {
  blob = record w.blob {
    dropped_events = add_u64 w.blob.dropped_events count;
    output_truncated = true;
  };
}

-- `Event::Output` in `absorb`, both arms
unfoldable pub absorb_output : Wait → OutputChunk → Wait
absorb_output w chunk =
    if w.blob.output_truncated
    then w
    else if ltb output_cap_bytes (w.captured_bytes + len chunk.output)
    then record w { blob = record w.blob { output_truncated = true } }
    else record w {
      captured_bytes = w.captured_bytes + len chunk.output;
      blob = record w.blob { captured_output = w.blob.captured_output ++ chunk ∷ [] };
    }

abbrev pub same_thread : ℤ → Option ℤ → Bool
same_thread thread none = false
same_thread thread (some held) = ite (ℤ_discrete held thread) true false

-- `additional_stopped_threads` after a later stop of a thread
unfoldable pub with_thread : ℤ → StableState → List ℤ
with_thread thread blob =
    if same_thread thread blob.thread_id
      || contains ℤ_discrete blob.additional_stopped_threads thread
    then blob.additional_stopped_threads
    else blob.additional_stopped_threads ++ thread ∷ []

-- A stop when the wait already has one.
unfoldable pub later_stop : StableState → Stop → StableState
unfolding with_thread
later_stop blob stop = elim stop.thread_id [
  | none ↦ blob
  | some thread ↦ record blob {
    additional_stopped_threads = with_thread thread blob;
    all_threads_stopped = blob.all_threads_stopped || stop.all_threads_stopped;
  }
]

unfoldable pub absorb_stop : StableState → Stop → StableState
unfolding later_stop
absorb_stop blob stop = if is_some blob.reason then later_stop blob stop else record blob {
  reason = some stop.reason;
  raw_reason = stop.raw_reason;
  thread_id = stop.thread_id;
  adapter_thread_id = stop.adapter_thread_id;
  all_threads_stopped = stop.all_threads_stopped;
  hit_breakpoint_ids = stop.hit_breakpoint_ids;
}

unfoldable pub absorb_end : StableState → EndReason → StableState
absorb_end blob (exited code) = record blob { exit_code = code }
absorb_end blob _ = blob

-- `existing.id.is_some() && existing.id == breakpoint.id`
abbrev pub same_id : Option ℕ → Option ℕ → Bool
same_id (some a) (some b) = a == b
same_id _ _ = false

-- The closure `same`, on the two adapter ids and then the two of our ids.
abbrev pub same_ids : Option ℤ → Option ℤ → Option ℕ → Option ℕ → Bool
same_ids (some a) (some b) ours theirs = ite (ℤ_discrete a b) true false
same_ids (some a) none ours theirs = same_id ours theirs
same_ids none b ours theirs = same_id ours theirs

abbrev pub same_breakpoint : AdapterBreakpoint → AdapterBreakpoint → Bool
same_breakpoint incoming existing =
    same_ids existing.adapter_id incoming.adapter_id existing.id incoming.id

unfoldable pub absorb_breakpoint :
    List AdapterBreakpoint → AdapterBreakpoint → List AdapterBreakpoint
absorb_breakpoint updates b =
    if is_some (find (same_breakpoint b) updates)
    then replace_first (same_breakpoint b) b updates
    else updates ++ b ∷ []

unfoldable pub absorb : Wait → Event → Wait
absorb w (output id chunk) = absorb_output w chunk
absorb w (stopped id stop) = record w { blob = absorb_stop w.blob stop }
absorb w (session_ended id reason) = record w { blob = absorb_end w.blob reason }
absorb w (breakpoint_updated id b) = record w {
  blob = record w.blob { breakpoint_updates = absorb_breakpoint w.blob.breakpoint_updates b };
}
absorb w (thread_changed id update) = record w {
  blob = record w.blob { thread_updates = w.blob.thread_updates ++ update ∷ [] };
}
absorb w (session_started id adapter) = w
absorb w (continued id thread all_continued) = w
absorb w (watch_updated watch) = w

unfoldable pub absorb_backlog : Wait → Event → Wait
unfolding absorb
absorb_backlog w (output id chunk) = absorb w (output id chunk)
absorb_backlog w (breakpoint_updated id b) = absorb w (breakpoint_updated id b)
absorb_backlog w (thread_changed id update) = absorb w (thread_changed id update)
absorb_backlog w (session_started id adapter) = w
absorb_backlog w (session_ended id reason) = w
absorb_backlog w (stopped id stop) = w
absorb_backlog w (continued id thread all_continued) = w
absorb_backlog w (watch_updated watch) = w

abbrev pub outcome_of_end : EndReason → WaitOutcome
outcome_of_end (exited code) = exited
outcome_of_end (adapter_died detail) = adapter_died
outcome_of_end disconnected = terminated
outcome_of_end terminated = terminated

-- The `match` of `consider`
unfoldable pub outcome : Event → Bool → Option WaitOutcome
outcome (stopped id stop) all_threads =
    if all_threads && not stop.all_threads_stopped then none else some paused
outcome (session_ended id reason) all_threads = some (outcome_of_end reason)
outcome _ all_threads = none

unfoldable pub consider : Wait → Event → Bool → Option WaitOutcome × Wait
unfolding absorb outcome
consider w event all_threads = (outcome event all_threads, absorb w event)

-- The loop of `begin`
unfoldable pub absorb_pending : Wait → List Event → Wait
absorb_pending w [] = w
absorb_pending w (event ∷ rest) = absorb_pending (absorb_backlog w event) rest

-- A wait that has met nothing yet.
abbrev pub fresh : ℕ → Wait
fresh mark = record {
  watermark = mark;
  blob = new_blob timeout;
  captured_bytes = 0;
  preempted = none;
}

-- The wait starts from the session's history at the moment of the call.
unfoldable pub begin : EventBuffer → Wait
unfolding absorb_pending
begin b =
    let (pending, mark, lost) = undelivered b in
    absorb_pending (record_loss (fresh mark) lost) pending

abbrev is_ending : SeqEvent → Bool
is_ending s = elim s.event [ stopped id stop ↦ true | session_ended id reason ↦ true | _ ↦ false ]

-- `into_iter().rev().find(is_ending)`
last_ending : List SeqEvent → Option SeqEvent
last_ending [] = none
last_ending (s ∷ rest) =
    let later = last_ending rest in
    elim later [ some found ↦ some found | none ↦ if is_ending s then some s else none ]

unfoldable pub adopt_ending_since : EventBuffer → Wait → ℕ → Bool → Wait
unfolding last_ending
adopt_ending_since b w seq all_threads = elim (last_ending (since b seq)) [
  | none ↦ w
  | some s ↦ let (found, w') = consider w s.event all_threads in record w' { preempted = found }
]

-- `event.session_id() == Some(id)`
abbrev pub is_of : SessionId → Event → Bool
is_of id event = elim (session_of event) [ none ↦ false | some owner ↦ owner == id ]

-- The body of the loop of `reconcile`, once it found nothing so far
unfoldable pub reconcile_over : SessionId → List SeqEvent → Wait → Bool → Option WaitOutcome × Wait
reconcile_over id [] w all_threads = (none, w)
reconcile_over id (s ∷ rest) w all_threads =
    let skipped = reconcile_over id rest w all_threads in
    let (found, w') = consider (record w { watermark = s.seq }) s.event all_threads in
    let later = reconcile_over id rest w' all_threads in
    if is_of id s.event
    then elim found [ some answer ↦ (some answer, w') | none ↦ later ]
    else skipped

unfoldable pub reconcile : SessionId → EventBuffer → Wait → Bool → Option WaitOutcome × Wait
unfolding reconcile_over
reconcile id b w all_threads = reconcile_over id (since b w.watermark) w all_threads

-- What the `select!` and `recv` of one turn of the loop answer; a lag comes with the session's
-- history at that moment.
pub data Received : Type 0 where
  event : SeqEvent → Received
  lagged : ℕ → EventBuffer → Received
  closed : Received
  deadline : Received
  gone : Received

pub data Settled : Type 0 where
  -- the loop turns again
  waiting : Settled
  -- the client went away
  abandoned : Settled
  settled : WaitOutcome → Settled

abbrev pub settled_if : Option WaitOutcome → Settled
settled_if none = waiting
settled_if (some found) = settled found

-- `seq <= watermark`, or of another session
abbrev pub is_stale : SessionId → Wait → SeqEvent → Bool
is_stale id w s = leb s.seq w.watermark || not (is_of id s.event)

-- One turn of the loop of `run`
unfoldable pub turn : SessionId → Bool → Wait → Received → Settled × Wait
turn id all_threads w gone = (abandoned, w)
turn id all_threads w deadline = (settled timeout, w)
turn id all_threads w closed = (settled adapter_died, w)
turn id all_threads w (lagged missed b) =
    let (found, w') = reconcile id b (record_loss w missed) all_threads in (settled_if found, w')
turn id all_threads w (event s) =
    let (found, w') = consider (record w { watermark = s.seq }) s.event all_threads in
    if is_stale id w s then (waiting, w) else (settled_if found, w')

-- What the loop answers after a turn, given what it would answer later.
abbrev pub resume : Settled → Wait → Settled × Wait → Settled × Wait
resume waiting w later = later
resume abandoned w later = (abandoned, w)
resume (settled found) w later = (settled found, w)

-- `run` over what it receives; `waiting` at the end if it would wait on.
unfoldable pub run : SessionId → Bool → Wait → List Received → Settled × Wait
unfolding turn
run id all_threads w [] = (waiting, w)
run id all_threads w (received ∷ rest) =
    let (verdict, w') = turn id all_threads w received in
    let later = run id all_threads w' rest in resume verdict w' later

-- One turn of `coalesce`
unfoldable pub coalesce_one : SessionId → Wait → SeqEvent → Wait
coalesce_one id w s = if is_stale id w s then w else absorb (record w { watermark = s.seq }) s.event

-- `coalesce` over what arrives within its window
unfoldable pub coalesce : SessionId → Wait → List SeqEvent → Wait
unfolding coalesce_one
coalesce id w [] = w
coalesce id w (s ∷ rest) = coalesce id (coalesce_one id w s) rest

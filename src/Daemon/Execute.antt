-- ===== src/Daemon/Execute.antt =====
-- crates/daemon/src/handlers/session.rs: `execute`, which is `continue`, `step` and `pause`. What the
-- adapter answers, and how the session moves while the request is suspended, are parameters.
pub mod Requests
use lazydap.Prelude.{
  ℕ, ℤ, Option, none, some, Bool, true, false, not, ◌&&◌, List, [], ◌∷◌, first, if◌then◌else◌,
  is_some,
}
use lazydap.Core.Session.{SessionState, running, is_live, is_paused}
use lazydap.Core.Inspect.{StepKind}
use lazydap.Core.Event.{StableState}
use lazydap.Daemon.EventBuffer.{watermark}
use lazydap.Daemon.Session.{
  Session, RunClaim, ask, already_running, finished, claim_run, restore_state, expect_step,
  expect_pause, expect_nothing, withdraw, MarkerId,
}
use lazydap.Daemon.Wait.{Wait, Received, begin, adopt_ending_since}
use lazydap.Daemon.Wait.Context.{World, Reply}
use lazydap.Daemon.Wait.Collect.{Aftermath, collect}

pub data Movement : Type 0 where
  continue pause : Movement
  step : StepKind → Movement

-- `WaitMode`, with the timeout
pub data WaitMode : Type 0 where
  no_wait : WaitMode
  wait : Option ℕ → WaitMode

abbrev pub is_waiting : WaitMode → Bool
is_waiting no_wait = false
is_waiting (wait timeout) = true

pub record Execution : Type 0 where
  pub movement : Movement
  pub thread_id : Option ℤ
  pub wait : WaitMode
  pub all_threads : Bool

-- What happens around the request: the adapter's threads, what comes before the permit, the answer
-- to the movement, what a wait receives, and how the session moves until it settles.
pub record Around : Type 0 where
  pub threads : Reply (List ℤ)
  pub permit : World → World
  pub answer : Reply Unit
  pub received : List Received
  pub until_settled : World → World
  pub aftermath : Aftermath

pub data ExecError : Type 0 where
  session_finished : SessionState → ExecError
  nothing_to_pause no_threads adapter_failed : ExecError

pub data Response : Type 0 where
  failed : ExecError → Response
  -- the thread, if the adapter was asked to move it, and whether the program was running already
  continued : Option ℤ → Bool → Response
  stepped : StableState → Response
  still_waiting : Response

-- The response, what the adapter was asked, and the session afterwards.
pub record Executed : Type 0 where
  pub response : Response
  pub asked : Option (Movement × ℤ)
  pub world : World

abbrev pub is_pause : Movement → Bool
is_pause pause = true
is_pause _ = false

abbrev is_continue : Movement → Bool
is_continue continue = true
is_continue _ = false

-- `refuse_pointless_pause`
unfoldable pub is_pointless : Movement → SessionState → Bool
is_pointless movement state = is_pause movement && is_paused state

pub data Thread : Type 0 where
  thread : ℤ → Thread
  unknown : ExecError → Thread

abbrev first_thread : Option (List ℤ) → Thread
first_thread none = unknown adapter_failed
first_thread (some []) = unknown no_threads
first_thread (some (id ∷ rest)) = thread id

-- `resolve_thread`
unfoldable pub resolve_thread : Around → World → Option ℤ → Thread × World
resolve_thread around at (some id) = (thread id, at)
resolve_thread around at none = elim at.1.last_thread_id [
  | some id ↦ (thread id, at)
  | none ↦ (first_thread around.threads.answer, around.threads.meanwhile at)
]

-- `expect`
unfoldable pub expect : Session → Movement → ℤ → Option MarkerId × Session
expect s continue id = (none, expect_nothing s)
expect s (step kind) id = let (marker, s') = expect_step s id in (some marker, s')
expect s pause id = let (marker, s') = expect_pause s in (some marker, s')

abbrev withdraw_if : Option MarkerId → Session → Session
withdraw_if none s = s
withdraw_if (some marker) s = withdraw s marker

abbrev restore_if : Option SessionState → Session → Session
restore_if none s = s
restore_if (some previous) s = (restore_state s running previous).1

-- The end of `execute`: the response of a request that does not wait, or the wait's.
abbrev respond :
    Execution → Around → Option Wait → Option (Movement × ℤ) → Response → World → Executed
respond e around none asked response at = record { response = response; asked = asked; world = at }
respond e around (some w) asked response at =
    elim (collect e.all_threads around.aftermath w around.received (around.until_settled at)) [
      | none ↦ record { response = still_waiting; asked = asked; world = around.until_settled at }
      | some (blob, at') ↦ record { response = stepped blob; asked = asked; world = at' }
    ]

-- `wait.is_waiting().then(|| Wait::begin(&session))`
abbrev waiting_from : Execution → World → Option Wait
waiting_from e at = if is_waiting e.wait then some (begin at.1.events) else none

-- The program was running already: nothing is asked, and a wait looks for an ending that came between
-- the request and the claim.
unfoldable pub join : Execution → Around → World → ℕ → Executed
join e around at before =
    let waiting =
      if is_waiting e.wait
      then some (adopt_ending_since at.1.events (begin at.1.events) before e.all_threads)
      else none in
    respond e around waiting none (continued none true) at

-- After the adapter's answer: a refusal takes the marker and the claim back.
unfoldable pub answered :
    Execution → Around → ℤ → Option Wait → Option MarkerId → Option SessionState → World → Executed
answered e around id waiting marker previous at = elim around.answer.answer [
  | none ↦ record {
    response = failed adapter_failed;
    asked = some (e.movement, id);
    world = (at.0, restore_if previous (withdraw_if marker at.1));
  }
  | some unit ↦ respond e around waiting (some (e.movement, id)) (continued (some id) false) at
]

-- The adapter is asked to move the thread; `previous` is the state that a claim found.
unfoldable pub ask_adapter : Execution → Around → World → ℤ → Option SessionState → Executed
unfolding expect answered
ask_adapter e around at id previous =
    let (marker, s) = expect at.1 e.movement id in
    answered e around id (waiting_from e at) marker previous (around.answer.meanwhile (at.0, s))

-- What follows from the claim.
unfoldable pub claimed : Execution → Around → World → ℤ → ℕ → RunClaim → Executed
unfolding join ask_adapter
claimed e around at id before (finished state) = record {
  response = failed (session_finished state);
  asked = none;
  world = at;
}
claimed e around at id before already_running = join e around at before
claimed e around at id before (ask previous) = ask_adapter e around at id (some previous)

-- `execute` once the thread is known: a pause takes no permit and claims nothing.
unfoldable pub execute_on : Execution → Around → World → ℤ → Executed
unfolding claimed
execute_on e around at id =
    let permitted = around.permit at in
    let (claim, s) = claim_run permitted.1 (is_continue e.movement) in
    if is_pause e.movement
    then ask_adapter e around at id none
    else claimed e around (permitted.0, s) id (watermark permitted.1.events) claim

abbrev on_thread : Execution → Around → Thread → World → Executed
unfolding execute_on
on_thread e around (thread id) at = execute_on e around at id
on_thread e around (unknown error) at = record { response = failed error; asked = none; world = at }

unfoldable pub execute : Execution → Around → World → Executed
unfolding resolve_thread on_thread
execute e around at =
    let s : Session = at.1 in
    let (id, at') = resolve_thread around at e.thread_id in
    if not (is_live s.state)
    then record { response = failed (session_finished s.state); asked = none; world = at }
    else if is_pointless e.movement s.state
    then record { response = failed nothing_to_pause; asked = none; world = at }
    else on_thread e around id at'

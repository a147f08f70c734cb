-- ===== src/Daemon/Execute/Requests.antt =====
-- crates/daemon/src/handlers/session.rs: what `execute` asks of the adapter, and what a refusal
-- leaves.
use lazydap.Prelude.{
  ℕ, ℤ, ◌≡◌, refl, ap, ◌∙◌, arith, Option, none, some, false, Option-cases, inl, inr,
}
use lazydap.Core.Session.{SessionState, running, is_live}
use lazydap.Daemon.Session.{
  expect_step, expect_pause, expect_nothing, bump, Session, ask, claim_run, restore_state, withdraw,
  MarkerId, set_state, bump,
}
use lazydap.Daemon.EventBuffer.{watermark}
use lazydap.Daemon.Wait.{Wait}
use lazydap.Daemon.Wait.Context.{World}
use lazydap.Daemon.Wait.Collect.{collect}
use lazydap.Daemon.Execute.{
  Movement, pause, step, true, already_running, RunClaim, Bool, waiting_from, expect, Movement,
  continue, Execution, Around, Response, failed, session_finished, adapter_failed, is_pause,
  is_continue, respond, join, answered, ask_adapter, claimed, execute_on, restore_if, withdraw_if,
}

respond-asked :
    (e : Execution) (around : Around) (waiting : Option Wait) (asked : Option (Movement × ℤ))
    (r : Response) (at : World)
    → (respond e around waiting asked r at).asked ≡ asked
respond-asked e around none asked r at = refl
respond-asked e around (some w) asked r at =
    elim (Option-cases
      (collect e.all_threads around.aftermath w around.received (around.until_settled at))) [
        | inl more ↦ rw (more, respond) refl
        | inr (found, done) ↦ rw (done, respond) refl
      ]

-- A step or a resume that finds the program over when its turn comes asks the adapter nothing and
-- says so.
pub execute_on-finished :
    (e : Execution) (around : Around) (at : World) (id : ℤ)
    → is_pause e.movement ≡ false
    → is_live (around.permit at).1.state ≡ false
    → ((execute_on e around at id).asked ≡ none)
      × ((execute_on e around at id).response
          ≡ failed (session_finished (around.permit at).1.state))
unfolding execute_on claimed claim_run
execute_on-finished e around at id moves over = (rw moves rw over refl, rw moves rw over refl)

claim_run-running :
    (s : Session) (resume_only : Bool)
    → resume_only ≡ true
    → s.state ≡ running
    → (claim_run s resume_only).0 ≡ already_running
unfolding claim_run is_live
claim_run-running s resume_only resumes runs = ground arith

claimed-running :
    (e : Execution) (around : Around) (at : World) (id : ℤ) (before : ℕ) (claim : RunClaim)
    → claim ≡ already_running
    → (claimed e around at id before claim).asked ≡ none
unfolding claimed join
claimed-running e around at id before claim runs = rw runs (respond-asked e around _ none _ at)

-- A resume that finds the program running when its turn comes asks the adapter nothing, whether it
-- waits or not.
pub execute_on-running :
    (e : Execution) (around : Around) (at : World) (id : ℤ)
    → e.movement ≡ continue
    → (around.permit at).1.state ≡ running
    → (execute_on e around at id).asked ≡ none
unfolding execute_on
execute_on-running e around at id resumes runs =
    let permitted = around.permit at in
    let resume_only = is_continue e.movement in
    rw (ap is_pause resumes) (
      claimed-running e around (permitted.0, (claim_run permitted.1 resume_only).1) id
        (watermark permitted.1.events) (claim_run permitted.1 resume_only).0
        (claim_run-running permitted.1 resume_only (ap is_continue resumes) runs))

withdraw_if-state :
    (marker : Option MarkerId) (s : Session) → (withdraw_if marker s).state ≡ s.state
unfolding withdraw
withdraw_if-state none s = refl
withdraw_if-state (some marker) s = refl

restore_if-state :
    (previous : SessionState) (s : Session)
    → s.state ≡ running
    → (restore_if (some previous) s).state ≡ previous
unfolding restore_state set_state bump
restore_if-state previous s runs = ground arith

-- A request that got its claim goes on to ask the adapter.
execute_on-ask :
    (e : Execution) (around : Around) (at : World) (id : ℤ)
    → is_pause e.movement ≡ false
    → (claim_run (around.permit at).1 (is_continue e.movement)).0 ≡ ask (around.permit at).1.state
    → execute_on e around at id
      ≡ ask_adapter e around
          ((around.permit at).0, (claim_run (around.permit at).1 (is_continue e.movement)).1)
          id
          (some (around.permit at).1.state)
unfolding execute_on claimed
execute_on-ask e around at id moves claim =
    let permitted = around.permit at in
    let s = (claim_run permitted.1 (is_continue e.movement)).1 in
    rw moves (ap (claimed e around (permitted.0, s) id (watermark permitted.1.events)) claim)

answered-refused :
    (e : Execution) (around : Around) (id : ℤ) (w : Option Wait) (marker : Option MarkerId)
    (previous : SessionState) (at : World)
    → around.answer.answer ≡ none
    → at.1.state ≡ running
    → ((answered e around id w marker (some previous) at).response ≡ failed adapter_failed)
      × ((answered e around id w marker (some previous) at).world.1.state ≡ previous)
unfolding answered
answered-refused e around id w marker previous at refusal runs = (
  rw (refusal, answered) refl,
  rw (refusal, answered)
      (restore_if-state previous (withdraw_if marker at.1) (withdraw_if-state marker at.1 ∙ runs)),
)

expect-state :
    (s : Session) (movement : Movement) (id : ℤ) → (expect s movement id).1.state ≡ s.state
unfolding expect expect_step expect_pause expect_nothing
expect-state s continue id = refl
expect-state s (step kind) id = refl
expect-state s pause id = refl

claim_run-ask :
    (s : Session) (resume_only : Bool)
    → (claim_run s resume_only).0 ≡ ask s.state
    → (claim_run s resume_only).1.state ≡ running
unfolding claim_run is_live bump
claim_run-ask s resume_only h = ground arith

ask_adapter-refused :
    (e : Execution) (around : Around) (at : World) (id : ℤ) (previous : SessionState)
    → at.1.state ≡ running
    → around.answer.answer ≡ none
    → ((world : World) → (around.answer.meanwhile world).1.state ≡ world.1.state)
    → ((ask_adapter e around at id (some previous)).response ≡ failed adapter_failed)
      × ((ask_adapter e around at id (some previous)).world.1.state ≡ previous)
unfolding ask_adapter
ask_adapter-refused e around at id previous runs refusal still =
    let (marker, s) = expect at.1 e.movement id in
    answered-refused e around id (waiting_from e at) marker previous
      (around.answer.meanwhile (at.0, s)) refusal
      (still (at.0, s) ∙ expect-state at.1 e.movement id ∙ runs)

-- A step or a resume that claimed the program and that the adapter refuses leaves the state that it
-- claimed from, if the state of the session does not move until the refusal comes.
pub execute_on-refused :
    (e : Execution) (around : Around) (at : World) (id : ℤ)
    → is_pause e.movement ≡ false
    → (claim_run (around.permit at).1 (is_continue e.movement)).0 ≡ ask (around.permit at).1.state
    → around.answer.answer ≡ none
    → ((world : World) → (around.answer.meanwhile world).1.state ≡ world.1.state)
    → ((execute_on e around at id).response ≡ failed adapter_failed)
      × ((execute_on e around at id).world.1.state ≡ (around.permit at).1.state)
execute_on-refused e around at id moves claim refusal still =
    rw (execute_on-ask e around at id moves claim) (
      ask_adapter-refused e around
        ((around.permit at).0, (claim_run (around.permit at).1 (is_continue e.movement)).1) id
        (around.permit at).1.state
        (claim_run-ask (around.permit at).1 (is_continue e.movement) claim) refusal still)

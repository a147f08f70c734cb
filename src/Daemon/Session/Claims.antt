-- ===== src/Daemon/Session/Claims.antt =====
-- `claim_run` and `restore_state` of crates/daemon/src/state.rs: of the requests that move the
-- program, which one asks the adapter, and what a refusal takes back.
use lazydap.Prelude.{if_neg, ◌≢◌, ◌≡◌, refl, arith, Bool, true, false}
use lazydap.Core.Session.{
  SessionState-discrete, SessionState, initialising, running, paused, exited, terminated,
  adapter_died, is_live,
}
use lazydap.Daemon.Session.{
  set_state, restore_state, Session, RunClaim, ask, already_running, finished, claim_run, bump,
}

-- The answers of a claim, state by state.
unfoldable pub verdict : SessionState → Bool → RunClaim
verdict exited resume_only = finished exited
verdict terminated resume_only = finished terminated
verdict adapter_died resume_only = finished adapter_died
verdict running true = already_running
verdict running false = ask running
verdict paused resume_only = ask paused
verdict initialising resume_only = ask initialising

-- A claim answers by the state and the kind of the request: refused when the session is over,
-- nothing to ask for a resume of a running program, and otherwise a request to the adapter.
pub claim_run-verdict :
    (s : Session) (resume_only : Bool) → (claim_run s resume_only).0 ≡ verdict s.state resume_only
unfolding claim_run verdict is_live
claim_run-verdict s resume_only = by_state s.state resume_only s refl
  where
    by_state :
        (state : SessionState) (resume : Bool) (s : Session)
        → s.state ≡ state
        → (claim_run s resume).0 ≡ verdict state resume
    by_state exited resume s h = rw h refl
    by_state terminated resume s h = rw h refl
    by_state adapter_died resume s h = rw h refl
    by_state running true s h = rw h refl
    by_state running false s h = rw h refl
    by_state paused true s h = rw h refl
    by_state paused false s h = rw h refl
    by_state initialising true s h = rw h refl
    by_state initialising false s h = rw h refl

-- Once a request has claimed the program for the adapter, a resume with nothing in between does not
-- ask the adapter and changes nothing.
pub claim_run_twice :
    (s : Session) (resume_only : Bool)
    → (claim_run s resume_only).0 ≡ ask s.state
    → claim_run (claim_run s resume_only).1 true ≡ (already_running, (claim_run s resume_only).1)
unfolding claim_run is_live bump
claim_run_twice s resume_only h = ground arith

-- A request that claimed the program and takes the claim back leaves the state that it found; a
-- session that is no longer running is left as it is.
pub restore_state-claim_run :
    (s now : Session) (resume_only : Bool)
    → (claim_run s resume_only).0 ≡ ask s.state
    → ((restore_state (claim_run s resume_only).1 running s.state).1.state ≡ s.state)
      × (now.state ≢ running → restore_state now running s.state ≡ (false, now))
unfolding claim_run restore_state set_state bump is_live
restore_state-claim_run s now resume_only h = (
  ground arith,
  λ moved.
      if_neg (SessionState-discrete now.state running) moved (true, set_state now s.state)
        (false, now),
)

-- ===== src/Daemon/Session/Fence.antt =====
-- `stop_generation` and `still_at` of crates/daemon/src/state.rs: how a client that read the program at
-- a stop asks whether the program has moved since.
use lazydap.Prelude.{◌⊎◌, ℕ, ◌+◌, ◌≤◌, ◌≡◌, Bool, List, [], ◌∷◌, add_u64}
use lazydap.Core.Session.{SessionState, EndReason}
use lazydap.Core.Event.{Event}
use lazydap.Daemon.Session.{
  Session, claim_run, restore_state, set_state, emit, end_once, session_mark_delivered,
}

-- What happens to a session while a request is suspended.
pub data Move : Type 0 where
  set : SessionState → Move
  claim : Bool → Move
  restore : SessionState → SessionState → Move
  broadcast : Event → Move
  ending : EndReason → Move
  reported : ℕ → Move

unfoldable pub move : Session → Move → Session
move s (set state) = set_state s state
move s (claim resume_only) = (claim_run s resume_only).1
move s (restore expected previous) = (restore_state s expected previous).1
move s (broadcast event) = (emit s event).1
move s (ending reason) = (end_once s reason).1.1
move s (reported seq) = session_mark_delivered s seq

unfoldable pub moves : Session → List Move → Session
unfolding move
moves s [] = s
moves s (m ∷ rest) = moves (move s m) rest

-- A move leaves the generation, or it is one later.
Ages : Session → Session → Type 0
Ages s s' =
    (s'.stop_generation ≡ s.stop_generation) ⊎ (s'.stop_generation ≡ add_u64 s.stop_generation 1)

-- The generation grows by at most the number of moves, as long as they cannot wrap it.
Aged : Session → ℕ → Session → Type 0
Aged s n s' = s.stop_generation ≤ s'.stop_generation × s'.stop_generation ≤ s.stop_generation + n

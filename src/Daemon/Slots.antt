-- ===== src/Daemon/Slots.antt =====
-- `DaemonState` of crates/daemon/src/state.rs: the sessions that the daemon holds. The map is an
-- association list; the counter of handles is shared by all sessions.
pub mod Single
use lazydap.Prelude.{
  ℕ, ◌≡◌, refl, Option, none, some, Bool, true, false, not, List, [], ◌∷◌, filter, length, map,
  lookup, insert, ℕ_discrete, if◌then◌else◌, ◌==◌, ◌&&◌,
}
use lazydap.Core.Session.{SessionId, SessionState, is_live, AdapterKind}
use lazydap.Core.Event.{session_started}
use lazydap.Daemon.EventBuffer.{SeqEvent}
use lazydap.Daemon.Session.{Session, publish, Published}

pub data Slot : Type 0 where
  reserved : Slot
  live : Session → Slot

abbrev pub Slots : Type 0
Slots = List (SessionId × Slot)

pub record DaemonState : Type 0 where
  pub sessions : Slots
  pub handle_sequence : ℕ
  pub shutdown_requested : Bool

pub data ReserveError : Type 0 where
  -- `ErrorCode::SessionAlreadyActive`, with the occupant and its state, `none` while it launches
  session_already_active : SessionId → Option SessionState → ReserveError

abbrev describe : Slot → Option SessionState
describe reserved = none
describe (live s) = some s.state

-- `describe_occupant`
unfoldable pub describe_occupant : Slots → Option ReserveError
describe_occupant [] = none
describe_occupant ((id, slot) ∷ rest) = some (session_already_active id (describe slot))

pub data Reserved : Type 0 where
  -- the reservation, by the id that it holds
  granted : SessionId → Reserved
  refused : ReserveError → Reserved

unfoldable pub reserve : DaemonState → SessionId → Reserved × DaemonState
unfolding describe_occupant
reserve d id = elim (describe_occupant d.sessions) [
  | some error ↦ (refused error, d)
  | none ↦ (granted id, record d { sessions = insert ℕ_discrete id reserved d.sessions })
]

-- `HashMap::remove`
unfoldable pub remove_slot : SessionId → Slots → Slots
remove_slot id [] = []
remove_slot id ((held, slot) ∷ rest) =
    let others = remove_slot id rest in if held == id then others else (held, slot) ∷ others

-- `SessionReservation::promote`: the session is live, and that is broadcast.
unfoldable pub promote : DaemonState → SessionId → Session → List SeqEvent × DaemonState
promote d id s =
    let (told, s') = publish s (session_started id s.adapter_kind) in
    (told, record d { sessions = insert ℕ_discrete id (live s') d.sessions })

-- `Drop for SessionReservation`, of one that was not promoted
unfoldable pub abandon : DaemonState → SessionId → DaemonState
unfolding remove_slot
abandon d id = record d { sessions = remove_slot id d.sessions }

abbrev live_session : Option Slot → Option Session
live_session none = none
live_session (some reserved) = none
live_session (some (live s)) = some s

-- `DaemonState::session`
unfoldable pub session : DaemonState → SessionId → Option Session
session d id = live_session (lookup ℕ_discrete id d.sessions)

-- `active_session`
unfoldable pub active_session : Slots → Option Session
active_session [] = none
active_session ((id, reserved) ∷ rest) = active_session rest
active_session ((id, live s) ∷ rest) = some s

-- `remove_session`, and the end of a teardown
unfoldable pub remove_session : DaemonState → SessionId → Option Session × DaemonState
unfolding remove_slot session
remove_session d id = (session d id, record d { sessions = remove_slot id d.sessions })

abbrev pub is_finished : SessionId × Slot → Bool
is_finished (id, reserved) = false
is_finished (id, live s) = not (is_live s.state)

-- `reap_finished`: how many were removed. The compiled artifacts are the file system's.
unfoldable pub reap_finished : DaemonState → ℕ × DaemonState
reap_finished d = (
  length (filter is_finished d.sessions),
  record d { sessions = filter (λ e. not (is_finished e)) d.sessions },
)

-- The live sessions.
unfoldable pub live_sessions : Slots → List Session
live_sessions [] = []
live_sessions ((id, reserved) ∷ rest) = live_sessions rest
live_sessions ((id, live s) ∷ rest) = s ∷ live_sessions rest

unfoldable pub drain_sessions : DaemonState → List Session × DaemonState
unfolding live_sessions
drain_sessions d = (live_sessions d.sessions, record d { sessions = [] })

unfoldable pub request_shutdown : DaemonState → DaemonState
request_shutdown d = record d { shutdown_requested = true }

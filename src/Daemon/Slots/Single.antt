-- ===== src/Daemon/Slots/Single.antt =====
-- crates/daemon/src/state.rs: interleavings of launches that reserve the slot, promote it or give it
-- up, disconnects, sessions that move by themselves, and the reaping of finished ones. Shutdown, which
-- drains the sessions, is not among these steps.
use lazydap.Prelude.{
  ℕ, ◌≡◌, refl, arith, none, some, Bool, true, false, not, List, [], ◌∷◌, map, lookup, insert,
  ℕ_discrete, if◌then◌else◌, inl, inr, ◌⊎◌,
}
use lazydap.Core.Session.{SessionId, is_live}
use lazydap.Core.Event.{session_started}
use lazydap.Daemon.Session.{publish, Session}
use lazydap.Daemon.Slots.{
  Slot, Slots, reserved, live, DaemonState, Reserved, granted, refused, reserve, describe_occupant,
  promote, abandon, session, remove_session, remove_slot, reap_finished,
}

-- The daemon, and the reservations that launches under way hold.
pub record World : Type 0 where
  pub daemon : DaemonState
  pub held : List SessionId

pub data Action : Type 0 where
  -- a launch begins; it goes on only if it is granted the slot
  launch : SessionId → Action
  -- a launch that holds a reservation succeeds with a session, or fails
  succeed : Session → Action
  fail : Action
  disconnect : SessionId → Action
  reap : Action
  -- the live session moves, by its adapter or a request
  moved : (Session → Session) → Action

abbrev hold : Reserved → List SessionId → List SessionId
hold (granted id) held = id ∷ held
hold (refused error) held = held

abbrev move_slot : (Session → Session) → SessionId × Slot → SessionId × Slot
move_slot f (id, reserved) = (id, reserved)
move_slot f (id, live s) = (id, live (f s))

-- `begin_teardown` needs a live session, and dropping the teardown removes it. The two are one step
-- here; between them the code keeps the slot taken.
unfoldable pub tear_down : DaemonState → SessionId → DaemonState
unfolding session remove_session
tear_down d id = elim (session d id) [ none ↦ d | some s ↦ (remove_session d id).1 ]

unfoldable pub act : World → Action → World
unfolding tear_down
act w (launch id) =
    let (verdict, d) = reserve w.daemon id in record { daemon = d; held = hold verdict w.held }
act w (succeed s) = elim w.held [
  | [] ↦ w
  | id ∷ others ↦ record { daemon = (promote w.daemon id s).1; held = others }
]
act w fail = elim w.held [
  | [] ↦ w
  | id ∷ others ↦ record { daemon = abandon w.daemon id; held = others }
]
act w (disconnect id) = record w { daemon = tear_down w.daemon id }
act w reap = record w { daemon = (reap_finished w.daemon).1 }
act w (moved f) = record w {
  daemon = record w.daemon { sessions = map (move_slot f) w.daemon.sessions };
}

unfoldable pub acts : World → List Action → World
unfolding act
acts w [] = w
acts w (a ∷ rest) = acts (act w a) rest

abbrev pub idle_daemon : ℕ → World
idle_daemon sequence = record {
  daemon = record { sessions = []; handle_sequence = sequence; shutdown_requested = false };
  held = [];
}

-- What the slots are, given the reservations held.
pub data Phase : Slots → List SessionId → Type 0 where
  idle : Phase [] []
  launching : (id : SessionId) → Phase ((id, reserved) ∷ []) (id ∷ [])
  debugging : (id : SessionId) (s : Session) → Phase ((id, live s) ∷ []) []

abbrev IsSingle : World → Type 0
IsSingle w = Phase w.daemon.sessions w.held

abbrev at : Slots → List SessionId → ℕ → Bool → World
at slots held n stopping = record {
  daemon = record { sessions = slots; handle_sequence = n; shutdown_requested = stopping };
  held = held;
}

insert_same :
    (id : SessionId) (old new : Slot) → insert ℕ_discrete id new ((id, old) ∷ []) ≡ (id, new) ∷ []
unfolding insert
insert_same id old new = ground arith

remove_same : (id : SessionId) (slot : Slot) → remove_slot id ((id, slot) ∷ []) ≡ []
unfolding remove_slot
remove_same id slot = ground arith

lookup_one :
    (id other : SessionId) (slot : Slot)
    → (lookup ℕ_discrete other ((id, slot) ∷ []) ≡ none)
      ⊎ ((id ≡ other) × (lookup ℕ_discrete other ((id, slot) ∷ []) ≡ some slot))
unfolding lookup
lookup_one id other slot = ground arith

-- A disconnect does nothing while a session launches, and frees the slot of a session that is live.
tear_down_launching :
    (n : ℕ) (stopping : Bool) (id other : SessionId)
    → (tear_down (at ((id, reserved) ∷ []) (id ∷ []) n stopping).daemon other).sessions
      ≡ (id, reserved) ∷ []
unfolding tear_down session
tear_down_launching n stopping id other = elim (lookup_one id other reserved) [
  | inl missing ↦ rw (missing, tear_down, session) refl
  | inr (same, found) ↦ rw (found, tear_down, session) refl
]

tear_down-Phase :
    (n : ℕ) (stopping : Bool) (id other : SessionId) (s : Session)
    → Phase (tear_down (at ((id, live s) ∷ []) [] n stopping).daemon other).sessions []
unfolding tear_down session remove_session
tear_down-Phase n stopping id other s = elim (lookup_one id other (live s)) [
  | inl missing ↦ rw (missing, tear_down, session) (debugging id s)
  | inr (same, found) ↦ rw (found, tear_down, session) rw (← same) rw (remove_same id (live s)) idle
]

reap-Phase :
    (id : SessionId) (s : Session) (over : Bool) → Phase (if over then (id, live s) ∷ [] else []) []
reap-Phase id s true = debugging id s
reap-Phase id s false = idle

act-Phase :
    (n : ℕ) (stopping : Bool) (slots : Slots) (held : List SessionId)
    → Phase slots held
    → (a : Action) → IsSingle (act (at slots held n stopping) a)
unfolding act reserve describe_occupant insert promote abandon reap_finished lookup
act-Phase n stopping _ _ idle (launch id) = launching id
act-Phase n stopping _ _ idle (succeed s) = idle
act-Phase n stopping _ _ idle fail = idle
act-Phase n stopping _ _ idle (disconnect id) = idle
act-Phase n stopping _ _ idle reap = idle
act-Phase n stopping _ _ idle (moved f) = idle
act-Phase n stopping _ _ (launching id) (launch other) = launching id
act-Phase n stopping _ _ (launching id) (succeed s) =
    rw (insert_same id reserved (live (publish s (session_started id s.adapter_kind)).1))
      (debugging id _)
act-Phase n stopping _ _ (launching id) fail = rw (remove_same id reserved) idle
act-Phase n stopping _ _ (launching id) (disconnect other) =
    rw (tear_down_launching n stopping id other) (launching id)
act-Phase n stopping _ _ (launching id) reap = launching id
act-Phase n stopping _ _ (launching id) (moved f) = launching id
act-Phase n stopping _ _ (debugging id s) (launch other) = debugging id s
act-Phase n stopping _ _ (debugging id s) (succeed s') = debugging id s
act-Phase n stopping _ _ (debugging id s) fail = debugging id s
act-Phase n stopping _ _ (debugging id s) (disconnect other) = tear_down-Phase n stopping id other s
act-Phase n stopping _ _ (debugging id s) reap = reap-Phase id s (not (not (is_live s.state)))
act-Phase n stopping _ _ (debugging id s) (moved f) = debugging id (f s)

acts-Phase :
    (n : ℕ) (stopping : Bool) (slots : Slots) (held : List SessionId)
    → Phase slots held
    → (actions : List Action) → IsSingle (acts (at slots held n stopping) actions)
unfolding acts
acts-Phase n stopping slots held h [] = h
acts-Phase n stopping slots held h (a ∷ rest) =
    let next = act (at slots held n stopping) a in
    acts-Phase next.daemon.handle_sequence next.daemon.shutdown_requested next.daemon.sessions
      next.held (act-Phase n stopping slots held h a) rest

-- From an idle daemon, after any launches, disconnects, reapings and moves of sessions, at most one
-- session is held: either none and no launch is under way, or the one that a launch has reserved, or a live one
-- with no launch under way.
pub acts-IsSingle :
    (n : ℕ) (actions : List Action)
    → Phase (acts (idle_daemon n) actions).daemon.sessions (acts (idle_daemon n) actions).held
acts-IsSingle n actions = acts-Phase n false [] [] idle actions

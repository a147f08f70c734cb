-- ===== src/Daemon/Session/Breakpoints.antt =====
-- `BreakpointMap` of crates/daemon/src/state.rs: our breakpoints by their ids, with what the
-- adapter last said of each, and the events by which the adapter changes its mind.
use lazydap.Prelude.{
  ℤ, Option, none, some, Bool, true, false, List, [], ◌∷◌, find, lookup, insert, ℕ_discrete,
  ℤ_discrete, ite, is_some, if◌then◌else◌, map,
}
use lazydap.Core.Breakpoint.{
  AdapterBreakpoint, BreakpointId, Breakpoint, BreakpointStatus, unverified, apply,
}
use lazydap.Daemon.Session.{BreakpointMap, Session}

-- `BreakpointMap::record`
unfoldable pub store_applied : BreakpointMap → List AdapterBreakpoint → BreakpointMap
store_applied m [] = m
store_applied m (b ∷ rest) =
    store_applied (elim b.id [ none ↦ m | some id ↦ insert ℕ_discrete id b m ]) rest

abbrev pub has_adapter_id : ℤ → Option ℤ → Bool
has_adapter_id id none = false
has_adapter_id id (some said) = ite (ℤ_discrete said id) true false

-- `Option::map(|(id, _)| *id)`
abbrev pub key : Option (BreakpointId × AdapterBreakpoint) → Option BreakpointId
key none = none
key (some (id, b)) = some id

-- `BreakpointMap::ours`; a `HashMap` is searched in no order, here in that of the entries.
unfoldable pub ours : BreakpointMap → ℤ → Option BreakpointId
ours m adapter_id = key (find (λ e. has_adapter_id adapter_id e.1.adapter_id) m)

-- `BreakpointMap::status`
unfoldable pub status : BreakpointMap → BreakpointId → Option AdapterBreakpoint
status m id = lookup ℕ_discrete id m

-- What `update` writes over an entry.
unfoldable pub merged : AdapterBreakpoint → AdapterBreakpoint → AdapterBreakpoint
merged existing update = record existing {
  verified = update.verified;
  line = if is_some update.line then update.line else existing.line;
  message = if is_some update.message then update.message else existing.message;
}

-- The write through `get_mut`.
unfoldable pub update_at : BreakpointMap → Option BreakpointId → AdapterBreakpoint → BreakpointMap
unfolding merged
update_at m none update = m
update_at m (some id) update = elim (lookup ℕ_discrete id m) [
  | none ↦ m
  | some existing ↦ insert ℕ_discrete id (merged existing update) m
]

-- `BreakpointMap::update`
unfoldable pub update : BreakpointMap → AdapterBreakpoint → BreakpointMap
unfolding update_at ours
update m said = elim said.adapter_id [
  | none ↦ m
  | some adapter_id ↦ update_at m (ours m adapter_id) said
]

unfoldable pub record_breakpoints : Session → List AdapterBreakpoint → Session
unfolding store_applied
record_breakpoints s applied = record s { breakpoints = store_applied s.breakpoints applied }

unfoldable pub breakpoint_id_for : Session → ℤ → Option BreakpointId
unfolding ours
breakpoint_id_for s adapter_id = ours s.breakpoints adapter_id

unfoldable pub update_breakpoint : Session → AdapterBreakpoint → Session
unfolding update
update_breakpoint s said = record s { breakpoints = update s.breakpoints said }

-- One breakpoint of `decorate`.
unfoldable pub decorated : BreakpointMap → Breakpoint → BreakpointStatus
unfolding unverified apply status
decorated m b = elim (status m b.id) [ none ↦ unverified b | some said ↦ apply (unverified b) said ]

unfoldable pub decorate : Session → List Breakpoint → List BreakpointStatus
unfolding decorated
decorate s breakpoints = map (decorated s.breakpoints) breakpoints

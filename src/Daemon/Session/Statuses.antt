-- ===== src/Daemon/Session/Statuses.antt =====
-- `BreakpointMap` of crates/daemon/src/state.rs: an adapter's event about one breakpoint.
use lazydap.Prelude.{ℤ, ◌≡◌, some, lookup-insert, ℕ_discrete, ite}
use lazydap.Core.Breakpoint.{AdapterBreakpoint, BreakpointId}
use lazydap.Daemon.Session.{BreakpointMap}
use lazydap.Daemon.Session.Breakpoints.{ours, status, update, update_at, merged}

-- What the adapter says of a breakpoint that is ours is merged into what is known of it, and what is
-- known of every other breakpoint stays.
pub status-update :
    (m : BreakpointMap) (said existing : AdapterBreakpoint) (adapter_id : ℤ) (of : BreakpointId)
    → said.adapter_id ≡ some adapter_id
    → ours m adapter_id ≡ some of
    → status m of ≡ some existing
    → (id : BreakpointId)
    → status (update m said) id ≡ ite (ℕ_discrete of id) (some (merged existing said)) (status m id)
unfolding status update update_at
status-update m said existing adapter_id of named found known id =
    rw (named, update) rw (found, update_at) rw (known, update_at)
      (lookup-insert ℕ_discrete of id (merged existing said) m)

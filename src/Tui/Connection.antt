-- ===== src/Tui/Connection.antt =====
-- crates/tui/src/update.rs: the connection to the daemon. It is lost and tried again, each attempt
-- later than the one before, until one succeeds. Attempts and ticks are `u32`.
use lazydap.Prelude.{
  String, ℕ, ◌+◌, ◌-◌, ◌*◌, ◌^◌, none, some, false, List, [], ◌∷◌, map, if◌then◌else◌, ltb, leb,
  add_u32, u32_mod,
}
use lazydap.Core.Request.{Request, EventKind}
use lazydap.Tui.State.{
  AppState, Cmd, no_command, batch, reconnect, Cmds, nothing, also, Step, Connection, is_awaiting,
  is_reachable, Outcome, ok, err,
}
use lazydap.Tui.State
use lazydap.Tui.Sending.{send, request_watch_list, forget_position, unverify}
use lazydap.Tui.Repl

abbrev pub channels : List EventKind
channels =
    EventKind.session_started ∷ EventKind.session_ended ∷ EventKind.stopped ∷ EventKind.continued
    ∷ EventKind.breakpoint_updated ∷ EventKind.watch_updated ∷ []

abbrev pub proven_ticks : ℕ
proven_ticks = 50

abbrev pub reconnect_base_ms : ℕ
reconnect_base_ms = 250

abbrev pub reconnect_max_ms : ℕ
reconnect_max_ms = 4000

abbrev pub reconnect_ceiling_doublings : ℕ
reconnect_ceiling_doublings = 5

abbrev pub smaller : ℕ → ℕ → ℕ
smaller a b = if ltb b a then b else a

-- Subtraction on `u32` saturates in the code too; a shift by `n` is a product by `2 ^ n`.
unfoldable pub backoff : ℕ → ℕ
backoff attempt =
    let doublings = smaller (attempt - 1) reconnect_ceiling_doublings in
    smaller (reconnect_base_ms * 2 ^ doublings) reconnect_max_ms

unfoldable pub connected : AppState → Step
unfolding send request_watch_list
connected s =
    let (s₁, subscribe) =
      send (Request.subscribe channels)
        (record s { connection = State.connected; connected_for = 0 }) in
    let (s₂, breakpoints) = send Request.breakpoint_list s₁ in
    let (s₃, watches) =
      request_watch_list (record s₂ { pending_watch_list = none; watch_list_dirty = false }) in
    (s₃, batch (also subscribe (also breakpoints (also watches nothing))))

-- `forget_verification`
unfoldable pub forget_verification : AppState → AppState
unfolding unverify
forget_verification s = record s { breakpoints = map unverify s.breakpoints }

-- The attempt that begins.
unfoldable pub attempt_now : ℕ → AppState → Step
unfolding backoff
attempt_now attempt s = (
  record s { reconnect_attempt = attempt; connection = State.reconnecting attempt },
  reconnect attempt (backoff attempt),
)

abbrev pub gone_reason : String
gone_reason = "the daemon went away"

-- `daemon_gone`, of a daemon that was connected
unfoldable pub lost : AppState → Step
unfolding forget_position forget_verification Repl.abandon_pending attempt_now
lost s =
    let forgotten = forget_verification (forget_position (record s { session = none })) in
    attempt_now (add_u32 s.reconnect_attempt 1) (record forgotten {
      repl = Repl.abandon_pending gone_reason forgotten.repl;
      pending_repl = [];
      notice = some "the daemon went away — reconnecting";
    })

unfoldable pub daemon_gone : AppState → Step
unfolding lost
daemon_gone s = if is_reachable s then lost s else (s, no_command)

-- `saturating_add(1)`
abbrev pub one_more : ℕ → ℕ
one_more n = if ltb (n + 1) u32_mod then n + 1 else n

unfoldable pub tick : AppState → AppState
tick s =
    let ticks = one_more s.connected_for in
    if is_reachable s
    then record s {
      connected_for = ticks;
      reconnect_attempt = if leb proven_ticks ticks then 0 else s.reconnect_attempt;
    }
    else s

-- What an attempt that is waited for came to.
unfoldable pub settle : ℕ → Outcome Unit → AppState → Step
unfolding connected attempt_now
settle attempt (ok done) s = connected (record s { notice = none })
settle attempt (err error) s = attempt_now (add_u32 attempt 1) s

unfoldable pub reconnected : ℕ → Outcome Unit → AppState → Step
unfolding is_awaiting settle
reconnected attempt outcome s =
    if is_awaiting attempt s then settle attempt outcome s else (s, no_command)

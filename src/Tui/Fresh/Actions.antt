-- ===== src/Tui/Fresh/Actions.antt =====
-- The ids of the requests that the user's actions send.
use lazydap.Prelude.{
  ap, ◌++◌, Option-cases, inl, inr, arith, ℕ, ◌+◌, ◌≡◌, refl, ℤ, some, [], length,
}
use lazydap.Core.Inspect.{StackFrame}
use lazydap.Tui.State.{
  AppState, Cmd, no_command, quit, load_source, send_ipc, batch, reconnect, Cmds, also, Location,
  SessionSnapshot,
}
use lazydap.Tui.Sending.{
  frame_location, send, scopes_request, watch_requests, show, load, one_or_batch,
  unreachable_notice, with_source,
}
use lazydap.Tui.Actions.{
  execute, toggle_at, toggle_breakpoint, with_jump, show_frame, enter_frame, select_frame, expand,
  expand_node, load_node, ask_variables, add_watch_of, remove_watch, evaluate, submit_repl,
  Movement,
}
use lazydap.Tui.Fresh.{
  ids, all_ids, HasRoom, IsFresh, AreFresh, most, next_request_id_lem, weaken_all, one_or_batch-ids,
  scopes_and_watches-IsFresh,
}
use lazydap.Tui.Scopes
use lazydap.Tui.Input.{TextInput}

pub execute-IsFresh :
    (movement : Movement) (s : AppState)
    → HasRoom 1 s.next_request
    → IsFresh 1 s.next_request (execute movement s)
unfolding execute unreachable_notice send ids
execute-IsFresh movement s h = ground (arith, next_request_id_lem s h)

pub toggle_breakpoint-IsFresh :
    (s : AppState) → HasRoom 1 s.next_request → IsFresh 1 s.next_request (toggle_breakpoint s)
unfolding toggle_breakpoint toggle_at unreachable_notice ids
toggle_breakpoint-IsFresh s h = ground (arith, next_request_id_lem s h)

pub add_watch_of-IsFresh :
    (input : TextInput) (s : AppState)
    → HasRoom 1 s.next_request
    → IsFresh 1 s.next_request (add_watch_of input s)
unfolding add_watch_of unreachable_notice send ids
add_watch_of-IsFresh input s h = ground (arith, next_request_id_lem s h)

pub remove_watch-IsFresh :
    (s : AppState) → HasRoom 1 s.next_request → IsFresh 1 s.next_request (remove_watch s)
unfolding remove_watch unreachable_notice send ids
remove_watch-IsFresh s h = ground (arith, next_request_id_lem s h)

pub submit_repl-IsFresh :
    (s : AppState) → HasRoom 1 s.next_request → IsFresh 1 s.next_request (submit_repl s)
unfolding submit_repl evaluate unreachable_notice ids
submit_repl-IsFresh s h = ground (arith, next_request_id_lem s h)

load_node-IsFresh :
    (path : Scopes.NodePath) (reference : ℤ) (s : AppState)
    → HasRoom 1 s.next_request
    → IsFresh 1 s.next_request (load_node path reference s)
unfolding load_node ask_variables unreachable_notice ids
load_node-IsFresh path reference s h = ground (arith, next_request_id_lem s h)

expand_node-IsFresh :
    (path : Scopes.NodePath) (node : Scopes.Head) (s : AppState)
    → HasRoom 1 s.next_request
    → IsFresh 1 s.next_request (expand_node path node s)
unfolding expand_node ids
expand_node-IsFresh path node s h = ground (arith, load_node-IsFresh path node.reference s h)

pub expand-IsFresh : (s : AppState) → HasRoom 1 s.next_request → IsFresh 1 s.next_request (expand s)
unfolding expand ids
expand-IsFresh s h =
    grind (arith, λ (p : Scopes.NodePath) (n : Scopes.Head). expand_node-IsFresh p n s h)

-- What shows a place sends no request.
pub show-ids :
    (location : Location) (s : AppState)
    → (ids (show location s).1 ≡ []) × ((show location s).0.next_request ≡ s.next_request)
unfolding show load with_source ids
show-ids location s = ground arith

pub with_jump-ids :
    (cmds : Cmds) (jump : Cmd) → ids jump ≡ [] → ids (with_jump cmds jump) ≡ all_ids cmds
unfolding with_jump ids all_ids
with_jump-ids cmds no_command h = one_or_batch-ids cmds
with_jump-ids cmds quit h = refl
with_jump-ids cmds (load_source id path) h = refl
with_jump-ids cmds (send_ipc id request) h = ground arith
with_jump-ids cmds (batch others) h = ap (λ l. l ++ all_ids cmds) h
with_jump-ids cmds (reconnect attempt delay) h = refl

show_frame-IsFresh :
    (frame : StackFrame) (s : AppState) → IsFresh 1 s.next_request (show_frame frame s)
unfolding show_frame ids
show_frame-IsFresh frame s = elim (Option-cases (frame_location frame)) [
  | inl e ↦ rw (e, show_frame) (omega arith)
  | inr (location, e) ↦ rw (e, show_frame) (ground (arith, show-ids location s))
]

pub one_or_batch-IsFresh :
    (k n : ℕ) (t : AppState) (cmds : Cmds)
    → AreFresh k n (t, cmds)
    → IsFresh k n (t, one_or_batch cmds)
one_or_batch-IsFresh k n t cmds h = rw (one_or_batch-ids cmds) h

with_jump-IsFresh :
    (k n : ℕ) (t : AppState) (cmds : Cmds) (location : Location)
    → AreFresh k n (t, cmds)
    → let step = show location t in IsFresh k n (step.0, with_jump cmds step.1)
with_jump-IsFresh k n t cmds location h =
    let (no_ids, same) = show-ids location t in
    rw (with_jump-ids cmds (show location t).1 no_ids, same) h

enter_frame-IsFresh :
    (frame : StackFrame) (session : SessionSnapshot) (s : AppState)
    → HasRoom (most s) s.next_request
    → IsFresh (most s) s.next_request (enter_frame frame session s)
unfolding enter_frame
enter_frame-IsFresh frame session s h =
    let first = scopes_request session.id (some frame.id) s in
    let second = watch_requests session.id (some frame.id) first.0 in
    let asked =
      weaken_all (1 + length s.watches.watches) (most s) s.next_request
        (second.0, also first.1 second.1)
        (scopes_and_watches-IsFresh session.id (some frame.id) s (omega arith)) (omega arith) in
    elim (Option-cases (frame_location frame)) [
      | inl e ↦
          rw (e, enter_frame)
            (one_or_batch-IsFresh (most s) s.next_request second.0 (also first.1 second.1) asked)
      | inr (location, e) ↦
          rw (e, enter_frame)
            (with_jump-IsFresh (most s) s.next_request second.0 (also first.1 second.1) location
              asked)
    ]

pub select_frame-IsFresh :
    (s : AppState)
    → HasRoom (most s) s.next_request
    → IsFresh (most s) s.next_request (select_frame s)
unfolding select_frame ids
select_frame-IsFresh s h = grind (
  arith,
  λ (frame : StackFrame) (session : SessionSnapshot). enter_frame-IsFresh frame session s h,
  λ (frame : StackFrame). show_frame-IsFresh frame s,
)

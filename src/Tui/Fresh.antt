-- ===== src/Tui/Fresh.antt =====
-- The ids of the requests that the interface sends, and that they rise: what the sending of each
-- request does to the counter.
pub mod Actions
pub mod Events
pub mod Updates
use lazydap.Prelude.{
  arith, ℕ, ◌+◌, ◌≤◌, ◌<◌, max, ◌≡◌, refl, sym, append-nil, ℤ, Option, none, some, Bool, true,
  false, List, [], ◌∷◌, ◌++◌, length, u64_mod, inl, inr, is_some, Bool-cases,
}
use lazydap.Core.Session.{SessionId}
use lazydap.Core.Watch.{Watch}
use lazydap.Core.Request.{Request}
use lazydap.Tui.Watches
use lazydap.Tui.State.{
  AppState, Cmd, no_command, quit, load_source, send_ipc, batch, reconnect, Cmds, nothing, also,
  Step, next_request_id, Location,
}
use lazydap.Tui.Sending.{
  send, request_watch_list, stack_request, scopes_request, watch_request, each_watch, with_round,
  watch_requests, inspect, invalidated, one_or_batch, evaluate_watches, eval_frame, show, load,
}

unfoldable mutual
  pub ids : Cmd → List ℕ
  ids (send_ipc id request) = id ∷ []
  ids (batch cmds) = all_ids cmds
  ids no_command = []
  ids quit = []
  ids (load_source id path) = []
  ids (reconnect attempt delay) = []

  pub all_ids : Cmds → List ℕ
  all_ids nothing = []
  all_ids (also cmd cmds) = ids cmd ++ all_ids cmds

-- The ids rise from above `n` and above the reserved one, and none is above `m`.
abbrev pub Rising : ℕ → List ℕ → ℕ → Type 0
Rising n [] m = n ≤ m
Rising n (i ∷ is) m = (n < i) × (1 < i) × Rising i is m

pub Rising-append :
    (n : ℕ) (xs : List ℕ) (m : ℕ) (ys : List ℕ) (k : ℕ)
    → Rising n xs m
    → Rising m ys k
    → Rising n (xs ++ ys) k
Rising-append n [] m [] k h g = omega arith
Rising-append n [] m (y ∷ ys) k h g = (omega arith, g.1, g.2)
Rising-append n (x ∷ xs) m ys k h g = (h.0, h.1, Rising-append x xs m ys k h.2 g)

-- The counter can take that many ids more.
abbrev pub HasRoom : ℕ → ℕ → Type 0
HasRoom k n = max n 1 + k < u64_mod

-- What a step from a counter `n` that sends at most `k` requests does.
abbrev pub IsFresh : ℕ → ℕ → Step → Type 0
IsFresh k n step = Rising n (ids step.1) step.0.next_request × (step.0.next_request ≤ max n 1 + k)

pub next_request_id_lem :
    (s : AppState) → HasRoom 1 s.next_request → next_request_id s ≡ max s.next_request 1 + 1
unfolding next_request_id
next_request_id_lem s h = omega arith

pub send-IsFresh :
    (request : Request) (s : AppState)
    → HasRoom 1 s.next_request
    → IsFresh 1 s.next_request (send request s)
unfolding send ids
send-IsFresh request s h = omega (arith, next_request_id_lem s h)

pub request_watch_list-IsFresh :
    (s : AppState) → HasRoom 1 s.next_request → IsFresh 1 s.next_request (request_watch_list s)
unfolding request_watch_list ids
request_watch_list-IsFresh s h = ground (arith, next_request_id_lem s h)

abbrev pub AreFresh : ℕ → ℕ → AppState × Cmds → Type 0
AreFresh k n (s, cmds) = Rising n (all_ids cmds) s.next_request × (s.next_request ≤ max n 1 + k)

pub watch_request-IsFresh :
    (session_id : SessionId) (frame_id : Option ℤ) (w : Watch) (s : AppState)
    → HasRoom 1 s.next_request
    → IsFresh 1 s.next_request (watch_request session_id frame_id w s)
unfolding watch_request ids
watch_request-IsFresh session_id frame_id w s h = omega (arith, next_request_id_lem s h)

-- A command in front of others, each from where the one before it left the counter.
pub also-IsFresh :
    (j k m n : ℕ) (step : Step) (rest : AppState × Cmds)
    → IsFresh j n step
    → AreFresh k step.0.next_request rest
    → 1 ≤ j
    → j + k ≤ m
    → AreFresh m n (rest.0, also step.1 rest.1)
unfolding all_ids
also-IsFresh j k m n (s, cmd) (t, cmds) h g p q =
    (Rising-append n (ids cmd) s.next_request (all_ids cmds) t.next_request h.0 g.0, omega arith)

pub each_watch-IsFresh :
    (session_id : SessionId) (frame_id : Option ℤ) (ws : List Watch) (s : AppState)
    → HasRoom (length ws) s.next_request
    → AreFresh (length ws) s.next_request (each_watch session_id frame_id ws s)
unfolding each_watch all_ids
each_watch-IsFresh session_id frame_id [] s h = (omega arith, omega arith)
each_watch-IsFresh session_id frame_id (w ∷ ws) s h =
    let step = watch_request session_id frame_id w s in
    let first = watch_request-IsFresh session_id frame_id w s (omega arith) in
    let rest = each_watch-IsFresh session_id frame_id ws step.0 (omega arith) in
    let others = each_watch session_id frame_id ws step.0 in
    also-IsFresh 1 (length ws) (length (w ∷ ws)) s.next_request step others first rest (omega arith)
      (omega arith)

-- One request for each watch and two for the position and the scopes, at most.
abbrev pub most : AppState → ℕ
most s = length s.watches.watches + 2

pub watch_requests-IsFresh :
    (session_id : SessionId) (frame_id : Option ℤ) (s : AppState)
    → HasRoom (length s.watches.watches) s.next_request
    → AreFresh (length s.watches.watches) s.next_request (watch_requests session_id frame_id s)
unfolding watch_requests with_round Watches.begin_round all_ids
watch_requests-IsFresh session_id frame_id s h =
    ground (arith, each_watch-IsFresh session_id frame_id s.watches.watches (with_round s) h)

pub stack_request-IsFresh :
    (session_id : SessionId) (thread_id : Option ℤ) (s : AppState)
    → HasRoom 1 s.next_request
    → IsFresh 1 s.next_request (stack_request session_id thread_id s)
unfolding stack_request ids
stack_request-IsFresh session_id thread_id s h = omega (arith, next_request_id_lem s h)

pub scopes_request-IsFresh :
    (session_id : SessionId) (frame_id : Option ℤ) (s : AppState)
    → HasRoom 1 s.next_request
    → IsFresh 1 s.next_request (scopes_request session_id frame_id s)
unfolding scopes_request ids
scopes_request-IsFresh session_id frame_id s h = omega (arith, next_request_id_lem s h)

pub one_or_batch-ids : (cmds : Cmds) → ids (one_or_batch cmds) ≡ all_ids cmds
unfolding one_or_batch ids all_ids
one_or_batch-ids nothing = refl
one_or_batch-ids (also cmd nothing) = sym (append-nil (ids cmd))
one_or_batch-ids (also cmd (also next cmds)) = refl

-- The scopes of a frame and the values of the watches in it.
pub scopes_and_watches-IsFresh :
    (session_id : SessionId) (frame_id : Option ℤ) (s : AppState)
    → HasRoom (length s.watches.watches + 1) s.next_request
    → let asked = scopes_request session_id frame_id s in
      let watches = watch_requests session_id frame_id asked.0 in
      AreFresh (1 + length s.watches.watches) s.next_request (watches.0, also asked.1 watches.1)
unfolding scopes_request
scopes_and_watches-IsFresh session_id frame_id s h =
    let asked = scopes_request session_id frame_id s in
    let first = scopes_request-IsFresh session_id frame_id s (omega arith) in
    let rest = watch_requests-IsFresh session_id frame_id asked.0 (omega arith) in
    also-IsFresh 1 (length s.watches.watches) (1 + length s.watches.watches) s.next_request asked
      (watch_requests session_id frame_id asked.0) first rest (omega arith) (omega arith)

pub inspect-IsFresh :
    (session_id : SessionId) (thread_id : Option ℤ) (s : AppState)
    → HasRoom (most s) s.next_request
    → IsFresh (most s) s.next_request (inspect session_id thread_id s)
unfolding inspect stack_request invalidated ids all_ids
inspect-IsFresh session_id thread_id s h =
    let asked = stack_request session_id thread_id (invalidated s) in
    let first = stack_request-IsFresh session_id thread_id (invalidated s) (omega arith) in
    let rest = scopes_and_watches-IsFresh session_id none asked.0 (omega arith) in
    let (s₂, scopes) = scopes_request session_id none asked.0 in
    let (s₃, watches) = watch_requests session_id none s₂ in
    also-IsFresh 1 (1 + length s.watches.watches) (most s) s.next_request asked
      (s₃, also scopes watches) first rest (omega arith) (omega arith)

pub weaken_all :
    (j k n : ℕ) (asked : AppState × Cmds) → AreFresh j n asked → j ≤ k → AreFresh k n asked
weaken_all j k n (t, cmds) h p = (h.0, omega arith)

pub weaken : (j k n : ℕ) (step : Step) → IsFresh j n step → j ≤ k → IsFresh k n step
weaken j k n (t, cmd) h p = (h.0, omega arith)

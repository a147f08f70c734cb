-- ===== src/Daemon/Wait/Located.antt =====
-- crates/daemon/src/wait.rs: where a wait says that the program stopped.
use lazydap.Prelude.{
  ℕ, zero, ◌≤◌, ◌≡◌, ◌∙◌, ◌⊎◌, refl, ap, arith, ℤ, pos, negsuc, true, Option, none, some, List, [],
  ◌∷◌, length, take, length-take-le, Bool-cases, Option-cases, inl, inr, suc, ◌+◌,
}
use lazydap.Core.Inspect.{StackFrame, Scope, Variable}
use lazydap.Core.Event.{FrameLocals}
use lazydap.Daemon.Session.{Session, still_at, mint_variables_reference, mint_frame_id}
use lazydap.Daemon.Wait.{Wait}
use lazydap.Daemon.Wait.Context.{
  responsible_frame, Adapter, World, fetch_stop_context, read_stack, name_frames, fetch_locals,
  fetch_scope, keep_locals, mint_variables, stopped_thread, has_source_path, stop_locals_cap,
  user_frame_search_depth, local_scope,
}

-- Handles are given out without a move of the program.
mint_variables_reference-still :
    (n : ℕ) (s : Session) (fence : ℕ) (adapter : ℤ) (f : ℕ)
    → still_at (mint_variables_reference n s fence adapter).2 f ≡ still_at s f
unfolding mint_variables_reference still_at
mint_variables_reference-still n s fence (pos zero) f = refl
mint_variables_reference-still n s fence (pos (suc k)) f = refl
mint_variables_reference-still n s fence (negsuc k) f = refl

mint_frame_id-still :
    (n : ℕ) (s : Session) (fence : ℕ) (adapter : ℤ) (f : ℕ)
    → still_at (mint_frame_id n s fence adapter).2 f ≡ still_at s f
unfolding mint_frame_id still_at
mint_frame_id-still n s fence adapter f = refl

mint_variables-still :
    (fence : ℕ) (at : World) (vs : List Variable) (f : ℕ)
    → still_at (mint_variables fence at vs).1.1 f ≡ still_at at.1 f
unfolding mint_variables
mint_variables-still fence at [] f = refl
mint_variables-still fence at (v ∷ vs) f =
    let minted = mint_variables_reference at.0 at.1 fence v.variables_reference in
    mint_variables-still fence (minted.1, minted.2) vs f
    ∙ mint_variables_reference-still at.0 at.1 fence v.variables_reference f

length-mint_variables :
    (fence : ℕ) (at : World) (vs : List Variable)
    → length (mint_variables fence at vs).0 ≡ length vs
unfolding mint_variables
length-mint_variables fence at [] = refl
length-mint_variables fence at (v ∷ vs) = ap suc (
    length-mint_variables fence
      (
        (mint_variables_reference at.0 at.1 fence v.variables_reference).1,
        (mint_variables_reference at.0 at.1 fence v.variables_reference).2,
      )
      vs)

-- The locals of a wait, if it has any, are at most as many as are shown.
unfoldable pub IsShown : Option FrameLocals → Type 0
IsShown none = Unit
IsShown (some locals) = length locals.variables ≤ stop_locals_cap

-- Either the locals are as before, or the program is at the stop of the fence and they are at most as
-- many as are shown.
unfoldable pub HasKept : Option FrameLocals → ℕ → Wait × World → Type 0
unfolding IsShown
HasKept before fence result =
    (result.0.blob.locals ≡ before)
    ⊎ ((still_at result.1.1 fence ≡ true) × IsShown result.0.blob.locals)

keep_locals-HasKept :
    (w : Wait) (at : World) (fence : ℕ) (adapter_frame reference : ℤ) (fetched : List Variable)
    → HasKept w.blob.locals fence (keep_locals w at fence adapter_frame reference fetched)
unfolding keep_locals HasKept IsShown
keep_locals-HasKept w at fence adapter_frame reference fetched =
    elim (Bool-cases (still_at at.1 fence)) [
      | inr moved ↦ rw moved (inl refl)
      | inl here ↦
          let minted = mint_variables fence at (take stop_locals_cap fetched) in
          let frame = mint_frame_id minted.1.0 minted.1.1 fence adapter_frame in
          let moves =
            mint_variables_reference-still frame.1 frame.2 fence reference fence
            ∙ (mint_frame_id-still minted.1.0 minted.1.1 fence adapter_frame fence
                ∙ (mint_variables-still fence at (take stop_locals_cap fetched) fence ∙ here)) in
          rw here (
            inr (
              moves,
              omega (
                arith,
                length-mint_variables fence at (take stop_locals_cap fetched),
                length-take-le stop_locals_cap fetched,
              ),
            ))
    ]

fetch_scope-HasKept :
    (a : Adapter) (w : Wait) (at : World) (fence : ℕ) (adapter_frame : ℤ) (scope : Option Scope)
    → HasKept w.blob.locals fence (fetch_scope a w at fence adapter_frame scope)
unfolding fetch_scope HasKept
fetch_scope-HasKept a w at fence adapter_frame none = inl refl
fetch_scope-HasKept a w at fence adapter_frame (some scope) =
    let reply = a.variables scope.variables_reference (stop_locals_cap + 1) in
    elim (Option-cases reply.answer) [
      | inl error ↦ rw (error, fetch_scope) (inl refl)
      | inr (fetched, came) ↦
          rw (came, fetch_scope)
            (keep_locals-HasKept w (reply.meanwhile at) fence adapter_frame
              scope.variables_reference fetched)
    ]

fetch_locals-HasKept :
    (a : Adapter) (w : Wait) (at : World) (fence : ℕ) (adapter_frame : ℤ)
    → HasKept w.blob.locals fence (fetch_locals a w at fence adapter_frame)
unfolding fetch_locals HasKept
fetch_locals-HasKept a w at fence adapter_frame =
    let reply = a.scopes adapter_frame in
    elim (Option-cases reply.answer) [
      | inl error ↦ rw (error, fetch_locals) (inl refl)
      | inr (scopes, came) ↦
          rw (came, fetch_locals)
            (fetch_scope-HasKept a w (reply.meanwhile at) fence adapter_frame (local_scope scopes))
    ]

name_frames-HasKept :
    (a : Adapter) (w : Wait) (at : World) (fence : ℕ) (top : StackFrame)
    (responsible : Option StackFrame)
    → HasKept w.blob.locals fence (name_frames a w at fence top responsible)
unfolding name_frames
name_frames-HasKept a w at fence top responsible = fetch_locals-HasKept a _ _ fence _

read_stack-HasKept :
    (a : Adapter) (w : Wait) (at : World) (fence : ℕ) (frames : List StackFrame)
    → HasKept w.blob.locals fence (read_stack a w at fence frames)
unfolding read_stack HasKept
read_stack-HasKept a w at fence [] = inl refl
read_stack-HasKept a w at fence (top ∷ rest) = elim (Bool-cases (still_at at.1 fence)) [
  | inr moved ↦ rw moved (inl refl)
  | inl here ↦ elim (Bool-cases (has_source_path top)) [
    | inl own ↦ rw here rw own (name_frames-HasKept a w at fence top none)
    | inr foreign ↦ rw here rw foreign (
        let found = responsible_frame a w at (top ∷ rest) in
        name_frames-HasKept a w found.1 fence top found.0)
  ]
]

-- Whatever the adapter answers to the requests for the stack, the scopes and the variables, and
-- however the program moves while each answer is awaited: either the wait's locals are as they were,
-- or the program is, once all is read, at the stop at which the reading began, and the locals are at
-- most a hundred.
pub fetch_stop_context-HasKept :
    (a : Adapter) (w : Wait) (at : World)
    → HasKept w.blob.locals at.1.stop_generation (fetch_stop_context a w at)
unfolding fetch_stop_context HasKept
fetch_stop_context-HasKept a w at = elim (Option-cases (stopped_thread w at.1)) [
  | inl nowhere ↦ rw (nowhere, fetch_stop_context) (inl refl)
  | inr (thread, known) ↦
      let reply = a.stack_trace thread (some user_frame_search_depth) in
      elim (Option-cases reply.answer) [
        | inl error ↦ rw (known, fetch_stop_context) rw error (inl refl)
        | inr (frames, came) ↦
            rw (known, fetch_stop_context) rw came
              (read_stack-HasKept a w (reply.meanwhile at) at.1.stop_generation frames)
      ]
]

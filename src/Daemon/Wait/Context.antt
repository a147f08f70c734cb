-- ===== src/Daemon/Wait/Context.antt =====
-- crates/daemon/src/wait.rs: where the program stopped, asked of the adapter frame by frame. The
-- adapter is a parameter: what it answers to each request, and how the pump moves the session
-- while the wait is suspended on that answer.
use lazydap.Prelude.{
  ℕ, ◌+◌, ℤ, Option, none, some, Bool, false, not, ◌&&◌, List, [], ◌∷◌, if◌then◌else◌, find, length,
  take, or_else, ltb, is_some, unwrap_or,
}
use lazydap.Core.Text.{eq_ignore_ascii_case}
use lazydap.Core.Inspect.{StackFrame, Scope, Variable}
use lazydap.Core.Event.{FrameLocals}
use lazydap.Daemon.Session.{Session, mint_frame, mint_frame_id, mint_variables_reference, still_at}
use lazydap.Daemon.Wait.{Wait}

abbrev pub user_frame_search_depth : ℕ
user_frame_search_depth = 24

abbrev pub stop_locals_cap : ℕ
stop_locals_cap = 100

-- The daemon's handle counter and the session.
abbrev pub World : Type 0
World = ℕ × Session

-- An answer of the adapter, `none` for an error, and what happened until it came.
pub record Reply (A : Type 0) : Type 0 where
  pub answer : Option A
  pub meanwhile : World → World

pub record Adapter : Type 0 where
  -- the stack of a thread, at most so many frames of it, or all of it
  pub stack_trace : ℤ → Option ℕ → Reply (List StackFrame)
  pub scopes : ℤ → Reply (List Scope)
  -- at most so many variables of a reference
  pub variables : ℤ → ℕ → Reply (List Variable)

abbrev pub has_source_path : StackFrame → Bool
has_source_path f = elim f.source [ none ↦ false | some source ↦ is_some source.path ]

pub data Search : Type 0 where
  found : StackFrame → Search
  absent look_further : Search

unfoldable pub search : List StackFrame → ℕ → Search
search frames depth = elim (find has_source_path frames) [
  | some f ↦ found f
  | none ↦ if ltb (length frames) depth then absent else look_further
]

-- The thread whose stack is asked for.
abbrev pub stopped_thread : Wait → Session → Option ℤ
stopped_thread w s = or_else w.blob.thread_id s.last_thread_id

-- The whole stack, searched for the program's own code.
unfoldable pub look_in_whole : Adapter → Option ℤ → World → Option StackFrame × World
look_in_whole a none at = (none, at)
look_in_whole a (some thread) at =
    let reply = a.stack_trace thread none in
    (
      elim reply.answer [ none ↦ none | some whole ↦ find has_source_path whole ],
      reply.meanwhile at,
    )

unfoldable pub responsible_frame :
    Adapter → Wait → World → List StackFrame → Option StackFrame × World
unfolding search look_in_whole
responsible_frame a w at frames = elim (search frames user_frame_search_depth) [
  | found f ↦ (some f, at)
  | absent ↦ (none, at)
  | look_further ↦ look_in_whole a (stopped_thread w at.1) at
]

abbrev is_local : Scope → Bool
is_local scope = not scope.expensive && eq_ignore_ascii_case scope.name "local"

abbrev is_cheap : Scope → Bool
is_cheap scope = not scope.expensive

unfoldable pub local_scope : List Scope → Option Scope
local_scope scopes = or_else (find is_local scopes) (find is_cheap scopes)

-- Every variable that can be expanded gets a handle of ours.
unfoldable pub mint_variables : ℕ → World → List Variable → List Variable × World
mint_variables fence at [] = ([], at)
mint_variables fence (sequence, s) (v ∷ rest) =
    let (reference, sequence', s') =
      mint_variables_reference sequence s fence v.variables_reference in
    let (later, at') = mint_variables fence (sequence', s') rest in
    (record v { variables_reference = reference } ∷ later, at')

-- What `fetch_locals` does with the variables of the scope.
unfoldable pub keep_locals : Wait → World → ℕ → ℤ → ℤ → List Variable → Wait × World
unfolding mint_variables
keep_locals w at fence adapter_frame reference fetched =
    if not (still_at at.1 fence)
    then (w, at)
    else let (kept, after) = mint_variables fence at (take stop_locals_cap fetched) in
      let (frame_id, n, s) = mint_frame_id after.0 after.1 fence adapter_frame in
      let (ours, n', s') = mint_variables_reference n s fence reference in
      let locals : FrameLocals = record {
        frame_id = frame_id;
        variables_reference = ours;
        variables = kept;
        truncated = ltb stop_locals_cap (length fetched);
      } in
      (record w { blob = record w.blob { locals = some locals } }, (n', s'))

-- `fetch_locals` from the scope on
unfoldable pub fetch_scope : Adapter → Wait → World → ℕ → ℤ → Option Scope → Wait × World
unfolding keep_locals
fetch_scope a w at fence adapter_frame none = (w, at)
fetch_scope a w at fence adapter_frame (some scope) =
    let reply = a.variables scope.variables_reference (stop_locals_cap + 1) in
    let at' = reply.meanwhile at in
    elim reply.answer [
      | none ↦ (w, at')
      | some fetched ↦ keep_locals w at' fence adapter_frame scope.variables_reference fetched
    ]

unfoldable pub fetch_locals : Adapter → Wait → World → ℕ → ℤ → Wait × World
unfolding fetch_scope local_scope
fetch_locals a w at fence adapter_frame =
    let reply = a.scopes adapter_frame in
    let at' = reply.meanwhile at in
    elim reply.answer [
      | none ↦ (w, at')
      | some scopes ↦ fetch_scope a w at' fence adapter_frame (local_scope scopes)
    ]

-- `responsible.map(|frame| mint_frame(fence, frame))`
abbrev pub mint_responsible : ℕ → World → Option StackFrame → Option StackFrame × World
mint_responsible fence at none = (none, at)
mint_responsible fence at (some f) =
    let (minted, n, s) = mint_frame at.0 at.1 fence f in (some minted, (n, s))

-- The frames are named to the client, and the locals of the one that is the program's own fetched.
unfoldable pub name_frames :
    Adapter → Wait → World → ℕ → StackFrame → Option StackFrame → Wait × World
unfolding fetch_locals
name_frames a w at fence top responsible =
    let (user_frame, after) = mint_responsible fence at responsible in
    let (shown, n, s) = mint_frame after.0 after.1 fence top in
    fetch_locals a
      (record w { blob = record w.blob { user_frame = user_frame; frame = some shown } }) (n, s)
      fence (unwrap_or responsible top).id

-- What `fetch_stop_context` does with the frames of the stack.
unfoldable pub read_stack : Adapter → Wait → World → ℕ → List StackFrame → Wait × World
unfolding responsible_frame name_frames
read_stack a w at fence [] = (w, at)
read_stack a w at fence (top ∷ rest) =
    if not (still_at at.1 fence)
    then (w, at)
    else if has_source_path top
    then name_frames a w at fence top none
    else let (responsible, after) = responsible_frame a w at (top ∷ rest) in
      name_frames a w after fence top responsible

unfoldable pub fetch_stop_context : Adapter → Wait → World → Wait × World
unfolding read_stack
fetch_stop_context a w at = elim (stopped_thread w at.1) [
  | none ↦ (w, at)
  | some thread ↦
      let fence = at.1.stop_generation in
      let reply = a.stack_trace thread (some user_frame_search_depth) in
      let after = reply.meanwhile at in
      elim reply.answer [ none ↦ (w, after) | some frames ↦ read_stack a w after fence frames ]
]

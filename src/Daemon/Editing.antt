-- ===== src/Daemon/Editing.antt =====
-- crates/daemon/src/handlers/breakpoints.rs: the commands that change the project's breakpoints. The
-- store is changed, the change is announced, and the adapter of a session that is alive is told the
-- enabled breakpoints of each file that is touched. What the adapter answers, and what becomes of the
-- store and of the session until then, is a parameter; so are the canonical form of a path, and the order in which a
-- `BTreeSet` holds paths.
pub mod Due
pub mod Telling
pub mod Recorded
use lazydap.Prelude.{
  ℕ, Option, none, some, Bool, true, false, not, List, [], ◌∷◌, ◌++◌, map, filter, if◌then◌else◌,
  leb, unwrap_or, ◌||◌,
}
use lazydap.Core.Session.{is_live}
use lazydap.Core.Breakpoint.{
  FilePath, Breakpoint, BreakpointId, BreakpointStatus, NewBreakpoint, AdapterBreakpoint,
  unverified,
}
use lazydap.Core.Selector.{BreakpointSelector, ids, location, source, all, same_path}
use lazydap.Core.Event.{Event}
use lazydap.Core.Request.{BreakpointAction, BreakpointReport}
use lazydap.Store.{
  Store, AddOutcome, created, updated, unchanged, is_unchanged, Addition, Changed, select, flip,
  is_empty, breakpoint_ids,
}
use lazydap.Store
use lazydap.Daemon.Session.{Session}
use lazydap.Daemon.Session.Breakpoints.{decorate}

-- `sort_by_key(|breakpoint| breakpoint.line)`
unfoldable pub put_in_order : Breakpoint → List Breakpoint → List Breakpoint
put_in_order b [] = b ∷ []
put_in_order b (c ∷ rest) =
    let later = put_in_order b rest in if leb b.line c.line then b ∷ (c ∷ rest) else c ∷ later

unfoldable pub by_line : List Breakpoint → List Breakpoint
unfolding put_in_order
by_line [] = []
by_line (b ∷ rest) = put_in_order b (by_line rest)

-- `Store::breakpoints_in`
unfoldable pub breakpoints_in : FilePath → Store → List Breakpoint
unfolding by_line
breakpoints_in path s = by_line (filter (λ (b : Breakpoint). same_path b.source path) s.breakpoints)

unfoldable pub enabled_in : FilePath → Store → List Breakpoint
unfolding breakpoints_in
enabled_in path s = filter (λ (b : Breakpoint). b.enabled) (breakpoints_in path s)

-- A call of the adapter's `set_breakpoints`.
pub record Call : Type 0 where
  pub source : FilePath
  pub enabled : List Breakpoint

pub record World : Type 0 where
  pub store : Store
  -- the session that is held, if there is one
  pub session : Option Session
  pub announced : List Event
  pub calls : List Call

-- An answer of the adapter, and what becomes of the store and of the session until it comes.
pub record Reply (E : Type 0) : Type 0 where
  pub refusal : Option E
  pub meanwhile : Store → Store
  pub recorded : Option Session → Option Session

pub data Applied (E : Type 0) : Type 0 where
  applied : Bool → Applied E
  refused : E → Applied E

pub data Answer (E : Type 0) : Type 0 where
  ok : BreakpointReport → Answer E
  -- the error, and the breakpoints whose change is recorded all the same
  err : E → List BreakpointId → Answer E

-- `announce`
unfoldable pub announcement : Breakpoint → Event
announcement b = Event.breakpoint_updated none (record {
  id = some b.id;
  adapter_id = none;
  verified = false;
  line = some b.line;
  message = none;
})

unfoldable pub announce : List Breakpoint → World → World
unfolding announcement
announce changed w = record w { announced = w.announced ++ map announcement changed }

unfoldable pub decorated : World → List Breakpoint → List BreakpointStatus
unfolding decorate unverified
decorated w breakpoints = elim w.session [
  | some session ↦ decorate session breakpoints
  | none ↦ map unverified breakpoints
]

unfoldable pub action_for : AddOutcome → BreakpointAction
action_for created = BreakpointAction.added
action_for updated = BreakpointAction.updated
action_for unchanged = BreakpointAction.unchanged

abbrev pub live_session : Option Session → Bool
unfolding is_live
live_session none = false
live_session (some session) = is_live session.state

module _ (canonicalize : FilePath → Option FilePath) where
  unfoldable pub canonical : FilePath → FilePath
  canonical path = unwrap_or (canonicalize path) path

  unfoldable pub canonical_selector : BreakpointSelector → BreakpointSelector
  unfolding canonical
  canonical_selector (location path line) = location (canonical path) line
  canonical_selector (source path) = source (canonical path)
  canonical_selector (ids wanted) = ids wanted
  canonical_selector all = all

  unfoldable pub canonical_new : NewBreakpoint → NewBreakpoint
  unfolding canonical
  canonical_new new = record new { source = canonical new.source }

unfoldable pub sources_of : (List FilePath → List FilePath) → List Breakpoint → List FilePath
sources_of in_order breakpoints = in_order (map (λ (b : Breakpoint). b.source) breakpoints)

-- The report of a change, or the error with the ids that are recorded anyway.
unfoldable pub answer_of :
    {E : Type 0} → Applied E → List BreakpointId → (Bool → BreakpointReport) → Answer E
answer_of (applied told) changed report = ok (report told)
answer_of (refused error) changed report = err error changed

-- The `?` of the loop: what is refused ends it.
unfoldable pub go_on : {E : Type 0} → Option E → Applied E × World → World → Applied E × World
go_on (some error) later w = (refused error, w)
go_on none later w = later

module _ {E : Type 0} (adapter : FilePath → List Breakpoint → Reply E) where
  -- One turn of the loop of `apply`.
  unfoldable pub send : FilePath → World → Option E × World
  unfolding enabled_in
  send path w =
      let enabled = enabled_in path w.store in
      let reply = adapter path enabled in
      (
        reply.refusal,
        record w {
          calls = w.calls ++ (record { source = path; enabled = enabled } ∷ []);
          store = reply.meanwhile w.store;
          session = reply.recorded w.session;
        },
      )

  unfoldable pub tell : List FilePath → World → Applied E × World
  unfolding send go_on
  tell [] w = (applied true, w)
  tell (path ∷ rest) w =
      let (refusal, w') = send path w in let later = tell rest w' in go_on refusal later w'

  unfoldable pub apply : List FilePath → World → Applied E × World
  unfolding tell live_session
  apply sources w =
      if not (live_session w.session) || is_empty sources
      then (applied false, w)
      else tell sources w

unfoldable pub list : {E : Type 0} → World → Answer E
unfolding decorated
list w = ok (record {
  action = BreakpointAction.listed;
  dry_run = false;
  breakpoints = decorated w w.store.breakpoints;
  not_found = [];
  applied_to_session = false;
})

-- What an addition announces once the adapter was asked: `if !changed && applied`.
unfoldable pub retried : {E : Type 0} → Applied E → Bool → List Breakpoint → List Breakpoint
retried (applied true) true one = one
retried (applied true) false one = []
retried (applied false) quiet one = []
retried (refused error) quiet one = []

module _ {E : Type 0} (canonicalize : FilePath → Option FilePath)
    (in_order : List FilePath → List FilePath)
    (adapter : FilePath → List Breakpoint → Reply E) where
  -- The rest of `add`, of a breakpoint that the store has taken.
  unfoldable pub added : Addition → FilePath → World → Answer E × World
  unfolding announce apply answer_of retried decorated action_for
  added addition path w =
      let one = addition.breakpoint ∷ [] in
      let changed = if is_unchanged addition.outcome then [] else one in
      let (result, w') = apply adapter (path ∷ []) (announce changed w) in
      let again = retried result (is_unchanged addition.outcome) one in
      let w'' = announce again w' in
      (
        answer_of result (breakpoint_ids changed) (λ told. record {
          action = action_for addition.outcome;
          dry_run = false;
          breakpoints = decorated w'' one;
          not_found = [];
          applied_to_session = told;
        }),
        w'',
      )

  unfoldable pub add : NewBreakpoint → Bool → World → Answer E × World
  unfolding Store.preview_add Store.add added decorated action_for canonical_new
  add asked true w =
      let preview = Store.preview_add w.store (canonical_new canonicalize asked) in
      (
        ok (record {
          action = action_for preview.outcome;
          dry_run = true;
          breakpoints = decorated w (preview.breakpoint ∷ []);
          not_found = [];
          applied_to_session = false;
        }),
        w,
      )
  add asked false w =
      let new = canonical_new canonicalize asked in
      let (addition, store) = Store.add w.store new in
      added addition new.source (record w { store = store })

  -- What a removal and a toggle do once the store has changed.
  unfoldable pub changed_to :
      BreakpointAction → Changed → (World → List BreakpointStatus) → World → Answer E × World
  unfolding announce apply answer_of sources_of
  changed_to action changed shown w =
      let (result, w') =
        apply adapter (sources_of in_order changed.breakpoints) (announce changed.breakpoints w) in
      (
        answer_of result (breakpoint_ids changed.breakpoints) (λ told. record {
          action = action;
          dry_run = false;
          breakpoints = shown w';
          not_found = changed.not_found;
          applied_to_session = told;
        }),
        w',
      )

  -- A dry run of either, by what it would leave of the breakpoints that are selected.
  unfoldable pub previewed :
      BreakpointAction → (Breakpoint → Breakpoint) → BreakpointSelector → World → Answer E × World
  unfolding select decorated
  previewed action f selector w =
      let (picked, not_found) = select w.store selector in
      (
        ok (record {
          action = action;
          dry_run = true;
          breakpoints = decorated w (map f picked);
          not_found = not_found;
          applied_to_session = false;
        }),
        w,
      )

  unfoldable pub remove : BreakpointSelector → Bool → World → Answer E × World
  unfolding Store.remove changed_to canonical_selector previewed unverified
  remove asked true w =
      previewed BreakpointAction.removed (λ b. b) (canonical_selector canonicalize asked) w
  remove asked false w =
      let (removed, store) = Store.remove w.store (canonical_selector canonicalize asked) in
      changed_to BreakpointAction.removed removed (λ after. map unverified removed.breakpoints)
        (record w { store = store })

  unfoldable pub toggle : BreakpointSelector → Bool → World → Answer E × World
  unfolding Store.toggle changed_to canonical_selector previewed decorated flip
  toggle asked true w =
      previewed BreakpointAction.toggled flip (canonical_selector canonicalize asked) w
  toggle asked false w =
      let (toggled, store) = Store.toggle w.store (canonical_selector canonicalize asked) in
      changed_to BreakpointAction.toggled toggled (λ after. decorated after toggled.breakpoints)
        (record w { store = store })

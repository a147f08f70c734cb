-- ===== src/Daemon/Editing/Recorded.antt =====
-- The commands on the project's breakpoints, against the store's own operations.
use lazydap.Prelude.{
  subst, All, ◌≡◌, refl, sym, ◌∙◌, ap, Option, Bool, true, false, List, [], ◌∷◌, ◌++◌, map,
  if◌then◌else◌, append-nil, append_assoc,
}
use lazydap.Core.Breakpoint.{
  FilePath, Breakpoint, BreakpointId, NewBreakpoint, BreakpointStatus, unverified,
}
use lazydap.Core.Request.{BreakpointAction, BreakpointReport}
use lazydap.Core.Selector.{BreakpointSelector}
use lazydap.Store.{Store, Changed, Addition, breakpoint_ids, is_unchanged}
use lazydap.Store
use lazydap.Daemon.Editing.{
  Reply, World, Call, Answer, ok, err, Applied, applied, refused, apply, announce, announcement,
  answer_of, canonical_new, canonical_selector, sources_of, changed_to, added, retried, decorated,
}
use lazydap.Daemon.Editing
use lazydap.Daemon.Editing.Due.{IsDue, AreDue, IsSetOf, files_of, enabled_in-IsDue}
use lazydap.Daemon.Editing.Telling.{Told, call_of, apply-store, apply-calls, apply-announced}

-- What an answer says of a change: the error names the ids, the report what was not found.
unfoldable pub Says : {E : Type 0} → Answer E → Changed → Type 0
Says (ok report) changed = (report.not_found ≡ changed.not_found) × (report.dry_run ≡ false)
Says (err error ids) changed = ids ≡ breakpoint_ids changed.breakpoints

unfoldable pub is_applied : {E : Type 0} → Answer E → Bool
is_applied (ok report) = report.applied_to_session
is_applied (err error ids) = false

answer_of-Says :
    {E : Type 0} (result : Applied E) (changed : Changed) (report : Bool → BreakpointReport)
    → ((told : Bool)
        → ((report told).not_found ≡ changed.not_found) × ((report told).dry_run ≡ false))
    → Says (answer_of result (breakpoint_ids changed.breakpoints) report) changed
unfolding answer_of Says
answer_of-Says (applied told) changed report says = says told
answer_of-Says (refused error) changed report says = refl

answer_of-Told :
    {E : Type 0} (result : Applied E) (ids : List BreakpointId) (report : Bool → BreakpointReport)
    → ((told : Bool) → (report told).applied_to_session ≡ told)
    → is_applied (answer_of result ids report) ≡ true
    → Told result
unfolding answer_of is_applied Told
answer_of-Told (applied told) ids report says h = ap applied (sym (says told) ∙ h)
answer_of-Told (refused error) ids report says h = cc

retried-announced :
    {E : Type 0} (result : Applied E) (quiet : Bool) (one : List Breakpoint)
    (ids : List BreakpointId) (report : Bool → BreakpointReport)
    → ((told : Bool) → (report told).applied_to_session ≡ told)
    → map announcement (if quiet then [] else one) ++ map announcement (retried result quiet one)
      ≡ (if quiet
          then if is_applied (answer_of result ids report) then map announcement one else []
          else map announcement one)
unfolding answer_of is_applied retried
retried-announced (applied true) true one ids report says = rw (says true) refl
retried-announced (applied true) false one ids report says = append-nil (map announcement one)
retried-announced (applied false) true one ids report says = rw (says false) refl
retried-announced (applied false) false one ids report says = append-nil (map announcement one)
retried-announced (refused error) true one ids report says = refl
retried-announced (refused error) false one ids report says = append-nil (map announcement one)

calls-IsDue : (s : Store) (files : List FilePath) → All (IsDue s) (map (call_of s) files)
unfolding call_of
calls-IsDue s [] = tt
calls-IsDue s (file ∷ files) = (enabled_in-IsDue s file, calls-IsDue s files)

sources-calls :
    (s : Store) (files : List FilePath)
    → map (λ (call : Call). call.source) (map (call_of s) files) ≡ files
unfolding call_of
sources-calls s [] = refl
sources-calls s (file ∷ files) = ap (λ rest. file ∷ rest) (sources-calls s files)

module _ {E : Type 0} (canonicalize : FilePath → Option FilePath)
    (in_order : List FilePath → List FilePath)
    (adapter : FilePath → List Breakpoint → Reply E) where
  abbrev changed_by :
      BreakpointAction → Changed → (World → List BreakpointStatus) → World → Answer E × World
  changed_by = changed_to canonicalize in_order adapter

  changed_to-announced :
      (action : BreakpointAction) (changed : Changed) (shown : World → List BreakpointStatus)
      (w : World)
      → (changed_by action changed shown w).1.announced
        ≡ w.announced ++ map announcement changed.breakpoints
  unfolding changed_to announce
  changed_to-announced action changed shown w =
      apply-announced adapter (sources_of in_order changed.breakpoints)
        (announce changed.breakpoints w)

  changed_to-Says :
      (action : BreakpointAction) (changed : Changed) (shown : World → List BreakpointStatus)
      (w : World)
      → Says (changed_by action changed shown w).0 changed
  unfolding changed_to
  changed_to-Says action changed shown w = answer_of-Says _ changed _ (λ told. (refl, refl))

  module _
      (still : (path : FilePath) (sent : List Breakpoint) (s : Store)
        → (adapter path sent).meanwhile s ≡ s) where
    changed_to-store :
        (action : BreakpointAction) (changed : Changed) (shown : World → List BreakpointStatus)
        (w : World)
        → (changed_by action changed shown w).1.store ≡ w.store
    unfolding changed_to announce
    changed_to-store action changed shown w =
        apply-store adapter still (sources_of in_order changed.breakpoints)
          (announce changed.breakpoints w)

    changed_to-calls :
        (action : BreakpointAction) (changed : Changed) (shown : World → List BreakpointStatus)
        (w : World)
        → is_applied (changed_by action changed shown w).0 ≡ true
        → (changed_by action changed shown w).1.calls
          ≡ w.calls ++ map (call_of w.store) (sources_of in_order changed.breakpoints)
    unfolding changed_to announce
    changed_to-calls action changed shown w h =
        apply-calls adapter still (sources_of in_order changed.breakpoints)
          (announce changed.breakpoints w)
          (answer_of-Told _ (breakpoint_ids changed.breakpoints) _ (λ told. refl) h)

    -- Whatever the adapter answers to a removal, and where it leaves the store alone: the store is
    -- what the store's own removal leaves of it, every breakpoint that went is announced, and an
    -- error names the ids of those that went. A report says what was not found.
    pub remove-Recorded :
        (asked : BreakpointSelector) (w : World)
        → let removal = Store.remove w.store (canonical_selector canonicalize asked) in
          let after = Editing.remove canonicalize in_order adapter asked false w in
          (after.1.store ≡ removal.1)
          × (after.1.announced ≡ w.announced ++ map announcement removal.0.breakpoints)
          × Says after.0 removal.0
    unfolding Editing.remove
    remove-Recorded asked w =
        let removal = Store.remove w.store (canonical_selector canonicalize asked) in
        let w' = record w { store = removal.1 } in
        let shown = λ (after : World). map unverified removal.0.breakpoints in
        (
          changed_to-store BreakpointAction.removed removal.0 shown w',
          changed_to-announced BreakpointAction.removed removal.0 shown w',
          changed_to-Says BreakpointAction.removed removal.0 shown w',
        )

    -- A toggle that is reported as applied to the session, where the adapter leaves the store alone
    -- and the order of paths makes a set of those that the toggle touched: for each of these files
    -- one call was made, and none for another. A call tells the breakpoints of its file that are
    -- enabled once the store has flipped what was selected, each once, by their lines.
    pub toggle-applied :
        (asked : BreakpointSelector) (w : World)
        → IsSetOf
            (files_of (Store.toggle w.store (canonical_selector canonicalize asked)).0.breakpoints)
            (in_order (
              files_of
                (Store.toggle w.store (canonical_selector canonicalize asked)).0.breakpoints))
        → is_applied (Editing.toggle canonicalize in_order adapter asked false w).0 ≡ true
        → let flipped = Store.toggle w.store (canonical_selector canonicalize asked) in
          (calls : List Call) × ((Editing.toggle canonicalize in_order adapter asked false
              w).1.calls
            ≡ w.calls ++ calls)
          × AreDue flipped.1 flipped.0.breakpoints calls
    unfolding Editing.toggle sources_of
    toggle-applied asked w set h =
        let flipped = Store.toggle w.store (canonical_selector canonicalize asked) in
        let files = sources_of in_order flipped.0.breakpoints in
        (
          map (call_of flipped.1) files,
          changed_to-calls BreakpointAction.toggled flipped.0
              (λ after. decorated after flipped.0.breakpoints) (record w { store = flipped.1 }) h,
          record {
            each = calls-IsDue flipped.1 files;
            files = subst (IsSetOf _) (sym (sources-calls flipped.1 files)) set;
          },
        )

  -- An addition announces its breakpoint once where it is new or changes another, whether or not
  -- the adapter takes it. An addition that changes nothing announces it only where it is reported as
  -- applied to the session.
  pub add-announced :
      (asked : NewBreakpoint) (w : World)
      → let addition = (Store.add w.store (canonical_new canonicalize asked)).0 in
        let after = Editing.add canonicalize in_order adapter asked false w in
        after.1.announced
        ≡ w.announced
          ++ (if is_unchanged addition.outcome
              then if is_applied after.0 then map announcement (addition.breakpoint ∷ []) else []
              else map announcement (addition.breakpoint ∷ []))
  unfolding Editing.add added announce
  add-announced asked w =
      let new = canonical_new canonicalize asked in
      let (addition, store) = Store.add w.store new in
      let one = addition.breakpoint ∷ [] in
      let quiet = is_unchanged addition.outcome in
      let changed = if quiet then [] else one in
      let before = announce changed (record w { store = store }) in
      let result = apply adapter (new.source ∷ []) before in
      let again = map announcement (retried result.0 quiet one) in
      ap (λ a. a ++ again) (apply-announced adapter (new.source ∷ []) before)
      ∙ (append_assoc w.announced (map announcement changed) again
          ∙ ap (λ a. w.announced ++ a)
              (retried-announced result.0 quiet one (breakpoint_ids changed) _ (λ told. refl)))

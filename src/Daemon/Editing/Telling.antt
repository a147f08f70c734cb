-- ===== src/Daemon/Editing/Telling.antt =====
-- What a command on the project's breakpoints leaves behind, whatever the adapter answers.
use lazydap.Prelude.{
  ◌≡◌, refl, sym, ◌∙◌, ap, arith, append_assoc, append-nil, Option, none, some, true, List, [], ◌∷◌,
  ◌++◌, map,
}
use lazydap.Core.Breakpoint.{FilePath, Breakpoint}
use lazydap.Store.{Store}
use lazydap.Daemon.Editing.{
  Reply, World, Call, Applied, applied, tell, send, go_on, apply, enabled_in,
}

-- The call that a file is due, of a store.
unfoldable pub call_of : Store → FilePath → Call
unfolding enabled_in
call_of s path = record { source = path; enabled = enabled_in path s }

-- The adapter was told: all the calls were made, and taken.
unfoldable pub Told : {E : Type 0} → Applied E → Type 0
Told result = result ≡ applied true

-- What holds where the loop ends early, and where it goes on, holds of what it leaves.
go_on-Either :
    {E : Type 0} (P : World → Type 0) (refusal : Option E) (later : Applied E × World) (w : World)
    → P later.1
    → P w
    → P (go_on refusal later w).1
unfolding go_on
go_on-Either P (some error) later w held here = here
go_on-Either P none later w held here = held

go_on-Told :
    {E : Type 0} (refusal : Option E) (later : Applied E × World) (w : World)
    → Told (go_on refusal later w).0
    → Told later.0 × (go_on refusal later w ≡ later)
unfolding go_on Told
go_on-Told (some error) later w h = cc
go_on-Told none later w h = (h, refl)

module _ {E : Type 0} (adapter : FilePath → List Breakpoint → Reply E) where
  tell-announced :
      (sources : List FilePath) (w : World) → (tell adapter sources w).1.announced ≡ w.announced
  unfolding tell send
  tell-announced [] w = refl
  tell-announced (path ∷ rest) w =
      let w' = (send adapter path w).1 in
      go_on-Either (λ v. v.announced ≡ w.announced) (send adapter path w).0 (tell adapter rest w')
        w' (tell-announced rest w') refl

  module _
      (still : (path : FilePath) (sent : List Breakpoint) (s : Store)
        → (adapter path sent).meanwhile s ≡ s) where
    send-store : (path : FilePath) (w : World) → (send adapter path w).1.store ≡ w.store
    unfolding send
    send-store path w = still path _ w.store

    tell-store : (sources : List FilePath) (w : World) → (tell adapter sources w).1.store ≡ w.store
    unfolding tell
    tell-store [] w = refl
    tell-store (path ∷ rest) w =
        let w' = (send adapter path w).1 in
        go_on-Either (λ v. v.store ≡ w.store) (send adapter path w).0 (tell adapter rest w') w'
          (tell-store rest w' ∙ send-store path w) (send-store path w)

    tell-calls :
        (sources : List FilePath) (w : World)
        → Told (tell adapter sources w).0
        → (tell adapter sources w).1.calls ≡ w.calls ++ map (call_of w.store) sources
    unfolding tell call_of
    tell-calls [] w h = sym (append-nil w.calls)
    tell-calls (path ∷ rest) w h =
        let w' = (send adapter path w).1 in
        let later = tell adapter rest w' in
        let told = go_on-Told (send adapter path w).0 later w' h in
        ap (λ t. t.1.calls) told.1
        ∙ (tell-calls rest w' told.0
            ∙ (ap (λ s. w'.calls ++ map (call_of s) rest) (send-store path w)
                ∙ append_assoc w.calls (call_of w.store path ∷ []) (map (call_of w.store) rest)))

    pub apply-store :
        (sources : List FilePath) (w : World) → (apply adapter sources w).1.store ≡ w.store
    unfolding apply
    apply-store sources w = ground (arith, tell-store sources w)

    pub apply-calls :
        (sources : List FilePath) (w : World)
        → Told (apply adapter sources w).0
        → (apply adapter sources w).1.calls ≡ w.calls ++ map (call_of w.store) sources
    unfolding apply Told
    apply-calls sources w h = ground (arith, tell-calls sources w)

  pub apply-announced :
      (sources : List FilePath) (w : World) → (apply adapter sources w).1.announced ≡ w.announced
  unfolding apply
  apply-announced sources w = ground (arith, tell-announced sources w)

-- ===== src/Daemon/Handles/Stale.antt =====
-- crates/daemon/src/handles.rs: which refusal a handle that does not resolve is given.
use lazydap.Prelude.{
  lt→ltb, ◌∙◌, sym, ne→==, ℕ, ◌≤◌, ◌<◌, pos, ◌≡◌, refl, none, arith, lookup, ℤ_discrete,
  Option-cases, inl, inr,
}
use lazydap.Daemon.Handles.{
  HandleKind, Side, HandleTable, earlier_session, earlier_stop, nowhere, stale_handle, bad_request,
  err, as_i64, sync, origin, side, resolve,
}
use lazydap.Daemon.Handles.Invariant.{IsSound, IsIssued, Agrees, sync-IsSound}
use lazydap.Daemon.Handles.Laws.{agrees}

-- A handle at or below the floor of a side is not in it.
lookup_below :
    {floor issued : ℕ} (s : Side) (n : ℕ)
    → Agrees floor issued s
    → n ≤ floor
    → lookup ℤ_discrete (pos n) s.to_adapter ≡ none
lookup_below s n a le = elim (Option-cases (lookup ℤ_discrete (pos n) s.to_adapter)) [
  | inl e ↦ e
  | inr (adapter, e) ↦ absurd (not_below n le (a.issued_since (pos n) adapter e))
]
  where
    not_below : {floor issued : ℕ} (n : ℕ) → n ≤ floor → IsIssued floor issued (pos n) → ⊥
    not_below n le i = ground arith

-- A handle above the counter is not in any side.
lookup_above :
    {floor issued : ℕ} (s : Side) (n : ℕ)
    → Agrees floor issued s
    → issued < n
    → lookup ℤ_discrete (pos n) s.to_adapter ≡ none
lookup_above s n a lt = elim (Option-cases (lookup ℤ_discrete (pos n) s.to_adapter)) [
  | inl e ↦ e
  | inr (adapter, e) ↦ absurd (not_above n lt (a.issued_since (pos n) adapter e))
]
  where
    not_above : {floor issued : ℕ} (n : ℕ) → issued < n → IsIssued floor issued (pos n) → ⊥
    not_above n lt i = ground arith

session_floor-sync :
    (issued : ℕ) (t : HandleTable) (generation : ℕ)
    → (sync issued t generation).session_floor ≡ t.session_floor
unfolding sync
session_floor-sync issued t generation = ground arith

pos-injective : (a b : ℕ) → pos a ≡ pos b → a ≡ b
pos-injective a b h = cc

-- Catching up with the program does not change where the session began.
same_session :
    (issued : ℕ) (t : HandleTable) (generation : ℕ) (v : IsSound issued t)
    → (sync-IsSound issued t generation v).session_issued ≡ v.session_issued
same_session issued t generation v = pos-injective _ _ (
    sym (sync-IsSound issued t generation v).session_floor
    ∙ session_floor-sync issued t generation
    ∙ v.session_floor)

-- After a move every handle issued so far is of an earlier stop.
all_stale :
    (issued : ℕ) (t : HandleTable) (generation : ℕ) (v : IsSound issued t)
    → ¬ (t.generation ≡ generation)
    → (sync-IsSound issued t generation v).stale_issued ≡ issued
all_stale issued t generation v moved =
    pos-injective _ _ (sym (sync-IsSound issued t generation v).stale_floor ∙ stale_floor-sync)
  where
    stale_floor-sync : (sync issued t generation).stale_floor ≡ pos issued
    stale_floor-sync = unfold sync as_i64 in rw (ne→== _ _ moved) (rw (lt→ltb _ _ v.room))

module _ (issued : ℕ) (t : HandleTable) (n : ℕ) (v : IsSound issued t) where
  origin_session : 0 < n → n ≤ v.session_issued → origin t (pos n) ≡ earlier_session
  unfolding origin
  origin_session positive le = rw v.session_floor (ground arith)

  origin_stop : v.session_issued < n → n ≤ v.stale_issued → origin t (pos n) ≡ earlier_stop
  unfolding origin
  origin_stop lt le = rw (v.session_floor, v.stale_floor) (ground arith)

  origin_nowhere : v.stale_issued < n → origin t (pos n) ≡ nowhere
  unfolding origin
  origin_nowhere lt = rw (v.session_floor, v.stale_floor) (ground (arith, v.floors))

module _ (issued : ℕ) (t : HandleTable) (generation : ℕ) (kind : HandleKind) (n : ℕ)
    (v : IsSound issued t) where
  abbrev caught_up : IsSound issued (sync issued t generation)
  caught_up = sync-IsSound issued t generation v

  -- In a sound table, a handle that was issued before the session began is refused as one of a
  -- session that has ended, at any stop.
  pub resolve_earlier_session :
      0 < n
      → n ≤ v.session_issued
      → (resolve issued t generation kind (pos n)).0
        ≡ err (stale_handle earlier_session kind (pos n))
  unfolding resolve
  resolve_earlier_session positive le =
      let here : n ≤ caught_up.session_issued = omega (arith, same_session issued t generation v) in
      rw
        (lookup_below (side kind (sync issued t generation)) n (agrees caught_up kind)
          (omega (arith, caught_up.floors)))
        (rw (origin_session issued (sync issued t generation) n caught_up positive here) refl)

  -- In a sound table, a handle that was issued since the session began is refused, once the program
  -- has moved on, as one of an earlier stop.
  pub resolve_earlier_stop :
      v.session_issued < n
      → n ≤ issued
      → ¬ (t.generation ≡ generation)
      → (resolve issued t generation kind (pos n)).0 ≡ err (stale_handle earlier_stop kind (pos n))
  unfolding resolve
  resolve_earlier_stop lt le moved =
      let session : caught_up.session_issued < n =
        omega (arith, same_session issued t generation v) in
      let stale : n ≤ caught_up.stale_issued =
        omega (arith, all_stale issued t generation v moved) in
      rw (lookup_below (side kind (sync issued t generation)) n (agrees caught_up kind) stale)
        (rw (origin_stop issued (sync issued t generation) n caught_up session stale) refl)

  -- In a sound table, a positive number above the counter is refused as no handle at all, not as a
  -- stale one.
  pub resolve_unissued :
      issued < n → (resolve issued t generation kind (pos n)).0 ≡ err (bad_request kind (pos n))
  unfolding resolve
  resolve_unissued lt =
      let above : caught_up.stale_issued < n = omega (arith, caught_up.counter) in
      rw (lookup_above (side kind (sync issued t generation)) n (agrees caught_up kind) lt)
        (rw (origin_nowhere issued (sync issued t generation) n caught_up above) refl)

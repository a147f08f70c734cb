-- ===== src/Daemon/Handles/Invariant.antt =====
-- crates/daemon/src/handles.rs: the invariant of a session's handle table between calls, on the two
-- directions of each side and the daemon's counter.
use lazydap.Prelude.{
  subst, lt→ltb, ℕ, suc, ◌≤◌, ◌<◌, ℤ, pos, ◌≡◌, refl, none, some, arith, lookup, lookup-insert,
  lookup-nil, ℤ_discrete, inl, inr, ◌==◌, Bool-cases,
}
use lazydap.Daemon.Handles.{Side, clear, HandleTable, i64_limit, as_i64, new, sync, enter}

-- A handle issued after the first `floor` and among the first `issued`.
pub record IsIssued (floor issued : ℕ) (handle : ℤ) : Type 0 where
  pub number : ℕ
  pub is_number : handle ≡ pos number
  pub above : floor < number
  pub within : number ≤ issued

pub record Agrees (floor issued : ℕ) (s : Side) : Type 0 where
  pub there :
      (adapter handle : ℤ)
      → lookup ℤ_discrete adapter s.to_ours ≡ some handle
      → lookup ℤ_discrete handle s.to_adapter ≡ some adapter
  pub back :
      (handle adapter : ℤ)
      → lookup ℤ_discrete handle s.to_adapter ≡ some adapter
      → lookup ℤ_discrete adapter s.to_ours ≡ some handle
  pub issued_since :
      (handle adapter : ℤ)
      → lookup ℤ_discrete handle s.to_adapter ≡ some adapter
      → IsIssued floor issued handle

-- `issued` is the daemon's counter. It stays below the range of an `i64`.
pub record IsSound (issued : ℕ) (t : HandleTable) : Type 0 where
  pub session_issued : ℕ
  pub stale_issued : ℕ
  pub session_floor : t.session_floor ≡ pos session_issued
  pub stale_floor : t.stale_floor ≡ pos stale_issued
  pub floors : session_issued ≤ stale_issued
  pub counter : stale_issued ≤ issued
  pub room : issued < i64_limit
  pub frames : Agrees stale_issued issued t.frames
  pub variables : Agrees stale_issued issued t.variables

pub clear-Agrees : (floor issued : ℕ) → Agrees floor issued clear
clear-Agrees floor issued = record {
  there = λ a h p. cc (lookup-nil {V = ℤ} ℤ_discrete a);
  back = λ h a p. cc (lookup-nil {V = ℤ} ℤ_discrete h);
  issued_since = λ h a p. cc (lookup-nil {V = ℤ} ℤ_discrete h);
}

-- The counter may move on, for another session or the other side.
pub Agrees-later :
    {floor issued issued' : ℕ} {s : Side}
    → issued ≤ issued'
    → Agrees floor issued s
    → Agrees floor issued' s
Agrees-later le v = record {
  there = v.there;
  back = v.back;
  issued_since = λ h a p.
      let i = v.issued_since h a p in
      record { number = i.number; is_number = i.is_number; above = i.above; within = omega arith };
}

not-IsIssued-suc :
    {floor issued : ℕ} {handle : ℤ} → IsIssued floor issued handle → ¬ (handle ≡ pos (suc issued))
not-IsIssued-suc i e = ground arith

IsIssued-suc : (floor issued : ℕ) → floor ≤ issued → IsIssued floor (suc issued) (pos (suc issued))
IsIssued-suc floor issued le = record {
  number = suc issued;
  is_number = refl;
  above = omega arith;
  within = omega arith;
}

IsIssued-later :
    {floor issued : ℕ} {handle : ℤ}
    → IsIssued floor issued handle
    → IsIssued floor (suc issued) handle
IsIssued-later i = record {
  number = i.number;
  is_number = i.is_number;
  above = i.above;
  within = omega arith;
}

-- Entering the next handle for an adapter id that has none.
module _ (floor issued : ℕ) (s : Side) (adapter : ℤ) (le : floor ≤ issued)
    (v : Agrees floor issued s) (fresh : lookup ℤ_discrete adapter s.to_ours ≡ none) where
  handle : ℤ
  handle = pos (suc issued)

  unissued : (h a : ℤ) → lookup ℤ_discrete h s.to_adapter ≡ some a → ¬ (h ≡ handle)
  unfolding handle
  unissued h a p = not-IsIssued-suc (v.issued_since h a p)

  enter_there :
      (a h : ℤ)
      → lookup ℤ_discrete a (enter s handle adapter).to_ours ≡ some h
      → lookup ℤ_discrete h (enter s handle adapter).to_adapter ≡ some a
  enter_there a h p = ground (
    arith,
    lookup-insert ℤ_discrete adapter a handle s.to_ours,
    lookup-insert ℤ_discrete handle h adapter s.to_adapter,
    v.there a h,
    unissued h a,
  )

  enter_back :
      (h a : ℤ)
      → lookup ℤ_discrete h (enter s handle adapter).to_adapter ≡ some a
      → lookup ℤ_discrete a (enter s handle adapter).to_ours ≡ some h
  enter_back h a p = ground (
    arith,
    lookup-insert ℤ_discrete adapter a handle s.to_ours,
    lookup-insert ℤ_discrete handle h adapter s.to_adapter,
    v.back h a,
    fresh,
  )

  older :
      (h a : ℤ)
      → ¬ (handle ≡ h)
      → lookup ℤ_discrete h (enter s handle adapter).to_adapter ≡ some a
      → lookup ℤ_discrete h s.to_adapter ≡ some a
  older h a other p = ground (arith, lookup-insert ℤ_discrete handle h adapter s.to_adapter)

  enter-IsIssued :
      (h a : ℤ)
      → lookup ℤ_discrete h (enter s handle adapter).to_adapter ≡ some a
      → IsIssued floor (suc issued) h
  unfolding handle
  enter-IsIssued h a p = elim (ℤ_discrete handle h) [
    | yes same ↦ subst (IsIssued floor (suc issued)) same (IsIssued-suc floor issued le)
    | no other ↦ IsIssued-later (v.issued_since h a (older h a other p))
  ]

  pub enter-Agrees : Agrees floor (suc issued) (enter s (pos (suc issued)) adapter)
  unfolding handle
  enter-Agrees = record { there = enter_there; back = enter_back; issued_since = enter-IsIssued }

pub new-IsSound : (issued : ℕ) → issued < i64_limit → IsSound issued (new issued)
unfolding new as_i64
new-IsSound issued room = record {
  session_issued = issued;
  stale_issued = issued;
  session_floor = rw (lt→ltb _ _ room);
  stale_floor = rw (lt→ltb _ _ room);
  floors = omega arith;
  counter = omega arith;
  room = room;
  frames = clear-Agrees issued issued;
  variables = clear-Agrees issued issued;
}

-- A resumed program forgets its handles, and keeps where they end.
pub sync-IsSound :
    (issued : ℕ) (t : HandleTable) (generation : ℕ)
    → IsSound issued t
    → IsSound issued (sync issued t generation)
unfolding sync as_i64
sync-IsSound issued t generation v = elim (Bool-cases (t.generation == generation)) [
  | inl same ↦ rw same v
  | inr moved ↦ rw moved (record {
    session_issued = v.session_issued;
    stale_issued = issued;
    session_floor = v.session_floor;
    stale_floor = rw (lt→ltb _ _ v.room);
    floors = omega arith;
    counter = omega arith;
    room = v.room;
    frames = clear-Agrees issued issued;
    variables = clear-Agrees issued issued;
  })
]

-- Another session's handles move the counter, and leave this table sound.
pub IsSound-later :
    (issued issued' : ℕ) (t : HandleTable)
    → issued ≤ issued'
    → issued' < i64_limit
    → IsSound issued t
    → IsSound issued' t
IsSound-later issued issued' t le room v = record {
  session_issued = v.session_issued;
  stale_issued = v.stale_issued;
  session_floor = v.session_floor;
  stale_floor = v.stale_floor;
  floors = v.floors;
  counter = omega arith;
  room = room;
  frames = Agrees-later le v.frames;
  variables = Agrees-later le v.variables;
}

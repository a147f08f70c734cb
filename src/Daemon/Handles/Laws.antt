-- ===== src/Daemon/Handles/Laws.antt =====
-- crates/daemon/src/handles.rs: handles that are issued, and what they resolve to.
use lazydap.Prelude.{
  lookup-insert_self, ◌∙◌, ℕ, suc, ◌+◌, ◌<◌, ℤ, pos, ◌≡◌, refl, some, arith, lookup, ℤ_discrete,
  Option-cases, inl, inr,
}
use lazydap.Daemon.Handles.{
  succ_i64, HandleKind, frame, variables, Side, HandleTable, ok, i64_limit, as_i64, sync, next,
  side, set_side, enter, issue, mint, resolve,
}
use lazydap.Daemon.Handles.Invariant.{enter-Agrees, Agrees-later, IsSound, Agrees, sync-IsSound}

next_lem : (issued : ℕ) → issued + 1 < i64_limit → next issued ≡ (pos (suc issued), suc issued)
unfolding next as_i64 succ_i64
next_lem issued room = ground arith

pub sync-generation : (issued : ℕ) (t : HandleTable) (g : ℕ) → (sync issued t g).generation ≡ g
unfolding sync
sync-generation issued t g = ground arith

-- A table that is in step with the stop is left alone.
pub sync_same : (issued : ℕ) (t : HandleTable) (g : ℕ) → t.generation ≡ g → sync issued t g ≡ t
unfolding sync
sync_same issued t g e = ground arith

pub agrees :
    {issued : ℕ} {t : HandleTable} (v : IsSound issued t) (kind : HandleKind)
    → Agrees v.stale_issued issued (side kind t)
agrees v frame = v.frames
agrees v variables = v.variables

set_side-IsSound :
    (issued : ℕ) (t : HandleTable) (kind : HandleKind) (s : Side) (v : IsSound issued t)
    → suc issued < i64_limit
    → Agrees v.stale_issued (suc issued) s
    → IsSound (suc issued) (set_side kind t s)
set_side-IsSound issued t frame s v room a = record {
  session_issued = v.session_issued;
  stale_issued = v.stale_issued;
  session_floor = v.session_floor;
  stale_floor = v.stale_floor;
  floors = v.floors;
  counter = omega arith;
  room = room;
  frames = a;
  variables = Agrees-later (omega arith) v.variables;
}
set_side-IsSound issued t variables s v room a = record {
  session_issued = v.session_issued;
  stale_issued = v.stale_issued;
  session_floor = v.session_floor;
  stale_floor = v.stale_floor;
  floors = v.floors;
  counter = omega arith;
  room = room;
  frames = Agrees-later (omega arith) v.frames;
  variables = a;
}

set_side-generation :
    (t : HandleTable) (kind : HandleKind) (s : Side)
    → ((set_side kind t s).generation ≡ t.generation) × (side kind (set_side kind t s) ≡ s)
set_side-generation t frame s = (refl, refl)
set_side-generation t variables s = (refl, refl)

-- What `issue` answers, in a table that is sound: a handle that stands for the adapter's number, and
-- a table in step with the same stop.
record Issues (issued : ℕ) (t : HandleTable) (kind : HandleKind) (adapter : ℤ)
    (r : ℤ × ℕ × HandleTable) : Type 0 where
  sound : IsSound r.1 r.2
  in_step : r.2.generation ≡ t.generation
  stands_for : lookup ℤ_discrete r.0 (side kind r.2).to_adapter ≡ some adapter

issue-Issues :
    (issued : ℕ) (t : HandleTable) (kind : HandleKind) (adapter : ℤ)
    → issued + 1 < i64_limit
    → IsSound issued t
    → Issues issued t kind adapter
        (issue (lookup ℤ_discrete adapter (side kind t).to_ours) issued t kind adapter)
issue-Issues issued t kind adapter room v =
    elim (Option-cases (lookup ℤ_discrete adapter (side kind t).to_ours)) [
      | inl fresh ↦
          rw (fresh, next_lem issued room)
            (record {
              sound = set_side-IsSound issued t kind _ v (omega arith) (
                  enter-Agrees v.stale_issued issued (side kind t) adapter v.counter (agrees v kind)
                    fresh);
              in_step = (set_side-generation t kind _).0;
              stands_for = rw (set_side-generation t kind entered).1 (
                  lookup-insert_self ℤ_discrete (pos (suc issued)) adapter
                    (side kind t).to_adapter);
            })
      | inr (existing, known) ↦ rw known (record {
        sound = v;
        in_step = refl;
        stands_for = (agrees v kind).there adapter existing known;
      })
    ]
  where
    entered : Side
    entered = enter (side kind t) (pos (suc issued)) adapter

module _ (issued : ℕ) (t : HandleTable) (generation : ℕ) (kind : HandleKind) (adapter : ℤ)
    (room : issued + 1 < i64_limit) (v : IsSound issued t) where
  mint-Issues :
      Issues issued (sync issued t generation) kind adapter (mint issued t generation kind adapter)
  unfolding mint
  mint-Issues =
      issue-Issues issued (sync issued t generation) kind adapter room
        (sync-IsSound issued t generation v)

  -- Issuing a handle keeps a sound table sound, with the counter moved on, while the counter has
  -- room in an `i64`.
  pub mint-IsSound :
      IsSound (mint issued t generation kind adapter).1 (mint issued t generation kind adapter).2
  mint-IsSound = mint-Issues.sound

  -- A handle that a sound table issued, while the counter has room in an `i64`, resolves at the same
  -- stop to the adapter's number that it stands for, whatever the counter is by then.
  pub resolve-mint :
      (issued' : ℕ)
      → (resolve issued'
          (mint issued t generation kind adapter).2
          generation
          kind
          (mint issued t generation kind adapter).0).0
        ≡ ok adapter
  unfolding resolve
  resolve-mint issued' =
      rw
        (sync_same issued' (mint issued t generation kind adapter).2 generation
          (mint-Issues.in_step ∙ sync-generation issued t generation))
        (rw mint-Issues.stands_for refl)

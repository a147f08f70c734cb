-- ===== src/Daemon/Session/Marking.antt =====
-- `Markers` of crates/daemon/src/state.rs: what a request puts up when it asks the program to move, and
-- what it takes down.
use lazydap.Prelude.{
  ℕ, ◌+◌, ◌≤◌, ◌<◌, ◌≡◌, ◌≢◌, refl, arith, ℤ, Option, none, some, u64_mod, add_u64,
}
use lazydap.Daemon.Session.{
  Session, OutstandingStep, MarkerId, issue, withdraw, withdraw_marker, withdraw_step,
  withdraw_pause, expect_step,
}

abbrev IsOldStep : ℕ → Option OutstandingStep → Type 0
IsOldStep n none = Unit
IsOldStep n (some step) = step.id ≤ n

abbrev IsOldPause : ℕ → Option MarkerId → Type 0
IsOldPause n none = Unit
IsOldPause n (some id) = id ≤ n

-- Every marker that is up was issued, and the counter is not about to wrap.
unfoldable pub IsMarked : Session → Type 0
IsMarked s =
    IsOldStep s.outstanding.next_id s.outstanding.slots.step
    × IsOldPause s.outstanding.next_id s.outstanding.slots.pause
    × s.outstanding.next_id + 2 < u64_mod

kept_pause :
    (n id : ℕ) (up : Option MarkerId) → n < id → IsOldPause n up → withdraw_pause id up ≡ up
kept_pause n id none later old = refl
kept_pause n id (some up) later old = ground arith

kept_step : (id : ℕ) (up : OutstandingStep) → up.id ≢ id → withdraw_step id (some up) ≡ some up
kept_step id up other = ground arith

-- Where the markers that are up were issued and the counter has room, a step that is withdrawn takes
-- down its own marker and leaves a pause that is waiting.
pub withdraw-expect_step :
    (s : Session) (thread : ℤ)
    → IsMarked s
    → ((withdraw (expect_step s thread).1 (expect_step s thread).0).outstanding.slots.step ≡ none)
      × ((withdraw (expect_step s thread).1 (expect_step s thread).0).outstanding.slots.pause
          ≡ s.outstanding.slots.pause)
unfolding withdraw expect_step issue withdraw_marker IsMarked
withdraw-expect_step s thread h = (
  ground arith,
  kept_pause s.outstanding.next_id (add_u64 s.outstanding.next_id 1) s.outstanding.slots.pause
      (omega (arith, h.2)) h.1,
)

-- Where the markers that are up were issued and the counter has room, a step that is withdrawn after
-- another step was asked for takes down no marker.
pub withdraw-expect_step_later :
    (s : Session) (thread other : ℤ)
    → IsMarked s
    → (withdraw
        (expect_step (expect_step s thread).1 other).1
        (expect_step s thread).0).outstanding.slots
      ≡ (expect_step (expect_step s thread).1 other).1.outstanding.slots
unfolding withdraw expect_step issue withdraw_marker IsMarked
withdraw-expect_step_later s thread other h =
    let n = s.outstanding.next_id in
    let own = add_u64 n 1 in
    let newer : OutstandingStep = record { id = add_u64 own 1; thread_id = other } in
    let apart : newer.id ≢ own = omega (arith, h.2) in
    λ i. record {
      step = kept_step own newer apart i;
      pause = kept_pause n own s.outstanding.slots.pause (omega (arith, h.2)) h.1 i;
    }

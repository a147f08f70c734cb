-- ===== src/Examples/Window.antt =====
-- The window of an answer to `variables`: crates/daemon/src/handlers/inspect.rs.
use lazydap.Prelude.{◌≡◌, refl, arith, ℕ, none, some, true, List, [], ◌∷◌, ltb, length, take}
use lazydap.Daemon.Window.{row_limit, probe, truncate}
use lazydap.Daemon.Window.Exact.{offered, HasRoom, truncate-exact}

abbrev six : List ℕ
six = 0 ∷ 1 ∷ 2 ∷ 3 ∷ 4 ∷ 5 ∷ []

five_of_six : truncate six 5 ≡ (0 ∷ 1 ∷ 2 ∷ 3 ∷ 4 ∷ [], true)
unfolding truncate
five_of_six = refl

-- A count wider than the cap does not escape it, and one that is narrower binds.
limits : (row_limit (some 5000) (some 200) ≡ 200) × (row_limit (some 5) (some 0) ≡ 5)
unfolding row_limit
limits = (refl, refl)

truncate-exact_example :
    truncate (offered (probe (row_limit (some 5) none)) six) (row_limit (some 5) none)
    ≡ (take (row_limit (some 5) none) six, ltb (row_limit (some 5) none) (length six))
unfolding HasRoom
truncate-exact_example = truncate-exact (some 5) none six (omega arith) (omega arith)

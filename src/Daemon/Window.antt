-- ===== src/Daemon/Window.antt =====
-- crates/daemon/src/handlers/inspect.rs: how many rows one answer to `variables` carries, and what it
-- says of the others. A `usize` has 64 bits.
pub mod Exact
use lazydap.Prelude.{
  ◌+◌, ℕ, zero, suc, Option, none, some, Bool, List, ltb, leb, length, take, unwrap_or,
  if◌then◌else◌,
}

abbrev pub usize_max : ℕ
usize_max = 18446744073709551615

abbrev pub u32_max : ℕ
u32_max = 4294967295

abbrev pub default_variable_cap : ℕ
default_variable_cap = 200

unfoldable pub narrower : ℕ → ℕ → ℕ
narrower a b = if leb a b then a else b

-- 0 lifts a limit.
unfoldable pub unlimited : ℕ → ℕ
unlimited zero = usize_max
unlimited (suc n) = suc n

unfoldable pub row_limit : Option ℕ → Option ℕ → ℕ
unfolding unlimited narrower
row_limit (some count) max =
    narrower (unlimited (unwrap_or max default_variable_cap)) (unlimited count)
row_limit none max = unlimited (unwrap_or max default_variable_cap)

-- `u32::try_from(limit).unwrap_or(u32::MAX).saturating_add(1)`, where there is a limit
unfoldable pub probe : ℕ → Option ℕ
unfolding narrower
probe limit = if ltb limit usize_max then some (narrower (limit + 1) u32_max) else none

-- `take`
unfoldable pub truncate {ℓ} : {A : Type ℓ} → List A → ℕ → List A × Bool
truncate rows limit = (take limit rows, ltb limit (length rows))

-- ===== src/Daemon/Handles.antt =====
-- crates/daemon/src/handles.rs: the frame ids and variables references that clients are given in
-- place of the adapter's, and which stop and session each belongs to. The counter is shared by
-- all sessions of the daemon, so each operation takes it and answers what it is afterwards.
pub mod Invariant
pub mod Laws
pub mod Stale
use lazydap.Prelude.{
  ℕ, ◌+◌, ◌-◌, ◌^◌, ℤ, pos, negsuc, Option, none, some, Bool, false, List, [], ltb, leb, ◌==◌,
  if◌then◌else◌, u64_mod, add_u64, leb_ℕ, lookup, insert, ℤ_discrete,
}

pub data HandleKind : Type 0 where
  frame variables : HandleKind

-- One direction of the table each.
pub record Side : Type 0 where
  pub to_adapter : List (ℤ × ℤ)
  pub to_ours : List (ℤ × ℤ)

abbrev pub clear : Side
clear = record { to_adapter = []; to_ours = [] }

pub data Origin : Type 0 where
  earlier_session earlier_stop nowhere : Origin

pub record HandleTable : Type 0 where
  pub generation : ℕ
  pub session_floor : ℤ
  pub stale_floor : ℤ
  pub frames : Side
  pub variables : Side

abbrev pub i64_limit : ℕ
i64_limit = 2 ^ 63

-- A `u64` read `as i64`.
unfoldable pub as_i64 : ℕ → ℤ
as_i64 n = if ltb n i64_limit then pos n else negsuc (u64_mod - 1 - n)

-- `+ 1` on `i64`, which wraps.
unfoldable pub succ_i64 : ℤ → ℤ
succ_i64 (pos n) = if n == i64_limit - 1 then negsuc (i64_limit - 1) else pos (n + 1)
succ_i64 (negsuc n) = if n == 0 then pos 0 else negsuc (n - 1)

-- `a <= b` on `i64`
abbrev pub leb_ℤ : ℤ → ℤ → Bool
leb_ℤ z (pos n) = leb_ℕ z n
leb_ℤ (pos m) (negsuc n) = false
leb_ℤ (negsuc m) (negsuc n) = leb n m

unfoldable pub new : ℕ → HandleTable
unfolding as_i64
new sequence =
    let issued = as_i64 sequence in
    record {
      generation = 0;
      session_floor = issued;
      stale_floor = issued;
      frames = clear;
      variables = clear;
    }

unfoldable pub sync : ℕ → HandleTable → ℕ → HandleTable
unfolding as_i64
sync sequence t generation = if t.generation == generation then t else record t {
  generation = generation;
  stale_floor = as_i64 sequence;
  frames = clear;
  variables = clear;
}

-- The handle issued, and the counter after it.
unfoldable pub next : ℕ → ℤ × ℕ
unfolding as_i64 succ_i64
next sequence = (succ_i64 (as_i64 sequence), add_u64 sequence 1)

unfoldable pub origin : HandleTable → ℤ → Origin
origin t handle =
    if leb_ℕ handle 0
    then nowhere
    else if leb_ℤ handle t.session_floor
    then earlier_session
    else if leb_ℤ handle t.stale_floor
    then earlier_stop
    else nowhere

abbrev pub side : HandleKind → HandleTable → Side
side frame t = t.frames
side variables t = t.variables

-- A write through `&mut Side`.
abbrev pub set_side : HandleKind → HandleTable → Side → HandleTable
set_side frame t s = record t { frames = s }
set_side variables t s = record t { variables = s }

abbrev pub enter : Side → ℤ → ℤ → Side
enter s handle adapter = record {
  to_adapter = insert ℤ_discrete handle adapter s.to_adapter;
  to_ours = insert ℤ_discrete adapter handle s.to_ours;
}

-- What `mint` does once the table is in step with the stop.
abbrev issue : Option ℤ → ℕ → HandleTable → HandleKind → ℤ → ℤ × ℕ × HandleTable
issue (some existing) sequence t kind adapter = (existing, sequence, t)
issue none sequence t kind adapter =
    let (handle, sequence') = next sequence in
    (handle, sequence', set_side kind t (enter (side kind t) handle adapter))

unfoldable pub mint : ℕ → HandleTable → ℕ → HandleKind → ℤ → ℤ × ℕ × HandleTable
unfolding sync
mint sequence t generation kind adapter =
    let t' = sync sequence t generation in
    issue (lookup ℤ_discrete adapter (side kind t').to_ours) sequence t' kind adapter

pub data HandleError : Type 0 where
  -- `ErrorCode::StaleHandle`, with the session or the stop that the handle belongs to
  stale_handle : Origin → HandleKind → ℤ → HandleError
  -- `ErrorCode::BadRequest`
  bad_request : HandleKind → ℤ → HandleError

abbrev pub refuse : Origin → HandleKind → ℤ → HandleError
refuse nowhere kind handle = bad_request kind handle
refuse from kind handle = stale_handle from kind handle

pub data Resolved : Type 0 where
  ok : ℤ → Resolved
  err : HandleError → Resolved

abbrev answer : Option ℤ → HandleTable → HandleKind → ℤ → Resolved
answer (some adapter) t kind handle = ok adapter
answer none t kind handle = err (refuse (origin t handle) kind handle)

unfoldable pub resolve : ℕ → HandleTable → ℕ → HandleKind → ℤ → Resolved × HandleTable
unfolding sync
resolve sequence t generation kind handle =
    let t' = sync sequence t generation in
    (answer (lookup ℤ_discrete handle (side kind t').to_adapter) t' kind handle, t')

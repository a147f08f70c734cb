-- ===== src/Daemon/Window/Exact.antt =====
-- The answer to `variables`, against the whole of what the adapter has.
use lazydap.Prelude.{
  ◌<◌, ◌≡◌, refl, ap, ap₂, arith, ◌⊎◌, inl, inr, ℕ, suc, zero, Option, none, some, List, [], ◌∷◌,
  ltb, length, take,
}
use lazydap.Daemon.Window.{
  usize_max, u32_max, default_variable_cap, narrower, unlimited, row_limit, probe, truncate,
}

-- What an adapter that holds rows answers to a request for so many of them.
unfoldable pub offered {ℓ} : {A : Type ℓ} → Option ℕ → List A → List A
offered none rows = rows
offered (some count) rows = take count rows

-- A number of rows that leaves room, in a `u32`, for one more.
unfoldable pub HasRoom : Option ℕ → Type 0
HasRoom none = 0 < u32_max
HasRoom (some n) = n < u32_max

unlimited_lem : (n : ℕ) → n < u32_max → (unlimited n < u32_max) ⊎ (unlimited n ≡ usize_max)
unfolding unlimited
unlimited_lem zero h = inr refl
unlimited_lem (suc n) h = inl h

narrower_lem :
    (a b : ℕ)
    → (a < u32_max) ⊎ (a ≡ usize_max)
    → (b < u32_max) ⊎ (b ≡ usize_max)
    → (narrower a b < u32_max) ⊎ (narrower a b ≡ usize_max)
unfolding narrower
narrower_lem a b h k = ground arith

row_limit_lem :
    (count max : Option ℕ)
    → HasRoom count
    → HasRoom max
    → (row_limit count max < u32_max) ⊎ (row_limit count max ≡ usize_max)
unfolding row_limit HasRoom
row_limit_lem none none h k = unlimited_lem default_variable_cap (omega arith)
row_limit_lem none (some m) h k = unlimited_lem m k
row_limit_lem (some n) none h k =
    narrower_lem _ _ (unlimited_lem default_variable_cap (omega arith)) (unlimited_lem n h)
row_limit_lem (some n) (some m) h k = narrower_lem _ _ (unlimited_lem m k) (unlimited_lem n h)

take-take {ℓ} : {A : Type ℓ} (n : ℕ) (rows : List A) → take n (take (suc n) rows) ≡ take n rows
take-take zero rows = refl
take-take (suc n) [] = refl
take-take (suc n) (x ∷ rows) = ap (λ rest. x ∷ rest) (take-take n rows)

ltb-take {ℓ} :
    {A : Type ℓ} (n : ℕ) (rows : List A) → ltb n (length (take (suc n) rows)) ≡ ltb n (length rows)
ltb-take zero [] = refl
ltb-take zero (x ∷ rows) = ground arith
ltb-take (suc n) [] = refl
ltb-take (suc n) (x ∷ rows) = ground (arith, ltb-take n rows)

probe_lem :
    (limit : ℕ)
    → (limit < u32_max) ⊎ (limit ≡ usize_max)
    → (probe limit ≡ some (suc limit)) ⊎ (probe limit ≡ none)
unfolding probe narrower
probe_lem limit h = ground arith

truncate-offered {ℓ} :
    {A : Type ℓ} (limit : ℕ) (rows : List A)
    → (probe limit ≡ some (suc limit)) ⊎ (probe limit ≡ none)
    → truncate (offered (probe limit) rows) limit ≡ truncate rows limit
unfolding truncate offered
truncate-offered limit rows (inl one_more) =
    rw one_more (ap₂ (λ kept more. (kept, more)) (take-take limit rows) (ltb-take limit rows))
truncate-offered limit rows (inr everything) = rw everything refl

-- Where neither limit is the largest `u32`, and the adapter answers with as many of its rows as it is
-- asked for: an answer carries the first rows up to the limit, and says that there are more exactly where there are more rows than the limit.
pub truncate-exact {ℓ} :
    {A : Type ℓ} (count max : Option ℕ) (rows : List A)
    → HasRoom count
    → HasRoom max
    → truncate (offered (probe (row_limit count max)) rows) (row_limit count max)
      ≡ (take (row_limit count max) rows, ltb (row_limit count max) (length rows))
unfolding truncate
truncate-exact count max rows h k =
    let limit = row_limit count max in
    truncate-offered limit rows (probe_lem limit (row_limit_lem count max h k))

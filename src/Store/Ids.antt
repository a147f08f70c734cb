-- ===== src/Store/Ids.antt =====
-- Items that are told apart by their ids: what picking some of them by a test, and then acting on
-- the ids of those picked, comes to.
use native.Mathlib.Nat.{le_trans}
use lazydap.Prelude.{
  ◌≤◌, ℕ, ◌<◌, ◌≡◌, refl, ap, Bool, false, not, List, [], ◌∷◌, ◌++◌, map, arith, if◌then◌else◌,
  filter, contains, All, ℕ_discrete,
}

-- No id occurs twice.
abbrev pub Distinct : List ℕ → Type 0
Distinct [] = Unit
Distinct (x ∷ xs) = (contains ℕ_discrete xs x ≡ false) × Distinct xs

module _ {T : Type 0} (id_of : T → ℕ) where
  abbrev pub ids_of : List T → List ℕ
  ids_of = map id_of

  contains-filter :
      (p : T → Bool) (xs : List T) (i : ℕ)
      → contains ℕ_discrete (ids_of xs) i ≡ false
      → contains ℕ_discrete (ids_of (filter p xs)) i ≡ false
  contains-filter p [] i h = refl
  contains-filter p (x ∷ xs) i h = ground (arith, contains-filter p xs i)

  others :
      (i : ℕ) (xs : List T)
      → contains ℕ_discrete (ids_of xs) i ≡ false
      → All (λ y. ¬ (i ≡ id_of y)) xs
  others i [] h = tt
  others i (x ∷ xs) h = (ground arith, others i xs (ground arith))

  picked_behind :
      (p : T → Bool) (x : T) (xs ys : List T)
      → All (λ y. ¬ (id_of x ≡ id_of y)) ys
      → All (λ y. contains ℕ_discrete (ids_of (filter p xs)) (id_of y) ≡ p y) ys
      → All (λ y. contains ℕ_discrete (ids_of (filter p (x ∷ xs))) (id_of y) ≡ p y) ys
  picked_behind p x xs [] apart h = tt
  picked_behind p x xs (y ∷ ys) apart h =
      (ground (arith, apart.0, h.0), picked_behind p x xs ys apart.1 h.1)

  -- Whether an item's id is among those picked tells whether the item was picked.
  pub picked :
      (p : T → Bool) (xs : List T)
      → Distinct (ids_of xs)
      → All (λ y. contains ℕ_discrete (ids_of (filter p xs)) (id_of y) ≡ p y) xs
  picked p [] h = tt
  picked p (x ∷ xs) h = (
    ground (arith, contains-filter p xs (id_of x) h.0),
    picked_behind p x xs xs (others (id_of x) xs h.0) (picked p xs h.1),
  )

  filter_cong : (p q : T → Bool) (xs : List T) → All (λ y. p y ≡ q y) xs → filter p xs ≡ filter q xs
  filter_cong p q [] h = refl
  filter_cong p q (x ∷ xs) h = rw (h.0, filter_cong p q xs h.1)

  map_cong : (f g : T → T) (xs : List T) → All (λ y. f y ≡ g y) xs → map f xs ≡ map g xs
  map_cong f g [] h = refl
  map_cong f g (x ∷ xs) h = rw (h.0, map_cong f g xs h.1)

  All-map {κ} : {P Q : T → Type κ} → ((y : T) → P y → Q y) → (xs : List T) → All P xs → All Q xs
  All-map f [] h = tt
  All-map f (x ∷ xs) h = (f x h.0, All-map f xs h.1)

  -- Keeping the items whose ids were not picked keeps the items that were not picked.
  pub retain_unpicked :
      (p : T → Bool) (xs : List T)
      → Distinct (ids_of xs)
      → filter (λ y. not (contains ℕ_discrete (ids_of (filter p xs)) (id_of y))) xs
        ≡ filter (λ y. not (p y)) xs
  retain_unpicked p xs h = filter_cong _ _ xs (All-map (λ y e. ap not e) xs (picked p xs h))

  -- The items whose ids were picked are the items picked.
  pub filter_picked :
      (p : T → Bool) (xs : List T)
      → Distinct (ids_of xs)
      → filter (λ y. contains ℕ_discrete (ids_of (filter p xs)) (id_of y)) xs ≡ filter p xs
  filter_picked p xs h = filter_cong _ _ xs (picked p xs h)

  pub map_picked :
      (f : T → T) (p : T → Bool) (xs : List T)
      → Distinct (ids_of xs)
      → map (λ y. if contains ℕ_discrete (ids_of (filter p xs)) (id_of y) then f y else y) xs
        ≡ map (λ y. if p y then f y else y) xs
  map_picked f p xs h =
      map_cong _ _ xs (All-map (λ y e. ap (λ b. if b then f y else y) e) xs (picked p xs h))

  pub Distinct-filter :
      (p : T → Bool) (xs : List T) → Distinct (ids_of xs) → Distinct (ids_of (filter p xs))
  Distinct-filter p [] h = tt
  Distinct-filter p (x ∷ xs) h =
      ground (arith, contains-filter p xs (id_of x) h.0, Distinct-filter p xs h.1)

  contains-append :
      (xs ys : List T) (i : ℕ)
      → contains ℕ_discrete (ids_of xs) i ≡ false
      → contains ℕ_discrete (ids_of ys) i ≡ false
      → contains ℕ_discrete (ids_of (xs ++ ys)) i ≡ false
  contains-append [] ys i h k = k
  contains-append (x ∷ xs) ys i h k = ground (arith, contains-append xs ys i)

  not-contains_below :
      (n : ℕ) (xs : List T) → All (λ y. id_of y < n) xs → contains ℕ_discrete (ids_of xs) n ≡ false
  not-contains_below n [] h = refl
  not-contains_below n (x ∷ xs) h = ground (arith, h.0, not-contains_below n xs h.1)

  -- An item under an id that is above all others keeps the ids distinct.
  pub Distinct-append :
      (xs : List T) (x : T)
      → All (λ y. id_of y < id_of x) xs
      → Distinct (ids_of xs)
      → Distinct (ids_of (xs ++ x ∷ []))
  Distinct-append [] x below h = (refl, tt)
  Distinct-append (y ∷ xs) x below h = (
    contains-append xs (x ∷ []) (id_of y) h.0 (ground (arith, below.0)),
    Distinct-append xs x below.1 h.1,
  )

  pub All-below-suc :
      (n m : ℕ) (xs : List T) → n ≤ m → All (λ y. id_of y < n) xs → All (λ y. id_of y < m) xs
  All-below-suc n m xs le = All-map (λ y (h : id_of y < n). le_trans h le) xs

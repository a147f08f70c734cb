-- ===== src/Store/Replacing.antt =====
-- Searching a list, replacing what a search finds, and lists of which no two items are alike.
use lazydap.Prelude.{
  ◌≡◌, refl, sym, ap, ◌∙◌, subst, fun_ext, Bool, true, false, none, some, List, [], ◌∷◌, ◌++◌,
  arith, filter, find, replace_first, All, All-append, All-filter, Bool-cases, inl, inr, map,
}

-- No two items of a list pass the test together.
abbrev pub Apart {ℓ} : {A : Type ℓ} → (A → A → Bool) → List A → Type 0
Apart test [] = Unit
Apart test (x ∷ xs) = All (λ y. test x y ≡ false) xs × Apart test xs

pub Apart-filter {ℓ} :
    {A : Type ℓ} (test : A → A → Bool) (p : A → Bool) (xs : List A)
    → Apart test xs
    → Apart test (filter p xs)
Apart-filter test p [] h = tt
Apart-filter test p (x ∷ xs) h =
    ground (arith, All-filter (λ y. test x y ≡ false) p xs h.0, Apart-filter test p xs h.1)

-- A search that finds nothing: everything fails the test.
pub find-none {ℓ} :
    {A : Type ℓ} (p : A → Bool) (xs : List A) → find p xs ≡ none → All (λ x. p x ≡ false) xs
find-none p [] h = tt
find-none p (x ∷ xs) h = (ground arith, find-none p xs (ground arith))

pub Apart-append {ℓ} :
    {A : Type ℓ} (test : A → A → Bool) (xs : List A) (x : A)
    → All (λ y. test y x ≡ false) xs
    → Apart test xs
    → Apart test (xs ++ x ∷ [])
Apart-append test [] x h a = (tt, tt)
Apart-append test (y ∷ xs) x h a =
    (All-append (λ z. test y z ≡ false) xs (x ∷ []) a.0 (h.0, tt), Apart-append test xs x h.1 a.1)

-- Replacing the item that a search finds by one that satisfies what it satisfied.
pub All-replace_first {ℓ κ} :
    {A : Type ℓ} (P : A → Type κ) (p : A → Bool) (old new : A) (xs : List A)
    → find p xs ≡ some old
    → (P old → P new)
    → All P xs
    → All P (replace_first p new xs)
All-replace_first P p old new [] e f h = h
All-replace_first P p old new (x ∷ xs) e f h = elim (Bool-cases (p x)) [
  | inl found ↦ rw found (f (subst P (first_found found) h.0), h.1)
  | inr other ↦ rw other (h.0, All-replace_first P p old new xs (later_found other) f h.1)
]
  where
    first_found : p x ≡ true → x ≡ old
    first_found found = ground arith

    later_found : p x ≡ false → find p xs ≡ some old
    later_found other = ground arith

pub Apart-replace_first {ℓ} :
    {A : Type ℓ} (test : A → A → Bool) (p : A → Bool) (old new : A) (xs : List A)
    → find p xs ≡ some old
    → ((x : A) → test x new ≡ test x old)
    → ((x : A) → test new x ≡ test old x)
    → Apart test xs
    → Apart test (replace_first p new xs)
Apart-replace_first test p old new [] e f g h = h
Apart-replace_first test p old new (x ∷ xs) e f g h = elim (Bool-cases (p x)) [
  | inl found ↦ rw found (
    subst (λ a. All (λ y. a y ≡ false) xs) (ap test (first_found found) ∙ fun_ext λ y. sym (g y))
        h.0,
    h.1,
  )
  | inr other ↦ rw other (
    All-replace_first (λ y. test x y ≡ false) p old new xs (later_found other) (λ q. f x ∙ q) h.0,
    Apart-replace_first test p old new xs (later_found other) f g h.1,
  )
]
  where
    first_found : p x ≡ true → x ≡ old
    first_found found = ground arith

    later_found : p x ≡ false → find p xs ≡ some old
    later_found other = ground arith

pub find_passes {ℓ} :
    {A : Type ℓ} (p : A → Bool) (xs : List A) (a : A) → find p xs ≡ some a → p a ≡ true
find_passes p [] a e = cc
find_passes p (x ∷ xs) a e = ground (arith, find_passes p xs a)

-- A map that leaves the test as it was.
pub Apart-map :
    {A : Type 0} (test : A → A → Bool) (f : A → A) (xs : List A)
    → ((x y : A) → test (f x) (f y) ≡ test x y)
    → Apart test xs
    → Apart test (map f xs)
Apart-map test f [] same h = tt
Apart-map {A} test f (x ∷ xs) same h = (All_map_same xs h.0, Apart-map test f xs same h.1)
  where
    All_map_same :
        (ys : List A) → All (λ y. test x y ≡ false) ys → All (λ y. test (f x) y ≡ false) (map f ys)
    All_map_same [] k = tt
    All_map_same (y ∷ ys) k = (same x y ∙ k.0, All_map_same ys k.1)

pub find-append_none {ℓ} :
    {A : Type ℓ} (p : A → Bool) (xs : List A) (a : A)
    → find p xs ≡ none
    → p a ≡ true
    → find p (xs ++ a ∷ []) ≡ some a
find-append_none p [] a e h = rw h
find-append_none p (x ∷ xs) a e h = ground (arith, find-append_none p xs a)

pub find-append_other {ℓ} :
    {A : Type ℓ} (p : A → Bool) (xs : List A) (a : A)
    → p a ≡ false
    → find p (xs ++ a ∷ []) ≡ find p xs
find-append_other p [] a h = rw h
find-append_other p (x ∷ xs) a h = ground (arith, find-append_other p xs a h)

pub find-replace_first {ℓ} :
    {A : Type ℓ} (p : A → Bool) (old new : A) (xs : List A)
    → find p xs ≡ some old
    → p new ≡ true
    → find p (replace_first p new xs) ≡ some new
find-replace_first p old new [] e h = cc
find-replace_first p old new (x ∷ xs) e h = ground (arith, find-replace_first p old new xs)

-- A search by a test that the old item and the new one fail sees no difference.
pub find-replace_first_other {ℓ} :
    {A : Type ℓ} (p q : A → Bool) (old new : A) (xs : List A)
    → find p xs ≡ some old
    → q old ≡ false
    → q new ≡ false
    → find q (replace_first p new xs) ≡ find q xs
find-replace_first_other p q old new [] e h k = refl
find-replace_first_other p q old new (x ∷ xs) e h k =
    ground (arith, find-replace_first_other p q old new xs)

-- ===== src/Daemon/Editing/Due.antt =====
-- What the adapter is due to be told of a file, said without regard to how the code comes by it.
use mathlib.Core.List.Perm
use mathlib.Core.List.{Perm, Subset, Nodup}
use lazydap.Prelude.{
  ℕ, ◌≤◌, ◌≡◌, refl, arith, Bool, ◌&&◌, List, [], ◌∷◌, filter, map, All, All-filter, leb,
  Bool-cases, inl, inr,
}
use lazydap.Core.Breakpoint.{FilePath, Breakpoint}
use lazydap.Core.Selector.{same_path}
use lazydap.Store.{Store}
use lazydap.Daemon.Editing.{Call, put_in_order, by_line, breakpoints_in, enabled_in}

unfoldable pub due : FilePath → List Breakpoint → List Breakpoint
due path = filter (λ (b : Breakpoint). b.enabled && same_path b.source path)

unfoldable pub InLineOrder : List Breakpoint → Type 0
InLineOrder [] = Unit
InLineOrder (b ∷ rest) = All (λ (c : Breakpoint). b.line ≤ c.line) rest × InLineOrder rest

-- The breakpoints of a call are those of its file that are enabled, each once, by their lines.
pub record IsDue (s : Store) (call : Call) : Type 0 where
  pub complete : Perm call.enabled (due call.source s.breakpoints)
  pub ordered : InLineOrder call.enabled

filter-cons {ℓ} :
    {A : Type ℓ} (p : A → Bool) (x : A) (xs ys : List A)
    → Perm (filter p xs) (filter p ys)
    → Perm (filter p (x ∷ xs)) (filter p (x ∷ ys))
filter-cons p x xs ys h = elim (Bool-cases (p x)) [ inl e ↦ rw e (Perm.cons x h) | inr e ↦ rw e h ]

filter-swap {ℓ} :
    {A : Type ℓ} (p : A → Bool) (x y : A) (xs : List A)
    → Perm (filter p (y ∷ (x ∷ xs))) (filter p (x ∷ (y ∷ xs)))
filter-swap p x y xs = elim (Bool-cases (p x)) [
  | inl e ↦ elim (Bool-cases (p y)) [
    | inl f ↦ rw e rw f (Perm.swap x y (filter p xs))
    | inr f ↦ rw e rw f Perm.rfl
  ]
  | inr e ↦ rw e Perm.rfl
]

filter-put_in_order :
    (p : Breakpoint → Bool) (b : Breakpoint) (bs : List Breakpoint)
    → Perm (filter p (put_in_order b bs)) (filter p (b ∷ bs))
unfolding put_in_order
filter-put_in_order p b [] = Perm.rfl
filter-put_in_order p b (c ∷ rest) = elim (Bool-cases (leb b.line c.line)) [
  | inl e ↦ rw e Perm.rfl
  | inr e ↦ rw e (
      Perm.trans (filter-cons p c (put_in_order b rest) (b ∷ rest) (filter-put_in_order p b rest))
        (filter-swap p b c rest))
]

filter-by_line :
    (p : Breakpoint → Bool) (bs : List Breakpoint) → Perm (filter p (by_line bs)) (filter p bs)
unfolding by_line
filter-by_line p [] = Perm.rfl
filter-by_line p (b ∷ rest) =
    Perm.trans (filter-put_in_order p b (by_line rest))
      (filter-cons p b (by_line rest) rest (filter-by_line p rest))

filter-filter {ℓ} :
    {A : Type ℓ} (p q : A → Bool) (xs : List A)
    → filter p (filter q xs) ≡ filter (λ x. p x && q x) xs
filter-filter p q [] = refl
filter-filter p q (x ∷ xs) = ground (arith, filter-filter p q xs)

All-put_in_order :
    (P : Breakpoint → Type 0) (b : Breakpoint) (bs : List Breakpoint)
    → P b
    → All P bs
    → All P (put_in_order b bs)
unfolding put_in_order
All-put_in_order P b [] h hs = (h, tt)
All-put_in_order P b (c ∷ rest) h hs = elim (Bool-cases (leb b.line c.line)) [
  | inl e ↦ rw e (h, hs)
  | inr e ↦ rw e (hs.0, All-put_in_order P b rest h hs.1)
]

All-lines :
    (n m : ℕ) (bs : List Breakpoint)
    → n ≤ m
    → All (λ (c : Breakpoint). m ≤ c.line) bs
    → All (λ (c : Breakpoint). n ≤ c.line) bs
All-lines n m [] le h = tt
All-lines n m (c ∷ rest) le h = (omega (arith, h.0), All-lines n m rest le h.1)

put_in_order-InLineOrder :
    (b : Breakpoint) (bs : List Breakpoint) → InLineOrder bs → InLineOrder (put_in_order b bs)
unfolding put_in_order InLineOrder
put_in_order-InLineOrder b [] h = (tt, tt)
put_in_order-InLineOrder b (c ∷ rest) h = elim (Bool-cases (leb b.line c.line)) [
  | inl e ↦
      let le : b.line ≤ c.line = ground (arith, e) in
      rw e ((le, All-lines b.line c.line rest le h.0), h)
  | inr e ↦
      let le : c.line ≤ b.line = ground (arith, e) in
      rw e (
        All-put_in_order (λ (d : Breakpoint). c.line ≤ d.line) b rest le h.0,
        put_in_order-InLineOrder b rest h.1,
      )
]

by_line-InLineOrder : (bs : List Breakpoint) → InLineOrder (by_line bs)
unfolding by_line InLineOrder
by_line-InLineOrder [] = tt
by_line-InLineOrder (b ∷ rest) =
    put_in_order-InLineOrder b (by_line rest) (by_line-InLineOrder rest)

filter-InLineOrder :
    (p : Breakpoint → Bool) (bs : List Breakpoint) → InLineOrder bs → InLineOrder (filter p bs)
unfolding InLineOrder
filter-InLineOrder p [] h = tt
filter-InLineOrder p (b ∷ rest) h = elim (Bool-cases (p b)) [
  | inl e ↦
      rw e
        (All-filter (λ (c : Breakpoint). b.line ≤ c.line) p rest h.0, filter-InLineOrder p rest h.1)
  | inr e ↦ rw e (filter-InLineOrder p rest h.1)
]

-- What the code sends of a file is what is due.
pub enabled_in-IsDue :
    (s : Store) (path : FilePath) → IsDue s (record { source = path; enabled = enabled_in path s })
unfolding enabled_in breakpoints_in due
enabled_in-IsDue s path =
    let is_on = λ (b : Breakpoint). b.enabled in
    let is_here = λ (b : Breakpoint). same_path b.source path in
    let here = filter is_here s.breakpoints in
    record {
      complete = rw (filter-filter is_on is_here s.breakpoints) at (filter-by_line is_on here);
      ordered = filter-InLineOrder is_on (by_line here) (by_line-InLineOrder here);
    }

-- What a `BTreeSet` holds of a list: everything that is in it, and nothing else or twice.
pub record IsSetOf {A : Type 0} (xs held : List A) : Type 0 where
  pub kept : Subset xs held
  pub only : Subset held xs
  pub once : Nodup held

abbrev pub files_of : List Breakpoint → List FilePath
files_of = map (λ (b : Breakpoint). b.source)

-- The calls that all these files are due: one for each, and none for another.
pub record AreDue (s : Store) (touched : List Breakpoint) (calls : List Call) : Type 0 where
  pub each : All (IsDue s) calls
  pub files : IsSetOf (files_of touched) (map (λ (call : Call). call.source) calls)

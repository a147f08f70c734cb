-- ===== src/Config/Variables/Expanding.antt =====
-- The expansion of variables: that it ends, and what it leaves alone.
use Prim.Native.Char.{Char, code}
use text.Mathlib.TextEquality.{Char-path}
use lazydap.Prelude.{
  arith, ℕ, zero, suc, ◌<◌, ◌≡◌, refl, sym, ap, ap₂, subst, ◌∙◌, Option, none, some, Bool, true,
  false, List, [], ◌∷◌, ◌++◌, append_assoc, All, if◌then◌else◌, ◌&&◌, length, length-append,
  Option-cases, inl, inr,
}
use lazydap.Config.Text.{Text, is}
use lazydap.Config.Variables.{
  Host, cut_open, cut_close, in_front, tail, resolve, replaced, unclosed, expand_from, expand,
  opening, starts,
}

is→same : (n : Char) (c : Char) → is (code n) c ≡ true → c ≡ n
is→same n c h = Char-path c n (ground (arith, h))

-- What a cut leaves, put together again.
abbrev Joins : Text → Text → Option (Text × Text) → Type 0
Joins mark s none = Unit
Joins mark s (some (before, after)) = s ≡ before ++ (mark ++ after)

in_front-Joins :
    (mark : Text) (c : Char) (s : Text) (cut : Option (Text × Text))
    → Joins mark s cut
    → Joins mark (c ∷ s) (in_front c cut)
in_front-Joins mark c s none h = tt
in_front-Joins mark c s (some (before, after)) h = ap (λ t. c ∷ t) h

if-Joins :
    (mark s : Text) (b : Bool) (x y : Option (Text × Text))
    → (b ≡ true → Joins mark s x)
    → Joins mark s y
    → Joins mark s (if b then x else y)
if-Joins mark s true x y h g = h refl
if-Joins mark s false x y h g = g

abbrev dollar : Char
dollar = "$"

abbrev brace : Char
brace = "{"

abbrev closing : Char
closing = "}"

opens : (c : Char) (cs : Text) → (is b'$' c && starts b'{' cs) ≡ true → c ∷ cs ≡ opening ++ tail cs
opens c [] h = absurd (ground (arith, h))
opens c (d ∷ cs) h =
    let first : is b'$' c ≡ true = ground (arith, h) in
    let second : is b'{' d ≡ true = ground (arith, h) in
    ap₂ (λ x y. x ∷ (y ∷ cs)) (is→same dollar c first) (is→same brace d second)

cut_open-Joins : (s : Text) → Joins opening s (cut_open s)
unfolding cut_open
cut_open-Joins [] = tt
cut_open-Joins (c ∷ cs) =
    if-Joins opening (c ∷ cs) (is b'$' c && starts b'{' cs) (some ([], tail cs))
      (in_front c (cut_open cs)) (λ h. opens c cs h)
      (in_front-Joins opening c cs (cut_open cs) (cut_open-Joins cs))

cut_close-Joins : (s : Text) → Joins (closing ∷ []) s (cut_close s)
unfolding cut_close
cut_close-Joins [] = tt
cut_close-Joins (c ∷ cs) =
    if-Joins (closing ∷ []) (c ∷ cs) (is b'}' c) (some ([], cs)) (in_front c (cut_close cs))
      (λ h. ap (λ d. d ∷ cs) (is→same closing c h))
      (in_front-Joins (closing ∷ []) c cs (cut_close cs) (cut_close-Joins cs))

-- What an expansion begins with: a part in front of `${`, a name and what is after `}`.
open-joined :
    (s before after : Text) → cut_open s ≡ some (before, after) → s ≡ before ++ (opening ++ after)
open-joined s before after e = subst (Joins opening s) e (cut_open-Joins s)

close-joined :
    (s name after : Text) → cut_close s ≡ some (name, after) → s ≡ name ++ (closing ∷ after)
close-joined s name after e = subst (Joins (closing ∷ []) s) e (cut_close-Joins s)

shorter :
    (s before after name rest : Text)
    → cut_open s ≡ some (before, after)
    → cut_close after ≡ some (name, rest)
    → length rest < length s
shorter s before after name rest opened closed = omega (
  arith,
  ap length (open-joined s before after opened),
  ap length (close-joined after name rest closed),
  length-append before (opening ++ after),
  length-append name (closing ∷ rest),
)

put_together :
    (s before after name rest : Text)
    → cut_open s ≡ some (before, after)
    → cut_close after ≡ some (name, rest)
    → before ++ ((opening ++ (name ++ (closing ∷ []))) ++ rest) ≡ s
put_together s before after name rest opened closed =
    ap (λ t. before ++ (opening ++ t))
      (append_assoc name (closing ∷ []) rest ∙ sym (close-joined after name rest closed))
    ∙ sym (open-joined s before after opened)

-- The names that a text has between `${` and `}`.
unfoldable pub names_from : ℕ → Text → List Text
names_from zero s = []
names_from (suc fuel) s = elim (cut_open s) [
  | none ↦ []
  | some (before, after) ↦ elim (cut_close after) [
    | none ↦ []
    | some (name, rest) ↦ name ∷ names_from fuel rest
  ]
]

unfoldable pub names_of : Text → List Text
unfolding names_from
names_of s = names_from (suc (length s)) s

names-cons :
    (fuel : ℕ) (s before after name rest : Text)
    → cut_open s ≡ some (before, after)
    → cut_close after ≡ some (name, rest)
    → names_from (suc fuel) s ≡ name ∷ names_from fuel rest
unfolding names_from
names-cons fuel s before after name rest e g = rw (e, g, names_from) refl

module _ (host : Host) where
  -- An expansion with more fuel than there are characters ends.
  expand_from-ends :
      (fuel : ℕ) (s : Text) (unresolved : List Text)
      → length s < fuel
      → (result : Text × List Text) × (expand_from host fuel s unresolved ≡ some result)
  unfolding expand_from
  expand_from-ends zero s unresolved h = absurd (omega arith)
  expand_from-ends (suc fuel) s unresolved h = elim (Option-cases (cut_open s)) [
    | inl e ↦ ((s, unresolved), rw (e, expand_from) refl)
    | inr ((before, after), e) ↦ elim (Option-cases (cut_close after)) [
      | inl g ↦
          let last = unclosed host after unresolved in
          ((before ++ last.0, last.1), rw (e, g, expand_from) refl)
      | inr ((name, rest), g) ↦
          let now = replaced host name unresolved in
          let fits = shorter s before after name rest e g in
          let (later, ended) = expand_from-ends fuel rest now.1 (omega arith) in
          ((before ++ (now.0 ++ later.0), later.1), rw (e, g, ended, expand_from) refl)
    ]
  ]

  -- The expansion of any text ends with a text.
  pub expand-ends :
      (raw : Text) (unresolved : List Text)
      → (result : Text × List Text) × (expand host raw unresolved ≡ some result)
  unfolding expand
  expand-ends raw unresolved = expand_from-ends (suc (length raw)) raw unresolved (omega arith)

  replaced-unknown :
      (name : Text) (unresolved : List Text)
      → resolve host name ≡ none
      → (replaced host name unresolved).0 ≡ opening ++ (name ++ (closing ∷ []))
  unfolding replaced
  replaced-unknown name unresolved e = rw (e, replaced) refl

  expand_from-unknown :
      (fuel : ℕ) (s : Text) (unresolved : List Text)
      → length s < fuel
      → All (λ (name : Text). resolve host name ≡ none) (names_from fuel s)
      → (left : List Text) × (expand_from host fuel s unresolved ≡ some (s, left))
  unfolding expand_from unclosed
  expand_from-unknown zero s unresolved h unknown = absurd (omega arith)
  expand_from-unknown (suc fuel) s unresolved h unknown = elim (Option-cases (cut_open s)) [
    | inl e ↦ (unresolved, rw (e, expand_from) refl)
    | inr ((before, after), e) ↦ elim (Option-cases (cut_close after)) [
      | inl g ↦
          let left = (unclosed host after unresolved).1 in
          (
            left,
            rw (e, g, expand_from) (ap (λ t. some (t, left)) (sym (open-joined s before after e))),
          )
      | inr ((name, rest), g) ↦
          let now = replaced host name unresolved in
          let fits = shorter s before after name rest e g in
          let (here, others) =
            subst (All (λ (name : Text). resolve host name ≡ none))
              (names-cons fuel s before after name rest e g) unknown in
          let (left, ended) = expand_from-unknown fuel rest now.1 (omega arith) others in
          let whole = put_together s before after name rest e g in
          let token = replaced-unknown name unresolved here in
          (
            left,
            rw (e, g, ended, expand_from)
                (ap (λ t. some (before ++ (t ++ rest), left)) token
                  ∙ ap (λ t. some (t, left)) whole),
          )
    ]
  ]

  -- A text is left as it is written if its names stand for nothing.
  pub expand-unknown :
      (raw : Text) (unresolved : List Text)
      → All (λ (name : Text). resolve host name ≡ none) (names_of raw)
      → (left : List Text) × (expand host raw unresolved ≡ some (raw, left))
  unfolding expand names_of
  expand-unknown raw unresolved unknown =
      expand_from-unknown (suc (length raw)) raw unresolved (omega arith) unknown

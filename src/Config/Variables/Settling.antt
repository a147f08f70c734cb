-- ===== src/Config/Variables/Settling.antt =====
-- The expansion of variables: what it means that nothing is left over.
use lazydap.Prelude.{
  arith, ℕ, zero, suc, ◌≡◌, refl, sym, ◌∙◌, ap, Option, none, some, true, false, List, [], ◌∷◌,
  ◌++◌, length, Option-cases, Bool-cases, is_some, inl, inr,
}
use lazydap.Config.Text.{Text, chars}
use lazydap.Config.Variables.{
  Host, cut_open, cut_close, resolve, names_a_variable, noted, replaced, unclosed, expand_from,
  expand, opening,
}

-- Every `${name}` of a text stands for something, and no `${` that nothing closes begins a name.
pub data Settled (host : Host) : Text → Type 0 where
  plain : {raw : Text} → cut_open raw ≡ none → Settled host raw
  bare :
      {raw before after : Text}
      → cut_open raw ≡ some (before, after)
      → cut_close after ≡ none
      → names_a_variable after ≡ false
      → Settled host raw
  known :
      {raw before after name rest : Text}
      → cut_open raw ≡ some (before, after)
      → cut_close after ≡ some (name, rest)
      → is_some (resolve host name) ≡ true
      → Settled host rest
      → Settled host raw

abbrev left_over : Option (Text × List Text) → List Text
left_over none = []
left_over (some (out, unresolved)) = unresolved

noted-some : (token : Text) (unresolved : List Text) → noted token unresolved ≡ [] → ⊥
unfolding noted
noted-some token [] h = cc h
noted-some token (held ∷ rest) h = ground (arith, h)

module _ (host : Host) where
  replaced-none :
      (name : Text) (unresolved : List Text)
      → resolve host name ≡ none
      → (token : Text) × ((replaced host name unresolved).1 ≡ noted token unresolved)
  unfolding replaced
  replaced-none name unresolved e = (opening ++ (name ++ chars "}"), rw (e, replaced) refl)

  replaced-some :
      (name : Text) (unresolved : List Text) (found : Text)
      → resolve host name ≡ some found
      → (replaced host name unresolved).1 ≡ unresolved
  unfolding replaced
  replaced-some name unresolved found e = rw (e, replaced) refl

  replaced-known :
      (name : Text) (unresolved : List Text)
      → (replaced host name unresolved).1 ≡ []
      → (is_some (resolve host name) ≡ true) × (unresolved ≡ [])
  replaced-known name unresolved h = elim (Option-cases (resolve host name)) [
    | inl e ↦
        let (token, told) = replaced-none name unresolved e in
        absurd (noted-some token unresolved (sym told ∙ h))
    | inr (found, e) ↦ (ap is_some e, sym (replaced-some name unresolved found e) ∙ h)
  ]

  unclosed-bare :
      (after : Text) (unresolved : List Text)
      → (unclosed host after unresolved).1 ≡ []
      → (names_a_variable after ≡ false) × (unresolved ≡ [])
  unfolding unclosed
  unclosed-bare after unresolved h = elim (Bool-cases (names_a_variable after)) [
    | inl e ↦ absurd (noted-some (opening ++ after) unresolved (rw e at h))
    | inr e ↦ (e, rw e at h)
  ]

  -- A text of which nothing is left over has nothing that is not known, and nothing was left before.
  expand_from-Settled :
      (fuel : ℕ) (s : Text) (unresolved : List Text) (out : Text)
      → expand_from host fuel s unresolved ≡ some (out, [])
      → Settled host s × (unresolved ≡ [])
  unfolding expand_from
  expand_from-Settled zero s unresolved out e = absurd (cc e)
  expand_from-Settled (suc fuel) s unresolved out e = elim (Option-cases (cut_open s)) [
    | inl c ↦
        let all : expand_from host (suc fuel) s unresolved ≡ some (s, unresolved) =
          rw (c, expand_from) refl in
        (plain c, ap left_over (sym all ∙ e))
    | inr ((before, after), c) ↦ elim (Option-cases (cut_close after)) [
      | inl g ↦
          let last = unclosed host after unresolved in
          let all : expand_from host (suc fuel) s unresolved ≡ some (before ++ last.0, last.1) =
            rw (c, g, expand_from) refl in
          let (none_named, none_left) =
            unclosed-bare after unresolved (ap left_over (sym all ∙ e)) in
          (bare c g none_named, none_left)
      | inr ((name, rest), g) ↦
          let now = replaced host name unresolved in
          elim (Option-cases (expand_from host fuel rest now.1)) [
            | inl r ↦
                let all : expand_from host (suc fuel) s unresolved ≡ none =
                  rw (c, g, r, expand_from) refl in
                absurd (cc (all, e))
            | inr (later, r) ↦
                let all : expand_from host (suc fuel) s unresolved
                    ≡ some (before ++ (now.0 ++ later.0), later.1) =
                  rw (c, g, r, expand_from) refl in
                let ended : later.1 ≡ [] = ap left_over (sym all ∙ e) in
                let (settled, none_left) =
                  expand_from-Settled fuel rest now.1 later.0
                    (r ∙ ap (λ u. some (later.0, u)) ended) in
                let (stands, none_before) = replaced-known name unresolved none_left in
                (known c g stands settled, none_before)
          ]
    ]
  ]

  pub expand-Settled :
      (raw : Text) (unresolved : List Text) (out : Text)
      → expand host raw unresolved ≡ some (out, [])
      → Settled host raw × (unresolved ≡ [])
  unfolding expand
  expand-Settled raw unresolved out e = expand_from-Settled (suc (length raw)) raw unresolved out e

-- ===== src/Prelude/Decisions.antt =====
-- Decidable equality, where the source derives `PartialEq`.
use Prim.Native.Nat.{ℕ}
use Prim.Native.String.{String}
use mathlib.Core.Path.{◌≡◌, refl, ap, sym, ◌∙◌}
use mathlib.Core.Bool.{Bool, true, false, false≢true}
unfoldable pub use native.Mathlib.Decide.{ℕ_discrete, dec_lt, dec_le}
use text.Mathlib.Text.{◌==◌}
use text.Mathlib.TextEquality.{eq_iff}
use lazydap.Prelude.Int.{ℤ, pos, negsuc}

string_decision : (s t : String) (b : Bool) → (s == t) ≡ b → Dec (s ≡ t)
string_decision s t true h = yes ((eq_iff s t).0 h)
string_decision s t false h = no (λ p. false≢true (sym h ∙ (eq_iff s t).1 p))

unfoldable pub String_discrete : Discrete String
unfolding string_decision
String_discrete s t = string_decision s t (s == t) refl

pos-injective : (a b : ℕ) → pos a ≡ pos b → a ≡ b
pos-injective a b h = cc

negsuc-injective : (a b : ℕ) → negsuc a ≡ negsuc b → a ≡ b
negsuc-injective a b h = cc

pos-ne-negsuc : (a b : ℕ) → ¬ (pos a ≡ negsuc b)
pos-ne-negsuc a b h = cc

unfoldable pub ℤ_discrete : Discrete ℤ
unfolding ℕ_discrete pos-injective negsuc-injective pos-ne-negsuc
ℤ_discrete (pos a) (pos b) = elim (ℕ_discrete a b) [
  | yes p ↦ yes (ap pos p)
  | no p ↦ no (λ h. p (pos-injective a b h))
]
ℤ_discrete (negsuc a) (negsuc b) = elim (ℕ_discrete a b) [
  | yes p ↦ yes (ap negsuc p)
  | no p ↦ no (λ h. p (negsuc-injective a b h))
]
ℤ_discrete (pos a) (negsuc b) = no (pos-ne-negsuc a b)
ℤ_discrete (negsuc a) (pos b) = no (λ h. pos-ne-negsuc b a (sym h))

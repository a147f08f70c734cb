-- ===== src/Core/Text.antt =====
-- The tests on text of the standard library that the daemon uses: `str::eq_ignore_ascii_case`, by
-- which a wait knows the scope of the local variables, and `str::contains`.
use Prim.Native.Char.{code}
use Prim.Native.String.{String, [], ◌∷◌}
use lazydap.Prelude.{ℕ, ◌+◌, Bool, true, false, leb, ◌==◌, ◌&&◌, ◌||◌, if◌then◌else◌}

-- `to_ascii_lowercase`
abbrev lower : ℕ → ℕ
lower c = if leb 65 c && leb c 90 then c + 32 else c

unfoldable pub eq_ignore_ascii_case : String → String → Bool
eq_ignore_ascii_case [] [] = true
eq_ignore_ascii_case [] (b ∷ t) = false
eq_ignore_ascii_case (a ∷ s) [] = false
eq_ignore_ascii_case (a ∷ s) (b ∷ t) = lower (code a) == lower (code b) && eq_ignore_ascii_case s t

abbrev starts_with : String → String → Bool
starts_with s [] = true
starts_with [] (b ∷ t) = false
starts_with (a ∷ s) (b ∷ t) = code a == code b && starts_with s t

unfoldable pub contains_text : String → String → Bool
contains_text [] t = starts_with [] t
contains_text (a ∷ s) t = starts_with (a ∷ s) t || contains_text s t

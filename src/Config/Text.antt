-- ===== src/Config/Text.antt =====
-- Texts as lists of characters, and the tests on characters that crates/config uses.
use Prim.Native.Char.{Char, code}
use Prim.Native.String.{String}
use lazydap.Prelude.{ℕ, Bool, true, false, List, [], ◌∷◌, leb, ◌==◌, ◌&&◌, ◌||◌}

abbrev pub Text : Type 0
Text = List Char

-- `str::chars`
abbrev pub chars : String → Text
chars String.[] = []
chars (String.◌∷◌ c s) = c ∷ chars s

abbrev pub is : ℕ → Char → Bool
is n c = code c == n

-- `==` on texts
unfoldable pub same_text : Text → Text → Bool
same_text [] [] = true
same_text [] (d ∷ t) = false
same_text (c ∷ s) [] = false
same_text (c ∷ s) (d ∷ t) = code c == code d && same_text s t

-- `Vec::contains`
unfoldable pub has_text : List Text → Text → Bool
unfolding same_text
has_text [] t = false
has_text (s ∷ rest) t = same_text s t || has_text rest t

-- `char::is_whitespace`
unfoldable pub is_whitespace : ℕ → Bool
is_whitespace c =
    leb 9 c && leb c 13
    || c == 32
    || c == 133
    || c == 160
    || c == 5760
    || leb 8192 c && leb c 8202
    || c == 8232
    || c == 8233
    || c == 8239
    || c == 8287
    || c == 12288

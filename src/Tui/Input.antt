-- ===== src/Tui/Input.antt =====
-- crates/tui/src/panes/input.rs: a line of text that is being typed. `is_whitespace` is
-- `char::is_whitespace`, which `str::trim` goes by.
use Prim.Native.Char.{Char, code}
use Prim.Native.String.{String, [], ◌∷◌, ◌++◌}
use lazydap.Prelude.{ℕ, Bool, true, leb, ◌==◌, ◌&&◌, ◌||◌}

unfoldable pub is_whitespace : ℕ → Bool
is_whitespace c =
    leb 9 c && leb c 13
    || c == 32
    || c == 133
    || c == 160
    || c == 5760
    || leb 8192 c && leb c 8202
    || c == 8232
    || c == 8233
    || c == 8239
    || c == 8287
    || c == 12288

-- `trim().is_empty()`
unfoldable pub is_blank : String → Bool
is_blank [] = true
is_blank (c ∷ s) = is_whitespace (code c) && is_blank s

-- `String::pop`, without the character
unfoldable pub pop : String → String
pop [] = []
pop (c ∷ []) = []
pop (c ∷ d ∷ s) = c ∷ pop (d ∷ s)

pub record TextInput : Type 0 where
  pub value : String

-- `TextInput::default()`
abbrev pub default : TextInput
default = record { value = "" }

unfoldable pub is_empty : TextInput → Bool
unfolding is_blank
is_empty input = is_blank input.value

unfoldable pub push : Char → TextInput → TextInput
push c input = record { value = input.value ++ (c ∷ []) }

unfoldable pub push_str : String → TextInput → TextInput
push_str text input = record { value = input.value ++ text }

unfoldable pub backspace : TextInput → TextInput
unfolding pop
backspace input = record { value = pop input.value }

unfoldable pub take : TextInput → String × TextInput
take input = (input.value, default)

unfoldable pub set : String → TextInput → TextInput
set text input = record { value = text }

unfoldable pub clear : TextInput → TextInput
clear input = default

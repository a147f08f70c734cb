-- ===== src/Config/Arguments/RoundTrip.antt =====
-- Arguments that are written with quotes and backslashes, and read back.
use Prim.Native.Char.{Char}
use lazydap.Prelude.{
  ◌≡◌, ap, ◌∙◌, sym, none, some, true, false, List, [], ◌∷◌, ◌++◌, append_assoc, append-nil,
}
use lazydap.Config.Text.{Text, is_whitespace}
use lazydap.Config.Arguments.{
  State, ok, put, break_here, read, step, finish, split_from, split_arguments,
}

abbrev pub double_quote : Char
double_quote = "\""

abbrev pub backslash : Char
backslash = "\\"

abbrev pub space : Char
space = " "

-- A word with a backslash before each of its characters.
unfoldable pub escaped : Text → Text
escaped [] = []
escaped (c ∷ w) = backslash ∷ (c ∷ escaped w)

unfoldable pub quoted : Text → Text
unfolding escaped
quoted w = double_quote ∷ (escaped w ++ (double_quote ∷ []))

-- A line of words, each in quotes and with a space after it.
unfoldable pub line_of : List Text → Text
unfolding quoted
line_of [] = []
line_of (w ∷ ws) = quoted w ++ (space ∷ line_of ws)

-- Within quotes, and between words.
abbrev within : List Text → Text → State
within args current = record {
  args = args;
  current = current;
  started = true;
  quote = some 34;
  escaping = false;
}

abbrev between : List Text → State
between args = record { args = args; current = []; started = false; quote = none; escaping = false }

split-escaped :
    (w rest : Text) (args : List Text) (current : Text)
    → split_from (escaped w ++ rest) (within args current)
      ≡ split_from rest (within args (current ++ w))
unfolding escaped split_from step read put
split-escaped [] rest args current =
    ap (λ t. split_from rest (within args t)) (sym (append-nil current))
split-escaped (c ∷ w) rest args current =
    split-escaped w rest args (current ++ (c ∷ []))
    ∙ ap (λ t. split_from rest (within args t)) (append_assoc current (c ∷ []) w)

split-quoted :
    (w rest : Text) (args : List Text)
    → split_from (quoted w ++ (space ∷ rest)) (between args)
      ≡ split_from rest (between (args ++ (w ∷ [])))
unfolding quoted split_from step read put break_here is_whitespace
split-quoted w rest args =
    ap (λ t. split_from t (within args []))
      (append_assoc (escaped w) (double_quote ∷ []) (space ∷ rest))
    ∙ split-escaped w (double_quote ∷ (space ∷ rest)) args []

split-line_of :
    (ws : List Text) (args : List Text) → split_from (line_of ws) (between args) ≡ ok (args ++ ws)
unfolding line_of split_from finish
split-line_of [] args = ap ok (sym (append-nil args))
split-line_of (w ∷ ws) args =
    split-quoted w (line_of ws) args
    ∙ (split-line_of ws (args ++ (w ∷ [])) ∙ ap ok (append_assoc args (w ∷ []) ws))

-- Words that are written in double quotes, a backslash before each of their characters and a space
-- after each word, are read back as they were, whatever characters they are of, and if they are empty.
pub split_arguments-line_of : (ws : List Text) → split_arguments (line_of ws) ≡ ok ws
unfolding split_arguments
split_arguments-line_of ws = split-line_of ws []

-- ===== src/Config/Jsonc.antt =====
-- crates/config/src/launch_json.rs: `strip_jsonc`, which takes the comments and the trailing commas
-- out of a text. Its inner loops, over a comment or a string, are modes of the one loop.
pub mod Lines
use Prim.Native.Char.{Char, code}
use Prim.Native.String.{String}
use lazydap.Prelude.{ℕ, Bool, true, false, List, [], ◌∷◌, ◌++◌, ◌==◌, ◌&&◌, ◌||◌, if◌then◌else◌}
use lazydap.Config.Text.{Text, chars, is, is_whitespace}

pub data Mode : Type 0 where
  outside : Mode
  -- at the second character of a comment's opening
  line_opening block_opening : Mode
  line_comment : Mode
  -- the code of the previous character
  block_comment : ℕ → Mode
  -- whether the previous character escapes this one
  in_string : Bool → Mode

pub record State : Type 0 where
  pub out : Text
  pub pending_comma : Bool
  pub gap : Text

pub data Stripped : Type 0 where
  ok : Text → Stripped
  err : String → Stripped

unfoldable pub blank : Char → Text
blank c = if code c == 10 || code c == 13 then c ∷ [] else chars " "

unfoldable pub flush : State → State
flush st = record {
  out = (if st.pending_comma then st.out ++ chars "," else st.out) ++ st.gap;
  pending_comma = false;
  gap = [];
}

abbrev pub push : Text → State → State
push text st = record st { out = st.out ++ text }

abbrev pub push_gap : Text → State → State
push_gap text st = record st { gap = st.gap ++ text }

-- `chars.peek()`
abbrev pub peeks : ℕ → Text → Bool
peeks n [] = false
peeks n (c ∷ cs) = is n c

-- A closing bracket: the comma before it goes.
unfoldable pub close : Char → State → State
close c st = record { out = (st.out ++ st.gap) ++ (c ∷ []); pending_comma = false; gap = [] }

-- A character outside of comments and strings, and what follows it.
unfoldable pub at_outside : Char → Text → State → Mode × State
unfolding is_whitespace flush close
at_outside c rest st =
    if is b'/' c && peeks b'/' rest
    then (line_opening, push_gap (chars "  ") st)
    else if is b'/' c && peeks b'*' rest
    then (block_opening, push_gap (chars "  ") st)
    else if is_whitespace (code c)
    then (outside, push_gap (c ∷ []) st)
    else if is b',' c
    then (outside, record (flush st) { pending_comma = true })
    else if is b'}' c || is b']' c
    then (outside, close c st)
    else if is 34 c
    then (in_string false, push (c ∷ []) (flush st))
    else (outside, push (c ∷ []) (flush st))

unfoldable pub after_string_char : Char → Bool → Mode
after_string_char c true = in_string false
after_string_char c false =
    if is 92 c then in_string true else if is 34 c then outside else in_string false

unfoldable pub step : Mode → Char → Text → State → Mode × State
unfolding at_outside blank after_string_char
step outside c rest st = at_outside c rest st
step line_opening c rest st = (line_comment, st)
step block_opening c rest st = (block_comment 0, st)
step line_comment c rest st = (if is 10 c then outside else line_comment, push_gap (blank c) st)
step (block_comment previous) c rest st = (
  if previous == b'*' && is b'/' c then outside else block_comment (code c),
  push_gap (blank c) st,
)
step (in_string escaped) c rest st = (after_string_char c escaped, push (c ∷ []) st)

unfoldable pub finish : Mode → State → Stripped
unfolding flush
finish (block_comment previous) st = err "a /* comment is never closed"
finish block_opening st = err "a /* comment is never closed"
finish (in_string escaped) st = err "a \" string is never closed"
finish _ st = ok (flush st).out

unfoldable pub strip_from : Text → Mode → State → Stripped
unfolding step finish
strip_from [] mode st = finish mode st
strip_from (c ∷ rest) mode st = let (mode', st') = step mode c rest st in strip_from rest mode' st'

unfoldable pub strip_jsonc : Text → Stripped
unfolding strip_from
strip_jsonc source =
    strip_from source outside (record { out = []; pending_comma = false; gap = [] })

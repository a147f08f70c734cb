-- ===== src/Config/Arguments.antt =====
-- crates/config/src/launch_json.rs: `split_arguments`, which cuts a line into arguments as a shell
-- does. The character after a backslash is read by the loop too, with `escaping` set.
pub mod RoundTrip
use Prim.Native.Char.{Char, code}
use Prim.Native.String.{String}
use lazydap.Prelude.{
  ℕ, Option, none, some, Bool, true, false, not, List, [], ◌∷◌, ◌++◌, ◌==◌, ◌&&◌, ◌||◌,
  if◌then◌else◌, is_some,
}
use lazydap.Config.Text.{Text, is, is_whitespace}

pub record State : Type 0 where
  pub args : List Text
  pub current : Text
  pub started : Bool
  -- the code of the quote that is open
  pub quote : Option ℕ
  pub escaping : Bool

pub data Split : Type 0 where
  ok : List Text → Split
  trailing_backslash : Split
  -- the code of the quote that is open
  unterminated : ℕ → Split

abbrev pub is_code : ℕ → Option ℕ → Bool
is_code n none = false
is_code n (some m) = m == n

unfoldable pub put : Char → State → State
put c st = record st { current = st.current ++ (c ∷ []); started = true; escaping = false }

unfoldable pub break_here : State → State
break_here st =
    if st.started
    then record st { args = st.args ++ (st.current ∷ []); current = []; started = false }
    else st

unfoldable pub read : Char → State → State
unfolding put break_here is_whitespace
read c st =
    if is 92 c && not (is_code 39 st.quote)
    then record st { escaping = true }
    else if (is 34 c || is 39 c) && not (is_some st.quote)
    then record st { quote = some (code c); started = true }
    else if is_code (code c) st.quote
    then record st { quote = none }
    else if is_whitespace (code c) && not (is_some st.quote)
    then break_here st
    else put c st

unfoldable pub step : Char → State → State
unfolding put read
step c st = if st.escaping then put c st else read c st

unfoldable pub finish : State → Split
finish st = if st.escaping then trailing_backslash else elim st.quote [
  | some quote ↦ unterminated quote
  | none ↦ ok (if st.started then st.args ++ (st.current ∷ []) else st.args)
]

unfoldable pub split_from : Text → State → Split
unfolding step finish
split_from [] st = finish st
split_from (c ∷ rest) st = split_from rest (step c st)

abbrev pub start : State
start = record { args = []; current = []; started = false; quote = none; escaping = false }

unfoldable pub split_arguments : Text → Split
unfolding split_from
split_arguments line = split_from line start

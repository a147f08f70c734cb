-- ===== src/Tui/Repl.antt =====
-- crates/tui/src/panes/repl.rs: the expressions that were typed, what they came to, and the line
-- that is being typed. `next_entry` is a `u64`.
pub mod History
use Prim.Native.Char.{Char, code}
use Prim.Native.String.{String, [], ◌∷◌}
use lazydap.Prelude.{
  ℕ, zero, suc, ◌+◌, ◌-◌, Option, none, some, Bool, true, false, List, ◌++◌, map, ltb, ◌==◌,
  if◌then◌else◌, length, drop, add_u64, first,
}
use lazydap.Prelude as P
use lazydap.Core.Inspect.{EvalResult}
use lazydap.Tui.Input.{TextInput, default, is_blank}
use lazydap.Tui.Input

abbrev pub max_entries : ℕ
max_entries = 200

pub data ReplOutput : Type 0 where
  pending : ReplOutput
  value : EvalResult → ReplOutput
  error : String → ReplOutput

pub record ReplEntry : Type 0 where
  pub id : ℕ
  pub input : String
  pub output : ReplOutput

pub record ReplView : Type 0 where
  pub entries : List ReplEntry
  pub input : TextInput
  pub history_cursor : Option ℕ
  pub next_entry : ℕ

-- `ReplView::default()`
abbrev pub empty_view : ReplView
empty_view = record { entries = P.[]; input = default; history_cursor = none; next_entry = 0 }

unfoldable pub input_is_empty : ReplView → Bool
unfolding Input.is_empty
input_is_empty v = Input.is_empty v.input

-- What typing does to the line; it also leaves the history.
unfoldable pub edited : TextInput → ReplView → ReplView
edited input v = record v { input = input; history_cursor = none }

unfoldable pub push_char : Char → ReplView → ReplView
unfolding edited Input.push
push_char c v = edited (Input.push c v.input) v

unfoldable pub push_str : String → ReplView → ReplView
unfolding edited Input.push_str
push_str text v = edited (Input.push_str text v.input) v

unfoldable pub backspace : ReplView → ReplView
unfolding edited Input.backspace
backspace v = edited (Input.backspace v.input) v

unfoldable pub clear_input : ReplView → ReplView
unfolding edited Input.clear
clear_input v = edited (Input.clear v.input) v

-- The entries with a new one, without the oldest when they are too many.
unfoldable pub kept : List ReplEntry → List ReplEntry
kept entries = if ltb max_entries (length entries) then drop 1 entries else entries

unfoldable pub submit : ReplView → Option (ℕ × String) × ReplView
unfolding input_is_empty kept Input.take
submit v =
    if input_is_empty v
    then (none, v)
    else let (typed, input) = Input.take v.input in
      let id = add_u64 v.next_entry 1 in
      let entry : ReplEntry = record { id = id; input = typed; output = pending } in
      (
        some (id, typed),
        record {
          entries = kept (v.entries ++ P.◌∷◌ entry P.[]);
          input = input;
          history_cursor = none;
          next_entry = id;
        },
      )

-- `iter_mut().find(|entry| entry.id == id)` and its assignment
unfoldable pub answer_first : ℕ → ReplOutput → List ReplEntry → List ReplEntry
answer_first id output P.[] = P.[]
answer_first id output (P.◌∷◌ entry entries) =
    let rest = answer_first id output entries in
    if entry.id == id then P.◌∷◌ (record entry { output = output }) entries else P.◌∷◌ entry rest

unfoldable pub answer : ℕ → ReplOutput → ReplView → ReplView
unfolding answer_first
answer id output v = record v { entries = answer_first id output v.entries }

unfoldable pub abandon : String → ReplEntry → ReplEntry
abandon reason entry = elim entry.output [
  | pending ↦ record entry { output = error reason }
  | other ↦ entry
]

unfoldable pub abandon_pending : String → ReplView → ReplView
unfolding abandon
abandon_pending reason v = record v { entries = map (abandon reason) v.entries }

-- The cursor, and then `entries[n].input`. The code panics where the index is out of range; here the
-- cursor has moved and the line is as it was.
unfoldable pub recall : ℕ → ReplView → ReplView
unfolding Input.set
recall n v = elim (first (drop n v.entries)) [
  | none ↦ record v { history_cursor = some n }
  | some entry ↦ record v { history_cursor = some n; input = Input.set entry.input v.input }
]

abbrev pub one_back : List ReplEntry → Option ℕ → ℕ
one_back entries none = length entries - 1
one_back entries (some cursor) = cursor - 1

unfoldable pub previous : ReplView → ReplView
unfolding recall
previous v = if length v.entries == 0 then v else recall (one_back v.entries v.history_cursor) v

unfoldable pub next_from : Option ℕ → ReplView → ReplView
unfolding recall edited Input.clear
next_from none v = v
next_from (some cursor) v =
    if ltb (cursor + 1) (length v.entries)
    then recall (cursor + 1) v
    else edited (Input.clear v.input) v

unfoldable pub next : ReplView → ReplView
unfolding next_from
next v = next_from v.history_cursor v

-- `parse`: what is to be evaluated, and whether it is a command of the debugger.
unfoldable pub parse : String → Option (String × Bool)
unfolding is_blank
parse [] = some ([], false)
parse (c ∷ s) =
    if code c == 47 then if is_blank s then none else some (s, true) else some (c ∷ s, false)

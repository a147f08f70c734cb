-- ===== src/Tui/Repl/History.antt =====
-- What the history of the repl keeps through any sequence of its operations.
use Prim.Native.Char.{Char}
use Prim.Native.String.{String}
use lazydap.Prelude.{
  arith, ℕ, zero, suc, ◌+◌, ◌≤◌, ◌<◌, ◌≡◌, refl, Option, none, some, List, [], ◌∷◌, ◌++◌, map,
  length, length-append, length-drop, drop, first, ltb, Bool-cases, inl, inr, ap, ◌==◌,
}
use lazydap.Tui.Input.{TextInput}
use lazydap.Tui.Input
use lazydap.Tui.Repl.{
  ReplView, ReplEntry, ReplOutput, empty_view, max_entries, edited, push_char, push_str, backspace,
  clear_input, submit, kept, input_is_empty, answer, answer_first, abandon_pending, abandon, recall,
  previous, next, next_from, one_back,
}

pub data Operation : Type 0 where
  type_char : Char → Operation
  paste : String → Operation
  erase clear_line enter : Operation
  settle : ℕ → ReplOutput → Operation
  give_up : String → Operation
  older newer : Operation

unfoldable pub operate : Operation → ReplView → ReplView
unfolding push_char push_str backspace clear_input submit answer abandon_pending previous next
operate (type_char c) v = push_char c v
operate (paste text) v = push_str text v
operate erase v = backspace v
operate clear_line v = clear_input v
operate enter v = (submit v).1
operate (settle id output) v = answer id output v
operate (give_up reason) v = abandon_pending reason v
operate older v = previous v
operate newer v = next v

unfoldable pub operate_all : List Operation → ReplView → ReplView
unfolding operate
operate_all [] v = v
operate_all (op ∷ ops) v = operate_all ops (operate op v)

-- The input of the entry with an index, where the index is in range.
unfoldable pub input_at : ℕ → List ReplEntry → Option String
input_at n entries = first (drop n (map (λ (entry : ReplEntry). entry.input) entries))

-- A cursor is in range, and the line is the one that was typed there.
unfoldable pub IsRecalled : Option ℕ → ReplView → Type 0
unfolding input_at
IsRecalled none v = Unit
IsRecalled (some cursor) v =
    (cursor < length v.entries) × (input_at cursor v.entries ≡ some v.input.value)

-- At most two hundred entries, and a cursor that is on one of them.
pub record IsHistory (v : ReplView) : Type 0 where
  pub bounded : length v.entries ≤ max_entries
  pub recalled : IsRecalled v.history_cursor v

inputs-answer_first :
    (id : ℕ) (output : ReplOutput) (entries : List ReplEntry)
    → map (λ (e : ReplEntry). e.input) (answer_first id output entries)
      ≡ map (λ (e : ReplEntry). e.input) entries
unfolding answer_first
inputs-answer_first id output [] = refl
inputs-answer_first id output (entry ∷ entries) =
    ground (arith, inputs-answer_first id output entries)

inputs-abandon :
    (reason : String) (entries : List ReplEntry)
    → map (λ (e : ReplEntry). e.input) (map (abandon reason) entries)
      ≡ map (λ (e : ReplEntry). e.input) entries
unfolding abandon
inputs-abandon reason [] = refl
inputs-abandon reason (entry ∷ entries) = ground (arith, inputs-abandon reason entries)

length-answer_first :
    (id : ℕ) (output : ReplOutput) (entries : List ReplEntry)
    → length (answer_first id output entries) ≡ length entries
unfolding answer_first
length-answer_first id output [] = refl
length-answer_first id output (entry ∷ entries) =
    ground (arith, length-answer_first id output entries)

length-map :
    (f : ReplEntry → ReplEntry) (entries : List ReplEntry) → length (map f entries) ≡ length entries
length-map f [] = refl
length-map f (entry ∷ entries) = ap suc (length-map f entries)

length-kept :
    (entries : List ReplEntry) (entry : ReplEntry)
    → length entries ≤ max_entries
    → length (kept (entries ++ (entry ∷ []))) ≤ max_entries
unfolding kept
length-kept entries entry h =
    ground (arith, length-append entries (entry ∷ []), length-drop 1 (entries ++ (entry ∷ [])))

-- An index that is in range has an entry, and its input is what stands there.
in_range :
    (n : ℕ) (entries : List ReplEntry)
    → n < length entries
    → (entry : ReplEntry) × (first (drop n entries) ≡ some entry)
      × (input_at n entries ≡ some entry.input)
unfolding input_at
in_range n [] h = absurd (omega arith)
in_range zero (entry ∷ entries) h = (entry, refl, refl)
in_range (suc n) (entry ∷ entries) h = in_range n entries (omega arith)

recall-IsHistory :
    (n : ℕ) (v : ReplView) → n < length v.entries → IsHistory v → IsHistory (recall n v)
unfolding recall Input.set IsRecalled
recall-IsHistory n v h kept =
    let (entry, found, typed) = in_range n v.entries h in
    rw (found, recall) (record { bounded = kept.bounded; recalled = (h, typed) })

one_back-lt :
    (cursor : Option ℕ) (v : ReplView)
    → IsRecalled cursor v
    → 0 < length v.entries
    → one_back v.entries cursor < length v.entries
unfolding IsRecalled
one_back-lt none v h some_left = omega arith
one_back-lt (some cursor) v h some_left = omega (arith, h.0)

cleared-IsHistory : (line : TextInput) (v : ReplView) → IsHistory v → IsHistory (edited line v)
unfolding edited IsRecalled
cleared-IsHistory line v h = record { bounded = h.bounded; recalled = tt }

submit-IsHistory : (v : ReplView) → IsHistory v → IsHistory (submit v).1
unfolding submit IsRecalled
submit-IsHistory v h = elim (Bool-cases (input_is_empty v)) [
  | inl e ↦ rw (e, submit) h
  | inr e ↦ rw (e, submit) (record { bounded = length-kept v.entries _ h.bounded; recalled = tt })
]

previous-IsHistory : (v : ReplView) → IsHistory v → IsHistory (previous v)
unfolding previous
previous-IsHistory v h = elim (Bool-cases (length v.entries == 0)) [
  | inl e ↦ rw (e, previous) h
  | inr e ↦
      rw (e, previous)
        (recall-IsHistory (one_back v.entries v.history_cursor) v
          (one_back-lt v.history_cursor v h.recalled (ground (arith, e))) h)
]

next_from-IsHistory :
    (cursor : Option ℕ) (v : ReplView) → IsHistory v → IsHistory (next_from cursor v)
unfolding next_from edited
next_from-IsHistory none v h = h
next_from-IsHistory (some cursor) v h = elim (Bool-cases (ltb (cursor + 1) (length v.entries))) [
  | inl e ↦ rw (e, next_from) (recall-IsHistory (cursor + 1) v (ground (arith, e)) h)
  | inr e ↦ rw (e, next_from) (cleared-IsHistory _ v h)
]

-- What is known of a cursor holds of a view with the same cursor, line and inputs.
same-IsRecalled :
    (cursor : Option ℕ) (v : ReplView) (entries : List ReplEntry)
    → length entries ≡ length v.entries
    → map (λ (e : ReplEntry). e.input) entries ≡ map (λ (e : ReplEntry). e.input) v.entries
    → IsRecalled cursor v
    → IsRecalled cursor (record v { entries = entries })
unfolding IsRecalled input_at
same-IsRecalled none v entries long same h = tt
same-IsRecalled (some cursor) v entries long same h = (rw long h.0, rw same h.1)

operate-IsHistory : (op : Operation) (v : ReplView) → IsHistory v → IsHistory (operate op v)
unfolding operate push_char push_str backspace clear_input answer abandon_pending next
operate-IsHistory (type_char c) v h = cleared-IsHistory _ v h
operate-IsHistory (paste text) v h = cleared-IsHistory _ v h
operate-IsHistory erase v h = cleared-IsHistory _ v h
operate-IsHistory clear_line v h = cleared-IsHistory _ v h
operate-IsHistory enter v h = submit-IsHistory v h
operate-IsHistory (settle id output) v h = record {
  bounded = rw (length-answer_first id output v.entries) h.bounded;
  recalled =
      same-IsRecalled v.history_cursor v _ (length-answer_first id output v.entries)
        (inputs-answer_first id output v.entries) h.recalled;
}
operate-IsHistory (give_up reason) v h = record {
  bounded = rw (length-map (abandon reason) v.entries) h.bounded;
  recalled =
      same-IsRecalled v.history_cursor v _ (length-map (abandon reason) v.entries)
        (inputs-abandon reason v.entries) h.recalled;
}
operate-IsHistory older v h = previous-IsHistory v h
operate-IsHistory newer v h = next_from-IsHistory v.history_cursor v h

kept-through : (ops : List Operation) (v : ReplView) → IsHistory v → IsHistory (operate_all ops v)
unfolding operate_all
kept-through [] v h = h
kept-through (op ∷ ops) v h = kept-through ops (operate op v) (operate-IsHistory op v h)

-- Through any operations from an empty repl, there are at most two hundred entries; and the history's
-- cursor is none, or it is the index of an entry, and the line is what was typed in that entry.
pub operate_all-IsHistory : (ops : List Operation) → IsHistory (operate_all ops empty_view)
unfolding IsRecalled
operate_all-IsHistory ops =
    kept-through ops empty_view (record { bounded = omega arith; recalled = tt })

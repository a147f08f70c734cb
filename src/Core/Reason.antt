-- ===== src/Core/Reason.antt =====
-- `PauseReason` of crates/core/src/session.rs: why the program stopped, and its reading from the
-- adapter's spelling or lazydap's own.
use Prim.Native.Char.{code}
use lazydap.Prelude.{
  ◌==◌, ℕ, ◌+◌, ◌≡◌, refl, String, Bool, true, false, List, [], ◌∷◌, ◌&&◌, ◌||◌, leb, filter, map,
  if◌then◌else◌,
}

pub data PauseReason : Type 0 where
  entry step breakpoint exception pause goto : PauseReason
  function_breakpoint data_breakpoint instruction_breakpoint : PauseReason
  other : String → PauseReason

unfoldable pub as_str : PauseReason → String
as_str entry = "entry"
as_str step = "step"
as_str breakpoint = "breakpoint"
as_str exception = "exception"
as_str pause = "pause"
as_str goto = "goto"
as_str function_breakpoint = "function_breakpoint"
as_str data_breakpoint = "data_breakpoint"
as_str instruction_breakpoint = "instruction_breakpoint"
as_str (other reason) = reason

is_alphanumeric : ℕ → Bool
is_alphanumeric c = leb 48 c && leb c 57 || (leb 65 c && leb c 90 || leb 97 c && leb c 122)

to_lowercase : ℕ → ℕ
to_lowercase c = if leb 65 c && leb c 90 then c + 32 else c

-- The code points of a text.
abbrev pub codes : String → List ℕ
codes String.[] = []
codes (String.◌∷◌ c s) = code c ∷ codes s

-- Lower case, and separators stripped.
squash : String → List ℕ
unfolding is_alphanumeric to_lowercase
squash value = map to_lowercase (filter is_alphanumeric (codes value))

abbrev same_codes : List ℕ → List ℕ → Bool
same_codes [] [] = true
same_codes (x ∷ xs) (y ∷ ys) = let rest = same_codes xs ys in if x == y then rest else false
same_codes _ _ = false

-- The arms of `From<&str>`, over the squashed text and the text itself.
read : List ℕ → String → PauseReason
read s value =
    if same_codes s (codes "entry")
    then entry
    else if same_codes s (codes "step")
    then step
    else if same_codes s (codes "breakpoint")
    then breakpoint
    else if same_codes s (codes "exception")
    then exception
    else if same_codes s (codes "pause")
    then pause
    else if same_codes s (codes "goto")
    then goto
    else if same_codes s (codes "functionbreakpoint")
    then function_breakpoint
    else if same_codes s (codes "databreakpoint")
    then data_breakpoint
    else if same_codes s (codes "instructionbreakpoint")
    then instruction_breakpoint
    else other value

-- `PauseReason::from`
unfoldable pub from : String → PauseReason
unfolding read squash
from value = read (squash value) value

-- What `read` answers is a reason that reads back from its own spelling, or the text itself.
data Reads (value : String) : PauseReason → Type 0 where
  known : (r : PauseReason) → from (as_str r) ≡ r → Reads value r
  unknown : Reads value (other value)

Reads-if :
    {value : String} (b : Bool) {r s : PauseReason}
    → Reads value r
    → Reads value s
    → Reads value (if b then r else s)
Reads-if true h k = h
Reads-if false h k = k

read-Reads : (s : List ℕ) (value : String) → Reads value (read s value)
unfolding read from as_str
read-Reads s value = Reads-if (same_codes s (codes "entry")) (known entry refl) (
    Reads-if (same_codes s (codes "step")) (known step refl) (
      Reads-if (same_codes s (codes "breakpoint")) (known breakpoint refl) (
        Reads-if (same_codes s (codes "exception")) (known exception refl) (
          Reads-if (same_codes s (codes "pause")) (known pause refl) (
            Reads-if (same_codes s (codes "goto")) (known goto refl) (
              Reads-if (same_codes s (codes "functionbreakpoint")) (known function_breakpoint refl)
                (Reads-if (same_codes s (codes "databreakpoint")) (known data_breakpoint refl) (
                  Reads-if (same_codes s (codes "instructionbreakpoint"))
                    (known instruction_breakpoint refl) unknown))))))))

from-as_str_of_Reads :
    (value : String) {r : PauseReason} → Reads value r → from value ≡ r → from (as_str r) ≡ r
unfolding as_str
from-as_str_of_Reads value (known r h) e = h
from-as_str_of_Reads value unknown e = e

-- A reason read from any text is written and read back unchanged, whichever of the two spellings
-- the text had.
pub from-as_str : (value : String) → from (as_str (from value)) ≡ from value
from-as_str value = from-as_str_of_Reads value (unfold from in read-Reads (squash value) value) refl

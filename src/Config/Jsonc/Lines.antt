-- ===== src/Config/Jsonc/Lines.antt =====
-- The lines of a text that is rid of its comments and trailing commas.
use Prim.Native.Char.{Char}
use lazydap.Prelude.{ℕ, ◌+◌, ◌≡◌, refl, Bool, true, false, [], ◌∷◌, if◌then◌else◌}
use lazydap.Config.Text.{Text, is}
use lazydap.Config.Jsonc.{Mode, line_opening, block_opening, State, Stripped, ok, err, peeks}

-- The line feeds of a text.
unfoldable pub line_feeds : Text → ℕ
line_feeds [] = 0
line_feeds (c ∷ cs) = let rest = line_feeds cs in if is 10 c then rest + 1 else rest

-- The line feeds that were read so far.
abbrev held : State → ℕ
held st = line_feeds st.out + line_feeds st.gap

abbrev one : Char → ℕ
one c = if is 10 c then 1 else 0

-- At a comment's opening, what comes next is the opening's second character.
abbrev Fits : Mode → Text → Type 0
Fits line_opening rest = peeks b'/' rest ≡ true
Fits block_opening rest = peeks b'*' rest ≡ true
Fits _ rest = Unit

-- What a step leads to.
record Follows (c : Char) (rest : Text) (st : State) (after : Mode × State) : Type 0 where
  same : held after.1 ≡ held st + one c
  fits : Fits after.0 rest

branch :
    (P : Mode × State → Type 0) (b : Bool) (x y : Mode × State)
    → (b ≡ true → P x)
    → P y
    → P (if b then x else y)
branch P true x y h g = h refl
branch P false x y h g = g

-- What a result that is a text must have.
abbrev pub HasLines : ℕ → Stripped → Type 0
HasLines n (ok out) = line_feeds out ≡ n
HasLines n (err message) = Unit

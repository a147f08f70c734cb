-- ===== src/Config/Variables.antt =====
-- crates/config/src/launch_json.rs: `expand`, which puts values in the place of `${name}`. What the
-- names stand for is `Host`, which is the operating system's but for the project's folder. The loop
-- is on fuel: one more than the characters that are left is enough.
pub mod Expanding
pub mod Settling
use Prim.Native.Char.{Char, code}
use Prim.Native.String.{String}
use lazydap.Prelude.{
  ℕ, zero, suc, Option, none, some, Bool, true, false, not, List, [], ◌∷◌, ◌++◌, ◌==◌, ◌&&◌, ◌||◌,
  if◌then◌else◌, is_some, leb, length,
}
use lazydap.Config.Text.{Text, chars, is, is_whitespace, same_text, has_text}

pub record Host : Type 0 where
  -- the project's folder, and its last component
  pub root : Text
  pub root_name : Option Text
  pub home : Option Text
  pub separator : Text
  -- a variable of the environment
  pub variable : Text → Option Text

abbrev pub starts : ℕ → Text → Bool
starts n [] = false
starts n (c ∷ cs) = is n c

abbrev pub tail : Text → Text
tail [] = []
tail (c ∷ cs) = cs

-- A text cut in two at a mark.
abbrev pub in_front : Char → Option (Text × Text) → Option (Text × Text)
in_front c none = none
in_front c (some (before, after)) = some (c ∷ before, after)

-- `find("${")`: what is before it and what is after it.
unfoldable pub cut_open : Text → Option (Text × Text)
cut_open [] = none
cut_open (c ∷ cs) =
    let rest = cut_open cs in
    if is b'$' c && starts b'{' cs then some ([], tail cs) else in_front c rest

-- `find('}')`
unfoldable pub cut_close : Text → Option (Text × Text)
cut_close [] = none
cut_close (c ∷ cs) = let rest = cut_close cs in if is b'}' c then some ([], cs) else in_front c rest

abbrev is_letter : ℕ → Bool
is_letter n = leb b'a' n && leb n b'z' || leb b'A' n && leb n b'Z'

-- `names_a_variable`
unfoldable pub names_a_variable : Text → Bool
unfolding is_whitespace
names_a_variable [] = false
names_a_variable (c ∷ cs) =
    let rest = names_a_variable cs in if is_whitespace (code c) then rest else is_letter (code c)

-- `strip_prefix("env:")`, and the variable's value
unfoldable pub from_environment : Host → Text → Option Text
from_environment host (e ∷ n ∷ v ∷ colon ∷ name) =
    if is b'e' e && is b'n' n && is b'v' v && is b':' colon then host.variable name else none
from_environment host _ = none

unfoldable pub resolve : Host → Text → Option Text
unfolding same_text from_environment
resolve host name =
    if same_text name (chars "workspaceFolder") || same_text name (chars "workspaceRoot")
    then some host.root
    else if same_text name (chars "workspaceFolderBasename")
    then host.root_name
    else if same_text name (chars "userHome")
    then host.home
    else if same_text name (chars "pathSeparator") || same_text name (chars "/")
    then some host.separator
    else from_environment host name

-- `if !unresolved.contains(&token) { unresolved.push(token) }`
unfoldable pub noted : Text → List Text → List Text
unfolding has_text
noted token unresolved =
    if has_text unresolved token then unresolved else unresolved ++ (token ∷ [])

abbrev pub opening : Text
opening = chars "${"

module _ (host : Host) where
  -- The text in the place of a name, and the tokens that nothing stands for.
  unfoldable pub replaced : Text → List Text → Text × List Text
  unfolding resolve noted
  replaced name unresolved = elim (resolve host name) [
    | some found ↦ (found, unresolved)
    | none ↦ let token = opening ++ (name ++ chars "}") in (token, noted token unresolved)
  ]

  -- A `${` that nothing closes stays, with what is after it.
  unfoldable pub unclosed : Text → List Text → Text × List Text
  unfolding names_a_variable noted
  unclosed after unresolved =
      let rest = opening ++ after in
      (rest, if names_a_variable after then noted rest unresolved else unresolved)

  unfoldable pub expand_from : ℕ → Text → List Text → Option (Text × List Text)
  unfolding cut_open cut_close replaced unclosed
  expand_from zero rest unresolved = none
  expand_from (suc fuel) rest unresolved = elim (cut_open rest) [
    | none ↦ some (rest, unresolved)
    | some (before, after) ↦ elim (cut_close after) [
      | none ↦
          let (last, unresolved') = unclosed after unresolved in some (before ++ last, unresolved')
      | some (name, rest') ↦
          let (value, unresolved') = replaced name unresolved in
          elim (expand_from fuel rest' unresolved') [
            | none ↦ none
            | some (out, unresolved'') ↦ some (before ++ (value ++ out), unresolved'')
          ]
    ]
  ]

  unfoldable pub expand : Text → List Text → Option (Text × List Text)
  unfolding expand_from
  expand raw unresolved = expand_from (suc (length raw)) raw unresolved

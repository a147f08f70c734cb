-- ===== src/Config/Import.antt =====
-- crates/config/src/launch_json.rs: `map`, which makes a launch configuration of one that an editor
-- keeps. How a text is a path, and what its extension is, are the standard library's.
pub mod Runnable
use Prim.Native.String.{String}
use lazydap.Prelude.{
  Option, none, some, Bool, true, false, List, [], ◌∷◌, ◌++◌, map, ◌&&◌, ◌||◌, if◌then◌else◌,
  or_else, unwrap_or,
}
use lazydap.Core.Session.{AdapterKind, codelldb, debugpy, delve}
use lazydap.Core.Breakpoint.{FilePath}
use lazydap.Core.Launch.{LaunchKind, launch, attach, LaunchConfigSource}
use lazydap.Core.Launch
use lazydap.Config.Text.{Text, chars, same_text}
use lazydap.Config.Arguments.{Split, split_arguments}
use lazydap.Config.Variables.{Host, expand}

pub data Problem : Type 0 where
  trailing_backslash unterminated_quote : Problem
  delve_test delve_source : Problem

abbrev pub NotRunnable : Type 0
NotRunnable = Launch.NotRunnable Text Problem

abbrev pub LaunchConfig : Type 0
LaunchConfig = Launch.LaunchConfig Text Problem

pub data Interpreter : Type 0 where
  path : Text → Interpreter
  argv : List Text → Interpreter

-- `Interpreter::path`
abbrev pub interpreter_path : Interpreter → Option Text
interpreter_path (path text) = some text
interpreter_path (argv []) = none
interpreter_path (argv (text ∷ rest)) = some text

pub data Arguments : Type 0 where
  words : List Text → Arguments
  line : Text → Arguments

pub record VsCodeConfig : Type 0 where
  pub name : Text
  pub adapter_type : Text
  pub request : Text
  pub program : Option Text
  pub args : Arguments
  pub cwd : Option Text
  pub env : List (Text × Text)
  pub environment : List (Text × Text)
  pub stop_on_entry : Bool
  pub stop_at_entry : Bool
  pub mode : Option Text
  pub python : Option Interpreter
  pub python_path : Option Text

-- The warnings, by what they name.
pub data Warning : Type 0 where
  unknown_request : Text → Text → Warning
  reads_part_of_cppdbg : Text → Warning
  unsplit_arguments : Text → Problem → Warning
  unexpanded : Text → List Text → Warning

pub record System : Type 0 where
  pub host : Host
  pub root : FilePath
  pub path_of : Text → FilePath
  pub extension : Text → Option Text

unfoldable pub kind_of : Text → Option LaunchKind
unfolding same_text
kind_of request =
    if same_text request (chars "launch")
    then some launch
    else if same_text request (chars "attach")
    then some attach
    else none

unfoldable pub adapter_of : Text → Option AdapterKind
unfolding same_text
adapter_of kind =
    if same_text kind (chars "lldb")
    then some codelldb
    else if same_text kind (chars "debugpy") || same_text kind (chars "python")
    then some debugpy
    else if same_text kind (chars "go")
    then some delve
    else if same_text kind (chars "cppdbg")
    then some codelldb
    else none

abbrev pub is_text : String → Option Text → Bool
unfolding same_text
is_text s none = false
is_text s (some text) = same_text text (chars s)

-- `is_go_source`, of a program that is named
unfoldable pub names_go_source : System → Option Text → Bool
unfolding is_text
names_go_source system none = false
names_go_source system (some program) = is_text "go" (system.extension program)

unfoldable pub delve_mode_block : System → Option Text → Option Text → Option NotRunnable
unfolding is_text names_go_source
delve_mode_block system mode program =
    if is_text "test" mode
    then some (Launch.delve_mode delve_test)
    else if is_text "exec" mode && names_go_source system program
    then some (Launch.delve_mode delve_source)
    else none

abbrev pub mode_block : System → VsCodeConfig → Option AdapterKind → Option NotRunnable
unfolding delve_mode_block
mode_block system c (some delve) = delve_mode_block system c.mode c.program
mode_block system c _ = none

-- `absolute`
unfoldable pub absolute : System → Text → FilePath
absolute system text =
    let p = system.path_of text in
    if p.is_absolute then p else record {
      is_absolute = system.root.is_absolute;
      components = system.root.components ++ p.components;
    }

-- `expand`, which always ends.
unfoldable pub expanded : System → Text → List Text → Text × List Text
unfolding expand
expanded system raw unresolved = unwrap_or (expand system.host raw unresolved) (raw, unresolved)

unfoldable pub expanded_path : System → Option Text → List Text → Option FilePath × List Text
unfolding expanded absolute
expanded_path system none unresolved = (none, unresolved)
expanded_path system (some raw) unresolved =
    let (text, unresolved') = expanded system raw unresolved in
    (some (absolute system text), unresolved')

unfoldable pub expanded_words : System → List Text → List Text → List Text × List Text
unfolding expanded
expanded_words system [] unresolved = ([], unresolved)
expanded_words system (raw ∷ rest) unresolved =
    let (text, unresolved₁) = expanded system raw unresolved in
    let (texts, unresolved₂) = expanded_words system rest unresolved₁ in (text ∷ texts, unresolved₂)

-- `BTreeMap::insert`
unfoldable pub set_variable : Text → Text → List (Text × Text) → List (Text × Text)
unfolding same_text
set_variable key value [] = (key, value) ∷ []
set_variable key value ((held, old) ∷ rest) =
    let others = set_variable key value rest in
    if same_text held key then (key, value) ∷ rest else (held, old) ∷ others

unfoldable pub expanded_pairs :
    System → List (Text × Text) → List (Text × Text) → List Text → List (Text × Text) × List Text
unfolding expanded set_variable
expanded_pairs system [] env unresolved = (env, unresolved)
expanded_pairs system ((key, raw) ∷ rest) env unresolved =
    let (value, unresolved') = expanded system raw unresolved in
    expanded_pairs system rest (set_variable key value env) unresolved'

abbrev pub of_split : Split → List Text × Option Problem
of_split (Split.ok args) = (args, none)
of_split Split.trailing_backslash = ([], some trailing_backslash)
of_split (Split.unterminated quote) = ([], some unterminated_quote)

-- The arguments, and what keeps a line of them from being split.
unfoldable pub arguments_of :
    System → Arguments → List Text → (List Text × Option Problem) × List Text
unfolding expanded_words expanded split_arguments
arguments_of system (words raw) unresolved =
    let (args, unresolved') = expanded_words system raw unresolved in ((args, none), unresolved')
arguments_of system (line raw) unresolved =
    let (text, unresolved') = expanded system raw unresolved in
    (of_split (split_arguments text), unresolved')

abbrev pub blocked_by : Option Problem → Option NotRunnable → Option NotRunnable
blocked_by none block = block
blocked_by (some problem) block = some (Launch.bad_arguments problem)

abbrev pub cppdbg_warning : VsCodeConfig → List Warning
unfolding same_text
cppdbg_warning c =
    if same_text c.adapter_type (chars "cppdbg") then reads_part_of_cppdbg c.name ∷ [] else []

abbrev pub split_warning : VsCodeConfig → Option Problem → List Warning
split_warning c none = []
split_warning c (some problem) = unsplit_arguments c.name problem ∷ []

abbrev pub expand_warning : VsCodeConfig → List Text → List Warning
expand_warning c [] = []
expand_warning c (token ∷ tokens) = unexpanded c.name (token ∷ tokens) ∷ []

abbrev pub interpreter_of : VsCodeConfig → Option Text
interpreter_of c = elim c.python [
  | none ↦ c.python_path
  | some python ↦ or_else (interpreter_path python) c.python_path
]

-- The rest of `map`, for a configuration whose request is known.
unfoldable pub configured : System → VsCodeConfig → LaunchKind → LaunchConfig × List Warning
unfolding adapter_of mode_block expanded_path expanded_pairs arguments_of cppdbg_warning
configured system c kind =
    let adapter = adapter_of c.adapter_type in
    let (adapter_command, u₁) = expanded_path system (interpreter_of c) [] in
    let (program, u₂) = expanded_path system c.program u₁ in
    let (cwd, u₃) = expanded_path system c.cwd u₂ in
    let (env₁, u₄) = expanded_pairs system c.environment [] u₃ in
    let (env₂, u₅) = expanded_pairs system c.env env₁ u₄ in
    let (args, u₆) = arguments_of system c.args u₅ in
    (
      record {
        name = c.name;
        adapter = adapter;
        adapter_type = c.adapter_type;
        kind = kind;
        program = program;
        args = args.0;
        cwd = cwd;
        env = env₂;
        stop_on_entry = c.stop_on_entry || c.stop_at_entry;
        adapter_command = adapter_command;
        source = LaunchConfigSource.vs_code_launch_json;
        unresolved = u₆;
        blocked = blocked_by args.1 (mode_block system c adapter);
      },
      cppdbg_warning c ++ (split_warning c args.1 ++ expand_warning c u₆),
    )

unfoldable pub made : System → VsCodeConfig → Option LaunchKind → Option LaunchConfig × List Warning
unfolding configured
made system c none = (none, unknown_request c.name c.request ∷ [])
made system c (some kind) =
    let (config, warnings) = configured system c kind in (some config, warnings)

-- `map`: the configuration, if there is one, and the warnings that are added.
unfoldable pub map_config : System → VsCodeConfig → Option LaunchConfig × List Warning
unfolding kind_of made
map_config system c = made system c (kind_of c.request)

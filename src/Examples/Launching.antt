-- ===== src/Examples/Launching.antt =====
-- The theorems on launch configurations at concrete texts and configurations.
use lazydap.Prelude.{◌≡◌, refl, none, some, Bool, true, false, List, [], ◌∷◌, is_some}
use lazydap.Core.Launch.{launch, runnable_program}
use lazydap.Config.Text.{Text, chars}
use lazydap.Config.Jsonc.{strip_jsonc}
use lazydap.Config.Jsonc
use lazydap.Config.Arguments.{split_arguments}
use lazydap.Config.Arguments
use lazydap.Config.Arguments.RoundTrip.{split_arguments-line_of, line_of}
use lazydap.Config.Variables.{Host, expand, resolve}
use lazydap.Config.Variables
use lazydap.Config.Variables.Expanding.{expand-ends, expand-unknown, names_of}
use lazydap.Config.Import.{
  System, VsCodeConfig, LaunchConfig, Problem, words, kind_of, adapter_of, map_config,
}
use lazydap.Config.Import
use lazydap.Config.Import.Runnable.{map_config-runnable, IsSettled}

abbrev source : Text
source = chars "{ \"a\": [1, 2, ], } // end"

strip_example : strip_jsonc source ≡ Jsonc.ok (chars "{ \"a\": [1, 2 ] }       ")
unfolding strip_jsonc
strip_example = refl

split_example :
    split_arguments (chars "one 'two three' f\\ our")
    ≡ Arguments.ok (chars "one" ∷ chars "two three" ∷ chars "f our" ∷ [])
unfolding split_arguments
split_example = refl

split_arguments-line_of_example :
    split_arguments (line_of (chars "a b" ∷ [] ∷ [])) ≡ Arguments.ok (chars "a b" ∷ [] ∷ [])
split_arguments-line_of_example = split_arguments-line_of (chars "a b" ∷ [] ∷ [])

abbrev host : Host
host = record {
  root = chars "/p";
  root_name = some (chars "p");
  home = none;
  separator = chars "/";
  variable = λ name. none;
}

expand_example :
    expand host (chars "${workspaceFolder}/x ${port}") []
    ≡ some (chars "/p/x ${port}", chars "${port}" ∷ [])
unfolding expand
expand_example = refl

expand-ends_example :
    (result : Text × List Text) × (expand host (chars "${workspaceFolder}/x") [] ≡ some result)
expand-ends_example = expand-ends host (chars "${workspaceFolder}/x") []

expand-unknown_example :
    (left : List Text) × (expand host (chars "on ${port}") [] ≡ some (chars "on ${port}", left))
unfolding names_of Variables.cut_open Variables.cut_close resolve
expand-unknown_example = expand-unknown host (chars "on ${port}") [] (refl, tt)

abbrev system : System
system = record {
  host = host;
  root = record { is_absolute = true; components = "p" ∷ [] };
  path_of = λ text. record { is_absolute = false; components = "app" ∷ [] };
  extension = λ text. none;
}

abbrev editor_config : VsCodeConfig
editor_config = record {
  name = chars "app";
  adapter_type = chars "lldb";
  request = chars "launch";
  program = some (chars "app");
  args = words [];
  cwd = none;
  env = [];
  environment = [];
  stop_on_entry = false;
  stop_at_entry = false;
  mode = none;
  python = none;
  python_path = none;
}

abbrev imported : LaunchConfig
unfolding Import.configured
imported = (Import.configured system editor_config launch).0

map_config-runnable_example :
    (kind_of editor_config.request ≡ some launch)
    × (is_some (adapter_of editor_config.adapter_type) ≡ true)
    × (◌≡◌ {A = Bool} true true)
    × IsSettled system.host editor_config
    × (imported.blocked ≡ none)
unfolding map_config runnable_program
map_config-runnable_example =
    map_config-runnable system editor_config imported
      (record { is_absolute = true; components = "p" ∷ "app" ∷ [] }) refl refl refl

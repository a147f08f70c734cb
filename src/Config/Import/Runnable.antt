-- ===== src/Config/Import/Runnable.antt =====
-- What is known of an imported configuration that can be run.
use lazydap.Prelude.{
  arith, ◌≡◌, refl, sym, ap, All, ◌∷◌, ◌∙◌, Option, none, some, true, List, [], is_some,
}
use lazydap.Core.Breakpoint.{FilePath}
use lazydap.Core.Launch.{
  LaunchKind, launch, attach, runnable_program, of_adapter, of_kind, of_unresolved, of_program,
  not_runnable,
}
use lazydap.Core.Launch
use lazydap.Config.Text.{Text}
use lazydap.Config.Variables.{Host}
use lazydap.Config.Variables.Expanding.{expand-ends}
use lazydap.Config.Variables.Settling.{Settled, expand-Settled}
use lazydap.Config.Import.{
  System, VsCodeConfig, LaunchConfig, Problem, kind_of, adapter_of, absolute, expanded_path,
  expanded, expanded_words, expanded_pairs, arguments_of, set_variable, interpreter_of, Arguments,
  words, line, configured, made, map_config,
}

module _ (config : LaunchConfig) (program : FilePath)
    (h : runnable_program Text Problem config ≡ Launch.ok program) where
  runnable-blocked : config.blocked ≡ none
  unfolding runnable_program
  runnable-blocked = ground (arith, h)

  runnable-adapter : is_some config.adapter ≡ true
  unfolding runnable_program of_adapter
  runnable-adapter = ground (arith, h)

  runnable-kind : config.kind ≡ launch
  unfolding runnable_program of_adapter of_kind
  runnable-kind = ground (arith, h)

  runnable-unresolved : config.unresolved ≡ []
  unfolding runnable_program of_adapter of_kind of_unresolved
  runnable-unresolved = ground (arith, h)

  runnable-program : config.program ≡ some program
  unfolding runnable_program of_adapter of_kind of_unresolved of_program
  runnable-program = ground (arith, h)

expanded_path-absolute :
    (system : System) (raw : Option Text) (unresolved : List Text) (path : FilePath)
    → system.root.is_absolute ≡ true
    → (expanded_path system raw unresolved).0 ≡ some path
    → path.is_absolute ≡ true
unfolding expanded_path absolute
expanded_path-absolute system none unresolved path h e = absurd (cc e)
expanded_path-absolute system (some raw) unresolved path h e = ground (arith, h, e)

configured-program :
    (system : System) (c : VsCodeConfig) (kind : LaunchKind) (path : FilePath)
    → system.root.is_absolute ≡ true
    → (configured system c kind).0.program ≡ some path
    → path.is_absolute ≡ true
unfolding configured
configured-program system c kind path h e = expanded_path-absolute system c.program _ path h e

made-from :
    (system : System) (c : VsCodeConfig) (kind : Option LaunchKind) (config : LaunchConfig)
    → (made system c kind).0 ≡ some config
    → (k : LaunchKind) × (kind ≡ some k) × ((configured system c k).0 ≡ config)
unfolding made
made-from system c none config e = absurd (cc e)
made-from system c (some k) config e = (k, refl, cc e)

-- An optional text, the texts of a list, and the values of variables.
abbrev SettledIn : Host → Option Text → Type 0
SettledIn host none = Unit
SettledIn host (some raw) = Settled host raw

abbrev SettledValues : Host → List (Text × Text) → Type 0
SettledValues host = All (λ (pair : Text × Text). Settled host pair.1)

abbrev SettledArguments : Host → Arguments → Type 0
SettledArguments host (words raw) = All (Settled host) raw
SettledArguments host (line raw) = Settled host raw

-- Every `${name}` that stands in a configuration, wherever one is read, stands for something.
pub record IsSettled (host : Host) (c : VsCodeConfig) : Type 0 where
  pub interpreter : SettledIn host (interpreter_of c)
  pub program : SettledIn host c.program
  pub cwd : SettledIn host c.cwd
  pub environment : SettledValues host c.environment
  pub env : SettledValues host c.env
  pub args : SettledArguments host c.args

module _ (system : System) where
  expanded-Settled :
      (raw : Text) (unresolved : List Text)
      → (expanded system raw unresolved).1 ≡ []
      → Settled system.host raw × (unresolved ≡ [])
  unfolding expanded
  expanded-Settled raw unresolved h =
      let (result, ended) = expand-ends system.host raw unresolved in
      let same : expanded system raw unresolved ≡ result = rw (ended, expanded) refl in
      let none_left : result.1 ≡ [] = sym (ap (λ r. r.1) same) ∙ h in
      expand-Settled system.host raw unresolved result.0
        (ended ∙ ap (λ u. some (result.0, u)) none_left)

  expanded_path-Settled :
      (raw : Option Text) (unresolved : List Text)
      → (expanded_path system raw unresolved).1 ≡ []
      → SettledIn system.host raw × (unresolved ≡ [])
  unfolding expanded_path
  expanded_path-Settled none unresolved h = (tt, h)
  expanded_path-Settled (some raw) unresolved h = expanded-Settled raw unresolved h

  expanded_words-Settled :
      (raws : List Text) (unresolved : List Text)
      → (expanded_words system raws unresolved).1 ≡ []
      → All (Settled system.host) raws × (unresolved ≡ [])
  unfolding expanded_words
  expanded_words-Settled [] unresolved h = (tt, h)
  expanded_words-Settled (raw ∷ rest) unresolved h =
      let (others, left) = expanded_words-Settled rest (expanded system raw unresolved).1 h in
      let (settled, none_before) = expanded-Settled raw unresolved left in
      ((settled, others), none_before)

  expanded_pairs-Settled :
      (pairs env : List (Text × Text)) (unresolved : List Text)
      → (expanded_pairs system pairs env unresolved).1 ≡ []
      → SettledValues system.host pairs × (unresolved ≡ [])
  unfolding expanded_pairs
  expanded_pairs-Settled [] env unresolved h = (tt, h)
  expanded_pairs-Settled ((key, raw) ∷ rest) env unresolved h =
      let now = expanded system raw unresolved in
      let (others, left) = expanded_pairs-Settled rest (set_variable key now.0 env) now.1 h in
      let (settled, none_before) = expanded-Settled raw unresolved left in
      ((settled, others), none_before)

  arguments_of-Settled :
      (args : Arguments) (unresolved : List Text)
      → (arguments_of system args unresolved).1 ≡ []
      → SettledArguments system.host args × (unresolved ≡ [])
  unfolding arguments_of
  arguments_of-Settled (words raw) unresolved h = expanded_words-Settled raw unresolved h
  arguments_of-Settled (line raw) unresolved h = expanded-Settled raw unresolved h

  configured-IsSettled :
      (c : VsCodeConfig) (kind : LaunchKind)
      → (configured system c kind).0.unresolved ≡ []
      → IsSettled system.host c
  unfolding configured
  configured-IsSettled c kind h =
      let interpreter = expanded_path system (interpreter_of c) [] in
      let program = expanded_path system c.program interpreter.1 in
      let cwd = expanded_path system c.cwd program.1 in
      let environment = expanded_pairs system c.environment [] cwd.1 in
      let env = expanded_pairs system c.env environment.0 environment.1 in
      let (args', h₅) = arguments_of-Settled c.args env.1 h in
      let (env', h₄) = expanded_pairs-Settled c.env environment.0 environment.1 h₅ in
      let (environment', h₃) = expanded_pairs-Settled c.environment [] cwd.1 h₄ in
      let (cwd', h₂) = expanded_path-Settled c.cwd program.1 h₃ in
      let (program', h₁) = expanded_path-Settled c.program interpreter.1 h₂ in
      let (interpreter', h₀) = expanded_path-Settled (interpreter_of c) [] h₁ in
      record {
        interpreter = interpreter';
        program = program';
        cwd = cwd';
        environment = environment';
        env = env';
        args = args';
      }

-- A configuration that is imported and can be run asks for a launch, of an adapter that is known; its
-- program is an absolute path, as long as the project's folder is one; every variable in the texts
-- that it is made of stands for something, and nothing blocks it.
pub map_config-runnable :
    (system : System) (c : VsCodeConfig) (config : LaunchConfig) (program : FilePath)
    → system.root.is_absolute ≡ true
    → (map_config system c).0 ≡ some config
    → runnable_program Text Problem config ≡ Launch.ok program
    → (kind_of c.request ≡ some launch)
      × (is_some (adapter_of c.adapter_type) ≡ true)
      × (program.is_absolute ≡ true)
      × IsSettled system.host c
      × (config.blocked ≡ none)
unfolding map_config made configured
map_config-runnable system c config program h e runs =
    let (kind, asked, same) = made-from system c (kind_of c.request) config e in
    let is_launch : kind ≡ launch =
      ap (λ (l : LaunchConfig). l.kind) same ∙ runnable-kind config program runs in
    let from_program : (configured system c kind).0.program ≡ some program =
      ap (λ (l : LaunchConfig). l.program) same ∙ runnable-program config program runs in
    (
      asked ∙ ap some is_launch,
      ap (λ (l : LaunchConfig). is_some l.adapter) same ∙ runnable-adapter config program runs,
      configured-program system c kind program h from_program,
      configured-IsSettled system c kind
          (ap (λ (l : LaunchConfig). l.unresolved) same ∙ runnable-unresolved config program runs),
      runnable-blocked config program runs,
    )

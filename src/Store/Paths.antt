-- ===== src/Store/Paths.antt =====
-- crates/store/src/file.rs: the paths of breakpoints, relative to the project in its file and absolute
-- in memory. What the file system says of a path is a parameter.
use lazydap.Prelude.{
  subst, ℕ, ◌≡◌, refl, ap, sym, arith, Bool, true, false, Option, none, some, List, [], ◌∷◌, ◌++◌,
  map, if◌then◌else◌, String, String_discrete, ite, unwrap_or, max,
}
use lazydap.Core.Breakpoint.{FilePath, Breakpoint}
use lazydap.Core.Watch.{Watch}
use lazydap.Store.Merge.{Contents, one_past_highest}

-- `strip_prefix` on the components
unfoldable pub strip : List String → List String → Option (List String)
strip [] path = some path
strip (c ∷ root) [] = none
strip (c ∷ root) (d ∷ path) = let rest = strip root path in ite (String_discrete c d) rest none

abbrev same_anchor : Bool → Bool → Bool
same_anchor true b = b
same_anchor false true = false
same_anchor false false = true

abbrev relative : Option (List String) → Option FilePath
relative none = none
relative (some rest) = some (record { is_absolute = false; components = rest })

-- `source.strip_prefix(root)`
unfoldable pub strip_prefix : FilePath → FilePath → Option FilePath
unfolding strip
strip_prefix source root =
    if same_anchor source.is_absolute root.is_absolute
    then relative (strip root.components source.components)
    else none

unfoldable pub relativise : FilePath → FilePath → FilePath
unfolding strip_prefix
relativise source root = unwrap_or (strip_prefix source root) source

-- `root.join(path)`
abbrev join : FilePath → FilePath → FilePath
join root path =
    if path.is_absolute
    then path
    else record root { components = root.components ++ path.components }

unfoldable pub absolutise : FilePath → FilePath → FilePath
absolutise source root = if source.is_absolute then source else join root source

-- `resolve`; `canonicalize` is `none` on a path that the file system does not have.
unfoldable pub resolve : (FilePath → Option FilePath) → FilePath → FilePath → FilePath
unfolding absolutise
resolve canonicalize source root =
    let absolute = absolutise source root in unwrap_or (canonicalize absolute) absolute

unfoldable pub next_id : Option ℕ → List ℕ → ℕ
next_id counter in_use = max (unwrap_or counter 1) (one_past_highest in_use)

-- `Document`, without its version and the sections that nobody knows
pub record Document : Type 0 where
  pub breakpoints : List Breakpoint
  pub next_breakpoint_id : Option ℕ
  pub watches : List Watch
  pub next_watch_id : Option ℕ

unfoldable pub into_memory : (FilePath → Option FilePath) → Document → FilePath → Contents
unfolding next_id resolve
into_memory canonicalize d root = record {
  breakpoints =
      map (λ (b : Breakpoint). record b { source = resolve canonicalize b.source root })
        d.breakpoints;
  next_breakpoint_id = next_id d.next_breakpoint_id (map (λ (b : Breakpoint). b.id) d.breakpoints);
  watches = d.watches;
  next_watch_id = next_id d.next_watch_id (map (λ (w : Watch). w.id) d.watches);
}

append-strip : (root path rest : List String) → strip root path ≡ some rest → root ++ rest ≡ path
unfolding strip
append-strip [] path rest h = ground arith
append-strip (c ∷ root) [] rest h = ground arith
append-strip (c ∷ root) (d ∷ path) rest h = ground (arith, append-strip root path rest)

abbrev absolute : List String → FilePath
absolute components = record { is_absolute = true; components = components }

-- Out of the project's file and back.
read_back : List String → List String → Option (List String) → FilePath
unfolding absolutise
read_back root path stripped =
    absolutise (unwrap_or (relative stripped) (absolute path)) (absolute root)

read_back_lem :
    (root path : List String) (stripped : Option (List String))
    → strip root path ≡ stripped
    → read_back root path stripped ≡ absolute path
unfolding read_back absolutise
read_back_lem root path none h = refl
read_back_lem root path (some rest) h = ap absolute (append-strip root path rest h)

absolutise-relativise :
    (source root : FilePath)
    → source.is_absolute ≡ true
    → root.is_absolute ≡ true
    → absolutise (relativise source root) root ≡ source
unfolding absolutise relativise strip_prefix read_back
absolutise-relativise source root from_top rooted =
    let here : source ≡ absolute source.components =
      λ i. record { is_absolute = from_top i; components = source.components } in
    let there : root ≡ absolute root.components =
      λ i. record { is_absolute = rooted i; components = root.components } in
    subst (λ s. absolutise (relativise s root) root ≡ s) (sym here)
      (subst
        (λ r. absolutise (relativise (absolute source.components) r) r ≡ absolute source.components)
        (sym there)
        (read_back_lem root.components source.components (strip root.components source.components)
          refl))

-- An absolute path that is written to the file of a project at an absolute path, inside the project or
-- not, and that the file system has no other name for, is read back as it was.
pub resolve-relativise :
    (canonicalize : FilePath → Option FilePath) (source root : FilePath)
    → source.is_absolute ≡ true
    → root.is_absolute ≡ true
    → unwrap_or (canonicalize source) source ≡ source
    → resolve canonicalize (relativise source root) root ≡ source
unfolding resolve
resolve-relativise canonicalize source root from_top rooted canonical =
    rw (absolutise-relativise source root from_top rooted) canonical

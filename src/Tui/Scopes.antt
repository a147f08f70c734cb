-- ===== src/Tui/Scopes.antt =====
-- crates/tui/src/panes/scopes.rs: the tree of scopes and variables, and the rows that it unfolds
-- to. A node's children are a list of nodes of their own.
pub mod Rows
pub mod Changing
use Prim.Native.String.{String, ◌++◌}
use lazydap.Prelude.{
  ℕ, zero, suc, ◌+◌, ◌-◌, ℤ, pos, Option, none, some, Bool, true, false, not, List, [], ◌∷◌, map,
  ◌==◌, ◌&&◌, if◌then◌else◌, length, take, drop, first, ltb,
}
use lazydap.Prelude as P
use lazydap.Core.Inspect.{Scope, Variable}
use lazydap.Tui.Viewport.{moved_by, scroll}

-- The fields of `Node` but for its children.
pub record Head : Type 0 where
  pub label : String
  pub value : Option String
  pub type_name : Option String
  pub reference : ℤ
  pub expanded : Bool
  pub loaded : Bool
  pub pending : Bool

mutual
  pub data Node : Type 0 where
    node : Head → Nodes → Node

  pub data Nodes : Type 0 where
    nil : Nodes
    cons : Node → Nodes → Nodes

abbrev pub NodePath : Type 0
NodePath = List ℕ

abbrev pub head : Node → Head
head (node h children) = h

abbrev pub children_of : Node → Nodes
children_of (node h children) = children

unfoldable pub scope : Scope → Node
scope s =
    node
      (record {
        label = s.name;
        value = none;
        type_name = none;
        reference = s.variables_reference;
        expanded = false;
        loaded = false;
        pending = false;
      })
      nil

unfoldable pub variable : Variable → Node
variable v =
    node
      (record {
        label = v.name;
        value = some v.value;
        type_name = v.type_name;
        reference = v.variables_reference;
        expanded = false;
        loaded = false;
        pending = false;
      })
      nil

-- `iter().map(..).collect()`
unfoldable pub nodes {ℓ} : {A : Type ℓ} → (A → Node) → List A → Nodes
nodes f [] = nil
nodes f (x ∷ xs) = cons (f x) (nodes f xs)

abbrev pub is_zero : ℤ → Bool
is_zero (pos zero) = true
is_zero _ = false

unfoldable pub expandable : Head → Bool
expandable h = not (is_zero h.reference)

abbrev prefixed : String → Option String → String
prefixed separator none = ""
prefixed separator (some s) = separator ++ s

unfoldable pub text : Head → String
text h = (h.label ++ prefixed " = " h.value) ++ prefixed " : " h.type_name

pub data Marker : Type 0 where
  leaf pending expanded collapsed : Marker

unfoldable pub marker : Head → Marker
unfolding expandable
marker h =
    if expandable h
    then if h.pending then Marker.pending else if h.expanded then Marker.expanded else collapsed
    else leaf

pub record Row : Type 0 where
  pub path : NodePath
  pub depth : ℕ
  pub marker : Marker
  pub text : String

-- `Vec::push` of an index, and `get`
abbrev pub extended : NodePath → ℕ → NodePath
extended [] i = i ∷ []
extended (j ∷ path) i = j ∷ extended path i

abbrev pub get : Nodes → ℕ → Option Node
get nil i = none
get (cons n ns) zero = some n
get (cons n ns) (suc i) = get ns i

-- The row of a node at a path.
unfoldable pub row : NodePath → Head → Row
unfolding marker text
row path h = record { path = path; depth = length path - 1; marker = marker h; text = text h }

-- `collect`, from an index on: `path` leads to the parent of the nodes.
unfoldable mutual
  unfolding row

  pub collect : Nodes → ℕ → NodePath → List Row
  collect nil i path = []
  collect (cons n ns) i path = P.◌++◌ (collect_node n (extended path i)) (collect ns (suc i) path)

  pub collect_node : Node → NodePath → List Row
  collect_node (node h children) path =
      let below = collect children 0 path in row path h ∷ (if h.expanded then below else [])

pub record ScopesView : Type 0 where
  pub nodes : Nodes
  pub rows : List Row
  pub selected : ℕ
  pub stale : Bool
  pub generation : ℕ
  pub viewport_height : ℕ
  pub top : ℕ

-- `ScopesView::default()`
abbrev pub empty_view : ScopesView
empty_view = record {
  nodes = nil;
  rows = [];
  selected = 0;
  stale = false;
  generation = 0;
  viewport_height = 0;
  top = 0;
}

unfoldable pub rebuild : ScopesView → ScopesView
unfolding collect
rebuild v = record v { rows = collect v.nodes 0 [] }

unfoldable pub replace : List Scope → ℕ → ScopesView → ScopesView
unfolding rebuild nodes scope
replace scopes generation v = rebuild (record v {
  nodes = nodes scope scopes;
  selected = 0;
  top = 0;
  stale = false;
  generation = generation;
})

unfoldable pub invalidate : ScopesView → ScopesView
invalidate v = record v { stale = true }

unfoldable pub is_actionable : ScopesView → Bool
is_actionable v = not v.stale

unfoldable pub clear : ScopesView → ScopesView
unfolding replace
clear v = replace [] v.generation v

abbrev pub smaller : ℕ → ℕ → ℕ
smaller a b = if ltb b a then b else a

unfoldable pub selected_index : ScopesView → ℕ
selected_index v = smaller v.selected (length v.rows - 1)

unfoldable pub selected_path : ScopesView → Option NodePath
unfolding selected_index
selected_path v = elim (first (drop (selected_index v) v.rows)) [
  | none ↦ none
  | some r ↦ some r.path
]

unfoldable pub scroll_to_selection : ScopesView → ScopesView
unfolding scroll selected_index
scroll_to_selection v = record v { top = scroll (selected_index v) v.top v.viewport_height }

unfoldable pub move_selection : ℤ → ScopesView → ScopesView
unfolding moved_by scroll_to_selection
move_selection delta v =
    let count = length v.rows in
    if count == 0
    then v
    else scroll_to_selection
        (record v { selected = moved_by (smaller v.selected (count - 1)) delta 0 (count - 1) })

-- `node_at`: a path's first index, and the indices below it.
unfoldable pub node_below : Node → NodePath → Option Node
node_below n [] = some n
node_below n (i ∷ path) = elim (get (children_of n) i) [ none ↦ none | some m ↦ node_below m path ]

unfoldable pub node_at : Nodes → NodePath → Option Node
unfolding node_below
node_at ns [] = none
node_at ns (i ∷ path) = elim (get ns i) [ none ↦ none | some n ↦ node_below n path ]

-- What `node_at_mut` leads to, changed; the tree as it was where the path leads nowhere.
unfoldable mutual
  pub change_at : (Node → Node) → Nodes → NodePath → Nodes
  change_at f ns [] = ns
  change_at f nil (i ∷ path) = nil
  change_at f (cons n ns) (zero ∷ path) = cons (change_below f n path) ns
  change_at f (cons n ns) (suc i ∷ path) = cons n (change_at f ns (i ∷ path))

  pub change_below : (Node → Node) → Node → NodePath → Node
  change_below f (node h children) [] = f (node h children)
  change_below f (node h children) (i ∷ path) = node h (change_at f children (i ∷ path))

-- A change of the node at a path and the rows anew, or nothing where the path leads nowhere; and
-- whether it leads somewhere.
unfoldable pub change : (Node → Node) → NodePath → ScopesView → Bool × ScopesView
unfolding node_at change_at rebuild
change f path v = elim (node_at v.nodes path) [
  | none ↦ (false, v)
  | some n ↦ (true, rebuild (record v { nodes = change_at f v.nodes path }))
]

abbrev pub with_expanded : Bool → Node → Node
with_expanded on (node h children) = node (record h { expanded = on }) children

unfoldable pub set_expanded : NodePath → Bool → ScopesView → ScopesView
unfolding change
set_expanded path on v = (change (with_expanded on) path v).1

abbrev pub with_pending : Bool → Node → Node
with_pending on (node h children) = node (record h { pending = on }) children

unfoldable pub mark_pending : NodePath → ScopesView → ScopesView
unfolding change
mark_pending path v = (change (with_pending true) path v).1

unfoldable pub abandon_pending : NodePath → ScopesView → ScopesView
unfolding change
abandon_pending path v = (change (with_pending false) path v).1

abbrev pub loaded_with : Nodes → Node → Node
loaded_with found (node h children) =
    node (record h { loaded = true; pending = false; expanded = true }) found

unfoldable pub populate : NodePath → List Variable → ScopesView → Bool × ScopesView
unfolding change nodes variable
populate path variables v = change (loaded_with (nodes variable variables)) path v

-- The references of the nodes on the way to the node below, from the first of them on, without its
-- own.
unfoldable pub references_above : Node → NodePath → List ℤ
references_above n [] = []
references_above n (i ∷ path) = elim (get (children_of n) i) [
  | none ↦ (head n).reference ∷ []
  | some m ↦ (head n).reference ∷ references_above m path
]

-- `ancestor_references`: a path's strict prefixes, where they lead to a node.
unfoldable pub ancestor_references : NodePath → ScopesView → List ℤ
unfolding references_above
ancestor_references [] v = []
ancestor_references (i ∷ path) v = elim (get v.nodes i) [
  | none ↦ []
  | some n ↦ references_above n path
]

-- The drawing at a height: the pane after it, and the rows that are drawn.
unfoldable pub render : ℕ → ScopesView → List Row × ScopesView
unfolding scroll_to_selection
render height v =
    let w = scroll_to_selection (record v { viewport_height = height }) in
    (take height (drop w.top w.rows), w)

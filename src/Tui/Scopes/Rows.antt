-- ===== src/Tui/Scopes/Rows.antt =====
-- The rows of the tree and the nodes that their paths lead to, and what a change of a node does.
use lazydap.Prelude.{
  arith, ℕ, suc, ◌+◌, ◌≡◌, refl, subst, if◌then◌else◌, sym, ap, ◌∙◌, ℤ, Option, none, some, Bool,
  true, false, List, [], ◌∷◌, All, All-append, Option-cases, inl, inr,
}
use lazydap.Core.Inspect.{Scope, Variable}
use lazydap.Tui.Scopes.{
  Head, Node, node, Nodes, nil, cons, NodePath, head, children_of, Row, row, extended, get, collect,
  collect_node, ScopesView, empty_view, rebuild, replace, invalidate, clear, scroll_to_selection,
  move_selection, node_below, node_at, change, set_expanded, mark_pending, abandon_pending,
  populate, render,
}

abbrev child : ℕ → Option Node → Option Node
child i none = none
child i (some n) = get (children_of n) i

node_below-nil : (n : Node) (i : ℕ) → node_below n (i ∷ []) ≡ get (children_of n) i
unfolding node_below
node_below-nil n i = ground arith

node_below-extended :
    (n : Node) (path : NodePath) (i : ℕ)
    → node_below n (extended path i) ≡ child i (node_below n path)
unfolding node_below
node_below-extended n [] i = node_below-nil n i
node_below-extended n (j ∷ path) i = elim (Option-cases (get (children_of n) j)) [
  | inl e ↦ rw (e, node_below) refl
  | inr (m, e) ↦ rw (e, node_below) (node_below-extended m path i)
]

node_at-extended :
    (ns : Nodes) (j : ℕ) (path : NodePath) (i : ℕ)
    → node_at ns (extended (j ∷ path) i) ≡ child i (node_at ns (j ∷ path))
unfolding node_at
node_at-extended ns j path i = elim (Option-cases (get ns j)) [
  | inl e ↦ rw (e, node_at) refl
  | inr (m, e) ↦ rw (e, node_at) (node_below-extended m path i)
]

zero-plus : (k : ℕ) → 0 + k ≡ k
zero-plus k = omega arith

node_at-one : (ns : Nodes) (i : ℕ) → node_at ns (i ∷ []) ≡ get ns i
unfolding node_at node_below
node_at-one ns i = ground arith

-- A row that shows the node that its path leads to.
abbrev pub Shows : Nodes → Row → Type 0
Shows root r = (n : Node) × (node_at root r.path ≡ some n) × (r ≡ row r.path (head n))

-- Where a path leads to a list of nodes, from an index of it on.
abbrev Leads : Nodes → NodePath → ℕ → Nodes → Type 0
Leads root path i ns = (k : ℕ) → node_at root (extended path (i + k)) ≡ get ns k

Leads-cons :
    (root : Nodes) (path : NodePath) (i : ℕ) (n : Node) (ns : Nodes)
    → Leads root path i (cons n ns)
    → (node_at root (extended path i) ≡ some n) × Leads root path (suc i) ns
Leads-cons root path i n ns h = (
  (let e : i ≡ i + 0 = omega arith in ap (λ j. node_at root (extended path j)) e ∙ h 0),
  λ k.
      let e : suc i + k ≡ i + suc k = omega arith in
      ap (λ j. node_at root (extended path j)) e ∙ h (suc k),
)

-- The children of the node that a path leads to.
Leads-children :
    (root : Nodes) (path : NodePath) (i : ℕ) (h : Head) (children : Nodes)
    → node_at root (extended path i) ≡ some (node h children)
    → Leads root (extended path i) 0 children
Leads-children root [] i h children e = λ k.
    node_at-extended root i [] (0 + k) ∙ (ap (child (0 + k)) e ∙ ap (get children) (zero-plus k))
Leads-children root (j ∷ path) i h children e = λ k.
    node_at-extended root j (extended path i) (0 + k)
    ∙ (ap (child (0 + k)) e ∙ ap (get children) (zero-plus k))

if-All :
    (root : Nodes) (b : Bool) (rows : List Row)
    → All (Shows root) rows
    → All (Shows root) (if b then rows else [])
if-All root true rows h = h
if-All root false rows h = tt

mutual
  unfolding collect collect_node

  collect-Shows :
      (root ns : Nodes) (i : ℕ) (path : NodePath)
      → Leads root path i ns
      → All (Shows root) (collect ns i path)
  collect-Shows root nil i path h = tt
  collect-Shows root (cons n ns) i path h =
      let (here, later) = Leads-cons root path i n ns h in
      All-append (Shows root) (collect_node n (extended path i)) (collect ns (suc i) path)
        (collect_node-Shows root n path i here) (collect-Shows root ns (suc i) path later)

  collect_node-Shows :
      (root : Nodes) (n : Node) (path : NodePath) (i : ℕ)
      → node_at root (extended path i) ≡ some n
      → All (Shows root) (collect_node n (extended path i))
  collect_node-Shows root (node h children) path i e = (
    (node h children, e, refl),
    if-All root h.expanded (collect children 0 (extended path i))
        (collect-Shows root children 0 (extended path i) (Leads-children root path i h children e)),
  )

all_rows-Shows : (ns : Nodes) → All (Shows ns) (collect ns 0 [])
all_rows-Shows ns =
    collect-Shows ns ns 0 [] (λ k. node_at-one ns (0 + k) ∙ ap (get ns) (zero-plus k))

-- What the interface does to the tree.
pub data Operation : Type 0 where
  replaced : List Scope → ℕ → Operation
  invalidated cleared : Operation
  moved : ℤ → Operation
  unfolded : NodePath → Bool → Operation
  asked abandoned : NodePath → Operation
  arrived : NodePath → List Variable → Operation
  drawn : ℕ → Operation

unfoldable pub operate : Operation → ScopesView → ScopesView
unfolding replace invalidate clear move_selection set_expanded mark_pending abandon_pending populate
    render
operate (replaced scopes generation) v = replace scopes generation v
operate invalidated v = invalidate v
operate cleared v = clear v
operate (moved delta) v = move_selection delta v
operate (unfolded path on) v = set_expanded path on v
operate (asked path) v = mark_pending path v
operate (abandoned path) v = abandon_pending path v
operate (arrived path variables) v = (populate path variables v).1
operate (drawn height) v = (render height v).1

unfoldable pub operate_all : List Operation → ScopesView → ScopesView
unfolding operate
operate_all [] v = v
operate_all (op ∷ ops) v = operate_all ops (operate op v)

-- The rows are those of the tree.
abbrev pub IsBuilt : ScopesView → Type 0
IsBuilt v = v.rows ≡ collect v.nodes 0 []

change-IsBuilt :
    (f : Node → Node) (path : NodePath) (v : ScopesView) → IsBuilt v → IsBuilt (change f path v).1
unfolding change rebuild
change-IsBuilt f path v h = elim (Option-cases (node_at v.nodes path)) [
  | inl e ↦ rw (e, change) h
  | inr (n, e) ↦ rw (e, change) refl
]

operate-IsBuilt : (op : Operation) (v : ScopesView) → IsBuilt v → IsBuilt (operate op v)
unfolding operate replace rebuild invalidate clear move_selection scroll_to_selection set_expanded
    mark_pending abandon_pending populate render
operate-IsBuilt (replaced scopes generation) v h = refl
operate-IsBuilt invalidated v h = h
operate-IsBuilt cleared v h = refl
operate-IsBuilt (moved delta) v h = ground (arith, h)
operate-IsBuilt (unfolded path on) v h = change-IsBuilt _ path v h
operate-IsBuilt (asked path) v h = change-IsBuilt _ path v h
operate-IsBuilt (abandoned path) v h = change-IsBuilt _ path v h
operate-IsBuilt (arrived path variables) v h = change-IsBuilt _ path v h
operate-IsBuilt (drawn height) v h = h

IsBuilt-through : (ops : List Operation) (v : ScopesView) → IsBuilt v → IsBuilt (operate_all ops v)
unfolding operate_all
IsBuilt-through [] v h = h
IsBuilt-through (op ∷ ops) v h = IsBuilt-through ops (operate op v) (operate-IsBuilt op v h)

-- Whatever was done to the tree, each of its rows shows the node that the row's path leads to: its
-- marker and its text.
pub operate_all-Shows :
    (ops : List Operation) → let v = operate_all ops empty_view in All (Shows v.nodes) v.rows
unfolding collect
operate_all-Shows ops =
    let v = operate_all ops empty_view in
    subst (All (Shows v.nodes)) (sym (IsBuilt-through ops empty_view refl)) (all_rows-Shows v.nodes)

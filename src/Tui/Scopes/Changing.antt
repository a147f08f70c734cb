-- ===== src/Tui/Scopes/Changing.antt =====
-- What a change of a node does to the tree: to the node itself and to the others.
use lazydap.Prelude.{
  ℕ, zero, suc, ◌≡◌, ◌≢◌, refl, sym, ap, Option, none, some, true, false, List, [], ◌∷◌,
  Option-cases, inl, inr, ◌⊎◌,
}
use lazydap.Core.Inspect.{Variable}
use lazydap.Tui.Scopes.{
  Head, Node, node, Nodes, nil, cons, NodePath, nodes, variable, get, ScopesView, rebuild,
  node_below, node_at, change_at, change_below, change, populate, loaded_with,
}

-- Two paths that part before either ends.
abbrev pub Apart : NodePath → NodePath → Type 0
Apart [] q = ⊥
Apart (i ∷ p) [] = ⊥
Apart (i ∷ p) (j ∷ q) = (i ≢ j) ⊎ ((i ≡ j) × Apart p q)

-- What an index and a path below it lead to.
abbrev below : Option Node → NodePath → Option Node
unfolding node_below
below o path = elim o [ none ↦ none | some n ↦ node_below n path ]

below-some :
    (o : Option Node) (path : NodePath) (m : Node)
    → below o path ≡ some m
    → (n : Node) × (o ≡ some n) × (node_below n path ≡ some m)
unfolding below
below-some none path m e = absurd (cc e)
below-some (some n) path m e = (n, refl, e)

module _ (f : Node → Node) where
  get-change_at :
      (ns : Nodes) (i : ℕ) (path : NodePath) (n : Node)
      → get ns i ≡ some n
      → get (change_at f ns (i ∷ path)) i ≡ some (change_below f n path)
  unfolding change_at
  get-change_at nil i path n e = absurd (cc e)
  get-change_at (cons m ns) zero path n e = cc
  get-change_at (cons m ns) (suc i) path n e = get-change_at ns i path n e

  node_below-change_below :
      (n m : Node) (path : NodePath)
      → node_below n path ≡ some m
      → node_below (change_below f n path) path ≡ some (f m)
  unfolding node_below change_below below
  node_below-change_below (node h children) m [] e = cc
  node_below-change_below (node h children) m (i ∷ path) e =
      let (c, got, deeper) = below-some (get children i) path m e in
      rw (get-change_at children i path c got) (node_below-change_below c m path deeper)

  -- The node that a path leads to is changed.
  node_at-change_at :
      (ns : Nodes) (path : NodePath) (n : Node)
      → node_at ns path ≡ some n
      → node_at (change_at f ns path) path ≡ some (f n)
  unfolding node_at below
  node_at-change_at ns [] n e = absurd (cc e)
  node_at-change_at ns (i ∷ path) n e =
      let (c, got, deeper) = below-some (get ns i) path n e in
      rw (get-change_at ns i path c got, node_at) (node_below-change_below c n path deeper)

  get-change_at_other :
      (ns : Nodes) (i j : ℕ) (path : NodePath)
      → i ≢ j
      → get (change_at f ns (i ∷ path)) j ≡ get ns j
  unfolding change_at
  get-change_at_other nil i j path h = refl
  get-change_at_other (cons n ns) zero zero path h = absurd (h refl)
  get-change_at_other (cons n ns) zero (suc j) path h = refl
  get-change_at_other (cons n ns) (suc i) zero path h = refl
  get-change_at_other (cons n ns) (suc i) (suc j) path h =
      get-change_at_other ns i j path (λ e. h (ap suc e))

  get-change_at_same :
      (ns : Nodes) (i : ℕ) (path : NodePath)
      → get ns i ≡ none
      → get (change_at f ns (i ∷ path)) i ≡ none
  unfolding change_at
  get-change_at_same nil i path e = refl
  get-change_at_same (cons n ns) zero path e = absurd (cc e)
  get-change_at_same (cons n ns) (suc i) path e = get-change_at_same ns i path e

  below-same :
      (ns : Nodes) (i j : ℕ) (p q : NodePath)
      → i ≡ j
      → ((n : Node) → node_below (change_below f n p) q ≡ node_below n q)
      → below (get (change_at f ns (i ∷ p)) j) q ≡ below (get ns j) q
  unfolding below
  below-same ns i j p q same deeper = elim (Option-cases (get ns i)) [
    | inl e ↦ rw (sym same, get-change_at_same ns i p e, e) refl
    | inr (n, e) ↦ rw (sym same, get-change_at ns i p n e, e) (deeper n)
  ]

  node_below-elsewhere :
      (n : Node) (p q : NodePath) → Apart p q → node_below (change_below f n p) q ≡ node_below n q
  unfolding node_below change_below below
  node_below-elsewhere n [] q h = absurd h
  node_below-elsewhere n (i ∷ p) [] h = absurd h
  node_below-elsewhere (node h children) (i ∷ p) (j ∷ q) (inl differ) =
      rw (get-change_at_other children i j p differ) refl
  node_below-elsewhere (node h children) (i ∷ p) (j ∷ q) (inr (same, apart)) =
      below-same children i j p q same (λ n. node_below-elsewhere n p q apart)

  -- What another path leads to stays.
  node_at-elsewhere :
      (ns : Nodes) (p q : NodePath) → Apart p q → node_at (change_at f ns p) q ≡ node_at ns q
  unfolding node_at below
  node_at-elsewhere ns [] q h = absurd h
  node_at-elsewhere ns (i ∷ p) [] h = absurd h
  node_at-elsewhere ns (i ∷ p) (j ∷ q) (inl differ) =
      rw (get-change_at_other ns i j p differ, node_at) refl
  node_at-elsewhere ns (i ∷ p) (j ∷ q) (inr (same, apart)) =
      below-same ns i j p q same (λ n. node_below-elsewhere n p q apart)

-- The variables that arrive for a node are its children from then on, shown and no longer asked for,
-- and what any path that parts from the node's leads to stays as it was.
pub populate-node_at :
    (path other : NodePath) (variables : List Variable) (v : ScopesView) (h : Head)
    (children : Nodes)
    → node_at v.nodes path ≡ some (node h children)
    → Apart path other
    → let (found, w) = populate path variables v in
      (found ≡ true)
      × (node_at w.nodes path
          ≡ some (
              node
                (record h { loaded = true; pending = false; expanded = true })
                (nodes variable variables)))
      × (node_at w.nodes other ≡ node_at v.nodes other)
unfolding populate change rebuild
populate-node_at path other variables v h children e apart =
    let f = loaded_with (nodes variable variables) in
    let changed = node_at-change_at f v.nodes path (node h children) e in
    let elsewhere = node_at-elsewhere f v.nodes path other apart in
    (rw (e, change) refl, rw (e, change) changed, rw (e, change) elsewhere)

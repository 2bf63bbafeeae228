-- ===== src/Graph/Topological/Acyclic.antt =====
-- internal/graph/graph.go, `TopologicalOrder`: when it succeeds.
use buildforge.Prelude.{
  ℕ, suc, ◌≡◌, ◌<◌, sym, Str, str_eq, List, [], ◌∷◌, ◌++◌, if◌then◌else◌, count-append, arith, inl,
  inr, In, ◌⊎◌, ◌↔◌, ok, Str-cases, subst,
}
use buildforge.Graph.{Graph, IsWellFormed}
use buildforge.Graph.Order.{IsOrdered, IsTopologicalOrder, IsPath, IsCycle}
use buildforge.Graph.Topological.{topological_order}
use buildforge.Graph.Topological.Correct.{topological_order-Sorts}

-- The place of `q` in the list, from the front.
abbrev index : Str → List Str → ℕ
index q [] = 0
index q (x ∷ l) = if str_eq x q then 0 else suc (index q l)

index-lt :
    (deps : Str → List Str) (x d : Str) (seen l : List Str)
    → IsOrdered deps seen l
    → In x l
    → In d (deps x)
    → In d seen ⊎ (index d l < index x l)
index-lt deps x d seen [] o i e = absurd (omega arith)
index-lt deps x d seen (y ∷ l) o i e = elim (Str-cases y x) [
  | inl same ↦ inl (o.0 d (subst (λ z. In d (deps z)) (sym same) e))
  | inr (other, f) ↦
      ground (arith, index-lt deps x d (seen ++ y ∷ []) l o.1, count-append d seen (y ∷ []))
]

path-lt :
    (deps : Str → List Str) (l : List Str)
    → IsOrdered deps [] l
    → ((x d : Str) → In d (deps x) → In x l)
    → (x y : Str) (middle : List Str) → IsPath deps (x ∷ middle ++ y ∷ [])
    → index y l < index x l
path-lt deps l o named x y [] p = ground (arith, index-lt deps x y [] l o (named x y p.0) p.0)
path-lt deps l o named x y (m ∷ middle) p =
    ground
      (arith, index-lt deps x m [] l o (named x m p.0) p.0, path-lt deps l o named m y middle p.1)

no-IsCycle :
    (g : Graph) (order c : List Str)
    → IsWellFormed g
    → IsTopologicalOrder g.deps g.names order
    → ¬ IsCycle g.deps c
no-IsCycle g order c w t cycle =
    let lt : index cycle.start order < index cycle.start order =
      path-lt g.deps order t.ordered (λ x d i. omega (arith, t.complete x, w.sources x d i))
        cycle.start cycle.start cycle.middle (subst (IsPath g.deps) cycle.closed cycle.path) in
    omega arith

-- `TopologicalOrder` succeeds on a well-formed graph if and only if the graph has no cycle.
pub topological_order-ok_iff :
    (g : Graph)
    → IsWellFormed g
    → ((order : List Str) × (topological_order g ≡ ok order))
      ↔ ((c : List Str) → ¬ IsCycle g.deps c)
topological_order-ok_iff g w = elim (topological_order-Sorts g w) [
  | inl (order, e, t) ↦ ((λ _ c. no-IsCycle g order c w t), λ _. (order, e))
  | inr (c, e, cycle) ↦ ((λ (order, e'). cc), λ none. absurd (none c cycle))
]

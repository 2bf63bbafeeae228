-- ===== src/Graph/Topological/Correct.antt =====
-- internal/graph/graph.go, `TopologicalOrder`: what it returns.
use buildforge.Prelude.{
  ℕ, zero, suc, ◌+◌, ◌≡◌, ◌≤◌, ◌≢◌, sym, subst, ap, ◌∙◌, Str, List, [], ◌∷◌, ◌++◌, length, ◌==◌,
  count, count-append, arith, inl, inr, In, ◌⊎◌, List-cases, Bool-cases, some, Result, ok, err,
  length-le_of_count, SameItems-length, SameItems, length-append,
}
use buildforge.Graph.{Graph, IsWellFormed}
use buildforge.Graph.Order.{IsTopologicalOrder, IsCycle}
use buildforge.Graph.FindCycle.Finds.{find_cycle_finds, Live}
use buildforge.Graph.Topological.{
  Kahn, TopologicalError, cycle_error, emit, kahn_loop, start, finish, topological_order,
}
use buildforge.Graph.Topological.Release.{missing, missing-cases, In-missing}
use buildforge.Graph.Topological.Invariant.{Invariant, start-Invariant, emit-Invariant}

-- The two ways for `TopologicalOrder` to end: an order of the graph, or a cycle in it.
abbrev pub Sorts : Graph → Result TopologicalError (List Str) → Type 0
Sorts g r =
    ((order : List Str) × (r ≡ ok order) × IsTopologicalOrder g.deps g.names order)
    ⊎ ((c : List Str) × (r ≡ err (cycle_error c)) × IsCycle g.deps c)

module _ (g : Graph) (w : IsWellFormed g) where
  room : (s : Kahn) → Invariant g s → length s.ready + length s.order ≤ length g.names
  room s v = omega (
    arith,
    length-append s.ready s.order,
    length-le_of_count (s.ready ++ s.order) g.names
        (λ q. omega (arith, count-append q s.ready s.order, v.placed_once q)),
  )

  kahn_loop-ends :
      (fuel : ℕ) (s : Kahn)
      → Invariant g s
      → length g.names ≤ fuel + length s.order
      → (t : Kahn) × (kahn_loop g fuel s ≡ some t) × Invariant g t × (t.ready ≡ [])
  unfolding kahn_loop
  kahn_loop-ends zero s v enough = elim (List-cases s.ready) [
    | inl e ↦ (s, simp (e, kahn_loop), v, e)
    | inr (n, rest, e) ↦ absurd (omega (arith, room s v, ap length e))
  ]
  kahn_loop-ends (suc fuel) s v enough = elim (List-cases s.ready) [
    | inl e ↦ (s, simp (e, kahn_loop), v, e)
    | inr (n, rest, e) ↦
        let (t, ends, v', empty) =
          kahn_loop-ends fuel (emit g s n rest) (emit-Invariant g w s v n rest e)
            (unfold emit in omega (arith, length-append s.order (n ∷ []))) in
        (t, simp (e, kahn_loop) ends, v', empty)
  ]

  module _ (t : Kahn) (v : Invariant g t) (empty : t.ready ≡ []) where
    none_ready : (q : Str) → count q t.ready ≡ 0
    none_ready q = ap (count q) empty

    -- What is left over depends on something that is left over.
    next_left :
        (q : Str) → Live g t.remaining q → (d : Str) × In d (g.deps q) × Live g t.remaining d
    next_left q l =
        let (d, i, out) = missing-cases t.order (g.deps q) (ground (arith, v.counters q)) in
        (d, i, ground (arith, v.counters d, v.free_placed d, none_ready d, w.targets q d))

    left_named : (q : Str) → Live g t.remaining q → In q g.names
    left_named q l = let (d, i, _) = next_left q l in w.sources q d i

    complete : missing t.order g.names ≡ 0 → SameItems t.order g.names
    complete all q = elim (Bool-cases (count q g.names == 0)) [
      | inl outside ↦ ground (arith, v.placed_once q)
      | inr inside ↦ ground (arith, v.placed_once q, w.distinct q, In-missing t.order q g.names all)
    ]

    some_left : length t.order ≢ length g.names → (q : Str) × In q g.names × (count q t.order ≡ 0)
    some_left short = elim (Bool-cases (missing t.order g.names == 0)) [
      | inl all ↦
          let same = complete (ground arith) in
          absurd (
            short (
              omega (
                arith,
                length-le_of_count t.order g.names (λ q. omega (arith, same q)),
                length-le_of_count g.names t.order (λ q. omega (arith, same q)),
              )))
      | inr part ↦ missing-cases t.order g.names (ground arith)
    ]

    finish-Sorts : Sorts g (finish g t)
    unfolding finish
    finish-Sorts = elim (Bool-cases (length t.order == length g.names)) [
      | inl full ↦ inl (
        t.order,
        rw full,
        record {
          complete =
              SameItems-length t.order g.names (λ q. omega (arith, v.placed_once q)) (ground arith);
          ordered = v.ordered;
        },
      )
      | inr stalled ↦
          let (q, i, out) = some_left (ground arith) in
          let (c, found, cycle) =
            find_cycle_finds g t.remaining left_named next_left q i
              (ground (arith, v.counters q, v.free_placed q, none_ready q)) in
          inr (c, rw (stalled, found), cycle)
    ]

-- On a well-formed graph `TopologicalOrder` returns an order that lists every action once and after
-- all of its dependencies, or the error with a cycle that is one of the graph: a path along
-- dependencies from an action back to itself. The fuel never runs out.
pub topological_order-Sorts : (g : Graph) → IsWellFormed g → Sorts g (topological_order g)
unfolding topological_order
topological_order-Sorts g w =
    let (t, ends, v, empty) =
      kahn_loop-ends g w (length g.names) (start g) (start-Invariant g w) (omega arith) in
    rw (ends, topological_order) (finish-Sorts g w t v empty)

ok-injective :
    (xs ys : List Str) → ◌≡◌ {A = Result TopologicalError (List Str)} (ok xs) (ok ys) → xs ≡ ys
ok-injective xs ys e = cc

-- An order that is returned is one of the graph.
pub topological_order-IsTopologicalOrder :
    (g : Graph) (order : List Str)
    → IsWellFormed g
    → topological_order g ≡ ok order
    → IsTopologicalOrder g.deps g.names order
topological_order-IsTopologicalOrder g order w e = elim (topological_order-Sorts g w) [
  | inl (order', e', t) ↦
      subst (IsTopologicalOrder g.deps g.names) (ok-injective order' order (sym e' ∙ e)) t
  | inr (c, e', _) ↦ cc
]

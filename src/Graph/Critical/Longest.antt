-- ===== src/Graph/Critical/Longest.antt =====
-- internal/graph/critical.go, `CriticalPath`: the path that it reports, against all chains.
use buildforge.Prelude.{
  ℕ, ◌≡◌, ◌≤◌, refl, sym, ap, ◌∙◌, subst, Str, str_eq_refl, List, [], ◌∷◌, count, count-sort, In,
  length, sort_strings, inl, inr, arith, Option, some, ok,
}
use mathlib.Core.List.{reverse}
use buildforge.Graph.{Graph, IsWellFormed}
use buildforge.Graph.Order.{IsPath, IsTopologicalOrder}
use buildforge.Graph.Topological.{topological_order}
use buildforge.Graph.Topological.Correct.{topological_order-IsTopologicalOrder}
use buildforge.Graph.Critical.{Chains, choose, extend_all, no_chains, report, critical_path}
use buildforge.Graph.Critical.Chosen.{Chosen, choose-Chosen}
use buildforge.Graph.Critical.Invariant.{Invariant, extend_all-Invariant}
use buildforge.Graph.Critical.Walks.{weight, chain-le-finish, walk-Walked, named_other}

module _ (g : Graph) (dur : Str → ℕ) (order : List Str) (w : IsWellFormed g)
    (named : count [] g.names ≡ 0) (e : topological_order g ≡ ok order) where
  t : IsTopologicalOrder g.deps g.names order
  t = topological_order-IsTopologicalOrder g order w e

  chains : Chains
  chains = extend_all g dur order no_chains

  chains-Invariant : Invariant g dur order chains
  unfolding chains
  chains-Invariant =
      extend_all-Invariant g dur [] order no_chains
        (record {
          known = λ q i. absurd (omega arith);
          unknown = λ q z. (refl, refl);
          shallow = λ q. omega arith;
        })
        t.ordered (λ q. omega (arith, t.complete q, w.distinct q))
        (λ q. ground (arith, w.targets q []))

  last : ℕ × Str
  unfolding chains
  last = choose chains (sort_strings order) (0, [])

  last-Chosen : Chosen chains (sort_strings order) (0, []) last
  unfolding last
  last-Chosen =
      choose-Chosen chains (sort_strings order) (0, [])
        (omega (arith, count-sort [] order, t.complete [])) (λ _. refl)

  -- What `CriticalPath` returns.
  record Reports (r : Option (List Str × ℕ)) : Type 0 where
    down : List Str
    returned : r ≡ some (reverse down, last.0)
    inside : (x : Str) → In x down → In x g.names
    chain : IsPath g.deps down
    weighs : weight dur down ≡ last.0

  critical_path-report : critical_path g dur ≡ report (length order) chains.pred last
  unfolding critical_path last chains
  critical_path-report = rw (e, critical_path) refl

  critical_path-Reports : Reports (critical_path g dur)
  unfolding report
  critical_path-Reports = elim last-Chosen.origin [
    | inl none_left ↦ record {
      down = [];
      returned =
          critical_path-report
          ∙ subst (λ (r : ℕ × Str). report (length order) chains.pred r ≡ some ([], r.0))
              (sym none_left) (rw (str_eq_refl, report) refl);
      inside = λ x i. absurd (omega arith);
      chain = tt;
      weighs = ap (λ r. r.0) (sym none_left);
    }
    | inr (i, f) ↦
        let there : In last.1 order = omega (arith, count-sort last.1 order, i) in
        let v =
          walk-Walked g dur chains order chains-Invariant (omega (arith, t.complete []))
            (length order) last.1 (chains-Invariant.shallow last.1) there in
        let other = named_other last.1 order (omega (arith, t.complete [])) there in
        record {
          down = last.1 ∷ v.earlier;
          returned = critical_path-report ∙ rw (other, v.returned, report) refl;
          inside = λ x j. omega (arith, v.inside x j, t.complete x);
          chain = v.chain;
          weighs = v.weighs ∙ sym f;
        }
  ]

  chain-le-last :
      (x : Str) (r : List Str) → In x g.names → IsPath g.deps (x ∷ r) → weight dur (x ∷ r) ≤ last.0
  chain-le-last x r i p =
      let there : In x order = omega (arith, t.complete x) in
      omega (
        arith,
        chain-le-finish g dur chains order chains-Invariant x r there p,
        last-Chosen.latest x (omega (arith, count-sort x order)),
      )

-- On a well-formed graph that has an order and no action with an empty name, `CriticalPath` returns
-- a chain of actions of the graph, each after one that it depends on, with the time that the actions
-- of the chain take together. The walk back always ends.
pub critical_path-IsPath :
    (g : Graph) (dur : Str → ℕ) (order : List Str)
    → IsWellFormed g
    → count [] g.names ≡ 0
    → topological_order g ≡ ok order
    → (down : List Str) × (critical_path g dur ≡ some (reverse down, weight dur down))
      × IsPath g.deps down
      × ((x : Str) → In x down → In x g.names)
critical_path-IsPath g dur order w named e =
    let r = critical_path-Reports g dur order w named e in
    (
      r.down,
      subst (λ n. critical_path g dur ≡ some (reverse r.down, n)) (sym r.weighs) r.returned,
      r.chain,
      r.inside,
    )

-- No chain of dependent actions takes longer than the time that `CriticalPath` returns, on a
-- well-formed graph that has an order and no action with an empty name.
pub critical_path-longest :
    (g : Graph) (dur : Str → ℕ) (order path : List Str) (len : ℕ) (x : Str) (r : List Str)
    → IsWellFormed g
    → count [] g.names ≡ 0
    → topological_order g ≡ ok order
    → critical_path g dur ≡ some (path, len)
    → In x g.names
    → IsPath g.deps (x ∷ r)
    → weight dur (x ∷ r) ≤ len
critical_path-longest g dur order path len x r w named e returned i p =
    let t = critical_path-Reports g dur order w named e in
    let same : (last g dur order w named e).0 ≡ len = cc (returned, t.returned) in
    omega (arith, chain-le-last g dur order w named e x r i p, same)

-- ===== src/Graph/Critical/Walks.antt =====
-- internal/graph/critical.go, `CriticalPath`: chains of dependent actions, and the walk back.
use buildforge.Prelude.{
  ℕ, zero, suc, ◌+◌, ◌≡◌, ◌≤◌, refl, sym, subst, Str, str_eq, Str-cases, false, List, [], ◌∷◌,
  count, In, inl, inr, arith, Option, some, str_eq_refl,
}
use buildforge.Graph.{Graph}
use buildforge.Graph.Order.{IsPath}
use buildforge.Graph.Critical.{Chains, walk}
use buildforge.Graph.Critical.Invariant.{Invariant}

-- How long the actions of a list take, one after the other.
abbrev pub weight : (Str → ℕ) → List Str → ℕ
weight dur [] = 0
weight dur (n ∷ ns) = dur n + weight dur ns

pub named_other : (q : Str) (l : List Str) → count [] l ≡ 0 → In q l → str_eq q [] ≡ false
named_other q l named i = elim (Str-cases q []) [
  | inl e ↦ absurd (omega (arith, named, subst (λ z. In z l) e i))
  | inr (_, f) ↦ f
]

module _ (g : Graph) (dur : Str → ℕ) (c : Chains) (order : List Str)
    (v : Invariant g dur order c) where
  -- No chain that ends at an action takes longer than until it is finished.
  pub chain-le-finish :
      (x : Str) (r : List Str)
      → In x order
      → IsPath g.deps (x ∷ r)
      → weight dur (x ∷ r) ≤ c.finish x
  chain-le-finish x [] i p = elim (v.known x i).held_up [
    | inl (_, e) ↦ omega arith
    | inr (_, _, e, _) ↦ omega arith
  ]
  chain-le-finish x (y ∷ r) i p =
      let k = v.known x i in
      omega (arith, k.after y p.0, chain-le-finish y r (k.deps_seen y p.0) p.1)

  -- The walk from `q` follows a chain that takes as long as `q` needs to finish.
  pub record Walked (q : Str) (result : Option (List Str)) : Type 0 where
    pub earlier : List Str
    pub returned : result ≡ some (q ∷ earlier)
    pub inside : (x : Str) → In x (q ∷ earlier) → In x order
    pub chain : IsPath g.deps (q ∷ earlier)
    pub weighs : weight dur (q ∷ earlier) ≡ c.finish q

  walk-nil : (fuel : ℕ) → walk fuel c.pred [] ≡ some []
  unfolding walk
  walk-nil zero = rw (str_eq_refl, walk) refl
  walk-nil (suc fuel) = rw (str_eq_refl, walk) refl

  pub walk-Walked :
      count [] order ≡ 0
      → (fuel : ℕ) (q : Str) → c.depth q ≤ fuel
      → In q order
      → Walked q (walk fuel c.pred q)
  unfolding walk
  walk-Walked named zero q l i = absurd (omega (arith, (v.known q i).counted))
  walk-Walked named (suc fuel) q l i =
      let other : str_eq q [] ≡ false = named_other q order named i in
      elim (v.known q i).held_up [
        | inl (free, e) ↦
            let stops : walk fuel c.pred (c.pred q) ≡ some [] =
              subst (λ x. walk fuel c.pred x ≡ some []) (sym free) (walk-nil fuel) in
            record {
              earlier = [];
              returned = rw (other, stops, walk) refl;
              inside = λ x j. elim (Str-cases q x) [
                | inl same ↦ subst (λ z. In z order) same i
                | inr (_, f) ↦ absurd (ground arith)
              ];
              chain = tt;
              weighs = omega arith;
            }
        | inr (j, there, e, deeper) ↦
            let t = walk-Walked named fuel (c.pred q) (omega arith) there in
            record {
              earlier = c.pred q ∷ t.earlier;
              returned = rw (other, t.returned, walk) refl;
              inside = λ x k. elim (Str-cases q x) [
                | inl same ↦ subst (λ z. In z order) same i
                | inr (_, f) ↦ t.inside x (ground arith)
              ];
              chain = (j, t.chain);
              weighs = omega (arith, t.weighs);
            }
      ]

-- ===== src/Graph/Critical/Extended.antt =====
-- internal/graph/critical.go, `CriticalPath`: the maps after one round of the loop over the order.
use buildforge.Prelude.{
  ℕ, ◌+◌, ◌≡◌, ◌≢◌, ap, ◌∙◌, Str, str_eq, str_eq_iff, Str-cases, [], if◌then◌else◌, inl, inr,
  Bool-cases, update, update_self, update_ne,
}
use buildforge.Graph.{Graph}
use buildforge.Graph.Critical.{Chains, choose, extend}

module _ (g : Graph) (dur : Str → ℕ) (n : Str) (c : Chains) where
  unfoldable pub best : ℕ × Str
  best = choose c (g.deps n) (0, [])

  pub finish_self : (extend g dur n c).finish n ≡ best.0 + dur n
  unfolding extend best
  finish_self = update_self c.finish n (best.0 + dur n)

  pub finish_other : (q : Str) → n ≢ q → (extend g dur n c).finish q ≡ c.finish q
  unfolding extend best
  finish_other q ne = update_ne c.finish n (best.0 + dur n) q ne

  pub depth_self : (extend g dur n c).depth n ≡ c.depth best.1 + 1
  unfolding extend best
  depth_self = update_self c.depth n (c.depth best.1 + 1)

  pub depth_other : (q : Str) → n ≢ q → (extend g dur n c).depth q ≡ c.depth q
  unfolding extend best
  depth_other q ne = update_ne c.depth n (c.depth best.1 + 1) q ne

  pub pred_other : (q : Str) → n ≢ q → (extend g dur n c).pred q ≡ c.pred q
  unfolding extend best
  pred_other q ne = elim (Bool-cases (str_eq best.1 [])) [
    | inl b ↦ ap (λ z. (if z then c.pred else update c.pred n best.1) q) b
    | inr b ↦
        ap (λ z. (if z then c.pred else update c.pred n best.1) q) b
        ∙ update_ne c.pred n best.1 q ne
  ]

  pub pred_none : best.1 ≡ [] → (extend g dur n c).pred n ≡ c.pred n
  unfolding extend best
  pred_none e =
      ap (λ z. (if z then c.pred else update c.pred n best.1) n) ((str_eq_iff best.1 []).1 e)

  pub pred_some : best.1 ≢ [] → (extend g dur n c).pred n ≡ best.1
  unfolding extend best
  pred_some ne = elim (Str-cases best.1 []) [
    | inl e ↦ absurd (ne e)
    | inr (_, f) ↦
        ap (λ z. (if z then c.pred else update c.pred n best.1) n) f ∙ update_self c.pred n best.1
  ]

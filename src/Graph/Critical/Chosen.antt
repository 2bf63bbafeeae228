-- ===== src/Graph/Critical/Chosen.antt =====
-- internal/graph/critical.go, `better` and the loops that use it: a candidate that finishes last.
use buildforge.Prelude.{
  ℕ, ◌≡◌, ◌≤◌, ◌≢◌, refl, sym, Str, str_eq_iff, Str-cases, true, false, List, [], ◌∷◌, count,
  count-cons_self, In, ◌⊎◌, inl, inr, Bool-cases, arith, subst,
}
use buildforge.Graph.Critical.{better, Chains, choose}

-- The incumbent that is kept does not finish earlier, and the one that replaces it does not either.
better-true :
    (f d : ℕ) (name : Str) (best_f best_d : ℕ) (best_name : Str)
    → (best_name ≡ [] → best_f ≡ 0)
    → better f d name best_f best_d best_name ≡ true
    → best_f ≤ f
unfolding better
better-true f d name best_f best_d best_name z h = ground (arith, z, str_eq_iff best_name [])

better-false :
    (f d : ℕ) (name : Str) (best_f best_d : ℕ) (best_name : Str)
    → better f d name best_f best_d best_name ≡ false
    → f ≤ best_f
unfolding better
better-false f d name best_f best_d best_name h = ground arith

-- What the loop over `ds` makes of an incumbent.
pub record Chosen (c : Chains) (ds : List Str) (start result : ℕ × Str) : Type 0 where
  pub grows : start.0 ≤ result.0
  pub latest : (d : Str) → In d ds → c.finish d ≤ result.0
  pub origin : (result ≡ start) ⊎ (In result.1 ds × (result.0 ≡ c.finish result.1))

replaced :
    (c : Chains) (d : Str) (ds : List Str) (result : ℕ × Str)
    → result ≡ (c.finish d, d)
    → In result.1 (d ∷ ds) × (result.0 ≡ c.finish result.1)
replaced c d ds result e =
    subst (λ (r : ℕ × Str). In r.1 (d ∷ ds) × (r.0 ≡ c.finish r.1)) (sym e)
      (omega (arith, count-cons_self d ds), refl)

pub choose-Chosen :
    (c : Chains) (ds : List Str) (best : ℕ × Str)
    → count [] ds ≡ 0
    → (best.1 ≡ [] → best.0 ≡ 0)
    → Chosen c ds best (choose c ds best)
unfolding choose
choose-Chosen c [] best k z = record {
  grows = omega arith;
  latest = λ d i. absurd (omega arith);
  origin = inl refl;
}
choose-Chosen c (d ∷ ds) (latest, chosen) k z =
    elim (Bool-cases (better (c.finish d) (c.depth d) d latest (c.depth chosen) chosen)) [
      | inl b ↦
          let named : d ≢ [] = λ e. ground (arith, str_eq_iff d []) in
          let t = choose-Chosen c ds (c.finish d, d) (omega arith) (λ e. absurd (named e)) in
          rw (b, choose)
            (record {
              grows = omega (
                arith,
                t.grows,
                better-true (c.finish d) (c.depth d) d latest (c.depth chosen) chosen z b,
              );
              latest = λ q i. elim (Str-cases d q) [
                | inl same ↦ subst (λ x. c.finish x ≤ (choose c ds (c.finish d, d)).0) same t.grows
                | inr (_, f) ↦ t.latest q (ground arith)
              ];
              origin = inr (elim t.origin [
                | inl kept ↦ replaced c d ds (choose c ds (c.finish d, d)) kept
                | inr (i, e) ↦ (omega arith, e)
              ]);
            })
      | inr b ↦
          let t = choose-Chosen c ds (latest, chosen) (omega arith) z in
          rw (b, choose)
            (record {
              grows = t.grows;
              latest = λ q i. elim (Str-cases d q) [
                | inl same ↦
                    subst (λ x. c.finish x ≤ (choose c ds (latest, chosen)).0) same
                      (omega (
                        arith,
                        t.grows,
                        better-false (c.finish d) (c.depth d) d latest (c.depth chosen) chosen b,
                      ))
                | inr (_, f) ↦ t.latest q (ground arith)
              ];
              origin = elim t.origin [ inl kept ↦ inl kept | inr (i, e) ↦ inr (omega arith, e) ];
            })
    ]

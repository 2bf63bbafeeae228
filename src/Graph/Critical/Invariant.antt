-- ===== src/Graph/Critical/Invariant.antt =====
-- internal/graph/critical.go, `CriticalPath`: the invariant of the loop over the order.
use buildforge.Prelude.{
  ℕ, ◌+◌, ◌≡◌, ◌≤◌, ◌<◌, ◌≢◌, refl, sym, ap, ◌∙◌, subst, Str, Str-cases, List, [], ◌∷◌, ◌++◌, count,
  count-cons_self, count-append, count-snoc_self, In, length, length-append, ◌⊎◌, inl, inr, arith,
  append_assoc, append-nil,
}
use buildforge.Graph.{Graph}
use buildforge.Graph.Order.{IsOrdered}
use buildforge.Graph.Critical.{Chains, extend, extend_all}
use buildforge.Graph.Critical.Chosen.{choose-Chosen}
use buildforge.Graph.Critical.Extended.{
  best, finish_self, finish_other, depth_self, depth_other, pred_other, pred_none, pred_some,
}

module _ (g : Graph) (dur : Str → ℕ) where
  -- What is known of an action whose chain was extended: `pred` held it up, and nothing else did
  -- longer.
  pub record Known (c : Chains) (seen : List Str) (q : Str) : Type 0 where
    pub deps_seen : (d : Str) → In d (g.deps q) → In d seen
    pub counted : 0 < c.depth q
    pub after : (d : Str) → In d (g.deps q) → c.finish d + dur q ≤ c.finish q
    pub held_up :
        ((c.pred q ≡ []) × (c.finish q ≡ dur q))
        ⊎ (In (c.pred q) (g.deps q)
            × In (c.pred q) seen
            × (c.finish q ≡ dur q + c.finish (c.pred q))
            × (c.depth (c.pred q) < c.depth q))

  pub record Invariant (seen : List Str) (c : Chains) : Type 0 where
    pub known : (q : Str) → In q seen → Known c seen q
    pub unknown : (q : Str) → count q seen ≡ 0 → (c.depth q ≡ 0) × (c.pred q ≡ [])
    pub shallow : (q : Str) → c.depth q ≤ length seen

  other_of : (n : Str) (seen : List Str) (q : Str) → count n seen ≡ 0 → In q seen → n ≢ q
  other_of n seen q fresh i e = omega (arith, fresh, subst (λ x. In x seen) (sym e) i)

  Known-kept :
      (seen : List Str) (n : Str) (c : Chains) (q : Str)
      → count n seen ≡ 0
      → In q seen
      → Known c seen q
      → Known (extend g dur n c) (seen ++ n ∷ []) q
  Known-kept seen n c q fresh i k =
      let q_other = other_of n seen q fresh i in
      let fq = finish_other g dur n c q q_other in
      let pq = pred_other g dur n c q q_other in
      record {
        deps_seen = λ d j. omega (arith, k.deps_seen d j, count-append d seen (n ∷ []));
        counted = omega (arith, k.counted, depth_other g dur n c q q_other);
        after = λ d j. omega (
          arith,
          fq,
          finish_other g dur n c d (other_of n seen d fresh (k.deps_seen d j)),
          k.after d j,
        );
        held_up = elim k.held_up [
          | inl (free, e) ↦ inl (pq ∙ free, fq ∙ e)
          | inr (j, there, e, deeper) ↦
              let p_other = other_of n seen (c.pred q) fresh there in
              inr (
                subst
                  (λ x.
                    In x (g.deps q)
                    × In x (seen ++ n ∷ [])
                    × ((extend g dur n c).finish q ≡ dur q + (extend g dur n c).finish x)
                    × ((extend g dur n c).depth x < (extend g dur n c).depth q))
                  (sym pq)
                  (
                    j,
                    omega (arith, there, count-append (c.pred q) seen (n ∷ [])),
                    omega (arith, fq, e, finish_other g dur n c (c.pred q) p_other),
                    omega (
                      arith,
                      deeper,
                      depth_other g dur n c q q_other,
                      depth_other g dur n c (c.pred q) p_other,
                    ),
                  ))
        ];
      }

  extend-Invariant :
      (seen : List Str) (n : Str) (c : Chains)
      → Invariant seen c
      → count n seen ≡ 0
      → count [] (g.deps n) ≡ 0
      → ((d : Str) → In d (g.deps n) → In d seen)
      → Invariant (seen ++ n ∷ []) (extend g dur n c)
  unfolding best
  extend-Invariant seen n c v fresh named deps_seen =
      let t = choose-Chosen c (g.deps n) (0, []) named (λ _. refl) in
      let fs = finish_self g dur n c in
      let Here : Type 0 =
        (((extend g dur n c).pred n ≡ []) × ((extend g dur n c).finish n ≡ dur n))
        ⊎ (In ((extend g dur n c).pred n) (g.deps n)
            × In ((extend g dur n c).pred n) (seen ++ n ∷ [])
            × ((extend g dur n c).finish n
                ≡ dur n + (extend g dur n c).finish ((extend g dur n c).pred n))
            × ((extend g dur n c).depth ((extend g dur n c).pred n)
                < (extend g dur n c).depth n)) in
      let here : Here = elim t.origin [
        | inl e ↦ inl (
          pred_none g dur n c (ap (λ r. r.1) e) ∙ (v.unknown n fresh).1,
          omega (arith, fs, ap (λ r. r.0) e),
        )
        | inr (i, e) ↦
            let there = deps_seen (best g dur n c).1 i in
            let other = other_of n seen (best g dur n c).1 fresh there in
            let ne : (best g dur n c).1 ≢ [] =
              λ z. omega (arith, named, subst (λ x. In x (g.deps n)) z i) in
            inr (
              subst
                (λ x.
                  In x (g.deps n)
                  × In x (seen ++ n ∷ [])
                  × ((extend g dur n c).finish n ≡ dur n + (extend g dur n c).finish x)
                  × ((extend g dur n c).depth x < (extend g dur n c).depth n))
                (sym (pred_some g dur n c ne))
                (
                  i,
                  omega (arith, there, count-append (best g dur n c).1 seen (n ∷ [])),
                  omega (arith, fs, e, finish_other g dur n c (best g dur n c).1 other),
                  omega
                      (arith, depth_self g dur n c, depth_other g dur n c (best g dur n c).1 other),
                ))
      ] in
      let new : Known (extend g dur n c) (seen ++ n ∷ []) n = record {
        deps_seen = λ d j. omega (arith, deps_seen d j, count-append d seen (n ∷ []));
        counted = omega (arith, depth_self g dur n c);
        after = λ d j. omega (
          arith,
          fs,
          finish_other g dur n c d (other_of n seen d fresh (deps_seen d j)),
          t.latest d j,
        );
        held_up = here;
      } in
      record {
        known = λ q i. elim (Str-cases n q) [
          | inl e ↦ subst (Known (extend g dur n c) (seen ++ n ∷ [])) e new
          | inr (_, f) ↦
              let old : In q seen = ground (arith, count-append q seen (n ∷ [])) in
              Known-kept seen n c q fresh old (v.known q old)
        ];
        unknown = λ q z.
            let old : count q seen ≡ 0 = omega (arith, count-append q seen (n ∷ [])) in
            let ne : n ≢ q = λ e. omega (
              arith,
              subst (λ x. count x (seen ++ n ∷ []) ≡ 0) (sym e) z,
              count-snoc_self n seen,
            ) in
            (
              depth_other g dur n c q ne ∙ (v.unknown q old).0,
              pred_other g dur n c q ne ∙ (v.unknown q old).1,
            );
        shallow = λ q. elim (Str-cases n q) [
          | inl e ↦
              subst (λ x. (extend g dur n c).depth x ≤ length (seen ++ n ∷ [])) e
                (omega (
                  arith,
                  depth_self g dur n c,
                  v.shallow (best g dur n c).1,
                  length-append seen (n ∷ []),
                ))
          | inr (ne, _) ↦
              omega (arith, depth_other g dur n c q ne, v.shallow q, length-append seen (n ∷ []))
        ];
      }

  pub extend_all-Invariant :
      (seen rest : List Str) (c : Chains)
      → Invariant seen c
      → IsOrdered g.deps seen rest
      → ((q : Str) → count q seen + count q rest ≤ 1)
      → ((q : Str) → count [] (g.deps q) ≡ 0)
      → Invariant (seen ++ rest) (extend_all g dur rest c)
  unfolding extend_all
  extend_all-Invariant seen [] c v o u named = subst (λ l. Invariant l c) (sym (append-nil seen)) v
  extend_all-Invariant seen (n ∷ rest) c v o u named =
      subst (λ l. Invariant l (extend_all g dur rest (extend g dur n c)))
        (append_assoc seen (n ∷ []) rest)
        (extend_all-Invariant (seen ++ n ∷ []) rest (extend g dur n c)
          (extend-Invariant seen n c v (omega (arith, u n, count-cons_self n rest)) (named n) o.0)
          o.1 (λ q. omega (arith, u q, count-append q seen (n ∷ []))) named)

-- ===== src/Graph/Topological/Invariant.antt =====
-- internal/graph/graph.go, `TopologicalOrder`: the invariant of Kahn's loop.
use buildforge.Prelude.{
  ℕ, ◌+◌, ◌-◌, ◌≡◌, ◌≤◌, ◌<◌, refl, ap, ◌∙◌, pos, Str, str_eq, List, [], ◌∷◌, ◌++◌, length, ◌==◌,
  if◌then◌else◌, count, count-append, arith, str_eq_iff, inl, inr, In, List-cases, count-sort,
  count-cons_self, ltb, ◌&&◌,
}
use buildforge.Graph.{Graph, IsWellFormed}
use buildforge.Graph.Order.{IsOrdered, IsOrdered-snoc}
use buildforge.Graph.Topological.{Kahn, seed, release, emit, idle, start}
use buildforge.Graph.Topological.Release.{
  missing, missing-nil, missing-snoc, In-missing, release-remaining, release-unblocked,
  count-requeue,
}

pub record Invariant (g : Graph) (s : Kahn) : Type 0 where
  -- a counter is the number of dependencies that are not emitted yet
  pub counters : (q : Str) → s.remaining q ≡ pos (missing s.order (g.deps q))
  pub placed_once : (q : Str) → count q s.ready + count q s.order ≤ count q g.names
  -- whatever waits for nothing is ready or emitted, and the other way round
  pub free_placed :
      (q : Str)
      → In q g.names
      → missing s.order (g.deps q) ≡ 0
      → 0 < count q s.ready + count q s.order
  pub ready_free : (q : Str) → In q s.ready → missing s.order (g.deps q) ≡ 0
  pub order_free : (q : Str) → In q s.order → missing s.order (g.deps q) ≡ 0
  pub ordered : IsOrdered g.deps [] s.order

module _ (g : Graph) where
  seed-remaining :
      (ns : List Str) (s : Kahn) (q : Str)
      → (seed g ns s).remaining q
        ≡ (if count q ns == 0 then s.remaining q else pos (length (g.deps q)))
  unfolding seed
  seed-remaining [] s q = refl
  seed-remaining (n ∷ ns) s q = seed-remaining ns _ q ∙ ground (arith, str_eq_iff n q)

  seed-ready :
      (ns : List Str) (s : Kahn) (q : Str)
      → count q (seed g ns s).ready
        ≡ count q s.ready + (if length (g.deps q) == 0 then count q ns else 0)
  unfolding seed
  seed-ready [] s q = ground arith
  seed-ready (n ∷ ns) s q =
      seed-ready ns _ q ∙ ground (arith, str_eq_iff n q, count-append q s.ready (n ∷ []))

  seed-order : (ns : List Str) (s : Kahn) → (seed g ns s).order ≡ s.order
  unfolding seed
  seed-order [] s = refl
  seed-order (n ∷ ns) s = seed-order ns _

module _ (g : Graph) (w : IsWellFormed g) where
  leaf_outside : (q : Str) → count q g.names ≡ 0 → length (g.deps q) ≡ 0
  leaf_outside q h = elim (List-cases (g.deps q)) [
    | inl e ↦ rw e refl
    | inr (d, r, e) ↦
        absurd (omega (arith, w.sources q d (rw e (omega (arith, count-cons_self d r)))))
  ]

  pub start-Invariant : Invariant g (start g)
  unfolding start
  start-Invariant = record {
    counters = λ q.
        rw seed-order (
          seed-remaining g g.names idle q ∙ ground (arith, leaf_outside q, missing-nil (g.deps q)));
    placed_once = λ q. rw (seed-order, count-sort) (ground (arith, seed-ready g g.names idle q));
    free_placed = λ q i f. ground (
      arith,
      seed-order g g.names idle,
      seed-ready g g.names idle q,
      missing-nil (g.deps q),
      count-sort q (seed g g.names idle).ready,
    );
    ready_free = λ q i. ground (
      arith,
      seed-order g g.names idle,
      seed-ready g g.names idle q,
      missing-nil (g.deps q),
      count-sort q (seed g g.names idle).ready,
    );
    order_free = λ q i. ground (arith, seed-order g g.names idle);
    ordered = rw seed-order tt;
  }

  -- One round, for `ready = n ∷ rest`.
  module _ (s : Kahn) (v : Invariant g s) (n : Str) (rest : List Str) (e : s.ready ≡ n ∷ rest) where
    abbrev waits : Str → ℕ
    waits q = missing s.order (g.deps q)

    ready_split : (q : Str) → count q s.ready ≡ count q (n ∷ rest)
    ready_split q = ap (count q) e

    n_ready : In n s.ready
    n_ready = omega (arith, ready_split n, count-cons_self n rest)

    n_new : count n s.order ≡ 0
    n_new = omega (arith, v.placed_once n, n_ready, w.distinct n)

    waits-snoc : (q : Str) → waits q ≡ missing (s.order ++ n ∷ []) (g.deps q) + count q (g.rdeps n)
    waits-snoc q = omega (arith, missing-snoc s.order n (g.deps q) n_new, w.mirror q n)

    counted : (q : Str) → count q (g.rdeps n) ≤ waits q
    counted q = omega (arith, waits-snoc q)

    dependents_named : (q : Str) → In q (g.rdeps n) → In q g.names
    dependents_named q i = w.sources q n (omega (arith, w.mirror q n))

    emit-remaining :
        (q : Str) → (release (g.rdeps n) s.remaining []).0 q ≡ pos (waits q - count q (g.rdeps n))
    emit-remaining = release-remaining (g.rdeps n) s.remaining [] waits v.counters counted

    emit-unblocked :
        (q : Str)
        → count q (release (g.rdeps n) s.remaining []).1
          ≡ 0 + (if ltb 0 (count q (g.rdeps n)) && (waits q == count q (g.rdeps n)) then 1 else 0)
    emit-unblocked = release-unblocked (g.rdeps n) s.remaining [] waits v.counters counted

    emit-ready :
        (q : Str)
        → count q (emit g s n rest).ready
          ≡ count q rest
            + (if ltb 0 (count q (g.rdeps n)) && (waits q == count q (g.rdeps n)) then 1 else 0)
    unfolding emit
    emit-ready q =
        omega (arith, emit-unblocked q, count-requeue q rest (release (g.rdeps n) s.remaining []).1)

    emit-order :
        (q : Str)
        → count q (emit g s n rest).order ≡ count q s.order + (if str_eq n q then 1 else 0)
    unfolding emit
    emit-order q = omega (arith, count-append q s.order (n ∷ []))

    emit-missing :
        (q : Str) → waits q ≡ missing (emit g s n rest).order (g.deps q) + count q (g.rdeps n)
    unfolding emit
    emit-missing q = waits-snoc q

    emit-counters :
        (q : Str) → (emit g s n rest).remaining q ≡ pos (missing (emit g s n rest).order (g.deps q))
    unfolding emit
    emit-counters q = emit-remaining q ∙ ap pos (omega (arith, waits-snoc q))

    emit-IsOrdered : IsOrdered g.deps [] (emit g s n rest).order
    unfolding emit
    emit-IsOrdered =
        IsOrdered-snoc g.deps [] s.order n v.ordered
          (λ d i. In-missing s.order d (g.deps n) (v.ready_free n n_ready) i)

    pub emit-Invariant : Invariant g (emit g s n rest)
    emit-Invariant = record {
      counters = emit-counters;
      placed_once = λ q. ground (
        arith,
        emit-ready q,
        emit-order q,
        ready_split q,
        v.placed_once q,
        v.ready_free q,
        v.order_free q,
        dependents_named q,
      );
      free_placed = λ q i f.
          ground
            (arith, emit-ready q, emit-order q, emit-missing q, ready_split q, v.free_placed q);
      ready_free =
          λ q i. ground (arith, emit-ready q, emit-missing q, ready_split q, v.ready_free q);
      order_free = λ q i. ground (
        arith,
        emit-order q,
        emit-missing q,
        v.order_free q,
        str_eq_iff n q,
        n_ready,
        v.ready_free n,
      );
      ordered = emit-IsOrdered;
    }

-- ===== src/Sched/Invariant.antt =====
-- internal/sched/sched.go, `Build`: what is known of an action by the point at which its goroutine
-- stands.
use buildforge.Prelude.{
  ℕ, ◌≡◌, ◌≢◌, ◌≤◌, refl, Str, true, false, count, In, ◌==◌, ◌⊎◌, inl, inr, arith, Str-cases, subst,
  ◌∙◌, Bool-cases,
}
use buildforge.Graph.{Graph}
use buildforge.Runner.Result.{Summary, executed}
use buildforge.Sched.{
  Status, ok, failed, skipped, Point, waiting, checking, polling, acquiring, running, cancelling,
  releasing, closing, exited, Sched, start,
}

-- How often `q` was reported.
abbrev pub Tallies : Summary → Str → ℕ → ℕ → Type 0
Tallies s q bad passed = (count q s.failed ≡ bad) × (count q s.skipped ≡ passed)

module _ {E : Type 0} (g : Graph) where
  -- All that `q` depends on has ended well.
  abbrev pub Ready : Sched E → Str → Type 0
  Ready s q = (d : Str) → In d (g.deps q) → (s.done d ≡ true) × (s.status d ≡ ok)

  abbrev pub Undecided : Sched E → Str → Type 0
  Undecided s q = (s.done q ≡ false) × Tallies s.summary q 0 0 × (count q (executed s.summary) ≡ 0)

  -- The outcome of `q` stands in the summary as its status says.
  abbrev pub Recorded : Sched E → Str → Status → Type 0
  Recorded s q ok = Tallies s.summary q 0 0 × (count q (executed s.summary) ≡ 1) × Ready s q
  Recorded s q failed = Tallies s.summary q 1 0 × (count q (executed s.summary) ≤ 1) × Ready s q
  Recorded s q skipped = Tallies s.summary q 0 1 × (count q (executed s.summary) ≡ 0)

  abbrev pub Decided : Sched E → Str → Type 0
  Decided s q = Recorded s q (s.status q)

  -- A goroutine before its outcome, at a point behind the loop over the dependencies or in it.
  abbrev pub Facts : Sched E → Str → Point → Type 0
  Facts s q (waiting rest) =
      In q g.names
      × Undecided s q
      × ((d : Str) → In d (g.deps q) → In d rest ⊎ (s.done d ≡ true))
      × ((d : Str) → In d rest → In d (g.deps q))
  Facts s q checking =
      In q g.names × Undecided s q × ((d : Str) → In d (g.deps q) → s.done d ≡ true)
  Facts s q polling = In q g.names × Undecided s q × Ready s q
  Facts s q acquiring = In q g.names × Undecided s q × Ready s q
  Facts s q running = In q g.names × Undecided s q × Ready s q
  Facts s q cancelling = In q g.names × (s.done q ≡ false) × Decided s q
  Facts s q releasing = In q g.names × (s.done q ≡ false) × Decided s q
  Facts s q closing = In q g.names × (s.done q ≡ false) × Decided s q
  Facts s q exited =
      (In q g.names → (s.done q ≡ true) × Decided s q) × (count q g.names ≡ 0 → Undecided s q)

  abbrev pub Invariant : Sched E → Type 0
  Invariant s = (q : Str) → Facts s q (s.point q)

  -- A step of the goroutine `n`: outcomes that are published stay, and nothing is said of the others.
  pub record Frame (n : Str) (s t : Sched E) : Type 0 where
    pub kept : (d : Str) → s.done d ≡ true → (t.done d ≡ true) × (t.status d ≡ s.status d)
    pub same_point : (q : Str) → n ≢ q → t.point q ≡ s.point q
    pub same_done : (q : Str) → n ≢ q → t.done q ≡ s.done q
    pub same_status : (q : Str) → n ≢ q → t.status q ≡ s.status q
    pub same_failed : (q : Str) → n ≢ q → count q t.summary.failed ≡ count q s.summary.failed
    pub same_skipped : (q : Str) → n ≢ q → count q t.summary.skipped ≡ count q s.summary.skipped
    pub same_executed :
        (q : Str) → n ≢ q → count q (executed t.summary) ≡ count q (executed s.summary)

  module _ (n : Str) (s t : Sched E) (f : Frame n s t) where
    pub Ready-kept : (q : Str) → Ready s q → Ready t q
    Ready-kept q r d i =
        let (closed, fine) = r d i in
        let (closed', same) = f.kept d closed in (closed', same ∙ fine)

    module _ (q : Str) (other : n ≢ q) where
      Undecided-kept : Undecided s q → Undecided t q
      Undecided-kept u = ground (
        arith,
        f.same_done q other,
        f.same_failed q other,
        f.same_skipped q other,
        f.same_executed q other,
      )

      Recorded-kept : (x : Status) → Recorded s q x → Recorded t q x
      Recorded-kept ok (a, b, r) = (
        ground (arith, f.same_failed q other, f.same_skipped q other),
        ground (arith, f.same_executed q other),
        Ready-kept q r,
      )
      Recorded-kept failed (a, b, r) = (
        ground (arith, f.same_failed q other, f.same_skipped q other),
        ground (arith, f.same_executed q other),
        Ready-kept q r,
      )
      Recorded-kept skipped (a, b) = (
        ground (arith, f.same_failed q other, f.same_skipped q other),
        ground (arith, f.same_executed q other),
      )

      Decided-kept : Decided s q → Decided t q
      Decided-kept d = rw (f.same_status q other) (Recorded-kept (s.status q) d)

      Done-kept : s.done q ≡ false → t.done q ≡ false
      Done-kept h = f.same_done q other ∙ h

      Facts-kept : (p : Point) → Facts s q p → Facts t q p
      Facts-kept (waiting rest) (i, u, h, k) = (
        i,
        Undecided-kept u,
        (λ d j. elim (h d j) [ inl later ↦ inl later | inr closed ↦ inr (f.kept d closed).0 ]),
        k,
      )
      Facts-kept checking (i, u, h) = (i, Undecided-kept u, λ d j. (f.kept d (h d j)).0)
      Facts-kept polling (i, u, r) = (i, Undecided-kept u, Ready-kept q r)
      Facts-kept acquiring (i, u, r) = (i, Undecided-kept u, Ready-kept q r)
      Facts-kept running (i, u, r) = (i, Undecided-kept u, Ready-kept q r)
      Facts-kept cancelling (i, h, d) = (i, Done-kept h, Decided-kept d)
      Facts-kept releasing (i, h, d) = (i, Done-kept h, Decided-kept d)
      Facts-kept closing (i, h, d) = (i, Done-kept h, Decided-kept d)
      Facts-kept exited (h, k) =
          ((λ i. ((f.kept q (h i).0).0, Decided-kept (h i).1)), λ o. Undecided-kept (k o))

    -- A step keeps the invariant if the facts hold for its own goroutine.
    pub Frame-Invariant : Invariant s → Facts t n (t.point n) → Invariant t
    Frame-Invariant v own q = elim (Str-cases n q) [
      | inl e ↦ subst (λ z. Facts t z (t.point z)) e own
      | inr (other, _) ↦ rw (f.same_point q other) (Facts-kept q other (s.point q) (v q))
    ]

pub start-Invariant : (E : Type 0) (g : Graph) → Invariant {E = E} g (start g)
unfolding start
start-Invariant E g q = elim (Bool-cases (count q g.names == 0)) [
  | inl outside ↦ rw outside ((λ i. absurd (ground arith)), λ _. (refl, (refl, refl), refl))
  | inr inside ↦ rw inside (ground arith, (refl, (refl, refl), refl), (λ d i. inl i), λ d i. i)
]

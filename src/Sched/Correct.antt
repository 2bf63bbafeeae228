-- ===== src/Sched/Correct.antt =====
-- internal/sched/sched.go, `Build`: what the summary says of the actions.
use buildforge.Prelude.{
  ℕ, ◌+◌, ◌≡◌, ◌≤◌, ◌<◌, Str, Bool, true, count, In, ◌==◌, inl, inr, arith, subst, Bool-cases,
}
use buildforge.Graph.{Graph, IsWellFormed}
use buildforge.Runner.Result.{executed}
use buildforge.Runner.Build.Accounts.{Accounts, Succeeded}
use buildforge.Sched.{
  Status, ok, failed, skipped, Point, waiting, checking, polling, acquiring, running, cancelling,
  releasing, closing, exited, Sched, Reach,
}
use buildforge.Sched.Invariant.{Facts, Invariant, Decided, Recorded, Ready}
use buildforge.Sched.Steps.{Reach-Invariant}

module _ {E : Type 0} (g : Graph) (w : IsWellFormed g) (s : Sched E) (v : Invariant g s) where
  -- A published action has decided.
  Decided-done : (d : Str) → In d g.names → s.done d ≡ true → Decided g s d
  Decided-done d i closed = go (s.point d) (v d)
    where
      go : (p : Point) → Facts g s d p → Decided g s d
      go exited (h, _) = (h i).1
      go (waiting _) h = cc (h.1.0)
      go checking h = cc (h.1.0)
      go polling h = cc (h.1.0)
      go acquiring h = cc (h.1.0)
      go running h = cc (h.1.0)
      go cancelling h = cc (h.1)
      go releasing h = cc (h.1)
      go closing h = cc (h.1)

  Ready-Succeeded : (q d : Str) → Ready g s q → In d (g.deps q) → Succeeded s.summary d
  Ready-Succeeded q d r i =
      let (closed, fine) = r d i in
      let k : Recorded g s d ok =
        subst (Recorded g s d) fine (Decided-done d (w.targets q d i) closed) in
      (omega (arith, k.1), k.0.0)

  -- What ran had all its dependencies succeed first, in every state.
  ran-Ready : (q : Str) → 0 < count q (executed s.summary) + count q s.summary.failed → Ready g s q
  ran-Ready q ran = go (s.point q) (v q)
    where
      recorded : (x : Status) → Recorded g s q x → Ready g s q
      recorded ok (_, _, r) = r
      recorded failed (_, _, r) = r
      recorded skipped h = absurd (omega arith)

      go : (p : Point) → Facts g s q p → Ready g s q
      go exited (h, k) = elim (Bool-cases (count q g.names == 0)) [
        | inl o ↦ let u = k (ground arith) in absurd (omega arith)
        | inr i ↦ recorded (s.status q) (h (ground arith)).1
      ]
      go (waiting _) h = absurd (omega arith)
      go checking h = absurd (omega arith)
      go polling h = absurd (omega arith)
      go acquiring h = absurd (omega arith)
      go running h = absurd (omega arith)
      go cancelling h = recorded (s.status q) h.2
      go releasing h = recorded (s.status q) h.2
      go closing h = recorded (s.status q) h.2

-- On a well-formed graph, when an action runs, every action that it depends on has run and has not
-- failed.
pub running_after_deps :
    {E : Type 0} (g : Graph) (workers : ℕ) (keep_going : Bool) (s : Sched E) (q d : Str)
    → IsWellFormed g
    → Reach g workers keep_going s
    → s.point q ≡ running
    → In d (g.deps q)
    → Succeeded s.summary d
running_after_deps g workers keep_going s q d w r e i =
    let v = Reach-Invariant g workers keep_going r in
    let facts : Facts g s q running = subst (Facts g s q) e (v q) in
    Ready-Succeeded g w s v q d facts.2 i

-- On a well-formed graph, when all goroutines have exited, the summary accounts for the actions as
-- that of the sequential driver does: every action is skipped, or failed, or ran without failing,
-- and is no two of these, and all that an action with a result or a failure depends on is reported
-- to have succeeded. This holds whichever actions fail, in whatever order the goroutines step, and
-- whenever the build is cancelled.
pub exited-Accounts :
    {E : Type 0} (g : Graph) (workers : ℕ) (keep_going : Bool) (s : Sched E)
    → IsWellFormed g
    → Reach g workers keep_going s
    → ((q : Str) → s.point q ≡ exited)
    → Accounts g g.names s.summary
exited-Accounts g workers keep_going s w r all = record {
  failed_or_skipped = λ q. (bounds q).0;
  ran_or_skipped = λ q. (bounds q).1;
  covered = λ q. (bounds q).2;
  deps_succeeded = λ q d ran i. Ready-Succeeded g w s v q d (ran-Ready g w s v q ran) i;
}
  where
    v : Invariant g s
    v = Reach-Invariant g workers keep_going r

    Bounds : Str → Type 0
    Bounds q =
        (count q s.summary.failed + count q s.summary.skipped ≤ count q g.names)
        × (count q (executed s.summary) + count q s.summary.skipped ≤ count q g.names)
        × (count q g.names
            ≤ count q (executed s.summary) + count q s.summary.failed + count q s.summary.skipped)

    recorded : (q : Str) → In q g.names → (x : Status) → Recorded g s q x → Bounds q
    recorded q i ok h = omega (arith, w.distinct q)
    recorded q i failed h = omega (arith, w.distinct q)
    recorded q i skipped h = omega (arith, w.distinct q)

    bounds : (q : Str) → Bounds q
    bounds q =
        let (inside, outside) = subst (Facts g s q) (all q) (v q) in
        elim (Bool-cases (count q g.names == 0)) [
          | inl o ↦
              let none_named : count q g.names ≡ 0 = ground arith in
              let u = outside none_named in omega arith
          | inr i ↦ recorded q (ground arith) (s.status q) (inside (ground arith)).1
        ]

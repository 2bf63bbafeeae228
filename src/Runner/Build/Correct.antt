-- ===== src/Runner/Build/Correct.antt =====
-- internal/runner/build.go, `Build`: what the summary says of the actions.
use buildforge.Prelude.{
  ◌≡◌, refl, sym, ◌∙◌, Str, List, [], ◌++◌, count, some, ok, arith, Bool, In, ap, suc, count-append,
  length, ◌+◌, ◌<◌, ◌∷◌, str_eq_iff, length-append, length-le_of_count, map, ◌≤◌, ◌≢◌, ◌-◌, ℕ, pos,
  negsuc, leb, Bool-cases, inl, inr, subst,
}
use buildforge.Graph.{Graph, IsWellFormed}
use buildforge.Graph.Topological.{topological_order}
use buildforge.Graph.Topological.Correct.{topological_order-IsTopologicalOrder}
use buildforge.Runner.Result.{Summary, Machine, RunResult, executed, succeeded}
use buildforge.Runner.Build.{build, build_loop, begin, Outcome}
use buildforge.Runner.Build.Logged.{logged, runs, failures, RunsInOrder, build_loop-RunsInOrder}
use buildforge.Runner.Build.Erases.{erase, build-erases, build_loop-erases}
use buildforge.Runner.Build.Accounts.{IsRunner, Accounts}
use buildforge.Runner.Build.Rounds.{Good, Reports, build_loop-Ended}
use buildforge.Graph.Build.{IsIndexed}

begin-Good : {W E : Type 0} {g : Graph} {world : W} → Good {W = W} {E = E} g [] (begin world)
begin-Good = record {
  accounts = record {
    failed_or_skipped = λ q. omega arith;
    ran_or_skipped = λ q. omega arith;
    covered = λ q. omega arith;
    deps_succeeded = λ q d h. absurd (omega arith);
  };
  poisons = record { closed = λ x d h. cc; blamed = λ x d h. absurd (omega arith) };
  reports = (λ _. (refl, refl), λ _. refl);
  unpoisoned = λ _ q. refl;
}

begin-RunsInOrder :
    {g : Graph} → RunsInOrder g [] [] (record { results = []; failed = []; skipped = [] })
unfolding runs failures
begin-RunsInOrder = record { once = λ q. refl; failed = λ q. refl; in_order = tt }

-- On a well-formed graph that has an order and an action under each of its names, and with a runner
-- whose results carry their action's name and whose successes come with a result, `Build` returns a
-- summary in which every action of the graph is skipped, or failed, or ran without failing, and is
-- no two of these, whatever the actions do and whenever the build is cancelled; a reported result or
-- failure is of an action all of whose dependencies are reported to have succeeded; and the error is
-- nil exactly when nothing failed and nothing was skipped. When the runner also logs its runs, which
-- changes nothing else that the build returns, the log shows that each action was run exactly once
-- or is reported skipped, that the failures are the runs that returned an error, and that nothing
-- was run before all that it depends on had been run with success.
pub build-Accounts :
    {W E : Type 0} (m : Machine W E) (g : Graph) (keep_going : Bool) (world : W) (order : List Str)
    → IsRunner m
    → IsWellFormed g
    → IsIndexed g
    → topological_order g ≡ ok order
    → (s : Summary) × ((build m g keep_going world).summary ≡ some s)
      × Accounts g g.names s
      × Reports (build m g keep_going world).error s
      × RunsInOrder g g.names (build (logged m) g keep_going (world, [])).world.1 s
      × (erase (build (logged m) g keep_going (world, [])) ≡ build m g keep_going world)
unfolding build
build-Accounts {W = W} {E = E} m g keep_going world order l w x e =
    let t = topological_order-IsTopologicalOrder g order w e in
    let (s, returned, a, reports) =
      build_loop-Ended m l g w x keep_going [] order (begin world) begin-Good t.ordered
        (λ q. omega (arith, t.complete q)) in
    let (s', returned', logs) =
      build_loop-RunsInOrder m g keep_going w x l [] order (begin (world, [])) begin-Good
        begin-RunsInOrder t.ordered (λ q. omega (arith, t.complete q)) in
    let erased = build-erases m g keep_going world in
    let again : some s' ≡ some s =
      sym returned'
      ∙ ap (λ (o : Outcome W E). o.summary)
          (build_loop-erases m g keep_going order (begin (world, [])))
      ∙ returned in
    let same : s' ≡ s = cc again in
    let ran =
      subst
        (RunsInOrder g order (build_loop (logged m) g keep_going order (begin (world, []))).world.1)
        same logs in
    (
      s,
      rw (e, build) returned,
      record {
        failed_or_skipped = λ q. omega (arith, a.failed_or_skipped q, t.complete q);
        ran_or_skipped = λ q. omega (arith, a.ran_or_skipped q, t.complete q);
        covered = λ q. omega (arith, a.covered q, t.complete q);
        deps_succeeded = a.deps_succeeded;
      },
      rw (e, build) reports,
      rw (e, build)
          (record {
            once = λ q. omega (arith, ran.once q, t.complete q);
            failed = ran.failed;
            in_order = ran.in_order;
          }),
      erased,
    )

length-executed : (rs : List RunResult) → length (map (λ r. r.action) rs) ≡ length rs
length-executed [] = refl
length-executed (r ∷ rs) = ap suc (length-executed rs)

-- When an action failed without a result, the results and the skipped actions are fewer than the
-- actions.
short_of_total :
    (g : Graph) (s : Summary) (q : Str)
    → Accounts g g.names s
    → In q s.failed
    → count q (executed s) ≡ 0
    → length s.results + length s.skipped < length g.names
short_of_total g s q a failed absent = omega (
  arith,
  length-executed s.results,
  length-append (executed s) s.skipped,
  length-le_of_count (q ∷ executed s ++ s.skipped) g.names (λ p. ground (
    arith,
    count-append p (executed s) s.skipped,
    a.ran_or_skipped p,
    a.failed_or_skipped p,
    str_eq_iff q p,
  )),
)

failed_or_skipped-le :
    (g : Graph) (s : Summary)
    → Accounts g g.names s
    → length s.failed + length s.skipped ≤ length g.names
failed_or_skipped-le g s a = omega (
  arith,
  length-append s.failed s.skipped,
  length-le_of_count (s.failed ++ s.skipped) g.names
      (λ p. omega (arith, count-append p s.failed s.skipped, a.failed_or_skipped p)),
)

succeeded-other :
    (s : Summary) (n : ℕ)
    → length s.results + length s.skipped < n
    → length s.failed + length s.skipped ≤ n
    → succeeded s ≢ pos (n - (length s.failed + length s.skipped))
unfolding succeeded
succeeded-other s n few fits h = elim (Bool-cases (leb (length s.failed) (length s.results))) [
  | inl le ↦
      let eq : pos (length s.results - length s.failed)
          ≡ pos (n - (length s.failed + length s.skipped)) =
        rw le at h in
      let same : length s.results - length s.failed ≡ n - (length s.failed + length s.skipped) =
        cc eq in
      ground arith
  | inr gt ↦
      let eq : negsuc (length s.failed - length s.results - 1)
          ≡ pos (n - (length s.failed + length s.skipped)) =
        rw gt at h in
      cc eq
]

-- The driver miscounts: with a runner whose results carry their action's name and whose successes
-- come with a result, on a well-formed graph that has an order and an action under each of its names,
-- when an action failed without a result in the summary that `Build` returns, `Succeeded` of that
-- summary is not the number of the actions that neither failed nor were skipped.
pub build-miscounts :
    {W E : Type 0} (m : Machine W E) (g : Graph) (keep_going : Bool) (world : W) (order : List Str)
    (s : Summary) (q : Str)
    → IsRunner m
    → IsWellFormed g
    → IsIndexed g
    → topological_order g ≡ ok order
    → (build m g keep_going world).summary ≡ some s
    → In q s.failed
    → count q (executed s) ≡ 0
    → succeeded s ≢ pos (length g.names - (length s.failed + length s.skipped))
build-miscounts m g keep_going world order s q l w x e returned failed absent =
    let (s', there, accounts, _, _, _) = build-Accounts m g keep_going world order l w x e in
    let same : s' ≡ s = cc (there, returned) in
    let a = subst (Accounts g g.names) same accounts in
    succeeded-other s (length g.names) (short_of_total g s q a failed absent)
      (failed_or_skipped-le g s a)

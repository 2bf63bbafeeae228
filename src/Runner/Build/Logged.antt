-- ===== src/Runner/Build/Logged.antt =====
-- internal/runner/build.go, `Build`: what was really run, in which order and with what success, told
-- by a machine that keeps a log of its runs.
use buildforge.Prelude.{
  ◌+◌, ◌≡◌, ◌≤◌, refl, sym, ap, ◌∙◌, Str, Bool, true, false, List, [], ◌∷◌, ◌++◌, count, In,
  count-append, count-cons_self, if◌then◌else◌, Option, none, some, inl, inr, Bool-cases,
  Option-cases, arith, subst, str_eq, append_assoc, append-nil,
}
use buildforge.Manifest.{Action}
use buildforge.Graph.{Graph, IsWellFormed}
use buildforge.Graph.Build.{IsIndexed}
use buildforge.Graph.Order.{IsOrdered}
use buildforge.Runner.Result.{Summary, executed, Machine}
use buildforge.Runner.Build.{
  Driver, Outcome, Round, next, return, skip, fail, stop, run_action, round, build_loop,
  append_result,
}
use buildforge.Runner.Build.Accounts.{IsRunner, Succeeded, deps_ready}
use buildforge.Runner.Build.Rounds.{Good, Goes, round-Good}

-- The runs in order, each with its action and whether it returned without an error.
abbrev pub Log : Type 0
Log = List (Str × Bool)

abbrev pub is_none : {A : Type 0} → Option A → Bool
is_none none = true
is_none (some _) = false

-- The machine `m`, which also writes down each run.
unfoldable pub logged : {W E : Type 0} → Machine W E → Machine (W × Log) E
logged m = record {
  run = λ x a.
      let (world, res, run_err) = m.run x.0 a in
      ((world, x.1 ++ (a.name, is_none run_err) ∷ []), res, run_err);
  ctx_err = λ x. m.ctx_err x.0;
}

unfoldable pub runs : Log → List Str
runs [] = []
runs ((n, b) ∷ l) = n ∷ runs l

unfoldable pub successes : Log → List Str
successes [] = []
successes ((n, true) ∷ l) = n ∷ successes l
successes ((n, false) ∷ l) = successes l

unfoldable pub failures : Log → List Str
failures [] = []
failures ((n, true) ∷ l) = failures l
failures ((n, false) ∷ l) = n ∷ failures l

-- Before each run of the second log, all that its action depends on was run with success.
abbrev pub InOrder : Graph → Log → Log → Type 0
InOrder g seen [] = Unit
InOrder g seen (r ∷ l) =
    ((d : Str) → In d (g.deps r.0) → In d (successes seen)) × InOrder g (seen ++ r ∷ []) l

-- Each action of `done` was run once or is reported skipped; the reported failures are the runs with
-- an error; and nothing was run before all that it depends on had been run with success.
pub record RunsInOrder (g : Graph) (done : List Str) (l : Log) (s : Summary) : Type 0 where
  pub once : (q : Str) → count q (runs l) + count q s.skipped ≡ count q done
  pub failed : (q : Str) → count q (failures l) ≡ count q s.failed
  pub in_order : InOrder g [] l

InOrder-append :
    (g : Graph) (seen l : Log) (r : Str × Bool)
    → InOrder g seen l
    → ((d : Str) → In d (g.deps r.0) → In d (successes (seen ++ l)))
    → InOrder g seen (l ++ r ∷ [])
InOrder-append g seen [] r o h =
    (λ d i. subst (λ z. In d (successes z)) (append-nil seen) (h d i), tt)
InOrder-append g seen (x ∷ l) r o h = (
  o.0,
  InOrder-append g (seen ++ x ∷ []) l r o.1
      (λ d i. subst (λ z. In d (successes z)) (sym (append_assoc seen (x ∷ []) l)) (h d i)),
)

count-runs :
    (q n : Str) (b : Bool) (l : Log)
    → count q (runs (l ++ (n, b) ∷ [])) ≡ count q (runs l) + (if str_eq n q then 1 else 0)
unfolding runs
count-runs q n b [] = omega arith
count-runs q n b ((x, c) ∷ l) = omega (arith, count-runs q n b l)

count-failures :
    (q n : Str) (b : Bool) (l : Log)
    → count q (failures (l ++ (n, b) ∷ []))
      ≡ count q (failures l) + (if b then 0 else if str_eq n q then 1 else 0)
unfolding failures
count-failures q n true [] = refl
count-failures q n false [] = omega arith
count-failures q n b ((x, true) ∷ l) = count-failures q n b l
count-failures q n b ((x, false) ∷ l) = omega (arith, count-failures q n b l)

count-successes :
    (q : Str) (l : Log) → count q (runs l) ≡ count q (successes l) + count q (failures l)
unfolding runs successes failures
count-successes q [] = refl
count-successes q ((x, true) ∷ l) = omega (arith, count-successes q l)
count-successes q ((x, false) ∷ l) = omega (arith, count-successes q l)

-- Actions that are added to `skipped`.
RunsInOrder-skip :
    (g : Graph) (done extra : List Str) (l : Log) (s : Summary)
    → RunsInOrder g done l s
    → RunsInOrder g (done ++ extra) l (record s { skipped = s.skipped ++ extra })
RunsInOrder-skip g done extra l s v = record {
  once = λ q. omega (arith, v.once q, count-append q s.skipped extra, count-append q done extra);
  failed = v.failed;
  in_order = v.in_order;
}

-- One run that was added to the log.
RunsInOrder-run :
    (g : Graph) (done : List Str) (l : Log) (s s' : Summary) (name : Str) (b : Bool)
    → RunsInOrder g done l s
    → ((d : Str) → In d (g.deps name) → In d (successes l))
    → ((q : Str) → count q s'.skipped ≡ count q s.skipped)
    → ((q : Str)
        → count q s'.failed ≡ count q s.failed + (if b then 0 else if str_eq name q then 1 else 0))
    → RunsInOrder g (done ++ name ∷ []) (l ++ (name, b) ∷ []) s'
RunsInOrder-run g done l s s' name b v ready es ef = record {
  once = λ q. omega (arith, v.once q, es q, count-runs q name b l, count-append q done (name ∷ []));
  failed = λ q.
      count-failures q name b l
      ∙ ap (λ z. z + (if b then 0 else if str_eq name q then 1 else 0)) (v.failed q)
      ∙ sym (ef q);
  in_order = InOrder-append g [] l (name, b) v.in_order ready;
}

-- What is reported to have succeeded was run with success.
succeeded-there :
    (g : Graph) (done : List Str) (l : Log) (s : Summary) (d : Str)
    → RunsInOrder g done l s
    → count d (executed s) + count d s.skipped ≤ count d done
    → Succeeded s d
    → In d (successes l)
succeeded-there g done l s d v a h =
    omega (arith, v.once d, v.failed d, count-successes d l, a, h.0, h.1)

abbrev RunsEnd : {W E : Type 0} → Graph → List Str → Outcome (W × Log) E → Type 0
RunsEnd g all o = (s : Summary) × (o.summary ≡ some s) × RunsInOrder g all o.world.1 s

abbrev RunsGoes : {W E : Type 0} → Graph → List Str → Str → List Str → Round (W × Log) E → Type 0
RunsGoes g done name rest (next s) = RunsInOrder g (done ++ name ∷ []) s.world.1 s.summary
RunsGoes g done name rest (return o) = RunsEnd g ((done ++ name ∷ []) ++ rest) o

pub logged-IsRunner : {W E : Type 0} (m : Machine W E) → IsRunner m → IsRunner (logged m)
unfolding logged
logged-IsRunner m l = record {
  named = λ x a r e. l.named x.0 a r e;
  reported = λ x a e. l.reported x.0 a e;
}

module _ {W E : Type 0} (m : Machine W E) (g : Graph) (keep_going : Bool) where
  run_action-RunsInOrder :
      (done rest : List Str) (name : Str) (s : Driver (W × Log) E) (a : Action)
      → a.name ≡ name
      → RunsInOrder g done s.world.1 s.summary
      → ((d : Str) → In d (g.deps name) → In d (successes s.world.1))
      → RunsGoes g done name rest (run_action (logged m) g keep_going name rest a s)
  unfolding run_action fail stop logged
  run_action-RunsInOrder done rest name s a named v ready =
      let logs : (o : Option E)
          → (m.run s.world.0 a).2 ≡ o
          → s.world.1 ++ (a.name, is_none (m.run s.world.0 a).2) ∷ []
            ≡ s.world.1 ++ (name, is_none o) ∷ [] =
        λ o e.
          ap (λ z. s.world.1 ++ (z, is_none (m.run s.world.0 a).2) ∷ []) named
          ∙ ap (λ z. s.world.1 ++ (name, is_none z) ∷ []) e in
      let good : Summary = record s.summary {
        results = append_result s.summary.results (m.run s.world.0 a).1;
      } in
      let bad_end : Summary = record good { failed = s.summary.failed ++ name ∷ [] } in
      elim (Option-cases (m.run s.world.0 a).2) [
        | inl fine ↦
            rw (fine, run_action)
              (subst (λ z. RunsInOrder g (done ++ name ∷ []) z good) (sym (logs none fine))
                (RunsInOrder-run g done s.world.1 s.summary good name true v ready (λ q. refl)
                  (λ q. omega arith)))
        | inr (e, bad) ↦
            let k =
              RunsInOrder-run g done s.world.1 s.summary bad_end name false v ready (λ q. refl)
                (λ q. omega (arith, count-append q s.summary.failed (name ∷ []))) in
            let k' =
              subst (λ z. RunsInOrder g (done ++ name ∷ []) z bad_end) (sym (logs (some e) bad))
                k in
            elim (Bool-cases keep_going) [
              | inl on ↦ rw (bad, run_action, on) k'
              | inr off ↦
                  rw (bad, run_action, off)
                    (_, refl, RunsInOrder-skip g (done ++ name ∷ []) rest _ bad_end k')
            ]
      ]

  module _ (w : IsWellFormed g) (x : IsIndexed g) where
    round-RunsInOrder :
        (done rest : List Str) (name : Str) (s : Driver (W × Log) E)
        → Good g done s
        → RunsInOrder g done s.world.1 s.summary
        → In name g.names
        → ((d : Str) → In d (g.deps name) → In d done)
        → RunsGoes g done name rest (round (logged m) g keep_going name rest s)
    unfolding round skip logged
    round-RunsInOrder done rest name s c v i before =
        let (a, found, named) = x name i in
        let skipped = RunsInOrder-skip g done (name ∷ []) s.world.1 s.summary v in
        elim (Bool-cases (s.poisoned name)) [
          | inl bad ↦ rw (found, round, bad) skipped
          | inr clean ↦ elim (Option-cases (m.ctx_err s.world.0)) [
            | inr (e, over) ↦ rw (found, round, clean, over) skipped
            | inl running ↦
                rw (found, round, clean, running)
                  (run_action-RunsInOrder done rest name s a named v (λ d j.
                    succeeded-there g done s.world.1 s.summary d v (c.accounts.ran_or_skipped d) (
                      deps_ready g w done s.summary s.poisoned name c.accounts c.poisons clean
                        before d j)))
          ]
        ]

    after_round :
        (done rest : List Str) (name : Str) (r : Round (W × Log) E)
        → Goes g done name rest r
        → RunsGoes g done name rest r
        → ((s : Driver (W × Log) E)
            → Good g (done ++ name ∷ []) s
            → RunsInOrder g (done ++ name ∷ []) s.world.1 s.summary
            → RunsEnd g ((done ++ name ∷ []) ++ rest) (build_loop (logged m) g keep_going rest s))
        → RunsEnd g
            ((done ++ name ∷ []) ++ rest)
            (elim r [ next s ↦ build_loop (logged m) g keep_going rest s | return o ↦ o ])
    after_round done rest name (next s) c v k = k s c v
    after_round done rest name (return o) c v k = v

    pub build_loop-RunsInOrder :
        (l : IsRunner m) (done rest : List Str) (s : Driver (W × Log) E)
        → Good g done s
        → RunsInOrder g done s.world.1 s.summary
        → IsOrdered g.deps done rest
        → ((q : Str) → count q (done ++ rest) ≤ count q g.names)
        → RunsEnd g (done ++ rest) (build_loop (logged m) g keep_going rest s)
    unfolding build_loop
    build_loop-RunsInOrder l done [] s c v o n = rw append-nil (s.summary, refl, v)
    build_loop-RunsInOrder l done (name ∷ rest) s c v o n =
        let i : In name g.names =
          omega (arith, n name, count-append name done (name ∷ rest), count-cons_self name rest) in
        let new : count name done ≡ 0 = omega (
          arith,
          n name,
          count-append name done (name ∷ rest),
          count-cons_self name rest,
          w.distinct name,
        ) in
        let e = append_assoc done (name ∷ []) rest in
        subst (λ all. RunsEnd g all (build_loop (logged m) g keep_going (name ∷ rest) s)) e
          (after_round done rest name (round (logged m) g keep_going name rest s)
            (round-Good (logged m) (logged-IsRunner m l) g w x keep_going done rest name s c i new
              o.0)
            (round-RunsInOrder done rest name s c v i o.0)
            (λ s' c' v'.
              build_loop-RunsInOrder l (done ++ name ∷ []) rest s' c' v' o.1
                (λ q. subst (λ all. count q all ≤ count q g.names) (sym e) (n q))))

-- ===== src/Runner/Build/Rounds.antt =====
-- internal/runner/build.go, `Build`: what each round of the loop does to the accounts.
use buildforge.Prelude.{
  ℕ, ◌+◌, ◌≡◌, ◌≤◌, ◌<◌, refl, sym, Str, Bool, false, List, [], ◌∷◌, ◌++◌, map, count, In,
  count-append, count-cons_self, if◌then◌else◌, Option, none, some, inl, inr, Bool-cases,
  Option-cases, arith, ◌↔◌, ◌≢◌, ◌∙◌, subst, str_eq, append_assoc, append-nil,
}
use buildforge.Manifest.{Action}
use buildforge.Graph.{Graph, IsWellFormed}
use buildforge.Graph.Build.{IsIndexed}
use buildforge.Graph.Order.{IsOrdered}
use buildforge.Runner.Result.{RunResult, Summary, executed, Machine}
use buildforge.Runner.Build.{
  BuildError, caused, Driver, Outcome, Round, next, return, or_first, append_result, skip, fail,
  stop, run_action, round, build_loop,
}
use buildforge.Runner.Build.Accounts.{
  IsRunner, Succeeded, Accounts, Poisons, count-executed, Poisons-mark, deps_ready, Accounts-skip,
  Accounts-run,
}

-- The error is nil exactly when nothing failed and nothing was skipped.
abbrev pub Reports {ℓ} : {A : Type ℓ} → Option A → Summary → Type ℓ
Reports e s = (e ≡ none) ↔ ((s.failed ≡ []) × (s.skipped ≡ []))

pub record Good {W E : Type 0} (g : Graph) (done : List Str) (s : Driver W E) : Type 0 where
  pub accounts : Accounts g done s.summary
  pub poisons : Poisons g s.summary s.poisoned
  pub reports : Reports s.first_err s.summary
  pub unpoisoned : s.first_err ≡ none → (q : Str) → s.poisoned q ≡ false

-- What holds of a returned outcome, for the list of all actions.
abbrev pub Ended : {W E : Type 0} → Graph → List Str → Outcome W E → Type 0
Ended g all o = (s : Summary) × (o.summary ≡ some s) × Accounts g all s × Reports o.error s

snoc≢nil : {A : Type 0} (xs : List A) (x : A) → xs ++ x ∷ [] ≢ []
snoc≢nil [] x e = cc
snoc≢nil (y ∷ xs) x e = cc

-- A round that goes on keeps the invariant; one that returns has accounted for all actions.
abbrev pub Goes : {W E : Type 0} → Graph → List Str → Str → List Str → Round W E → Type 0
Goes g done name rest (next s) = Good g (done ++ name ∷ []) s
Goes g done name rest (return o) = Ended g ((done ++ name ∷ []) ++ rest) o

or_first-ne-none : {A : Type 0} (o : Option A) (e : A) → or_first o e ≢ none
or_first-ne-none none e = λ h. cc
or_first-ne-none (some f) e = λ h. cc

-- The summary with a result that may be nil.
abbrev tally : Summary → Option RunResult → Summary
tally s res = record s { results = append_result s.results res }

abbrev pub has : Option RunResult → ℕ
has none = 0
has (some r) = 1

pub has-bounds : (res : Option RunResult) → (has res ≤ 1) × (1 ≤ 1) × (0 < has res + 1)
has-bounds none = omega arith
has-bounds (some r) = omega arith

pub count-tally :
    (rs : List RunResult) (name : Str) (res : Option RunResult)
    → ((r : RunResult) → res ≡ some r → r.action ≡ name)
    → (q : Str)
    → count q (map (λ x. x.action) (append_result rs res))
      ≡ count q (map (λ x. x.action) rs) + (if str_eq name q then has res else 0)
count-tally rs name none h q = ground arith
count-tally rs name (some r) h q = rw (← h r refl) (count-executed q rs r)

module _ {W E : Type 0} (m : Machine W E) (l : IsRunner m) (g : Graph) (w : IsWellFormed g)
    (keep_going : Bool) where
  module _ (done : List Str) (name : Str) (s : Driver W E) (v : Good g done s) where
    skip-Good :
        (e : Option (BuildError E))
        → e ≢ none
        → Good g (done ++ name ∷ []) (record (skip g name s) { first_err = e })
    unfolding skip
    skip-Good e some_error = record {
      accounts = Accounts-skip g w done (name ∷ []) s.summary v.accounts;
      poisons =
          Poisons-mark g w s.summary (record s.summary { skipped = s.summary.skipped ++ name ∷ [] })
            s.poisoned name v.poisons
            (λ x. omega (arith, count-append x s.summary.skipped (name ∷ [])));
      reports = (λ h. absurd (some_error h), λ h. absurd (snoc≢nil s.summary.skipped name h.1));
      unpoisoned = λ h. absurd (some_error h);
    }

  -- The action runs: it is in the graph under its name, and not poisoned.
  module _ (done rest : List Str) (name : Str) (s : Driver W E) (v : Good g done s) (a : Action)
      (named : a.name ≡ name) (new : count name done ≡ 0) (clean : s.poisoned name ≡ false)
      (before : (d : Str) → In d (g.deps name) → In d done) where
    ready : (d : Str) → In d (g.deps name) → Succeeded s.summary d
    ready = deps_ready g w done s.summary s.poisoned name v.accounts v.poisons clean before

    ran :
        (q : Str)
        → count q (executed (tally s.summary (m.run s.world a).1))
          ≡ count q (executed s.summary) + (if str_eq name q then has (m.run s.world a).1 else 0)
    ran q =
        count-tally s.summary.results name (m.run s.world a).1
          (λ r e. l.named s.world a r e ∙ named) q

    success-Good :
        (m.run s.world a).2 ≡ none
        → Good g (done ++ name ∷ []) (record s {
          world = (m.run s.world a).0;
          summary = tally s.summary (m.run s.world a).1;
        })
    success-Good fine =
        let (r, reported) = l.reported s.world a fine in
        record {
          accounts =
              Accounts-run g w done name s.summary (tally s.summary (m.run s.world a).1) 1 0
                v.accounts new ready (omega arith) (λ q. ran q ∙ rw reported) (λ q. ground arith)
                (λ q. refl);
          poisons = record { closed = v.poisons.closed; blamed = v.poisons.blamed };
          reports = v.reports;
          unpoisoned = v.unpoisoned;
        }

    failed_with : E → Driver W E
    failed_with e =
        fail g name e
          (record s { world = (m.run s.world a).0; summary = tally s.summary (m.run s.world a).1 })

    failure-Good : (e : E) → Good g (done ++ name ∷ []) (failed_with e)
    unfolding fail failed_with
    failure-Good e = record {
      accounts =
          Accounts-run g w done name s.summary _ (has (m.run s.world a).1) 1 v.accounts new ready
            (has-bounds (m.run s.world a).1) ran
            (λ q. omega (arith, count-append q s.summary.failed (name ∷ []))) (λ q. refl);
      poisons =
          Poisons-mark g w s.summary _ s.poisoned name v.poisons
            (λ x. omega (arith, count-append x s.summary.failed (name ∷ [])));
      reports = (
        λ h. absurd (or_first-ne-none s.first_err (caused e) h),
        λ h. absurd (snoc≢nil s.summary.failed name h.0),
      );
      unpoisoned = λ h. absurd (or_first-ne-none s.first_err (caused e) h);
    }

    stopped-Ended : (e : E) → Ended g ((done ++ name ∷ []) ++ rest) (stop rest (failed_with e))
    unfolding stop
    stopped-Ended e =
        let k = failure-Good e in
        (
          _,
          refl,
          Accounts-skip g w (done ++ name ∷ []) rest (failed_with e).summary k.accounts,
          (
            λ h. absurd (unfold failed_with fail in or_first-ne-none s.first_err (caused e) h),
            λ h. absurd (unfold failed_with fail in snoc≢nil s.summary.failed name h.0),
          ),
        )

    run_action-Good : Goes g done name rest (run_action m g keep_going name rest a s)
    unfolding run_action failed_with
    run_action-Good = elim (Option-cases (m.run s.world a).2) [
      | inl fine ↦ rw (fine, run_action) (success-Good fine)
      | inr (e, bad) ↦ elim (Bool-cases keep_going) [
        | inl on ↦ rw (bad, run_action, on) (failure-Good e)
        | inr off ↦ rw (bad, run_action, off) (stopped-Ended e)
      ]
    ]

module _ {W E : Type 0} (m : Machine W E) (l : IsRunner m) (g : Graph) (w : IsWellFormed g)
    (x : IsIndexed g) (keep_going : Bool) where
  pub round-Good :
      (done rest : List Str) (name : Str) (s : Driver W E)
      → Good g done s
      → In name g.names
      → count name done ≡ 0
      → ((d : Str) → In d (g.deps name) → In d done)
      → Goes g done name rest (round m g keep_going name rest s)
  unfolding round
  round-Good done rest name s v i new before =
      let (a, found, named) = x name i in
      elim (Bool-cases (s.poisoned name)) [
        | inl bad ↦
            rw (found, round, bad)
              (skip-Good m l g w keep_going done name s v s.first_err
                (λ h. cc (v.unpoisoned h name)))
        | inr clean ↦ elim (Option-cases (m.ctx_err s.world)) [
          | inl running ↦
              rw (found, round, clean, running)
                (run_action-Good m l g w keep_going done rest name s v a named new clean before)
          | inr (e, over) ↦
              rw (found, round, clean, over)
                (skip-Good m l g w keep_going done name s v (or_first s.first_err (caused e))
                  (or_first-ne-none s.first_err (caused e)))
        ]
      ]

  -- What follows a round.
  after_round :
      (done rest : List Str) (name : Str) (r : Round W E)
      → Goes g done name rest r
      → ((s : Driver W E)
          → Good g (done ++ name ∷ []) s
          → Ended g ((done ++ name ∷ []) ++ rest) (build_loop m g keep_going rest s))
      → Ended g
          ((done ++ name ∷ []) ++ rest)
          (elim r [ next s ↦ build_loop m g keep_going rest s | return o ↦ o ])
  after_round done rest name (next s) v k = k s v
  after_round done rest name (return o) v k = v

  pub build_loop-Ended :
      (done rest : List Str) (s : Driver W E)
      → Good g done s
      → IsOrdered g.deps done rest
      → ((q : Str) → count q (done ++ rest) ≤ count q g.names)
      → Ended g (done ++ rest) (build_loop m g keep_going rest s)
  unfolding build_loop
  build_loop-Ended done [] s v o c = rw append-nil (s.summary, refl, v.accounts, v.reports)
  build_loop-Ended done (name ∷ rest) s v o c =
      let i : In name g.names =
        omega (arith, c name, count-append name done (name ∷ rest), count-cons_self name rest) in
      let new : count name done ≡ 0 = omega (
        arith,
        c name,
        count-append name done (name ∷ rest),
        count-cons_self name rest,
        w.distinct name,
      ) in
      let e = append_assoc done (name ∷ []) rest in
      subst (λ all. Ended g all (build_loop m g keep_going (name ∷ rest) s)) e
        (after_round done rest name (round m g keep_going name rest s)
          (round-Good done rest name s v i new o.0)
          (λ s' v'.
            build_loop-Ended (done ++ name ∷ []) rest s' v' o.1
              (λ q. subst (λ all. count q all ≤ count q g.names) (sym e) (c q))))

-- ===== src/Runner/Build/Accounts.antt =====
-- internal/runner/build.go, `Build`: the invariant of the loop, round by round.
use buildforge.Prelude.{
  ℕ, ◌+◌, ◌≡◌, ◌≤◌, ◌<◌, sym, Str, true, false, List, [], ◌∷◌, ◌++◌, map, count, In, count-append,
  if◌then◌else◌, none, some, inl, inr, Bool-cases, Str-cases, arith, subst, ◌==◌, str_eq,
  str_eq_iff,
}
use buildforge.Manifest.{Action}
use buildforge.Graph.{Graph, IsWellFormed}
use buildforge.Runner.Result.{RunResult, Summary, executed, Machine}
use buildforge.Runner.Poison.{Poison, mark_dependents, mark_dependents-Marked}

-- What `Runner.Run` promises: a result carries the action's name, and success comes with a result.
pub record IsRunner {W E : Type 0} (m : Machine W E) : Type 0 where
  pub named : (w : W) (a : Action) (r : RunResult) → (m.run w a).1 ≡ some r → r.action ≡ a.name
  pub reported :
      (w : W) (a : Action) → (m.run w a).2 ≡ none → (r : RunResult) × ((m.run w a).1 ≡ some r)

-- `d` ran and did not fail.
abbrev pub Succeeded : Summary → Str → Type 0
Succeeded s d = In d (executed s) × (count d s.failed ≡ 0)

-- Of the actions in `done` each is skipped, or failed, or ran without failing, and is no two of
-- these; and all that an action with a result or a failure depends on has succeeded.
pub record Accounts (g : Graph) (done : List Str) (s : Summary) : Type 0 where
  pub failed_or_skipped : (q : Str) → count q s.failed + count q s.skipped ≤ count q done
  pub ran_or_skipped : (q : Str) → count q (executed s) + count q s.skipped ≤ count q done
  pub covered :
      (q : Str) → count q done ≤ count q (executed s) + count q s.failed + count q s.skipped
  pub deps_succeeded :
      (q d : Str) → 0 < count q (executed s) + count q s.failed → In d (g.deps q) → Succeeded s d

-- The actions that wait on one that failed or was skipped are poisoned.
pub record Poisons (g : Graph) (s : Summary) (p : Poison) : Type 0 where
  pub closed : (x d : Str) → p x ≡ true → In d (g.rdeps x) → p d ≡ true
  pub blamed :
      (x d : Str) → 0 < count x s.failed + count x s.skipped → In d (g.rdeps x) → p d ≡ true

pub count-executed :
    (q : Str) (rs : List RunResult) (r : RunResult)
    → count q (map (λ x. x.action) (rs ++ r ∷ []))
      ≡ count q (map (λ x. x.action) rs) + (if str_eq r.action q then 1 else 0)
count-executed q [] r = omega arith
count-executed q (x ∷ rs) r = omega (arith, count-executed q rs r)

module _ (g : Graph) (w : IsWellFormed g) where
  -- `p'` is `p` with the dependents of `name` marked, and only `name` was added to the lists.
  pub Poisons-mark :
      (s s' : Summary) (p : Poison) (name : Str)
      → Poisons g s p
      → ((x : Str)
          → count x s'.failed + count x s'.skipped
            ≡ count x s.failed + count x s.skipped + (if str_eq name x then 1 else 0))
      → Poisons g s' (mark_dependents g name p)
  Poisons-mark s s' p name v e =
      let k = mark_dependents-Marked g name p w in
      record {
        closed = λ x d h i. elim (Bool-cases (p x)) [
          | inl old ↦ k.grows d (v.closed x d old i)
          | inr new ↦ k.closed x h new d i
        ];
        blamed = λ x d h i. elim (Str-cases name x) [
          | inl same ↦ k.all_marked d (subst (λ z. In d (g.rdeps z)) (sym same) i)
          | inr (_, f) ↦ k.grows d (v.blamed x d (ground (arith, e x)) i)
        ];
      }

  -- The dependencies of an action that is next and not poisoned have succeeded.
  pub deps_ready :
      (done : List Str) (s : Summary) (p : Poison) (name : Str)
      → Accounts g done s
      → Poisons g s p
      → p name ≡ false
      → ((d : Str) → In d (g.deps name) → In d done)
      → (d : Str) → In d (g.deps name)
      → Succeeded s d
  deps_ready done s p name a v clean before d i =
      elim (Bool-cases (count d s.failed + count d s.skipped == 0)) [
        | inl none_bad ↦ ground (arith, a.covered d, before d i)
        | inr bad ↦ absurd (ground (arith, v.blamed d name, w.mirror name d))
      ]

  -- Actions that are added to `skipped`.
  pub Accounts-skip :
      (done extra : List Str) (s : Summary)
      → Accounts g done s
      → Accounts g (done ++ extra) (record s { skipped = s.skipped ++ extra })
  Accounts-skip done extra s a = record {
    failed_or_skipped = λ q.
        omega
          (arith, a.failed_or_skipped q, count-append q done extra, count-append q s.skipped extra);
    ran_or_skipped = λ q.
        omega
          (arith, a.ran_or_skipped q, count-append q done extra, count-append q s.skipped extra);
    covered =
        λ q. omega (arith, a.covered q, count-append q done extra, count-append q s.skipped extra);
    deps_succeeded = a.deps_succeeded;
  }

  -- An action that ran: `ran` results and `bad` failures of it were added.
  pub Accounts-run :
      (done : List Str) (name : Str) (s s' : Summary) (ran bad : ℕ)
      → Accounts g done s
      → count name done ≡ 0
      → ((d : Str) → In d (g.deps name) → Succeeded s d)
      → (ran ≤ 1) × (bad ≤ 1) × (0 < ran + bad)
      → ((q : Str)
          → count q (executed s') ≡ count q (executed s) + (if str_eq name q then ran else 0))
      → ((q : Str) → count q s'.failed ≡ count q s.failed + (if str_eq name q then bad else 0))
      → ((q : Str) → count q s'.skipped ≡ count q s.skipped)
      → Accounts g (done ++ name ∷ []) s'
  Accounts-run done name s s' ran bad a new ready (r, b, one) er ef es = record {
    failed_or_skipped =
        λ q. ground (arith, a.failed_or_skipped q, count-append q done (name ∷ []), ef q, es q);
    ran_or_skipped =
        λ q. ground (arith, a.ran_or_skipped q, count-append q done (name ∷ []), er q, es q);
    covered = λ q. ground (arith, a.covered q, count-append q done (name ∷ []), er q, ef q, es q);
    deps_succeeded = λ q d h i.
        let old : Succeeded s d = elim (Str-cases name q) [
          | inl e ↦ ready d (subst (λ z. In d (g.deps z)) (sym e) i)
          | inr (_, f) ↦ a.deps_succeeded q d (ground (arith, er q, ef q)) i
        ] in
        let other : str_eq name d ≡ false = ground (arith, a.ran_or_skipped d, str_eq_iff name d) in
        (omega (arith, er d), rw (ef d, other) (omega arith));
  }

-- ===== src/Runner/Run/Hermetic.antt =====
-- internal/runner/runner.go, `Run`, with the sandbox of internal/runner/sandbox.go and without a cache:
-- what an action can depend on and change.
use buildforge.Prelude.{
  ◌≡◌, refl, sym, ap, ◌∙◌, subst, Str, true, List, [], Option, none, some, ok, Option-cases,
  Result-cases, inl, inr, count, In, ◌≢◌, arith,
}
use buildforge.Manifest.{Action}
use buildforge.Cache.Store.{Workspace}
use buildforge.Runner.Result.{RunResult}
use buildforge.Runner.Run.{
  link, Box, Ran, Site, Runner, Report, first_missing, new_sandbox, cache_key, try_restore, judge,
  execute, attempt, run_command, run, environ, executed_result, failed_with, missing_input,
}
use buildforge.Runner.Run.Harvests.{LinksAgree, first_missing-same, new_sandbox-links}
use buildforge.Runner.Run.Local.{Edit, IsLocal, seen, edited, ended, seen-same, edited-Agrees}
use buildforge.Runner.Run.Compared.{Same, site, failed-Same, judge-Same}

module _ {W C X O : Type 0} (r : Runner W C X O) (a : Action) where
  pub run-missing :
      (s : Site W C) (p : Str)
      → first_missing a.inputs s.files ≡ some p
      → run r a s ≡ (s, none, some (failed_with a.name (missing_input p)))
  unfolding run
  run-missing s p e = rw (e, run) refl

module _ {W C X O : Type 0} (r : Runner W C X O) (a : Action) (no_cache : r.cache ≡ none) where
  try_restore-uncached : (s : Site W C) → try_restore r a [] s ≡ (s, none)
  unfolding try_restore
  try_restore-uncached s = rw (no_cache, try_restore) refl

  cache_key-uncached : (ws : Workspace) → cache_key r a ws ≡ ok []
  unfolding cache_key
  cache_key-uncached ws = rw (no_cache, cache_key) refl

  pub run-uncached :
      (s : Site W C) → first_missing a.inputs s.files ≡ none → run r a s ≡ run_command r a [] s
  unfolding run
  run-uncached s e =
      rw (e, cache_key-uncached s.files, try_restore-uncached s, run)
        (ap (λ (x : Site W C × Option RunResult). run_command r a [] x.0) (try_restore-uncached s))

module _ {W C X O : Type 0} (r : Runner W C X O) (a : Action) (no_cache : r.cache ≡ none)
    (local : IsLocal r.shell a.command (environ r.shell.path a)) (ws1 ws2 : Workspace) (c1 c2 : C)
    (w : W) where
  abbrev BoxedEnd : Type 0
  BoxedEnd = W × Box × Workspace × Ran O

  abbrev judged : C → BoxedEnd → Report W C O
  judged c (w', b, ws, ran) =
      judge r a [] (executed_result a.name (r.shell.now w) (r.shell.now w') ran)
        (some b, site w' ws c, ran)

  abbrev Both : BoxedEnd → BoxedEnd → Type 0
  Both x y = Same a.inputs a.outputs ws1 (judged c1 x) (judged c2 y)

  -- The command has made the same edits in both.
  edited-Same :
      (b : Box) (x : W × List Edit × Ran O)
      → LinksAgree b ws1 ws2
      → ((q : Str) → count q a.inputs ≡ 0 → b q ≢ some link)
      → Both (ended x b ws1) (ended x b ws2)
  edited-Same b (w', es, ran) l apart =
      let t = edited-Agrees es b ws1 ws2 l in
      let r1 = edited es b ws1 in
      let r2 = edited es b ws2 in
      let s =
        judge-Same r a no_cache r1.1 r2.1 c1 c2
          (executed_result a.name (r.shell.now w) (r.shell.now w') ran) r1.0 w' ran t.links_agree in
      let moved : Both (w', r1.0, r1.1, ran) (w', r1.0, r2.1, ran) = record {
        result = s.result;
        error = s.error;
        outputs_same = s.outputs_same;
        others = λ q y z. s.others q y z ∙ t.leaves q (apart q y);
      } in
      subst (λ x. Both (w', r1.0, r1.1, ran) (w', x, r2.1, ran)) t.box_same moved

  attempt-Same :
      (b : Box)
      → LinksAgree b ws1 ws2
      → ((q : Str) → count q a.inputs ≡ 0 → b q ≢ some link)
      → Same a.inputs a.outputs ws1
          (attempt r a [] (some b) (site w ws1 c1))
          (attempt r a [] (some b) (site w ws2 c2))
  unfolding attempt execute environ
  attempt-Same b l apart =
      let same : local.acts w (seen b ws1) ≡ local.acts w (seen b ws2) =
        ap (local.acts w) (seen-same b ws1 ws2 l) in
      let p2 = r.shell.run_boxed w a.command (environ r.shell.path a) b ws2 in
      subst (λ x. Both x p2) (sym (local.boxed w b ws1))
        (subst (λ y. Both (ended (local.acts w (seen b ws1)) b ws1) y) (sym (local.boxed w b ws2))
          (subst (λ x. Both (ended (local.acts w (seen b ws1)) b ws1) (ended x b ws2)) same
            (edited-Same b (local.acts w (seen b ws1)) l apart)))

  linked :
      (b : Box)
      → new_sandbox a.inputs (λ _. none) ≡ ok b
      → (q : Str) → b q ≡ some link
      → In q a.inputs
  linked b f q h = elim (new_sandbox-links a.inputs (λ _. none) b f q h) [
    | inl absent ↦ absurd (cc absent)
    | inr i ↦ i
  ]

  run-Same :
      r.sandboxed ≡ true
      → ((p : Str) → In p a.inputs → ws1 p ≡ ws2 p)
      → Same a.inputs a.outputs ws1 (run r a (site w ws1 c1)) (run r a (site w ws2 c2))
  unfolding run_command
  run-Same boxed agree =
      let m = first_missing-same a.inputs ws1 ws2 agree in
      elim (Option-cases (first_missing a.inputs ws2)) [
        | inr (p, e) ↦
            rw (run-missing r a (site w ws1 c1) p (m ∙ e), run-missing r a (site w ws2 c2) p e)
              (failed-Same r a no_cache ws1 ws2 c1 c2 w none _)
        | inl e ↦
            let u1 = run-uncached r a no_cache (site w ws1 c1) (m ∙ e) in
            let u2 = run-uncached r a no_cache (site w ws2 c2) e in
            elim (Result-cases (new_sandbox a.inputs (λ _. none))) [
              | inr (p, f) ↦
                  rw (u1, u2, boxed, f, run_command)
                    (failed-Same r a no_cache ws1 ws2 c1 c2 w none _)
              | inl (b, f) ↦
                  rw (u1, u2, boxed, f, run_command)
                    (attempt-Same b (λ q h. agree q (linked b f q h))
                      (λ q z h. let i = linked b f q h in omega arith))
            ]
      ]

-- With the sandbox and no cache, when the command of the action, with the variables that it gets,
-- reads, writes and removes files only at paths inside the sandbox and makes no links, `Run` changes the workspace at the declared outputs and at the declared inputs, which it can write through their
-- links, at most, also where it fails.
pub run-declared_only :
    {W C X O : Type 0} (r : Runner W C X O) (a : Action) (w : W) (ws : Workspace) (c : C) (q : Str)
    → IsLocal r.shell a.command (environ r.shell.path a)
    → r.cache ≡ none
    → r.sandboxed ≡ true
    → count q a.inputs ≡ 0
    → count q a.outputs ≡ 0
    → (run r a (site w ws c)).0.files q ≡ ws q
run-declared_only r a w ws c q local no_cache boxed y z =
    (run-Same r a no_cache local ws ws c c w boxed (λ p i. refl)).others q y z

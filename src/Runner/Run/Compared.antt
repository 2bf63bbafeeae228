-- ===== src/Runner/Run/Compared.antt =====
-- internal/runner/sandbox.go: what follows when a command has run in the sandbox, in two workspaces.
use buildforge.Prelude.{
  ◌≡◌, refl, ◌∙◌, Str, List, [], Option, none, some, Option-cases, inl, inr, count, In,
}
use buildforge.Manifest.{Action}
use buildforge.Cache.Store.{Workspace}
use buildforge.Runner.Result.{RunResult}
use buildforge.Runner.Run.{
  Box, Ending, succeeded, exited, broken, Ran, ActionError, Site, Runner, Report, first_missing,
  harvest, keep, collect, judge,
}
use buildforge.Runner.Run.Harvests.{LinksAgree, first_missing-same, harvest-Harvests}

-- Two reports of one action: the same result and error, and the same outputs when there is no error.
-- In the first, no path but an input or an output differs from what the workspace held.
pub record Same {W C O : Type 0} (inputs outputs : List Str) (ws1 : Workspace)
    (p1 p2 : Report W C O) : Type 0 where
  pub result : p1.1 ≡ p2.1
  pub error : p1.2 ≡ p2.2
  pub outputs_same : (q : Str) → p1.2 ≡ none → In q outputs → p1.0.files q ≡ p2.0.files q
  pub others : (q : Str) → count q inputs ≡ 0 → count q outputs ≡ 0 → p1.0.files q ≡ ws1 q

abbrev pub site : {W C : Type 0} → W → Workspace → C → Site W C
site w ws c = record { world = w; files = ws; cached = c }

module _ {W C X O : Type 0} (r : Runner W C X O) (a : Action) (no_cache : r.cache ≡ none)
    (ws1 ws2 : Workspace) (c1 c2 : C) where
  pub failed-Same :
      (w : W) (res : Option RunResult) (e : ActionError O)
      → Same {W = W} {C = C} {O = O} a.inputs a.outputs ws1
          (site w ws1 c1, res, some e)
          (site w ws2 c2, res, some e)
  failed-Same w res e = record {
    result = refl;
    error = refl;
    outputs_same = λ q h i. cc;
    others = λ q y z. refl;
  }

  pub collect-Same :
      (res : RunResult) (b : Box) (w : W)
      → LinksAgree b ws1 ws2
      → Same a.inputs a.outputs ws1
          (collect r a [] res (some b) (site w ws1 c1))
          (collect r a [] res (some b) (site w ws2 c2))
  unfolding collect keep
  collect-Same res b w l =
      let t = harvest-Harvests a.outputs b ws1 ws2 l in
      elim (Option-cases (harvest a.outputs b ws2).1) [
        | inr (p, e) ↦
            let e' = t.lost ∙ e in
            rw (e', e, collect)
              (record {
                result = refl;
                error = refl;
                outputs_same = λ q h i. cc;
                others = λ q y z. t.others1 q z;
              })
        | inl e ↦
            let e' = t.lost ∙ e in
            let m =
              first_missing-same a.outputs (harvest a.outputs b ws1).0 (harvest a.outputs b ws2).0
                (λ p i. t.moved p e' i) in
            elim (Option-cases (first_missing a.outputs (harvest a.outputs b ws2).0)) [
              | inr (p, f) ↦
                  let f' = m ∙ f in
                  rw (e', e, f', f, collect)
                    (record {
                      result = refl;
                      error = refl;
                      outputs_same = λ q h i. cc;
                      others = λ q y z. t.others1 q z;
                    })
              | inl f ↦
                  let f' = m ∙ f in
                  rw (e', e, f', f, no_cache, collect, keep)
                    (record {
                      result = refl;
                      error = refl;
                      outputs_same = λ q h i. t.moved q e' i;
                      others = λ q y z. t.others1 q z;
                    })
            ]
      ]

  pub judge-Same :
      (res : RunResult) (b : Box) (w : W) (ran : Ran O)
      → LinksAgree b ws1 ws2
      → Same a.inputs a.outputs ws1
          (judge r a [] res (some b, site w ws1 c1, ran))
          (judge r a [] res (some b, site w ws2 c2, ran))
  unfolding judge
  judge-Same res b w ran l = by_ending ran.ending refl
    where
      by_ending :
          (x : Ending O)
          → ran.ending ≡ x
          → Same a.inputs a.outputs ws1
              (judge r a [] res (some b, site w ws1 c1, ran))
              (judge r a [] res (some b, site w ws2 c2, ran))
      by_ending succeeded e = rw (e, judge) (collect-Same res b w l)
      by_ending (exited code) e = elim (Option-cases (r.shell.ctx_err w)) [
        | inl go ↦ rw (e, go, judge) (failed-Same w _ _)
        | inr (c, stop) ↦ rw (e, stop, judge) (failed-Same w _ _)
      ]
      by_ending (broken o) e = elim (Option-cases (r.shell.ctx_err w)) [
        | inl go ↦ rw (e, go, judge) (failed-Same w _ _)
        | inr (c, stop) ↦ rw (e, stop, judge) (failed-Same w _ _)
      ]

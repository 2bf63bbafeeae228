-- ===== src/Runner/Run/Named.antt =====
-- internal/runner/runner.go, `Run`: what a report says of its action, on every branch.
use buildforge.Prelude.{
  ℕ, ◌≡◌, refl, sym, ap, ◌∙◌, subst, Str, str_eq, true, false, [], Option, none, some, Bool-cases,
  Option-cases, Result-cases, inl, inr,
}
use buildforge.Manifest.{Action}
use buildforge.Runner.Result.{RunResult}
use buildforge.Runner.Build.Accounts.{IsRunner}
use buildforge.Runner.Run.{
  Box, Ending, succeeded, exited, broken, ActionError, Site, Runner, Report, Scene, first_missing,
  harvest, new_sandbox, cache_key, try_restore, keep, collect, judge, execute, attempt, run_command,
  run, machine_of, cached_result,
}

-- A report carries a result of this action, or an error, or both; a result without an error comes
-- from the cache, or with all outputs in place.
pub record Fair {W C O : Type 0} (a : Action) (p : Report W C O) : Type 0 where
  pub named : (res : RunResult) → p.1 ≡ some res → res.action ≡ a.name
  pub reported : p.2 ≡ none → (res : RunResult) × (p.1 ≡ some res)
  pub produced :
      (res : RunResult)
      → p.1 ≡ some res
      → p.2 ≡ none
      → res.cached ≡ false
      → first_missing a.outputs p.0.files ≡ none

module _ {W C O : Type 0} (a : Action) where
  -- Three shapes of reports.
  failed-Fair :
      (s : Site W C) (res : RunResult) (e : ActionError O)
      → res.action ≡ a.name
      → Fair {W = W} {C = C} {O = O} a (s, some res, some e)
  failed-Fair s res e n = record {
    named = λ x h. let same : res ≡ x = cc h in subst (λ z. z.action ≡ a.name) same n;
    reported = λ h. cc;
    produced = λ x h k. cc;
  }

  nil-Fair : (s : Site W C) (e : ActionError O) → Fair {W = W} {C = C} {O = O} a (s, none, some e)
  nil-Fair s e = record { named = λ x h. cc; reported = λ h. cc; produced = λ x h k. cc }

  good-Fair :
      (s : Site W C) (res : RunResult)
      → res.action ≡ a.name
      → (res.cached ≡ false → first_missing a.outputs s.files ≡ none)
      → Fair {W = W} {C = C} {O = O} a (s, some res, none)
  good-Fair s res n m = record {
    named = λ x h. let same : res ≡ x = cc h in subst (λ z. z.action ≡ a.name) same n;
    reported = λ h. (res, refl);
    produced = λ x h k u. let same : res ≡ x = cc h in m (ap (λ z. z.cached) same ∙ u);
  }

-- A result from the cache names the action, and says that it is cached.
pub record Restored (a : Action) (found : Option RunResult) : Type 0 where
  pub named : (res : RunResult) → found ≡ some res → res.action ≡ a.name
  pub cached : (res : RunResult) → found ≡ some res → res.cached ≡ true

nothing-Restored : (a : Action) → Restored a none
nothing-Restored a = record { named = λ res h. cc; cached = λ res h. cc }

cached-Restored : (a : Action) (begin end : ℕ) → Restored a (some (cached_result a.name begin end))
cached-Restored a begin end = record {
  named = λ res h.
      let same : cached_result a.name begin end ≡ res = cc h in sym (ap (λ z. z.action) same);
  cached = λ res h.
      let same : cached_result a.name begin end ≡ res = cc h in sym (ap (λ z. z.cached) same);
}

module _ {W C X O : Type 0} (r : Runner W C X O) (a : Action) where
  keep-Fair :
      (key : Str) (res : RunResult) (s : Site W C)
      → res.action ≡ a.name
      → first_missing a.outputs s.files ≡ none
      → Fair a (keep r a key res s)
  unfolding keep
  keep-Fair key res s n m = elim (Option-cases r.cache) [
    | inl e ↦ rw (e, keep) (good-Fair a s res n (λ _. m))
    | inr (c, e) ↦ elim (Bool-cases (str_eq key [])) [
      | inl b ↦ rw (e, b, keep) (good-Fair a s res n (λ _. m))
      | inr b ↦
          let p = c.put_from s.cached key s.files a.outputs in
          elim (Result-cases p.1) [
            | inr (x, f) ↦
                rw (e, b, f, keep) (good-Fair a (record s { cached = p.0 }) res n (λ _. m))
            | inl (q, f) ↦
                rw (e, b, f, keep)
                  (good-Fair a (record s { cached = p.0 })
                    (record res { nondeterministic = q.nondeterministic }) n (λ _. m))
          ]
    ]
  ]

  collect-Fair :
      (key : Str) (res : RunResult) (box : Option Box) (s : Site W C)
      → res.action ≡ a.name
      → Fair a (collect r a key res box s)
  unfolding collect
  collect-Fair key res none s n = elim (Option-cases (first_missing a.outputs s.files)) [
    | inr (p, e) ↦ rw (e, collect) (failed-Fair a s res _ n)
    | inl e ↦ rw (e, collect) (keep-Fair key res s n e)
  ]
  collect-Fair key res (some b) s n =
      let h = harvest a.outputs b s.files in
      let s' : Site W C = record s { files = h.0 } in
      elim (Option-cases h.1) [
        | inr (p, e) ↦ rw (e, collect) (failed-Fair a s' res _ n)
        | inl e ↦ elim (Option-cases (first_missing a.outputs h.0)) [
          | inr (p, f) ↦ rw (e, f, collect) (failed-Fair a s' res _ n)
          | inl f ↦ rw (e, f, collect) (keep-Fair key res s' n f)
        ]
      ]

  judge-Fair :
      (key : Str) (res : RunResult) (scene : Scene W C O)
      → res.action ≡ a.name
      → Fair a (judge r a key res scene)
  unfolding judge
  judge-Fair key res (box, s, ran) n = by_ending ran.ending refl
    where
      by_ending : (x : Ending O) → ran.ending ≡ x → Fair a (judge r a key res (box, s, ran))
      by_ending succeeded e = rw (e, judge) (collect-Fair key res box s n)
      by_ending (exited code) e = elim (Option-cases (r.shell.ctx_err s.world)) [
        | inl go ↦ rw (e, go, judge) (failed-Fair a s (record res { exit_code = code }) _ n)
        | inr (c, stop) ↦ rw (e, stop, judge) (failed-Fair a s res _ n)
      ]
      by_ending (broken o) e = elim (Option-cases (r.shell.ctx_err s.world)) [
        | inl go ↦ rw (e, go, judge) (failed-Fair a s res _ n)
        | inr (c, stop) ↦ rw (e, stop, judge) (failed-Fair a s res _ n)
      ]

  attempt-Fair : (key : Str) (box : Option Box) (s : Site W C) → Fair a (attempt r a key box s)
  unfolding attempt
  attempt-Fair key box s = judge-Fair key _ (execute r a box s) refl

  run_command-Fair : (key : Str) (s : Site W C) → Fair a (run_command r a key s)
  unfolding run_command
  run_command-Fair key s = elim (Bool-cases r.sandboxed) [
    | inr e ↦ rw (e, run_command) (attempt-Fair key none s)
    | inl e ↦ elim (Result-cases (new_sandbox a.inputs (λ _. none))) [
      | inl (box, f) ↦ rw (e, f, run_command) (attempt-Fair key (some box) s)
      | inr (p, f) ↦ rw (e, f, run_command) (nil-Fair a s _)
    ]
  ]

  pub try_restore-Restored : (key : Str) (s : Site W C) → Restored a (try_restore r a key s).1
  unfolding try_restore
  try_restore-Restored key s = elim (Option-cases r.cache) [
    | inl e ↦ rw (e, try_restore) (nothing-Restored a)
    | inr (c, e) ↦ elim (Bool-cases (str_eq key [])) [
      | inl b ↦ rw (e, b, try_restore) (nothing-Restored a)
      | inr b ↦
          let p = c.look_up s.cached key in
          elim (Result-cases p.1) [
            | inr (x, f) ↦ rw (e, b, f, try_restore) (nothing-Restored a)
            | inl (found, f) ↦ elim (Option-cases found) [
              | inl missed ↦ rw (e, b, f, missed, try_restore) (nothing-Restored a)
              | inr (entry, there) ↦
                  let q = c.restore_to p.0 entry s.files in
                  elim (Result-cases q.1) [
                    | inr (x, g) ↦ rw (e, b, f, there, g, try_restore) (nothing-Restored a)
                    | inl (u, g) ↦
                        rw (e, b, f, there, g, try_restore)
                          (cached-Restored a (r.shell.now s.world) (r.shell.now s.world))
                  ]
            ]
          ]
    ]
  ]

  run-Fair : (s : Site W C) → Fair a (run r a s)
  unfolding run
  run-Fair s = elim (Option-cases (first_missing a.inputs s.files)) [
    | inr (p, e) ↦ rw (e, run) (nil-Fair a s _)
    | inl e ↦ elim (Result-cases (cache_key r a s.files)) [
      | inr (x, f) ↦ rw (e, f, run) (nil-Fair a s _)
      | inl (key, f) ↦
          let t = try_restore r a key s in
          elim (Option-cases t.1) [
            | inl missed ↦ rw (e, f, missed, run) (run_command-Fair key t.0)
            | inr (res, hit) ↦
                let v = try_restore-Restored key s in
                rw (e, f, hit, run)
                  (good-Fair a t.0 res (v.named res hit) (λ u. cc (u, v.cached res hit)))
          ]
    ]
  ]

-- `Run` keeps what the drivers rely on, whatever the cache answers and the commands do: its result
-- names the action, and success comes with a result.
pub run-IsRunner : {W C X O : Type 0} (r : Runner W C X O) → IsRunner (machine_of r)
run-IsRunner r = record {
  named = λ s a. (run-Fair r a s).named;
  reported = λ s a. (run-Fair r a s).reported;
}

-- When `Run` executed an action and reports no error, all declared outputs are in the workspace.
pub run-produced :
    {W C X O : Type 0} (r : Runner W C X O) (a : Action) (s : Site W C) (res : RunResult)
    → (run r a s).1 ≡ some res
    → (run r a s).2 ≡ none
    → res.cached ≡ false
    → first_missing a.outputs (run r a s).0.files ≡ none
run-produced r a s = (run-Fair r a s).produced

-- ===== src/Runner/Build/Erases.antt =====
-- internal/runner/build.go, `Build`: a machine that logs its runs does not change the build.
use buildforge.Prelude.{
  ◌≡◌, refl, ap, ◌∙◌, Str, Bool, List, [], ◌∷◌, inl, inr, Bool-cases, Option-cases, Result-cases,
}
use buildforge.Manifest.{Action}
use buildforge.Graph.{Graph}
use buildforge.Graph.Topological.{topological_order}
use buildforge.Runner.Result.{Machine}
use buildforge.Runner.Build.{
  Driver, Outcome, Round, next, return, skip, fail, stop, run_action, round, build_loop, build,
  begin,
}
use buildforge.Runner.Build.Logged.{Log, logged}

abbrev erase_driver : {W E : Type 0} → Driver (W × Log) E → Driver W E
erase_driver s = record {
  world = s.world.0;
  poisoned = s.poisoned;
  summary = s.summary;
  first_err = s.first_err;
}

-- The outcome without the log.
abbrev pub erase : {W E : Type 0} → Outcome (W × Log) E → Outcome W E
erase o = record { world = o.world.0; summary = o.summary; error = o.error }

abbrev erase_round : {W E : Type 0} → Round (W × Log) E → Round W E
erase_round (next s) = next (erase_driver s)
erase_round (return o) = return (erase o)

module _ {W E : Type 0} (m : Machine W E) (g : Graph) (keep_going : Bool) where
  run_action-erases :
      (name : Str) (rest : List Str) (a : Action) (s : Driver (W × Log) E)
      → erase_round (run_action (logged m) g keep_going name rest a s)
        ≡ run_action m g keep_going name rest a (erase_driver s)
  unfolding run_action fail stop logged
  run_action-erases name rest a s = elim (Option-cases (m.run s.world.0 a).2) [
    | inl fine ↦ rw (fine, run_action) refl
    | inr (e, bad) ↦ elim (Bool-cases keep_going) [
      | inl on ↦ rw (bad, on, run_action) refl
      | inr off ↦ rw (bad, off, run_action) refl
    ]
  ]

  round-erases :
      (name : Str) (rest : List Str) (s : Driver (W × Log) E)
      → erase_round (round (logged m) g keep_going name rest s)
        ≡ round m g keep_going name rest (erase_driver s)
  unfolding round skip logged
  round-erases name rest s = elim (Option-cases (g.actions name)) [
    | inl missing ↦ rw (missing, round) refl
    | inr (a, found) ↦ elim (Bool-cases (s.poisoned name)) [
      | inl bad ↦ rw (found, bad, round) refl
      | inr clean ↦ elim (Option-cases (m.ctx_err s.world.0)) [
        | inl running ↦ rw (found, clean, running, round) (run_action-erases name rest a s)
        | inr (e, over) ↦ rw (found, clean, over, round) refl
      ]
    ]
  ]

  pub build_loop-erases :
      (order : List Str) (s : Driver (W × Log) E)
      → erase (build_loop (logged m) g keep_going order s)
        ≡ build_loop m g keep_going order (erase_driver s)
  unfolding build_loop
  build_loop-erases [] s = refl
  build_loop-erases (name ∷ rest) s =
      after (round (logged m) g keep_going name rest s) (build_loop-erases rest)
      ∙ ap (λ r. elim r [ next x ↦ build_loop m g keep_going rest x | return o ↦ o ])
          (round-erases name rest s)
    where
      after :
          (r : Round (W × Log) E)
          → ((x : Driver (W × Log) E)
              → erase (build_loop (logged m) g keep_going rest x)
                ≡ build_loop m g keep_going rest (erase_driver x))
          → erase (elim r [ next x ↦ build_loop (logged m) g keep_going rest x | return o ↦ o ])
            ≡ elim (erase_round r) [ next x ↦ build_loop m g keep_going rest x | return o ↦ o ]
      after (next x) k = k x
      after (return o) k = refl

  pub build-erases :
      (world : W) → erase (build (logged m) g keep_going (world, [])) ≡ build m g keep_going world
  unfolding build
  build-erases world = elim (Result-cases (topological_order g)) [
    | inl (order, sorted) ↦ rw (sorted, build) (build_loop-erases order (begin (world, [])))
    | inr (e, failed) ↦ rw (failed, build) refl
  ]

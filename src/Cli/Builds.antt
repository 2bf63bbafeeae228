-- ===== src/Cli/Builds.antt =====
-- cmd/buildforge/main.go: from the bytes of a manifest to the end of a sequential build.
use buildforge.Prelude.{
  ℕ, ◌≡◌, ◌≢◌, refl, sym, ap, ◌∙◌, subst, Str, List, [], ◌∷◌, length, Option, none, some, Result,
  ok, err, inl, inr, ◌⊎◌, ◌↔◌, count, All, Bool, arith, str_eq_iff,
}
use mathlib.Core.List.{reverse}
use buildforge.Manifest.{
  Manifest, Action, Verdict, valid, no_actions, invalid, validate, action_names,
}
use buildforge.Manifest.Valid.{IsValid, IsValidAction, validate-valid_iff}
use buildforge.Graph.{Graph, new}
use buildforge.Graph.Order.{IsPath, IsCycle}
use buildforge.Graph.Build.{new-Holds, new-IsWellFormed}
use buildforge.Graph.Topological.{topological_order, cycle_error}
use buildforge.Graph.Topological.Correct.{topological_order-Sorts}
use buildforge.Graph.Critical.Walks.{weight}
use buildforge.Graph.Critical.Longest.{critical_path-IsPath}
use buildforge.Runner.Result.{Summary, Machine}
use buildforge.Runner.Build.{build, BuildError, Outcome, order_error}
use buildforge.Runner.Build.Accounts.{IsRunner, Accounts}
use buildforge.Runner.Build.Logged.{Log, logged, RunsInOrder}
use buildforge.Runner.Build.Erases.{erase, build-erases}
use buildforge.Runner.Build.Correct.{build-Accounts}
use buildforge.Runner.Build.Rounds.{Reports}
use buildforge.Runner.Run.{Runner, Site, machine_of}
use buildforge.Runner.Run.Named.{run-IsRunner}
use buildforge.Cli.{
  rejected, admit, parse, load_manifest, load, tally, durations, Built, not_built, build_command,
  print_summary, build_failure,
}

admit-ok :
    {D : Type 0} (m m' : Manifest) (v : Verdict)
    → admit {D = D} m v ≡ ok m'
    → (v ≡ valid) × (m ≡ m')
admit-ok m m' valid h = (refl, cc h)
admit-ok m m' no_actions h = cc
admit-ok m m' (invalid ps) h = cc

module _ {D : Type 0} (decode : List ℕ → Result D Manifest) where
  load-valid :
      (b : List ℕ) (m : Manifest) (g : Graph)
      → decode b ≡ ok m
      → IsValid m
      → new m ≡ ok g
      → load decode (some b) ≡ ok (g, length m)
  unfolding load load_manifest parse
  load-valid b m g e v made =
      rw (e, (validate-valid_iff m).1 v, made, load, load_manifest, parse) refl

  unloaded :
      (b : List ℕ) (m : Manifest) (v : Verdict)
      → decode b ≡ ok m
      → validate m ≡ v
      → v ≢ valid
      → load decode (some b) ≡ err (rejected v)
  unfolding load load_manifest parse
  unloaded b m valid e h bad = absurd (bad refl)
  unloaded b m no_actions e h bad = rw (e, h, load, load_manifest, parse) refl
  unloaded b m (invalid ps) e h bad = rw (e, h, load, load_manifest, parse) refl

-- Every subcommand that reads a manifest gets a graph exactly when the manifest that the file decodes
-- to is valid, and then with the number of its actions.
pub load-ok_iff :
    {D : Type 0} (decode : List ℕ → Result D Manifest) (b : List ℕ) (m : Manifest)
    → decode b ≡ ok m
    → ((g : Graph) × (load decode (some b) ≡ ok (g, length m))) ↔ IsValid m
load-ok_iff decode b m e = (
  λ (g, loaded). by_verdict g loaded (validate m) refl,
  λ v. let (g, made, _, _, _) = new-Holds m v in (g, load-valid decode b m g e v made),
)
  where
    by_verdict :
        (g : Graph)
        → load decode (some b) ≡ ok (g, length m)
        → (v : Verdict) → validate m ≡ v
        → IsValid m
    by_verdict g loaded valid h = (validate-valid_iff m).0 h
    by_verdict g loaded no_actions h =
        absurd (cc (loaded, unloaded decode b m no_actions e h (λ x. cc x)))
    by_verdict g loaded (invalid ps) h =
        absurd (cc (loaded, unloaded decode b m (invalid ps) e h (λ x. cc x)))

all_named :
    (known : List Str) (l : List Action)
    → All (IsValidAction known) l
    → count [] (action_names l) ≡ 0
all_named known [] v = refl
all_named known (a ∷ l) v = ground (arith, v.0.named, str_eq_iff a.name [], all_named known l v.1)

-- What the end of a sequential build says, for a graph with its driver's outcome, beside a log of
-- the actions that were run.
pub record Told {W E : Type 0} (g : Graph) (D : Type 0) (log : Log) (o : Built W D E) : Type 0 where
  pub summary : Summary
  pub down : List Str
  pub printed : o.printed ≡ some (tally g summary)
  pub accounts : Accounts g g.names summary
  pub reports : Reports o.failure summary
  pub ran : RunsInOrder g g.names log summary
  pub critical : (tally g summary).critical ≡ some (reverse down, weight (durations summary) down)
  pub path : IsPath g.deps down

failure_iff :
    {D E : Type 0} (x : Option (BuildError E)) → (build_failure {D = D} x ≡ none) ↔ (x ≡ none)
failure_iff none = (λ h. refl, λ h. refl)
failure_iff (some e) = (λ h. cc h, λ h. cc h)

module _ {D W E : Type 0} (decode : List ℕ → Result D Manifest) (b : List ℕ) (m : Manifest)
    (machine : Machine W E) (keep_going : Bool) (world : W) (g : Graph) (e : decode b ≡ ok m)
    (v : IsValid m) (made : new m ≡ ok g) where
  abbrev outcome : Outcome W E
  outcome = build machine g keep_going world

  built : Built W D E
  built = build_command (λ h w. build machine h keep_going w) decode (some b) world

  built-outcome : built ≡ record {
    world = outcome.world;
    printed = print_summary g outcome.summary;
    failure = build_failure outcome.error;
  }
  unfolding built build_command
  built-outcome = rw (load-valid decode b m g e v made, build_command) refl

  ordered-Told :
      (order : List Str)
      → IsRunner machine
      → count [] g.names ≡ 0
      → topological_order g ≡ ok order
      → Told g D (build (logged machine) g keep_going (world, [])).world.1 built
  unfolding tally
  ordered-Told order runs named sorted =
      let (w, x) = new-IsWellFormed m g v made in
      let (s, returned, accounts, reports, ran, _) =
        build-Accounts machine g keep_going world order runs w x sorted in
      let (down, longest, path, _) = critical_path-IsPath g (durations s) order w named sorted in
      let f = failure_iff {D = D} outcome.error in
      subst (Told g D _) (sym built-outcome) (record {
        summary = s;
        down = down;
        printed = ap (print_summary g) returned;
        accounts = accounts;
        reports = (λ h. reports.0 (f.0 h), λ h. f.1 (reports.1 h));
        ran = ran;
        critical = longest;
        path = path;
      })

  cyclic-built :
      (c : List Str)
      → topological_order g ≡ err (cycle_error c)
      → built ≡ record {
        world = world;
        printed = none;
        failure = some (not_built (order_error (cycle_error c)));
      }
  unfolding build
  cyclic-built c sorted = built-outcome ∙ rw (sorted, build) refl

-- What `build -seq` does on a file that decodes to a valid manifest, with any runner, cache, commands
-- and cancellations: either it reports a real cycle of the declared dependencies, runs nothing and
-- prints no summary; or it prints a summary in which each action is skipped, or failed, or ran without
-- failing, and is no two of these, with a critical path that is a chain of dependent actions and its
-- duration, and then it returns an error exactly when something failed or was skipped. When the runner
-- also logs its runs, which changes nothing else that the driver returns, the log shows that each action
-- was run exactly once or is reported skipped, that the failures are the runs that returned an error,
-- and that nothing was run before all that it depends on had been run with success.
pub build_command-Told :
    {W C X O D : Type 0} (r : Runner W C X O) (decode : List ℕ → Result D Manifest) (b : List ℕ)
    (m : Manifest) (keep_going : Bool) (s : Site W C)
    → decode b ≡ ok m
    → IsValid m
    → (g : Graph) × (new m ≡ ok g)
      × (((c : List Str) × IsCycle g.deps c
            × (build_command (λ h w. build (machine_of r) h keep_going w) decode (some b) s
                ≡ record {
                  world = s;
                  printed = none;
                  failure = some (not_built (order_error (cycle_error c)));
                }))
          ⊎ (Told g D
                (build (logged (machine_of r)) g keep_going (s, [])).world.1
                (build_command (λ h w. build (machine_of r) h keep_going w) decode (some b) s)
              × (erase (build (logged (machine_of r)) g keep_going (s, []))
                  ≡ build (machine_of r) g keep_going s)))
unfolding built
build_command-Told r decode b m keep_going s e v =
    let (g, made, w, same, _) = new-Holds m v in
    (
      g,
      made,
      elim (topological_order-Sorts g w) [
        | inr (c, sorted, cycle) ↦
            inl (c, cycle, cyclic-built decode b m (machine_of r) keep_going s g e v made c sorted)
        | inl (order, sorted, _) ↦ inr (
          ordered-Told decode b m (machine_of r) keep_going s g e v made order (run-IsRunner r)
              (same [] ∙ all_named (action_names m) m v.actions) sorted,
          build-erases (machine_of r) g keep_going s,
        )
      ],
    )

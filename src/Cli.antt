-- ===== src/Cli.antt =====
-- cmd/buildforge/main.go: the subcommands that read a manifest, from the file's bytes to what they
-- print, with `Load` and `Parse` of internal/manifest/manifest.go and `Durations` of
-- internal/sched/sched.go. The JSON decoder and the driver are parameters. The layout of lines and
-- the reading of flags are left out.
pub mod Builds
pub mod Sizes
use buildforge.Prelude.{
  ℕ, ◌+◌, Str, List, [], ◌∷◌, length, update, Option, none, some, Result, ok, err, ℤ,
}
use buildforge.Manifest.{Manifest, Verdict, valid, no_actions, invalid, validate}
use buildforge.Graph.{Graph, GraphError, new}
use buildforge.Graph.Topological.{TopologicalError, topological_order}
use buildforge.Graph.Critical.{critical_path}
use buildforge.Runner.Result.{RunResult, Summary, duration, succeeded, cached, nondeterministic}
use buildforge.Runner.Build.{BuildError, Outcome}

pub data LoadError (D : Type 0) : Type 0 where
  unopened : LoadError D
  undecoded : D → LoadError D
  rejected : Verdict → LoadError D
  no_graph : GraphError → LoadError D

-- The end of `Parse`, with what `Validate` returned.
abbrev pub admit : {D : Type 0} → Manifest → Verdict → Result (LoadError D) Manifest
admit m valid = ok m
admit m no_actions = err (rejected no_actions)
admit m (invalid ps) = err (rejected (invalid ps))

module _ {D : Type 0} (decode : List ℕ → Result D Manifest) where
  -- `Parse`
  unfoldable pub parse : List ℕ → Result (LoadError D) Manifest
  unfolding validate
  parse b = elim (decode b) [ err x ↦ err (undecoded x) | ok m ↦ admit m (validate m) ]

  -- `Load`, on the bytes of the file, if it can be opened.
  unfoldable pub load_manifest : Option (List ℕ) → Result (LoadError D) Manifest
  unfolding parse
  load_manifest none = err unopened
  load_manifest (some b) = parse b

  -- `load`
  unfoldable pub load : Option (List ℕ) → Result (LoadError D) (Graph × ℕ)
  unfolding load_manifest new
  load file = elim (load_manifest file) [
    | err e ↦ err e
    | ok m ↦ elim (new m) [ err e ↦ err (no_graph e) | ok g ↦ ok (g, length m) ]
  ]

  -- `validate`: the number of actions.
  unfoldable pub validate_command : Option (List ℕ) → Result (LoadError D) ℕ
  unfolding load
  validate_command file = elim (load file) [ err e ↦ err e | ok (_, n) ↦ ok n ]

pub data CommandError (D E : Type 0) : Type 0 where
  not_loaded : LoadError D → CommandError D E
  no_order : TopologicalError → CommandError D E
  not_built : BuildError E → CommandError D E

-- The lines of `printGraph`: a number, an action and what it comes after.
unfoldable pub listing : Graph → ℕ → List Str → List (ℕ × Str × List Str)
listing g i [] = []
listing g i (n ∷ ns) = (i + 1, n, g.deps n) ∷ listing g (i + 1) ns

-- `printGraph`
unfoldable pub print_graph :
    {D E : Type 0}
    → (List ℕ → Result D Manifest)
    → Option (List ℕ)
    → Result (CommandError D E) (List (ℕ × Str × List Str))
unfolding load topological_order listing
print_graph decode file = elim (load decode file) [
  | err e ↦ err (not_loaded e)
  | ok (g, _) ↦ elim (topological_order g) [
    | err e ↦ err (no_order e)
    | ok order ↦ ok (listing g 0 order)
  ]
]

-- `Durations`: the map, whose value at a missing key is the zero value.
durations_from : List RunResult → (Str → ℕ) → Str → ℕ
durations_from [] dur = dur
durations_from (r ∷ rs) dur = durations_from rs (update dur r.action (duration r))

unfoldable pub durations : Summary → Str → ℕ
unfolding durations_from duration
durations s = durations_from s.results (λ _. 0)

-- What `build` prints of a summary.
pub record Tally : Type 0 where
  pub succeeded_count : ℤ
  pub cached_count : ℕ
  pub failed_count : ℕ
  pub skipped_count : ℕ
  pub unstable : List Str
  pub critical : Option (List Str × ℕ)

unfoldable pub tally : Graph → Summary → Tally
unfolding succeeded cached nondeterministic critical_path durations
tally g s = record {
  succeeded_count = succeeded s;
  cached_count = cached s;
  failed_count = length s.failed;
  skipped_count = length s.skipped;
  unstable = nondeterministic s;
  critical = critical_path g (durations s);
}

-- What `build` prints and returns, with what it leaves of the world.
pub record Built (W D E : Type 0) : Type 0 where
  pub world : W
  pub printed : Option Tally
  pub failure : Option (CommandError D E)

abbrev pub print_summary : Graph → Option Summary → Option Tally
print_summary g none = none
print_summary g (some s) = some (tally g s)

abbrev pub build_failure : {D E : Type 0} → Option (BuildError E) → Option (CommandError D E)
build_failure none = none
build_failure (some e) = some (not_built e)

-- `build`, with the driver that the configuration chooses.
unfoldable pub build_command :
    {W D E : Type 0}
    → (Graph → W → Outcome W E)
    → (List ℕ → Result D Manifest)
    → Option (List ℕ)
    → W
    → Built W D E
unfolding load tally
build_command drive decode file world = elim (load decode file) [
  | err e ↦ record { world = world; printed = none; failure = some (not_loaded e) }
  | ok (g, _) ↦
      let o = drive g world in
      record {
        world = o.world;
        printed = print_summary g o.summary;
        failure = build_failure o.error;
      }
]

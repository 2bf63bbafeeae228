-- ===== src/Tests/Runs.antt =====
-- Running one action with a small operating system, and the critical path of a small graph.
use buildforge.Prelude.{
  ℕ, ◌≡◌, ◌≢◌, ◌≤◌, ◌+◌, refl, Str, bytes, str_eq, str_eq_iff, List, [], ◌∷◌, Option, none, some,
  true, false, ok, update, update_ne, ◌∙◌, In, arith, count, if◌then◌else◌, pos, sort_strings,
}
use mathlib.Core.List.{reverse}
use buildforge.Manifest.{Action}
use buildforge.Graph.{Graph}
use buildforge.Graph.Order.{IsPath}
use buildforge.Graph.Critical.{critical_path, better, choose, extend, extend_all, walk, report}
use buildforge.Graph.Critical.Walks.{weight}
use buildforge.Graph.Critical.Longest.{critical_path-IsPath, critical_path-longest}
use buildforge.Cache.Store.{File, Workspace}
use buildforge.Runner.Result.{RunResult}
use buildforge.Runner.Build.Accounts.{IsRunner}
use buildforge.Runner.Run.{
  Node, link, regular, Box, Ran, succeeded, Shell, Runner, run, machine_of, first_missing, harvest,
  new_sandbox, cache_key, try_restore, keep, collect, judge, execute, attempt, run_command, environ,
  Report,
}
use buildforge.Runner.Run.Named.{run-IsRunner, run-produced}
use buildforge.Runner.Run.Overlap.{run-overlap}
use buildforge.Runner.Run.Local.{Edit, put_file, IsLocal, seen, written, edited, ended}
use buildforge.Runner.Run.Compared.{site}
use buildforge.Runner.Run.Hermetic.{run-declared_only}
use buildforge.Tests.{sample, graph_of, program, sample-IsWellFormed, order-sample, main, util}
use buildforge.Tests

-- The action `link` takes three units of time, each other one a single unit.
abbrev dur : Str → ℕ
dur n = if str_eq n Tests.link then 3 else 1

abbrev g : Graph
g = graph_of sample

all_named : count [] g.names ≡ 0
unfolding program
all_named = refl

critical_path-IsPath_example :
    (down : List Str) × (critical_path g dur ≡ some (reverse down, weight dur down))
    × IsPath g.deps down
    × ((x : Str) → In x down → In x g.names)
critical_path-IsPath_example =
    critical_path-IsPath g dur (main ∷ util ∷ Tests.link ∷ []) sample-IsWellFormed all_named
      order-sample

-- Two units for the chain of `link` and `main` would be too little.
critical : critical_path g dur ≡ some (main ∷ Tests.link ∷ [], 4)
unfolding program critical_path better choose extend extend_all walk report
critical = refl

link-util : IsPath g.deps (Tests.link ∷ util ∷ [])
unfolding program
link-util = (omega arith, tt)

link_named : In Tests.link g.names
unfolding program
link_named = omega arith

critical_path-longest_example : weight dur (Tests.link ∷ util ∷ []) ≤ 4
critical_path-longest_example =
    critical_path-longest g dur (main ∷ util ∷ Tests.link ∷ []) (main ∷ Tests.link ∷ []) 4
      Tests.link (util ∷ []) sample-IsWellFormed all_named order-sample critical link_named
      link-util

abbrev pub source : Str
source = bytes "a.c"

abbrev pub object : Str
object = bytes "a.o"

abbrev other : Str
other = bytes "b.c"

abbrev pub compile : Action
compile = record {
  name = bytes "a";
  deps = [];
  inputs = source ∷ [];
  outputs = object ∷ [];
  command = bytes "cc" ∷ [];
  env = [];
}

abbrev content_of : Option File → List ℕ
content_of none = []
content_of (some f) = f.content

abbrev compiled : List ℕ → File
compiled b = record { content = 1 ∷ b; perm = 420 }

abbrev quiet : Ran Str
quiet = record { ending = succeeded; stdout = []; stderr = [] }

-- What a command does: it reads the source and writes the object, and takes one unit of time.
abbrev compiler : ℕ → Workspace → ℕ × List Edit × Ran Str
compiler w files = (w + 1, put_file object (compiled (content_of (files source))) ∷ [], quiet)

abbrev pub shell : Shell ℕ Str
shell = record {
  now = λ w. w;
  ctx_err = λ w. none;
  path = [];
  run_in =
      λ w cmd env ws. (w + 1, update ws object (some (compiled (content_of (ws source)))), quiet);
  run_boxed = λ w cmd env b ws. ended (compiler w (seen b ws)) b ws;
}

shell-IsLocal : (cmd env : List Str) → IsLocal shell cmd env
shell-IsLocal cmd env = record { acts = compiler; boxed = λ w b ws. refl }

abbrev pub runner : Runner ℕ (Unit {0}) (Unit {0}) Str
runner = record { shell = shell; cache = none; sandboxed = true; key = λ ws a. ok [] }

abbrev pub before : Workspace
before q = if str_eq q source then some (record { content = 5 ∷ []; perm = 420 }) else none

-- The same source, and another file.
abbrev beside : Workspace
beside = update before other (some (record { content = []; perm = 420 }))

unfoldable pub run_program : Unit {0}
unfolding run first_missing harvest new_sandbox cache_key try_restore keep collect judge execute
    attempt run_command environ str_eq sort_strings edited
run_program = tt

run-IsRunner_example : IsRunner (machine_of runner)
run-IsRunner_example = run-IsRunner runner

abbrev after : Report ℕ (Unit {0}) Str
after = run runner compile (site 3 before tt)

after-ok : after.2 ≡ none
unfolding run_program
after-ok = refl

after-object : after.0.files object ≡ some (compiled (5 ∷ []))
unfolding run_program
after-object = refl

-- What the report says of the execution.
abbrev compile_result : RunResult
compile_result = record {
  action = bytes "a";
  exit_code = pos 0;
  stdout = [];
  stderr = [];
  begin = 3;
  end = 4;
  cached = false;
  nondeterministic = [];
}

after-compile_result : after.1 ≡ some compile_result
unfolding run_program
after-compile_result = refl

run-produced_example : first_missing (object ∷ []) after.0.files ≡ none
run-produced_example =
    run-produced runner compile (site 3 before tt) compile_result after-compile_result after-ok refl

other_unlisted : count other compile.outputs ≡ 0
unfolding str_eq
other_unlisted = refl

other_unread : count other compile.inputs ≡ 0
unfolding str_eq
other_unread = refl

run-declared_only_example : (run runner compile (site 3 beside tt)).0.files other ≡ beside other
run-declared_only_example =
    run-declared_only runner compile 3 beside tt other
      (shell-IsLocal compile.command (environ [] compile)) refl refl other_unread other_unlisted

-- An action that would change a file of the workspace.
abbrev in_place : Action
in_place = record compile { outputs = source ∷ [] }

source_listed : In source in_place.outputs
unfolding str_eq
source_listed = omega arith

object_apart : object ≢ source
unfolding str_eq
object_apart h = let e = (str_eq_iff object source).1 h in cc e

-- A link at another path is kept.
kept_link :
    (f : File) (n : Option Node) (b : Box) (ws : Workspace)
    → b source ≡ some link
    → (written object f n b ws).0 source ≡ some link
kept_link f none b ws h = update_ne b object (some (regular f)) source object_apart ∙ h
kept_link f (some link) b ws h = h
kept_link f (some (regular _)) b ws h =
    update_ne b object (some (regular f)) source object_apart ∙ h

run-overlap_example : (run runner in_place (site 3 before tt)).2 ≢ none
unfolding edited
run-overlap_example =
    run-overlap runner in_place source (site 3 before tt) refl refl source_listed source_listed
      (λ w cmd env b ws h. kept_link (compiled (content_of (seen b ws source))) (b object) b ws h)

-- The file that was there is lost.
in_place-lost : (run runner in_place (site 3 before tt)).0.files source ≡ none
unfolding run_program
in_place-lost = refl

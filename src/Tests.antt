-- ===== src/Tests.antt =====
-- Small manifests, what the program does on them, and the theorems at these inputs.
mod Builds
mod Caches
mod Collections
mod Runs
mod Commands
mod Reruns
mod Servers
use buildforge.Prelude.{
  ℕ, ◌≡◌, refl, Str, bytes, str_eq, str_lt, sort_strings, List, [], ◌∷◌, Option, none, some, Result,
  ok, err, Bool, true, false, map, In, IsDistinct, count, arith, ◌↔◌, SameItems, All, ◌++◌, length,
  ◌+◌, ◌<◌,
}
use buildforge.Manifest.{
  Action, Manifest, validate, valid, no_actions, invalid, empty_variable, duplicate, bad_path,
  escapes, output, scan_names, check_actions, check_action, check_deps, check_env, path_problems,
  check_paths, check_path, path_clean, has_prefix, trim_space, names, input, not_canonical,
  action_names,
}
use buildforge.Manifest.Valid.{IsValid, validate-valid_iff}
use buildforge.Graph.{Graph, IsWellFormed, new, index_actions, add_actions, add_deps, add_edge}
use buildforge.Graph.Build.{new-Holds, new-IsWellFormed, Holds, IsIndexed}
use buildforge.Graph.Order.{IsCycle}
use buildforge.Graph.Topological.{topological_order, cycle_error}
use buildforge.Graph.Topological.Correct.{topological_order-Sorts, Sorts}
use buildforge.Graph.Topological.Acyclic.{topological_order-ok_iff}

abbrev pub action : Str → List Str → Action
action name deps = record {
  name = name;
  deps = deps;
  inputs = [];
  outputs = (bytes "out/" ++ name) ∷ [];
  command = bytes "cc" ∷ [];
  env = [];
}

abbrev pub link : Str
link = bytes "link"

abbrev pub main : Str
main = bytes "main"

abbrev pub util : Str
util = bytes "util"

abbrev pub sample : Manifest
sample = action link (main ∷ util ∷ []) ∷ action util [] ∷ action main [] ∷ []

abbrev pub looped : Manifest
looped = action main (util ∷ []) ∷ action util (main ∷ []) ∷ action link [] ∷ []

unfoldable pub program : Unit {0}
unfolding validate scan_names check_actions check_action check_deps check_env path_problems
    check_paths add_actions add_deps add_edge index_actions check_path path_clean has_prefix
    trim_space new topological_order str_eq str_lt sort_strings names
program = tt

validate-sample : validate sample ≡ valid
unfolding program
validate-sample = refl

validate-escapes :
    validate (record (action main []) { outputs = bytes "../a" ∷ [] } ∷ [])
    ≡ invalid (bad_path main output (bytes "../a") escapes ∷ [])
unfolding program
validate-escapes = refl

-- A name of white space is empty: U+00A0, U+2003 and a space.
validate-blank_name :
    validate
      (record (action main []) { env = (194 ∷ 160 ∷ 226 ∷ 128 ∷ 131 ∷ 32 ∷ [], []) ∷ [] } ∷ [])
    ≡ invalid (empty_variable main ∷ [])
unfolding program
validate-blank_name = refl

-- U+3000 at the end is cut off; a byte that is no character by itself is not.
trim_space-ideographic : trim_space (160 ∷ 65 ∷ 227 ∷ 128 ∷ 128 ∷ []) ≡ 160 ∷ 65 ∷ []
unfolding program
trim_space-ideographic = refl

abbrev pub graph_of : Manifest → Graph
graph_of m = elim (new m) [
  | ok g ↦ g
  | err _ ↦ record { actions = λ _. none; deps = λ _. []; rdeps = λ _. []; names = [] }
]

pub new-sample : new sample ≡ ok (graph_of sample)
unfolding program
new-sample = refl

new-looped : new looped ≡ ok (graph_of looped)
unfolding program
new-looped = refl

pub order-sample : topological_order (graph_of sample) ≡ ok (main ∷ util ∷ link ∷ [])
unfolding program
order-sample = refl

order-looped : topological_order (graph_of looped) ≡ err (cycle_error (main ∷ util ∷ main ∷ []))
unfolding program
order-looped = refl

pub sample-IsValid : IsValid sample
unfolding program
sample-IsValid = (validate-valid_iff sample).0 refl

looped-IsValid : IsValid looped
unfolding program
looped-IsValid = (validate-valid_iff looped).0 refl

pub sample-IsWellFormed : IsWellFormed (graph_of sample)
sample-IsWellFormed = (new-IsWellFormed sample (graph_of sample) sample-IsValid new-sample).0

pub looped-IsWellFormed : IsWellFormed (graph_of looped)
looped-IsWellFormed = (new-IsWellFormed looped (graph_of looped) looped-IsValid new-looped).0

validate-valid_iff_example : (validate sample ≡ valid) ↔ IsValid sample
validate-valid_iff_example = validate-valid_iff sample

new-Holds_example :
    (g : Graph) × (new sample ≡ ok g)
    × IsWellFormed g
    × SameItems g.names (action_names sample)
    × All (Holds g) sample
new-Holds_example = new-Holds sample sample-IsValid

topological_order-Sorts_example : Sorts (graph_of looped) (topological_order (graph_of looped))
topological_order-Sorts_example = topological_order-Sorts (graph_of looped) looped-IsWellFormed

topological_order-ok_iff_example :
    ((order : List Str) × (topological_order (graph_of sample) ≡ ok order))
    ↔ ((c : List Str) → ¬ IsCycle (graph_of sample).deps c)
topological_order-ok_iff_example = topological_order-ok_iff (graph_of sample) sample-IsWellFormed

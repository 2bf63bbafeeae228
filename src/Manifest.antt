-- ===== src/Manifest.antt =====
-- internal/manifest/manifest.go: the parsed build file and its validation. The JSON decoder is not
-- modelled; the model starts from the decoded value. `Paths` holds `checkPaths`.
mod Paths
pub mod Valid
pub mod Contained
use buildforge.Prelude.{
  ℕ, suc, ◌+◌, Str, str_eq, sort_strings, update, Bool, true, false, Option, none, some, List, [],
  ◌∷◌, ◌++◌, map, if◌then◌else◌,
}
pub use Paths.{
  is_space, is_space2, is_space3, PathKind, input, output, PathFault, empty_path, absolute,
  not_canonical, escapes, dot, dot_dot, slash, cons_head,
}
unfoldable pub use Paths.{
  lead_width, last_width, drop_space, check_path, check_paths, trim_space, path_clean, has_prefix,
  elements, clean_element, clean_elements, join_elements,
}

-- The environment is a Go map, which the code iterates: its bindings, with distinct keys.
pub record Action : Type 0 where
  pub name : Str
  pub deps : List Str
  pub inputs : List Str
  pub outputs : List Str
  pub command : List Str
  pub env : List (Str × Str)

abbrev pub Manifest : Type 0
Manifest = List Action

-- One constructor for each message that `Validate` formats.
pub data Problem : Type 0 where
  unnamed : (index : ℕ) → Problem
  duplicate : (action : Str) → Problem
  no_command : (action : Str) → Problem
  no_outputs : (action : Str) → Problem
  self_dependency : (action : Str) → Problem
  unknown_dependency : (action dep : Str) → Problem
  bad_path : (action : Str) (kind : PathKind) (path : Str) (fault : PathFault) → Problem
  empty_variable : (action : Str) → Problem

abbrev pub Seen : Type 0
Seen = Str → Bool

-- The first loop of `Validate`: the problems with names, and the map `seen` that it leaves.
unfoldable pub scan_names : ℕ → List Action → Seen → List Problem × Seen
scan_names i [] seen = ([], seen)
scan_names i (a ∷ rest) seen =
    if str_eq a.name []
    then (let (ps, seen') = scan_names (i + 1) rest seen in (unnamed i ∷ ps, seen'))
    else (let (ps, seen') = scan_names (i + 1) rest (update seen a.name true) in
        (if seen a.name then duplicate a.name ∷ ps else ps, seen'))

unfoldable pub check_deps : Seen → Str → List Str → List Problem
check_deps seen name [] = []
check_deps seen name (d ∷ rest) =
    let more = check_deps seen name rest in
    if str_eq d name
    then self_dependency name ∷ more
    else if seen d
    then more
    else unknown_dependency name d ∷ more

unfoldable pub check_env : Str → List (Str × Str) → List Problem
check_env name [] = []
check_env name ((k, v) ∷ rest) =
    let more = check_env name rest in
    if str_eq (trim_space k) [] then empty_variable name ∷ more else more

abbrev is_nil {ℓ} : {A : Type ℓ} → List A → Bool
is_nil [] = true
is_nil (x ∷ xs) = false

unfoldable pub path_problems : Str → PathKind → List Str → List Problem
path_problems name kind paths = map (λ (p, fault). bad_path name kind p fault) (check_paths paths)

-- The body of the second loop of `Validate`.
unfoldable pub check_action : Seen → Action → List Problem
check_action seen a =
    if str_eq a.name []
    then []
    else ((if is_nil a.command then no_command a.name ∷ [] else [])
        ++ ((if is_nil a.outputs then no_outputs a.name ∷ [] else [])
            ++ (check_deps seen a.name a.deps
                ++ (path_problems a.name input a.inputs
                    ++ (path_problems a.name output a.outputs ++ check_env a.name a.env)))))

unfoldable pub check_actions : Seen → List Action → List Problem
check_actions seen [] = []
check_actions seen (a ∷ rest) = check_action seen a ++ check_actions seen rest

-- What `Validate` returns: `valid` is the nil error.
pub data Verdict : Type 0 where
  valid : Verdict
  no_actions : Verdict
  invalid : List Problem → Verdict

-- `errors.Join` is nil exactly when no problem was recorded.
join : List Problem → Verdict
join [] = valid
join (p ∷ ps) = invalid (p ∷ ps)

unfoldable pub validate : Manifest → Verdict
unfolding join
validate [] = no_actions
validate (a ∷ rest) =
    let (problems, seen) = scan_names 0 (a ∷ rest) (λ _. false) in
    join (problems ++ check_actions seen (a ∷ rest))

abbrev pub action_names : Manifest → List Str
action_names m = map (λ a. a.name) m

-- `Names`
unfoldable pub names : Manifest → List Str
names m = sort_strings (action_names m)

-- ===== src/Manifest/Valid.antt =====
-- internal/manifest/manifest.go, `Validate`: the manifests that keep its rules.
use buildforge.Prelude.{
  ℕ, ◌+◌, ◌≡◌, ◌≢◌, ◌≤◌, refl, Str, str_eq_iff, Str-cases, str_eq_refl, update, true, false, ◌||◌,
  List, [], ◌∷◌, ◌++◌, if◌then◌else◌, ltb, count, In, IsDistinct, All, All-imp, append-nil_iff, ◌↔◌,
  inl, inr, none, arith,
}
use buildforge.Manifest.{
  Action, Manifest, Problem, no_command, no_outputs, PathKind, input, output, Seen, scan_names,
  check_deps, check_env, path_problems, check_action, check_actions, valid, validate, join,
  action_names, check_path, check_paths, trim_space, is_nil,
}

-- The rules for one action, given the names of all actions.
pub record IsValidAction (known : List Str) (a : Action) : Type 0 where
  pub named : a.name ≢ []
  pub commanded : a.command ≢ []
  pub productive : a.outputs ≢ []
  pub deps_known : All (λ d. (d ≢ a.name) × In d known) a.deps
  pub inputs_canonical : All (λ p. check_path p ≡ none) a.inputs
  pub outputs_canonical : All (λ p. check_path p ≡ none) a.outputs
  pub variables_named : All (λ b. trim_space b.0 ≢ []) a.env

pub record IsValid (m : Manifest) : Type 0 where
  pub inhabited : m ≢ []
  pub distinct : IsDistinct (action_names m)
  pub actions : All (IsValidAction (action_names m)) m

-- The first loop.
abbrev AllNamed : List Action → Type 0
AllNamed l = All (λ a. a.name ≢ []) l

scan_names-seen :
    (i : ℕ) (l : List Action) (seen : Seen)
    → AllNamed l
    → (q : Str) → (scan_names i l seen).1 q ≡ (seen q || ltb 0 (count q (action_names l)))
unfolding scan_names
scan_names-seen i [] seen n q = ground arith
scan_names-seen i (a ∷ l) seen n q = ground (
  arith,
  scan_names-seen (i + 1) l (update seen a.name true) n.1 q,
  str_eq_iff a.name [],
  str_eq_iff a.name q,
)

-- No name is empty, none occurs twice, and none was seen before.
abbrev IsFresh : Seen → List Action → Type 0
IsFresh seen l = (q : Str) → count q (action_names l) + (if seen q then 1 else 0) ≤ 1

scan_names-clean :
    (i : ℕ) (l : List Action) (seen : Seen)
    → (scan_names i l seen).0 ≡ []
    → AllNamed l × IsFresh seen l
unfolding scan_names
scan_names-clean i [] seen e = (tt, λ q. ground arith)
scan_names-clean i (a ∷ l) seen e = elim (Str-cases a.name []) [
  | inl nameless ↦ absurd (ground (arith, str_eq_iff a.name []))
  | inr (named, f) ↦
      let (all, fresh) =
        scan_names-clean (i + 1) l (update seen a.name true)
          (ground (arith, str_eq_iff a.name [])) in
      ((named, all), λ q. ground (arith, fresh q, str_eq_iff a.name q))
]

clean-scan_names :
    (i : ℕ) (l : List Action) (seen : Seen)
    → AllNamed l
    → IsFresh seen l
    → (scan_names i l seen).0 ≡ []
unfolding scan_names
clean-scan_names i [] seen n f = refl
clean-scan_names i (a ∷ l) seen n f = ground (
  arith,
  clean-scan_names (i + 1) l (update seen a.name true) n.1
      (λ q. ground (arith, f q, str_eq_iff a.name q)),
  f a.name,
  str_eq_iff a.name [],
  str_eq_refl a.name,
)

-- The second loop, part by part.
check_deps-nil_iff :
    (seen : Seen) (name : Str) (ds : List Str)
    → (check_deps seen name ds ≡ []) ↔ All (λ d. (d ≢ name) × (seen d ≡ true)) ds
unfolding check_deps
check_deps-nil_iff seen name [] = (λ _. tt, λ _. refl)
check_deps-nil_iff seen name (d ∷ ds) = (
  λ e. ground (arith, check_deps-nil_iff seen name ds, str_eq_iff d name),
  λ h. ground (arith, check_deps-nil_iff seen name ds, str_eq_iff d name),
)

check_env-nil_iff :
    (name : Str) (env : List (Str × Str))
    → (check_env name env ≡ []) ↔ All (λ b. trim_space b.0 ≢ []) env
unfolding check_env
check_env-nil_iff name [] = (λ _. tt, λ _. refl)
check_env-nil_iff name ((k, v) ∷ env) = (
  λ e. ground (arith, check_env-nil_iff name env, str_eq_iff (trim_space k) []),
  λ h. ground (arith, check_env-nil_iff name env, str_eq_iff (trim_space k) []),
)

path_problems-nil_iff :
    (name : Str) (kind : PathKind) (ps : List Str)
    → (path_problems name kind ps ≡ []) ↔ All (λ p. check_path p ≡ none) ps
unfolding path_problems check_paths
path_problems-nil_iff name kind [] = (λ _. tt, λ _. refl)
path_problems-nil_iff name kind (p ∷ ps) = (
  λ e. ground (arith, path_problems-nil_iff name kind ps),
  λ h. ground (arith, path_problems-nil_iff name kind ps),
)

if-nil_iff {ℓ} :
    {A : Type ℓ} (l : List A) (p : Problem) → ((if is_nil l then p ∷ [] else []) ≡ []) ↔ (l ≢ [])
if-nil_iff [] p = (λ e. cc, λ h. absurd (h refl))
if-nil_iff (x ∷ l) p = (λ e e'. cc, λ h. refl)

append6-nil_iff :
    (a b c d e f : List Problem)
    → (a ++ (b ++ (c ++ (d ++ (e ++ f)))) ≡ [])
      ↔ ((a ≡ []) × (b ≡ []) × (c ≡ []) × (d ≡ []) × (e ≡ []) × (f ≡ []))
append6-nil_iff a b c d e f = (
  λ h.
      let (ha, h1) = (append-nil_iff a (b ++ (c ++ (d ++ (e ++ f))))).0 h in
      let (hb, h2) = (append-nil_iff b (c ++ (d ++ (e ++ f)))).0 h1 in
      let (hc, h3) = (append-nil_iff c (d ++ (e ++ f))).0 h2 in
      let (hd, h4) = (append-nil_iff d (e ++ f)).0 h3 in
      let (he, hf) = (append-nil_iff e f).0 h4 in (ha, hb, hc, hd, he, hf),
  λ h. rw (h.0, h.1, h.2, h.3, h.4, h.5) refl,
)

module _ (seen : Seen) (known : List Str)
    (agree : (q : Str) → seen q ≡ (false || ltb 0 (count q known))) where
  known_iff :
      (name : Str) (ds : List Str)
      → All (λ d. (d ≢ name) × (seen d ≡ true)) ds ↔ All (λ d. (d ≢ name) × In d known) ds
  known_iff name ds = (
    All-imp ds (λ d h. (h.0, ground (arith, agree d))),
    All-imp ds (λ d h. (h.0, ground (arith, agree d))),
  )

  parts_iff :
      (a : Action)
      → a.name ≢ []
      → (check_action seen a ≡ []) ↔ (
          ((if is_nil a.command then no_command a.name ∷ [] else []) ≡ [])
          × ((if is_nil a.outputs then no_outputs a.name ∷ [] else []) ≡ [])
          × (check_deps seen a.name a.deps ≡ [])
          × (path_problems a.name input a.inputs ≡ [])
          × (path_problems a.name output a.outputs ≡ [])
          × (check_env a.name a.env ≡ []))
  unfolding check_action
  parts_iff a named = elim (Str-cases a.name []) [
    | inl e ↦ absurd (named e)
    | inr (_, f) ↦ rw f (append6-nil_iff _ _ _ _ _ _)
  ]

  check_action-clean : (a : Action) → a.name ≢ [] → check_action seen a ≡ [] → IsValidAction known a
  check_action-clean a named e =
      let h = (parts_iff a named).0 e in
      record {
        named = named;
        commanded = (if-nil_iff a.command _).0 h.0;
        productive = (if-nil_iff a.outputs _).0 h.1;
        deps_known = (known_iff a.name a.deps).0 ((check_deps-nil_iff seen a.name a.deps).0 h.2);
        inputs_canonical = (path_problems-nil_iff a.name input a.inputs).0 h.3;
        outputs_canonical = (path_problems-nil_iff a.name output a.outputs).0 h.4;
        variables_named = (check_env-nil_iff a.name a.env).0 h.5;
      }

  clean-check_action : (a : Action) → IsValidAction known a → check_action seen a ≡ []
  clean-check_action a v = (parts_iff a v.named).1 (
    (if-nil_iff a.command _).1 v.commanded,
    (if-nil_iff a.outputs _).1 v.productive,
    (check_deps-nil_iff seen a.name a.deps).1 ((known_iff a.name a.deps).1 v.deps_known),
    (path_problems-nil_iff a.name input a.inputs).1 v.inputs_canonical,
    (path_problems-nil_iff a.name output a.outputs).1 v.outputs_canonical,
    (check_env-nil_iff a.name a.env).1 v.variables_named,
  )

  check_actions-clean :
      (l : List Action) → AllNamed l → check_actions seen l ≡ [] → All (IsValidAction known) l
  unfolding check_actions
  check_actions-clean [] n e = tt
  check_actions-clean (a ∷ l) n e =
      let h = (append-nil_iff (check_action seen a) (check_actions seen l)).0 e in
      (check_action-clean a n.0 h.0, check_actions-clean l n.1 h.1)

  clean-check_actions : (l : List Action) → All (IsValidAction known) l → check_actions seen l ≡ []
  unfolding check_actions
  clean-check_actions [] v = refl
  clean-check_actions (a ∷ l) v =
      (append-nil_iff (check_action seen a) (check_actions seen l)).1
        (clean-check_action a v.0, clean-check_actions l v.1)

join-valid_iff : (ps : List Problem) → (join ps ≡ valid) ↔ (ps ≡ [])
unfolding join
join-valid_iff [] = (λ _. refl, λ _. refl)
join-valid_iff (p ∷ ps) = (λ e. cc, λ e. cc)

abbrev none_seen : Seen
none_seen _ = false

validate-accepts : (a : Action) (l : List Action) → validate (a ∷ l) ≡ valid → IsValid (a ∷ l)
unfolding validate
validate-accepts a l e =
    let m = a ∷ l in
    let (first, second) =
      (append-nil_iff (scan_names 0 m none_seen).0 (check_actions (scan_names 0 m none_seen).1 m)).0
        ((join-valid_iff _).0 e) in
    let (all, fresh) = scan_names-clean 0 m none_seen first in
    record {
      inhabited = λ e'. cc;
      distinct = λ q. omega (arith, fresh q);
      actions =
          check_actions-clean (scan_names 0 m none_seen).1 (action_names m)
            (scan_names-seen 0 m none_seen all) m all second;
    }

accepted : (a : Action) (l : List Action) → IsValid (a ∷ l) → validate (a ∷ l) ≡ valid
unfolding validate
accepted a l v =
    let m = a ∷ l in
    let all : AllNamed m = All-imp m (λ x h. h.named) v.actions in
    (join-valid_iff _).1 (
      (append-nil_iff _ _).1 (
        clean-scan_names 0 m none_seen all (λ q. omega (arith, v.distinct q)),
        clean-check_actions (scan_names 0 m none_seen).1 (action_names m)
            (scan_names-seen 0 m none_seen all) m v.actions,
      ))

-- `Validate` returns no error exactly for the manifests that have an action, have no action name
-- twice, and in which every action has a name, a command and an output, depends only on other
-- actions of the manifest, declares only paths that `checkPaths` passes, and has no blank variable
-- name.
pub validate-valid_iff : (m : Manifest) → (validate m ≡ valid) ↔ IsValid m
validate-valid_iff [] = (unfold validate in λ e. cc, λ v. absurd (v.inhabited refl))
validate-valid_iff (a ∷ l) = (validate-accepts a l, accepted a l)

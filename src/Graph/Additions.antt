-- ===== src/Graph/Additions.antt =====
-- internal/graph/graph.go, `New`: what its loops add to the maps.
use buildforge.Prelude.{
  ℕ, ◌+◌, ◌≡◌, refl, Str, str_eq, str_eq_iff, Str-cases, update, List, [], ◌∷◌, if◌then◌else◌,
  count, count-append, In, All, ok, some, Option, arith, inl, inr, count-sort, sort_strings,
  count-cons_self, ◌∙◌,
}
use buildforge.Manifest.{Action, action_names}
use buildforge.Graph.{Edges, index_actions, add_edge, add_deps, add_actions}

-- How often the actions called `q` name `d` as a dependency.
abbrev pub declared : Str → Str → List Action → ℕ
declared q d [] = 0
declared q d (a ∷ l) = (if str_eq a.name q then count d a.deps else 0) + declared q d l

pub index_actions_absent :
    (l : List Action) (m : Str → Option Action) (q : Str)
    → count q (action_names l) ≡ 0
    → index_actions l m q ≡ m q
unfolding index_actions
index_actions_absent [] m q h = refl
index_actions_absent (a ∷ l) m q h =
    index_actions_absent l (update m a.name (some a)) q (ground arith) ∙ ground (arith)

pub index_actions_kept :
    (l : List Action) (m : Str → Option Action) (q : Str) (b : Action)
    → m q ≡ some b
    → (a : Action) × (index_actions l m q ≡ some a)
unfolding index_actions
index_actions_kept [] m q b h = (b, h)
index_actions_kept (a ∷ l) m q b h = elim (Str-cases a.name q) [
  | inl e ↦
      index_actions_kept l (update m a.name (some a)) q a (ground (arith, str_eq_iff a.name q))
  | inr (_, f) ↦ index_actions_kept l (update m a.name (some a)) q b (rw f h)
]

pub index_actions_known :
    (l : List Action) (m : Str → Option Action) (q : Str)
    → In q (action_names l)
    → (a : Action) × (index_actions l m q ≡ some a)
unfolding index_actions
index_actions_known [] m q h = absurd (omega arith)
index_actions_known (a ∷ l) m q h = elim (Str-cases a.name q) [
  | inl e ↦
      index_actions_kept l (update m a.name (some a)) q a (ground (arith, str_eq_iff a.name q))
  | inr (_, f) ↦ index_actions_known l (update m a.name (some a)) q (ground arith)
]

-- The edges `e'` are those of `e` with `more q d` edges from `q` to `d` added, in both maps.
pub record Adds (e e' : Edges) (more : Str → Str → ℕ) : Type 0 where
  pub deps : (q d : Str) → count d (e'.deps q) ≡ count d (e.deps q) + more q d
  pub rdeps : (q d : Str) → count q (e'.rdeps d) ≡ count q (e.rdeps d) + more q d

pub add_edge-Adds :
    (name d : Str) (e : Edges)
    → Adds e (add_edge name d e) (λ q x. if str_eq name q then (if str_eq d x then 1 else 0) else 0)
unfolding add_edge
add_edge-Adds name d e = record {
  deps = λ q x. ground (arith, count-append x (e.deps name) (d ∷ []), str_eq_iff name q);
  rdeps = λ q x. ground (arith, count-append q (e.rdeps d) (name ∷ []), str_eq_iff d x);
}

module _ (actions : Str → Option Action) where
  abbrev pub Known : Str → Type 0
  Known d = (a : Action) × (actions d ≡ some a)

  pub add_deps-Adds :
      (name : Str) (ds : List Str) (e : Edges)
      → ((d : Str) → In d ds → Known d)
      → (e' : Edges) × (add_deps actions name ds e ≡ ok e')
        × Adds e e' (λ q d. if str_eq name q then count d ds else 0)
  unfolding add_deps
  add_deps-Adds name [] e k =
      (e, refl, record { deps = λ q d. ground arith; rdeps = λ q d. ground arith })
  add_deps-Adds name (d ∷ ds) e k =
      let (a, known) = k d (omega (arith, count-cons_self d ds)) in
      let (e', done, adds) = add_deps-Adds name ds (add_edge name d e) (λ x i. k x (omega arith)) in
      let first = add_edge-Adds name d e in
      (
        e',
        rw (known, add_deps) done,
        record {
          deps = λ q x. ground (arith, adds.deps q x, first.deps q x);
          rdeps = λ q x. ground (arith, adds.rdeps q x, first.rdeps q x);
        },
      )

  pub add_actions-Adds :
      (l : List Action) (e : Edges)
      → All (λ a. (d : Str) → In d a.deps → Known d) l
      → (e' : Edges) × (add_actions actions l e ≡ ok e') × Adds e e' (λ q d. declared q d l)
  unfolding add_actions
  add_actions-Adds [] e k =
      (e, refl, record { deps = λ q d. ground arith; rdeps = λ q d. ground arith })
  add_actions-Adds (a ∷ l) e k =
      let (e1, done1, adds1) =
        add_deps-Adds a.name (sort_strings a.deps) e
          (λ d i. k.0 d (omega (arith, count-sort d a.deps))) in
      let (e2, done2, adds2) = add_actions-Adds l e1 k.1 in
      (
        e2,
        rw done1 done2,
        record {
          deps = λ q x. ground (arith, adds1.deps q x, adds2.deps q x, count-sort x a.deps);
          rdeps = λ q x. ground (arith, adds1.rdeps q x, adds2.rdeps q x, count-sort x a.deps);
        },
      )

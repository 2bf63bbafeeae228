-- ===== src/Graph/Build.antt =====
-- internal/graph/graph.go, `New`: the graph of a valid manifest.
use buildforge.Prelude.{
  ◌≡◌, ◌≢◌, ◌<◌, subst, Bool-cases, ◌==◌, refl, Str, str_eq_refl, Str-cases, update, List, [], ◌∷◌,
  count, In, IsDistinct, SameItems, All, All-imp, All-and, ok, none, some, Option, arith, inl, inr,
  count-sort, sort_strings, count-cons_self, ◌∙◌,
}
use buildforge.Manifest.{Action, Manifest, action_names, names}
use buildforge.Manifest.Valid.{IsValid, IsValidAction}
use buildforge.Graph.{Graph, Edges, index_actions, no_edges, new, IsWellFormed}
use buildforge.Graph.Additions.{
  declared, index_actions_absent, index_actions_known, Adds, add_actions-Adds,
}

All-member : (P : Str → Type 0) (l : List Str) → All P l → (d : Str) → In d l → P d
All-member P [] h d i = absurd (omega arith)
All-member P (x ∷ l) h d i = elim (Str-cases x d) [
  | inl e ↦ subst P e h.0
  | inr (_, f) ↦ All-member P l h.1 d (ground arith)
]

declared_absent : (q d : Str) (l : List Action) → count q (action_names l) ≡ 0 → declared q d l ≡ 0
declared_absent q d [] h = refl
declared_absent q d (a ∷ l) h = ground (arith, declared_absent q d l)

-- A declared edge starts at an action and ends in the dependencies of one.
declared_source : (q d : Str) (l : List Action) → 0 < declared q d l → In q (action_names l)
declared_source q d [] h = absurd (omega arith)
declared_source q d (a ∷ l) h = ground (arith, declared_source q d l)

declared_target :
    (q d : Str) (known : List Str) (l : List Action)
    → All (IsValidAction known) l
    → 0 < declared q d l
    → In d known
declared_target q d known [] v h = absurd (omega arith)
declared_target q d known (a ∷ l) v h = elim (Bool-cases (count d a.deps == 0)) [
  | inl zero ↦ declared_target q d known l v.1 (ground arith)
  | inr more ↦ (All-member _ a.deps v.0.deps_known d (ground arith)).1
]

-- What the graph has of each action of the manifest.
pub record Holds (g : Graph) (a : Action) : Type 0 where
  pub found : g.actions a.name ≡ some a
  pub dependencies : SameItems (g.deps a.name) a.deps

names-In : (l : List Action) → All (λ a. In a.name (action_names l)) l
names-In [] = tt
names-In (a ∷ l) = (
  omega (arith, count-cons_self a.name (action_names l)),
  All-imp l (λ b i. omega arith) (names-In l),
)

-- With distinct names an action's edges are those that it declares.
declared_own :
    (l : List Action)
    → IsDistinct (action_names l)
    → All (λ a. (d : Str) → declared a.name d l ≡ count d a.deps) l
declared_own [] u = tt
declared_own (a ∷ l) u = (
  λ d. ground (arith, declared_absent a.name d l, u a.name, str_eq_refl a.name),
  All-imp l (λ b h d. ground (arith, h.0, h.1 d, u b.name))
      (All-and _ _ l (names-In l) (declared_own l (λ q. omega (arith, u q)))),
)

indexed_own :
    (l : List Action) (m : Str → Option Action)
    → IsDistinct (action_names l)
    → All (λ a. index_actions l m a.name ≡ some a) l
unfolding index_actions
indexed_own [] m u = tt
indexed_own (a ∷ l) m u = (
  index_actions_absent l (update m a.name (some a)) a.name
        (ground (arith, u a.name, str_eq_refl a.name))
      ∙ ground (arith, str_eq_refl a.name),
  indexed_own l (update m a.name (some a)) (λ q. omega (arith, u q)),
)

known_deps :
    (known : List Str) (actions : Str → Option Action) (l : List Action)
    → ((q : Str) → In q known → (a : Action) × (actions q ≡ some a))
    → All (IsValidAction known) l
    → All (λ a. (d : Str) → In d a.deps → (b : Action) × (actions d ≡ some b)) l
known_deps known actions l k v =
    All-imp l
      (λ a h d i. k d (All-member (λ d. (d ≢ a.name) × In d known) a.deps h.deps_known d i).1) v

edges-IsWellFormed :
    (m : Manifest) (actions : Str → Option Action) (e : Edges)
    → IsValid m
    → Adds no_edges e (λ q d. declared q d m)
    → IsWellFormed (record {
      actions = actions;
      deps = e.deps;
      rdeps = λ q. sort_strings (e.rdeps q);
      names = names m;
    })
unfolding names
edges-IsWellFormed m actions e v adds = record {
  sources = λ q d i.
      omega (
        arith,
        count-sort q (action_names m),
        declared_source q d m (omega (arith, adds.deps q d)),
      );
  targets = λ q d i. omega (
    arith,
    count-sort d (action_names m),
    declared_target q d (action_names m) m v.actions (omega (arith, adds.deps q d)),
  );
  mirror = λ q d. omega (arith, count-sort q (e.rdeps d), adds.deps q d, adds.rdeps q d);
  distinct = λ q. omega (arith, count-sort q (action_names m), v.distinct q);
}

-- On a valid manifest `New` succeeds. Its graph is well-formed, has the manifest's names, and
-- returns for each name that action of the manifest, with the dependencies that it declares.
pub new-Holds :
    (m : Manifest)
    → IsValid m
    → (g : Graph) × (new m ≡ ok g)
      × IsWellFormed g
      × SameItems g.names (action_names m)
      × All (Holds g) m
unfolding new names
new-Holds m v =
    let actions = index_actions m (λ _. none) in
    let (e, done, adds) =
      add_actions-Adds actions m no_edges
        (known_deps (action_names m) actions m (index_actions_known m (λ _. none)) v.actions) in
    (
      record {
        actions = actions;
        deps = e.deps;
        rdeps = λ q. sort_strings (e.rdeps q);
        names = names m;
      },
      rw done,
      edges-IsWellFormed m actions e v adds,
      λ q. count-sort q (action_names m),
      All-imp m
          (λ a h. record {
            found = h.0;
            dependencies = λ d. omega (arith, adds.deps a.name d, h.1 d);
          })
          (All-and _ _ m (indexed_own m (λ _. none) v.distinct) (declared_own m v.distinct)),
    )

-- The graph holds each of its actions under the action's name.
abbrev pub IsIndexed : Graph → Type 0
IsIndexed g = (q : Str) → In q g.names → (a : Action) × (g.actions q ≡ some a) × (a.name ≡ q)

indexed_of_All :
    (g : Graph) (l : List Action)
    → All (Holds g) l
    → (q : Str) → In q (action_names l)
    → (a : Action) × (g.actions q ≡ some a) × (a.name ≡ q)
indexed_of_All g [] h q i = absurd (omega arith)
indexed_of_All g (a ∷ l) h q i = elim (Str-cases a.name q) [
  | inl e ↦ (a, subst (λ z. g.actions z ≡ some a) e h.0.found, e)
  | inr (_, f) ↦ indexed_of_All g l h.1 q (ground arith)
]

-- The graph of a valid manifest is well-formed, and holds each of its actions under its name.
pub new-IsWellFormed :
    (m : Manifest) (g : Graph) → IsValid m → new m ≡ ok g → IsWellFormed g × IsIndexed g
new-IsWellFormed m g v e =
    let (g', e', w, same, h) = new-Holds m v in
    let eq : g' ≡ g = cc in
    subst (λ z. IsWellFormed z × IsIndexed z) eq
      (w, λ q i. indexed_of_All g' m h q (omega (arith, same q)))

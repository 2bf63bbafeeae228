-- ===== src/Graph.antt =====
-- internal/graph/graph.go: the action graph and its construction. `Topological` holds
-- `TopologicalOrder`, `FindCycle` the search for a cycle that it calls when it stalls.
pub mod Order
pub mod FindCycle
pub mod Topological
pub mod Critical
pub mod Additions
pub mod Build
use buildforge.Prelude.{
  ℕ, ◌≡◌, ◌≤◌, Str, update, Option, none, some, List, [], ◌∷◌, ◌++◌, Result, ok, err, ◌>>=◌,
  sort_strings, count, In, IsDistinct,
}
use buildforge.Manifest.{Action, Manifest, names}

pub record Graph : Type 0 where
  pub actions : Str → Option Action
  pub deps : Str → List Str
  pub rdeps : Str → List Str
  pub names : List Str

pub data GraphError : Type 0 where
  unknown_action : (action dep : Str) → GraphError

-- The first loop of `New`: a later action of the same name replaces an earlier one.
unfoldable pub index_actions : List Action → (Str → Option Action) → Str → Option Action
index_actions [] m = m
index_actions (a ∷ rest) m = index_actions rest (update m a.name (some a))

-- The edges recorded so far: `deps` and `rdeps`.
pub record Edges : Type 0 where
  pub deps : Str → List Str
  pub rdeps : Str → List Str

unfoldable pub add_edge : Str → Str → Edges → Edges
add_edge name d e = record {
  deps = update e.deps name (e.deps name ++ d ∷ []);
  rdeps = update e.rdeps d (e.rdeps d ++ name ∷ []);
}

module _ (actions : Str → Option Action) where
  -- The inner loop over the sorted dependencies of one action.
  unfoldable pub add_deps : Str → List Str → Edges → Result GraphError Edges
  add_deps name [] e = ok e
  add_deps name (d ∷ ds) e = elim (actions d) [
    | none ↦ err (unknown_action name d)
    | some _ ↦ add_deps name ds (add_edge name d e)
  ]

  -- The second loop of `New`.
  unfoldable pub add_actions : List Action → Edges → Result GraphError Edges
  add_actions [] e = ok e
  add_actions (a ∷ rest) e = do e' ← add_deps a.name (sort_strings a.deps) e; add_actions rest e'

abbrev pub no_edges : Edges
no_edges = record { deps = λ _. []; rdeps = λ _. [] }

-- `New`. The last loop sorts the dependents of every name.
unfoldable pub new : Manifest → Result GraphError Graph
new m = do
  let actions = index_actions m (λ _. none)
  e ← add_actions actions m no_edges
  ok (record {
    actions = actions;
    deps = e.deps;
    rdeps = λ q. sort_strings (e.rdeps q);
    names = names m;
  })

-- What `New` establishes of a valid manifest, and `TopologicalOrder` relies on.
pub record IsWellFormed (g : Graph) : Type 0 where
  -- an action and the actions that it waits on are actions of the graph
  pub sources : (q d : Str) → In d (g.deps q) → In q g.names
  pub targets : (q d : Str) → In d (g.deps q) → In d g.names
  -- `rdeps` is `deps` read backwards, with repeated dependencies repeated
  pub mirror : (q d : Str) → count q (g.rdeps d) ≡ count d (g.deps q)
  pub distinct : IsDistinct g.names

-- ===== src/Graph/Critical.antt =====
-- internal/graph/critical.go: the longest chain of dependent actions by measured duration. Durations
-- are in units of the clock. The walk back along the predecessors takes fuel, and `none` is fuel
-- that ran out.
pub mod Chosen
pub mod Extended
pub mod Invariant
pub mod Walks
pub mod Longest
use buildforge.Prelude.{
  ℕ, zero, suc, ◌+◌, Str, str_eq, str_lt, sort_strings, update, Bool, true, false, not, List, [],
  ◌∷◌, length, ltb, ◌==◌, if◌then◌else◌, Option, none, some, ok, err,
}
use mathlib.Core.List.{reverse}
use buildforge.Graph.{Graph}
use buildforge.Graph.Topological.{topological_order}

-- `better`
unfoldable pub better : (f d : ℕ) (name : Str) (best_f best_d : ℕ) (best_name : Str) → Bool
better f d name best_f best_d best_name =
    if str_eq best_name []
    then true
    else if not (f == best_f)
    then ltb best_f f
    else if not (d == best_d)
    then ltb best_d d
    else str_lt name best_name

-- The maps, whose values at a missing key are the zero values.
pub record Chains : Type 0 where
  pub finish : Str → ℕ
  pub depth : Str → ℕ
  pub pred : Str → Str

-- A loop that keeps the better one of the incumbent and the next candidate.
unfoldable pub choose : Chains → List Str → ℕ × Str → ℕ × Str
unfolding better
choose c [] best = best
choose c (d ∷ ds) (latest, chosen) = choose c ds (
    if better (c.finish d) (c.depth d) d latest (c.depth chosen) chosen
    then (c.finish d, d)
    else (latest, chosen))

-- The body of the loop over the order.
unfoldable pub extend : Graph → (Str → ℕ) → Str → Chains → Chains
unfolding choose
extend g dur n c =
    let (latest, chosen) = choose c (g.deps n) (0, []) in
    record {
      finish = update c.finish n (latest + dur n);
      depth = update c.depth n (c.depth chosen + 1);
      pred = if str_eq chosen [] then c.pred else update c.pred n chosen;
    }

unfoldable pub extend_all : Graph → (Str → ℕ) → List Str → Chains → Chains
unfolding extend
extend_all g dur [] c = c
extend_all g dur (n ∷ ns) c = extend_all g dur ns (extend g dur n c)

abbrev pub no_chains : Chains
no_chains = record { finish = λ _. 0; depth = λ _. 0; pred = λ _. [] }

-- The loop that appends to `path`, from `n` on.
unfoldable pub walk : ℕ → (Str → Str) → Str → Option (List Str)
walk zero pred n = if str_eq n [] then some [] else none
walk (suc fuel) pred n =
    let rest = walk fuel pred (pred n) in
    if str_eq n [] then some [] else elim rest [ none ↦ none | some l ↦ some (n ∷ l) ]

-- What `CriticalPath` returns once the end of the path is chosen.
unfoldable pub report : ℕ → (Str → Str) → ℕ × Str → Option (List Str × ℕ)
unfolding walk
report fuel pred (len, end) =
    if str_eq end []
    then some ([], 0)
    else elim (walk fuel pred end) [ none ↦ none | some path ↦ some (reverse path, len) ]

-- `CriticalPath`
unfoldable pub critical_path : Graph → (Str → ℕ) → Option (List Str × ℕ)
unfolding topological_order extend_all choose report
critical_path g dur = elim (topological_order g) [
  | err _ ↦ some ([], 0)
  | ok order ↦
      let c = extend_all g dur order no_chains in
      report (length order) c.pred (choose c (sort_strings order) (0, []))
]

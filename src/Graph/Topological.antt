-- ===== src/Graph/Topological.antt =====
-- internal/graph/graph.go, `TopologicalOrder`: Kahn's algorithm over a sorted ready list. A round
-- of the loop emits one action, so the number of actions is enough fuel.
pub mod Invariant
pub mod Release
pub mod Correct
pub mod Acyclic
use buildforge.Prelude.{
  ℕ, zero, suc, ℤ, pos, decrement, is_zero, Str, update, Option, none, some, List, [], ◌∷◌, ◌++◌,
  length, ◌==◌, if◌then◌else◌, Result, ok, err, sort_strings,
}
use buildforge.Graph.{Graph}
use buildforge.Graph.FindCycle.{find_cycle}

pub record Kahn : Type 0 where
  pub remaining : Str → ℤ
  pub ready : List Str
  pub order : List Str

-- `out_of_fuel` has no counterpart in the code.
pub data TopologicalError : Type 0 where
  cycle_error : List Str → TopologicalError
  out_of_fuel : TopologicalError

-- The first loop: the number of dependencies of each action, and the actions that have none.
unfoldable pub seed : Graph → List Str → Kahn → Kahn
seed g [] s = s
seed g (n ∷ ns) s =
    let waits = length (g.deps n) in
    seed g ns (record s {
      remaining = update s.remaining n (pos waits);
      ready = if waits == 0 then s.ready ++ n ∷ [] else s.ready;
    })

-- The loop over the dependents of an emitted action: the counters, and `unblocked`.
unfoldable pub release : List Str → (Str → ℤ) → List Str → (Str → ℤ) × List Str
release [] remaining unblocked = (remaining, unblocked)
release (d ∷ ds) remaining unblocked =
    let remaining' = update remaining d (decrement (remaining d)) in
    release ds remaining' (if is_zero (remaining' d) then unblocked ++ d ∷ [] else unblocked)

-- `ready`, after the unblocked actions were appended to it.
abbrev pub requeue : List Str → List Str → List Str
requeue ready [] = ready
requeue ready (u ∷ us) = sort_strings (ready ++ u ∷ us)

-- One round of the main loop, for `ready = n ∷ rest`.
unfoldable pub emit : Graph → Kahn → Str → List Str → Kahn
unfolding release
emit g s n rest =
    let (remaining, unblocked) = release (g.rdeps n) s.remaining [] in
    record { remaining = remaining; ready = requeue rest unblocked; order = s.order ++ n ∷ [] }

unfoldable pub kahn_loop : Graph → ℕ → Kahn → Option Kahn
unfolding emit
kahn_loop g zero s = elim s.ready [ [] ↦ some s | _ ↦ none ]
kahn_loop g (suc fuel) s = elim s.ready [
  | [] ↦ some s
  | n ∷ rest ↦ kahn_loop g fuel (emit g s n rest)
]

abbrev pub idle : Kahn
idle = record { remaining = λ _. pos 0; ready = []; order = [] }

unfoldable pub start : Graph → Kahn
unfolding seed
start g = let s = seed g g.names idle in record s { ready = sort_strings s.ready }

unfoldable pub finish : Graph → Kahn → Result TopologicalError (List Str)
unfolding find_cycle
finish g s =
    if length s.order == length g.names
    then ok s.order
    else elim (find_cycle g s.remaining) [ none ↦ err out_of_fuel | some c ↦ err (cycle_error c) ]

-- `TopologicalOrder`
unfoldable pub topological_order : Graph → Result TopologicalError (List Str)
unfolding kahn_loop start finish
topological_order g = elim (kahn_loop g (length g.names) (start g)) [
  | none ↦ err out_of_fuel
  | some s ↦ finish g s
]

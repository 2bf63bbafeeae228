-- ===== src/Graph/FindCycle.antt =====
-- internal/graph/graph.go, `findCycle`: depth-first search with three colours. The Go closure
-- `visit` recurs through the graph; here it takes fuel, and `none` is fuel that ran out.
pub mod Finds
use buildforge.Prelude.{
  ℕ, zero, suc, ℤ, is_zero, is_positive, Str, bytes, str_eq, update, Bool, true, false, ◌&&◌,
  Option, none, some, List, [], ◌∷◌, ◌++◌, drop_last, length, if◌then◌else◌,
}
use buildforge.Graph.{Graph}

pub data Color : Type 0 where
  white gray black : Color

-- The variables that `visit` shares with the function around it.
pub record Dfs : Type 0 where
  pub color : Str → Color
  pub stack : List Str
  pub cycle : List Str

-- The loop that looks for `d` on the stack: what stands from its first occurrence on.
unfoldable pub cut_at : Str → List Str → Option (List Str)
cut_at d [] = none
cut_at d (s ∷ rest) = if str_eq s d then some (s ∷ rest) else cut_at d rest

abbrev pub is_white : Color → Bool
is_white white = true
is_white gray = false
is_white black = false

module _ (g : Graph) (remaining : Str → ℤ) where
  -- The loop over the dependencies of `n` and what follows it; `visit` is the recursive call.
  unfoldable pub scan_deps :
      (visit : Str → Dfs → Option (Bool × Dfs)) → Str → List Str → Dfs → Option (Bool × Dfs)
  scan_deps visit n [] s =
      some (false, record s { stack = drop_last s.stack; color = update s.color n black })
  scan_deps visit n (d ∷ ds) s =
      let next = scan_deps visit n ds in
      if is_zero (remaining d) then next s else elim (s.color d) [
        | gray ↦ elim (cut_at d s.stack) [
          | some loop ↦ some (true, record s { cycle = loop ++ d ∷ [] })
          | none ↦ next s
        ]
        | white ↦ elim (visit d s) [
          | none ↦ none
          | some (found, s') ↦ if found then some (true, s') else next s'
        ]
        | black ↦ next s
      ]

  unfoldable pub visit : ℕ → Str → Dfs → Option (Bool × Dfs)
  unfolding scan_deps
  visit zero n s = none
  visit (suc fuel) n s =
      scan_deps (visit fuel) n (g.deps n)
        (record s { color = update s.color n gray; stack = s.stack ++ n ∷ [] })

  -- The loop over all names.
  unfoldable pub visit_all : ℕ → List Str → Dfs → Option (List Str)
  unfolding visit
  visit_all fuel [] s = some (bytes "<unknown>" ∷ [])
  visit_all fuel (n ∷ ns) s =
      if is_positive (remaining n) && is_white (s.color n)
      then elim (visit fuel n s) [
        | none ↦ none
        | some (found, s') ↦ if found then some s'.cycle else visit_all fuel ns s'
      ]
      else visit_all fuel ns s

  abbrev pub fresh : Dfs
  fresh = record { color = λ _. white; stack = []; cycle = [] }

  unfoldable pub find_cycle : Option (List Str)
  unfolding visit_all cut_at
  find_cycle = visit_all (length g.names) g.names fresh

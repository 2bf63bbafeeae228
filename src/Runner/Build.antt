-- ===== src/Runner/Build.antt =====
-- internal/runner/build.go, `Build`: the sequential driver, over any machine that runs actions.
-- Progress lines and the elapsed time are left out.
pub mod Accounts
pub mod Rounds
pub mod Logged
pub mod Erases
pub mod Correct
use buildforge.Prelude.{
  ℕ, Str, Bool, true, false, List, [], ◌∷◌, ◌++◌, if◌then◌else◌, Option, none, some, ok, err,
}
use buildforge.Manifest.{Action}
use buildforge.Graph.{Graph}
use buildforge.Graph.Topological.{TopologicalError, topological_order}
use buildforge.Runner.Result.{RunResult, Summary, Machine}
use buildforge.Runner.Poison.{Poison, mark_dependents}

pub data BuildError (E : Type 0) : Type 0 where
  order_error : TopologicalError → BuildError E
  not_in_graph : Str → BuildError E
  caused : E → BuildError E

-- The variables of the loop.
pub record Driver (W E : Type 0) : Type 0 where
  pub world : W
  pub poisoned : Poison
  pub summary : Summary
  pub first_err : Option (BuildError E)

-- What `Build` returns, with the world that it leaves.
pub record Outcome (W E : Type 0) : Type 0 where
  pub world : W
  pub summary : Option Summary
  pub error : Option (BuildError E)

-- A round of the loop goes on, or returns.
pub data Round (W E : Type 0) : Type 0 where
  next : Driver W E → Round W E
  return : Outcome W E → Round W E

-- `if firstErr == nil { firstErr = e }`
abbrev pub or_first {ℓ} : {A : Type ℓ} → Option A → A → Option A
or_first none e = some e
or_first (some f) e = some f

-- `if res != nil { sum.Results = append(sum.Results, res) }`
abbrev pub append_result : List RunResult → Option RunResult → List RunResult
append_result rs none = rs
append_result rs (some r) = rs ++ r ∷ []

module _ {W E : Type 0} (g : Graph) where
  -- An action that does not run, and what waits on it.
  unfoldable pub skip : Str → Driver W E → Driver W E
  skip name s = record s {
    poisoned = mark_dependents g name s.poisoned;
    summary = record s.summary { skipped = s.summary.skipped ++ name ∷ [] };
  }

  -- A failed action, and what waits on it.
  unfoldable pub fail : Str → E → Driver W E → Driver W E
  fail name e s = record s {
    poisoned = mark_dependents g name s.poisoned;
    summary = record s.summary { failed = s.summary.failed ++ name ∷ [] };
    first_err = or_first s.first_err (caused e);
  }

module _ {W E : Type 0} where
  unfoldable pub stop : List Str → Driver W E → Outcome W E
  stop rest s = record {
    world = s.world;
    summary = some (record s.summary { skipped = s.summary.skipped ++ rest });
    error = s.first_err;
  }

  abbrev pub begin : W → Driver W E
  begin world = record {
    world = world;
    poisoned = λ _. false;
    summary = record { results = []; failed = []; skipped = [] };
    first_err = none;
  }

module _ {W E : Type 0} (m : Machine W E) (g : Graph) (keep_going : Bool) where
  unfoldable pub run_action : Str → List Str → Action → Driver W E → Round W E
  unfolding fail stop
  run_action name rest a s =
      let (world, res, run_err) = m.run s.world a in
      let s' : Driver W E = record s {
        world = world;
        summary = record s.summary { results = append_result s.summary.results res };
      } in
      elim run_err [
        | none ↦ next s'
        | some e ↦
            if keep_going then next (fail g name e s') else return (stop rest (fail g name e s'))
      ]

  -- The body of the loop; `rest` is `order[i+1:]`.
  unfoldable pub round : Str → List Str → Driver W E → Round W E
  unfolding skip run_action
  round name rest s = elim (g.actions name) [
    | none ↦ return (record { world = s.world; summary = none; error = some (not_in_graph name) })
    | some a ↦ if s.poisoned name then next (skip g name s) else elim (m.ctx_err s.world) [
      | some e ↦ next (record (skip g name s) { first_err = or_first s.first_err (caused e) })
      | none ↦ run_action name rest a s
    ]
  ]

  unfoldable pub build_loop : List Str → Driver W E → Outcome W E
  unfolding round
  build_loop [] s = record { world = s.world; summary = some s.summary; error = s.first_err }
  build_loop (name ∷ rest) s = elim (round name rest s) [
    | next s' ↦ build_loop rest s'
    | return o ↦ o
  ]

  -- `Build`
  unfoldable pub build : W → Outcome W E
  unfolding build_loop topological_order
  build world = elim (topological_order g) [
    | err e ↦ record { world = world; summary = none; error = some (order_error e) }
    | ok order ↦ build_loop order (begin world)
  ]

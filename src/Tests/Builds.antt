-- ===== src/Tests/Builds.antt =====
-- The sequential and the parallel driver on small graphs, and their theorems at these inputs.
use buildforge.Prelude.{
  ℕ, ◌≡◌, ◌≢◌, ◌≤◌, ◌<◌, ◌+◌, refl, Str, str_eq, str_eq_iff, [], ◌∷◌, none, some, true, false, In,
  ◌-◌, ◌⊎◌, ◌↔◌, arith, length, pos, ok, if◌then◌else◌, inl, inr, Bool-cases,
}
use buildforge.Manifest.{Manifest, validate, valid}
use buildforge.Manifest.Valid.{validate-valid_iff}
use buildforge.Graph.{Graph, IsWellFormed, new}
use buildforge.Graph.Topological.{topological_order}
use buildforge.Graph.Build.{new-IsWellFormed}
use buildforge.Runner.Result.{RunResult, Summary, Machine, succeeded}
use buildforge.Runner.Poison.{
  mark_dependents, mark_dependents-marked_iff, IsDownstream, IsClosed, mark_from, mark_all,
}
use buildforge.Runner.Build.{build, build_loop, round, run_action, fail, skip, stop}
use buildforge.Runner.Build.Accounts.{IsRunner, Accounts, Succeeded}
use buildforge.Runner.Build.Correct.{build-Accounts, build-miscounts}
use buildforge.Runner.Build.Logged.{logged, RunsInOrder}
use buildforge.Runner.Build.Erases.{erase}
use buildforge.Runner.Build.Rounds.{Reports}
use buildforge.Sched.{
  Sched, Reach, Turn, turn, Step, here, next, await, all_done, good_deps, go_on, acquire, run_ok,
  release, finish, start, move, take_slot, succeed, give_slot, close, checking, polling, acquiring,
  running, exited, waiting,
}
use buildforge.Sched.Slots.{running-le-workers, running_now}
use buildforge.Sched.Correct.{running_after_deps, exited-Accounts}
use buildforge.Sched.Progress.{build_progresses}
use buildforge.Sched.Termination.{Step-work_left, work_left}
use buildforge.Tests.{
  action, link, main, util, sample, graph_of, program, sample-IsWellFormed, new-sample,
  order-sample, sample-IsValid,
}

abbrev a_result : Str → RunResult
a_result n = record {
  action = n;
  exit_code = pos 0;
  stdout = [];
  stderr = [];
  begin = 0;
  end = 0;
  cached = false;
  nondeterministic = [];
}

-- A machine on which the action `util` fails before it starts, without a result.
abbrev machine : Machine ℕ ℕ
machine = record {
  run = λ w a.
      if str_eq a.name util then (w, none, some 7) else (w + 1, some (a_result a.name), none);
  ctx_err = λ _. none;
}

machine-IsRunner : IsRunner machine
machine-IsRunner = record {
  named = λ w a r e. elim (Bool-cases (str_eq a.name util)) [
    | inl u ↦ ground (arith)
    | inr n ↦ ground (arith)
  ];
  reported = λ w a e. elim (Bool-cases (str_eq a.name util)) [
    | inl u ↦ ground (arith)
    | inr n ↦ (a_result a.name, rw n refl)
  ];
}

abbrev g : Graph
g = graph_of sample

build-Accounts_example :
    (s : Summary) × ((build machine g true 0).summary ≡ some s)
    × Accounts g g.names s
    × Reports (build machine g true 0).error s
    × RunsInOrder g g.names (build (logged machine) g true (0, [])).world.1 s
    × (erase (build (logged machine) g true (0, [])) ≡ build machine g true 0)
build-Accounts_example =
    build-Accounts machine g true 0 (main ∷ util ∷ link ∷ []) machine-IsRunner sample-IsWellFormed
      (new-IsWellFormed sample g sample-IsValid new-sample).1 order-sample

mark_dependents-marked_iff_example :
    ((q : Str)
      → (mark_dependents g util (λ _. false) q ≡ true) ↔ ((false ≡ true) ⊎ IsDownstream g util q))
    × IsClosed g (mark_dependents g util (λ _. false))
mark_dependents-marked_iff_example =
    mark_dependents-marked_iff g util (λ _. false) sample-IsWellFormed (λ x d h i. cc h)

-- What the sequential driver reports when `util` fails without a result.
abbrev lossy : Summary
lossy = record { results = a_result main ∷ []; failed = util ∷ []; skipped = link ∷ [] }

build-machine : (build machine g true 0).summary ≡ some lossy
unfolding program build build_loop round run_action fail skip stop mark_dependents mark_from
    mark_all
build-machine = refl

build-miscounts_example :
    succeeded lossy ≢ pos (length g.names - (length lossy.failed + length lossy.skipped))
unfolding str_eq
build-miscounts_example =
    build-miscounts machine g true 0 (main ∷ util ∷ link ∷ []) lossy util machine-IsRunner
      sample-IsWellFormed (new-IsWellFormed sample g sample-IsValid new-sample).1 order-sample
      build-machine (omega arith) refl

-- The driver runs `main` with success and `util` without, and does not run `link`.
build-logged : (build (logged machine) g true (0, [])).world.1 ≡ (main, true) ∷ (util, false) ∷ []
unfolding program build build_loop round run_action fail skip stop mark_dependents mark_from
    mark_all logged
build-logged = refl

-- Two actions, of which one waits on the other.
abbrev pair : Manifest
pair = action util [] ∷ action link (util ∷ []) ∷ []

abbrev h : Graph
h = graph_of pair

pair-valid : validate pair ≡ valid
unfolding program
pair-valid = refl

new-pair : new pair ≡ ok h
unfolding program
new-pair = refl

h-IsWellFormed : IsWellFormed h
h-IsWellFormed = (new-IsWellFormed pair h ((validate-valid_iff pair).0 pair-valid) new-pair).0

order-pair : topological_order h ≡ ok (util ∷ link ∷ [])
unfolding program
order-pair = refl

-- The states of a run of the two goroutines.
abbrev before : Sched ℕ
unfolding start
before = start h

abbrev util_acquires : Sched ℕ
util_acquires = move util acquiring (move util polling (move util checking before))

abbrev util_runs : Sched ℕ
util_runs = take_slot util util_acquires

abbrev util_done : Sched ℕ
util_done = close util (give_slot util (succeed util (a_result util) util_runs))

abbrev link_acquires : Sched ℕ
link_acquires =
    move link acquiring (move link polling (move link checking (move link (waiting []) util_done)))

abbrev link_runs : Sched ℕ
link_runs = take_slot link link_acquires

abbrev link_done : Sched ℕ
link_done = close link (give_slot link (succeed link (a_result link) link_runs))

steps : Unit {0}
unfolding program start move take_slot give_slot succeed close
steps = tt

util_acquires-Reach : Reach h 1 false util_acquires
unfolding steps
util_acquires-Reach =
    next
      (next (next here (turn (all_done util refl)))
        (turn (good_deps util refl (λ d i. absurd (omega arith)))))
      (turn (go_on util refl refl))

util-Step : Step h 1 false util_acquires util_runs
unfolding steps
util-Step = turn (acquire util refl (omega arith))

util_done-Reach : Reach h 1 false util_done
unfolding steps
util_done-Reach =
    next
      (next
        (next (next util_acquires-Reach util-Step) (turn (run_ok util (a_result util) refl refl)))
        (turn (release util refl)))
      (turn (finish util refl))

link_runs-Reach : Reach h 1 false link_runs
unfolding steps
link_runs-Reach =
    next
      (next
        (next
          (next (next util_done-Reach (turn (await link util [] refl refl)))
            (turn (all_done link refl)))
          (turn (good_deps link refl (λ d i. ground (arith, str_eq_iff util d)))))
        (turn (go_on link refl refl)))
      (turn (acquire link refl (omega arith)))

link_done-Reach : Reach h 1 false link_done
unfolding steps
link_done-Reach =
    next
      (next (next link_runs-Reach (turn (run_ok link (a_result link) refl refl)))
        (turn (release link refl)))
      (turn (finish link refl))

running-le-workers_example : running_now link_runs.point h.names ≤ 1
running-le-workers_example = running-le-workers h 1 false link_runs h-IsWellFormed link_runs-Reach

util_before_link : In util (h.deps link)
unfolding program
util_before_link = omega arith

link_running : link_runs.point link ≡ running
unfolding steps
link_running = refl

running_after_deps_example : Succeeded link_runs.summary util
running_after_deps_example =
    running_after_deps h 1 false link_runs link util h-IsWellFormed link_runs-Reach link_running
      util_before_link

link_done-exited : (q : Str) → link_done.point q ≡ exited
unfolding steps
link_done-exited q = ground (arith, str_eq_iff util q, str_eq_iff link q)

exited-Accounts_example : Accounts h h.names link_done.summary
exited-Accounts_example =
    exited-Accounts h 1 false link_done h-IsWellFormed link_done-Reach link_done-exited

util_busy : util_acquires.point util ≢ exited
unfolding steps
util_busy e = cc

build_progresses_example : (t : Sched ℕ) × Turn h 1 false util_acquires t
build_progresses_example =
    build_progresses h 1 false util_acquires (util ∷ link ∷ []) util h-IsWellFormed order-pair
      (omega arith) util_acquires-Reach util_busy

Step-work_left_example : work_left h util_runs < work_left h util_acquires
Step-work_left_example =
    Step-work_left h 1 false util_acquires util_runs util_acquires-Reach util-Step

-- ===== src/Sched/Progress.antt =====
-- internal/sched/sched.go, `Build`: which goroutine can step.
use buildforge.Prelude.{
  ℕ, ◌≡◌, ◌≢◌, ◌<◌, refl, Str, Bool, true, false, List, [], ◌∷◌, ◌++◌, In, ◌⊎◌, inl, inr, arith,
  Str-cases, subst, Bool-cases, count-append, pos, ok, count-cons_self, ltb,
}
use buildforge.Graph.{Graph, IsWellFormed}
use buildforge.Graph.Order.{IsOrdered}
use buildforge.Graph.Topological.{topological_order}
use buildforge.Graph.Topological.Correct.{topological_order-IsTopologicalOrder}
use buildforge.Runner.Result.{RunResult}
use buildforge.Sched
use buildforge.Sched.{
  Status, Point, waiting, checking, polling, acquiring, running, cancelling, releasing, closing,
  exited, Sched, Turn, await, give_up, all_done, bad_dep, good_deps, stopped, go_on, abandon,
  acquire, run_ok, run_failed, cancel, release, finish, Reach,
}
use buildforge.Sched.Invariant.{Facts, Invariant}
use buildforge.Sched.Steps.{Reach-Invariant}
use buildforge.Sched.Slots.{holding, held, IsBounded, Reach-IsBounded}

-- Some result under a name.
abbrev a_result : Str → RunResult
a_result n = record {
  action = n;
  exit_code = pos 0;
  stdout = [];
  stderr = [];
  begin = 0;
  end = 0;
  cached = false;
  nondeterministic = [];
}

exited-cases : (p : Point) → (p ≡ exited) ⊎ (p ≢ exited)
exited-cases exited = inl refl
exited-cases (waiting _) = inr (λ e. cc)
exited-cases _ = inr (λ e. cc)

named :
    {E : Type 0} (g : Graph) (s : Sched E) (n : Str)
    → Invariant g s
    → s.point n ≢ exited
    → In n g.names
named g s n v busy = go (s.point n) busy (v n)
  where
    go : (p : Point) → p ≢ exited → Facts g s n p → In n g.names
    go exited x f = absurd (x refl)
    go (waiting _) x f = f.0
    go checking x f = f.0
    go polling x f = f.0
    go acquiring x f = f.0
    go running x f = f.0
    go cancelling x f = f.0
    go releasing x f = f.0
    go closing x f = f.0

module _ {E : Type 0} (g : Graph) (workers : ℕ) (keep_going : Bool) (s : Sched E) where
  abbrev Moves : Type 0
  Moves = (t : Sched E) × Turn g workers keep_going s t

  -- A goroutine that holds a slot can always go on.
  holder_moves : (n : Str) (p : Point) → s.point n ≡ p → 0 < holding p → Moves
  holder_moves n running e h = (_, run_ok n (a_result n) e refl)
  holder_moves n cancelling e h = (_, cancel n e)
  holder_moves n releasing e h = (_, release n e)
  holder_moves n (waiting _) e h = absurd (omega arith)
  holder_moves n _ e h = absurd (omega arith)

  held_moves : (ns : List Str) → 0 < held s.point ns → Moves
  held_moves [] h = absurd (omega arith)
  held_moves (n ∷ ns) h = elim (Bool-cases (ltb 0 (holding (s.point n)))) [
    | inl here ↦ holder_moves n (s.point n) refl (ground arith)
    | inr there ↦ held_moves ns (ground arith)
  ]

  all_ok_or :
      (ds : List Str)
      → ((d : Str) → In d ds → s.status d ≡ Sched.ok)
        ⊎ ((d : Str) × In d ds × (s.status d ≢ Sched.ok))
  all_ok_or [] = inl (λ d i. absurd (omega arith))
  all_ok_or (x ∷ ds) = go (s.status x) refl (all_ok_or ds)
    where
      go :
          (y : Status)
          → s.status x ≡ y
          → ((d : Str) → In d ds → s.status d ≡ Sched.ok)
            ⊎ ((d : Str) × In d ds × (s.status d ≢ Sched.ok))
          → ((d : Str) → In d (x ∷ ds) → s.status d ≡ Sched.ok)
            ⊎ ((d : Str) × In d (x ∷ ds) × (s.status d ≢ Sched.ok))
      go y e (inr (d, i, bad)) = inr (d, omega arith, bad)
      go Sched.ok e (inl all) = inl (λ d i. elim (Str-cases x d) [
        | inl same ↦ subst (λ z. s.status z ≡ Sched.ok) same e
        | inr (_, f) ↦ all d (ground arith)
      ])
      go Sched.failed e (inl all) = inr (x, omega (arith, count-cons_self x ds), λ h. cc)
      go Sched.skipped e (inl all) = inr (x, omega (arith, count-cons_self x ds), λ h. cc)

  module _ (v : Invariant g s) (b : IsBounded g workers s) (some_workers : 0 < workers) where
    -- A goroutine that has not exited, but all of whose dependencies have published, is not alone
    -- stuck: it can step, or the holder of a slot can.
    first_moves :
        (n : Str) (p : Point)
        → s.point n ≡ p
        → p ≢ exited
        → ((d : Str) → In d (g.deps n) → s.done d ≡ true)
        → Facts g s n p
        → Moves
    first_moves n (waiting []) e x h f = (_, all_done n e)
    first_moves n (waiting (d ∷ ds)) e x h f =
        (_, await n d ds e (h d (f.3 d (omega (arith, count-cons_self d ds)))))
    first_moves n checking e x h f = elim (all_ok_or (g.deps n)) [
      | inl fine ↦ (_, good_deps n e fine)
      | inr (d, i, bad) ↦ (_, bad_dep n d e i bad)
    ]
    first_moves n polling e x h f = elim (Bool-cases s.cancelled) [
      | inl stop ↦ (_, stopped n e stop)
      | inr on ↦ (_, go_on n e on)
    ]
    first_moves n acquiring e x h f = elim (Bool-cases (ltb s.slots workers)) [
      | inl room ↦ (_, acquire n e (ground arith))
      | inr full ↦ held_moves g.names (ground (arith, b.counted))
    ]
    first_moves n running e x h f = holder_moves n running e (omega arith)
    first_moves n cancelling e x h f = holder_moves n cancelling e (omega arith)
    first_moves n releasing e x h f = holder_moves n releasing e (omega arith)
    first_moves n closing e x h f = (_, finish n e)
    first_moves n exited e x h f = absurd (x refl)

    -- Along a topological order, the first goroutine that has not exited is such a one.
    order_moves :
        (seen rest : List Str)
        → IsOrdered g.deps seen rest
        → ((d : Str) → In d seen → s.done d ≡ true)
        → ((d : Str) → In d rest → In d g.names)
        → (n : Str) → In n rest
        → s.point n ≢ exited
        → Moves
    order_moves seen [] o h k n i x = absurd (omega arith)
    order_moves seen (m ∷ rest) o h k n i x = elim (exited-cases (s.point m)) [
      | inl e ↦
          let (inside, _) = subst (Facts g s m) e (v m) in
          let closed = (inside (k m (omega (arith, count-cons_self m rest)))).0 in
          order_moves (seen ++ m ∷ []) rest o.1
            (λ d j. elim (Str-cases m d) [
              | inl same ↦ subst (λ z. s.done z ≡ true) same closed
              | inr (_, f) ↦ h d (ground (arith, count-append d seen (m ∷ [])))
            ])
            (λ d j. k d (omega arith)) n
            (elim (Str-cases m n) [
              | inl same ↦ absurd (x (subst (λ z. s.point z ≡ exited) same e))
              | inr (_, f) ↦ ground arith
            ])
            x
      | inr busy ↦ first_moves m (s.point m) refl busy (λ d j. h d (o.0 d j)) (v m)
    ]

-- No deadlock: with at least one worker and a well-formed graph that has an order, as long as some
-- goroutine has not exited, some goroutine can take a step itself (one that runs its action can end
-- it), in every state that they can reach; a cancellation from outside does not count.
pub build_progresses :
    {E : Type 0} (g : Graph) (workers : ℕ) (keep_going : Bool) (s : Sched E) (order : List Str)
    (n : Str)
    → IsWellFormed g
    → topological_order g ≡ ok order
    → 0 < workers
    → Reach g workers keep_going s
    → s.point n ≢ exited
    → (t : Sched E) × Turn g workers keep_going s t
build_progresses g workers keep_going s order n w e some_workers r busy =
    let t = topological_order-IsTopologicalOrder g order w e in
    let v = Reach-Invariant g workers keep_going r in
    order_moves g workers keep_going s v (Reach-IsBounded g w workers keep_going r) some_workers []
      order t.ordered (λ d i. absurd (omega arith)) (λ d i. omega (arith, t.complete d)) n
      (omega (arith, t.complete n, named g s n v busy)) busy

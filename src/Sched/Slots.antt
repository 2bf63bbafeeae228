-- ===== src/Sched/Slots.antt =====
-- internal/sched/sched.go, `Build`: the semaphore, and the actions that run.
use buildforge.Prelude.{
  ℕ, ◌+◌, ◌≡◌, ◌≤◌, refl, Str, update, Bool, true, false, List, [], ◌∷◌, count, In, ◌==◌,
  if◌then◌else◌, arith, str_eq_iff, Bool-cases, subst, Str-cases, update_self, update_ne, ap, sym,
  inl, inr,
}
use buildforge.Graph.{Graph, IsWellFormed}
use buildforge.Sched.{
  Point, waiting, checking, polling, acquiring, running, cancelling, releasing, closing, exited,
  Sched, start, move, skip, succeed, fail, take_slot, give_slot, close, Step, await, give_up,
  all_done, bad_dep, good_deps, stopped, go_on, abandon, acquire, run_ok, run_failed, cancel,
  release, finish, turn, interrupt, Reach, here, next,
}
use buildforge.Sched.Invariant.{Invariant}
use buildforge.Sched.Steps.{at_point, Reach-Invariant}

-- Whether a goroutine at this point holds a slot.
abbrev pub holding : Point → ℕ
holding running = 1
holding cancelling = 1
holding releasing = 1
holding _ = 0

abbrev pub held : (Str → Point) → List Str → ℕ
held f [] = 0
held f (n ∷ ns) = holding (f n) + held f ns

abbrev is_running : Point → Bool
is_running running = true
is_running _ = false

-- How many actions are in `r.Run`.
abbrev pub running_now : (Str → Point) → List Str → ℕ
running_now f [] = 0
running_now f (n ∷ ns) = (if is_running (f n) then 1 else 0) + running_now f ns

held-absent :
    (f : Str → Point) (n : Str) (p : Point) (ns : List Str)
    → count n ns ≡ 0
    → held (update f n p) ns ≡ held f ns
held-absent f n p [] h = refl
held-absent f n p (m ∷ ns) h = ground (arith, held-absent f n p ns, str_eq_iff m n, str_eq_iff n m)

held-update :
    (f : Str → Point) (n : Str) (p : Point) (ns : List Str)
    → In n ns
    → count n ns ≤ 1
    → held (update f n p) ns + holding (f n) ≡ held f ns + holding p
held-update f n p [] i u = absurd (omega arith)
held-update f n p (m ∷ ns) i u = elim (Str-cases m n) [
  | inl e ↦ omega (
    arith,
    held-absent f n p ns (ground (arith, str_eq_iff m n)),
    ap holding (here_now m e),
    ap (λ z. holding (f z)) e,
  )
  | inr (o, g) ↦ omega (
    arith,
    held-update f n p ns (ground arith) (ground arith),
    ap holding (update_ne f n p m (λ e. o (sym e))),
  )
]
  where
    here_now : (m : Str) → m ≡ n → update f n p m ≡ p
    here_now m e = subst (λ z. update f n p z ≡ p) (sym e) (update_self f n p)

running-le-held : (f : Str → Point) (ns : List Str) → running_now f ns ≤ held f ns
running-le-held f [] = omega arith
running-le-held f (n ∷ ns) = omega (arith, running-le-holding (f n), running-le-held f ns)
  where
    running-le-holding : (p : Point) → (if is_running p then 1 else 0) ≤ holding p
    running-le-holding running = omega arith
    running-le-holding _ = omega arith

none_held :
    (g : Graph) (ns : List Str)
    → held (λ q. if count q g.names == 0 then exited else waiting (g.deps q)) ns ≡ 0
none_held g [] = refl
none_held g (n ∷ ns) = elim (Bool-cases (count n g.names == 0)) [
  | inl e ↦ rw e (omega (arith, none_held g ns))
  | inr e ↦ rw e (omega (arith, none_held g ns))
]

-- The semaphore counts the goroutines that hold a slot, and never passes its capacity.
pub record IsBounded {E : Type 0} (g : Graph) (workers : ℕ) (s : Sched E) : Type 0 where
  pub counted : s.slots ≡ held s.point g.names
  pub bounded : s.slots ≤ workers

module _ {E : Type 0} (g : Graph) (w : IsWellFormed g) (workers : ℕ) (keep_going : Bool) where
  -- A goroutine of the graph moves from `p` to `p'`, and the count of slots follows.
  moved :
      (s t : Sched E) (n : Str) (p p' : Point)
      → IsBounded g workers s
      → In n g.names
      → s.point n ≡ p
      → t.point ≡ update s.point n p'
      → t.slots + holding p ≡ s.slots + holding p'
      → t.slots ≤ workers
      → IsBounded g workers t
  moved s t n p p' b i e ep es le = record {
    counted =
        rw ep (
          omega
            (arith, held-update s.point n p' g.names i (w.distinct n), ap holding e, b.counted));
    bounded = le;
  }

  held-pos :
      (s : Sched E) (n : Str) → IsBounded g workers s → In n g.names → holding (s.point n) ≤ s.slots
  held-pos s n b i = omega (arith, b.counted, held-at s.point n g.names i)
    where
      held-at : (f : Str → Point) (n : Str) (ns : List Str) → In n ns → holding (f n) ≤ held f ns
      held-at f n [] i = absurd (omega arith)
      held-at f n (m ∷ ns) i = elim (Str-cases m n) [
        | inl e ↦ omega (arith, ap (λ z. holding (f z)) e)
        | inr (o, g) ↦ omega (arith, held-at f n ns (ground arith))
      ]

  -- The same for a step that does not touch the semaphore.
  kept :
      (s t : Sched E) (n : Str) (p p' : Point)
      → IsBounded g workers s
      → In n g.names
      → s.point n ≡ p
      → t.point ≡ update s.point n p'
      → holding p ≡ holding p'
      → t.slots ≡ s.slots
      → IsBounded g workers t
  kept s t n p p' b i e ep eh es =
      moved s t n p p' b i e ep (omega arith) (omega (arith, b.bounded))

  Step-IsBounded :
      {s t : Sched E}
      → Step g workers keep_going s t
      → Invariant g s
      → IsBounded g workers s
      → IsBounded g workers t
  unfolding move skip succeed fail take_slot give_slot close
  Step-IsBounded (turn (await {s = s} n d ds e _)) v b =
      kept s _ n (waiting (d ∷ ds)) (waiting ds) b (at_point g workers keep_going s n _ v e).0 e
        refl refl refl
  Step-IsBounded (turn (give_up {s = s} n d ds e _)) v b =
      kept s _ n (waiting (d ∷ ds)) closing b (at_point g workers keep_going s n _ v e).0 e refl
        refl refl
  Step-IsBounded (turn (all_done {s = s} n e)) v b =
      kept s _ n (waiting []) checking b (at_point g workers keep_going s n _ v e).0 e refl refl
        refl
  Step-IsBounded (turn (bad_dep {s = s} n d e _ _)) v b =
      kept s _ n checking closing b (at_point g workers keep_going s n _ v e).0 e refl refl refl
  Step-IsBounded (turn (good_deps {s = s} n e _)) v b =
      kept s _ n checking polling b (at_point g workers keep_going s n _ v e).0 e refl refl refl
  Step-IsBounded (turn (stopped {s = s} n e _)) v b =
      kept s _ n polling closing b (at_point g workers keep_going s n _ v e).0 e refl refl refl
  Step-IsBounded (turn (go_on {s = s} n e _)) v b =
      kept s _ n polling acquiring b (at_point g workers keep_going s n _ v e).0 e refl refl refl
  Step-IsBounded (turn (abandon {s = s} n e _)) v b =
      kept s _ n acquiring closing b (at_point g workers keep_going s n _ v e).0 e refl refl refl
  Step-IsBounded (turn (acquire {s = s} n e room)) v b =
      moved s _ n acquiring running b (at_point g workers keep_going s n _ v e).0 e refl
        (omega arith) (omega arith)
  Step-IsBounded (turn (run_ok {s = s} n r e _)) v b =
      kept s _ n running releasing b (at_point g workers keep_going s n _ v e).0 e refl refl refl
  Step-IsBounded (turn (run_failed {s = s} n res x e _)) v b =
      kept s _ n running (if keep_going then releasing else cancelling) b
        (at_point g workers keep_going s n _ v e).0 e refl (deferred keep_going) refl
    where
      deferred : (k : Bool) → 1 ≡ holding (if k then releasing else cancelling)
      deferred true = refl
      deferred false = refl
  Step-IsBounded (turn (cancel {s = s} n e)) v b =
      kept s _ n cancelling releasing b (at_point g workers keep_going s n _ v e).0 e refl refl refl
  Step-IsBounded (turn (release {s = s} n e)) v b =
      let i = (at_point g workers keep_going s n releasing v e).0 in
      moved s _ n releasing closing b i e refl (omega (arith, held-pos s n b i, ap holding e))
        (omega (arith, b.bounded))
  Step-IsBounded (turn (finish {s = s} n e)) v b =
      kept s _ n closing exited b (at_point g workers keep_going s n _ v e).0 e refl refl refl
  Step-IsBounded (interrupt {s = s} _) v b = record { counted = b.counted; bounded = b.bounded }

  start-IsBounded : IsBounded g workers (start g {E = E})
  unfolding start
  start-IsBounded = record { counted = sym (none_held g g.names); bounded = omega arith }

  pub Reach-IsBounded : {s : Sched E} → Reach g workers keep_going s → IsBounded g workers s
  Reach-IsBounded here = start-IsBounded
  Reach-IsBounded (next r st) =
      Step-IsBounded st (Reach-Invariant g workers keep_going r) (Reach-IsBounded r)

-- On a well-formed graph, in no state that the goroutines can reach do more actions run at once
-- than there are workers.
pub running-le-workers :
    {E : Type 0} (g : Graph) (workers : ℕ) (keep_going : Bool) (s : Sched E)
    → IsWellFormed g
    → Reach g workers keep_going s
    → running_now s.point g.names ≤ workers
running-le-workers g workers keep_going s w r =
    let b = Reach-IsBounded g w workers keep_going r in
    omega (arith, b.counted, b.bounded, running-le-held s.point g.names)

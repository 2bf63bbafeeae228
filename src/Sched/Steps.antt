-- ===== src/Sched/Steps.antt =====
-- internal/sched/sched.go, `Build`: every step keeps the invariant.
use buildforge.Prelude.{
  ℕ, ◌-◌, ◌≡◌, Str, Bool, true, [], ◌∷◌, inl, inr, arith, Str-cases, subst, suc,
}
use buildforge.Graph.{Graph}
use buildforge.Sched.{
  Point, waiting, checking, polling, acquiring, running, cancelling, releasing, closing, Sched,
  move, take_slot, give_slot, Step, await, give_up, all_done, bad_dep, good_deps, stopped, go_on,
  abandon, acquire, run_ok, run_failed, cancel, release, finish, turn, interrupt, Reach, here, next,
}
use buildforge.Sched.Invariant.{Facts, Invariant, start-Invariant}
use buildforge.Sched.Effects.{
  Facts-adjust, move-Invariant, skip-Invariant, succeed-Invariant, fail-Invariant, close-Invariant,
}

module _ {E : Type 0} (g : Graph) (workers : ℕ) (keep_going : Bool) where
  pub at_point : (s : Sched E) (n : Str) (p : Point) → Invariant g s → s.point n ≡ p → Facts g s n p
  at_point s n p v e = subst (Facts g s n) e (v n)

  Step-Invariant : {s t : Sched E} → Step g workers keep_going s t → Invariant g s → Invariant g t
  unfolding move take_slot give_slot
  Step-Invariant (turn (await {s = s} n d ds e closed)) v =
      let (i, u, h, k) = at_point s n (waiting (d ∷ ds)) v e in
      move-Invariant g n (waiting ds) s.slots s.cancelled s v (
        i,
        u,
        (λ x j. elim (h x j) [
          | inl later ↦ elim (Str-cases d x) [
            | inl same ↦ inr (subst (λ z. s.done z ≡ true) same closed)
            | inr (_, f) ↦ inl (ground arith)
          ]
          | inr before ↦ inr before
        ]),
        λ x j. k x (omega arith),
      )
  Step-Invariant (turn (give_up {s = s} n d ds e stop)) v =
      let (i, u, _, _) = at_point s n (waiting (d ∷ ds)) v e in skip-Invariant g n s v i u
  Step-Invariant (turn (all_done {s = s} n e)) v =
      let (i, u, h, _) = at_point s n (waiting []) v e in
      move-Invariant g n checking s.slots s.cancelled s v (i, u, λ d j. ground (arith, h d j))
  Step-Invariant (turn (bad_dep {s = s} n d e j bad)) v =
      let (i, u, _) = at_point s n checking v e in skip-Invariant g n s v i u
  Step-Invariant (turn (good_deps {s = s} n e fine)) v =
      let (i, u, h) = at_point s n checking v e in
      move-Invariant g n polling s.slots s.cancelled s v (i, u, λ d j. (h d j, fine d j))
  Step-Invariant (turn (stopped {s = s} n e c)) v =
      let (i, u, _) = at_point s n polling v e in skip-Invariant g n s v i u
  Step-Invariant (turn (go_on {s = s} n e c)) v =
      move-Invariant g n acquiring s.slots s.cancelled s v (at_point s n polling v e)
  Step-Invariant (turn (abandon {s = s} n e c)) v =
      let (i, u, _) = at_point s n acquiring v e in skip-Invariant g n s v i u
  Step-Invariant (turn (acquire {s = s} n e c)) v =
      move-Invariant g n running (suc s.slots) s.cancelled s v (at_point s n acquiring v e)
  Step-Invariant (turn (run_ok {s = s} n r e named)) v =
      let (i, u, ready) = at_point s n running v e in succeed-Invariant g n r s named v i u ready
  Step-Invariant (turn (run_failed {s = s} n res x e named)) v =
      let (i, u, ready) = at_point s n running v e in
      fail-Invariant g n keep_going res x s named v i u ready
  Step-Invariant (turn (cancel {s = s} n e)) v =
      move-Invariant g n releasing s.slots true s v (at_point s n cancelling v e)
  Step-Invariant (turn (release {s = s} n e)) v =
      move-Invariant g n closing (s.slots - 1) s.cancelled s v (at_point s n releasing v e)
  Step-Invariant (turn (finish {s = s} n e)) v = close-Invariant g n s v (at_point s n closing v e)
  Step-Invariant (interrupt {s = s} c) v =
      λ q. Facts-adjust g s.point s.slots true s q (s.point q) (v q)

  -- Every state that can be reached keeps the invariant.
  pub Reach-Invariant : {s : Sched E} → Reach g workers keep_going s → Invariant g s
  Reach-Invariant here = start-Invariant E g
  Reach-Invariant (next r st) = Step-Invariant st (Reach-Invariant r)

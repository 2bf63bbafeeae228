-- ===== src/Sched/Termination.antt =====
-- internal/sched/sched.go, `Build`: how much the goroutines have left to do.
use buildforge.Prelude.{
  ℕ, ◌+◌, ◌≡◌, ◌≤◌, ◌<◌, refl, Str, update, update_self, Bool, true, false, List, [], ◌∷◌, In,
  if◌then◌else◌, inl, inr, arith, Str-cases, subst, str_eq_iff, ap, length,
}
use buildforge.Graph.{Graph}
use buildforge.Sched.{
  Point, waiting, checking, polling, acquiring, running, cancelling, releasing, closing, exited,
  Sched, move, skip, succeed, fail, take_slot, give_slot, close, Step, await, give_up, all_done,
  bad_dep, good_deps, stopped, go_on, abandon, acquire, run_ok, run_failed, cancel, release, finish,
  turn, interrupt, Reach,
}
use buildforge.Sched.Invariant.{Invariant}
use buildforge.Sched.Steps.{at_point, Reach-Invariant}

-- How many steps a goroutine has left at most.
abbrev pub steps_left : Point → ℕ
steps_left (waiting ds) = 8 + length ds
steps_left checking = 7
steps_left polling = 6
steps_left acquiring = 5
steps_left running = 4
steps_left cancelling = 3
steps_left releasing = 2
steps_left closing = 1
steps_left exited = 0

abbrev pub total : (Str → Point) → List Str → ℕ
total f [] = 0
total f (n ∷ ns) = steps_left (f n) + total f ns

-- The steps that are left to all goroutines, and the cancellation from outside.
abbrev pub work_left : {E : Type 0} → Graph → Sched E → ℕ
work_left g s = total s.point g.names + (if s.cancelled then 0 else 1)

module _ (f : Str → Point) (n : Str) (p : Point) (less : steps_left p < steps_left (f n)) where
  after : (m : Str) → n ≡ m → steps_left (update f n p m) ≡ steps_left p
  after m e =
      subst (λ z. steps_left (update f n p z) ≡ steps_left p) e (ap steps_left (update_self f n p))

  total-le : (ns : List Str) → total (update f n p) ns ≤ total f ns
  total-le [] = omega arith
  total-le (m ∷ ns) = elim (Str-cases n m) [
    | inl e ↦ omega (arith, total-le ns, after m e, ap (λ z. steps_left (f z)) e)
    | inr (_, o) ↦ rw o (omega (arith, total-le ns))
  ]

  total-lt : (ns : List Str) → In n ns → total (update f n p) ns < total f ns
  total-lt [] i = absurd (omega arith)
  total-lt (m ∷ ns) i = elim (Str-cases n m) [
    | inl e ↦ omega (arith, total-le ns, after m e, ap (λ z. steps_left (f z)) e)
    | inr (_, o) ↦
        rw o (omega (arith, total-lt ns (ground (arith, str_eq_iff n m, str_eq_iff m n))))
  ]

module _ {E : Type 0} (g : Graph) (workers : ℕ) (keep_going : Bool) where
  -- The goroutine `n` moves from `p` to `p'`; the context may be cancelled on the way.
  moved-lt :
      (s t : Sched E) (n : Str) (p p' : Point)
      → In n g.names
      → s.point n ≡ p
      → t.point ≡ update s.point n p'
      → steps_left p' < steps_left p
      → (if t.cancelled then 0 else 1) ≤ (if s.cancelled then 0 else 1)
      → work_left g t < work_left g s
  moved-lt s t n p p' i e ep less c =
      rw ep (omega (arith, total-lt s.point n p' (omega (arith, ap steps_left e)) g.names i))

  Step-lt :
      {s t : Sched E}
      → Step g workers keep_going s t
      → Invariant g s
      → work_left g t < work_left g s
  unfolding move skip succeed fail take_slot give_slot close
  Step-lt (turn (await {s = s} n d ds e _)) v =
      moved-lt s (move n (waiting ds) s) n (waiting (d ∷ ds)) (waiting ds)
        (at_point g workers keep_going s n _ v e).0 e refl (omega arith) (omega arith)
  Step-lt (turn (give_up {s = s} n d ds e _)) v =
      moved-lt s (skip n closing s) n (waiting (d ∷ ds)) closing
        (at_point g workers keep_going s n _ v e).0 e refl (omega arith) (omega arith)
  Step-lt (turn (all_done {s = s} n e)) v =
      moved-lt s (move n checking s) n (waiting []) checking
        (at_point g workers keep_going s n _ v e).0 e refl (omega arith) (omega arith)
  Step-lt (turn (bad_dep {s = s} n d e _ _)) v =
      moved-lt s (skip n closing s) n checking closing (at_point g workers keep_going s n _ v e).0 e
        refl (omega arith) (omega arith)
  Step-lt (turn (good_deps {s = s} n e _)) v =
      moved-lt s (move n polling s) n checking polling (at_point g workers keep_going s n _ v e).0 e
        refl (omega arith) (omega arith)
  Step-lt (turn (stopped {s = s} n e _)) v =
      moved-lt s (skip n closing s) n polling closing (at_point g workers keep_going s n _ v e).0 e
        refl (omega arith) (omega arith)
  Step-lt (turn (go_on {s = s} n e _)) v =
      moved-lt s (move n acquiring s) n polling acquiring
        (at_point g workers keep_going s n _ v e).0 e refl (omega arith) (omega arith)
  Step-lt (turn (abandon {s = s} n e _)) v =
      moved-lt s (skip n closing s) n acquiring closing (at_point g workers keep_going s n _ v e).0
        e refl (omega arith) (omega arith)
  Step-lt (turn (acquire {s = s} n e _)) v =
      moved-lt s (take_slot n s) n acquiring running (at_point g workers keep_going s n _ v e).0 e
        refl (omega arith) (omega arith)
  Step-lt (turn (run_ok {s = s} n r e _)) v =
      moved-lt s (succeed n r s) n running releasing (at_point g workers keep_going s n _ v e).0 e
        refl (omega arith) (omega arith)
  Step-lt (turn (run_failed {s = s} n res x e _)) v =
      moved-lt s (fail n keep_going res x s) n running
        (if keep_going then releasing else cancelling) (at_point g workers keep_going s n _ v e).0 e
        refl (deferred keep_going) (omega arith)
    where
      deferred : (k : Bool) → steps_left (if k then releasing else cancelling) < 4
      deferred true = omega arith
      deferred false = omega arith
  Step-lt (turn (cancel {s = s} n e)) v =
      moved-lt s (record (move n releasing s) { cancelled = true }) n cancelling releasing
        (at_point g workers keep_going s n _ v e).0 e refl (omega arith) (omega arith)
  Step-lt (turn (release {s = s} n e)) v =
      moved-lt s (give_slot n s) n releasing closing (at_point g workers keep_going s n _ v e).0 e
        refl (omega arith) (omega arith)
  Step-lt (turn (finish {s = s} n e)) v =
      moved-lt s (close n s) n closing exited (at_point g workers keep_going s n _ v e).0 e refl
        (omega arith) (omega arith)
  Step-lt (interrupt {s = s} c) v = rw c (omega arith)

-- Every step from a state that the goroutines can reach lowers the number `work_left`, so every run
-- of them ends.
pub Step-work_left :
    {E : Type 0} (g : Graph) (workers : ℕ) (keep_going : Bool) (s t : Sched E)
    → Reach g workers keep_going s
    → Step g workers keep_going s t
    → work_left g t < work_left g s
Step-work_left g workers keep_going s t r st =
    Step-lt g workers keep_going st (Reach-Invariant g workers keep_going r)

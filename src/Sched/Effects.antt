-- ===== src/Sched/Effects.antt =====
-- internal/sched/sched.go, `Build`: each kind of step keeps the invariant.
use buildforge.Prelude.{
  ℕ, ◌≡◌, ◌≢◌, refl, sym, Str, update, update_self, update_ne, Bool, true, false, List, [], ◌∷◌,
  ◌++◌, count, count-append, count-snoc_self, In, if◌then◌else◌, inl, inr, arith, Str-cases, subst,
  ◌∙◌, ap, suc, str_eq_iff, Option, some,
}
use buildforge.Graph.{Graph}
use buildforge.Runner.Result.{RunResult, executed}
use buildforge.Runner.Build.Accounts.{count-executed}
use buildforge.Runner.Build.Rounds.{has-bounds, count-tally}
use buildforge.Sched.{
  Status, ok, failed, skipped, Point, waiting, checking, cancelling, releasing, closing, exited,
  Sched, skip, succeed, fail, close,
}
use buildforge.Sched.Invariant.{
  Ready, Undecided, Decided, Facts, Invariant, Frame, Ready-kept, Frame-Invariant, Recorded,
}

-- The facts behind a decision.
abbrev pub Deferred : Point → Type 0
Deferred cancelling = Unit {0}
Deferred releasing = Unit {0}
Deferred closing = Unit {0}
Deferred _ = ⊥

pub count-other : (n q : Str) (xs : List Str) → n ≢ q → count q (xs ++ n ∷ []) ≡ count q xs
count-other n q xs o = ground (arith, count-append q xs (n ∷ []), str_eq_iff n q)

module _ {E : Type 0} (g : Graph) where
  -- The facts do not mention the points, the slots and the cancellation.
  abbrev pub adjust : (Str → Point) → ℕ → Bool → Sched E → Sched E
  adjust point slots cancelled s = record s { point = point; slots = slots; cancelled = cancelled }

  module _ (point : Str → Point) (slots : ℕ) (cancelled : Bool) (s : Sched E) where
    Recorded-adjust :
        (q : Str) (x : Status) → Recorded g s q x → Recorded g (adjust point slots cancelled s) q x
    Recorded-adjust q ok h = h
    Recorded-adjust q _ h = h

    pub Facts-adjust :
        (q : Str) (p : Point) → Facts g s q p → Facts g (adjust point slots cancelled s) q p
    Facts-adjust q checking h = h
    Facts-adjust q cancelling (i, o, d) = (i, o, Recorded-adjust q (s.status q) d)
    Facts-adjust q releasing (i, o, d) = (i, o, Recorded-adjust q (s.status q) d)
    Facts-adjust q closing (i, o, d) = (i, o, Recorded-adjust q (s.status q) d)
    Facts-adjust q exited (h, k) = ((λ i. ((h i).0, Recorded-adjust q (s.status q) (h i).1)), k)
    Facts-adjust q _ h = h

  -- A step that moves its goroutine and decides nothing.
  pub move-Invariant :
      (n : Str) (p : Point) (slots : ℕ) (cancelled : Bool) (s : Sched E)
      → Invariant g s
      → Facts g s n p
      → Invariant g (adjust (update s.point n p) slots cancelled s)
  move-Invariant n p slots cancelled s v own q = elim (Str-cases n q) [
    | inl e ↦
        subst
          (λ z. Facts g (adjust (update s.point n p) slots cancelled s) z (update s.point n p z)) e
          (subst (Facts g (adjust (update s.point n p) slots cancelled s) n)
            (sym (update_self s.point n p))
            (Facts-adjust (update s.point n p) slots cancelled s n p own))
    | inr (other, f) ↦
        rw f (Facts-adjust (update s.point n p) slots cancelled s q (s.point q) (v q))
  ]

  -- A step that decides the outcome of an action that has not published one.
  pub decide-Frame :
      (n : Str) (s t : Sched E) (p : Point) (x : Status)
      → s.done n ≡ false
      → t.point ≡ update s.point n p
      → t.done ≡ s.done
      → t.status ≡ update s.status n x
      → ((q : Str) → n ≢ q → count q t.summary.failed ≡ count q s.summary.failed)
      → ((q : Str) → n ≢ q → count q t.summary.skipped ≡ count q s.summary.skipped)
      → ((q : Str) → n ≢ q → count q (executed t.summary) ≡ count q (executed s.summary))
      → Frame g n s t
  decide-Frame n s t p x open_ ep ed es cf cs ce = record {
    kept = λ d h. elim (Str-cases n d) [
      | inl e ↦ cc
      | inr (o, _) ↦ (rw ed h, rw es (update_ne s.status n x d o))
    ];
    same_point = λ q o. rw ep (update_ne s.point n p q o);
    same_done = λ q o. rw ed refl;
    same_status = λ q o. rw es (update_ne s.status n x q o);
    same_failed = cf;
    same_skipped = cs;
    same_executed = ce;
  }

  pub Decided-Facts :
      (n : Str) (t : Sched E) (p : Point)
      → Deferred p
      → In n g.names × (t.done n ≡ false) × Decided g t n
      → Facts g t n p
  Decided-Facts n t cancelling _ h = h
  Decided-Facts n t releasing _ h = h
  Decided-Facts n t closing _ h = h
  Decided-Facts n t (waiting _) h _ = absurd h
  Decided-Facts n t _ h _ = absurd h

  pub decide-Invariant :
      (n : Str) (s t : Sched E) (p : Point) (x : Status)
      → Invariant g s
      → Frame g n s t
      → t.point ≡ update s.point n p
      → t.done ≡ s.done
      → t.status ≡ update s.status n x
      → Deferred p
      → In n g.names
      → s.done n ≡ false
      → Recorded g t n x
      → Invariant g t
  decide-Invariant n s t p x v f ep ed es later i open_ r = Frame-Invariant g n s t f v (
      subst (Facts g t n) (sym (rw ep (update_self s.point n p))) (
        Decided-Facts n t p later
          (i, rw ed open_, subst (Recorded g t n) (sym (rw es (update_self s.status n x))) r)))

  pub skip-Invariant :
      (n : Str) (s : Sched E)
      → Invariant g s
      → In n g.names
      → Undecided g s n
      → Invariant g (skip n closing s)
  unfolding skip
  skip-Invariant n s v i (open_, tallies, new) =
      decide-Invariant n s (skip n closing s) closing skipped v
        (decide-Frame n s (skip n closing s) closing skipped open_ refl refl refl (λ q o. refl)
          (λ q o. count-other n q s.summary.skipped o) (λ q o. refl))
        refl refl refl tt i open_
        ((tallies.0, count-snoc_self n s.summary.skipped ∙ ap suc tallies.1), new)

  pub succeed-Invariant :
      (n : Str) (r : RunResult) (s : Sched E)
      → r.action ≡ n
      → Invariant g s
      → In n g.names
      → Undecided g s n
      → Ready g s n
      → Invariant g (succeed n r s)
  unfolding succeed
  succeed-Invariant n r s named v i (open_, tallies, new) ready =
      let f =
        decide-Frame n s (succeed n r s) releasing ok open_ refl refl refl (λ q o. refl)
          (λ q o. refl)
          (λ q o. ground (arith, count-executed q s.summary.results r, str_eq_iff r.action q)) in
      decide-Invariant n s (succeed n r s) releasing ok v f refl refl refl tt i open_ (
        tallies,
        ground (arith, count-executed n s.summary.results r, str_eq_iff r.action n),
        Ready-kept g n s (succeed n r s) f n ready,
      )

  pub fail-Invariant :
      (n : Str) (keep_going : Bool) (res : Option RunResult) (e : E) (s : Sched E)
      → ((r : RunResult) → res ≡ some r → r.action ≡ n)
      → Invariant g s
      → In n g.names
      → Undecided g s n
      → Ready g s n
      → Invariant g (fail n keep_going res e s)
  unfolding fail
  fail-Invariant n keep_going res e s named v i (open_, tallies, new) ready =
      let p = if keep_going then releasing else cancelling in
      let t = fail n keep_going res e s in
      let c = count-tally s.summary.results n res named in
      let f =
        decide-Frame n s t p failed open_ refl refl refl (λ q o. count-other n q s.summary.failed o)
          (λ q o. refl) (λ q o. ground (arith, c q, str_eq_iff n q)) in
      decide-Invariant n s t p failed v f refl refl refl (deferred keep_going) i open_ (
        (count-snoc_self n s.summary.failed ∙ ap suc tallies.0, tallies.1),
        ground (arith, c n, has-bounds res),
        Ready-kept g n s t f n ready,
      )
    where
      deferred : (b : Bool) → Deferred (if b then releasing else cancelling)
      deferred true = tt
      deferred false = tt

  pub close-Invariant :
      (n : Str) (s : Sched E) → Invariant g s → Facts g s n closing → Invariant g (close n s)
  unfolding close
  close-Invariant n s v (i, open_, d) =
      let f : Frame g n s (close n s) = record {
        kept = λ x h. (ground arith, refl);
        same_point = λ q o. update_ne s.point n exited q o;
        same_done = λ q o. update_ne s.done n true q o;
        same_status = λ q o. refl;
        same_failed = λ q o. refl;
        same_skipped = λ q o. refl;
        same_executed = λ q o. refl;
      } in
      Frame-Invariant g n s (close n s) f v (
        subst (Facts g (close n s) n) (sym (update_self s.point n exited)) (
          (λ _. (update_self s.done n true, recorded f (s.status n) d)),
          λ o. absurd (omega arith),
        ))
    where
      recorded :
          Frame g n s (close n s) → (x : Status) → Recorded g s n x → Recorded g (close n s) n x
      recorded f ok (a, b, r) = (a, b, Ready-kept g n s (close n s) f n r)
      recorded f failed (a, b, r) = (a, b, Ready-kept g n s (close n s) f n r)
      recorded f skipped h = h

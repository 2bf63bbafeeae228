-- ===== src/Graph/FindCycle/Finds.antt =====
-- internal/graph/graph.go, `findCycle`: what the search reports.
use buildforge.Prelude.{
  ℕ, zero, suc, ◌+◌, ◌≡◌, ◌≤◌, refl, ℤ, pos, negsuc, is_zero, is_positive, Str, update, Bool, true,
  false, Option, some, List, [], ◌∷◌, ◌++◌, length, ◌==◌, if◌then◌else◌, count, count-append, arith,
  Str-cases, str_eq_refl, str_eq_iff, inl, inr, In, Bool-cases, length-le_of_count, length-snoc,
  count-cons_self, subst, ◌∙◌,
}
use buildforge.Graph.{Graph}
use buildforge.Graph.Order.{IsPath, IsCycle, IsPath-snoc, IsPath-tail}
use buildforge.Graph.FindCycle.{
  white, gray, Dfs, cut_at, scan_deps, visit, visit_all, fresh, find_cycle,
}

cut_at-IsPath :
    (deps : Str → List Str) (d : Str) (stack : List Str)
    → In d stack
    → IsPath deps (stack ++ d ∷ [])
    → (rest : List Str) × (cut_at d stack ≡ some (d ∷ rest)) × IsPath deps (d ∷ rest ++ d ∷ [])
unfolding cut_at
cut_at-IsPath deps d [] i p = absurd (omega arith)
cut_at-IsPath deps d (x ∷ stack) i p = elim (Str-cases x d) [
  | inl e ↦
      (stack, rw (e, str_eq_refl, cut_at) refl, subst (λ z. IsPath deps (z ∷ stack ++ d ∷ [])) e p)
  | inr (ne, e) ↦
      let (rest, found, path) =
        cut_at-IsPath deps d stack (ground arith) (IsPath-tail deps x (stack ++ d ∷ []) p) in
      (rest, rw (e, cut_at) found, path)
]

pub not-zero_of_positive : (x : ℤ) → is_positive x ≡ true → is_zero x ≡ false
not-zero_of_positive (pos zero) h = cc
not-zero_of_positive (pos (suc n)) h = refl
not-zero_of_positive (negsuc n) h = refl

module _ (g : Graph) (remaining : Str → ℤ) where
  abbrev pub Live : Str → Type 0
  Live q = is_zero (remaining q) ≡ false

  -- The gray actions are those on the stack, and none is black.
  record IsWalk (s : Dfs) : Type 0 where
    colored : (q : Str) → s.color q ≡ (if count q s.stack == 0 then white else gray)
    once : (q : Str) → count q s.stack ≤ count q g.names

  abbrev Finds : Option (Bool × Dfs) → Type 0
  Finds r = (s' : Dfs) × (r ≡ some (true, s')) × IsCycle g.deps s'.cycle

  -- What `visit` does on a white action that is left over, at the end of the path on the stack.
  abbrev Visits : (Str → Dfs → Option (Bool × Dfs)) → Dfs → Type 0
  Visits rec s =
      (d : Str) → Live d → count d s.stack ≡ 0 → IsPath g.deps (s.stack ++ d ∷ []) → Finds (rec d s)

  scan-Finds :
      (rec : Str → Dfs → Option (Bool × Dfs)) (n d : Str) (ds : List Str) (s : Dfs)
      → IsWalk s
      → Visits rec s
      → ((x : Str) → In x ds → IsPath g.deps (s.stack ++ x ∷ []))
      → In d ds
      → Live d
      → Finds (scan_deps g remaining rec n ds s)
  unfolding scan_deps
  scan-Finds rec n d [] s w v p i l = absurd (omega arith)
  scan-Finds rec n d (x ∷ ds) s w v p i l = elim (Bool-cases (is_zero (remaining x))) [
    | inl dead ↦
        rw dead (
          scan-Finds rec n d ds s w v (λ y j. p y (omega arith)) (ground (arith, str_eq_iff x d)) l)
    | inr live ↦ elim (Bool-cases (count x s.stack == 0)) [
      | inl new ↦
          let c : s.color x ≡ white = w.colored x ∙ rw new in
          let (s', found, cycle) = v x live (ground arith) (p x here) in
          (s', rw (live, c, found), cycle)
      | inr old ↦
          let c : s.color x ≡ gray = w.colored x ∙ rw old in
          let (rest, cut, path) = cut_at-IsPath g.deps x s.stack (ground arith) (p x here) in
          (
            record s { cycle = x ∷ rest ++ x ∷ [] },
            rw (live, c, cut),
            record { start = x; middle = rest; closed = refl; path = path },
          )
    ]
  ]
    where
      here : In x (x ∷ ds)
      here = omega (arith, count-cons_self x ds)

  push-IsWalk :
      (n : Str) (s : Dfs)
      → IsWalk s
      → count n s.stack ≡ 0
      → In n g.names
      → IsWalk (record s { color = update s.color n gray; stack = s.stack ++ n ∷ [] })
  push-IsWalk n s w new i = record {
    colored = λ q. ground (arith, w.colored q, count-append q s.stack (n ∷ []), str_eq_iff n q);
    once = λ q. ground (arith, w.once q, count-append q s.stack (n ∷ []), str_eq_iff n q);
  }

  module _ (live_named : (q : Str) → Live q → In q g.names)
      (live_next : (q : Str) → Live q → (d : Str) × In d (g.deps q) × Live d) where
    visit-Finds :
        (fuel : ℕ) (n : Str) (s : Dfs)
        → IsWalk s
        → length g.names ≤ fuel + length s.stack
        → Live n
        → count n s.stack ≡ 0
        → IsPath g.deps (s.stack ++ n ∷ [])
        → Finds (visit g remaining fuel n s)
    unfolding visit
    visit-Finds zero n s w room l new p =
        let pushed = push-IsWalk n s w new (live_named n l) in
        absurd (
          omega (
            arith,
            length-le_of_count (s.stack ++ n ∷ []) g.names pushed.once,
            length-snoc s.stack n,
          ))
    visit-Finds (suc fuel) n s w room l new p =
        let s' = record s { color = update s.color n gray; stack = s.stack ++ n ∷ [] } in
        let pushed : IsWalk s' = push-IsWalk n s w new (live_named n l) in
        let (d, i, live) = live_next n l in
        scan-Finds (visit g remaining fuel) n d (g.deps n) s' pushed
          (λ d' l' new' p'.
            visit-Finds fuel d' s' pushed (omega (arith, length-snoc s.stack n)) l' new' p')
          (λ x j. IsPath-snoc g.deps s.stack n x p j) i live

    visit_all_finds :
        (q : Str) (ns : List Str)
        → In q ns
        → is_positive (remaining q) ≡ true
        → (c : List Str) × (visit_all g remaining (length g.names) ns (fresh g remaining) ≡ some c)
          × IsCycle g.deps c
    unfolding visit_all
    visit_all_finds q [] i l = absurd (omega arith)
    visit_all_finds q (n ∷ ns) i l = elim (Bool-cases (is_positive (remaining n))) [
      | inl live ↦
          let (s', found, cycle) =
            visit-Finds (length g.names) n (fresh g remaining)
              (record { colored = λ p. refl; once = λ p. omega arith }) (omega arith)
              (not-zero_of_positive (remaining n) live) refl tt in
          (s'.cycle, rw (live, found), cycle)
      | inr dead ↦ rw dead (visit_all_finds q ns (ground (arith, str_eq_iff n q)) l)
    ]

    -- With something left over, the search ends by itself and returns a cycle.
    pub find_cycle_finds :
        (q : Str)
        → In q g.names
        → is_positive (remaining q) ≡ true
        → (c : List Str) × (find_cycle g remaining ≡ some c) × IsCycle g.deps c
    unfolding find_cycle
    find_cycle_finds q i l = visit_all_finds q g.names i l

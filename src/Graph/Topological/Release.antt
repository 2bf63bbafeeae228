-- ===== src/Graph/Topological/Release.antt =====
-- internal/graph/graph.go, `TopologicalOrder`: the inner loop, which counts dependents down.
use buildforge.Prelude.{
  ℕ, ◌+◌, ◌-◌, ◌≡◌, ◌≤◌, ◌<◌, refl, ℤ, pos, decrement, is_zero, Str, str_eq, update, List, [], ◌∷◌,
  ◌++◌, length, ◌==◌, ◌&&◌, if◌then◌else◌, count, count-append, arith, Str-cases, str_eq_refl,
  str_eq_iff, ltb, inl, inr, In, Bool-cases, count-sort, ap, count-cons_self, ◌∙◌,
}
use buildforge.Graph.Topological.{release, requeue}

-- How many of `ds`, repetitions counted, are not in `order`.
abbrev pub missing : List Str → List Str → ℕ
missing order [] = 0
missing order (d ∷ ds) = (if count d order == 0 then 1 else 0) + missing order ds

pub missing-nil : (ds : List Str) → missing [] ds ≡ length ds
missing-nil [] = refl
missing-nil (d ∷ ds) = omega (arith, missing-nil ds)

pub missing-snoc :
    (order : List Str) (n : Str) (ds : List Str)
    → count n order ≡ 0
    → missing order ds ≡ missing (order ++ n ∷ []) ds + count n ds
missing-snoc order n [] h = refl
missing-snoc order n (d ∷ ds) h = ground (
  arith,
  missing-snoc order n ds h,
  count-append d order (n ∷ []),
  str_eq_iff n d,
  str_eq_iff d n,
)

pub In-missing :
    (order : List Str) (d : Str) (ds : List Str) → missing order ds ≡ 0 → In d ds → In d order
In-missing order d [] h i = absurd (omega arith)
In-missing order d (x ∷ ds) h i = ground (arith, In-missing order d ds, str_eq_iff x d)

pub missing-cases :
    (order : List Str) (ds : List Str)
    → 0 < missing order ds
    → (d : Str) × In d ds × (count d order ≡ 0)
missing-cases order [] h = absurd (omega arith)
missing-cases order (x ∷ ds) h = elim (Bool-cases (count x order == 0)) [
  | inl out ↦ (x, ground (arith, str_eq_refl x), ground arith)
  | inr there ↦ let (d, i, e) = missing-cases order ds (ground arith) in (d, omega arith, e)
]

-- The counters after `d` was counted down.
abbrev lowered : (Str → ℕ) → Str → Str → ℕ
lowered k d q = if str_eq d q then k q - 1 else k q

module _ (remaining : Str → ℤ) (k : Str → ℕ) (h : (q : Str) → remaining q ≡ pos (k q)) where
  decrement_pos : (d : Str) → 0 < k d → decrement (remaining d) ≡ pos (k d - 1)
  decrement_pos d p = ground (arith, h d)

  update-lowered :
      (d : Str)
      → 0 < k d
      → (q : Str) → update remaining d (decrement (remaining d)) q ≡ pos (lowered k d q)
  update-lowered d p q = elim (Str-cases d q) [
    | inl e ↦ rw (← e, str_eq_refl) (decrement_pos d p)
    | inr (ne, e) ↦ rw e (h q)
  ]

counted :
    (d : Str) (ds : List Str) (k : Str → ℕ)
    → ((q : Str) → count q (d ∷ ds) ≤ k q)
    → (q : Str) → count q ds ≤ lowered k d q
counted d ds k c q = ground (arith, c q)

first_counted :
    (d : Str) (ds : List Str) (k : Str → ℕ) → ((q : Str) → count q (d ∷ ds) ≤ k q) → 0 < k d
first_counted d ds k c = omega (arith, c d, count-cons_self d ds)

-- The counters hold `k`; `ds` names each counter at most so often as its value.
pub release-remaining :
    (ds : List Str) (remaining : Str → ℤ) (unblocked : List Str) (k : Str → ℕ)
    → ((q : Str) → remaining q ≡ pos (k q))
    → ((q : Str) → count q ds ≤ k q)
    → (q : Str) → (release ds remaining unblocked).0 q ≡ pos (k q - count q ds)
unfolding release
release-remaining [] remaining unblocked k h c q = ground (arith, h q)
release-remaining (d ∷ ds) remaining unblocked k h c q =
    release-remaining ds (update remaining d (decrement (remaining d)))
      (if is_zero (update remaining d (decrement (remaining d)) d)
        then unblocked ++ d ∷ []
        else unblocked)
      (lowered k d) (update-lowered remaining k h d (first_counted d ds k c)) (counted d ds k c) q
    ∙ ap pos (ground arith)

-- A dependent is released once, when its last counted dependency is.
pub release-unblocked :
    (ds : List Str) (remaining : Str → ℤ) (unblocked : List Str) (k : Str → ℕ)
    → ((q : Str) → remaining q ≡ pos (k q))
    → ((q : Str) → count q ds ≤ k q)
    → (q : Str)
    → count q (release ds remaining unblocked).1
      ≡ count q unblocked + (if ltb 0 (count q ds) && (k q == count q ds) then 1 else 0)
unfolding release
release-unblocked [] remaining unblocked k h c q = ground arith
release-unblocked (d ∷ ds) remaining unblocked k h c q =
    release-unblocked ds (update remaining d (decrement (remaining d)))
      (if is_zero (update remaining d (decrement (remaining d)) d)
        then unblocked ++ d ∷ []
        else unblocked)
      (lowered k d) (update-lowered remaining k h d (first_counted d ds k c)) (counted d ds k c) q
    ∙ rw (update-lowered remaining k h d (first_counted d ds k c) d)
        (ground (arith, count-append q unblocked (d ∷ []), str_eq_refl d, str_eq_iff d q, c q, c d))

pub count-requeue :
    (q : Str) (ready us : List Str) → count q (requeue ready us) ≡ count q ready + count q us
count-requeue q ready [] = omega arith
count-requeue q ready (u ∷ us) =
    omega (arith, count-sort q (ready ++ u ∷ us), count-append q ready (u ∷ us))

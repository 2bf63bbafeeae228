-- ===== src/Runner/Poison.antt =====
-- internal/runner/build.go, `markDependents`: what waits on an action, directly or not. The
-- recursion takes fuel; the number of actions is enough.
use buildforge.Prelude.{
  ℕ, zero, suc, ◌+◌, ◌≡◌, ◌≤◌, ◌<◌, sym, Str, str_eq_iff, Str-cases, update, Bool, true, false,
  List, [], ◌∷◌, length, if◌then◌else◌, In, arith, inl, inr, ◌⊎◌, ◌↔◌, Bool-cases, count-cons_self,
  subst,
}
use buildforge.Graph.{Graph, IsWellFormed}

abbrev pub Poison : Type 0
Poison = Str → Bool

-- The loop over the dependents of an action; `mark` is the recursive call.
unfoldable pub mark_all : (mark : Str → Poison → Poison) → List Str → Poison → Poison
mark_all mark [] p = p
mark_all mark (d ∷ ds) p =
    mark_all mark ds (elim (p d) [ true ↦ p | false ↦ mark d (update p d true) ])

unfoldable pub mark_from : Graph → ℕ → Str → Poison → Poison
unfolding mark_all
mark_from g zero name p = p
mark_from g (suc fuel) name p = mark_all (mark_from g fuel) (g.rdeps name) p

-- `markDependents`
unfoldable pub mark_dependents : Graph → Str → Poison → Poison
unfolding mark_from
mark_dependents g name p = mark_from g (length g.names) name p

-- `q` waits on `n`, directly or through others.
pub data IsDownstream (g : Graph) : Str → Str → Type 0 where
  direct : {n q : Str} → In q (g.rdeps n) → IsDownstream g n q
  through : {n d q : Str} → In d (g.rdeps n) → IsDownstream g d q → IsDownstream g n q

unmarked : Poison → List Str → ℕ
unmarked p [] = 0
unmarked p (n ∷ ns) = (if p n then 0 else 1) + unmarked p ns

abbrev Grows : Poison → Poison → Type 0
Grows p p' = (q : Str) → p q ≡ true → p' q ≡ true

unmarked-le : (p p' : Poison) (ns : List Str) → Grows p p' → unmarked p' ns ≤ unmarked p ns
unfolding unmarked
unmarked-le p p' [] h = omega arith
unmarked-le p p' (n ∷ ns) h = ground (arith, unmarked-le p p' ns h, h n)

update-Grows : (p : Poison) (d : Str) → Grows p (update p d true)
update-Grows p d q h = ground arith

unmarked-update :
    (p : Poison) (d : Str) (ns : List Str)
    → In d ns
    → p d ≡ false
    → unmarked (update p d true) ns < unmarked p ns
unfolding unmarked
unmarked-update p d [] i f = absurd (omega arith)
unmarked-update p d (n ∷ ns) i f = elim (Str-cases n d) [
  | inl e ↦
      ground (
        arith,
        unmarked-le p (update p d true) ns (update-Grows p d),
        str_eq_iff d n,
        str_eq_iff n d,
      )
  | inr (ne, e) ↦ ground (arith, unmarked-update p d ns (ground arith) f, str_eq_iff d n)
]

unmarked-zero : (p : Poison) (ns : List Str) (d : Str) → unmarked p ns ≤ 0 → In d ns → p d ≡ true
unfolding unmarked
unmarked-zero p [] d h i = absurd (omega arith)
unmarked-zero p (n ∷ ns) d h i = ground (arith, unmarked-zero p ns d, str_eq_iff n d)

-- What marking does for the dependents `ds` of `name`: all of them are marked, nothing but actions
-- downstream of `name` is, and what waits on a newly marked action is marked as well.
pub record Marked (g : Graph) (name : Str) (ds : List Str) (p p' : Poison) : Type 0 where
  pub grows : (q : Str) → p q ≡ true → p' q ≡ true
  pub sound : (q : Str) → p' q ≡ true → (p q ≡ true) ⊎ IsDownstream g name q
  pub all_marked : (d : Str) → In d ds → p' d ≡ true
  pub closed : (x : Str) → p' x ≡ true → p x ≡ false → (d : Str) → In d (g.rdeps x) → p' d ≡ true

module _ (g : Graph) (w : IsWellFormed g) where
  dependents_named : (n d : Str) → In d (g.rdeps n) → In d g.names
  dependents_named n d i = w.sources d n (omega (arith, w.mirror d n))

  -- One dependent that is not marked yet, and then the others.
  Marked-cons :
      (name d : Str) (ds : List Str) (p p' p'' : Poison)
      → In d (g.rdeps name)
      → Marked g d (g.rdeps d) (update p d true) p'
      → Marked g name ds p' p''
      → Marked g name (d ∷ ds) p p''
  Marked-cons name d ds p p' p'' i a b = record {
    grows = λ q h. b.grows q (a.grows q (update-Grows p d q h));
    sound = λ q h. elim (b.sound q h) [
      | inl h' ↦ elim (Str-cases d q) [
        | inl e ↦ inr (subst (IsDownstream g name) e (direct i))
        | inr (_, f) ↦ elim (a.sound q h') [
          | inl h'' ↦ inl (rw f at h'')
          | inr down ↦ inr (through i down)
        ]
      ]
      | inr down ↦ inr down
    ];
    all_marked = λ x j. elim (Str-cases d x) [
      | inl e ↦ b.grows x (a.grows x (ground (arith, str_eq_iff d x)))
      | inr (_, f) ↦ b.all_marked x (ground arith)
    ];
    closed = λ x h new y j. elim (Bool-cases (p' x)) [
      | inr later ↦ b.closed x h later y j
      | inl early ↦ b.grows y (elim (Str-cases d x) [
        | inl e ↦ a.all_marked y (subst (λ z. In y (g.rdeps z)) (sym e) j)
        | inr (_, f) ↦ a.closed x early (rw f new) y j
      ])
    ];
  }

  Marked-skip :
      (name d : Str) (ds : List Str) (p p' : Poison)
      → p d ≡ true
      → Marked g name ds p p'
      → Marked g name (d ∷ ds) p p'
  Marked-skip name d ds p p' h b = record {
    grows = b.grows;
    sound = b.sound;
    all_marked = λ x j. elim (Str-cases d x) [
      | inl e ↦ b.grows x (subst (λ z. p z ≡ true) e h)
      | inr (_, f) ↦ b.all_marked x (ground arith)
    ];
    closed = b.closed;
  }

  mark_all-Marked :
      (mark : Str → Poison → Poison) (fuel : ℕ)
      → ((d : Str) (p : Poison)
          → In d g.names
          → unmarked p g.names ≤ fuel
          → Marked g d (g.rdeps d) p (mark d p))
      → (name : Str) (ds : List Str) (p : Poison) → ((d : Str) → In d ds → In d (g.rdeps name))
      → unmarked p g.names ≤ suc fuel
      → Marked g name ds p (mark_all mark ds p)
  unfolding mark_all
  mark_all-Marked mark fuel h name [] p sub u = record {
    grows = λ q t. t;
    sound = λ q t. inl t;
    all_marked = λ d i. absurd (omega arith);
    closed = λ x t f. cc;
  }
  mark_all-Marked mark fuel h name (d ∷ ds) p sub u =
      let i : In d (g.rdeps name) = sub d (omega (arith, count-cons_self d ds)) in
      elim (Bool-cases (p d)) [
        | inl old ↦ rw old (
            Marked-skip name d ds p _ old
              (mark_all-Marked mark fuel h name ds p (λ x j. sub x (omega arith)) u))
        | inr new ↦
            let named = dependents_named name d i in
            let fewer = unmarked-update p d g.names named new in
            let first = h d (update p d true) named (omega arith) in
            let fewer' =
              unmarked-le (update p d true) (mark d (update p d true)) g.names first.grows in
            rw new (
              Marked-cons name d ds p (mark d (update p d true)) _ i first (
                mark_all-Marked mark fuel h name ds (mark d (update p d true))
                  (λ x j. sub x (omega arith)) (omega arith)))
      ]

  mark_from-Marked :
      (fuel : ℕ) (name : Str) (p : Poison)
      → unmarked p g.names ≤ fuel
      → Marked g name (g.rdeps name) p (mark_from g fuel name p)
  unfolding mark_from
  mark_from-Marked zero name p u = record {
    grows = λ q t. t;
    sound = λ q t. inl t;
    all_marked = λ d i. unmarked-zero p g.names d u (dependents_named name d i);
    closed = λ x t f. cc;
  }
  mark_from-Marked (suc fuel) name p u =
      mark_all-Marked (mark_from g fuel) fuel (λ d q _ v. mark_from-Marked fuel d q v) name
        (g.rdeps name) p (λ d i. i) u

unmarked-le-length : (p : Poison) (ns : List Str) → unmarked p ns ≤ length ns
unfolding unmarked
unmarked-le-length p [] = omega arith
unmarked-le-length p (n ∷ ns) = ground (arith, unmarked-le-length p ns)

-- On a well-formed graph `markDependents` marks every dependent of `name`, and no action that does
-- not wait on `name`; what was marked stays marked, and the dependents of a newly marked action are
-- marked with it.
pub mark_dependents-Marked :
    (g : Graph) (name : Str) (p : Poison)
    → IsWellFormed g
    → Marked g name (g.rdeps name) p (mark_dependents g name p)
unfolding mark_dependents
mark_dependents-Marked g name p w =
    mark_from-Marked g w (length g.names) name p (unmarked-le-length p g.names)

-- The dependents of a marked action are marked.
abbrev pub IsClosed : Graph → Poison → Type 0
IsClosed g p = (x d : Str) → p x ≡ true → In d (g.rdeps x) → p d ≡ true

Marked-IsClosed :
    (g : Graph) (name : Str) (p p' : Poison)
    → Marked g name (g.rdeps name) p p'
    → IsClosed g p
    → IsClosed g p'
Marked-IsClosed g name p p' k c x d h i = elim (Bool-cases (p x)) [
  | inl old ↦ k.grows d (c x d old i)
  | inr new ↦ k.closed x h new d i
]

downstream_marked :
    (g : Graph) (p : Poison) (n q : Str)
    → IsClosed g p
    → IsDownstream g n q
    → ((d : Str) → In d (g.rdeps n) → p d ≡ true)
    → p q ≡ true
downstream_marked g p n q c (direct i) h = h q i
downstream_marked g p n q c (through {d = d} i rest) h =
    downstream_marked g p d q c rest (λ x j. c d x (h d i) j)

-- On a well-formed graph, and when the dependents of every marked action are marked already, as in
-- the loop of `Build`, `markDependents` of `name` leaves marked exactly what was marked and what waits
-- on `name`, directly or through others; and the dependents of every marked action are still marked.
pub mark_dependents-marked_iff :
    (g : Graph) (name : Str) (p : Poison)
    → IsWellFormed g
    → IsClosed g p
    → ((q : Str) → (mark_dependents g name p q ≡ true) ↔ ((p q ≡ true) ⊎ IsDownstream g name q))
      × IsClosed g (mark_dependents g name p)
mark_dependents-marked_iff g name p w c =
    let k = mark_dependents-Marked g name p w in
    let c' = Marked-IsClosed g name p (mark_dependents g name p) k c in
    (
      λ q. (
        k.sound q,
        λ h. elim h [
          | inl old ↦ k.grows q old
          | inr down ↦ downstream_marked g (mark_dependents g name p) name q c' down k.all_marked
        ],
      ),
      c',
    )

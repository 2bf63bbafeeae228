-- ===== src/Manifest/Contained.antt =====
-- internal/manifest/manifest.go, `checkPaths`: where a path that passes can lead.
use buildforge.Prelude.{
  ℕ, ◌≡◌, ◌≢◌, refl, sym, ap, ◌∙◌, subst, Str, str_eq, str_eq_iff, Str-cases, false, List, [], ◌∷◌,
  ◌++◌, ◌==◌, none, some, Bool-cases, List-cases, inl, inr, ◌⊎◌, All, All-imp, All-reverse, arith,
}
use mathlib.Core.List.{reverse, reverse-append}
use buildforge.Manifest.{
  check_path, path_clean, has_prefix, elements, clean_element, clean_elements, join_elements, dot,
  dot_dot, slash, cons_head, empty_path, absolute, not_canonical, escapes,
}

-- A text without a slash.
abbrev NoSlash : Str → Type 0
NoSlash s = All (λ c. c ≢ b'/') s

-- An element that a path can keep.
abbrev Kept : Str → Type 0
Kept e = NoSlash e × (e ≢ [])

-- An element that leads one level down.
abbrev pub Descends : Str → Type 0
Descends e = (e ≢ []) × (e ≢ dot) × (e ≢ dot_dot)

cons_head-NoSlash :
    (c : ℕ) (ws : List Str) → c ≢ b'/' → All NoSlash ws → All NoSlash (cons_head c ws)
cons_head-NoSlash c [] h a = ((h, tt), tt)
cons_head-NoSlash c (w ∷ ws) h a = ((h, a.0), a.1)

elements-NoSlash : (p : Str) → All NoSlash (elements p)
unfolding elements
elements-NoSlash [] = (tt, tt)
elements-NoSlash (c ∷ p) = elim (Bool-cases (c == b'/')) [
  | inl e ↦ rw (e, elements) (tt, elements-NoSlash p)
  | inr e ↦ rw (e, elements) (cons_head-NoSlash c (elements p) (ground arith) (elements-NoSlash p))
]

elements-whole : (w : Str) → NoSlash w → elements w ≡ w ∷ []
unfolding elements
elements-whole [] h = refl
elements-whole (c ∷ w) h =
    let e : (c == b'/') ≡ false = ground (arith, h.0) in
    rw (e, elements) (ap (cons_head c) (elements-whole w h.1))

elements-slash : (w p : Str) → NoSlash w → elements (w ++ b'/' ∷ p) ≡ w ∷ elements p
unfolding elements
elements-slash [] p h = refl
elements-slash (c ∷ w) p h =
    let e : (c == b'/') ≡ false = ground (arith, h.0) in
    rw (e, elements) (ap (cons_head c) (elements-slash w p h.1))

elements-join :
    (e : Str) (es : List Str) → All NoSlash (e ∷ es) → elements (join_elements (e ∷ es)) ≡ e ∷ es
unfolding join_elements
elements-join e [] h = elements-whole e h.0
elements-join e (e' ∷ es) h =
    elements-slash e (join_elements (e' ∷ es)) h.0 ∙ ap (λ z. e ∷ z) (elements-join e' es h.1)

-- The elements kept so far, the last one first: all of them lead down, or the first one leads up.
abbrev Tame : List Str → Type 0
Tame kept = All Descends kept ⊎ ((front : List Str) × (kept ≡ front ++ dot_dot ∷ []))

-- What one element makes of the elements kept so far, in a path that is not absolute.
data Cleaned : List Str → Str → List Str → Type 0 where
  same : (kept : List Str) (e : Str) → Cleaned kept e kept
  up : (e : Str) → Cleaned [] e (dot_dot ∷ [])
  up_more : (below : List Str) (e : Str) → Cleaned (dot_dot ∷ below) e (dot_dot ∷ dot_dot ∷ below)
  back : (top : Str) (below : List Str) (e : Str) → top ≢ dot_dot → Cleaned (top ∷ below) e below
  down : (kept : List Str) (e : Str) → Descends e → Cleaned kept e (e ∷ kept)

dot_dot-Cleaned : (kept : List Str) → Cleaned kept dot_dot (clean_element false kept dot_dot)
unfolding clean_element str_eq
dot_dot-Cleaned [] = up dot_dot
dot_dot-Cleaned (top ∷ below) = elim (Str-cases top dot_dot) [
  | inl e ↦
      subst (λ z. Cleaned (z ∷ below) dot_dot (clean_element false (z ∷ below) dot_dot)) (sym e)
        (up_more below dot_dot)
  | inr (ne, f) ↦ rw (f, clean_element) (back top below dot_dot ne)
]

clean_element-Cleaned : (kept : List Str) (e : Str) → Cleaned kept e (clean_element false kept e)
unfolding clean_element
clean_element-Cleaned kept e = elim (Str-cases e []) [
  | inl a ↦
      subst (λ z. Cleaned kept z (clean_element false kept z)) (sym a)
        (unfold str_eq in same kept [])
  | inr (na, fa) ↦ elim (Str-cases e dot) [
    | inl b ↦
        subst (λ z. Cleaned kept z (clean_element false kept z)) (sym b)
          (unfold str_eq in same kept dot)
    | inr (nb, fb) ↦ elim (Str-cases e dot_dot) [
      | inl c ↦
          subst (λ z. Cleaned kept z (clean_element false kept z)) (sym c) (dot_dot-Cleaned kept)
      | inr (nc, fc) ↦ rw (fa, fb, fc, clean_element) (down kept e (na, nb, nc))
    ]
  ]
]

dot_dot-Kept : Kept dot_dot
dot_dot-Kept = ((λ e. omega arith, (λ e. omega arith, tt)), λ e. cc)

Cleaned-Kept :
    (kept : List Str) (e : Str) (r : List Str)
    → Cleaned kept e r
    → NoSlash e
    → All Kept kept
    → All Kept r
Cleaned-Kept _ _ _ (same kept e) n a = a
Cleaned-Kept _ _ _ (up e) n a = (dot_dot-Kept, tt)
Cleaned-Kept _ _ _ (up_more below e) n a = (dot_dot-Kept, a)
Cleaned-Kept _ _ _ (back top below e h) n a = a.1
Cleaned-Kept _ _ _ (down kept e h) n a = ((n, h.0), a)

Cleaned-Tame : (kept : List Str) (e : Str) (r : List Str) → Cleaned kept e r → Tame kept → Tame r
Cleaned-Tame _ _ _ (same kept e) t = t
Cleaned-Tame _ _ _ (up e) t = inr ([], refl)
Cleaned-Tame _ _ _ (up_more below e) (inl a) = absurd (a.0.2 refl)
Cleaned-Tame _ _ _ (up_more below e) (inr (front, eq)) =
    inr (dot_dot ∷ front, ap (λ z. dot_dot ∷ z) eq)
Cleaned-Tame _ _ _ (back top below e h) (inl a) = inl a.1
Cleaned-Tame _ _ _ (back top below e h) (inr ([], eq)) = absurd (h (cc eq))
Cleaned-Tame _ _ _ (back top below e h) (inr (x ∷ front, eq)) = inr (front, cc eq)
Cleaned-Tame _ _ _ (down kept e h) (inl a) = inl (h, a)
Cleaned-Tame _ _ _ (down kept e h) (inr (front, eq)) = inr (e ∷ front, ap (λ z. e ∷ z) eq)

clean_elements-Tame :
    (kept es : List Str)
    → All NoSlash es
    → All Kept kept
    → Tame kept
    → All Kept (clean_elements false kept es) × Tame (clean_elements false kept es)
unfolding clean_elements
clean_elements-Tame kept [] n a t = (a, t)
clean_elements-Tame kept (e ∷ es) n a t =
    let c = clean_element-Cleaned kept e in
    clean_elements-Tame (clean_element false kept e) es n.1 (Cleaned-Kept kept e _ c n.0 a)
      (Cleaned-Tame kept e _ c t)

-- What `checkPaths` found of a path that it passes.
pub record Passed (p : Str) : Type 0 where
  pub relative : has_prefix p slash ≡ false
  pub canonical : p ≡ path_clean p
  pub inside : p ≢ dot_dot
  pub beside : has_prefix p (b'.' ∷ b'.' ∷ b'/' ∷ []) ≡ false

pub check_path-Passed : (p : Str) → check_path p ≡ none → Passed p
unfolding check_path
check_path-Passed p h = elim (Bool-cases (str_eq p [])) [
  | inl e ↦ let eq : check_path p ≡ some empty_path = rw (e, check_path) refl in absurd (cc (h, eq))
  | inr e ↦ elim (Bool-cases (has_prefix p slash)) [
    | inl a ↦
        let eq : check_path p ≡ some absolute = rw (e, a, check_path) refl in absurd (cc (h, eq))
    | inr a ↦ elim (Str-cases p (path_clean p)) [
      | inr (_, c) ↦
          let eq : check_path p ≡ some not_canonical = rw (e, a, c, check_path) refl in
          absurd (cc (h, eq))
      | inl clean ↦
          let c = (str_eq_iff p (path_clean p)).1 clean in
          elim (Bool-cases (str_eq p dot_dot)) [
            | inl d ↦
                let eq : check_path p ≡ some escapes = rw (e, a, c, d, check_path) refl in
                absurd (cc (h, eq))
            | inr d ↦ elim (Bool-cases (has_prefix p (b'.' ∷ b'.' ∷ b'/' ∷ []))) [
              | inl f ↦
                  let eq : check_path p ≡ some escapes = rw (e, a, c, d, f, check_path) refl in
                  absurd (cc (h, eq))
              | inr f ↦ record {
                relative = a;
                canonical = clean;
                inside = λ x. cc (d, (str_eq_iff p dot_dot).1 x);
                beside = f;
              }
            ]
          ]
    ]
  ]
]

abbrev kept_of : Str → List Str
kept_of p = clean_elements false [] (elements p)

-- The result of `path.Clean` on a path that is not absolute.
path_clean-relative :
    (p : Str)
    → has_prefix p slash ≡ false
    → (path_clean p ≡ dot)
      ⊎ ((path_clean p ≡ join_elements (reverse (kept_of p)))
          × (join_elements (reverse (kept_of p)) ≢ []))
unfolding path_clean
path_clean-relative p r = elim (Str-cases (join_elements (reverse (kept_of p))) []) [
  | inl e ↦ inl (rw (r, (str_eq_iff (join_elements (reverse (kept_of p))) []).1 e, path_clean) refl)
  | inr (ne, f) ↦ inr (rw (r, f, path_clean) refl, ne)
]

-- A path that begins by leading up does not pass.
leads_up : (p : Str) (es : List Str) → Passed p → p ≡ join_elements (dot_dot ∷ es) → ⊥
unfolding join_elements has_prefix
leads_up p [] v e = v.inside e
leads_up p (y ∷ es) v e = cc (v.beside, ap (λ z. has_prefix z (b'.' ∷ b'.' ∷ b'/' ∷ [])) e)

-- A path that `checkPaths` passes is `.`, or each of its elements leads one level down: none is empty,
-- `.` or `..`.
pub check_path-Descends : (p : Str) → check_path p ≡ none → (p ≡ dot) ⊎ All Descends (elements p)
unfolding join_elements
check_path-Descends p h =
    let v = check_path-Passed p h in
    let (whole, tame) = clean_elements-Tame [] (elements p) (elements-NoSlash p) tt (inl tt) in
    elim (path_clean-relative p v.relative) [
      | inl e ↦ inl (v.canonical ∙ e)
      | inr (e, ne) ↦ elim tame [
        | inr (front, eq) ↦
            let back : reverse (kept_of p) ≡ dot_dot ∷ reverse front =
              ap reverse eq ∙ reverse-append front (dot_dot ∷ []) in
            absurd (leads_up p (reverse front) v (v.canonical ∙ e ∙ ap join_elements back))
        | inl all ↦ elim (List-cases (reverse (kept_of p))) [
          | inl nil ↦ absurd (ne (ap join_elements nil))
          | inr (x, r, some_kept) ↦
              let clean : All NoSlash (x ∷ r) =
                subst (All NoSlash) some_kept
                  (All-reverse NoSlash (kept_of p) (All-imp (kept_of p) (λ w k. k.0) whole)) in
              let same : elements p ≡ x ∷ r =
                ap elements (v.canonical ∙ e ∙ ap join_elements some_kept)
                ∙ elements-join x r clean in
              inr (
                subst (All Descends) (sym same)
                  (subst (All Descends) some_kept (All-reverse Descends (kept_of p) all)))
        ]
      ]
    ]

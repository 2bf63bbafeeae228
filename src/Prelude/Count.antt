-- ===== src/Prelude/Count.antt =====
-- How often a string occurs in a list. Membership is `0 < count q l`, being distinct is
-- `count q l ≤ 1` at every `q`, and two lists are permutations of one another when all counts agree.
use Prim.Native.Nat.{ℕ, suc, ◌+◌, ◌≤◌, ◌<◌}
use mathlib.Core.Path.{◌≡◌, refl}
use mathlib.Core.Logic.{inl, inr}
use mathlib.Core.List.{List, [], ◌∷◌, ◌++◌}
use native.Mathlib.Omega.{arith}
use buildforge.Prelude.Tests.{if◌then◌else◌}
use buildforge.Prelude.Lists.{length}
use buildforge.Prelude.Strings.{Str, str_eq, str_eq_refl, Str-cases}

abbrev pub count : Str → List Str → ℕ
count q [] = 0
count q (x ∷ xs) = (if str_eq x q then 1 else 0) + count q xs

-- `q` occurs in `l`.
abbrev pub In : Str → List Str → Type 0
In q l = 0 < count q l

-- No string occurs twice.
abbrev pub IsDistinct : List Str → Type 0
IsDistinct l = (q : Str) → count q l ≤ 1

-- The same strings, each as often: one list is a reordering of the other.
abbrev pub SameItems : List Str → List Str → Type 0
SameItems xs ys = (q : Str) → count q xs ≡ count q ys

pub count-append : (q : Str) (xs ys : List Str) → count q (xs ++ ys) ≡ count q xs + count q ys
count-append q [] ys = omega arith
count-append q (x ∷ xs) ys = omega (arith, count-append q xs ys)

pub count-cons_self : (q : Str) (xs : List Str) → count q (q ∷ xs) ≡ suc (count q xs)
count-cons_self q xs = ground (arith, str_eq_refl q)

pub count-snoc_self : (q : Str) (xs : List Str) → count q (xs ++ q ∷ []) ≡ suc (count q xs)
count-snoc_self q xs = ground (arith, count-append q xs (q ∷ []), str_eq_refl q)

-- A list of which every string occurs at least as often in another is not longer.
without : Str → List Str → List Str
without x [] = []
without x (y ∷ ys) = if str_eq y x then ys else y ∷ without x ys

length-without : (x : Str) (ys : List Str) → In x ys → length ys ≡ suc (length (without x ys))
unfolding without
length-without x [] h = absurd (omega arith)
length-without x (y ∷ ys) h = ground (arith, length-without x ys)

count-without :
    (q x : Str) (ys : List Str)
    → In x ys
    → count q ys ≡ (if str_eq x q then 1 else 0) + count q (without x ys)
unfolding without
count-without q x [] h = absurd (omega arith)
count-without q x (y ∷ ys) h = elim (Str-cases y x) [
  | inl e ↦ rw (e, str_eq_refl, without) refl
  | inr (ne, e) ↦ rw (e, without) (omega (arith, count-without q x ys (ground arith)))
]

pub length-le_of_count :
    (xs ys : List Str) → ((q : Str) → count q xs ≤ count q ys) → length xs ≤ length ys
length-le_of_count [] ys h = omega arith
length-le_of_count (x ∷ xs) ys h =
    let here : In x ys = omega (arith, h x, count-cons_self x xs) in
    let rest : length xs ≤ length (without x ys) =
      length-le_of_count xs (without x ys) (λ q. omega (arith, h q, count-without q x ys here)) in
    omega (arith, length-without x ys here)

-- With equal lengths the counts agree.
pub SameItems-length :
    (xs ys : List Str)
    → ((q : Str) → count q xs ≤ count q ys)
    → length ys ≤ length xs
    → SameItems xs ys
SameItems-length [] [] h l q = refl
SameItems-length [] (y ∷ ys) h l q = absurd (omega arith)
SameItems-length (x ∷ xs) ys h l q =
    let here : In x ys = omega (arith, h x, count-cons_self x xs) in
    let rest : SameItems xs (without x ys) =
      SameItems-length xs (without x ys) (λ p. omega (arith, h p, count-without p x ys here))
        (omega (arith, length-without x ys here)) in
    omega (arith, rest q, count-without q x ys here)

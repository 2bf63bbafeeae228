-- ===== src/Prelude/Sort.antt =====
-- `sort.Strings`: the strings in ascending order. On a total order the result does not depend on
-- the algorithm.
use mathlib.Core.Path.{◌≡◌, refl}
use mathlib.Core.List.{List, [], ◌∷◌}
use native.Mathlib.Omega.{arith}
use buildforge.Prelude.Tests.{if◌then◌else◌}
use buildforge.Prelude.Strings.{Str, str_lt}
use buildforge.Prelude.Count.{count}

insert : Str → List Str → List Str
insert x [] = x ∷ []
insert x (y ∷ ys) = if str_lt y x then y ∷ insert x ys else x ∷ y ∷ ys

unfoldable pub sort_strings : List Str → List Str
unfolding insert
sort_strings [] = []
sort_strings (x ∷ xs) = insert x (sort_strings xs)

count-insert : (q x : Str) (ys : List Str) → count q (insert x ys) ≡ count q (x ∷ ys)
unfolding insert
count-insert q x [] = refl
count-insert q x (y ∷ ys) = ground (arith, count-insert q x ys)

pub count-sort : (q : Str) (xs : List Str) → count q (sort_strings xs) ≡ count q xs
unfolding sort_strings
count-sort q [] = refl
count-sort q (x ∷ xs) = ground (arith, count-insert q x (sort_strings xs), count-sort q xs)

-- ===== src/Prelude/Decimals.antt =====
-- Numbers in decimal, as `fmt` prints and `strconv` reads them.
use Prim.Native.Nat.{ℕ, zero, suc, ◌+◌, ◌-◌, ◌*◌, ◌/◌, ◌%◌, ◌≤◌, ◌<◌}
use mathlib.Core.Path.{◌≡◌, refl, ◌∙◌}
use mathlib.Core.Logic.{inl, inr}
use mathlib.Core.List.{[], ◌∷◌, ◌++◌}
use native.Mathlib.Omega.{arith}
use buildforge.Prelude.Tests.{ltb, if◌then◌else◌, Bool-cases}
use buildforge.Prelude.Strings.{Str}
use buildforge.Prelude.Preds.{All, All-snoc}

-- `%d`, on fuel: a number has at most as many digits as its value, and one.
unfoldable pub decimal_from : ℕ → ℕ → Str
decimal_from zero n = []
decimal_from (suc fuel) n =
    let front = decimal_from fuel (n / 10) in (if ltb n 10 then [] else front) ++ (48 + n % 10) ∷ []

abbrev pub decimal : ℕ → Str
decimal n = decimal_from (suc n) n

-- The number that digits stand for.
unfoldable pub value : ℕ → Str → ℕ
value n [] = n
value n (c ∷ s) = value (n * 10 + (c - 48)) s

value-snoc : (n : ℕ) (s : Str) (c : ℕ) → value n (s ++ c ∷ []) ≡ value n s * 10 + (c - 48)
unfolding value
value-snoc n [] c = refl
value-snoc n (d ∷ s) c = value-snoc (n * 10 + (d - 48)) s c

pub value-decimal : (fuel n : ℕ) → n < fuel → value 0 (decimal_from fuel n) ≡ n
unfolding decimal_from value
value-decimal zero n l = absurd (omega arith)
value-decimal (suc fuel) n l = elim (Bool-cases (ltb n 10)) [
  | inl small ↦ rw (small, decimal_from) (ground arith)
  | inr big ↦
      rw (big, decimal_from)
        (value-snoc 0 (decimal_from fuel (n / 10)) (48 + n % 10)
          ∙ omega (arith, value-decimal fuel (n / 10) (ground arith)))
]

-- A decimal digit.
abbrev pub IsDigit : ℕ → Type 0
IsDigit c = (48 ≤ c) × (c ≤ 57)

pub decimal-IsDigit : (fuel n : ℕ) → All IsDigit (decimal_from fuel n)
unfolding decimal_from
decimal-IsDigit zero n = tt
decimal-IsDigit (suc fuel) n = elim (Bool-cases (ltb n 10)) [
  | inl small ↦ rw (small, decimal_from) ((omega arith, omega arith), tt)
  | inr big ↦
      rw (big, decimal_from)
        (All-snoc IsDigit (decimal_from fuel (n / 10)) (48 + n % 10) (decimal-IsDigit fuel (n / 10))
          (omega arith, omega arith))
]

-- ===== src/Cli/Sizes/Reads.antt =====
-- cmd/buildforge/main.go, `parseSize`: the sizes that are written with digits and a suffix.
use buildforge.Prelude.{
  ℕ, suc, ◌+◌, ◌-◌, ◌*◌, ◌/◌, ◌%◌, ◌<◌, ◌≤◌, ◌≡◌, ◌≢◌, refl, ap, ◌∙◌, Str, str_eq, true, false, ltb,
  ◌==◌, List, [], ◌∷◌, ◌++◌, length, length-append, take, map, if◌then◌else◌, some, ok, pos, negsuc,
  All, All-imp, All-reverse, arith, decimal_from, decimal, value, value-decimal, IsDigit,
  decimal-IsDigit,
}
use mathlib.Core.List.{reverse, reverse-append, reverse-reverse}
use native.Mathlib.Nat.{mod-eq_of_lt}
use buildforge.Manifest.{has_prefix, trim_space, drop_space, lead_width, last_width, is_space}
use buildforge.Cli.Sizes.{
  upper, to_upper, has_suffix, Suffix, gb, mb, kb, g, m, k, b, suffix_text, factor, suffixes,
  split_suffix, int64_limit, all_digits, parse_digits, parse_int, wrap64, scaled, parse_size,
}

-- An ASCII character that is neither a small letter nor white space.
abbrev IsPlain : ℕ → Type 0
IsPlain c = (upper c ≡ c) × (is_space c ≡ false) × (c < 128)

IsDigit-IsPlain : (c : ℕ) → IsDigit c → IsPlain c
IsDigit-IsPlain c h = (ground arith, ground arith, omega arith)

to_upper-IsPlain : (s : Str) → All IsPlain s → to_upper s ≡ s
unfolding to_upper
to_upper-IsPlain [] h = refl
to_upper-IsPlain (c ∷ s) h =
    ap (λ x. x ∷ map upper s) h.0.0 ∙ ap (λ z. c ∷ z) (to_upper-IsPlain s h.1)

lead_width-IsPlain : (s : Str) → All IsPlain s → lead_width s ≡ 0
unfolding lead_width
lead_width-IsPlain [] h = refl
lead_width-IsPlain (a ∷ []) h = ground (arith, h.0)
lead_width-IsPlain (a ∷ x ∷ []) h = ground (arith, h.0)
lead_width-IsPlain (a ∷ x ∷ c ∷ s) h = ground (arith, h.0)

last_width-IsPlain : (s : Str) → All IsPlain s → last_width s ≡ 0
unfolding last_width
last_width-IsPlain [] h = refl
last_width-IsPlain (c ∷ []) h = ground (arith, h.0)
last_width-IsPlain (c ∷ x ∷ []) h = ground (arith, h.0, h.1.0)
last_width-IsPlain (c ∷ x ∷ a ∷ s) h = ground (arith, h.0, h.1.0, h.1.1.0)

drop_space-none : (width : Str → ℕ) (s : Str) → width s ≡ 0 → drop_space width 0 s ≡ s
unfolding drop_space
drop_space-none width [] e = refl
drop_space-none width (c ∷ s) e = rw (e, drop_space) refl

trim_space-IsPlain : (s : Str) → All IsPlain s → trim_space s ≡ s
unfolding trim_space
trim_space-IsPlain s h =
    ap (λ z. reverse (drop_space last_width 0 (reverse z)))
      (drop_space-none lead_width s (lead_width-IsPlain s h))
    ∙ ap reverse (
        drop_space-none last_width (reverse s)
          (last_width-IsPlain (reverse s) (All-reverse IsPlain s h)))
    ∙ reverse-reverse s

All-append {ℓ κ} :
    {A : Type ℓ} (P : A → Type κ) (xs ys : List A) → All P xs → All P ys → All P (xs ++ ys)
All-append P [] ys a h = h
All-append P (x ∷ xs) ys a h = (a.0, All-append P xs ys a.1 h)

take-length : (s t : Str) → take (length s) (s ++ t) ≡ s
take-length [] t = refl
take-length (c ∷ s) t = ap (λ z. c ∷ z) (take-length s t)

take-append : (s t : Str) → take (length (s ++ t) - length t) (s ++ t) ≡ s
take-append s t =
    let n : length (s ++ t) - length t ≡ length s = omega (arith, length-append s t) in
    rw n (take-length s t)

suffix-IsPlain : (u : Suffix) → All IsPlain (suffix_text u)
unfolding suffix_text
suffix-IsPlain gb = ((refl, refl, omega arith), ((refl, refl, omega arith), tt))
suffix-IsPlain mb = ((refl, refl, omega arith), ((refl, refl, omega arith), tt))
suffix-IsPlain kb = ((refl, refl, omega arith), ((refl, refl, omega arith), tt))
suffix-IsPlain g = ((refl, refl, omega arith), tt)
suffix-IsPlain m = ((refl, refl, omega arith), tt)
suffix-IsPlain k = ((refl, refl, omega arith), tt)
suffix-IsPlain b = ((refl, refl, omega arith), tt)

-- The suffixes that a text does not have are passed over; the first that it has is cut off.
passes :
    (us vs : List Suffix) (s back : Str)
    → reverse s ≡ back
    → All (λ u. has_prefix back (reverse (suffix_text u)) ≡ false) us
    → split_suffix (us ++ vs) s ≡ split_suffix vs s
unfolding split_suffix has_suffix
passes [] vs s back e h = refl
passes (u ∷ us) vs s back e h =
    let missing : has_suffix s (suffix_text u) ≡ false =
      ap (λ z. has_prefix z (reverse (suffix_text u))) e ∙ h.0 in
    rw (missing, split_suffix) (passes us vs s back e h.1)

cuts :
    (u : Suffix) (us : List Suffix) (s back : Str)
    → All IsPlain s
    → reverse (s ++ suffix_text u) ≡ back
    → has_prefix back (reverse (suffix_text u)) ≡ true
    → split_suffix (u ∷ us) (s ++ suffix_text u) ≡ (s, factor u)
unfolding split_suffix has_suffix
cuts u us s back plain e h =
    let found : has_suffix (s ++ suffix_text u) (suffix_text u) ≡ true =
      ap (λ z. has_prefix z (reverse (suffix_text u))) e ∙ h in
    rw (found, split_suffix)
      (ap (λ z. (z, factor u))
        (ap trim_space (take-append s (suffix_text u)) ∙ trim_space-IsPlain s plain))

-- The number that is written, from its last digit on.
backwards : (n : ℕ) → (d : ℕ) × (r : Str) × (reverse (decimal n) ≡ d ∷ r) × IsDigit d
unfolding decimal_from
backwards n =
    let front = if ltb n 10 then [] else decimal_from n (n / 10) in
    (
      48 + n % 10,
      reverse front,
      reverse-append front ((48 + n % 10) ∷ []),
      (omega arith, omega arith),
    )

decimal-IsPlain : (n : ℕ) → All IsPlain (decimal n)
decimal-IsPlain n = All-imp (decimal n) IsDigit-IsPlain (decimal-IsDigit (suc n) n)

split_suffix-decimal :
    (n : ℕ) (u : Suffix)
    → split_suffix suffixes (decimal n ++ suffix_text u) ≡ (decimal n, factor u)
unfolding suffix_text has_prefix
split_suffix-decimal n u =
    let (d, r, e, digit) = backwards n in
    let back : (v : Suffix)
        → reverse (decimal n ++ suffix_text v) ≡ reverse (suffix_text v) ++ d ∷ r =
      λ v. reverse-append (decimal n) (suffix_text v) ∙ ap (λ z. reverse (suffix_text v) ++ z) e in
    by_suffix d r digit back u
  where
    by_suffix :
        (d : ℕ) (r : Str)
        → IsDigit d
        → ((v : Suffix) → reverse (decimal n ++ suffix_text v) ≡ reverse (suffix_text v) ++ d ∷ r)
        → (u : Suffix) → split_suffix suffixes (decimal n ++ suffix_text u) ≡ (decimal n, factor u)
    by_suffix d r digit back gb = cuts gb _ (decimal n) _ (decimal-IsPlain n) (back gb) refl
    by_suffix d r digit back mb =
        passes (gb ∷ []) _ _ _ (back mb) (refl, tt)
        ∙ cuts mb _ (decimal n) _ (decimal-IsPlain n) (back mb) refl
    by_suffix d r digit back kb =
        passes (gb ∷ mb ∷ []) _ _ _ (back kb) (refl, (refl, tt))
        ∙ cuts kb _ (decimal n) _ (decimal-IsPlain n) (back kb) refl
    by_suffix d r digit back g =
        passes (gb ∷ mb ∷ kb ∷ []) _ _ _ (back g) (refl, (refl, (refl, tt)))
        ∙ cuts g _ (decimal n) _ (decimal-IsPlain n) (back g) refl
    by_suffix d r digit back m =
        passes (gb ∷ mb ∷ kb ∷ g ∷ []) _ _ _ (back m) (refl, (refl, (refl, (refl, tt))))
        ∙ cuts m _ (decimal n) _ (decimal-IsPlain n) (back m) refl
    by_suffix d r digit back k =
        passes (gb ∷ mb ∷ kb ∷ g ∷ m ∷ []) _ _ _ (back k) (refl, (refl, (refl, (refl, (refl, tt)))))
        ∙ cuts k _ (decimal n) _ (decimal-IsPlain n) (back k) refl
    by_suffix d r digit back b =
        let ng : (d == 71) ≡ false = ground arith in
        let nm : (d == 77) ≡ false = ground arith in
        let nk : (d == 75) ≡ false = ground arith in
        passes (gb ∷ mb ∷ kb ∷ g ∷ m ∷ k ∷ []) _ _ _ (back b)
          (rw ng refl, (rw nm refl, (rw nk refl, (refl, (refl, (refl, tt))))))
        ∙ cuts b _ (decimal n) _ (decimal-IsPlain n) (back b) refl

all_digits-decimal : (s : Str) → All IsDigit s → all_digits s ≡ true
unfolding all_digits
all_digits-decimal [] h = refl
all_digits-decimal (c ∷ s) h = ground (arith, all_digits-decimal s h.1, h.0)

parse_int-digits :
    (s : Str) (n : ℕ)
    → s ≢ []
    → All IsDigit s
    → value 0 s ≡ n
    → n < int64_limit
    → parse_int s ≡ some (pos n)
unfolding parse_int parse_digits
parse_int-digits [] n ne h v l = absurd (ne refl)
parse_int-digits (c ∷ s) n ne h v l =
    let minus : (c == b'-') ≡ false = ground (arith, h.0) in
    let plus : (c == b'+') ≡ false = ground (arith, h.0) in
    let digits = all_digits-decimal (c ∷ s) h in
    let small : ltb n int64_limit ≡ true = ground arith in
    rw (minus, plus, digits, v, small, parse_int, parse_digits) refl

decimal-other : (n : ℕ) → decimal n ≢ []
decimal-other n e = let (d, r, back, _) = backwards n in cc (back, ap reverse e)

append-other : (s t : Str) → s ≢ [] → str_eq (s ++ t) [] ≡ false
unfolding str_eq
append-other [] t h = absurd (h refl)
append-other (c ∷ s) t h = refl

parse_size-decimal :
    (n : ℕ) (u : Suffix)
    → n < int64_limit
    → parse_size (decimal n ++ suffix_text u) ≡ ok (wrap64 (n * factor u))
unfolding parse_size scaled
parse_size-decimal n u l =
    let text = decimal n ++ suffix_text u in
    let plain : All IsPlain text =
      All-append IsPlain (decimal n) (suffix_text u) (decimal-IsPlain n) (suffix-IsPlain u) in
    let clean : trim_space (to_upper text) ≡ text =
      ap trim_space (to_upper-IsPlain text plain) ∙ trim_space-IsPlain text plain in
    let read =
      parse_int-digits (decimal n) n (decimal-other n) (decimal-IsDigit (suc n) n)
        (value-decimal (suc n) n (omega arith)) l in
    let full = append-other (decimal n) (suffix_text u) (decimal-other n) in
    rw (clean, full, split_suffix-decimal n u, read, parse_size, scaled) refl

factor-pos : (n : ℕ) (u : Suffix) → n ≤ n * factor u
unfolding factor
factor-pos n gb = omega arith
factor-pos n mb = omega arith
factor-pos n kb = omega arith
factor-pos n g = omega arith
factor-pos n m = omega arith
factor-pos n k = omega arith
factor-pos n b = omega arith

wrap64-small : (x : ℕ) → x < int64_limit → wrap64 x ≡ pos x
unfolding wrap64
wrap64-small x l =
    let same : x % (2 * int64_limit) ≡ x = mod-eq_of_lt (omega arith) in
    let small : ltb x int64_limit ≡ true = ground arith in rw (same, small, wrap64) refl

-- A number written in decimal with one of the suffixes is read as that many units, when the number of
-- bytes fits an int64.
pub parse_size-exact :
    (n : ℕ) (u : Suffix)
    → n * factor u < int64_limit
    → parse_size (decimal n ++ suffix_text u) ≡ ok (pos (n * factor u))
parse_size-exact n u l =
    parse_size-decimal n u (omega (arith, factor-pos n u)) ∙ ap ok (wrap64-small (n * factor u) l)

-- A number of units that itself fits an int64, but whose product with the unit lies in the upper half
-- of what 64 bits hold, is read as a negative size, without an error.
pub parse_size-wraps :
    (n : ℕ) (u : Suffix)
    → n < int64_limit
    → int64_limit ≤ (n * factor u) % (2 * int64_limit)
    → (i : ℕ) × (parse_size (decimal n ++ suffix_text u) ≡ ok (negsuc i))
unfolding wrap64
parse_size-wraps n u l h =
    let x = n * factor u in
    let large : ltb (x % (2 * int64_limit)) int64_limit ≡ false = ground arith in
    (
      2 * int64_limit - x % (2 * int64_limit) - 1,
      parse_size-decimal n u l ∙ ap ok (rw (large, wrap64) refl),
    )

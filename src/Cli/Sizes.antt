-- ===== src/Cli/Sizes.antt =====
-- cmd/buildforge/main.go, `parseSize`: a size in bytes, or with a suffix. `strconv.ParseInt` is that for
-- base 10 and 64 bits; upper case is that of ASCII letters.
pub mod Reads
use buildforge.Prelude.{
  ℕ, zero, suc, ◌==◌, ◌+◌, ◌-◌, ◌*◌, ◌%◌, ◌^◌, Str, bytes, str_eq, Bool, true, false, ltb, leb,
  ◌&&◌, List, [], ◌∷◌, map, length, take, if◌then◌else◌, Option, none, some, Result, ok, err, ℤ,
  pos, negsuc, value,
}
use mathlib.Core.List.{reverse}
use buildforge.Manifest.{has_prefix, trim_space}

abbrev pub upper : ℕ → ℕ
upper c = if leb 97 c && leb c 122 then c - 32 else c

-- `strings.ToUpper`
unfoldable pub to_upper : Str → Str
to_upper s = map upper s

-- `strings.HasSuffix`
unfoldable pub has_suffix : Str → Str → Bool
has_suffix s t = has_prefix (reverse s) (reverse t)

-- `strings.TrimSuffix`
unfoldable pub trim_suffix : Str → Str → Str
unfolding has_suffix
trim_suffix s t = if has_suffix s t then take (length s - length t) s else s

pub data Suffix : Type 0 where
  gb mb kb g m k b : Suffix

unfoldable pub suffix_text : Suffix → Str
suffix_text gb = bytes "GB"
suffix_text mb = bytes "MB"
suffix_text kb = bytes "KB"
suffix_text g = bytes "G"
suffix_text m = bytes "M"
suffix_text k = bytes "K"
suffix_text b = bytes "B"

unfoldable pub factor : Suffix → ℕ
factor gb = 2 ^ 30
factor mb = 2 ^ 20
factor kb = 2 ^ 10
factor g = 2 ^ 30
factor m = 2 ^ 20
factor k = 2 ^ 10
factor b = 1

-- The suffixes in the order of the loop.
abbrev pub suffixes : List Suffix
suffixes = gb ∷ mb ∷ kb ∷ g ∷ m ∷ k ∷ b ∷ []

-- The loop: the number's text and the multiplier.
unfoldable pub split_suffix : List Suffix → Str → Str × ℕ
unfolding has_suffix trim_suffix suffix_text factor
split_suffix [] s = (s, 1)
split_suffix (u ∷ us) s =
    if has_suffix s (suffix_text u)
    then (trim_space (trim_suffix s (suffix_text u)), factor u)
    else split_suffix us s

-- The least number above the values of an int64.
unfoldable pub int64_limit : ℕ
int64_limit = 2 ^ 63

unfoldable pub all_digits : Str → Bool
all_digits [] = true
all_digits (c ∷ s) = leb 48 c && leb c 57 && all_digits s

-- Digits, at least one, of a value up to a bound.
unfoldable pub parse_digits : ℕ → Str → Option ℕ
unfolding all_digits value
parse_digits bound [] = none
parse_digits bound (c ∷ s) =
    if all_digits (c ∷ s) && ltb (value 0 (c ∷ s)) bound then some (value 0 (c ∷ s)) else none

abbrev pub negated : ℕ → ℤ
negated zero = pos 0
negated (suc n) = negsuc n

-- `strconv.ParseInt(s, 10, 64)`; `none` is an error.
unfoldable pub parse_int : Str → Option ℤ
unfolding parse_digits int64_limit
parse_int [] = none
parse_int (c ∷ s) =
    if c == b'-'
    then elim (parse_digits (int64_limit + 1) s) [ none ↦ none | some n ↦ some (negated n) ]
    else elim (parse_digits int64_limit (if c == b'+' then s else c ∷ s)) [
      | none ↦ none
      | some n ↦ some (pos n)
    ]

-- A natural number as an int64, which wraps around.
unfoldable pub wrap64 : ℕ → ℤ
unfolding int64_limit
wrap64 x =
    let r = x % (2 * int64_limit) in
    if ltb r int64_limit then pos r else negsuc (2 * int64_limit - r - 1)

pub data SizeError : Type 0 where
  no_number negative : SizeError

-- The end of `parseSize`.
unfoldable pub scaled : Option ℤ → ℕ → Result SizeError ℤ
unfolding wrap64
scaled none mult = err no_number
scaled (some (negsuc n)) mult = err negative
scaled (some (pos n)) mult = ok (wrap64 (n * mult))

-- `parseSize`
unfoldable pub parse_size : Str → Result SizeError ℤ
unfolding to_upper split_suffix parse_int scaled trim_space
parse_size s =
    let u = trim_space (to_upper s) in
    let (number, mult) = split_suffix suffixes u in
    if str_eq u [] then ok (pos 0) else scaled (parse_int number) mult

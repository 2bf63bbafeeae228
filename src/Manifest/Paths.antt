-- ===== src/Manifest/Paths.antt =====
-- internal/manifest/manifest.go, `checkPaths`, with what it uses of the packages path and strings.
use buildforge.Prelude.{
  ℕ, zero, suc, Str, str_eq, Bool, true, false, not, ◌||◌, ◌&&◌, List, [], ◌∷◌, ◌++◌, ◌==◌, leb,
  Option, none, some, if◌then◌else◌,
}
use mathlib.Core.List.{reverse}

pub data PathKind : Type 0 where
  input output : PathKind

pub data PathFault : Type 0 where
  empty_path absolute not_canonical escapes : PathFault

-- `strings.HasPrefix`
unfoldable pub has_prefix : Str → Str → Bool
has_prefix s [] = true
has_prefix [] (c ∷ p) = false
has_prefix (a ∷ s) (c ∷ p) = a == c && has_prefix s p

-- The white space of `unicode.IsSpace`, in UTF-8: the characters of one byte, those of two
-- (U+0085, U+00A0) and those of three (U+1680, U+2000 to U+200A, U+2028, U+2029, U+202F, U+205F,
-- U+3000).
abbrev pub is_space : ℕ → Bool
is_space c = c == 32 || (leb 9 c && leb c 13)

abbrev pub is_space2 : ℕ → ℕ → Bool
is_space2 a b = a == 194 && (b == 133 || b == 160)

abbrev pub is_space3 : ℕ → ℕ → ℕ → Bool
is_space3 a b c =
    (a == 225 && (b == 154 && c == 128))
    || ((a == 226
          && ((b == 128 && ((leb 128 c && leb c 138) || (c == 168 || (c == 169 || c == 175))))
              || (b == 129 && c == 159)))
        || (a == 227 && (b == 128 && c == 128)))

-- How many bytes the white space at the start of a text has; 0 where it starts with none.
unfoldable pub lead_width : Str → ℕ
lead_width [] = 0
lead_width (a ∷ []) = if is_space a then 1 else 0
lead_width (a ∷ b ∷ []) = if is_space a then 1 else if is_space2 a b then 2 else 0
lead_width (a ∷ b ∷ c ∷ s) =
    if is_space a then 1 else if is_space2 a b then 2 else if is_space3 a b c then 3 else 0

-- The same at the end of a text, whose bytes come in reverse.
unfoldable pub last_width : Str → ℕ
last_width [] = 0
last_width (c ∷ []) = if is_space c then 1 else 0
last_width (c ∷ b ∷ []) = if is_space c then 1 else if is_space2 b c then 2 else 0
last_width (c ∷ b ∷ a ∷ s) =
    if is_space c then 1 else if is_space2 b c then 2 else if is_space3 a b c then 3 else 0

-- The text from its first character on that is no white space; `k` bytes are still to be dropped.
unfoldable pub drop_space : (Str → ℕ) → ℕ → Str → Str
drop_space width k [] = []
drop_space width (suc k) (c ∷ s) = drop_space width k s
drop_space width zero (c ∷ s) = elim (width (c ∷ s)) [ zero ↦ c ∷ s | suc k ↦ drop_space width k s ]

-- `strings.TrimSpace`
unfoldable pub trim_space : Str → Str
unfolding drop_space lead_width last_width
trim_space s = reverse (drop_space last_width 0 (reverse (drop_space lead_width 0 s)))

abbrev pub cons_head : ℕ → List Str → List Str
cons_head c [] = (c ∷ []) ∷ []
cons_head c (w ∷ ws) = (c ∷ w) ∷ ws

-- The elements of a path: what stands between its slashes.
unfoldable pub elements : Str → List Str
elements [] = [] ∷ []
elements (c ∷ p) = let rest = elements p in if c == b'/' then [] ∷ rest else cons_head c rest

abbrev pub dot : Str
dot = b'.' ∷ []

abbrev pub dot_dot : Str
dot_dot = b'.' ∷ b'.' ∷ []

abbrev pub slash : Str
slash = b'/' ∷ []

-- One element of `path.Clean`; the elements kept so far, the last one first.
unfoldable pub clean_element : Bool → List Str → Str → List Str
clean_element rooted kept e =
    if str_eq e [] || str_eq e dot
    then kept
    else if str_eq e dot_dot
    then elim kept [
      | [] ↦ if rooted then [] else dot_dot ∷ []
      | top ∷ below ↦ if str_eq top dot_dot then dot_dot ∷ top ∷ below else below
    ]
    else e ∷ kept

unfoldable pub clean_elements : Bool → List Str → List Str → List Str
clean_elements rooted kept [] = kept
clean_elements rooted kept (e ∷ es) = clean_elements rooted (clean_element rooted kept e) es

-- `strings.Join(es, "/")`
unfoldable pub join_elements : List Str → Str
join_elements [] = []
join_elements (e ∷ []) = e
join_elements (e ∷ e' ∷ es) = e ++ b'/' ∷ join_elements (e' ∷ es)

-- `path.Clean`
unfoldable pub path_clean : Str → Str
unfolding elements clean_elements join_elements clean_element
path_clean p =
    let rooted = has_prefix p slash in
    let body = join_elements (reverse (clean_elements rooted [] (elements p))) in
    if rooted then b'/' ∷ body else if str_eq body [] then dot else body

-- The switch of `checkPaths`.
unfoldable pub check_path : Str → Option PathFault
check_path p =
    if str_eq p []
    then some empty_path
    else if has_prefix p slash
    then some absolute
    else if not (str_eq p (path_clean p))
    then some not_canonical
    else if str_eq p dot_dot || has_prefix p (b'.' ∷ b'.' ∷ b'/' ∷ [])
    then some escapes
    else none

-- The faulty paths, in order, each with its fault.
unfoldable pub check_paths : List Str → List (Str × PathFault)
check_paths [] = []
check_paths (p ∷ ps) = elim (check_path p) [
  | some fault ↦ (p, fault) ∷ check_paths ps
  | none ↦ check_paths ps
]

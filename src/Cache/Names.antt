-- ===== src/Cache/Names.antt =====
-- internal/cache/store.go, `shard`: which names the store takes, and where it files them.
use buildforge.Prelude.{
  ℕ, Str, Bool, true, false, [], ◌∷◌, List, length, ltb, ◌&&◌, ◌||◌, if◌then◌else◌, take, drop,
  Option, none, some, ◌++◌,
}

-- A lowercase hexadecimal digit.
abbrev pub is_hex : ℕ → Bool
is_hex c = if ltb c 48 || ltb 57 c then (if ltb c 97 || ltb 102 c then false else true) else true

abbrev pub all_hex : Str → Bool
all_hex [] = true
all_hex (c ∷ s) = is_hex c && all_hex s

unfoldable pub is_name : Str → Bool
is_name name = if ltb (length name) 3 then false else all_hex name

-- The path below the store's root: two directories, and the file with its suffix.
unfoldable pub shard : Str → Str → Str → Option (List Str)
unfolding is_name
shard base name suffix =
    if is_name name then some (base ∷ take 2 name ∷ (drop 2 name ++ suffix) ∷ []) else none

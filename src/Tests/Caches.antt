-- ===== src/Tests/Caches.antt =====
-- A small store and a cache server, and their theorems there.
use buildforge.Prelude.{
  ℕ, ◌≡◌, Option, refl, Str, str_eq, bytes, List, [], ◌∷◌, map, ◌+◌, ◌%◌, if◌then◌else◌, none, some,
  ok, ◌⊎◌, In, inl, inr, Str-cases, subst, arith,
}
use buildforge.Prelude.{sort_strings, str_lt, decimal_from}
use buildforge.Manifest.{Action, check_path, path_clean, has_prefix}
use buildforge.Cache.Key.{key_bytes, sorted_env, sorted_inputs, value_of, write}
use buildforge.Cache.Key.Framing.{IsFree}
use buildforge.Cache.Key.Determines.{key_bytes-determines, variables}
use buildforge.Cache.Tools.{new_tool_cache, tool_digest, IsFresh, file_of_tool, tool_digest-IsFresh}
use buildforge.Cache.Names.{is_name}
use buildforge.Cache.Store.{
  Entry, Store, File, Workspace, PutResult, lookup, put, put_outputs, put_blob, put_entry,
  compare_previous, changed, recorded, all_present, has_blob, restore, local_path, file_mode,
}
use buildforge.Cache.Store.Sound.{IsSound}
use buildforge.Cache.Store.Restores.{restore-IsOutput, IsOutput}
use buildforge.Cache.Store.RoundTrip.{Restored, put-restore}
use buildforge.Remote.Tiered.{Client, Tiered, lookup_tiered, put_tiered}
use buildforge.Remote.Tiered.Usable.{Usable, lookup_tiered-Usable}
use buildforge.Remote.Tiered.Uploads.{put_tiered-put}

-- Some digest with hexadecimal names.
abbrev pub digest : List ℕ → Str
digest b = 97 ∷ 98 ∷ 99 ∷ map (λ c. 48 + c % 10) b

abbrev pub nothing : Store
nothing = record { cas = λ _. none; ac = λ _. none }

abbrev pub key : Str
key = bytes "0123"

abbrev pub object : Str
object = bytes "main.o"

abbrev pub built : Workspace
built q = if str_eq q object then some (record { content = 7 ∷ 8 ∷ []; perm = 420 }) else none

abbrev pub clean : Workspace
clean _ = none

abbrev pub listed : Entry
listed = record {
  key = key;
  outputs = record { path = object; digest = digest (7 ∷ 8 ∷ []); mode = 420 } ∷ [];
}

abbrev pub result : PutResult
result = record { stored = listed; nondeterministic = [] }

pub nothing-IsSound : IsSound digest nothing
nothing-IsSound d b e = cc

unfoldable pub store_program : Unit {0}
unfolding put put_outputs put_blob put_entry compare_previous changed recorded lookup all_present
    has_blob is_name str_eq restore local_path check_path path_clean has_prefix
store_program = tt

pub put-built : (put digest key built (object ∷ []) nothing).1 ≡ ok result
unfolding store_program
put-built = refl

abbrev filled : Store
filled = (put digest key built (object ∷ []) nothing).0

object-passes : check_path object ≡ none
unfolding store_program
object-passes = refl

put-restore_example :
    (lookup key filled ≡ ok (some listed))
    × ((restore digest listed.outputs filled clean).1 ≡ ok tt)
    × Restored digest built clean (restore digest listed.outputs filled clean).0 (object ∷ [])
    × IsSound digest filled
put-restore_example =
    put-restore digest key built (object ∷ []) nothing result clean nothing-IsSound
      (object-passes, tt) put-built

-- The modes of an entry that `Put` did not write, and a path that is not clean.
modes : map file_mode (493 ∷ 33188 ∷ 8389101 ∷ []) ≡ 493 ∷ 420 ∷ 2541 ∷ []
unfolding file_mode
modes = refl

cleaned : local_path (bytes "/out/./a/../main.o") ≡ bytes "out/main.o"
unfolding store_program
cleaned = refl

restore-IsOutput_example :
    ((restore digest listed.outputs filled clean).0 object ≡ clean object)
    ⊎ ((f : File) × ((restore digest listed.outputs filled clean).0 object ≡ some f)
        × IsOutput digest listed.outputs object f)
restore-IsOutput_example = restore-IsOutput digest listed.outputs filled clean object

-- A server that holds the entry and answers with one and the same blob; uploads fail.
abbrev server : Client ℕ ℕ
server = record {
  get_entry = λ w k. (w + 1, if str_eq k key then ok (some listed) else ok none);
  get_blob = λ w d. (w + 1, ok (some (7 ∷ 8 ∷ [])));
  put_remote_blob = λ w d b. (w + 1, some 503);
  put_remote_entry = λ w e. (w + 1, some 503);
}

abbrev fresh : Tiered ℕ
fresh = record {
  local = nothing;
  world = 0;
  stats = record { local_hits = 0; remote_hits = 0; misses = 0; uploads = 0; errors = 0 };
}

lookup_tiered-Usable_example : Usable digest clean (lookup_tiered digest (some server) key fresh)
lookup_tiered-Usable_example =
    lookup_tiered-Usable digest (some server) key fresh clean nothing-IsSound

put_tiered-put_example :
    ((put_tiered digest (some server) key built (object ∷ []) fresh).1
      ≡ (put digest key built (object ∷ []) nothing).1)
    × ((put_tiered digest (some server) key built (object ∷ []) fresh).0.local
        ≡ (put digest key built (object ∷ []) nothing).0)
put_tiered-put_example = put_tiered-put digest (some server) key built (object ∷ []) fresh

-- The same action, with its inputs in either order.
abbrev compiles : List Str → Action
compiles inputs = record {
  name = bytes "main";
  deps = [];
  inputs = inputs;
  outputs = object ∷ [];
  command = bytes "cc" ∷ bytes "-c" ∷ [];
  env = (bytes "LANG", bytes "C") ∷ [];
}

abbrev one_way : Action
one_way = compiles (bytes "a.h" ∷ bytes "b.h" ∷ [])

abbrev other_way : Action
other_way = compiles (bytes "b.h" ∷ bytes "a.h" ∷ [])

same_bytes :
    key_bytes (bytes "linux/amd64") (bytes "abc") digest one_way
    ≡ key_bytes (bytes "linux/amd64") (bytes "abc") digest other_way
unfolding sort_strings str_lt
same_bytes = refl

write-arg : write (bytes "arg", bytes "abcdefghijkl") ≡ bytes "arg 12\nabcdefghijkl\n"
unfolding decimal_from
write-arg = refl

lang-IsFree : (k : Str) → In k (variables one_way) → IsFree 61 k
unfolding str_eq
lang-IsFree k i = elim (Str-cases (bytes "LANG") k) [
  | inl same ↦
      subst (IsFree 61) same
        ((λ e. omega arith), ((λ e. omega arith), ((λ e. omega arith), ((λ e. omega arith), tt))))
  | inr (_, other) ↦ absurd (ground arith)
]

digits-IsFree : (b : List ℕ) → IsFree 32 (map (λ c. 48 + c % 10) b)
digits-IsFree [] = tt
digits-IsFree (c ∷ b) = ((λ e. omega arith), digits-IsFree b)

digest-IsFree : (b : List ℕ) → IsFree 32 (digest b)
digest-IsFree b = ((λ e. omega arith), ((λ e. omega arith), ((λ e. omega arith), digits-IsFree b)))

key_bytes-determines_example :
    (bytes "linux/amd64" ≡ bytes "linux/amd64")
    × (one_way.command ≡ other_way.command)
    × (sort_strings (variables one_way) ≡ sort_strings (variables other_way))
    × ((k : Str) → In k (variables one_way) → value_of k one_way.env ≡ value_of k other_way.env)
    × (bytes "abc" ≡ bytes "abc")
    × (sort_strings one_way.inputs ≡ sort_strings other_way.inputs)
    × ((q : Str) → In q one_way.inputs → digest q ≡ digest q)
    × (sort_strings one_way.outputs ≡ sort_strings other_way.outputs)
    × (sorted_env one_way ≡ sorted_env other_way)
    × (sorted_inputs digest one_way ≡ sorted_inputs digest other_way)
key_bytes-determines_example =
    key_bytes-determines (bytes "linux/amd64") (bytes "linux/amd64") (bytes "abc") (bytes "abc")
      digest digest one_way other_way lang-IsFree lang-IsFree digest-IsFree digest-IsFree same_bytes

-- Names with a `=` are not told apart: `A=B` with the value `C`, and `A` with the value `B=C`.
abbrev sets : Str → Str → Action
sets k v = record {
  name = bytes "main";
  deps = [];
  inputs = [];
  outputs = [];
  command = bytes "cc" ∷ [];
  env = (k, v) ∷ [];
}

same_bytes_of_other :
    key_bytes [] [] digest (sets (bytes "A=B") (bytes "C"))
    ≡ key_bytes [] [] digest (sets (bytes "A") (bytes "B=C"))
unfolding sort_strings str_eq
same_bytes_of_other = refl

-- The compiler, and no other tool.
abbrev look_path : Str → Option Str
look_path name = if str_eq name (bytes "cc") then some (bytes "/usr/bin/cc") else none

abbrev tool_file : Str → Option Str
tool_file path = some (digest path)

tool_digest-IsFresh_example :
    ((tool_digest look_path tool_file (bytes "cc") new_tool_cache).1
      ≡ file_of_tool look_path tool_file (bytes "cc"))
    × IsFresh look_path tool_file (tool_digest look_path tool_file (bytes "cc") new_tool_cache).0
tool_digest-IsFresh_example =
    tool_digest-IsFresh look_path tool_file (bytes "cc") new_tool_cache (λ path d h. cc)

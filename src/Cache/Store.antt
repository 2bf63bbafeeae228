-- ===== src/Cache/Store.antt =====
-- internal/cache/store.go: the entries and the blobs, as maps from names to files. A file operation
-- fails only where a file is missing; the usage times are left out. The digest of bytes is a
-- parameter.
pub mod Sound
pub mod Restores
pub mod RoundTrip
use buildforge.Prelude.{
  ℕ, Str, str_eq, Bool, true, false, List, [], ◌∷◌, ◌++◌, if◌then◌else◌, not, update, Option, none,
  some, Result, ok, err, ◌/◌, ◌%◌, ◌+◌, ◌*◌, ◌==◌,
}
use mathlib.Core.List.{reverse}
use buildforge.Manifest.{elements, clean_elements, clean_element, join_elements, dot}
use buildforge.Cache.Names.{is_name}

pub record OutputFile : Type 0 where
  pub path : Str
  pub digest : Str
  pub mode : ℕ

pub record Entry : Type 0 where
  pub key : Str
  pub outputs : List OutputFile

-- What stands in the file of an entry.
pub data Saved : Type 0 where
  damaged : Saved
  entry : Entry → Saved

pub record Store : Type 0 where
  pub cas : Str → Option (List ℕ)
  pub ac : Str → Option Saved

pub record File : Type 0 where
  pub content : List ℕ
  pub perm : ℕ

-- `filepath.Join(workspace, path)`, relative to the workspace.
unfoldable pub local_path : Str → Str
unfolding elements clean_elements clean_element join_elements
local_path path =
    let body = join_elements (reverse (clean_elements false [] (elements path))) in
    if str_eq body [] then dot else body

-- The value of one bit of `mode`, where it is set.
abbrev flag : ℕ → ℕ → ℕ → ℕ
flag mode weight value = if (mode / weight) % 2 == 1 then value else 0

-- What `Chmod` keeps of `os.FileMode(mode)`: the permissions, and the bits for setuid (23), setgid
-- (22) and sticky (20).
unfoldable pub file_mode : ℕ → ℕ
file_mode mode =
    mode % 512 + flag mode 8388608 2048 + flag mode 4194304 1024 + flag mode 1048576 512

-- The files of a workspace, by their relative paths.
abbrev pub Workspace : Type 0
Workspace = Str → Option File

pub data StoreError : Type 0 where
  bad_name : Str → StoreError
  no_output : Str → StoreError
  no_blob : Str → StoreError
  corrupt : Str → StoreError
  wrong_digest : StoreError

pub record PutResult : Type 0 where
  pub stored : Entry
  pub nondeterministic : List Str

-- `HasBlob`
unfoldable pub has_blob : Str → Store → Bool
has_blob d s = if is_name d then elim (s.cas d) [ none ↦ false | some _ ↦ true ] else false

-- The loop of `Lookup` over the outputs.
unfoldable pub all_present : List OutputFile → Store → Bool
unfolding has_blob
all_present [] s = true
all_present (o ∷ os) s = if has_blob o.digest s then all_present os s else false

-- `Lookup`
unfoldable pub lookup : Str → Store → Result StoreError (Option Entry)
unfolding all_present
lookup key s =
    if is_name key
    then elim (s.ac key) [
      | none ↦ ok none
      | some damaged ↦ ok none
      | some (entry e) ↦ if all_present e.outputs s then ok (some e) else ok none
    ]
    else err (bad_name key)

-- `putBlob`, with the bytes of the file
unfoldable pub put_blob : Str → List ℕ → Store → Store × Option StoreError
put_blob d b s =
    if is_name d
    then elim (s.cas d) [
      | none ↦ (record s { cas = update s.cas d (some b) }, none)
      | some _ ↦ (s, none)
    ]
    else (s, some (bad_name d))

-- `PutEntry`
unfoldable pub put_entry : Entry → Store → Store × Option StoreError
put_entry e s =
    if is_name e.key
    then (record s { ac = update s.ac e.key (some (entry e)) }, none)
    else (s, some (bad_name e.key))

-- The digest of an output in a list of them, the last one of its path: the map `was`.
unfoldable pub recorded : Str → List OutputFile → Option Str
recorded path [] = none
recorded path (o ∷ os) = elim (recorded path os) [
  | some d ↦ some d
  | none ↦ if str_eq o.path path then some o.digest else none
]

-- The outputs whose digest is not that of the previous entry.
unfoldable pub changed : List OutputFile → List OutputFile → List Str
unfolding recorded
changed was [] = []
changed was (o ∷ os) =
    let rest = changed was os in
    elim (recorded o.path was) [
      | none ↦ rest
      | some d ↦ if str_eq d o.digest then rest else o.path ∷ rest
    ]

-- The comparison in `Put` with what was recorded under the key.
unfoldable pub compare_previous : Str → List OutputFile → Store → List Str
unfolding changed lookup
compare_previous key os s = elim (lookup key s) [ ok (some e) ↦ changed e.outputs os | _ ↦ [] ]

module _ (digest : List ℕ → Str) where
  -- The loop of `Put`.
  unfoldable pub put_outputs :
      Workspace → List Str → Store → Store × Result StoreError (List OutputFile)
  unfolding put_blob
  put_outputs ws [] s = (s, ok [])
  put_outputs ws (rel ∷ rels) s = elim (ws rel) [
    | none ↦ (s, err (no_output rel))
    | some f ↦
        let (s', e) = put_blob (digest f.content) f.content s in
        let (s'', r) = put_outputs ws rels s' in
        elim e [
          | some x ↦ (s', err x)
          | none ↦ elim r [
            | err x ↦ (s'', err x)
            | ok os ↦ (
              s'',
              ok (record { path = rel; digest = digest f.content; mode = f.perm % 512 } ∷ os),
            )
          ]
        ]
  ]

  -- `Put`
  unfoldable pub put : Str → Workspace → List Str → Store → Store × Result StoreError PutResult
  unfolding put_outputs compare_previous put_entry
  put key ws rels s =
      let (s', r) = put_outputs ws rels s in
      elim r [
        | err x ↦ (s', err x)
        | ok os ↦
            let e : Entry = record { key = key; outputs = os } in
            let (s'', failure) = put_entry e s' in
            elim failure [
              | some x ↦ (s'', err x)
              | none ↦
                  (s'', ok (record { stored = e; nondeterministic = compare_previous key os s' }))
            ]
      ]

  -- `ReadBlob`
  unfoldable pub read_blob : Str → Store → Result StoreError (List ℕ)
  read_blob d s =
      if is_name d
      then elim (s.cas d) [
        | none ↦ err (no_blob d)
        | some b ↦ if str_eq (digest b) d then ok b else err (corrupt d)
      ]
      else err (bad_name d)

  -- `WriteBlob`
  unfoldable pub write_blob : Str → List ℕ → Store → Store × Option StoreError
  unfolding put_blob
  write_blob d b s = if str_eq (digest b) d then put_blob d b s else (s, some wrong_digest)

  -- `Restore`
  unfoldable pub restore :
      List OutputFile → Store → Workspace → Workspace × Result StoreError (Unit {0})
  unfolding local_path file_mode
  restore [] s ws = (ws, ok tt)
  restore (o ∷ os) s ws =
      if is_name o.digest
      then elim (s.cas o.digest) [
        | none ↦ (ws, err (no_blob o.digest))
        | some b ↦
            if str_eq (digest b) o.digest
            then restore os s (
                update ws (local_path o.path)
                  (some (record { content = b; perm = file_mode o.mode })))
            else (ws, err (corrupt o.path))
      ]
      else (ws, err (bad_name o.digest))

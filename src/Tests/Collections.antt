-- ===== src/Tests/Collections.antt =====
-- The collector on a small cache, and its theorems there.
use buildforge.Prelude.{
  ℕ, ◌≡◌, ◌≤◌, refl, Str, str_eq, str_lt, bytes, [], ◌∷◌, false, true, ◌⊎◌, In, count, arith,
  IsDistinct, map, Str-cases, inl, inr, subst, none,
}
use buildforge.Cache.Names.{is_name, shard}
use buildforge.Cache.Gc.{
  GcOptions, EntryInfo, BlobInfo, Blobs, Gc, gc, scan, sweep, evict, evict_entry, release_digests,
  release_digest, remove, bump, is_young,
}
use buildforge.Cache.Gc.Evicts.{gc-keeps, gc-Fits}
use buildforge.Cache.Gc.Bytes.{Balanced, gc-Balanced}

abbrev blob : Str → ℕ → ℕ → Str × BlobInfo
blob d size time = (d, record { size = size; mod_time = time })

abbrev shared : Str
shared = bytes "aaa1"

abbrev old_only : Str
old_only = bytes "bbb2"

abbrev orphan : Str
orphan = bytes "ccc3"

abbrev blobs : Blobs
blobs = blob shared 10 1 ∷ blob old_only 20 2 ∷ blob orphan 40 3 ∷ []

abbrev newer : EntryInfo
newer = record { key = bytes "fff1"; digests = shared ∷ []; mod_time = 9 }

abbrev older : EntryInfo
older = record { key = bytes "eee0"; digests = shared ∷ old_only ∷ []; mod_time = 5 }

abbrev options : GcOptions
options = record { max_bytes = 15; min_age = 0; dry_run = false; now = 100 }

abbrev collected : Gc
collected = gc options (newer ∷ older ∷ []) blobs

collector : Unit {0}
unfolding gc scan sweep evict evict_entry release_digests release_digest remove bump is_name str_eq
    str_lt
collector = tt

removed-collected : collected.removed_blobs ≡ orphan ∷ old_only ∷ []
unfolding collector
removed-collected = refl

evicted-collected : collected.removed_entries ≡ older.key ∷ []
unfolding collector
evicted-collected = refl

shard-short : shard (bytes "cas") (bytes "ab") [] ≡ none
unfolding shard is_name
shard-short = refl

newer-left : count newer.key collected.removed_entries ≡ 0
unfolding collector
newer-left = refl

newer-refers : In shared newer.digests
unfolding str_eq
newer-refers = omega arith

newer-named : is_name newer.key ≡ true
unfolding is_name
newer-named = refl

older-named : is_name older.key ≡ true
unfolding is_name
older-named = refl

blobs-IsDistinct : IsDistinct (map (λ (p : Str × BlobInfo). p.0) blobs)
unfolding str_eq
blobs-IsDistinct q = elim (Str-cases shared q) [
  | inl e ↦ subst (λ z. count z (shared ∷ old_only ∷ orphan ∷ []) ≤ 1) e (omega arith)
  | inr (_, f) ↦ elim (Str-cases old_only q) [
    | inl e ↦ subst (λ z. count z (shared ∷ old_only ∷ orphan ∷ []) ≤ 1) e (omega arith)
    | inr (_, g) ↦ ground (arith, f, g)
  ]
]

gc-keeps_example : count shared collected.removed_blobs ≡ 0
gc-keeps_example =
    gc-keeps options [] (older ∷ []) newer blobs shared refl (newer-named, (older-named, tt))
      newer-left newer-refers

gc-Fits_example :
    (collected.res.bytes_after ≤ 15)
    ⊎ (is_young options older.mod_time ≡ true)
    ⊎ In older.key collected.removed_entries
gc-Fits_example =
    gc-Fits options (newer ∷ []) [] older blobs refl (newer-named, (older-named, tt)) (omega arith)

gc-Balanced_example : Balanced collected
gc-Balanced_example = gc-Balanced options (newer ∷ older ∷ []) blobs blobs-IsDistinct

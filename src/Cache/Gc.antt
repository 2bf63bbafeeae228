-- ===== src/Cache/Gc.antt =====
-- internal/cache/gc.go, `GC`: the collector, on what the two scans found. Times are in units of the
-- clock; a blob's name is its digest. What the files become is `removed_blobs` and
-- `removed_entries`: the names that `os.Remove` was called on, in order.
pub mod Keeps
pub mod Phases
pub mod Evicts
pub mod Bytes
use buildforge.Prelude.{
  ℕ, suc, ◌+◌, ◌-◌, Str, str_eq, str_lt, Bool, true, false, List, [], ◌∷◌, ◌++◌, length,
  if◌then◌else◌, ltb, leb, ◌==◌, ◌&&◌, ◌||◌, not, ℤ, pos, decrement, is_positive, is_zero, update,
  Option, none, some,
}
use buildforge.Cache.Names.{is_name}

pub record GcOptions : Type 0 where
  -- a budget below zero acts as zero
  pub max_bytes : ℕ
  pub min_age : ℕ
  pub dry_run : Bool
  pub now : ℕ

pub record EntryInfo : Type 0 where
  pub key : Str
  pub digests : List Str
  pub mod_time : ℕ

pub record BlobInfo : Type 0 where
  pub size : ℕ
  pub mod_time : ℕ

-- The map `blobs`, in the order in which the loop meets its keys.
abbrev pub Blobs : Type 0
Blobs = List (Str × BlobInfo)

abbrev pub lookup : Str → Blobs → Option BlobInfo
lookup d [] = none
lookup d ((k, b) ∷ bs) = if str_eq k d then some b else lookup d bs

abbrev pub delete : Str → Blobs → Blobs
delete d [] = []
delete d ((k, b) ∷ bs) = if str_eq k d then bs else (k, b) ∷ delete d bs

pub record GcResult : Type 0 where
  pub entries : ℕ
  pub scanned : ℕ
  pub bytes_before : ℕ
  pub unreferenced : ℕ
  pub evicted : ℕ
  pub evicted_entry : ℕ
  pub skipped : ℕ
  pub bytes_freed : ℕ
  pub bytes_after : ℕ

-- The variables of a collection.
pub record Gc : Type 0 where
  pub res : GcResult
  pub blobs : Blobs
  pub refs : Str → ℤ
  pub removed_blobs : List Str
  pub removed_entries : List Str

-- `*counter++`: the counter that `remove` is given.
pub data Counter : Type 0 where
  unreferenced evicted : Counter

unfoldable pub bump : Counter → GcResult → GcResult
bump unreferenced r = record r { unreferenced = suc r.unreferenced }
bump evicted r = record r { evicted = suc r.evicted }

-- `x++`
abbrev pub increment : ℤ → ℤ
increment (pos n) = pos (suc n)
increment (ℤ.negsuc ℕ.zero) = pos 0
increment (ℤ.negsuc (suc n)) = ℤ.negsuc n

abbrev pub total : Blobs → ℕ
total [] = 0
total ((_, b) ∷ bs) = b.size + total bs

-- The loops that count the references.
abbrev pub count_digests : List Str → (Str → ℤ) → Str → ℤ
count_digests [] refs = refs
count_digests (d ∷ ds) refs = count_digests ds (update refs d (increment (refs d)))

abbrev pub count_refs : List EntryInfo → (Str → ℤ) → Str → ℤ
count_refs [] refs = refs
count_refs (e ∷ es) refs = count_refs es (count_digests e.digests refs)

-- `sort.Slice`: by modification time, and by key where the times agree.
abbrev pub used_before : EntryInfo → EntryInfo → Bool
used_before a b = if a.mod_time == b.mod_time then str_lt a.key b.key else ltb a.mod_time b.mod_time

abbrev pub insert_entry : EntryInfo → List EntryInfo → List EntryInfo
insert_entry e [] = e ∷ []
insert_entry e (f ∷ fs) = if used_before f e then f ∷ insert_entry e fs else e ∷ f ∷ fs

abbrev pub sort_entries : List EntryInfo → List EntryInfo
sort_entries [] = []
sort_entries (e ∷ es) = insert_entry e (sort_entries es)

module _ (o : GcOptions) where
  -- `opts.MinAge > 0 && now.Sub(t) < opts.MinAge`; a time in the future is young too.
  abbrev pub is_young : ℕ → Bool
  is_young t = ltb 0 o.min_age && ltb (o.now - t) o.min_age

  -- `remove`
  unfoldable pub remove : Str → BlobInfo → Counter → Gc → Gc
  remove d b c s =
      if is_young b.mod_time
      then record s { res = record s.res { skipped = suc s.res.skipped } }
      else record s {
        res = record (bump c s.res) {
          bytes_freed = s.res.bytes_freed + b.size;
          bytes_after = s.res.bytes_after - b.size;
        };
        blobs = delete d s.blobs;
        removed_blobs =
            if is_name d && not o.dry_run then s.removed_blobs ++ d ∷ [] else s.removed_blobs;
      }

  -- Phase one, over the blobs that were scanned.
  unfoldable pub sweep : Blobs → Gc → Gc
  unfolding remove
  sweep [] s = s
  sweep ((d, b) ∷ bs) s = sweep bs (if is_zero (s.refs d) then remove d b unreferenced s else s)

  -- The inner loop of phase two.
  unfoldable pub release_digest : Str → Gc → Gc
  unfolding remove
  release_digest d s =
      let s' : Gc = record s { refs = update s.refs d (decrement (s.refs d)) } in
      if is_positive (s'.refs d)
      then s'
      else elim (lookup d s'.blobs) [ none ↦ s' | some b ↦ remove d b evicted s' ]

  unfoldable pub release_digests : List Str → Gc → Gc
  unfolding release_digest
  release_digests [] s = s
  release_digests (d ∷ ds) s = release_digests ds (release_digest d s)

  -- An entry is dropped, and then what it alone referred to.
  unfoldable pub evict_entry : EntryInfo → Gc → Gc
  unfolding release_digests
  evict_entry e s = release_digests e.digests (record s {
    res = record s.res { evicted_entry = suc s.res.evicted_entry };
    removed_entries =
        if is_name e.key && not o.dry_run
        then s.removed_entries ++ e.key ∷ []
        else s.removed_entries;
  })

  -- Phase two, over the sorted entries.
  unfoldable pub evict : List EntryInfo → Gc → Gc
  unfolding evict_entry
  evict [] s = s
  evict (e ∷ es) s =
      if leb s.res.bytes_after o.max_bytes
      then s
      else evict es (
          if is_young e.mod_time
          then record s { res = record s.res { skipped = suc s.res.skipped } }
          else evict_entry e s)

  unfoldable pub scan : List EntryInfo → Blobs → Gc
  scan es bs = record {
    res = record {
      entries = length es;
      scanned = length bs;
      bytes_before = total bs;
      unreferenced = 0;
      evicted = 0;
      evicted_entry = 0;
      skipped = 0;
      bytes_freed = 0;
      bytes_after = total bs;
    };
    blobs = bs;
    refs = count_refs es (λ _. pos 0);
    removed_blobs = [];
    removed_entries = [];
  }

  -- `GC`, after the scans
  unfoldable pub gc : List EntryInfo → Blobs → Gc
  unfolding scan sweep evict
  gc es bs =
      let s = sweep bs (scan es bs) in
      if leb o.max_bytes 0 || leb s.res.bytes_after o.max_bytes
      then s
      else evict (sort_entries es) s

-- ===== src/Cache/Gc/Bytes.antt =====
-- internal/cache/gc.go, `GC`: the counters of the result.
use buildforge.Prelude.{
  suc, ◌+◌, ◌≡◌, refl, ap, subst, Str, str_eq, str_eq_iff, str_eq_refl, List, [], ◌∷◌,
  if◌then◌else◌, count, map, decrement, is_positive, is_zero, update, some, Bool-cases,
  Option-cases, inl, inr, arith, All, leb, ◌||◌, length, IsDistinct, count-cons_self, ◌≢◌, ◌∙◌,
}
use buildforge.Cache.Gc.{
  GcOptions, EntryInfo, BlobInfo, Blobs, lookup, delete, total, Gc, Counter, unreferenced, evicted,
  bump, is_young, remove, sweep, release_digest, release_digests, evict_entry, evict, sort_entries,
  scan, gc,
}

-- The bytes and the blobs that are left and those that are gone make up what was scanned.
pub record Balanced (s : Gc) : Type 0 where
  pub bytes : s.res.bytes_freed + s.res.bytes_after ≡ s.res.bytes_before
  pub bytes_left : s.res.bytes_after ≡ total s.blobs
  pub blobs_left : s.res.unreferenced + s.res.evicted + length s.blobs ≡ s.res.scanned

total-delete :
    (d : Str) (bs : Blobs) (b : BlobInfo)
    → lookup d bs ≡ some b
    → total bs ≡ b.size + total (delete d bs)
total-delete d [] b e = cc
total-delete d ((k, c) ∷ bs) b e = elim (Bool-cases (str_eq k d)) [
  | inl y ↦
      let same : c ≡ b = cc (subst (λ z. (if z then some c else lookup d bs) ≡ some b) y e) in
      rw y (ap (λ (x : BlobInfo). x.size + total bs) same)
  | inr y ↦ rw y (
      omega (
        arith,
        total-delete d bs b (subst (λ z. (if z then some c else lookup d bs) ≡ some b) y e),
      ))
]

length-delete :
    (d : Str) (bs : Blobs) (b : BlobInfo)
    → lookup d bs ≡ some b
    → length bs ≡ suc (length (delete d bs))
length-delete d [] b e = cc
length-delete d ((k, c) ∷ bs) b e = elim (Bool-cases (str_eq k d)) [
  | inl y ↦ rw y refl
  | inr y ↦ rw y (
      omega (
        arith,
        length-delete d bs b (subst (λ z. (if z then some c else lookup d bs) ≡ some b) y e),
      ))
]

lookup-delete : (d q : Str) (bs : Blobs) → d ≢ q → lookup q (delete d bs) ≡ lookup q bs
lookup-delete d q [] ne = refl
lookup-delete d q ((k, c) ∷ bs) ne =
    ground (arith, lookup-delete d q bs ne, str_eq_iff k d, str_eq_iff k q)

abbrev names_of : Blobs → List Str
names_of bs = map (λ (p : Str × BlobInfo). p.0) bs

module _ (o : GcOptions) where
  remove-Balanced :
      (d : Str) (b : BlobInfo) (c : Counter) (s : Gc)
      → lookup d s.blobs ≡ some b
      → Balanced s
      → Balanced (remove o d b c s)
  unfolding remove bump
  remove-Balanced d b unreferenced s e v = elim (Bool-cases (is_young o b.mod_time)) [
    | inl y ↦
        rw y (record { bytes = v.bytes; bytes_left = v.bytes_left; blobs_left = v.blobs_left })
    | inr y ↦ rw y (record {
      bytes = omega (arith, v.bytes, v.bytes_left, total-delete d s.blobs b e);
      bytes_left = omega (arith, v.bytes_left, total-delete d s.blobs b e);
      blobs_left = omega (arith, v.blobs_left, length-delete d s.blobs b e);
    })
  ]
  remove-Balanced d b evicted s e v = elim (Bool-cases (is_young o b.mod_time)) [
    | inl y ↦
        rw y (record { bytes = v.bytes; bytes_left = v.bytes_left; blobs_left = v.blobs_left })
    | inr y ↦ rw y (record {
      bytes = omega (arith, v.bytes, v.bytes_left, total-delete d s.blobs b e);
      bytes_left = omega (arith, v.bytes_left, total-delete d s.blobs b e);
      blobs_left = omega (arith, v.blobs_left, length-delete d s.blobs b e);
    })
  ]

  remove-lookup :
      (d q : Str) (b : BlobInfo) (c : Counter) (s : Gc)
      → d ≢ q
      → lookup q (remove o d b c s).blobs ≡ lookup q s.blobs
  unfolding remove
  remove-lookup d q b c s ne = elim (Bool-cases (is_young o b.mod_time)) [
    | inl y ↦ rw (y, remove) refl
    | inr y ↦ rw (y, remove) (lookup-delete d q s.blobs ne)
  ]

  -- Phase one finds each blob that it meets still in the map.
  abbrev Present : Gc → Blobs → Type 0
  Present s bs = All (λ (p : Str × BlobInfo). lookup p.0 s.blobs ≡ some p.1) bs

  Present-remove :
      (d : Str) (b : BlobInfo) (c : Counter) (s : Gc) (bs : Blobs)
      → count d (names_of bs) ≡ 0
      → Present s bs
      → Present (remove o d b c s) bs
  Present-remove d b c s [] z p = tt
  Present-remove d b c s ((k, x) ∷ bs) z p = (
    remove-lookup d k b c s (λ same. ground (arith, str_eq_iff k d)) ∙ p.0,
    Present-remove d b c s bs (omega arith) p.1,
  )

  sweep-Balanced :
      (bs : Blobs) (s : Gc)
      → IsDistinct (names_of bs)
      → Present s bs
      → Balanced s
      → Balanced (sweep o bs s)
  unfolding sweep
  sweep-Balanced [] s u p v = v
  sweep-Balanced ((d, b) ∷ bs) s u p v =
      let u' : IsDistinct (names_of bs) = λ q. omega (arith, u q) in
      elim (Bool-cases (is_zero (s.refs d))) [
        | inl z ↦ rw z (
            sweep-Balanced bs (remove o d b unreferenced s) u'
              (Present-remove d b unreferenced s bs
                (omega (arith, u d, count-cons_self d (names_of bs))) p.1)
              (remove-Balanced d b unreferenced s p.0 v))
        | inr z ↦ rw z (sweep-Balanced bs s u' p.1 v)
      ]

  release_digest-Balanced : (d : Str) (s : Gc) → Balanced s → Balanced (release_digest o d s)
  unfolding release_digest
  release_digest-Balanced d s v =
      let s' : Gc = record s { refs = update s.refs d (decrement (s.refs d)) } in
      let v' : Balanced s' = record {
        bytes = v.bytes;
        bytes_left = v.bytes_left;
        blobs_left = v.blobs_left;
      } in
      elim (Bool-cases (is_positive (s'.refs d))) [
        | inl p ↦ rw p v'
        | inr p ↦ elim (Option-cases (lookup d s.blobs)) [
          | inl e ↦ rw (p, e) v'
          | inr (b, e) ↦ rw (p, e) (remove-Balanced d b evicted s' e v')
        ]
      ]

  release_digests-Balanced :
      (ds : List Str) (s : Gc) → Balanced s → Balanced (release_digests o ds s)
  unfolding release_digests
  release_digests-Balanced [] s v = v
  release_digests-Balanced (d ∷ ds) s v =
      release_digests-Balanced ds (release_digest o d s) (release_digest-Balanced d s v)

  evict-Balanced : (es : List EntryInfo) (s : Gc) → Balanced s → Balanced (evict o es s)
  unfolding evict evict_entry
  evict-Balanced [] s v = v
  evict-Balanced (e ∷ es) s v = elim (Bool-cases (leb s.res.bytes_after o.max_bytes)) [
    | inl fits ↦ rw fits v
    | inr over ↦ elim (Bool-cases (is_young o e.mod_time)) [
      | inl young ↦
          rw (over, young)
            (evict-Balanced es _
              (record { bytes = v.bytes; bytes_left = v.bytes_left; blobs_left = v.blobs_left }))
      | inr old ↦
          rw (over, old)
            (evict-Balanced es _ (
              release_digests-Balanced e.digests _
                (record { bytes = v.bytes; bytes_left = v.bytes_left; blobs_left = v.blobs_left })))
    ]
  ]

found_later :
    (all bs : Blobs) (k : Str) (c : BlobInfo)
    → count k (names_of bs) ≡ 0
    → All (λ (p : Str × BlobInfo). lookup p.0 all ≡ some p.1) bs
    → All (λ (p : Str × BlobInfo). lookup p.0 ((k, c) ∷ all) ≡ some p.1) bs
found_later all [] k c z p = tt
found_later all ((q, x) ∷ bs) k c z p =
    (ground (arith, str_eq_iff k q, str_eq_iff q k), found_later all bs k c (omega arith) p.1)

-- A map finds what stands in it.
found :
    (bs : Blobs)
    → IsDistinct (names_of bs)
    → All (λ (p : Str × BlobInfo). lookup p.0 bs ≡ some p.1) bs
found [] u = tt
found ((k, c) ∷ bs) u = (
  rw str_eq_refl refl,
  found_later bs bs k c (omega (arith, u k, count-cons_self k (names_of bs)))
      (found bs (λ q. omega (arith, u q))),
)

-- The counters of a collection agree with one another and with the blobs, when no blob was scanned
-- twice: the bytes freed and left add up to the bytes that there were, those left are the sizes of
-- the blobs left, and every blob was counted as unreferenced or as evicted, or is left.
pub gc-Balanced :
    (o : GcOptions) (es : List EntryInfo) (bs : Blobs)
    → IsDistinct (map (λ (p : Str × BlobInfo). p.0) bs)
    → Balanced (gc o es bs)
unfolding gc scan
gc-Balanced o es bs u =
    let first : Balanced (sweep o bs (scan o es bs)) =
      sweep-Balanced o bs (scan o es bs) u (found bs u)
        (record { bytes = omega arith; bytes_left = refl; blobs_left = omega arith }) in
    elim (Bool-cases
      (leb o.max_bytes 0 || leb (sweep o bs (scan o es bs)).res.bytes_after o.max_bytes)) [
        | inl stop ↦ rw stop first
        | inr over ↦ rw over (evict-Balanced o (sort_entries es) _ first)
      ]

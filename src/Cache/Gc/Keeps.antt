-- ===== src/Cache/Gc/Keeps.antt =====
-- internal/cache/gc.go, `GC`: the reference counts, which are those of the entries that are left.
use buildforge.Prelude.{
  ℕ, zero, suc, update_self, str_eq_refl, ◌+◌, ◌-◌, ◌≡◌, ◌≤◌, ◌<◌, refl, ap, ◌∙◌, subst, Str,
  str_eq, str_eq_iff, count-cons_self, Str-cases, true, false, List, [], ◌∷◌, if◌then◌else◌, count,
  count-append, In, ℤ, pos, decrement, is_positive, is_zero, update, Bool-cases, Option-cases, inl,
  inr, arith, ◌&&◌, not,
}
use buildforge.Cache.Names.{is_name}
use buildforge.Cache.Gc.{
  GcOptions, EntryInfo, BlobInfo, Blobs, lookup, Gc, Counter, unreferenced, evicted, increment,
  count_digests, count_refs, is_young, remove, sweep, release_digest, release_digests, evict_entry,
}

-- How often the entries refer to `q`.
abbrev pub cited : Str → List EntryInfo → ℕ
cited q [] = 0
cited q (e ∷ es) = count q e.digests + cited q es

zero_of : (n : ℕ) → is_zero (pos n) ≡ true → n ≡ 0
zero_of zero e = refl
zero_of (suc n) e = cc

none_left : (n : ℕ) → is_positive (pos n) ≡ false → n ≡ 0
none_left zero e = refl
none_left (suc n) e = cc

decrement_pos : (n : ℕ) → 0 < n → decrement (pos n) ≡ pos (n - 1)
decrement_pos zero i = absurd (omega arith)
decrement_pos (suc n) i = ap pos (omega arith)

incremented :
    (d q : Str) (refs : Str → ℤ) (n : ℕ)
    → refs q ≡ pos n
    → update refs d (increment (refs d)) q ≡ pos (n + (if str_eq d q then 1 else 0))
incremented d q refs n e = elim (Str-cases d q) [
  | inl same ↦
      let e' : refs d ≡ pos n = rw same e in rw (e', (str_eq_iff d q).1 same) (ap pos (omega arith))
  | inr (_, f) ↦ rw (f, e) (ap pos (omega arith))
]

count_digests-pos :
    (q : Str) (ds : List Str) (refs : Str → ℤ) (n : ℕ)
    → refs q ≡ pos n
    → count_digests ds refs q ≡ pos (n + count q ds)
count_digests-pos q [] refs n e = rw e (ap pos (omega arith))
count_digests-pos q (d ∷ ds) refs n e =
    count_digests-pos q ds (update refs d (increment (refs d))) (n + (if str_eq d q then 1 else 0))
      (incremented d q refs n e)
    ∙ ap pos (omega arith)

pub count_refs-pos :
    (q : Str) (es : List EntryInfo) (refs : Str → ℤ) (n : ℕ)
    → refs q ≡ pos n
    → count_refs es refs q ≡ pos (n + cited q es)
count_refs-pos q [] refs n e = rw e (ap pos (omega arith))
count_refs-pos q (e' ∷ es) refs n e =
    count_refs-pos q es (count_digests e'.digests refs) (n + count q e'.digests)
      (count_digests-pos q e'.digests refs n e)
    ∙ ap pos (omega arith)

-- The counters are `h`, and nothing that is counted was removed.
pub record Held (h : Str → ℕ) (s : Gc) : Type 0 where
  pub counted : (q : Str) → s.refs q ≡ pos (h q)
  pub free : (q : Str) → In q s.removed_blobs → h q ≡ 0

module _ (o : GcOptions) where
  remove-Held :
      (h : Str → ℕ) (d : Str) (b : BlobInfo) (c : Counter) (s : Gc)
      → Held h s
      → h d ≡ 0
      → Held h (remove o d b c s)
  unfolding remove
  remove-Held h d b c s v z = elim (Bool-cases (is_young o b.mod_time)) [
    | inl y ↦ rw y (record { counted = v.counted; free = v.free })
    | inr y ↦ rw y (record {
      counted = v.counted;
      free = λ q. ground (arith, v.free q, count-append q s.removed_blobs (d ∷ []), str_eq_iff d q);
    })
  ]

  remove-entries :
      (d : Str) (b : BlobInfo) (c : Counter) (s : Gc)
      → (remove o d b c s).removed_entries ≡ s.removed_entries
  unfolding remove
  remove-entries d b c s = elim (Bool-cases (is_young o b.mod_time)) [
    | inl y ↦ rw y refl
    | inr y ↦ rw y refl
  ]

  pub sweep-Held : (h : Str → ℕ) (bs : Blobs) (s : Gc) → Held h s → Held h (sweep o bs s)
  unfolding sweep
  sweep-Held h [] s v = v
  sweep-Held h ((d, b) ∷ bs) s v = elim (Bool-cases (is_zero (s.refs d))) [
    | inl z ↦ rw z (
        sweep-Held h bs (remove o d b unreferenced s) (
          remove-Held h d b unreferenced s v
            (zero_of (h d) (subst (λ x. is_zero x ≡ true) (v.counted d) z))))
    | inr z ↦ rw z (sweep-Held h bs s v)
  ]

  pub sweep-entries : (bs : Blobs) (s : Gc) → (sweep o bs s).removed_entries ≡ s.removed_entries
  unfolding sweep
  sweep-entries [] s = refl
  sweep-entries ((d, b) ∷ bs) s = elim (Bool-cases (is_zero (s.refs d))) [
    | inl z ↦
        rw (z, sweep)
          (sweep-entries bs (remove o d b unreferenced s) ∙ remove-entries d b unreferenced s)
    | inr z ↦ rw (z, sweep) (sweep-entries bs s)
  ]

  -- One reference to `d` less.
  abbrev less : (Str → ℕ) → Str → Str → ℕ
  less h d q = h q - (if str_eq d q then 1 else 0)

  decremented :
      (h : Str → ℕ) (d q : Str) (refs : Str → ℤ)
      → ((p : Str) → refs p ≡ pos (h p))
      → 0 < h d
      → update refs d (decrement (refs d)) q ≡ pos (less h d q)
  decremented h d q refs e i = elim (Str-cases d q) [
    | inl same ↦
        subst (λ z. update refs d (decrement (refs d)) z ≡ pos (less h d z)) same
          (update_self refs d (decrement (refs d))
            ∙ ap decrement (e d)
            ∙ decrement_pos (h d) i
            ∙ ap pos (ground (arith, str_eq_refl d)))
    | inr (_, f) ↦ rw (f, e q) (ap pos (omega arith))
  ]

  release_digest-Held :
      (h : Str → ℕ) (d : Str) (s : Gc) → Held h s → 0 < h d → Held (less h d) (release_digest o d s)
  unfolding release_digest
  release_digest-Held h d s v i =
      let s' : Gc = record s { refs = update s.refs d (decrement (s.refs d)) } in
      let v' : Held (less h d) s' = record {
        counted = λ q. decremented h d q s.refs v.counted i;
        free = λ q r. omega (arith, v.free q r);
      } in
      elim (Bool-cases (is_positive (s'.refs d))) [
        | inl p ↦ rw p v'
        | inr p ↦ elim (Option-cases (lookup d s.blobs)) [
          | inl e ↦ rw (p, e) v'
          | inr (b, e) ↦
              rw (p, e)
                (remove-Held (less h d) d b evicted s' v'
                  (none_left (less h d d) (subst (λ x. is_positive x ≡ false) (v'.counted d) p)))
        ]
      ]

  release_digest-entries :
      (d : Str) (s : Gc) → (release_digest o d s).removed_entries ≡ s.removed_entries
  unfolding release_digest
  release_digest-entries d s =
      let s' : Gc = record s { refs = update s.refs d (decrement (s.refs d)) } in
      elim (Bool-cases (is_positive (s'.refs d))) [
        | inl p ↦ rw (p, release_digest) refl
        | inr p ↦ elim (Option-cases (lookup d s.blobs)) [
          | inl e ↦ rw (p, e, release_digest) refl
          | inr (b, e) ↦ rw (p, e, release_digest) (remove-entries d b evicted s')
        ]
      ]

  abbrev less_all : (Str → ℕ) → List Str → Str → ℕ
  less_all h ds q = h q - count q ds

  release_digests-Held :
      (h : Str → ℕ) (ds : List Str) (s : Gc)
      → Held h s
      → ((q : Str) → count q ds ≤ h q)
      → Held (less_all h ds) (release_digests o ds s)
  unfolding release_digests
  release_digests-Held h [] s v k = record {
    counted = λ q. v.counted q ∙ ap pos (omega arith);
    free = λ q r. omega (arith, v.free q r);
  }
  release_digests-Held h (d ∷ ds) s v k =
      let here : 0 < h d = omega (arith, k d, count-cons_self d ds) in
      let t =
        release_digests-Held (less h d) ds (release_digest o d s) (release_digest-Held h d s v here)
          (λ q. omega (arith, k q)) in
      record {
        counted = λ q. t.counted q ∙ ap pos (omega arith);
        free = λ q r. omega (arith, t.free q r);
      }

  release_digests-entries :
      (ds : List Str) (s : Gc) → (release_digests o ds s).removed_entries ≡ s.removed_entries
  unfolding release_digests
  release_digests-entries [] s = refl
  release_digests-entries (d ∷ ds) s =
      release_digests-entries ds (release_digest o d s) ∙ release_digest-entries d s

  -- The entry that the collector drops is recorded.
  pub evict_entry-entries :
      (e : EntryInfo) (s : Gc) (k : Str)
      → count k (evict_entry o e s).removed_entries
        ≡ count k s.removed_entries
          + (if is_name e.key && not o.dry_run then (if str_eq e.key k then 1 else 0) else 0)
  unfolding evict_entry
  evict_entry-entries e s k =
      ap (count k) (release_digests-entries e.digests _)
      ∙ ground (arith, count-append k s.removed_entries (e.key ∷ []))

  pub evict_entry-Held :
      (h : Str → ℕ) (e : EntryInfo) (s : Gc)
      → Held h s
      → ((q : Str) → count q e.digests ≤ h q)
      → Held (λ q. h q - count q e.digests) (evict_entry o e s)
  unfolding evict_entry
  evict_entry-Held h e s v k =
      release_digests-Held h e.digests _ (record { counted = v.counted; free = v.free }) k

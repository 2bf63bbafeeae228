-- ===== src/Cache/Gc/Evicts.antt =====
-- internal/cache/gc.go, `GC`: the entries that are left, and the budget.
use buildforge.Prelude.{
  ℕ, ◌+◌, ◌≡◌, ◌≤◌, ◌<◌, refl, sym, ap, ◌∙◌, subst, Str, Bool, true, false, List, [], ◌∷◌, ◌++◌,
  if◌then◌else◌, count, In, pos, Bool-cases, inl, inr, ◌⊎◌, arith, All, All-imp, ◌↔◌, leb, ◌||◌,
}
use buildforge.Cache.Gc.{
  GcOptions, EntryInfo, Blobs, Gc, used_before, insert_entry, sort_entries, is_young, sweep, evict,
  scan, gc,
}
use buildforge.Cache.Gc.Keeps.{cited, Held, sweep-Held, count_refs-pos}
use buildforge.Cache.Gc.Phases.{Left, Named, cited-All, evict-Kept, evict-Fits}

-- Sorting keeps the entries.
cited-insert :
    (q : Str) (e : EntryInfo) (es : List EntryInfo)
    → cited q (insert_entry e es) ≡ count q e.digests + cited q es
cited-insert q e [] = omega arith
cited-insert q e (f ∷ fs) = ground (arith, cited-insert q e fs)

cited-sort : (q : Str) (es : List EntryInfo) → cited q (sort_entries es) ≡ cited q es
cited-sort q [] = refl
cited-sort q (e ∷ es) = omega (arith, cited-insert q e (sort_entries es), cited-sort q es)

module _ {κ} (P : EntryInfo → Type κ) where
  All-insert : (e : EntryInfo) (es : List EntryInfo) → All P (insert_entry e es) ↔ (P e × All P es)
  All-insert e [] = (λ h. h, λ h. h)
  All-insert e (f ∷ fs) = elim (Bool-cases (used_before f e)) [
    | inl b ↦ rw b (
      λ h. let (a, b) = (All-insert e fs).0 h.1 in (a, (h.0, b)),
      λ h. (h.1.0, (All-insert e fs).1 (h.0, h.1.1)),
    )
    | inr b ↦ rw b (λ h. h, λ h. h)
  ]

  All-sort : (es : List EntryInfo) → All P (sort_entries es) ↔ All P es
  All-sort [] = (λ h. h, λ h. h)
  All-sort (e ∷ es) = (
    λ h. let (a, b) = (All-insert e (sort_entries es)).0 h in (a, (All-sort es).0 b),
    λ h. (All-insert e (sort_entries es)).1 (h.0, (All-sort es).1 h.1),
  )

module _ (o : GcOptions) (es : List EntryInfo) (bs : Blobs) where
  -- The state after phase one.
  abbrev swept : Gc
  swept = sweep o bs (scan o es bs)

  swept-Held : Held (λ q. cited q es) swept
  unfolding scan
  swept-Held =
      sweep-Held o (λ q. cited q es) bs (scan o es bs)
        (record {
          counted = λ q. count_refs-pos q es (λ _. pos 0) 0 refl ∙ ap pos (omega arith);
          free = λ q r. absurd (omega arith);
        })

  abbrev stops : Bool
  stops = leb o.max_bytes 0 || leb swept.res.bytes_after o.max_bytes

  gc-stops : stops ≡ true → gc o es bs ≡ swept
  unfolding gc
  gc-stops h = ap (λ b. if b then swept else evict o (sort_entries es) swept) h

  gc-goes : stops ≡ false → gc o es bs ≡ evict o (sort_entries es) swept
  unfolding gc
  gc-goes h = ap (λ b. if b then swept else evict o (sort_entries es) swept) h

All-middle {ℓ κ} :
    {A : Type ℓ} (P : A → Type κ) (xs ys : List A) (x : A) → All P (xs ++ x ∷ ys) → P x
All-middle P [] ys x h = h.0
All-middle P (y ∷ xs) ys x h = All-middle P xs ys x h.1

-- Every entry that is left is whole.
abbrev Whole : List EntryInfo → Gc → Type 0
Whole es t = All (λ e. Left t e → (q : Str) → In q e.digests → count q t.removed_blobs ≡ 0) es

Held-free : (h : Str → ℕ) (s : Gc) (q : Str) → Held h s → 0 < h q → count q s.removed_blobs ≡ 0
Held-free h s q v i = ground (arith, v.free q)

gc-Whole :
    (o : GcOptions) (es : List EntryInfo) (bs : Blobs)
    → o.dry_run ≡ false
    → All Named es
    → Whole es (gc o es bs)
gc-Whole o es bs wet n = elim (Bool-cases (stops o es bs)) [
  | inl stop ↦ subst (Whole es) (sym (gc-stops o es bs stop)) (
      All-imp es
        (λ e b _ q i.
          Held-free (λ p. cited p es) (swept o es bs) q (swept-Held o es bs) (omega (arith, b q)))
        (cited-All (λ q. cited q es) es (λ q. omega arith)))
  | inr over ↦
      let t =
        evict-Kept o wet (λ q. cited q es) (sort_entries es) (swept o es bs)
          ((All-sort Named es).1 n) (swept-Held o es bs) (λ q. omega (arith, cited-sort q es)) in
      subst (Whole es) (sym (gc-goes o es bs over)) (
        (All-sort _ es).0 (
          All-imp (sort_entries es)
            (λ e b l q i. Held-free t.held _ q t.is_held (omega (arith, b l q))) t.whole))
]

-- A collection that is not a dry run never takes a blob away from an entry that it leaves: when no
-- file under an entry's key was removed, none of the blobs that the entry refers to was. The
-- entries have keys that the store takes.
pub gc-keeps :
    (o : GcOptions) (before after : List EntryInfo) (e : EntryInfo) (bs : Blobs) (q : Str)
    → o.dry_run ≡ false
    → All Named (before ++ e ∷ after)
    → count e.key (gc o (before ++ e ∷ after) bs).removed_entries ≡ 0
    → In q e.digests
    → count q (gc o (before ++ e ∷ after) bs).removed_blobs ≡ 0
gc-keeps o before after e bs q wet n left i =
    All-middle _ before after e (gc-Whole o (before ++ e ∷ after) bs wet n) left q i

-- A collection with a budget that is not a dry run meets the budget, or leaves only entries that
-- are too young to go: those of every other entry are removed. The entries have keys that the store
-- takes.
pub gc-Fits :
    (o : GcOptions) (before after : List EntryInfo) (e : EntryInfo) (bs : Blobs)
    → o.dry_run ≡ false
    → All Named (before ++ e ∷ after)
    → 0 < o.max_bytes
    → ((gc o (before ++ e ∷ after) bs).res.bytes_after ≤ o.max_bytes)
      ⊎ (is_young o e.mod_time ≡ true)
      ⊎ In e.key (gc o (before ++ e ∷ after) bs).removed_entries
gc-Fits o before after e bs wet n budget =
    let es : List EntryInfo = before ++ e ∷ after in
    let s : Gc = swept o es bs in
    let Meets : Gc → Type 0 = λ t.
      (t.res.bytes_after ≤ o.max_bytes)
      ⊎ (is_young o e.mod_time ≡ true)
      ⊎ In e.key t.removed_entries in
    elim (Bool-cases (stops o es bs)) [
      | inl stop ↦ subst Meets (sym (gc-stops o es bs stop)) (inl (ground arith))
      | inr over ↦
          subst Meets (sym (gc-goes o es bs over))
            (elim (evict-Fits o wet (λ q. cited q es) (sort_entries es) s ((All-sort Named es).1 n)
              (swept-Held o es bs) (λ q. omega (arith, cited-sort q es))) [
                | inl fits ↦ inl fits
                | inr young ↦
                    inr (ground (arith, All-middle _ before after e ((All-sort _ es).0 young)))
              ])
    ]

-- ===== src/Cache/Gc/Phases.antt =====
-- internal/cache/gc.go, `GC`: phase two, entry by entry.
use buildforge.Prelude.{
  ℕ, suc, ◌+◌, ◌-◌, ◌≡◌, ◌≤◌, refl, sym, subst, Str, true, false, List, [], ◌∷◌, count, In,
  Bool-cases, inl, inr, ◌⊎◌, arith, All, All-imp, leb, str_eq_refl,
}
use buildforge.Cache.Names.{is_name}
use buildforge.Cache.Gc.{GcOptions, EntryInfo, Gc, is_young, evict_entry, evict}
use buildforge.Cache.Gc.Keeps.{cited, Held, evict_entry-entries, evict_entry-Held}

-- A file with the entry's key was not removed.
abbrev pub Left : Gc → EntryInfo → Type 0
Left t e = count e.key t.removed_entries ≡ 0

abbrev pub Named : EntryInfo → Type 0
Named e = is_name e.key ≡ true

-- After phase two over `es` from counters `h`: `held` counts what the entries that are left refer to.
pub record Kept (h : Str → ℕ) (es : List EntryInfo) (s t : Gc) : Type 0 where
  pub held : Str → ℕ
  pub is_held : Held held t
  pub least : (q : Str) → h q ≤ held q + cited q es
  pub whole : All (λ e. Left t e → (q : Str) → count q e.digests ≤ held q) es
  pub grows : (k : Str) → count k s.removed_entries ≤ count k t.removed_entries

pub cited-All :
    (h : Str → ℕ) (es : List EntryInfo)
    → ((q : Str) → cited q es ≤ h q)
    → All (λ e. (q : Str) → count q e.digests ≤ h q) es
cited-All h [] k = tt
cited-All h (e ∷ es) k = (λ q. omega (arith, k q), cited-All h es (λ q. omega (arith, k q)))

module _ (o : GcOptions) (wet : o.dry_run ≡ false) where
  pub dropped : (e : EntryInfo) (s : Gc) → Named e → In e.key (evict_entry o e s).removed_entries
  dropped e s n = ground (arith, evict_entry-entries o e s e.key, str_eq_refl e.key)

  pub evict-Kept :
      (h : Str → ℕ) (es : List EntryInfo) (s : Gc)
      → All Named es
      → Held h s
      → ((q : Str) → cited q es ≤ h q)
      → Kept h es s (evict o es s)
  unfolding evict
  evict-Kept h [] s n v k = record {
    held = h;
    is_held = v;
    least = λ q. omega arith;
    whole = tt;
    grows = λ q. omega arith;
  }
  evict-Kept h (e ∷ es) s n v k = elim (Bool-cases (leb s.res.bytes_after o.max_bytes)) [
    | inl fits ↦ rw fits (record {
      held = h;
      is_held = v;
      least = λ q. omega arith;
      whole = All-imp (e ∷ es) (λ f b _. b) (cited-All h (e ∷ es) k);
      grows = λ q. omega arith;
    })
    | inr over ↦ elim (Bool-cases (is_young o e.mod_time)) [
      | inl young ↦
          let s' : Gc = record s { res = record s.res { skipped = suc s.res.skipped } } in
          let t =
            evict-Kept h es s' n.1 (record { counted = v.counted; free = v.free })
              (λ q. omega (arith, k q)) in
          rw (over, young)
            (record {
              held = t.held;
              is_held = t.is_held;
              least = λ q. omega (arith, t.least q);
              whole = (λ _ q. omega (arith, k q, t.least q), t.whole);
              grows = t.grows;
            })
      | inr old ↦
          let s' = evict_entry o e s in
          let h' : Str → ℕ = λ q. h q - count q e.digests in
          let t =
            evict-Kept h' es s' n.1 (evict_entry-Held o h e s v (λ q. omega (arith, k q)))
              (λ q. omega (arith, k q)) in
          rw (over, old)
            (record {
              held = t.held;
              is_held = t.is_held;
              least = λ q. omega (arith, t.least q);
              whole =
                  (λ left q. absurd (omega (arith, left, dropped e s n.0, t.grows e.key)), t.whole);
              grows = λ q. omega (arith, t.grows q, evict_entry-entries o e s q);
            })
    ]
  ]

  -- What phase two ends in.
  abbrev pub Fits : List EntryInfo → Gc → Type 0
  Fits es t =
      (t.res.bytes_after ≤ o.max_bytes) ⊎ All (λ e. Left t e → is_young o e.mod_time ≡ true) es

  pub evict_young :
      (e : EntryInfo) (es : List EntryInfo) (s : Gc)
      → leb s.res.bytes_after o.max_bytes ≡ false
      → is_young o e.mod_time ≡ true
      → evict o (e ∷ es) s
        ≡ evict o es (record s { res = record s.res { skipped = suc s.res.skipped } })
  unfolding evict
  evict_young e es s over young = rw (over, young, evict) refl

  pub evict_old :
      (e : EntryInfo) (es : List EntryInfo) (s : Gc)
      → leb s.res.bytes_after o.max_bytes ≡ false
      → is_young o e.mod_time ≡ false
      → evict o (e ∷ es) s ≡ evict o es (evict_entry o e s)
  unfolding evict
  evict_old e es s over old = rw (over, old, evict) refl

  pub evict-Fits :
      (h : Str → ℕ) (es : List EntryInfo) (s : Gc)
      → All Named es
      → Held h s
      → ((q : Str) → cited q es ≤ h q)
      → Fits es (evict o es s)
  unfolding evict
  evict-Fits h [] s n v k = inr tt
  evict-Fits h (e ∷ es) s n v k = elim (Bool-cases (leb s.res.bytes_after o.max_bytes)) [
    | inl fits ↦ rw fits (inl (ground arith))
    | inr over ↦ elim (Bool-cases (is_young o e.mod_time)) [
      | inl young ↦
          let s' : Gc = record s { res = record s.res { skipped = suc s.res.skipped } } in
          let v' : Held h s' = record { counted = v.counted; free = v.free } in
          subst (Fits (e ∷ es)) (sym (evict_young e es s over young))
            (elim (evict-Fits h es s' n.1 v' (λ q. omega (arith, k q))) [
              | inl f ↦ inl f
              | inr f ↦ inr (λ _. young, f)
            ])
      | inr old ↦
          let s' = evict_entry o e s in
          let h' : Str → ℕ = λ q. h q - count q e.digests in
          let v' = evict_entry-Held o h e s v (λ q. omega (arith, k q)) in
          let t = evict-Kept h' es s' n.1 v' (λ q. omega (arith, k q)) in
          subst (Fits (e ∷ es)) (sym (evict_old e es s over old))
            (elim (evict-Fits h' es s' n.1 v' (λ q. omega (arith, k q))) [
              | inl f ↦ inl f
              | inr f ↦
                  inr (λ left. absurd (omega (arith, left, dropped e s n.0, t.grows e.key)), f)
            ])
    ]
  ]

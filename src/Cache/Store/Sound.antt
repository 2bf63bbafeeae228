-- ===== src/Cache/Store/Sound.antt =====
-- internal/cache/store.go: stores in which every blob has the digest that it is filed under.
use buildforge.Prelude.{
  ◌%◌, ℕ, ◌≡◌, refl, sym, ap, ◌∙◌, subst, Str, str_eq_iff, Str-cases, Bool, true, false, List, [],
  ◌∷◌, if◌then◌else◌, update, update_self, update_ne, Option, none, some, ok, err, Bool-cases,
  Option-cases, Result-cases, inl, inr, arith,
}
use buildforge.Cache.Names.{is_name}
use buildforge.Cache.Store.{
  OutputFile, Store, Workspace, bad_name, no_output, has_blob, all_present, put_blob, put_outputs,
  restore, local_path, file_mode,
}

-- No blob of `s` is lost in `t`.
abbrev pub Extends : Store → Store → Type 0
Extends s t = (d : Str) → has_blob d s ≡ true → has_blob d t ≡ true

pub all_present-cons :
    (o : OutputFile) (os : List OutputFile) (s : Store)
    → has_blob o.digest s ≡ true
    → all_present os s ≡ true
    → all_present (o ∷ os) s ≡ true
unfolding all_present
all_present-cons o os s h k = ground arith

pub all_present-Extends :
    (os : List OutputFile) (s t : Store)
    → Extends s t
    → all_present os s ≡ true
    → all_present os t ≡ true
unfolding all_present
all_present-Extends [] s t x h = refl
all_present-Extends (o ∷ os) s t x h = ground (arith, x o.digest, all_present-Extends os s t x)

has_blob-there :
    (d : Str) (b : List ℕ) (s : Store) → is_name d ≡ true → s.cas d ≡ some b → has_blob d s ≡ true
unfolding has_blob
has_blob-there d b s n e = rw (n, e, has_blob) refl

both :
    (n : Bool) (o : Option (List ℕ))
    → (if n then elim o [ none ↦ false | some _ ↦ true ] else false) ≡ true
    → (n ≡ true) × ((b : List ℕ) × (o ≡ some b))
both true none h = cc
both true (some b) h = (refl, (b, refl))
both false o h = cc

pub has_blob-found :
    (d : Str) (s : Store)
    → has_blob d s ≡ true
    → (is_name d ≡ true) × ((b : List ℕ) × (s.cas d ≡ some b))
unfolding has_blob
has_blob-found d s h = both (is_name d) (s.cas d) h

pub put_blob-refused :
    (d : Str) (b : List ℕ) (s : Store) → is_name d ≡ false → put_blob d b s ≡ (s, some (bad_name d))
unfolding put_blob
put_blob-refused d b s n = rw (n, put_blob) refl

pub put_blob-named :
    (d : Str) (b : List ℕ) (s : Store) → is_name d ≡ true → (put_blob d b s).1 ≡ none
unfolding put_blob
put_blob-named d b s n = elim (Option-cases (s.cas d)) [
  | inl absent ↦ rw (n, absent, put_blob) refl
  | inr (c, there) ↦ rw (n, there, put_blob) refl
]

abbrev added : Str → List ℕ → Store → Store
added d b s = record s { cas = update s.cas d (some b) }

added-Extends : (d : Str) (b : List ℕ) (s : Store) → Extends s (added d b s)
added-Extends d b s q h =
    let (n, there) = has_blob-found q s h in
    let (c, e) = there in
    elim (Str-cases d q) [
      | inl same ↦
          has_blob-there q b (added d b s) n
            (subst (λ z. update s.cas d (some b) z ≡ some b) same (update_self s.cas d (some b)))
      | inr (ne, _) ↦ has_blob-there q c (added d b s) n (update_ne s.cas d (some b) q ne ∙ e)
    ]

pub both_present :
    (o : OutputFile) (os : List OutputFile) (s : Store)
    → all_present (o ∷ os) s ≡ true
    → (has_blob o.digest s ≡ true) × (all_present os s ≡ true)
unfolding all_present
both_present o os s h = ground arith

module _ (digest : List ℕ → Str) where
  -- Every blob has the digest that it is filed under.
  abbrev pub IsSound : Store → Type 0
  IsSound s = (d : Str) (b : List ℕ) → s.cas d ≡ some b → digest b ≡ d

  added-IsSound :
      (d : Str) (b : List ℕ) (s : Store) → IsSound s → digest b ≡ d → IsSound (added d b s)
  added-IsSound d b s v e q c f = elim (Str-cases d q) [
    | inl same ↦
        let eq : some b ≡ some c =
          sym (update_self s.cas d (some b)) ∙ ap (update s.cas d (some b)) same ∙ f in
        let bytes : b ≡ c = cc eq in sym (ap digest bytes) ∙ e ∙ same
    | inr (ne, _) ↦ v q c (sym (update_ne s.cas d (some b) q ne) ∙ f)
  ]

  -- What a successful `put_blob` leaves.
  pub record Stored (d : Str) (s t : Store) : Type 0 where
    pub sound : IsSound t
    pub present : has_blob d t ≡ true
    pub extends : Extends s t

  pub put_blob-Stored :
      (d : Str) (b : List ℕ) (s : Store)
      → IsSound s
      → digest b ≡ d
      → (put_blob d b s).1 ≡ none
      → Stored d s (put_blob d b s).0
  unfolding put_blob has_blob
  put_blob-Stored d b s v e h = elim (Bool-cases (is_name d)) [
    | inl n ↦ elim (Option-cases (s.cas d)) [
      | inl absent ↦
          rw (n, absent)
            (record {
              sound = added-IsSound d b s v e;
              present = has_blob-there d b (added d b s) n (update_self s.cas d (some b));
              extends = added-Extends d b s;
            })
      | inr (c, there) ↦
          rw (n, there)
            (record { sound = v; present = rw (n, there, has_blob) refl; extends = λ q f. f })
    ]
    | inr n ↦ cc (h, ap (λ x. x.1) (put_blob-refused d b s n))
  ]

  -- What a store holds in full, it restores.
  pub restore-ok :
      (os : List OutputFile) (s : Store) (ws : Workspace)
      → IsSound s
      → all_present os s ≡ true
      → (restore digest os s ws).1 ≡ ok tt
  unfolding restore all_present
  restore-ok [] s ws v h = refl
  restore-ok (o ∷ os) s ws v h =
      let (here, rest) = both_present o os s h in
      let (n, there) = has_blob-found o.digest s here in
      let (b, e) = there in
      rw (n, e, (str_eq_iff (digest b) o.digest).1 (v o.digest b e))
        (restore-ok os s
          (update ws (local_path o.path) (some (record { content = b; perm = file_mode o.mode }))) v
          rest)

  -- What `put_outputs` leaves when it succeeds.
  pub record Listed (os : List OutputFile) (s t : Store) : Type 0 where
    pub sound : IsSound t
    pub present : all_present os t ≡ true
    pub extends : Extends s t

  pub put_outputs-Listed :
      (ws : Workspace) (rels : List Str) (s : Store) (os : List OutputFile)
      → IsSound s
      → (put_outputs digest ws rels s).1 ≡ ok os
      → Listed os s (put_outputs digest ws rels s).0
  unfolding put_outputs
  put_outputs-Listed ws [] s [] v h = record {
    sound = v;
    present = unfold all_present in refl;
    extends = λ d f. f;
  }
  put_outputs-Listed ws [] s (o ∷ os) v h = cc
  put_outputs-Listed ws (rel ∷ rels) s os v h = elim (Option-cases (ws rel)) [
    | inl missing ↦
        let eq : put_outputs digest ws (rel ∷ rels) s ≡ (s, err (no_output rel)) =
          rw (missing, put_outputs) refl in
        absurd (cc (h, ap (λ x. x.1) eq))
    | inr (f, e) ↦
        let p = put_blob (digest f.content) f.content s in
        let q = put_outputs digest ws rels p.0 in
        let o : OutputFile = record {
          path = rel;
          digest = digest f.content;
          mode = f.perm % 512;
        } in
        elim (Option-cases p.1) [
          | inr (x, failed) ↦
              let eq : put_outputs digest ws (rel ∷ rels) s ≡ (p.0, err x) =
                rw (e, failed, put_outputs) refl in
              absurd (cc (h, ap (λ y. y.1) eq))
          | inl stored ↦ elim (Result-cases q.1) [
            | inr (x, failed) ↦
                let eq : put_outputs digest ws (rel ∷ rels) s ≡ (q.0, err x) =
                  rw (e, stored, failed, put_outputs) refl in
                absurd (cc (h, ap (λ y. y.1) eq))
            | inl (rest, done) ↦
                let eq : put_outputs digest ws (rel ∷ rels) s ≡ (q.0, ok (o ∷ rest)) =
                  rw (e, stored, done, put_outputs) refl in
                let same : o ∷ rest ≡ os = cc (h, ap (λ y. y.1) eq) in
                let b = put_blob-Stored (digest f.content) f.content s v refl stored in
                let t = put_outputs-Listed ws rels p.0 rest b.sound done in
                subst (λ z. Listed os s z.0) (sym eq)
                  (subst (λ z. Listed z s q.0) same
                    (record {
                      sound = t.sound;
                      present =
                          all_present-cons o rest q.0 (t.extends o.digest b.present) t.present;
                      extends = λ d x. t.extends d (b.extends d x);
                    }))
          ]
        ]
  ]

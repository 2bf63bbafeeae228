-- ===== src/Remote/Tiered/Fetches.antt =====
-- internal/remote/tiered.go, `Lookup`: what its loop over the outputs leaves in the local store.
use buildforge.Prelude.{
  ℕ, ◌≡◌, refl, sym, subst, Str, str_eq, str_eq_iff, Bool, true, List, [], ◌∷◌, Option, none, some,
  Bool-cases, Option-cases, Result-cases, inl, inr,
}
use buildforge.Cache.Names.{is_name}
use buildforge.Cache.Store.{
  OutputFile, Store, StoreError, wrong_digest, bad_name, has_blob, all_present, put_blob,
  write_blob,
}
use buildforge.Cache.Store.Sound.{
  IsSound, Stored, put_blob-Stored, put_blob-refused, put_blob-named, Extends, all_present-cons,
}
use buildforge.Remote.Tiered.{Client, Tiered, error, download, fetch}

-- What one step towards the local store leaves, with the error that it returns.
pub record Gets (digest : List ℕ → Str) (d : Str) (s : Store) (r : Store × Option StoreError)
    : Type 0 where
  pub sound : IsSound digest r.0
  pub stored : r.1 ≡ none → Stored digest d s r.0

module _ (digest : List ℕ → Str) where
  pub refused-Gets :
      (d : Str) (s : Store) (x : StoreError) → IsSound digest s → Gets digest d s (s, some x)
  refused-Gets d s x v = record { sound = v; stored = λ h. cc }

  pub put_blob-Gets :
      (d : Str) (b : List ℕ) (s : Store)
      → IsSound digest s
      → digest b ≡ d
      → Gets digest d s (put_blob d b s)
  put_blob-Gets d b s v e = elim (Bool-cases (is_name d)) [
    | inl n ↦
        let done : (put_blob d b s).1 ≡ none = put_blob-named d b s n in
        let t = put_blob-Stored digest d b s v e done in record { sound = t.sound; stored = λ _. t }
    | inr n ↦
        subst (Gets digest d s) (sym (put_blob-refused d b s n)) (refused-Gets d s (bad_name d) v)
  ]

  pub write_blob-Gets :
      (d : Str) (b : List ℕ) (s : Store)
      → IsSound digest s
      → Gets digest d s (write_blob digest d b s)
  unfolding write_blob
  write_blob-Gets d b s v = elim (Bool-cases (str_eq (digest b) d)) [
    | inl same ↦ rw same (put_blob-Gets d b s v ((str_eq_iff (digest b) d).0 same))
    | inr other ↦ rw other (refused-Gets d s wrong_digest v)
  ]

-- A step of `fetch`, which may stop it.
pub record Downloads {W : Type 0} (digest : List ℕ → Str) (d : Str) (s : Store)
    (r : Tiered W × Bool) : Type 0 where
  pub sound : IsSound digest r.0.local
  pub stored : r.1 ≡ true → Stored digest d s r.0.local

-- The loop over the outputs.
pub record Fetched {W : Type 0} (digest : List ℕ → Str) (os : List OutputFile) (s : Store)
    (r : Tiered W × Bool) : Type 0 where
  pub sound : IsSound digest r.0.local
  pub extends : r.1 ≡ true → Extends s r.0.local
  pub present : r.1 ≡ true → all_present os r.0.local ≡ true

module _ {W X : Type 0} (digest : List ℕ → Str) where
  pub download-Downloads :
      (c : Client W X) (o : OutputFile) (t : Tiered W)
      → IsSound digest t.local
      → Downloads digest o.digest t.local (download digest c o t)
  unfolding download error
  download-Downloads c o t v =
      let r = (c.get_blob t.world o.digest).1 in
      elim (Result-cases r) [
        | inr (x, failed) ↦ rw (failed, download) (record { sound = v; stored = λ h. cc })
        | inl (found, answered) ↦ elim (Option-cases found) [
          | inl missing ↦ rw (answered, missing, download) (record { sound = v; stored = λ h. cc })
          | inr (b, there) ↦
              let g = write_blob-Gets digest o.digest b t.local v in
              elim (Option-cases (write_blob digest o.digest b t.local).1) [
                | inl done ↦
                    rw (answered, there, done, download)
                      (record { sound = g.sound; stored = λ _. g.stored done })
                | inr (x, failed) ↦
                    rw (answered, there, failed, download)
                      (record { sound = g.sound; stored = λ h. cc })
              ]
        ]
      ]

  pub fetch-Fetched :
      (c : Client W X) (os : List OutputFile) (t : Tiered W)
      → IsSound digest t.local
      → Fetched digest os t.local (fetch digest c os t)
  unfolding fetch
  fetch-Fetched c [] t v = record {
    sound = v;
    extends = λ _ d h. h;
    present = λ _. unfold all_present in refl;
  }
  fetch-Fetched c (o ∷ os) t v = elim (Bool-cases (has_blob o.digest t.local)) [
    | inl here ↦
        let f = fetch-Fetched c os t v in
        rw here (record {
          sound = f.sound;
          extends = f.extends;
          present = λ h. all_present-cons o os _ (f.extends h o.digest here) (f.present h);
        })
    | inr absent ↦
        let g = download-Downloads c o t v in
        elim (Bool-cases (download digest c o t).1) [
          | inr failed ↦
              rw (absent, failed) (record { sound = g.sound; extends = λ h. cc; present = λ h. cc })
          | inl got ↦
              let f = fetch-Fetched c os (download digest c o t).0 g.sound in
              let b = g.stored got in
              rw (absent, got)
                (record {
                  sound = f.sound;
                  extends = λ h d x. f.extends h d (b.extends d x);
                  present =
                      λ h. all_present-cons o os _ (f.extends h o.digest b.present) (f.present h);
                })
        ]
  ]

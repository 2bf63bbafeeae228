-- ===== src/Cache/Store/RoundTrip.antt =====
-- internal/cache/store.go: `Put` followed by `Restore` into any workspace.
use buildforge.Prelude.{
  ℕ, ◌%◌, ◌≡◌, ◌<◌, refl, sym, ap, ◌∙◌, subst, Str, str_eq_iff, Str-cases, List, [], ◌∷◌, All, true,
  In, count, count-cons_self, update, update_self, update_ne, none, some, ok, err, Bool-cases,
  Option-cases, Result-cases, inl, inr, arith, ◌==◌,
}
use buildforge.Manifest.{check_path, path_clean}
use buildforge.Manifest.Contained.{check_path-Passed}
use buildforge.Cache.Names.{is_name}
use buildforge.Cache.Store.{
  OutputFile, Entry, Store, File, Workspace, PutResult, no_output, bad_name, all_present, lookup,
  put_blob, put_outputs, compare_previous, put, restore, local_path, file_mode,
}
use buildforge.Cache.Store.Sound.{IsSound, both_present, has_blob-found}
use buildforge.Cache.Store.Restores.{
  put-lookup, lookup-present, put_entry-refused, put_entry-named, recorded_entry,
}

local_path-same : (p : Str) → check_path p ≡ none → local_path p ≡ p
unfolding local_path path_clean
local_path-same p h =
    let v = check_path-Passed p h in
    let clean : path_clean p ≡ local_path p = rw (v.relative, path_clean, local_path) refl in
    sym clean ∙ sym v.canonical

file_mode-small : (m : ℕ) → m < 512 → file_mode m ≡ m
unfolding file_mode
file_mode-small m l = ground arith

module _ (digest : List ℕ → Str) where
  -- The outputs are those that `Put` records for the files at the paths.
  abbrev Recorded : Workspace → List Str → List OutputFile → Type 0
  Recorded ws [] [] = Unit
  Recorded ws [] (o ∷ os) = ⊥
  Recorded ws (rel ∷ rels) [] = ⊥
  Recorded ws (rel ∷ rels) (o ∷ os) =
      ((f : File) × (ws rel ≡ some f)
        × (o ≡ record { path = rel; digest = digest f.content; mode = f.perm % 512 }))
      × Recorded ws rels os

  put_outputs-Recorded :
      (ws : Workspace) (rels : List Str) (s : Store) (os : List OutputFile)
      → (put_outputs digest ws rels s).1 ≡ ok os
      → Recorded ws rels os
  unfolding put_outputs
  put_outputs-Recorded ws [] s [] h = tt
  put_outputs-Recorded ws [] s (o ∷ os) h = cc
  put_outputs-Recorded ws (rel ∷ rels) s os h = elim (Option-cases (ws rel)) [
    | inl missing ↦
        let eq : put_outputs digest ws (rel ∷ rels) s ≡ (s, err (no_output rel)) =
          rw (missing, put_outputs) refl in
        absurd (cc (h, ap (λ x. x.1) eq))
    | inr (f, e) ↦
        let p = put_blob (digest f.content) f.content s in
        let q = put_outputs digest ws rels p.0 in
        let o : OutputFile = record {
          path = rel;
          digest = digest f.content;
          mode = f.perm % 512;
        } in
        elim (Option-cases p.1) [
          | inr (x, failed) ↦
              let eq : put_outputs digest ws (rel ∷ rels) s ≡ (p.0, err x) =
                rw (e, failed, put_outputs) refl in
              absurd (cc (h, ap (λ y. y.1) eq))
          | inl stored ↦ elim (Result-cases q.1) [
            | inr (x, failed) ↦
                let eq : put_outputs digest ws (rel ∷ rels) s ≡ (q.0, err x) =
                  rw (e, stored, failed, put_outputs) refl in
                absurd (cc (h, ap (λ y. y.1) eq))
            | inl (rest, done) ↦
                let eq : put_outputs digest ws (rel ∷ rels) s ≡ (q.0, ok (o ∷ rest)) =
                  rw (e, stored, done, put_outputs) refl in
                let same : o ∷ rest ≡ os = cc (h, ap (λ y. y.1) eq) in
                subst (Recorded ws (rel ∷ rels)) same
                  ((f, e, refl), put_outputs-Recorded ws rels p.0 rest done)
          ]
        ]
  ]

  put-Recorded :
      (key : Str) (ws : Workspace) (rels : List Str) (s : Store) (r : PutResult)
      → (put digest key ws rels s).1 ≡ ok r
      → Recorded ws rels r.stored.outputs
  unfolding put
  put-Recorded key ws rels s r h =
      let q = put_outputs digest ws rels s in
      elim (Result-cases q.1) [
        | inr (x, failed) ↦
            let eq : put digest key ws rels s ≡ (q.0, err x) = rw (failed, put) refl in
            absurd (cc (h, ap (λ y. y.1) eq))
        | inl (os, done) ↦
            let e : Entry = record { key = key; outputs = os } in
            elim (Bool-cases (is_name key)) [
              | inr bad ↦
                  let eq : put digest key ws rels s ≡ (q.0, err (bad_name key)) =
                    rw (done, put_entry-refused e q.0 bad, put)
                      (ap (λ x. (x.0, err (bad_name key))) (put_entry-refused e q.0 bad)) in
                  absurd (cc (h, ap (λ y. y.1) eq))
              | inl n ↦
                  let p : PutResult = record {
                    stored = e;
                    nondeterministic = compare_previous key os q.0;
                  } in
                  let eq : put digest key ws rels s ≡ (recorded_entry e q.0, ok p) =
                    rw (done, put_entry-named e q.0 n, put)
                      (ap (λ x. (x.0, ok p)) (put_entry-named e q.0 n)) in
                  let same : p ≡ r = cc (h, ap (λ y. y.1) eq) in
                  subst (λ z. Recorded ws rels z.stored.outputs) same
                    (put_outputs-Recorded ws rels s os done)
            ]
      ]

  -- A file of the first workspace is there in the second: the same digest and permissions.
  pub record IsCopy (ws ws' : Workspace) (q : Str) : Type 0 where
    pub file : File
    pub copy : File
    pub found : ws q ≡ some file
    pub restored : ws' q ≡ some copy
    pub same_digest : digest copy.content ≡ digest file.content
    pub same_mode : copy.perm ≡ file.perm % 512

  pub record Restored (ws elsewhere ws' : Workspace) (rels : List Str) : Type 0 where
    pub copies : (q : Str) → In q rels → IsCopy ws ws' q
    pub others : (q : Str) → count q rels ≡ 0 → ws' q ≡ elsewhere q

  -- One output is restored, and then the others.
  Restored-cons :
      (ws elsewhere ws' : Workspace) (rel : Str) (rels : List Str) (f f' : File)
      → ws rel ≡ some f
      → digest f'.content ≡ digest f.content
      → f'.perm ≡ f.perm % 512
      → Restored ws (update elsewhere rel (some f')) ws' rels
      → Restored ws elsewhere ws' (rel ∷ rels)
  Restored-cons ws elsewhere ws' rel rels f f' e d m t = record {
    copies = λ q i. elim (Bool-cases (count q rels == 0)) [
      | inr later ↦ t.copies q (ground arith)
      | inl last ↦ elim (Str-cases rel q) [
        | inr (_, other) ↦ absurd (ground arith)
        | inl same ↦ subst (IsCopy ws ws') same (record {
          file = f;
          copy = f';
          found = e;
          restored =
              t.others rel (subst (λ z. count z rels ≡ 0) (sym same) (ground arith))
              ∙ update_self elsewhere rel (some f');
          same_digest = d;
          same_mode = m;
        })
      ]
    ];
    others = λ q z. elim (Str-cases rel q) [
      | inl same ↦ absurd (
          omega
            (arith, subst (λ y. count y (rel ∷ rels) ≡ 0) (sym same) z, count-cons_self rel rels))
      | inr (ne, _) ↦ t.others q (omega arith) ∙ update_ne elsewhere rel (some f') q ne
    ];
  }

  restore-Restored :
      (ws : Workspace) (rels : List Str) (os : List OutputFile) (s : Store) (elsewhere : Workspace)
      → IsSound digest s
      → All (λ p. check_path p ≡ none) rels
      → Recorded ws rels os
      → all_present os s ≡ true
      → Restored ws elsewhere (restore digest os s elsewhere).0 rels
  unfolding restore
  restore-Restored ws [] [] s elsewhere v c h k = record {
    copies = λ q i. absurd (omega arith);
    others = λ q z. refl;
  }
  restore-Restored ws [] (o ∷ os) s elsewhere v c h k = absurd h
  restore-Restored ws (rel ∷ rels) [] s elsewhere v c h k = absurd h
  restore-Restored ws (rel ∷ rels) (o ∷ os) s elsewhere v c ((f, e, same), h) k =
      let (here, rest) = both_present o os s k in
      let (n, there) = has_blob-found o.digest s here in
      let (b, found) = there in
      let sound = v o.digest b found in
      let mode : file_mode o.mode ≡ f.perm % 512 =
        ap (λ x. file_mode x.mode) same ∙ file_mode-small (f.perm % 512) (omega arith) in
      let path : local_path o.path ≡ rel =
        ap (λ x. local_path x.path) same ∙ local_path-same rel c.0 in
      let f' : File = record { content = b; perm = file_mode o.mode } in
      rw (n, found, (str_eq_iff (digest b) o.digest).1 sound, path, restore)
        (Restored-cons ws elsewhere _ rel rels f f' e (sound ∙ ap (λ x. x.digest) same) mode
          (restore-Restored ws rels os s (update elsewhere rel (some f')) v c.1 h rest))

-- When `Put` succeeds on a store in which every blob has the digest that it is filed under, for paths
-- that `checkPaths` passes, then `Lookup` finds the entry that it returned, `Restore` of that entry
-- succeeds in every workspace and leaves, at each of the paths, a file with the digest and with the
-- permission bits of the file that was put, and no other path changes; every blob of the store still
-- has its digest.
pub put-restore :
    (digest : List ℕ → Str) (key : Str) (ws : Workspace) (rels : List Str) (s : Store)
    (r : PutResult) (elsewhere : Workspace)
    → IsSound digest s
    → All (λ p. check_path p ≡ none) rels
    → (put digest key ws rels s).1 ≡ ok r
    → (lookup key (put digest key ws rels s).0 ≡ ok (some r.stored))
      × ((restore digest r.stored.outputs (put digest key ws rels s).0 elsewhere).1 ≡ ok tt)
      × Restored digest ws elsewhere
          (restore digest r.stored.outputs (put digest key ws rels s).0 elsewhere).0
          rels
      × IsSound digest (put digest key ws rels s).0
put-restore digest key ws rels s r elsewhere v c h =
    let (found, restores, sound) = put-lookup digest key ws rels s r elsewhere v h in
    let after = (put digest key ws rels s).0 in
    (
      found,
      restores,
      restore-Restored digest ws rels r.stored.outputs after elsewhere sound c
          (put-Recorded digest key ws rels s r h) (lookup-present key after r.stored found),
      sound,
    )

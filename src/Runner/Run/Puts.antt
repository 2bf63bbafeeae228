-- ===== src/Runner/Run/Puts.antt =====
-- internal/cache/store.go, `Put`, on outputs that are all in the workspace.
use buildforge.Prelude.{
  ◌%◌, ℕ, ◌≡◌, refl, sym, ap, ◌∙◌, Str, true, List, [], ◌∷◌, none, some, ok, Option-cases, inl, inr,
}
use buildforge.Cache.Names.{is_name}
use buildforge.Cache.Store.{
  OutputFile, Entry, Workspace, Store, PutResult, put, put_outputs, put_blob, compare_previous,
}
use buildforge.Cache.Store.Sound.{put_blob-named}
use buildforge.Cache.Store.Restores.{put_entry-named}
use buildforge.Runner.Run.{first_missing}

module _ (digest : List ℕ → Str) (hex : (b : List ℕ) → is_name (digest b) ≡ true) where
  pub put_outputs-total :
      (ws : Workspace) (rels : List Str) (s : Store)
      → first_missing rels ws ≡ none
      → (os : List OutputFile) × ((put_outputs digest ws rels s).1 ≡ ok os)
  unfolding put_outputs first_missing
  put_outputs-total ws [] s h = ([], refl)
  put_outputs-total ws (rel ∷ rels) s h = elim (Option-cases (ws rel)) [
    | inl lost ↦
        let eq : first_missing (rel ∷ rels) ws ≡ some rel = rw (lost, first_missing) refl in
        absurd (cc (h, eq))
    | inr (f, there) ↦
        let eq : first_missing (rel ∷ rels) ws ≡ first_missing rels ws =
          rw (there, first_missing) refl in
        let p = put_blob (digest f.content) f.content s in
        let (os, done) = put_outputs-total ws rels p.0 (sym eq ∙ h) in
        let stored = put_blob-named (digest f.content) f.content s (hex f.content) in
        (
          record { path = rel; digest = digest f.content; mode = f.perm % 512 } ∷ os,
          rw (there, stored, done, put_outputs) refl,
        )
  ]

  -- `Put` succeeds where all outputs are there.
  pub put-total :
      (key : Str) (ws : Workspace) (rels : List Str) (s : Store)
      → is_name key ≡ true
      → first_missing rels ws ≡ none
      → (p : PutResult) × ((put digest key ws rels s).1 ≡ ok p)
  unfolding put
  put-total key ws rels s n h =
      let (os, done) = put_outputs-total ws rels s h in
      let q = put_outputs digest ws rels s in
      let e : Entry = record { key = key; outputs = os } in
      (
        record { stored = e; nondeterministic = compare_previous key os q.0 },
        rw (done, put_entry-named e q.0 n, put)
            (ap (λ x. ok (record { stored = e; nondeterministic = compare_previous key os q.0 }))
              (put_entry-named e q.0 n)),
      )

-- ===== src/Remote/Tiered/Uploads.antt =====
-- internal/remote/tiered.go, `Put`: the local store, and the uploads that follow.
use buildforge.Prelude.{
  ℕ, ◌≡◌, refl, Str, List, [], ◌∷◌, Option, none, some, Bool-cases, Option-cases, Result-cases, inl,
  inr,
}
use buildforge.Cache.Store.{OutputFile, Entry, Workspace, put, read_blob}
use buildforge.Remote.Tiered.{Client, Tiered, error, upload, upload_blobs, publish, put_tiered}

module _ {W X : Type 0} (digest : List ℕ → Str) where
  upload_blobs-local :
      (c : Client W X) (os : List OutputFile) (t : Tiered W)
      → (upload_blobs digest c os t).0.local ≡ t.local
  unfolding upload_blobs error
  upload_blobs-local c [] t = refl
  upload_blobs-local c (o ∷ os) t = elim (Result-cases (read_blob digest o.digest t.local)) [
    | inr (x, e) ↦ rw (e, upload_blobs) refl
    | inl (b, e) ↦
        let r = c.put_remote_blob t.world o.digest b in
        elim (Option-cases r.1) [
          | inr (x, failed) ↦ rw (e, failed, upload_blobs) refl
          | inl done ↦
              rw (e, done, upload_blobs) (upload_blobs-local c os (record t { world = r.0 }))
        ]
  ]

  publish-local :
      (c : Client W X) (e : Entry) (t : Tiered W) → (publish digest c e t).local ≡ t.local
  unfolding publish error upload
  publish-local c e t =
      let p = upload_blobs digest c e.outputs t in
      let r = c.put_remote_entry p.0.world e in
      elim (Bool-cases p.1) [
        | inr stopped ↦ rw (stopped, publish) (upload_blobs-local c e.outputs t)
        | inl all ↦ elim (Option-cases r.1) [
          | inr (x, failed) ↦ rw (all, failed, publish) (upload_blobs-local c e.outputs t)
          | inl done ↦ rw (all, done, publish) (upload_blobs-local c e.outputs t)
        ]
      ]

-- `Put` returns what the local store's `Put` returns and leaves the local store as that does,
-- whatever the server answers to the uploads and whether or not there is one.
pub put_tiered-put :
    {W X : Type 0} (digest : List ℕ → Str) (client : Option (Client W X)) (key : Str)
    (ws : Workspace) (rels : List Str) (t : Tiered W)
    → ((put_tiered digest client key ws rels t).1 ≡ (put digest key ws rels t.local).1)
      × ((put_tiered digest client key ws rels t).0.local ≡ (put digest key ws rels t.local).0)
unfolding put_tiered
put_tiered-put digest none key ws rels t = elim (Result-cases (put digest key ws rels t.local).1) [
  | inr (x, e) ↦ rw (e, put_tiered) (refl, refl)
  | inl (p, e) ↦ rw (e, put_tiered) (refl, refl)
]
put_tiered-put digest (some c) key ws rels t =
    let q = put digest key ws rels t.local in
    elim (Result-cases q.1) [
      | inr (x, e) ↦ rw (e, put_tiered) (refl, refl)
      | inl (p, e) ↦
          rw (e, put_tiered) (refl, publish-local digest c p.stored (record t { local = q.0 }))
    ]

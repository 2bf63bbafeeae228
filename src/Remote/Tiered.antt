-- ===== src/Remote/Tiered.antt =====
-- internal/remote/tiered.go: a local store before a cache server. The client is a parameter: its
-- requests, on a state of the world `W`, with any answer or error of type `X`.
pub mod Fetches
pub mod Usable
pub mod Uploads
use buildforge.Prelude.{
  ℕ, suc, Str, Bool, true, false, List, [], ◌∷◌, if◌then◌else◌, Option, none, some, Result, ok, err,
}
use buildforge.Cache.Store.{
  OutputFile, Entry, Store, Workspace, StoreError, PutResult, has_blob, lookup, put, put_entry,
  read_blob, write_blob,
}

pub record Stats : Type 0 where
  pub local_hits : ℕ
  pub remote_hits : ℕ
  pub misses : ℕ
  pub uploads : ℕ
  pub errors : ℕ

-- The methods of the client that are called here; an answer of `none` is a 404.
pub record Client (W X : Type 0) : Type 0 where
  pub get_entry : W → Str → W × Result X (Option Entry)
  pub get_blob : W → Str → W × Result X (Option (List ℕ))
  pub put_remote_blob : W → Str → List ℕ → W × Option X
  pub put_remote_entry : W → Entry → W × Option X

pub record Tiered (W : Type 0) : Type 0 where
  pub local : Store
  pub world : W
  pub stats : Stats

module _ {W : Type 0} where
  unfoldable pub hit_local : Tiered W → Tiered W
  hit_local t = record t { stats = record t.stats { local_hits = suc t.stats.local_hits } }

  unfoldable pub hit_remote : Tiered W → Tiered W
  hit_remote t = record t { stats = record t.stats { remote_hits = suc t.stats.remote_hits } }

  unfoldable pub miss : Tiered W → Tiered W
  miss t = record t { stats = record t.stats { misses = suc t.stats.misses } }

  unfoldable pub upload : Tiered W → Tiered W
  upload t = record t { stats = record t.stats { uploads = suc t.stats.uploads } }

  unfoldable pub error : Tiered W → Tiered W
  error t = record t { stats = record t.stats { errors = suc t.stats.errors } }

  -- What follows the loop of `Lookup`.
  unfoldable pub install : Entry → Tiered W → Tiered W × Result StoreError (Option Entry)
  unfolding error hit_remote
  install e t =
      let (s, failure) = put_entry e t.local in
      let t' : Tiered W = record t { local = s } in
      elim failure [ some _ ↦ (error t', ok none) | none ↦ (hit_remote t', ok (some e)) ]

module _ {W X : Type 0} (digest : List ℕ → Str) where
  -- One output that the local store lacks.
  unfoldable pub download : Client W X → OutputFile → Tiered W → Tiered W × Bool
  unfolding error
  download c o t =
      let (w, r) = c.get_blob t.world o.digest in
      let t' : Tiered W = record t { world = w } in
      elim r [
        | err _ ↦ (error t', false)
        | ok none ↦ (error t', false)
        | ok (some b) ↦
            let (s, failure) = write_blob digest o.digest b t'.local in
            let t'' : Tiered W = record t' { local = s } in
            elim failure [ some _ ↦ (error t'', false) | none ↦ (t'', true) ]
      ]

  -- The loop of `Lookup` over the outputs; `false` is an early return of a miss.
  unfoldable pub fetch : Client W X → List OutputFile → Tiered W → Tiered W × Bool
  unfolding download
  fetch c [] t = (t, true)
  fetch c (o ∷ os) t =
      if has_blob o.digest t.local
      then fetch c os t
      else let (t', got) = download c o t in elim got [ true ↦ fetch c os t' | false ↦ (t', false) ]

  -- `Lookup`, where the local store has nothing.
  unfoldable pub lookup_remote :
      Client W X → Str → Tiered W → Tiered W × Result StoreError (Option Entry)
  unfolding fetch install error miss
  lookup_remote c key t =
      let (w, r) = c.get_entry t.world key in
      let t' : Tiered W = record t { world = w } in
      elim r [
        | err _ ↦ (error t', ok none)
        | ok none ↦ (miss t', ok none)
        | ok (some e) ↦
            let (t'', all) = fetch c e.outputs t' in
            elim all [ true ↦ install e t'' | false ↦ (t'', ok none) ]
      ]

  -- `Lookup`; without a client it is a local cache.
  unfoldable pub lookup_tiered :
      Option (Client W X) → Str → Tiered W → Tiered W × Result StoreError (Option Entry)
  unfolding lookup_remote hit_local miss
  lookup_tiered client key t =
      let missed : Tiered W × Result StoreError (Option Entry) = elim client [
        | none ↦ (miss t, ok none)
        | some c ↦ lookup_remote c key t
      ] in
      elim (lookup key t.local) [
        | err _ ↦ missed
        | ok none ↦ missed
        | ok (some e) ↦ (hit_local t, ok (some e))
      ]

  -- The loop of `Put` over the outputs.
  unfoldable pub upload_blobs : Client W X → List OutputFile → Tiered W → Tiered W × Bool
  unfolding error
  upload_blobs c [] t = (t, true)
  upload_blobs c (o ∷ os) t = elim (read_blob digest o.digest t.local) [
    | err _ ↦ (error t, false)
    | ok b ↦
        let (w, failure) = c.put_remote_blob t.world o.digest b in
        let t' : Tiered W = record t { world = w } in
        let rest = upload_blobs c os t' in elim failure [ some _ ↦ (error t', false) | none ↦ rest ]
  ]

  -- The upload, whose outcome only counts.
  unfoldable pub publish : Client W X → Entry → Tiered W → Tiered W
  unfolding upload_blobs upload error
  publish c e t =
      let (t', all) = upload_blobs c e.outputs t in
      let (w, failure) = c.put_remote_entry t'.world e in
      let t'' : Tiered W = record t' { world = w } in
      elim all [ true ↦ elim failure [ some _ ↦ error t'' | none ↦ upload t'' ] | false ↦ t' ]

  -- `Put`
  unfoldable pub put_tiered :
      Option (Client W X)
      → Str
      → Workspace
      → List Str
      → Tiered W
      → Tiered W × Result StoreError PutResult
  unfolding publish
  put_tiered client key ws rels t =
      let (s, r) = put digest key ws rels t.local in
      let t' : Tiered W = record t { local = s } in
      elim r [
        | err x ↦ (t', err x)
        | ok p ↦ elim client [ none ↦ (t', ok p) | some c ↦ (publish c p.stored t', ok p) ]
      ]

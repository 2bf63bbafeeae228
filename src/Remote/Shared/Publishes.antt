-- ===== src/Remote/Shared/Publishes.antt =====
-- internal/remote: what the server holds after a machine has put the outputs of an action.
use buildforge.Prelude.{
  ℕ, ◌≡◌, ◌≤◌, refl, sym, ap, subst, Str, str_eq_iff, Bool, true, List, [], ◌∷◌, ◌++◌, length, some,
  ok, err, Bool-cases, Result-cases, inl, inr, update_self,
}
use buildforge.Cache.Names.{is_name}
use buildforge.Cache.Store.{
  OutputFile, Entry, entry, Store, bad_name, Workspace, PutResult, has_blob, all_present, lookup,
  put, put_outputs, compare_previous, read_blob,
}
use buildforge.Cache.Store.Sound.{
  IsSound, Extends, has_blob-found, both_present, put_blob-Stored, put_blob-named, Stored,
  all_present-cons, all_present-Extends,
}
use buildforge.Cache.Store.Restores.{recorded_entry, put_entry-named, put_entry-refused}
use buildforge.Remote.Wire.{Codec, max_blob_bytes, cas_prefix, ac_prefix}
use buildforge.Remote.Server.Guards.{IsKept, IsSmall, serve-IsKept}
use buildforge.Remote.HttpClient.{put_request, send_path, put_remote_blob, put_remote_entry}
use buildforge.Remote.Tiered.{Tiered, upload_blobs, publish, upload}
use buildforge.Remote.Shared.{direct, client, put_blob-there, put_entry-there}

module _ (digest : List ℕ → Str) where
  read_blob-there :
      (s : Store) (d : Str) (b : List ℕ)
      → IsSound digest s
      → is_name d ≡ true
      → s.cas d ≡ some b
      → read_blob digest d s ≡ ok b
  unfolding read_blob
  read_blob-there s d b v n e = rw (n, e, (str_eq_iff (digest b) d).1 (v d b e), read_blob) refl

  -- The key of what `Put` stored.
  pub put-key :
      (key : Str) (ws : Workspace) (rels : List Str) (s : Store) (r : PutResult)
      → (put digest key ws rels s).1 ≡ ok r
      → (r.stored.key ≡ key) × (is_name key ≡ true)
  unfolding put
  put-key key ws rels s r h =
      let q = put_outputs digest ws rels s in
      elim (Result-cases q.1) [
        | inr (x, failed) ↦
            let eq : put digest key ws rels s ≡ (q.0, err x) = rw (failed, put) refl in
            absurd (cc (h, ap (λ y. y.1) eq))
        | inl (os, done) ↦
            let e : Entry = record { key = key; outputs = os } in
            elim (Bool-cases (is_name key)) [
              | inr bad ↦
                  let eq : put digest key ws rels s ≡ (q.0, err (bad_name key)) =
                    rw (done, put_entry-refused e q.0 bad, put)
                      (ap (λ x. (x.0, err (bad_name key))) (put_entry-refused e q.0 bad)) in
                  absurd (cc (h, ap (λ y. y.1) eq))
              | inl n ↦
                  let p : PutResult = record {
                    stored = e;
                    nondeterministic = compare_previous key os q.0;
                  } in
                  let eq : put digest key ws rels s ≡ (recorded_entry e q.0, ok p) =
                    rw (done, put_entry-named e q.0 n, put)
                      (ap (λ x. (x.0, ok p)) (put_entry-named e q.0 n)) in
                  let same : p ≡ r = cc (h, ap (λ y. y.1) eq) in
                  (sym (ap (λ (x : PutResult). x.stored.key) same), n)
            ]
      ]

module _ (digest : List ℕ → Str) (codec : Codec) where
  -- The loop of `Put` over the outputs, with the server behind it.
  record Uploaded (os : List OutputFile) (t : Tiered Store) (r : Tiered Store × Bool) : Type 0 where
    all : r.1 ≡ true
    kept : IsKept digest r.0.world
    extends : Extends t.world r.0.world
    present : all_present os r.0.world ≡ true

  upload_blobs-Uploaded :
      (os : List OutputFile) (t : Tiered Store)
      → IsSound digest t.local
      → IsSmall t.local
      → IsKept digest t.world
      → all_present os t.local ≡ true
      → Uploaded os t (upload_blobs digest (client digest codec) os t)
  unfolding upload_blobs
  upload_blobs-Uploaded [] t v m k h = record {
    all = refl;
    kept = k;
    extends = λ d x. x;
    present = unfold all_present in refl;
  }
  upload_blobs-Uploaded (o ∷ os) t v m k h =
      let (here, rest) = both_present o os t.local h in
      let (n, found) = has_blob-found o.digest t.local here in
      let (b, e) = found in
      let sent =
        put_blob-there digest codec t.world o.digest b n (v o.digest b e) (m o.digest b e) in
      let r = put_remote_blob (direct digest codec) t.world o.digest b in
      let stored : Stored digest o.digest t.world r.0 =
        subst (λ x. Stored digest o.digest t.world x.0) (sym sent)
          (put_blob-Stored digest o.digest b t.world k.sound (v o.digest b e)
            (put_blob-named o.digest b t.world n)) in
      let kept : IsKept digest r.0 =
        unfold put_remote_blob send_path in
        serve-IsKept digest codec (put_request (cas_prefix ++ o.digest) b) t.world k in
      let t' : Tiered Store = record t { world = r.0 } in
      let u = upload_blobs-Uploaded os t' v m kept rest in
      rw (read_blob-there digest t.local o.digest b v n e, ap (λ x. x.1) sent, upload_blobs)
        (record {
          all = u.all;
          kept = u.kept;
          extends = λ d x. u.extends d (stored.extends d x);
          present = all_present-cons o os _ (u.extends o.digest stored.present) u.present;
        })

  -- What the server holds once an entry was published.
  pub record Published (e : Entry) (v : Store) : Type 0 where
    pub kept : IsKept digest v
    pub found : lookup e.key v ≡ ok (some e)
    pub present : all_present e.outputs v ≡ true

  pub recorded-Published :
      (e : Entry) (s : Store)
      → is_name e.key ≡ true
      → IsKept digest s
      → IsKept digest (recorded_entry e s)
      → all_present e.outputs s ≡ true
      → Published e (recorded_entry e s)
  unfolding lookup has_blob
  recorded-Published e s n k k' h =
      let present : all_present e.outputs (recorded_entry e s) ≡ true =
        all_present-Extends e.outputs s (recorded_entry e s) (λ d x. x) h in
      record {
        kept = k';
        found = rw (n, update_self s.ac e.key (some (entry e)), present, lookup) refl;
        present = present;
      }

  pub publish-Published :
      (e : Entry) (t : Tiered Store)
      → is_name e.key ≡ true
      → codec.unmarshal (codec.marshal e) ≡ some e
      → length (codec.marshal e) ≤ max_blob_bytes
      → IsSound digest t.local
      → IsSmall t.local
      → IsKept digest t.world
      → all_present e.outputs t.local ≡ true
      → Published e (publish digest (client digest codec) e t).world
  unfolding publish upload
  publish-Published e t n parses bound v m k h =
      let u = upload_blobs-Uploaded e.outputs t v m k h in
      let w = (upload_blobs digest (client digest codec) e.outputs t).0.world in
      let sent = put_entry-there digest codec w e n parses bound in
      let kept : IsKept digest (put_remote_entry (direct digest codec) codec w e).0 =
        unfold put_remote_entry send_path in
        serve-IsKept digest codec (put_request (ac_prefix ++ e.key) (codec.marshal e)) w u.kept in
      let held : Published e (recorded_entry e w) =
        recorded-Published e w n u.kept (subst (λ x. IsKept digest x.0) sent kept) u.present in
      rw (u.all, ap (λ x. x.1) sent, publish) (subst (λ x. Published e x.0) (sym sent) held)

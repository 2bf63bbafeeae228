-- ===== src/Remote/Shared/Hits.antt =====
-- internal/remote: what one machine puts, another one finds.
use buildforge.Prelude.{
  ℕ, ◌≡◌, ◌≤◌, refl, sym, ap, ◌∙◌, subst, Str, str_eq_iff, true, List, [], ◌∷◌, ◌++◌, length,
  length-append, none, some, ok, Bool-cases, inl, inr, arith,
}
use buildforge.Cache.Names.{is_name}
use buildforge.Cache.Store.{
  OutputFile, Entry, Store, Workspace, PutResult, has_blob, all_present, lookup, put, write_blob,
  restore,
}
use buildforge.Cache.Store.Sound.{IsSound, has_blob-found, both_present, put_blob-named}
use buildforge.Cache.Store.Restores.{lookup-present, put_entry-named, put-lookup}
use buildforge.Remote.Wire.{Codec, max_blob_bytes}
use buildforge.Remote.Server.Guards.{IsKept, IsSmall}
use buildforge.Remote.HttpClient.{get_entry}
use buildforge.Remote.Tiered.{
  Tiered, download, fetch, install, lookup_remote, lookup_tiered, put_tiered,
}
use buildforge.Remote.Tiered.Usable.{lookup_tiered-Usable}
use buildforge.Remote.Tiered.Uploads.{put_tiered-put}
use buildforge.Remote.Shared.{direct, client, get_blob-there, get_entry-there}
use buildforge.Remote.Shared.Publishes.{put-key, Published, publish-Published}

module _ (digest : List ℕ → Str) (codec : Codec) where
  -- A blob that the server holds comes to the local store, and the server stays as it is.
  download-there :
      (o : OutputFile) (t : Tiered Store)
      → IsKept digest t.world
      → has_blob o.digest t.world ≡ true
      → ((download digest (client digest codec) o t).1 ≡ true)
        × ((download digest (client digest codec) o t).0.world ≡ t.world)
  unfolding download write_blob
  download-there o t k h =
      let (n, found) = has_blob-found o.digest t.world h in
      let (b, e) = found in
      let got = get_blob-there digest codec t.world o.digest b k n e in
      let same = (str_eq_iff (digest b) o.digest).1 (k.sound o.digest b e) in
      let there = put_blob-named o.digest b t.local n in
      rw (got, same, there, download, write_blob) (refl, ap (λ x. x.0) got)

  fetch-there :
      (os : List OutputFile) (t : Tiered Store)
      → IsKept digest t.world
      → all_present os t.world ≡ true
      → (fetch digest (client digest codec) os t).1 ≡ true
  unfolding fetch
  fetch-there [] t k h = refl
  fetch-there (o ∷ os) t k h =
      let (here, rest) = both_present o os t.world h in
      elim (Bool-cases (has_blob o.digest t.local)) [
        | inl there ↦ rw (there, fetch) (fetch-there os t k rest)
        | inr absent ↦
            let d = download digest (client digest codec) o t in
            let (got, same) = download-there o t k here in
            rw (absent, got, fetch)
              (fetch-there os d.0 (subst (IsKept digest) (sym same) k)
                (subst (λ x. all_present os x ≡ true) (sym same) rest))
      ]

  install-found :
      (e : Entry) (t : Tiered Store) → is_name e.key ≡ true → (install e t).1 ≡ ok (some e)
  unfolding install
  install-found e t n = rw (ap (λ x. x.1) (put_entry-named e t.local n), install) refl

  lookup_remote-there :
      (e : Entry) (t : Tiered Store)
      → is_name e.key ≡ true
      → codec.unmarshal (codec.marshal e ++ 10 ∷ []) ≡ some e
      → length (codec.marshal e ++ 10 ∷ []) ≤ max_blob_bytes
      → Published digest codec e t.world
      → (lookup_remote digest (client digest codec) e.key t).1 ≡ ok (some e)
  unfolding lookup_remote install
  lookup_remote-there e t n parses bound p =
      let got = get_entry-there digest codec t.world e p.found parses bound in
      let t' : Tiered Store = record t {
        world = (get_entry (direct digest codec) codec t.world e.key).0;
      } in
      let same : t'.world ≡ t.world = ap (λ x. x.0) got in
      let all =
        fetch-there e.outputs t' (subst (IsKept digest) (sym same) p.kept)
          (subst (λ x. all_present e.outputs x ≡ true) (sym same) p.present) in
      rw (ap (λ x. x.1) got, all, lookup_remote)
        (install-found e (fetch digest (client digest codec) e.outputs t').0 n)

-- The JSON of the entry is read back, also with the line feed behind it, and is within the bound.
pub record Codes (codec : Codec) (e : Entry) : Type 0 where
  pub parses : codec.unmarshal (codec.marshal e) ≡ some e
  pub parses_line : codec.unmarshal (codec.marshal e ++ 10 ∷ []) ≡ some e
  pub bound : length (codec.marshal e ++ 10 ∷ []) ≤ max_blob_bytes

module _ (digest : List ℕ → Str) (codec : Codec) (key : Str) (ws : Workspace) (rels : List Str)
    (a b : Tiered Store) (p : PutResult) where
  put_tiered-Published :
      IsSound digest a.local
      → IsSmall (put digest key ws rels a.local).0
      → IsKept digest a.world
      → Codes codec p.stored
      → (put digest key ws rels a.local).1 ≡ ok p
      → Published digest codec p.stored
          (put_tiered digest (some (client digest codec)) key ws rels a).0.world
  unfolding put_tiered
  put_tiered-Published v m k c h =
      let s = (put digest key ws rels a.local).0 in
      let (found, _, sound) = put-lookup digest key ws rels a.local p ws v h in
      let (same, n) = put-key digest key ws rels a.local p h in
      let named : is_name p.stored.key ≡ true = subst (λ x. is_name x ≡ true) (sym same) n in
      rw (h, put_tiered)
        (publish-Published digest codec p.stored (record a { local = s }) named c.parses
          (omega (arith, length-append (codec.marshal p.stored) (10 ∷ []), c.bound)) sound m k
          (lookup-present key s p.stored found))

  -- One machine puts the outputs of an action, with a server behind its local store; then another one,
  -- whose local store has no entry for the key, looks the key up at the same server. It finds what
  -- the first one stored, and restores it in every workspace. This holds when every blob of the local
  -- stores has the digest that it is filed under and, on the first machine, is within the bound on
  -- bodies, the server's store keeps its invariant, and the entry's JSON is read back and within the
  -- bound.
  pub shared-hit :
      (elsewhere : Workspace)
      → IsSound digest a.local
      → IsSmall (put digest key ws rels a.local).0
      → IsKept digest a.world
      → Codes codec p.stored
      → (put_tiered digest (some (client digest codec)) key ws rels a).1 ≡ ok p
      → IsSound digest b.local
      → lookup key b.local ≡ ok none
      → b.world ≡ (put_tiered digest (some (client digest codec)) key ws rels a).0.world
      → ((lookup_tiered digest (some (client digest codec)) key b).1 ≡ ok (some p.stored))
        × ((restore digest p.stored.outputs
              (lookup_tiered digest (some (client digest codec)) key b).0.local
              elsewhere).1
            ≡ ok tt)
  unfolding lookup_tiered
  shared-hit elsewhere v m k c h v' absent shared =
      let h' = sym (put_tiered-put digest (some (client digest codec)) key ws rels a).0 ∙ h in
      let (same, n) = put-key digest key ws rels a.local p h' in
      let named : is_name p.stored.key ≡ true = subst (λ x. is_name x ≡ true) (sym same) n in
      let held : Published digest codec p.stored b.world =
        subst (Published digest codec p.stored) (sym shared) (put_tiered-Published v m k c h') in
      let hit : (lookup_tiered digest (some (client digest codec)) key b).1 ≡ ok (some p.stored) =
        rw (absent, lookup_tiered)
          (subst (λ x. (lookup_remote digest (client digest codec) x b).1 ≡ ok (some p.stored)) same
            (lookup_remote-there digest codec p.stored b named c.parses_line c.bound held)) in
      elim (lookup_tiered-Usable digest (some (client digest codec)) key b elsewhere v').1 [
        | inl missed ↦ absurd (cc (hit, missed))
        | inr (e, found, restored) ↦
            let eq : e ≡ p.stored = cc (hit, found) in
            (
              hit,
              subst
                  (λ x.
                    (restore digest x.outputs
                      (lookup_tiered digest (some (client digest codec)) key b).0.local elsewhere).1
                    ≡ ok tt)
                  eq restored,
            )
      ]

-- ===== src/Remote/Shared.antt =====
-- internal/remote: the client of client.go that talks to the server of server.go, and two machines
-- that share a server. Here requests reach the server one at a time and are not lost.
pub mod Publishes
pub mod Hits
use buildforge.Prelude.{
  ℕ, ◌≡◌, ◌≤◌, ◌+◌, refl, sym, ap, ◌∙◌, subst, Str, str_eq, str_eq_iff, Bool, true, false, List, [],
  ◌∷◌, ◌++◌, length, Option, none, some, Result, ok, err, Bool-cases, Option-cases, Result-cases,
  inl, inr, arith, All, if◌then◌else◌,
}
use buildforge.Manifest.{has_prefix}
use buildforge.Cache.Names.{is_name}
use buildforge.Cache.Store.{
  OutputFile, Entry, entry, Store, StoreError, Workspace, PutResult, has_blob, all_present, lookup,
  put, put_blob, put_entry, read_blob, write_blob, restore,
}
use buildforge.Cache.Store.Sound.{
  IsSound, Extends, has_blob-found, put_blob-Stored, put_blob-named, Stored, all_present-cons,
  all_present-Extends,
}
use buildforge.Cache.Store.Restores.{recorded_entry, put_entry-named}
use buildforge.Remote.Wire.{
  Method, method_get, method_put, Request, Response, Codec, max_blob_bytes, read_body, cas_prefix,
  ac_prefix, trim_prefix,
}
use buildforge.Remote.Wire.Reads.{read_body-whole, has_prefix-append, trim_prefix-append}
use buildforge.Remote.Server.{answer, created, on_cas, on_ac, handle_cas, handle_ac, serve}
use buildforge.Remote.Tiered.{Client, Tiered}
use buildforge.Remote.Server.Guards.{IsKept, serve-IsKept}
use buildforge.Remote.HttpClient.{
  ClientError, take_reply, check_blob, check_entry, put_reply, get_request, put_request, fetch_path,
  send_path, get_blob, put_remote_blob, get_entry, put_remote_entry, http_client,
}

module _ (digest : List ℕ → Str) (codec : Codec) where
  -- A server that is reached directly.
  abbrev pub direct : Store → Request → Store × Result (Unit {0}) Response
  direct s r = ((serve digest codec r s).0, ok (serve digest codec r s).1)

  -- The client of that server.
  abbrev pub client : Client Store (ClientError (Unit {0}))
  client = http_client direct digest codec

  abbrev request : Method → Str → List ℕ → Request
  request m path b = record {
    method = m;
    path = path;
    body = record { content = b; broken = false };
  }

  serve-cas :
      (m : Method) (s : Store) (d : Str) (b : List ℕ)
      → serve digest codec (request m (cas_prefix ++ d) b) s
        ≡ on_cas digest m d (record { content = b; broken = false }) s
  unfolding serve handle_cas trim_prefix has_prefix
  serve-cas m s d b = refl

  serve-ac :
      (m : Method) (s : Store) (k : Str) (b : List ℕ)
      → serve digest codec (request m (ac_prefix ++ k) b) s
        ≡ on_ac digest codec m k (record { content = b; broken = false }) s
  unfolding serve handle_ac trim_prefix has_prefix
  serve-ac m s k b = refl

  -- A blob that the server holds reaches the client.
  pub get_blob-there :
      (s : Store) (d : Str) (b : List ℕ)
      → IsKept digest s
      → is_name d ≡ true
      → s.cas d ≡ some b
      → get_blob direct digest s d ≡ (s, ok (some b))
  unfolding get_blob fetch_path on_cas take_reply check_blob
  get_blob-there s d b v n e =
      let same = (str_eq_iff (digest b) d).1 (v.sound d b e) in
      let served : serve digest codec (get_request (cas_prefix ++ d)) s ≡ (s, answer 200 b) =
        serve-cas method_get s d [] ∙ rw (n, e, same, on_cas) refl in
      rw
        (
          served,
          read_body-whole b (v.small d b e),
          same,
          get_blob,
          fetch_path,
          take_reply,
          check_blob,
        )
        refl

  -- A blob that the client uploads is stored.
  pub put_blob-there :
      (s : Store) (d : Str) (b : List ℕ)
      → is_name d ≡ true
      → digest b ≡ d
      → length b ≤ max_blob_bytes
      → put_remote_blob direct s d b ≡ ((put_blob d b s).0, none)
  unfolding put_remote_blob send_path put_reply on_cas created write_blob
  put_blob-there s d b n e bound =
      let same = (str_eq_iff (digest b) d).1 e in
      let stored : write_blob digest d b s ≡ ((put_blob d b s).0, none) =
        rw (same, write_blob)
          (ap (λ (x : Option StoreError). ((put_blob d b s).0, x)) (put_blob-named d b s n)) in
      let served : serve digest codec (put_request (cas_prefix ++ d) b) s
          ≡ ((put_blob d b s).0, answer 201 []) =
        serve-cas method_put s d b ∙ rw (read_body-whole b bound, on_cas) (ap created stored) in
      rw (served, put_remote_blob, send_path, put_reply) refl

  -- An entry that the client uploads is stored.
  pub put_entry-there :
      (s : Store) (e : Entry)
      → is_name e.key ≡ true
      → codec.unmarshal (codec.marshal e) ≡ some e
      → length (codec.marshal e) ≤ max_blob_bytes
      → put_remote_entry direct codec s e ≡ (recorded_entry e s, none)
  unfolding put_remote_entry send_path put_reply on_ac created
  put_entry-there s e n parses bound =
      let same = (str_eq_iff e.key e.key).1 refl in
      let served : serve digest codec (put_request (ac_prefix ++ e.key) (codec.marshal e)) s
          ≡ (recorded_entry e s, answer 201 []) =
        serve-ac method_put s e.key (codec.marshal e)
        ∙ rw (read_body-whole (codec.marshal e) bound, parses, same, on_ac)
            (ap created (put_entry-named e s n)) in
      rw (served, put_remote_entry, send_path, put_reply) refl

  -- An entry that the server holds with all its blobs reaches the client.
  pub get_entry-there :
      (s : Store) (e : Entry)
      → lookup e.key s ≡ ok (some e)
      → codec.unmarshal (codec.marshal e ++ 10 ∷ []) ≡ some e
      → length (codec.marshal e ++ 10 ∷ []) ≤ max_blob_bytes
      → get_entry direct codec s e.key ≡ (s, ok (some e))
  unfolding get_entry fetch_path on_ac take_reply check_entry
  get_entry-there s e found parses bound =
      let same = (str_eq_iff e.key e.key).1 refl in
      let served : serve digest codec (get_request (ac_prefix ++ e.key)) s
          ≡ (s, answer 200 (codec.marshal e ++ 10 ∷ [])) =
        serve-ac method_get s e.key [] ∙ rw (found, on_ac) refl in
      rw
        (
          served,
          read_body-whole (codec.marshal e ++ 10 ∷ []) bound,
          parses,
          same,
          get_entry,
          fetch_path,
          take_reply,
          check_entry,
        )
        refl

-- ===== src/Remote/Server.antt =====
-- internal/remote/server.go: the handlers over the local store. `http.ServeMux` is the choice by the
-- beginning of the path; it redirects a path that is not canonical before any handler. A handler
-- takes one request at a time.
pub mod Guards
use buildforge.Prelude.{
  ℕ, Str, bytes, str_eq, false, List, [], ◌∷◌, ◌++◌, if◌then◌else◌, Option, none, some, ok, err,
}
use buildforge.Manifest.{has_prefix}
use buildforge.Cache.Store.{Store, StoreError, lookup, put_entry, read_blob, write_blob}
use buildforge.Remote.Wire.{
  Method, method_get, method_put, method_other, Body, Request, Response, Codec, ReadFault,
  interrupted, too_large, read_body, cas_prefix, ac_prefix, trim_prefix,
}

abbrev pub answer : ℕ → List ℕ → Response
answer status content = record {
  status = status;
  payload = record { content = content; broken = false };
}

-- The status with which `readBody` rejects.
unfoldable pub read_status : ReadFault → ℕ
read_status interrupted = 400
read_status too_large = 413

-- The response to an upload, with what the store said to it.
unfoldable pub created : Store × Option StoreError → Store × Response
created p = elim p.1 [ some _ ↦ (p.0, answer 400 []) | none ↦ (p.0, answer 201 []) ]

module _ (digest : List ℕ → Str) where
  -- The switch of `handleCAS` on the method.
  unfoldable pub on_cas : Method → Str → Body → Store → Store × Response
  unfolding read_blob write_blob read_body read_status created
  on_cas method_get name body s = elim (read_blob digest name s) [
    | err _ ↦ (s, answer 404 [])
    | ok b ↦ (s, answer 200 b)
  ]
  on_cas method_put name body s = elim (read_body body) [
    | err x ↦ (s, answer (read_status x) [])
    | ok b ↦ created (write_blob digest name b s)
  ]
  on_cas method_other name body s = (s, answer 405 [])

  -- `handleCAS`
  unfoldable pub handle_cas : Request → Store → Store × Response
  unfolding on_cas trim_prefix
  handle_cas r s = on_cas r.method (trim_prefix r.path cas_prefix) r.body s

  module _ (codec : Codec) where
    -- The switch of `handleAC` on the method. The encoder ends the text of an entry with a line feed.
    unfoldable pub on_ac : Method → Str → Body → Store → Store × Response
    unfolding lookup put_entry read_body read_status created
    on_ac method_get key body s = elim (lookup key s) [
      | err _ ↦ (s, answer 404 [])
      | ok none ↦ (s, answer 404 [])
      | ok (some e) ↦ (s, answer 200 (codec.marshal e ++ 10 ∷ []))
    ]
    on_ac method_put key body s = elim (read_body body) [
      | err x ↦ (s, answer (read_status x) [])
      | ok b ↦ elim (codec.unmarshal b) [
        | none ↦ (s, answer 400 [])
        | some e ↦ if str_eq e.key key then created (put_entry e s) else (s, answer 400 [])
      ]
    ]
    on_ac method_other key body s = (s, answer 405 [])

    -- `handleAC`
    unfoldable pub handle_ac : Request → Store → Store × Response
    unfolding on_ac trim_prefix
    handle_ac r s = on_ac r.method (trim_prefix r.path ac_prefix) r.body s

    -- `Handler`
    unfoldable pub serve : Request → Store → Store × Response
    unfolding handle_cas handle_ac
    serve r s =
        if has_prefix r.path cas_prefix
        then handle_cas r s
        else if has_prefix r.path ac_prefix
        then handle_ac r s
        else if str_eq r.path (bytes "/healthz")
        then (s, answer 200 (bytes "ok\n"))
        else (s, answer 404 [])

-- ===== src/Remote/HttpClient/Verified.antt =====
-- internal/remote/client.go: what the client accepts from a server.
use buildforge.Prelude.{
  ℕ, ◌≡◌, ◌≤◌, refl, sym, ap, ◌∙◌, Str, str_eq_iff, List, ◌++◌, Str-cases, false, true, Bool,
  length, Option, none, some, Result, ok, err, Option-cases, inl, inr, ◌==◌, if◌then◌else◌,
}
use buildforge.Cache.Store.{Entry}
use buildforge.Remote.Wire.{
  Request, Response, Codec, ReadFault, max_blob_bytes, read_body, cas_prefix, ac_prefix,
}
use buildforge.Remote.Wire.Reads.{read_body-le}
use buildforge.Remote.HttpClient.{
  ClientError, unread, bad_status, take_reply, check_blob, check_entry, get_request, fetch_path,
  get_blob, get_entry,
}

-- What `get` took as the body.
taken :
    {X : Type 0} (is_ok is_missing : Bool) (r : Result ReadFault (List ℕ))
    (other : Result (ClientError X) (Option (List ℕ))) (x : ClientError X) (b : List ℕ)
    → other ≡ (if is_missing then ok none else err x)
    → (if is_ok then elim r [ err y ↦ err (unread y) | ok c ↦ ok (some c) ] else other)
      ≡ ok (some b)
    → r ≡ ok b
taken true m (err y) other x b e h = cc
taken true m (ok c) other x b e h = cc
taken false true r other x b e h = cc
taken false false r other x b e h = cc

take_reply-le :
    {X : Type 0} (r : Result X Response) (b : List ℕ)
    → take_reply r ≡ ok (some b)
    → length b ≤ max_blob_bytes
unfolding take_reply
take_reply-le (err x) b h = cc
take_reply-le (ok reply) b h = read_body-le reply.payload b (
    taken (reply.status == 200) (reply.status == 404) (read_body reply.payload) _
      (bad_status reply.status) b refl h)

check_blob-digest :
    {X : Type 0} (digest : List ℕ → Str) (d : Str) (r : Result (ClientError X) (Option (List ℕ)))
    (b : List ℕ)
    → check_blob digest d r ≡ ok (some b)
    → (r ≡ ok (some b)) × (digest b ≡ d)
unfolding check_blob
check_blob-digest digest d (err x) b h = cc
check_blob-digest digest d (ok none) b h = cc
check_blob-digest digest d (ok (some c)) b h = elim (Str-cases (digest c) d) [
  | inl e ↦
      let t = (str_eq_iff (digest c) d).1 e in
      let same : ok (some c) ≡ ok (some b) = rw t at h in
      let content : c ≡ b = cc same in (same, sym (ap digest content) ∙ e)
  | inr (_, e) ↦ absurd (cc (rw e at h))
]

check_entry-key :
    {X : Type 0} (codec : Codec) (key : Str) (r : Result (ClientError X) (Option (List ℕ)))
    (f : Entry)
    → check_entry codec key r ≡ ok (some f)
    → f.key ≡ key
unfolding check_entry
check_entry-key codec key (err x) f h = cc
check_entry-key codec key (ok none) f h = cc
check_entry-key codec key (ok (some b)) f h = elim (Option-cases (codec.unmarshal b)) [
  | inl bad ↦ absurd (cc (rw (bad, check_entry) at h))
  | inr (e, parsed) ↦ elim (Str-cases e.key key) [
    | inl same ↦
        let t = (str_eq_iff e.key key).1 same in
        let eq : e ≡ f = cc (rw (parsed, t, check_entry) at h) in
        sym (ap (λ (x : Entry). x.key) eq) ∙ same
    | inr (_, ne) ↦ absurd (cc (rw (parsed, ne, check_entry) at h))
  ]
]

-- Whatever the server answers, a blob that `GetBlob` returns has the digest that was asked for, and
-- is no larger than the bound.
pub get_blob-le :
    {W X : Type 0} (send : W → Request → W × Result X Response) (digest : List ℕ → Str) (w : W)
    (d : Str) (b : List ℕ)
    → (get_blob send digest w d).1 ≡ ok (some b)
    → (digest b ≡ d) × (length b ≤ max_blob_bytes)
unfolding get_blob fetch_path
get_blob-le send digest w d b h =
    let (fetched, e) = check_blob-digest digest d (fetch_path send w (cas_prefix ++ d)).1 b h in
    (e, take_reply-le (send w (get_request (cas_prefix ++ d))).1 b fetched)

-- Whatever the server answers, an entry that `GetEntry` returns has the key that was asked for.
pub get_entry-key :
    {W X : Type 0} (send : W → Request → W × Result X Response) (codec : Codec) (w : W) (key : Str)
    (e : Entry)
    → (get_entry send codec w key).1 ≡ ok (some e)
    → e.key ≡ key
unfolding get_entry
get_entry-key send codec w key e h =
    check_entry-key codec key (fetch_path send w (ac_prefix ++ key)).1 e h

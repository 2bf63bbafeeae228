-- ===== src/Remote/HttpClient.antt =====
-- internal/remote/client.go: the requests of the client. net/http is the parameter `send`, which
-- resolves a path against the server's address and answers or fails.
pub mod Verified
use buildforge.Prelude.{
  ℕ, Str, str_eq, ◌==◌, ◌||◌, false, List, [], ◌++◌, if◌then◌else◌, Option, none, some, Result, ok,
  err,
}
use buildforge.Cache.Store.{Entry}
use buildforge.Remote.Wire.{
  Method, method_get, method_put, Request, Response, Codec, ReadFault, read_body, cas_prefix,
  ac_prefix,
}
use buildforge.Remote.Tiered.{Client}

pub data ClientError (X : Type 0) : Type 0 where
  unreachable : X → ClientError X
  bad_status : ℕ → ClientError X
  unread : ReadFault → ClientError X
  wrong_blob : Str → ClientError X
  no_entry : ClientError X
  wrong_key : Str → ClientError X

-- What `get` makes of the answer; `none` is a 404.
unfoldable pub take_reply :
    {X : Type 0} → Result X Response → Result (ClientError X) (Option (List ℕ))
unfolding read_body
take_reply (err x) = err (unreachable x)
take_reply (ok reply) =
    if reply.status == 200
    then elim (read_body reply.payload) [ err x ↦ err (unread x) | ok b ↦ ok (some b) ]
    else if reply.status == 404
    then ok none
    else err (bad_status reply.status)

-- The check of `GetBlob`.
unfoldable pub check_blob :
    {X : Type 0}
    → (List ℕ → Str)
    → Str
    → Result (ClientError X) (Option (List ℕ))
    → Result (ClientError X) (Option (List ℕ))
check_blob digest d (err x) = err x
check_blob digest d (ok none) = ok none
check_blob digest d (ok (some b)) =
    if str_eq (digest b) d then ok (some b) else err (wrong_blob (digest b))

-- The checks of `GetEntry`.
unfoldable pub check_entry :
    {X : Type 0}
    → Codec
    → Str
    → Result (ClientError X) (Option (List ℕ))
    → Result (ClientError X) (Option Entry)
check_entry codec key (err x) = err x
check_entry codec key (ok none) = ok none
check_entry codec key (ok (some b)) = elim (codec.unmarshal b) [
  | none ↦ err no_entry
  | some e ↦ if str_eq e.key key then ok (some e) else err (wrong_key e.key)
]

-- What `put` makes of the answer.
unfoldable pub put_reply : {X : Type 0} → Result X Response → Option (ClientError X)
put_reply (err x) = some (unreachable x)
put_reply (ok reply) =
    if reply.status == 200 || reply.status == 201 then none else some (bad_status reply.status)

abbrev pub get_request : Str → Request
get_request path = record {
  method = method_get;
  path = path;
  body = record { content = []; broken = false };
}

abbrev pub put_request : Str → List ℕ → Request
put_request path b = record {
  method = method_put;
  path = path;
  body = record { content = b; broken = false };
}

module _ {W X : Type 0} (send : W → Request → W × Result X Response) where
  -- `get`
  unfoldable pub fetch_path : W → Str → W × Result (ClientError X) (Option (List ℕ))
  unfolding take_reply
  fetch_path w path = let (w', r) = send w (get_request path) in (w', take_reply r)

  -- `put`
  unfoldable pub send_path : W → Str → List ℕ → W × Option (ClientError X)
  unfolding put_reply
  send_path w path b = let (w', r) = send w (put_request path b) in (w', put_reply r)

  -- `GetBlob`
  unfoldable pub get_blob : (List ℕ → Str) → W → Str → W × Result (ClientError X) (Option (List ℕ))
  unfolding fetch_path check_blob
  get_blob digest w d = let (w', r) = fetch_path w (cas_prefix ++ d) in (w', check_blob digest d r)

  -- `PutBlob`
  unfoldable pub put_remote_blob : W → Str → List ℕ → W × Option (ClientError X)
  unfolding send_path
  put_remote_blob w d b = send_path w (cas_prefix ++ d) b

  -- `GetEntry`
  unfoldable pub get_entry : Codec → W → Str → W × Result (ClientError X) (Option Entry)
  unfolding fetch_path check_entry
  get_entry codec w key =
      let (w', r) = fetch_path w (ac_prefix ++ key) in (w', check_entry codec key r)

  -- `PutEntry`
  unfoldable pub put_remote_entry : Codec → W → Entry → W × Option (ClientError X)
  unfolding send_path
  put_remote_entry codec w e = send_path w (ac_prefix ++ e.key) (codec.marshal e)

  -- The methods that the tiered cache calls.
  abbrev pub http_client : (List ℕ → Str) → Codec → Client W (ClientError X)
  http_client digest codec = record {
    get_entry = get_entry codec;
    get_blob = get_blob digest;
    put_remote_blob = put_remote_blob;
    put_remote_entry = put_remote_entry codec;
  }

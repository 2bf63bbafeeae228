-- ===== src/Remote/Wire.antt =====
-- internal/remote: what the client and the server of server.go and client.go share. Of a message there
-- is the method, the path, the status and the body; headers and the texts of errors are left out.
-- encoding/json is the parameter `Codec`.
pub mod Reads
use buildforge.Prelude.{
  ℕ, ◌+◌, ◌*◌, ◌^◌, Str, bytes, Bool, true, false, List, [], ◌∷◌, length, leb, ltb, take, drop,
  if◌then◌else◌, Option, Result, ok, err,
}
use buildforge.Manifest.{has_prefix}
use buildforge.Cache.Store.{Entry}

pub data Method : Type 0 where
  method_get method_put method_other : Method

-- The bytes that can be read, and whether an error follows them.
pub record Body : Type 0 where
  pub content : List ℕ
  pub broken : Bool

pub record Request : Type 0 where
  pub method : Method
  pub path : Str
  pub body : Body

pub record Response : Type 0 where
  pub status : ℕ
  pub payload : Body

-- `json.Marshal` and `json.Unmarshal` on entries.
pub record Codec : Type 0 where
  pub marshal : Entry → List ℕ
  pub unmarshal : List ℕ → Option Entry

-- `maxBlobBytes`
unfoldable pub max_blob_bytes : ℕ
max_blob_bytes = 256 * 2 ^ 20

pub data ReadFault : Type 0 where
  interrupted too_large : ReadFault

-- `io.ReadAll(io.LimitReader(b, n))`: an error behind the first `n` bytes is not met.
unfoldable pub read_limited : ℕ → Body → Result ReadFault (List ℕ)
read_limited n b =
    if leb n (length b.content)
    then ok (take n b.content)
    else if b.broken
    then err interrupted
    else ok b.content

-- The reading of a body with the bound, in `readBody` and in `get`.
unfoldable pub read_body : Body → Result ReadFault (List ℕ)
unfolding read_limited
read_body b = elim (read_limited (max_blob_bytes + 1) b) [
  | err x ↦ err x
  | ok content ↦ if ltb max_blob_bytes (length content) then err too_large else ok content
]

abbrev pub cas_prefix : Str
cas_prefix = bytes "/cas/"

abbrev pub ac_prefix : Str
ac_prefix = bytes "/ac/"

-- `strings.TrimPrefix`
unfoldable pub trim_prefix : Str → Str → Str
trim_prefix s p = if has_prefix s p then drop (length p) s else s

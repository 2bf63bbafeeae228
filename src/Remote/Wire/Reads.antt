-- ===== src/Remote/Wire/Reads.antt =====
-- internal/remote: the bound on bodies, and the paths of requests.
use buildforge.Prelude.{
  ℕ, ◌≡◌, ◌≤◌, ◌+◌, refl, Str, true, false, List, [], ◌∷◌, ◌++◌, length, ltb, leb, drop, arith, ok,
  err, Result, if◌then◌else◌,
}
use buildforge.Manifest.{has_prefix}
use buildforge.Remote.Wire.{
  Body, too_large, ReadFault, max_blob_bytes, read_limited, read_body, trim_prefix,
}

-- What passes the test of the bound.
bounded :
    (r : Result ReadFault (List ℕ)) (c : List ℕ)
    → (elim r [
      | err x ↦ err x
      | ok b ↦ if ltb max_blob_bytes (length b) then err too_large else ok b
    ])
      ≡ ok c
    → length c ≤ max_blob_bytes
bounded (err x) c h = cc
bounded (ok b) c h = ground arith

-- A body that is read is within the bound.
pub read_body-le : (b : Body) (c : List ℕ) → read_body b ≡ ok c → length c ≤ max_blob_bytes
unfolding read_body
read_body-le b c h = bounded (read_limited (max_blob_bytes + 1) b) c h

-- A body within the bound is read in full.
pub read_body-whole :
    (c : List ℕ)
    → length c ≤ max_blob_bytes
    → read_body (record { content = c; broken = false }) ≡ ok c
unfolding read_body read_limited
read_body-whole c h =
    let short : leb (max_blob_bytes + 1) (length c) ≡ false = ground arith in
    let within : ltb max_blob_bytes (length c) ≡ false = ground arith in
    rw (short, within, read_body, read_limited) refl

pub has_prefix-append : (p n : Str) → has_prefix (p ++ n) p ≡ true
unfolding has_prefix
has_prefix-append [] n = refl
has_prefix-append (c ∷ p) n = ground (arith, has_prefix-append p n)

drop-append : (p n : Str) → drop (length p) (p ++ n) ≡ n
drop-append [] n = refl
drop-append (c ∷ p) n = drop-append p n

pub trim_prefix-append : (p n : Str) → trim_prefix (p ++ n) p ≡ n
unfolding trim_prefix
trim_prefix-append p n = rw (has_prefix-append p n, trim_prefix) (drop-append p n)

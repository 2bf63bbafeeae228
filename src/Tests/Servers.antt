-- ===== src/Tests/Servers.antt =====
-- A cache server, requests to it, and two machines that share it.
use buildforge.Prelude.{
  ℕ, ◌≡◌, ◌≢◌, ◌≤◌, refl, ◌∙◌, subst, Str, bytes, str_eq, str_eq_iff, Str-cases, List, [], ◌∷◌,
  length, take, none, some, ok, if◌then◌else◌, inl, inr, arith, false,
}
use buildforge.Cache.Store.{Store, put, write_blob, read_blob, lookup, restore}
use buildforge.Manifest.{has_prefix}
use buildforge.Remote.Wire.{
  method_put, Request, Codec, max_blob_bytes, read_body, read_limited, trim_prefix, ac_prefix,
}
use buildforge.Remote.Server.{serve, handle_cas, handle_ac, on_cas, on_ac, created, read_status}
use buildforge.Remote.Server.Guards.{IsKept, IsSmall, serve-IsKept, serve-keeps, serve-refused}
use buildforge.Remote.HttpClient.{
  get_blob, get_entry, fetch_path, take_reply, check_blob, check_entry,
}
use buildforge.Remote.HttpClient.Verified.{get_blob-le, get_entry-key}
use buildforge.Remote.Tiered.{Tiered, put_tiered, lookup_tiered}
use buildforge.Remote.Tiered.Uploads.{put_tiered-put}
use buildforge.Remote.Shared.{direct, client}
use buildforge.Remote.Shared.Hits.{Codes, shared-hit}
use buildforge.Tests.Caches.{
  digest, nothing, key, object, built, clean, listed, result, nothing-IsSound, put-built,
  store_program,
}

-- A codec that knows a single entry.
abbrev codec : Codec
codec = record {
  marshal = λ e. bytes "{}";
  unmarshal = λ b. if str_eq (take 2 b) (bytes "{}") then some listed else none;
}

nothing-IsKept : IsKept digest nothing
nothing-IsKept = record { sound = nothing-IsSound; keyed = λ k e h. cc; small = λ d b h. cc }

-- An upload of a blob under a digest that is not its own.
abbrev forged : Request
forged = record {
  method = method_put;
  path = bytes "/cas/abcdef";
  body = record { content = 7 ∷ 8 ∷ []; broken = false };
}

serve-IsKept_example : IsKept digest (serve digest codec forged nothing).0
serve-IsKept_example = serve-IsKept digest codec forged nothing nothing-IsKept

server_program : Unit {0}
unfolding serve handle_cas handle_ac on_cas on_ac created read_status read_body read_limited
    trim_prefix has_prefix store_program write_blob read_blob max_blob_bytes fetch_path take_reply
    check_blob check_entry get_blob get_entry
server_program = tt

forged-status : (serve digest codec forged nothing).1.status ≡ 400
unfolding server_program
forged-status = refl

forged-refused : (serve digest codec forged nothing).1.status ≢ 201
forged-refused h = omega (arith, forged-status)

serve-refused_example : (serve digest codec forged nothing).0 ≡ nothing
serve-refused_example = serve-refused digest codec forged nothing forged-refused

abbrev filled : Store
filled = (put digest key built (object ∷ []) nothing).0

serve-keeps_example :
    ((d : Str) (b : List ℕ)
      → filled.cas d ≡ some b
      → (serve digest codec forged filled).0.cas d ≡ some b)
    × ((q : Str)
        → q ≢ trim_prefix forged.path ac_prefix
        → (serve digest codec forged filled).0.ac q ≡ filled.ac q)
serve-keeps_example = serve-keeps digest codec forged filled

-- The blob that the server holds.
abbrev blob : List ℕ
blob = 7 ∷ 8 ∷ []

got-blob : (get_blob (direct digest codec) digest filled (digest blob)).1 ≡ ok (some blob)
unfolding server_program
got-blob = refl

get_blob-le_example : (digest blob ≡ digest blob) × (length blob ≤ max_blob_bytes)
get_blob-le_example = get_blob-le (direct digest codec) digest filled (digest blob) blob got-blob

got-entry : (get_entry (direct digest codec) codec filled key).1 ≡ ok (some listed)
unfolding server_program
got-entry = refl

get_entry-key_example : listed.key ≡ key
get_entry-key_example = get_entry-key (direct digest codec) codec filled key listed got-entry

abbrev fresh : Tiered Store
fresh = record {
  local = nothing;
  world = nothing;
  stats = record { local_hits = 0; remote_hits = 0; misses = 0; uploads = 0; errors = 0 };
}

filled-cas : (d : Str) → filled.cas d ≡ (if str_eq (digest blob) d then some blob else none)
unfolding server_program
filled-cas d = refl

blob-le : length blob ≤ max_blob_bytes
unfolding server_program
blob-le = omega arith

filled-IsSmall : IsSmall filled
filled-IsSmall d b h = elim (Str-cases (digest blob) d) [
  | inl e ↦
      let there : filled.cas d ≡ some blob =
        filled-cas d ∙ rw ((str_eq_iff (digest blob) d).1 e) refl in
      let same : blob ≡ b = cc (there, h) in subst (λ x. length x ≤ max_blob_bytes) same blob-le
  | inr (_, e) ↦
      let absent : filled.cas d ≡ none = filled-cas d ∙ rw e refl in absurd (cc (absent, h))
]

listed-Codes : Codes codec listed
unfolding server_program
listed-Codes = record { parses = refl; parses_line = refl; bound = omega arith }

-- After the first machine has put its object.
abbrev first : Tiered Store
first = (put_tiered digest (some (client digest codec)) key built (object ∷ []) fresh).0

abbrev second : Tiered Store
second = record fresh { world = first.world }

missing : lookup key nothing ≡ ok none
unfolding server_program
missing = refl

first-ok :
    (put_tiered digest (some (client digest codec)) key built (object ∷ []) fresh).1 ≡ ok result
first-ok =
    (put_tiered-put digest (some (client digest codec)) key built (object ∷ []) fresh).0 ∙ put-built

shared-hit_example :
    ((lookup_tiered digest (some (client digest codec)) key second).1 ≡ ok (some listed))
    × ((restore digest listed.outputs
          (lookup_tiered digest (some (client digest codec)) key second).0.local
          clean).1
        ≡ ok tt)
shared-hit_example =
    shared-hit digest codec key built (object ∷ []) fresh second result clean nothing-IsSound
      filled-IsSmall nothing-IsKept listed-Codes first-ok nothing-IsSound missing refl

-- ===== src/Remote/Server/Guards.antt =====
-- internal/remote/server.go: what a request can do to the store.
use buildforge.Prelude.{
  ℕ, ◌≡◌, ◌≢◌, refl, sym, ap, ◌∙◌, subst, Str, bytes, str_eq, str_eq_iff, Str-cases, true, false,
  List, [], update, update_self, update_ne, none, some, Bool-cases, Option-cases, Result-cases, inl,
  inr, if◌then◌else◌, length, ◌≤◌,
}
use buildforge.Manifest.{has_prefix}
use buildforge.Cache.Names.{is_name}
use buildforge.Cache.Store.{Entry, entry, Store, lookup, put_blob, put_entry, read_blob, write_blob}
use buildforge.Cache.Store.Sound.{IsSound}
use buildforge.Cache.Store.Restores.{recorded_entry}
use buildforge.Remote.Wire.{
  Method, method_get, method_put, method_other, Body, Request, Response, Codec, max_blob_bytes,
  read_body, cas_prefix, ac_prefix, trim_prefix,
}
use buildforge.Remote.Wire.Reads.{read_body-le}
use buildforge.Remote.Server.{answer, created, on_cas, on_ac, handle_cas, handle_ac, serve}

-- Every entry stands under its own key.
abbrev pub IsKeyed : Store → Type 0
IsKeyed s = (k : Str) (e : Entry) → s.ac k ≡ some (entry e) → e.key ≡ k

-- No blob is larger than what a body may be.
abbrev pub IsSmall : Store → Type 0
IsSmall s = (d : Str) (b : List ℕ) → s.cas d ≡ some b → length b ≤ max_blob_bytes

-- What a handler did to the store, with the key of the request.
record Careful (digest : List ℕ → Str) (key : Str) (s : Store) (p : Store × Response) : Type 0 where
  sound : IsSound digest s → IsSound digest p.0
  keyed : IsKeyed s → IsKeyed p.0
  small : IsSmall s → IsSmall p.0
  blobs : (d : Str) (b : List ℕ) → s.cas d ≡ some b → p.0.cas d ≡ some b
  entries : (q : Str) → q ≢ key → p.0.ac q ≡ s.ac q
  refused : p.1.status ≢ 201 → p.0 ≡ s

module _ (digest : List ℕ → Str) (key : Str) (s : Store) where
  same-Careful : (r : Response) → Careful digest key s (s, r)
  same-Careful r = record {
    sound = λ v. v;
    keyed = λ v. v;
    small = λ v. v;
    blobs = λ d b h. h;
    entries = λ q h. refl;
    refused = λ h. refl;
  }

  added-Careful :
      (d : Str) (b : List ℕ) (r : Response)
      → digest b ≡ d
      → length b ≤ max_blob_bytes
      → s.cas d ≡ none
      → r.status ≡ 201
      → Careful digest key s (record s { cas = update s.cas d (some b) }, r)
  added-Careful d b r e bound absent created = record {
    sound = λ v q c f. elim (Str-cases d q) [
      | inl same ↦
          let eq : some b ≡ some c =
            sym (update_self s.cas d (some b)) ∙ ap (update s.cas d (some b)) same ∙ f in
          let content : b ≡ c = cc eq in sym (ap digest content) ∙ e ∙ same
      | inr (ne, _) ↦ v q c (sym (update_ne s.cas d (some b) q ne) ∙ f)
    ];
    keyed = λ v. v;
    small = λ v q c f. elim (Str-cases d q) [
      | inl same ↦
          let eq : some b ≡ some c =
            sym (update_self s.cas d (some b)) ∙ ap (update s.cas d (some b)) same ∙ f in
          let content : b ≡ c = cc eq in subst (λ x. length x ≤ max_blob_bytes) content bound
      | inr (ne, _) ↦ v q c (sym (update_ne s.cas d (some b) q ne) ∙ f)
    ];
    blobs = λ q c h. elim (Str-cases d q) [
      | inl same ↦ absurd (cc (h, absent, ap s.cas same))
      | inr (ne, _) ↦ update_ne s.cas d (some b) q ne ∙ h
    ];
    entries = λ q h. refl;
    refused = λ h. absurd (h created);
  }

  recorded-Careful :
      (e : Entry) (r : Response)
      → e.key ≡ key
      → r.status ≡ 201
      → Careful digest key s (recorded_entry e s, r)
  recorded-Careful e r same created = record {
    sound = λ v. v;
    keyed = λ v k f h. elim (Str-cases e.key k) [
      | inl here ↦
          let eq : some (entry e) ≡ some (entry f) =
            sym (update_self s.ac e.key (some (entry e)))
            ∙ ap (update s.ac e.key (some (entry e))) here
            ∙ h in
          let stored : e ≡ f = cc eq in sym (ap (λ (x : Entry). x.key) stored) ∙ here
      | inr (ne, _) ↦ v k f (sym (update_ne s.ac e.key (some (entry e)) k ne) ∙ h)
    ];
    small = λ v. v;
    blobs = λ d b h. h;
    entries = λ q h. update_ne s.ac e.key (some (entry e)) q (λ x. h (sym x ∙ same));
    refused = λ h. absurd (h created);
  }

  write_blob-Careful :
      (d : Str) (b : List ℕ)
      → length b ≤ max_blob_bytes
      → Careful digest key s (created (write_blob digest d b s))
  unfolding put_blob write_blob created
  write_blob-Careful d b bound = elim (Bool-cases (str_eq (digest b) d)) [
    | inr w ↦ rw (w, write_blob) (same-Careful _)
    | inl w ↦ elim (Bool-cases (is_name d)) [
      | inr n ↦ rw (w, n, write_blob, put_blob) (same-Careful _)
      | inl n ↦ elim (Option-cases (s.cas d)) [
        | inl absent ↦
            rw (w, n, absent, write_blob, put_blob)
              (added-Careful d b _ ((str_eq_iff (digest b) d).0 w) bound absent refl)
        | inr (c, there) ↦ rw (w, n, there, write_blob, put_blob) (same-Careful _)
      ]
    ]
  ]

  put_entry-Careful : (e : Entry) → e.key ≡ key → Careful digest key s (created (put_entry e s))
  unfolding put_entry created
  put_entry-Careful e same = elim (Bool-cases (is_name e.key)) [
    | inr n ↦ rw (n, put_entry) (same-Careful _)
    | inl n ↦ rw (n, put_entry) (recorded-Careful e _ same refl)
  ]

module _ (digest : List ℕ → Str) (body : Body) (s : Store) where
  on_cas-Careful :
      (key : Str) (m : Method) (name : Str) → Careful digest key s (on_cas digest m name body s)
  unfolding on_cas
  on_cas-Careful key method_get name = elim (Result-cases (read_blob digest name s)) [
    | inl (b, f) ↦ rw (f, on_cas) (same-Careful digest key s _)
    | inr (x, f) ↦ rw (f, on_cas) (same-Careful digest key s _)
  ]
  on_cas-Careful key method_put name = elim (Result-cases (read_body body)) [
    | inr (x, f) ↦ rw (f, on_cas) (same-Careful digest key s _)
    | inl (b, f) ↦ rw (f, on_cas) (write_blob-Careful digest key s name b (read_body-le body b f))
  ]
  on_cas-Careful key method_other name = same-Careful digest key s _

  on_ac-Careful :
      (codec : Codec) (m : Method) (key : Str)
      → Careful digest key s (on_ac digest codec m key body s)
  unfolding on_ac
  on_ac-Careful codec method_get key = elim (Result-cases (lookup key s)) [
    | inr (x, f) ↦ rw (f, on_ac) (same-Careful digest key s _)
    | inl (found, f) ↦ elim (Option-cases found) [
      | inl missing ↦ rw (f, missing, on_ac) (same-Careful digest key s _)
      | inr (x, there) ↦ rw (f, there, on_ac) (same-Careful digest key s _)
    ]
  ]
  on_ac-Careful codec method_put key = elim (Result-cases (read_body body)) [
    | inr (x, f) ↦ rw (f, on_ac) (same-Careful digest key s _)
    | inl (b, f) ↦ elim (Option-cases (codec.unmarshal b)) [
      | inl bad ↦ rw (f, bad, on_ac) (same-Careful digest key s _)
      | inr (x, parsed) ↦ elim (Str-cases x.key key) [
        | inr (_, w) ↦ rw (f, parsed, w, on_ac) (same-Careful digest key s _)
        | inl w ↦
            let t = (str_eq_iff x.key key).1 w in
            rw (f, parsed, t, on_ac) (put_entry-Careful digest key s x w)
      ]
    ]
  ]
  on_ac-Careful codec method_other key = same-Careful digest key s _

module _ (digest : List ℕ → Str) (codec : Codec) (r : Request) (s : Store) where
  key_of : Str
  key_of = trim_prefix r.path ac_prefix

  serve-cas : has_prefix r.path cas_prefix ≡ true → serve digest codec r s ≡ handle_cas digest r s
  unfolding serve
  serve-cas c = rw (c, serve) refl

  serve-ac :
      has_prefix r.path cas_prefix ≡ false
      → has_prefix r.path ac_prefix ≡ true
      → serve digest codec r s ≡ handle_ac digest codec r s
  unfolding serve
  serve-ac c a = rw (c, a, serve) refl

  serve-other :
      has_prefix r.path cas_prefix ≡ false
      → has_prefix r.path ac_prefix ≡ false
      → serve digest codec r s
        ≡ (s, if str_eq r.path (bytes "/healthz") then answer 200 (bytes "ok\n") else answer 404 [])
  unfolding serve
  serve-other c a = elim (Bool-cases (str_eq r.path (bytes "/healthz"))) [
    | inl h ↦ rw (c, a, h, serve) refl
    | inr h ↦ rw (c, a, h, serve) refl
  ]

  serve-Careful : Careful digest key_of s (serve digest codec r s)
  unfolding serve handle_cas handle_ac key_of
  serve-Careful = elim (Bool-cases (has_prefix r.path cas_prefix)) [
    | inl c ↦
        subst (Careful digest key_of s) (sym (serve-cas c))
          (on_cas-Careful digest r.body s key_of r.method (trim_prefix r.path cas_prefix))
    | inr c ↦ elim (Bool-cases (has_prefix r.path ac_prefix)) [
      | inl a ↦
          subst (Careful digest key_of s) (sym (serve-ac c a))
            (on_ac-Careful digest r.body s codec r.method key_of)
      | inr a ↦
          subst (Careful digest key_of s) (sym (serve-other c a)) (same-Careful digest key_of s _)
    ]
  ]

-- What the server holds: blobs under their digests and within the bound, and entries under their
-- keys.
pub record IsKept (digest : List ℕ → Str) (s : Store) : Type 0 where
  pub sound : IsSound digest s
  pub keyed : IsKeyed s
  pub small : IsSmall s

-- Whatever a client sends, the server's store keeps its invariant: each blob has the digest that it is
-- filed under and is no larger than the bound, and each entry has the key that it is filed under.
pub serve-IsKept :
    (digest : List ℕ → Str) (codec : Codec) (r : Request) (s : Store)
    → IsKept digest s
    → IsKept digest (serve digest codec r s).0
serve-IsKept digest codec r s v =
    let t = serve-Careful digest codec r s in
    record { sound = t.sound v.sound; keyed = t.keyed v.keyed; small = t.small v.small }

-- A request changes no blob that the server holds, and no entry but the one that its path names.
pub serve-keeps :
    (digest : List ℕ → Str) (codec : Codec) (r : Request) (s : Store)
    → ((d : Str) (b : List ℕ) → s.cas d ≡ some b → (serve digest codec r s).0.cas d ≡ some b)
      × ((q : Str) → q ≢ trim_prefix r.path ac_prefix → (serve digest codec r s).0.ac q ≡ s.ac q)
unfolding key_of
serve-keeps digest codec r s = let t = serve-Careful digest codec r s in (t.blobs, t.entries)

-- A request that is answered with any status but 201 leaves the server's store as it was.
pub serve-refused :
    (digest : List ℕ → Str) (codec : Codec) (r : Request) (s : Store)
    → (serve digest codec r s).1.status ≢ 201
    → (serve digest codec r s).0 ≡ s
serve-refused digest codec r s = (serve-Careful digest codec r s).refused

-- ===== src/Cache/Store/Restores.antt =====
-- internal/cache/store.go: `Put` followed by `Lookup` and `Restore`, and what `Restore` may write.
use buildforge.Prelude.{
  Bool, Option, false, if◌then◌else◌, arith, ℕ, ◌≡◌, refl, sym, ap, subst, Str, str_eq, str_eq_iff,
  Str-cases, true, false, List, [], ◌∷◌, update, update_self, update_ne, ◌∙◌, none, some, ok, err,
  Bool-cases, Option-cases, Result-cases, inl, inr, ◌⊎◌,
}
use buildforge.Cache.Names.{is_name}
use buildforge.Cache.Store.{
  OutputFile, Entry, Saved, damaged, entry, Store, File, Workspace, bad_name, PutResult, has_blob,
  all_present, lookup, put_entry, put_outputs, compare_previous, put, restore, local_path,
  file_mode,
}
use buildforge.Cache.Store.Sound.{IsSound, put_outputs-Listed, all_present-Extends, restore-ok}

-- The file is one of the outputs whose path leads there, with its digest and its permissions.
abbrev pub IsOutput : (List ℕ → Str) → List OutputFile → Str → File → Type 0
IsOutput digest [] q f = ⊥
IsOutput digest (o ∷ os) q f =
    ((local_path o.path ≡ q) × (digest f.content ≡ o.digest) × (f.perm ≡ file_mode o.mode))
    ⊎ IsOutput digest os q f

-- Whatever the store holds, and whether or not it succeeds, `Restore` leaves in the workspace what
-- was there, or files at the path of one of the outputs with the digest and the permissions of it: it
-- never restores damaged bytes.
pub restore-IsOutput :
    (digest : List ℕ → Str) (os : List OutputFile) (s : Store) (ws : Workspace) (q : Str)
    → ((restore digest os s ws).0 q ≡ ws q)
      ⊎ ((f : File) × ((restore digest os s ws).0 q ≡ some f) × IsOutput digest os q f)
unfolding restore
restore-IsOutput digest [] s ws q = inl refl
restore-IsOutput digest (o ∷ os) s ws q = elim (Bool-cases (is_name o.digest)) [
  | inr bad ↦ rw (bad, restore) (inl refl)
  | inl n ↦ elim (Option-cases (s.cas o.digest)) [
    | inl missing ↦ rw (n, missing, restore) (inl refl)
    | inr (b, e) ↦ elim (Bool-cases (str_eq (digest b) o.digest)) [
      | inr bad ↦ rw (n, e, bad, restore) (inl refl)
      | inl same ↦
          let f : File = record { content = b; perm = file_mode o.mode } in
          let ws' : Workspace = update ws (local_path o.path) (some f) in
          rw (n, e, same, restore)
            (elim (restore-IsOutput digest os s ws' q) [
              | inr (g, there, listed) ↦ inr (g, there, inr listed)
              | inl kept ↦ elim (Str-cases (local_path o.path) q) [
                | inl here ↦ inr (
                  f,
                  kept
                      ∙ subst (λ z. ws' z ≡ some f) here
                          (update_self ws (local_path o.path) (some f)),
                  inl (here, (str_eq_iff (digest b) o.digest).0 same, refl),
                )
                | inr (ne, _) ↦ inl (kept ∙ update_ne ws (local_path o.path) (some f) q ne)
              ]
            ])
    ]
  ]
]

present_named :
    (n : Bool) (saved : Option Saved) (s : Store) (key : Str) (e : Entry)
    → (if n
        then elim saved [
          | none ↦ ok none
          | some damaged ↦ ok none
          | some (entry f) ↦ if all_present f.outputs s then ok (some f) else ok none
        ]
        else err (bad_name key))
      ≡ ok (some e)
    → all_present e.outputs s ≡ true
present_named false saved s key e h = cc
present_named true none s key e h = cc
present_named true (some damaged) s key e h = cc
present_named true (some (entry f)) s key e h = ground arith

-- An entry that is found has all its blobs.
pub lookup-present :
    (key : Str) (s : Store) (e : Entry)
    → lookup key s ≡ ok (some e)
    → all_present e.outputs s ≡ true
unfolding lookup
lookup-present key s e h = present_named (is_name key) (s.ac key) s key e h

abbrev pub recorded_entry : Entry → Store → Store
recorded_entry e s = record s { ac = update s.ac e.key (some (entry e)) }

lookup-recorded :
    (e : Entry) (s : Store)
    → is_name e.key ≡ true
    → all_present e.outputs s ≡ true
    → lookup e.key (recorded_entry e s) ≡ ok (some e)
unfolding lookup has_blob
lookup-recorded e s n h =
    let there = update_self s.ac e.key (some (entry e)) in
    let present : all_present e.outputs (recorded_entry e s) ≡ true =
      all_present-Extends e.outputs s (recorded_entry e s) (λ d x. x) h in
    rw (n, there, present, lookup) refl

pub put_entry-named :
    (e : Entry) (s : Store) → is_name e.key ≡ true → put_entry e s ≡ (recorded_entry e s, none)
unfolding put_entry
put_entry-named e s n = rw (n, put_entry) refl

pub put_entry-refused :
    (e : Entry) (s : Store) → is_name e.key ≡ false → put_entry e s ≡ (s, some (bad_name e.key))
unfolding put_entry
put_entry-refused e s n = rw (n, put_entry) refl

-- When `Put` succeeds on a store in which every blob has the digest that it is filed under, `Lookup`
-- then finds the entry that it returned, `Restore` of that entry succeeds in every workspace, and
-- every blob still has its digest.
pub put-lookup :
    (digest : List ℕ → Str) (key : Str) (ws : Workspace) (rels : List Str) (s : Store)
    (r : PutResult) (elsewhere : Workspace)
    → IsSound digest s
    → (put digest key ws rels s).1 ≡ ok r
    → (lookup key (put digest key ws rels s).0 ≡ ok (some r.stored))
      × ((restore digest r.stored.outputs (put digest key ws rels s).0 elsewhere).1 ≡ ok tt)
      × IsSound digest (put digest key ws rels s).0
unfolding put
put-lookup digest key ws rels s r elsewhere v h =
    let q = put_outputs digest ws rels s in
    elim (Result-cases q.1) [
      | inr (x, failed) ↦
          let eq : put digest key ws rels s ≡ (q.0, err x) = rw (failed, put) refl in
          absurd (cc (h, ap (λ y. y.1) eq))
      | inl (os, done) ↦
          let e : Entry = record { key = key; outputs = os } in
          elim (Bool-cases (is_name key)) [
            | inr bad ↦
                let eq : put digest key ws rels s ≡ (q.0, err (bad_name key)) =
                  rw (done, put_entry-refused e q.0 bad, put)
                    (ap (λ x. (x.0, err (bad_name key))) (put_entry-refused e q.0 bad)) in
                absurd (cc (h, ap (λ y. y.1) eq))
            | inl n ↦
                let p : PutResult = record {
                  stored = e;
                  nondeterministic = compare_previous key os q.0;
                } in
                let eq : put digest key ws rels s ≡ (recorded_entry e q.0, ok p) =
                  rw (done, put_entry-named e q.0 n, put)
                    (ap (λ x. (x.0, ok p)) (put_entry-named e q.0 n)) in
                let same : p ≡ r = cc (h, ap (λ y. y.1) eq) in
                let t = put_outputs-Listed digest ws rels s os v done in
                let Kept : Store → PutResult → Type 0 = λ z y.
                  (lookup key z ≡ ok (some y.stored))
                  × ((restore digest y.stored.outputs z elsewhere).1 ≡ ok tt)
                  × IsSound digest z in
                subst (λ z. Kept z.0 r) (sym eq)
                  (subst (Kept (recorded_entry e q.0)) same (
                    lookup-recorded e q.0 n t.present,
                    restore-ok digest os (recorded_entry e q.0) elsewhere t.sound
                        (all_present-Extends os q.0 (recorded_entry e q.0) (λ d x. x) t.present),
                    t.sound,
                  ))
          ]
    ]

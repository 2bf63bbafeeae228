-- ===== src/Remote/Tiered/Usable.antt =====
-- internal/remote/tiered.go, `Lookup`: what is returned, and what it leaves in the local store.
use buildforge.Prelude.{
  ℕ, ◌≡◌, refl, sym, ap, subst, Str, true, List, Option, none, some, Result, ok, Bool-cases,
  Option-cases, Result-cases, ◌∙◌, inl, inr, ◌⊎◌,
}
use buildforge.Cache.Names.{is_name}
use buildforge.Cache.Store.{
  Entry, Store, Workspace, StoreError, has_blob, all_present, lookup, restore,
}
use buildforge.Cache.Store.Sound.{IsSound, all_present-Extends, restore-ok}
use buildforge.Cache.Store.Restores.{
  lookup-present, recorded_entry, put_entry-named, put_entry-refused,
}
use buildforge.Remote.Tiered.{
  Client, Tiered, hit_local, hit_remote, miss, error, fetch, install, lookup_remote, lookup_tiered,
}
use buildforge.Remote.Tiered.Fetches.{fetch-Fetched}

-- No error is returned, and an entry that is returned can be restored.
abbrev pub Usable :
    {W : Type 0} → (List ℕ → Str) → Workspace → Tiered W × Result StoreError (Option Entry) → Type 0
Usable digest ws r =
    IsSound digest r.0.local
    × ((r.1 ≡ ok none)
        ⊎ ((e : Entry) × (r.1 ≡ ok (some e)) × ((restore digest e.outputs r.0.local ws).1 ≡ ok tt)))

module _ {W : Type 0} (digest : List ℕ → Str) (ws : Workspace) where
  -- `install`, with what `put_entry` gave.
  abbrev installed :
      Entry → Tiered W → Store × Option StoreError → Tiered W × Result StoreError (Option Entry)
  unfolding hit_remote error
  installed e t p = elim p.1 [
    | some _ ↦ (error (record t { local = p.0 }), ok none)
    | none ↦ (hit_remote (record t { local = p.0 }), ok (some e))
  ]

  install-Usable :
      (e : Entry) (t : Tiered W)
      → IsSound digest t.local
      → all_present e.outputs t.local ≡ true
      → Usable digest ws (install e t)
  unfolding install hit_remote error has_blob
  install-Usable e t v h = elim (Bool-cases (is_name e.key)) [
    | inl n ↦
        subst (λ p. Usable digest ws (installed e t p)) (sym (put_entry-named e t.local n))
          (
            v,
            inr (
              e,
              refl,
              restore-ok digest e.outputs (recorded_entry e t.local) ws v
                  (all_present-Extends e.outputs t.local (recorded_entry e t.local) (λ d x. x) h),
            ),
          )
    | inr n ↦
        subst (λ p. Usable digest ws (installed e t p)) (sym (put_entry-refused e t.local n))
          (v, inl refl)
  ]

module _ {W X : Type 0} (digest : List ℕ → Str) (ws : Workspace) where
  lookup_remote-Usable :
      (c : Client W X) (key : Str) (t : Tiered W)
      → IsSound digest t.local
      → Usable digest ws (lookup_remote digest c key t)
  unfolding lookup_remote error miss
  lookup_remote-Usable c key t v = elim (Result-cases (c.get_entry t.world key).1) [
    | inr (x, failed) ↦ rw (failed, lookup_remote) (v, inl refl)
    | inl (found, answered) ↦ elim (Option-cases found) [
      | inl missing ↦ rw (answered, missing, lookup_remote) (v, inl refl)
      | inr (e, there) ↦
          let t' : Tiered W = record t { world = (c.get_entry t.world key).0 } in
          let f = fetch-Fetched digest c e.outputs t' v in
          elim (Bool-cases (fetch digest c e.outputs t').1) [
            | inr stopped ↦ rw (answered, there, stopped, lookup_remote) (f.sound, inl refl)
            | inl all ↦
                rw (answered, there, all, lookup_remote)
                  (install-Usable digest ws e (fetch digest c e.outputs t').0 f.sound
                    (f.present all))
          ]
    ]
  ]

  without_local :
      (client : Option (Client W X)) (key : Str) (t : Tiered W)
      → IsSound digest t.local
      → Usable {W = W} digest ws
          (elim client [ none ↦ (miss t, ok none) | some c ↦ lookup_remote digest c key t ])
  unfolding miss
  without_local none key t v = (v, inl refl)
  without_local (some c) key t v = lookup_remote-Usable c key t v

-- On a local store in which every blob has the digest that it is filed under, `Lookup` never fails,
-- whatever the server answers and whether or not there is one: it returns no entry, or one that
-- `Restore` then restores in every workspace; and every blob still has its digest.
pub lookup_tiered-Usable :
    {W X : Type 0} (digest : List ℕ → Str) (client : Option (Client W X)) (key : Str) (t : Tiered W)
    (ws : Workspace)
    → IsSound digest t.local
    → Usable digest ws (lookup_tiered digest client key t)
unfolding lookup_tiered hit_local miss
lookup_tiered-Usable digest client key t ws v =
    let missed = without_local digest ws client key t v in
    elim (Result-cases (lookup key t.local)) [
      | inr (x, failed) ↦ rw (failed, lookup_tiered) missed
      | inl (found, answered) ↦ elim (Option-cases found) [
        | inl absent ↦ rw (answered, absent, lookup_tiered) missed
        | inr (e, there) ↦
            rw (answered, there, lookup_tiered)
              (
                v,
                inr (
                  e,
                  refl,
                  restore-ok digest e.outputs t.local ws v
                      (lookup-present key t.local e (answered ∙ ap ok there)),
                ),
              )
      ]
    ]

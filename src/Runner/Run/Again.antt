-- ===== src/Runner/Run/Again.antt =====
-- internal/runner/runner.go, `Run` with the local store as its cache: an action that runs a second
-- time.
use buildforge.Prelude.{
  ℕ, ◌≡◌, refl, sym, ap, ◌∙◌, subst, Str, str_eq, true, false, List, [], ◌∷◌, Option, none, some,
  ok, Bool-cases, Option-cases, Result-cases, inl, inr,
}
use buildforge.Manifest.{Action}
use buildforge.Cache.Names.{is_name}
use buildforge.Cache.Store.{Entry, Store, StoreError, lookup, restore}
use buildforge.Cache.Store.Sound.{IsSound, restore-ok}
use buildforge.Cache.Store.Restores.{put-lookup, lookup-present}
use buildforge.Runner.Result.{RunResult}
use buildforge.Runner.Run.{
  Box, Ending, succeeded, exited, broken, ActionError, Site, Runner, Report, Scene, first_missing,
  harvest, new_sandbox, cache_key, try_restore, keep, collect, judge, execute, attempt, run_command,
  run, cached_result,
}
use buildforge.Runner.Run.Caches.{store_cache}
use buildforge.Runner.Run.Named.{try_restore-Restored}
use buildforge.Runner.Run.Puts.{put-total}

key_not_empty : (key : Str) → is_name key ≡ true → str_eq key [] ≡ false
unfolding str_eq is_name
key_not_empty [] h = cc
key_not_empty (c ∷ key) h = refl

-- After a report without an error the store holds an entry under the key.
record Remembered {W O : Type 0} (digest : List ℕ → Str) (key : Str) (p : Report W Store O)
    : Type 0 where
  sound : p.2 ≡ none → IsSound digest p.0.cached
  found : p.2 ≡ none → (e : Entry) × (lookup key p.0.cached ≡ ok (some e))

module _ {W O : Type 0} (digest : List ℕ → Str) (hex : (b : List ℕ) → is_name (digest b) ≡ true)
    (r : Runner W Store StoreError O) (stores : r.cache ≡ some (store_cache digest)) (a : Action)
    (key : Str) (n : is_name key ≡ true) where
  failed-Remembered :
      (s : Site W Store) (res : Option RunResult) (e : ActionError O)
      → Remembered {W = W} {O = O} digest key (s, res, some e)
  failed-Remembered s res e = record { sound = λ h. cc; found = λ h. cc }

  keep-Remembered :
      (res : RunResult) (s : Site W Store)
      → IsSound digest s.cached
      → first_missing a.outputs s.files ≡ none
      → Remembered digest key (keep r a key res s)
  unfolding keep
  keep-Remembered res s v m =
      let (p, done) = put-total digest hex key s.files a.outputs s.cached n m in
      let (found, _, sound) = put-lookup digest key s.files a.outputs s.cached p s.files v done in
      rw (stores, key_not_empty key n, done, keep)
        (record { sound = λ h. sound; found = λ h. (p.stored, found) })

  collect-Remembered :
      (res : RunResult) (box : Option Box) (s : Site W Store)
      → IsSound digest s.cached
      → Remembered digest key (collect r a key res box s)
  unfolding collect
  collect-Remembered res none s v = elim (Option-cases (first_missing a.outputs s.files)) [
    | inr (p, e) ↦ rw (e, collect) (failed-Remembered s (some res) _)
    | inl e ↦ rw (e, collect) (keep-Remembered res s v e)
  ]
  collect-Remembered res (some b) s v =
      let h = harvest a.outputs b s.files in
      let s' : Site W Store = record s { files = h.0 } in
      elim (Option-cases h.1) [
        | inr (p, e) ↦ rw (e, collect) (failed-Remembered s' (some res) _)
        | inl e ↦ elim (Option-cases (first_missing a.outputs h.0)) [
          | inr (p, f) ↦ rw (e, f, collect) (failed-Remembered s' (some res) _)
          | inl f ↦ rw (e, f, collect) (keep-Remembered res s' v f)
        ]
      ]

  judge-Remembered :
      (res : RunResult) (scene : Scene W Store O)
      → IsSound digest scene.1.cached
      → Remembered digest key (judge r a key res scene)
  unfolding judge
  judge-Remembered res (box, s, ran) v = by_ending ran.ending refl
    where
      by_ending :
          (x : Ending O) → ran.ending ≡ x → Remembered digest key (judge r a key res (box, s, ran))
      by_ending succeeded e = rw (e, judge) (collect-Remembered res box s v)
      by_ending (exited code) e = elim (Option-cases (r.shell.ctx_err s.world)) [
        | inl go ↦ rw (e, go, judge) (failed-Remembered s _ _)
        | inr (c, stop) ↦ rw (e, stop, judge) (failed-Remembered s _ _)
      ]
      by_ending (broken o) e = elim (Option-cases (r.shell.ctx_err s.world)) [
        | inl go ↦ rw (e, go, judge) (failed-Remembered s _ _)
        | inr (c, stop) ↦ rw (e, stop, judge) (failed-Remembered s _ _)
      ]

  attempt-Remembered :
      (box : Option Box) (s : Site W Store)
      → IsSound digest s.cached
      → Remembered digest key (attempt r a key box s)
  unfolding attempt execute
  attempt-Remembered none s v = judge-Remembered _ (execute r a none s) v
  attempt-Remembered (some b) s v = judge-Remembered _ (execute r a (some b) s) v

  run_command-Remembered :
      (s : Site W Store) → IsSound digest s.cached → Remembered digest key (run_command r a key s)
  unfolding run_command
  run_command-Remembered s v = elim (Bool-cases r.sandboxed) [
    | inr e ↦ rw (e, run_command) (attempt-Remembered none s v)
    | inl e ↦ elim (Result-cases (new_sandbox a.inputs (λ _. none))) [
      | inl (box, f) ↦ rw (e, f, run_command) (attempt-Remembered (some box) s v)
      | inr (p, f) ↦ rw (e, f, run_command) (failed-Remembered s none _)
    ]
  ]

  -- An entry that the store holds in full is a hit.
  try_restore-hit :
      (e : Entry) (s : Site W Store)
      → IsSound digest s.cached
      → lookup key s.cached ≡ ok (some e)
      → (try_restore r a key s).1
        ≡ some (cached_result a.name (r.shell.now s.world) (r.shell.now s.world))
  unfolding try_restore
  try_restore-hit e s v found =
      let restored =
        restore-ok digest e.outputs s.cached s.files v (lookup-present key s.cached e found) in
      rw (stores, key_not_empty key n, found, restored, try_restore) refl

  try_restore-files :
      (e : Entry) (s : Site W Store)
      → IsSound digest s.cached
      → lookup key s.cached ≡ ok (some e)
      → (try_restore r a key s).0.files ≡ (restore digest e.outputs s.cached s.files).0
  unfolding try_restore
  try_restore-files e s v found =
      let restored =
        restore-ok digest e.outputs s.cached s.files v (lookup-present key s.cached e found) in
      rw (stores, key_not_empty key n, found, restored, try_restore) refl

  run-hit :
      (e : Entry) (s : Site W Store)
      → IsSound digest s.cached
      → lookup key s.cached ≡ ok (some e)
      → first_missing a.inputs s.files ≡ none
      → r.key s.files a ≡ ok key
      → ((run r a s).1 ≡ some (cached_result a.name (r.shell.now s.world) (r.shell.now s.world)))
        × ((run r a s).2 ≡ none)
        × ((run r a s).0.files ≡ (restore digest e.outputs s.cached s.files).0)
  unfolding run cache_key
  run-hit e s v found inputs k =
      rw (inputs, stores, k, try_restore-hit e s v found, run, cache_key)
        (refl, refl, try_restore-files e s v found)

  -- A miss leaves the store as it is.
  try_restore-cached : (s : Site W Store) → (try_restore r a key s).0.cached ≡ s.cached
  unfolding try_restore
  try_restore-cached s = elim (Result-cases (lookup key s.cached)) [
    | inr (x, f) ↦ rw (stores, key_not_empty key n, f, try_restore) refl
    | inl (found, f) ↦ elim (Option-cases found) [
      | inl missed ↦ rw (stores, key_not_empty key n, f, missed, try_restore) refl
      | inr (e, there) ↦ elim (Result-cases (restore digest e.outputs s.cached s.files).1) [
        | inr (x, g) ↦ rw (stores, key_not_empty key n, f, there, g, try_restore) refl
        | inl (u, g) ↦ rw (stores, key_not_empty key n, f, there, g, try_restore) refl
      ]
    ]
  ]

  run-Remembered :
      (s : Site W Store) (res : RunResult)
      → IsSound digest s.cached
      → r.key s.files a ≡ ok key
      → (run r a s).1 ≡ some res
      → res.cached ≡ false
      → Remembered digest key (run r a s)
  unfolding run cache_key
  run-Remembered s res v k returned ran = elim (Option-cases (first_missing a.inputs s.files)) [
    | inr (p, e) ↦ rw (e, run) (failed-Remembered s none _)
    | inl e ↦
        let t = try_restore r a key s in
        elim (Option-cases t.1) [
          | inl missed ↦
              rw (e, stores, k, missed, run, cache_key)
                (run_command-Remembered t.0 (subst (IsSound digest) (sym (try_restore-cached s)) v))
          | inr (x, hit) ↦
              let eq : (run r a s).1 ≡ some x = rw (e, stores, k, hit, run, cache_key) refl in
              let same : x ≡ res = cc (returned, eq) in
              absurd (
                cc (
                  ran,
                  ap (λ (z : RunResult). z.cached) same,
                  (try_restore-Restored r a key s).cached x hit,
                ))
        ]
  ]

  -- Once an action was executed without an error over a store whose blobs have the digests that they
  -- are filed under, that store holds an entry under its key. With the store as the execution left it,
  -- the same key and all inputs there, a second `Run` reports a cached result without an error, and
  -- leaves the workspace as `Restore` of that entry makes it, which succeeds. The key and all digests
  -- have to be names that the store takes.
  pub run-again :
      (s s2 : Site W Store) (res : RunResult)
      → IsSound digest s.cached
      → r.key s.files a ≡ ok key
      → (run r a s).1 ≡ some res
      → (run r a s).2 ≡ none
      → res.cached ≡ false
      → s2.cached ≡ (run r a s).0.cached
      → first_missing a.inputs s2.files ≡ none
      → r.key s2.files a ≡ ok key
      → (e : Entry) × (lookup key s2.cached ≡ ok (some e))
        × ((restore digest e.outputs s2.cached s2.files).1 ≡ ok tt)
        × ((run r a s2).1
            ≡ some (cached_result a.name (r.shell.now s2.world) (r.shell.now s2.world)))
        × ((run r a s2).2 ≡ none)
        × ((run r a s2).0.files ≡ (restore digest e.outputs s2.cached s2.files).0)
  run-again s s2 res v k returned done ran same inputs k2 =
      let m = run-Remembered s res v k returned ran in
      let (e, held) = m.found done in
      let sound = subst (IsSound digest) (sym same) (m.sound done) in
      let found = ap (lookup key) same ∙ held in
      let restored =
        restore-ok digest e.outputs s2.cached s2.files sound
          (lookup-present key s2.cached e found) in
      let (hit, fine, files) = run-hit e s2 sound found inputs k2 in
      (e, found, restored, hit, fine, files)

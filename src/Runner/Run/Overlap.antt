-- ===== src/Runner/Run/Overlap.antt =====
-- internal/runner/sandbox.go, `harvest`: an output whose path in the sandbox is still the link to an
-- input.
use buildforge.Prelude.{
  ◌≡◌, ◌≢◌, refl, sym, ap, ◌∙◌, Str, Str-cases, true, List, [], ◌∷◌, Option, none, some, ok, err,
  Option-cases, Result-cases, inl, inr, update, update_self, update_ne, In, arith,
}
use buildforge.Manifest.{Action}
use buildforge.Cache.Store.{File, Workspace}
use buildforge.Runner.Result.{RunResult}
use buildforge.Runner.Run.Hermetic.{run-missing, run-uncached}
use buildforge.Runner.Run.{
  link, regular, Box, Ending, succeeded, exited, broken, Ran, Site, Runner, first_missing, harvest,
  new_sandbox, collect, judge, execute, attempt, run_command, run, environ, executed_result,
  failed_with, missing_output,
}

-- The first round of a harvest that moves all outputs.
record Moved (q : Str) (ps : List Str) (box : Box) (ws : Workspace) : Type 0 where
  file : Option File
  next : harvest (q ∷ ps) box ws ≡ harvest ps (update box q none) (update ws q file)
  inside : box q ≢ none
  of_link : box q ≡ some link → file ≡ none

harvest-Moved :
    (q : Str) (ps : List Str) (box : Box) (ws : Workspace)
    → (harvest (q ∷ ps) box ws).1 ≡ none
    → Moved q ps box ws
unfolding harvest
harvest-Moved q ps box ws h = elim (Option-cases (box q)) [
  | inl gone ↦
      let eq : (harvest (q ∷ ps) box ws).1 ≡ some q = rw (gone, harvest) refl in absurd (cc (h, eq))
  | inr (regular f, there) ↦ record {
    file = some f;
    next = rw (there, harvest) refl;
    inside = λ e. cc (e, there);
    of_link = λ e. cc (e, there);
  }
  | inr (link, there) ↦ elim (Option-cases (ws q)) [
    | inl lost ↦
        let eq : (harvest (q ∷ ps) box ws).1 ≡ some q = rw (there, lost, harvest) refl in
        absurd (cc (h, eq))
    | inr (f, found) ↦ record {
      file = none;
      next = rw (there, found, harvest) refl;
      inside = λ e. cc (e, there);
      of_link = λ e. refl;
    }
  ]
]

-- A path that is not in the sandbox stays as it is, when all outputs are moved.
harvest-absent :
    (ps : List Str) (box : Box) (ws : Workspace) (p : Str)
    → box p ≡ none
    → (harvest ps box ws).1 ≡ none
    → (harvest ps box ws).0 p ≡ ws p
unfolding harvest
harvest-absent [] box ws p e h = refl
harvest-absent (q ∷ ps) box ws p e h =
    let m = harvest-Moved q ps box ws h in
    elim (Str-cases q p) [
      | inl same ↦ absurd (m.inside (ap box same ∙ e))
      | inr (ne, _) ↦
          ap (λ (x : Workspace × Option Str). x.0 p) m.next
          ∙ harvest-absent ps (update box q none) (update ws q m.file) p
              (update_ne box q none p ne ∙ e) (sym (ap (λ x. x.1) m.next) ∙ h)
          ∙ update_ne ws q m.file p ne
    ]

-- An output that is still a link is lost when all outputs are moved.
harvest-linked :
    (ps : List Str) (box : Box) (ws : Workspace) (p : Str)
    → box p ≡ some link
    → In p ps
    → (harvest ps box ws).1 ≡ none
    → (harvest ps box ws).0 p ≡ none
unfolding harvest
harvest-linked [] box ws p e i h = absurd (omega arith)
harvest-linked (q ∷ ps) box ws p e i h =
    let m = harvest-Moved q ps box ws h in
    let h' = sym (ap (λ x. x.1) m.next) ∙ h in
    ap (λ (x : Workspace × Option Str). x.0 p) m.next ∙ elim (Str-cases q p) [
      | inl same ↦
          harvest-absent ps (update box q none) (update ws q m.file) p
            (ap (update box q none) (sym same) ∙ update_self box q none) h'
          ∙ ap (update ws q m.file) (sym same)
          ∙ update_self ws q m.file
          ∙ m.of_link (ap box same ∙ e)
      | inr (ne, f) ↦
          harvest-linked ps (update box q none) (update ws q m.file) p
            (update_ne box q none p ne ∙ e) (ground arith) h'
    ]

first_missing-lost :
    (ps : List Str) (ws : Workspace) (p : Str)
    → In p ps
    → ws p ≡ none
    → (q : Str) × (first_missing ps ws ≡ some q)
unfolding first_missing
first_missing-lost [] ws p i e = absurd (omega arith)
first_missing-lost (q ∷ ps) ws p i e = elim (Option-cases (ws q)) [
  | inl lost ↦ (q, rw (lost, first_missing) refl)
  | inr (f, there) ↦ elim (Str-cases q p) [
    | inl same ↦ absurd (cc (there, e, ap ws same))
    | inr (ne, c) ↦ rw (there, first_missing) (first_missing-lost ps ws p (ground arith) e)
  ]
]

-- A declared input is a link of the new sandbox.
new_sandbox-keeps :
    (ps : List Str) (b b' : Box) (p : Str)
    → b p ≡ some link
    → new_sandbox ps b ≡ ok b'
    → b' p ≡ some link
unfolding new_sandbox
new_sandbox-keeps [] b b' p h e = let same : b ≡ b' = cc e in sym (ap (λ z. z p) same) ∙ h
new_sandbox-keeps (q ∷ ps) b b' p h e = elim (Option-cases (b q)) [
  | inr (n, f) ↦
      let refused : new_sandbox (q ∷ ps) b ≡ err q = rw (f, new_sandbox) refl in
      absurd (cc (e, refused))
  | inl f ↦
      let goes_on : new_sandbox (q ∷ ps) b ≡ new_sandbox ps (update b q (some link)) =
        rw (f, new_sandbox) refl in
      new_sandbox-keeps ps (update b q (some link)) b' p
        (elim (Str-cases q p) [
          | inl same ↦ ap (update b q (some link)) (sym same) ∙ update_self b q (some link)
          | inr (ne, _) ↦ update_ne b q (some link) p ne ∙ h
        ])
        (sym goes_on ∙ e)
]

new_sandbox-linked :
    (ps : List Str) (b b' : Box) (p : Str) → In p ps → new_sandbox ps b ≡ ok b' → b' p ≡ some link
unfolding new_sandbox
new_sandbox-linked [] b b' p i e = absurd (omega arith)
new_sandbox-linked (q ∷ ps) b b' p i e = elim (Option-cases (b q)) [
  | inr (n, f) ↦
      let refused : new_sandbox (q ∷ ps) b ≡ err q = rw (f, new_sandbox) refl in
      absurd (cc (e, refused))
  | inl f ↦
      let goes_on : new_sandbox (q ∷ ps) b ≡ new_sandbox ps (update b q (some link)) =
        rw (f, new_sandbox) refl in
      let e' = sym goes_on ∙ e in
      elim (Str-cases q p) [
        | inl same ↦
            new_sandbox-keeps ps (update b q (some link)) b' p
              (ap (update b q (some link)) (sym same) ∙ update_self b q (some link)) e'
        | inr (ne, c) ↦ new_sandbox-linked ps (update b q (some link)) b' p (ground arith) e'
      ]
]

module _ {W C X O : Type 0} (r : Runner W C X O) (a : Action) (p : Str) where
  collect-fails :
      (key : Str) (res : RunResult) (b : Box) (s : Site W C)
      → b p ≡ some link
      → In p a.outputs
      → (collect r a key res (some b) s).2 ≢ none
  unfolding collect
  collect-fails key res b s e i h = elim (Option-cases (harvest a.outputs b s.files).1) [
    | inr (q, lost) ↦
        let eq : collect r a key res (some b) s ≡ (
          record s { files = (harvest a.outputs b s.files).0 },
          some res,
          some (record (failed_with a.name (missing_output q)) { stderr = res.stderr }),
        ) =
          rw (lost, collect) refl in
        cc (h, ap (λ x. x.2) eq)
    | inl moved ↦
        let gone = harvest-linked a.outputs b s.files p e i moved in
        let (q, missing) = first_missing-lost a.outputs (harvest a.outputs b s.files).0 p i gone in
        let eq : collect r a key res (some b) s ≡ (
          record s { files = (harvest a.outputs b s.files).0 },
          some res,
          some (record (failed_with a.name (missing_output q)) { stderr = res.stderr }),
        ) =
          rw (moved, missing, collect) refl in
        cc (h, ap (λ x. x.2) eq)
  ]

  judge-fails :
      (key : Str) (res : RunResult) (b : Box) (s : Site W C) (ran : Ran O)
      → b p ≡ some link
      → In p a.outputs
      → (judge r a key res (some b, s, ran)).2 ≢ none
  unfolding judge
  judge-fails key res b s ran e i = by_ending ran.ending refl
    where
      by_ending : (x : Ending O) → ran.ending ≡ x → (judge r a key res (some b, s, ran)).2 ≢ none
      by_ending succeeded f = rw (f, judge) (collect-fails key res b s e i)
      by_ending (exited code) f = elim (Option-cases (r.shell.ctx_err s.world)) [
        | inl go ↦ rw (f, go, judge) (λ h. cc h)
        | inr (c, stop) ↦ rw (f, stop, judge) (λ h. cc h)
      ]
      by_ending (broken o) f = elim (Option-cases (r.shell.ctx_err s.world)) [
        | inl go ↦ rw (f, go, judge) (λ h. cc h)
        | inr (c, stop) ↦ rw (f, stop, judge) (λ h. cc h)
      ]

-- With the sandbox and no cache, an action that declares one path both as an input and as an output
-- fails, whenever commands leave the link to that input in place.
pub run-overlap :
    {W C X O : Type 0} (r : Runner W C X O) (a : Action) (p : Str) (s : Site W C)
    → r.cache ≡ none
    → r.sandboxed ≡ true
    → In p a.inputs
    → In p a.outputs
    → ((w : W) (cmd env : List Str) (b : Box) (ws : Workspace)
        → b p ≡ some link
        → (r.shell.run_boxed w cmd env b ws).1 p ≡ some link)
    → (run r a s).2 ≢ none
unfolding run_command attempt execute environ
run-overlap r a p s no_cache boxed i o left = elim (Option-cases (first_missing a.inputs s.files)) [
  | inr (q, e) ↦ rw (run-missing r a s q e) (λ h. cc h)
  | inl e ↦ elim (Result-cases (new_sandbox a.inputs (λ _. none))) [
    | inr (q, f) ↦ rw (run-uncached r a no_cache s e, boxed, f, run_command) (λ h. cc h)
    | inl (b, f) ↦
        let q = r.shell.run_boxed s.world a.command (environ r.shell.path a) b s.files in
        rw (run-uncached r a no_cache s e, boxed, f, run_command)
          (judge-fails r a p [] (executed_result a.name (r.shell.now s.world) (r.shell.now q.0) q.3)
            q.1 (record s { world = q.0; files = q.2 }) q.3
            (left s.world a.command (environ r.shell.path a) b s.files
              (new_sandbox-linked a.inputs (λ _. none) b p i f))
            o)
  ]
]

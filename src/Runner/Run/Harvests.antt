-- ===== src/Runner/Run/Harvests.antt =====
-- internal/runner/sandbox.go: the links of a sandbox, and `harvest` in two workspaces.
use buildforge.Prelude.{
  ◌≡◌, ◌≢◌, refl, sym, ap, ◌∙◌, subst, Str, Str-cases, List, [], ◌∷◌, Option, none, some, ok, err,
  Option-cases, inl, inr, ◌⊎◌, update, update_self, update_ne, count, count-cons_self, In, arith,
}
use buildforge.Cache.Store.{File, Workspace}
use buildforge.Runner.Run.{Node, link, regular, Box, first_missing, harvest, new_sandbox}

-- The links of a sandbox lead to the same files in both workspaces.
abbrev pub LinksAgree : Box → Workspace → Workspace → Type 0
LinksAgree b ws1 ws2 = (q : Str) → b q ≡ some link → ws1 q ≡ ws2 q

pub first_missing-same :
    (ps : List Str) (ws1 ws2 : Workspace)
    → ((p : Str) → In p ps → ws1 p ≡ ws2 p)
    → first_missing ps ws1 ≡ first_missing ps ws2
unfolding first_missing
first_missing-same [] ws1 ws2 h = refl
first_missing-same (p ∷ ps) ws1 ws2 h =
    let rest = first_missing-same ps ws1 ws2 (λ q i. h q (omega arith)) in
    let here = h p (omega (arith, count-cons_self p ps)) in
    elim (Option-cases (ws2 p)) [
      | inl e ↦ rw (here, e, first_missing) refl
      | inr (f, e) ↦ rw (here, e, first_missing) rest
    ]

-- The links of a new sandbox are its inputs.
pub new_sandbox-links :
    (ps : List Str) (b b' : Box)
    → new_sandbox ps b ≡ ok b'
    → (q : Str) → b' q ≡ some link
    → (b q ≡ some link) ⊎ In q ps
unfolding new_sandbox
new_sandbox-links [] b b' e q h = let same : b ≡ b' = cc e in inl (ap (λ z. z q) same ∙ h)
new_sandbox-links (p ∷ ps) b b' e q h = elim (Option-cases (b p)) [
  | inr (n, f) ↦
      let refused : new_sandbox (p ∷ ps) b ≡ err p = rw (f, new_sandbox) refl in cc (e, refused)
  | inl f ↦
      let goes_on : new_sandbox (p ∷ ps) b ≡ new_sandbox ps (update b p (some link)) =
        rw (f, new_sandbox) refl in
      elim (new_sandbox-links ps (update b p (some link)) b' (sym goes_on ∙ e) q h) [
        | inr i ↦ inr (omega arith)
        | inl g ↦ elim (Str-cases p q) [
          | inl same ↦ inr (subst (λ z. In z (p ∷ ps)) same (omega (arith, count-cons_self p ps)))
          | inr (ne, _) ↦ inl (sym (update_ne b p (some link) q ne) ∙ g)
        ]
      ]
]

-- What `harvest` makes of two workspaces in which the links lead to the same files.
pub record Harvests (ps : List Str) (ws1 ws2 : Workspace) (r1 r2 : Workspace × Option Str)
    : Type 0 where
  pub lost : r1.1 ≡ r2.1
  pub kept : (q : Str) → ws1 q ≡ ws2 q → r1.0 q ≡ r2.0 q
  pub moved : (q : Str) → r1.1 ≡ none → In q ps → r1.0 q ≡ r2.0 q
  pub others1 : (q : Str) → count q ps ≡ 0 → r1.0 q ≡ ws1 q

pub updated-Agree :
    (ws1 ws2 : Workspace) (p : Str) (x : Option File) (q : Str)
    → (p ≢ q → ws1 q ≡ ws2 q)
    → update ws1 p x q ≡ update ws2 p x q
updated-Agree ws1 ws2 p x q h = elim (Str-cases p q) [
  | inl same ↦
      subst (λ z. update ws1 p x z ≡ update ws2 p x z) same
        (update_self ws1 p x ∙ sym (update_self ws2 p x))
  | inr (ne, _) ↦ update_ne ws1 p x q ne ∙ h ne ∙ sym (update_ne ws2 p x q ne)
]

-- One output is moved, and then the others.
moved_on :
    (p : Str) (ps : List Str) (ws1 ws2 : Workspace) (x : Option File)
    (r1 r2 : Workspace × Option Str)
    → Harvests ps (update ws1 p x) (update ws2 p x) r1 r2
    → Harvests (p ∷ ps) ws1 ws2 r1 r2
moved_on p ps ws1 ws2 x r1 r2 t = record {
  lost = t.lost;
  kept = λ q e. t.kept q (updated-Agree ws1 ws2 p x q (λ _. e));
  moved = λ q h i. elim (Str-cases p q) [
    | inl same ↦ t.kept q (updated-Agree ws1 ws2 p x q (λ ne. absurd (ne same)))
    | inr (_, f) ↦ t.moved q h (ground arith)
  ];
  others1 = λ q z.
      let ne : p ≢ q = λ same.
        omega (arith, subst (λ y. count y (p ∷ ps) ≡ 0) (sym same) z, count-cons_self p ps) in
      t.others1 q (omega arith) ∙ update_ne ws1 p x q ne;
}

lost_one :
    (p q : Str) (ps : List Str) (ws1 ws2 : Workspace)
    → Harvests (p ∷ ps) ws1 ws2 (ws1, some q) (ws2, some q)
lost_one p q ps ws1 ws2 = record {
  lost = refl;
  kept = λ x e. e;
  moved = λ x h i. cc;
  others1 = λ x z. refl;
}

LinksAgree-moved :
    (b : Box) (ws1 ws2 : Workspace) (p : Str) (x : Option File)
    → LinksAgree b ws1 ws2
    → LinksAgree (update b p none) (update ws1 p x) (update ws2 p x)
LinksAgree-moved b ws1 ws2 p x l q h =
    updated-Agree ws1 ws2 p x q (λ ne. l q (sym (update_ne b p none q ne) ∙ h))

harvest-step :
    (p : Str) (ps : List Str) (b : Box) (ws1 ws2 : Workspace)
    → LinksAgree b ws1 ws2
    → ((x : Option File)
        → Harvests
            (p ∷ ps)
            ws1
            ws2
            (harvest ps (update b p none) (update ws1 p x))
            (harvest ps (update b p none) (update ws2 p x)))
    → (n : Option Node) → b p ≡ n
    → Harvests (p ∷ ps) ws1 ws2 (harvest (p ∷ ps) b ws1) (harvest (p ∷ ps) b ws2)
unfolding harvest
harvest-step p ps b ws1 ws2 l next none e = rw (e, harvest) (lost_one p p ps ws1 ws2)
harvest-step p ps b ws1 ws2 l next (some (regular f)) e = rw (e, harvest) (next (some f))
harvest-step p ps b ws1 ws2 l next (some link) e = elim (Option-cases (ws2 p)) [
  | inl z ↦ let z' : ws1 p ≡ none = l p e ∙ z in rw (e, z, z', harvest) (lost_one p p ps ws1 ws2)
  | inr (f, z) ↦ let z' : ws1 p ≡ some f = l p e ∙ z in rw (e, z, z', harvest) (next none)
]

pub harvest-Harvests :
    (ps : List Str) (b : Box) (ws1 ws2 : Workspace)
    → LinksAgree b ws1 ws2
    → Harvests ps ws1 ws2 (harvest ps b ws1) (harvest ps b ws2)
unfolding harvest
harvest-Harvests [] b ws1 ws2 l = record {
  lost = refl;
  kept = λ q e. e;
  moved = λ q h i. absurd (omega arith);
  others1 = λ q z. refl;
}
harvest-Harvests (p ∷ ps) b ws1 ws2 l =
    harvest-step p ps b ws1 ws2 l
      (λ x.
        moved_on p ps ws1 ws2 x (harvest ps (update b p none) (update ws1 p x))
          (harvest ps (update b p none) (update ws2 p x))
          (harvest-Harvests ps (update b p none) (update ws1 p x) (update ws2 p x)
            (LinksAgree-moved b ws1 ws2 p x l)))
      (b p) refl

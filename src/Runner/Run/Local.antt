-- ===== src/Runner/Run/Local.antt =====
-- internal/runner/sandbox.go: what a command does in the sandbox when it uses no path that leads out of
-- it. The command reads and writes through the links, so it can change an input of the workspace in
-- place.
use buildforge.Prelude.{
  ◌≡◌, ◌≢◌, refl, sym, ◌∙◌, subst, Str, Str-cases, List, [], ◌∷◌, Option, none, some, inl, inr,
  update, update_self, update_ne,
}
use buildforge.Cache.Store.{File, Workspace}
use buildforge.Runner.Run.{Node, link, regular, Box, Ran, Shell}
use buildforge.Runner.Run.Harvests.{LinksAgree, updated-Agree}

-- The files that a command finds at the paths of the sandbox.
abbrev pub seen_at : Option Node → Option File → Option File
seen_at none f = none
seen_at (some link) f = f
seen_at (some (regular r)) f = some r

abbrev pub seen : Box → Workspace → Workspace
seen b ws q = seen_at (b q) (ws q)

pub data Edit : Type 0 where
  put_file : Str → File → Edit
  remove_file : Str → Edit

-- The sandbox and the workspace after a file was written: through a link, the workspace changes.
abbrev pub written : Str → File → Option Node → Box → Workspace → Box × Workspace
written p f none b ws = (update b p (some (regular f)), ws)
written p f (some link) b ws = (b, update ws p (some f))
written p f (some (regular _)) b ws = (update b p (some (regular f)), ws)

unfoldable pub edited : List Edit → Box → Workspace → Box × Workspace
edited [] b ws = (b, ws)
edited (put_file p f ∷ es) b ws = let (b', ws') = written p f (b p) b ws in edited es b' ws'
edited (remove_file p ∷ es) b ws = edited es (update b p none) ws

abbrev pub ended :
    {W O : Type 0} → W × List Edit × Ran O → Box → Workspace → W × Box × Workspace × Ran O
ended (w, es, ran) b ws = let (b', ws') = edited es b ws in (w, b', ws', ran)

-- The command, with these variables, uses no path that leads out of the sandbox and makes no links:
-- what it does is determined by the files that it finds inside, and it is to write and to remove files
-- there.
pub record IsLocal {W O : Type 0} (sh : Shell W O) (cmd env : List Str) : Type 0 where
  pub acts : W → Workspace → W × List Edit × Ran O
  pub boxed :
      (w : W) (b : Box) (ws : Workspace)
      → sh.run_boxed w cmd env b ws ≡ ended (acts w (seen b ws)) b ws

seen_at-same :
    (n : Option Node) (f h : Option File) → (n ≡ some link → f ≡ h) → seen_at n f ≡ seen_at n h
seen_at-same none f h e = refl
seen_at-same (some link) f h e = e refl
seen_at-same (some (regular r)) f h e = refl

pub seen-same : (b : Box) (ws1 ws2 : Workspace) → LinksAgree b ws1 ws2 → seen b ws1 ≡ seen b ws2
seen-same b ws1 ws2 l = λ i q. seen_at-same (b q) (ws1 q) (ws2 q) (l q) i

-- No link is made where there was none.
update-link :
    (b : Box) (p q : Str) (x : Option Node)
    → x ≢ some link
    → update b p x q ≡ some link
    → b q ≡ some link
update-link b p q x ne h = elim (Str-cases p q) [
  | inl same ↦
      absurd (ne (sym (update_self b p x) ∙ subst (λ z. update b p x z ≡ some link) (sym same) h))
  | inr (other, _) ↦ sym (update_ne b p x q other) ∙ h
]

-- Two runs of the same edits, where the links lead to the same files.
pub record Agrees (b : Box) (r1 r2 : Box × Workspace) (ws1 : Workspace) : Type 0 where
  pub box_same : r1.0 ≡ r2.0
  pub links_agree : LinksAgree r1.0 r1.1 r2.1
  pub leaves : (q : Str) → b q ≢ some link → r1.1 q ≡ ws1 q

regular≢link : (f : File) → some (regular f) ≢ some link
regular≢link f e = cc e

none≢link : none ≢ some link
none≢link e = cc e

edited-put :
    (p : Str) (x : Option Node) (b : Box) (ws1 ws2 : Workspace) (r1 r2 : Box × Workspace)
    → x ≢ some link
    → Agrees (update b p x) r1 r2 ws1
    → Agrees b r1 r2 ws1
edited-put p x b ws1 ws2 r1 r2 ne t = record {
  box_same = t.box_same;
  links_agree = t.links_agree;
  leaves = λ q h. t.leaves q (λ l. h (update-link b p q x ne l));
}

update-LinksAgree :
    (p : Str) (x : Option Node) (b : Box) (ws1 ws2 : Workspace)
    → x ≢ some link
    → LinksAgree b ws1 ws2
    → LinksAgree (update b p x) ws1 ws2
update-LinksAgree p x b ws1 ws2 ne l q h = l q (update-link b p q x ne h)

-- A file is written, and then the other edits are made.
put_file-Agrees :
    (p : Str) (f : File) (es : List Edit) (b : Box) (ws1 ws2 : Workspace)
    → LinksAgree b ws1 ws2
    → ((b' : Box) (ws1' ws2' : Workspace)
        → LinksAgree b' ws1' ws2'
        → Agrees b' (edited es b' ws1') (edited es b' ws2') ws1')
    → (n : Option Node) → b p ≡ n
    → Agrees b
        (edited es (written p f n b ws1).0 (written p f n b ws1).1)
        (edited es (written p f n b ws2).0 (written p f n b ws2).1)
        ws1
put_file-Agrees p f es b ws1 ws2 l rest none e =
    edited-put p (some (regular f)) b ws1 ws2 _ _ (regular≢link f) (
      rest (update b p (some (regular f))) ws1 ws2
        (update-LinksAgree p (some (regular f)) b ws1 ws2 (regular≢link f) l))
put_file-Agrees p f es b ws1 ws2 l rest (some (regular _)) e =
    edited-put p (some (regular f)) b ws1 ws2 _ _ (regular≢link f) (
      rest (update b p (some (regular f))) ws1 ws2
        (update-LinksAgree p (some (regular f)) b ws1 ws2 (regular≢link f) l))
put_file-Agrees p f es b ws1 ws2 l rest (some link) e =
    let t =
      rest b (update ws1 p (some f)) (update ws2 p (some f))
        (λ q h. updated-Agree ws1 ws2 p (some f) q (λ _. l q h)) in
    record {
      box_same = t.box_same;
      links_agree = t.links_agree;
      leaves = λ q h.
          t.leaves q h
          ∙ update_ne ws1 p (some f) q (λ same. h (subst (λ z. b z ≡ some link) same e));
    }

pub edited-Agrees :
    (es : List Edit) (b : Box) (ws1 ws2 : Workspace)
    → LinksAgree b ws1 ws2
    → Agrees b (edited es b ws1) (edited es b ws2) ws1
unfolding edited
edited-Agrees [] b ws1 ws2 l = record { box_same = refl; links_agree = l; leaves = λ q h. refl }
edited-Agrees (remove_file p ∷ es) b ws1 ws2 l =
    edited-put p none b ws1 ws2 _ _ none≢link
      (edited-Agrees es (update b p none) ws1 ws2 (update-LinksAgree p none b ws1 ws2 none≢link l))
edited-Agrees (put_file p f ∷ es) b ws1 ws2 l =
    put_file-Agrees p f es b ws1 ws2 l (λ b' ws1' ws2' l'. edited-Agrees es b' ws1' ws2' l') (b p)
      refl

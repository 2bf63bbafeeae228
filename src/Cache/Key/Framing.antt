-- ===== src/Cache/Key/Framing.antt =====
-- internal/cache/key.go, `Key`: where one text that was written ends and the next begins.
use buildforge.Prelude.{
  decimal_from, decimal, value, value-decimal, ℕ, zero, suc, ◌+◌, ◌/◌, ◌%◌, ◌≡◌, ◌≢◌, refl, sym, ap,
  ◌∙◌, subst, Str, List, [], ◌∷◌, ◌++◌, append_assoc, length, length-append, ltb, All, Bool-cases,
  inl, inr, arith,
}
use mathlib.Core.Path.{ap₂}
use buildforge.Cache.Key.{Field, write, encode}

abbrev pub IsFree : ℕ → Str → Type 0
IsFree c s = All (λ x. x ≢ c) s

-- A text ends at the first separator.
pub cut :
    (c : ℕ) (s t x y : Str) → IsFree c s → IsFree c t → s ++ c ∷ x ≡ t ++ c ∷ y → (s ≡ t) × (x ≡ y)
cut c [] [] x y f g e = (refl, cc)
cut c [] (b ∷ t) x y f g e = absurd (g.0 cc)
cut c (a ∷ s) [] x y f g e = absurd (f.0 cc)
cut c (a ∷ s) (b ∷ t) x y f g e = let (p, q) = cut c s t x y f.1 g.1 cc in (cc (p, e), q)

IsFree-absurd : (c : ℕ) (s x : Str) → IsFree c (s ++ c ∷ x) → ⊥
IsFree-absurd c [] x f = f.0 refl
IsFree-absurd c (a ∷ s) x f = IsFree-absurd c s x f.1

-- A text begins after the last separator.
pub cut_last :
    (c : ℕ) (s t x y : Str) → IsFree c x → IsFree c y → s ++ c ∷ x ≡ t ++ c ∷ y → (s ≡ t) × (x ≡ y)
cut_last c [] [] x y f g e = (refl, cc)
cut_last c [] (b ∷ t) x y f g e =
    let eq : x ≡ t ++ c ∷ y = cc e in absurd (IsFree-absurd c t y (subst (IsFree c) eq f))
cut_last c (a ∷ s) [] x y f g e =
    let eq : y ≡ s ++ c ∷ x = cc e in absurd (IsFree-absurd c s x (subst (IsFree c) eq g))
cut_last c (a ∷ s) (b ∷ t) x y f g e = let (p, q) = cut_last c s t x y f g cc in (cc (p, e), q)

-- Texts of one length end together.
cut_length : (s t x y : Str) → length s ≡ length t → s ++ x ≡ t ++ y → (s ≡ t) × (x ≡ y)
cut_length [] [] x y l e = (refl, e)
cut_length [] (b ∷ t) x y l e = absurd (omega arith)
cut_length (a ∷ s) [] x y l e = absurd (omega arith)
cut_length (a ∷ s) (b ∷ t) x y l e =
    let (p, q) = cut_length s t x y (omega arith) cc in (cc (p, e), q)

decimal-injective : (m n : ℕ) → decimal m ≡ decimal n → m ≡ n
decimal-injective m n e =
    sym (value-decimal (suc m) m (omega arith))
    ∙ ap (value 0) e
    ∙ value-decimal (suc n) n (omega arith)

IsFree-snoc : (s : Str) (c : ℕ) → IsFree 10 s → c ≢ 10 → IsFree 10 (s ++ c ∷ [])
IsFree-snoc [] c f ne = (ne, tt)
IsFree-snoc (d ∷ s) c f ne = (f.0, IsFree-snoc s c f.1 ne)

decimal-IsFree : (fuel n : ℕ) → IsFree 10 (decimal_from fuel n)
unfolding decimal_from
decimal-IsFree zero n = tt
decimal-IsFree (suc fuel) n = elim (Bool-cases (ltb n 10)) [
  | inl small ↦ rw (small, decimal_from) ((λ e. omega arith), tt)
  | inr big ↦
      rw (big, decimal_from)
        (IsFree-snoc (decimal_from fuel (n / 10)) (48 + n % 10) (decimal-IsFree fuel (n / 10))
          (λ e. omega arith))
]

-- What follows the tag of a field.
abbrev after_tag : Str → Str → Str
after_tag v r = decimal (length v) ++ (10 ∷ (v ++ (10 ∷ r)))

write-append : (f : Field) (r : Str) → write f ++ r ≡ f.0 ++ (32 ∷ after_tag f.1 r)
write-append f r =
    append_assoc f.0 (32 ∷ after_tag f.1 []) r
    ∙ ap (λ z. f.0 ++ (32 ∷ z))
        (append_assoc (decimal (length f.1)) (10 ∷ (f.1 ++ (10 ∷ []))) r
          ∙ ap (λ z. decimal (length f.1) ++ (10 ∷ z)) (append_assoc f.1 (10 ∷ []) r))

-- What was written first can be read off.
write-injective :
    (f g : Field) (x y : Str)
    → IsFree 32 f.0
    → IsFree 32 g.0
    → write f ++ x ≡ write g ++ y
    → (f ≡ g) × (x ≡ y)
write-injective f g x y tf tg e =
    let (tags, e1) =
      cut 32 f.0 g.0 (after_tag f.1 x) (after_tag g.1 y) tf tg
        (sym (write-append f x) ∙ e ∙ write-append g y) in
    let (sizes, e2) =
      cut 10 (decimal (length f.1)) (decimal (length g.1)) (f.1 ++ (10 ∷ x)) (g.1 ++ (10 ∷ y))
        (decimal-IsFree (suc (length f.1)) (length f.1))
        (decimal-IsFree (suc (length g.1)) (length g.1)) e1 in
    let (values, e3) =
      cut_length f.1 g.1 (10 ∷ x) (10 ∷ y) (decimal-injective (length f.1) (length g.1) sizes) e2 in
    (ap₂ (λ a b. (a, b)) tags values, cc e3)

write-not_nil : (f : Field) (x : Str) → write f ++ x ≢ []
write-not_nil f x e =
    let size : length (f.0 ++ (32 ∷ after_tag f.1 x)) ≡ 0 =
      ap length (sym (write-append f x) ∙ e) in
    omega (arith, size, length-append f.0 (32 ∷ after_tag f.1 x))

-- The encoding determines the fields that were written, when no tag has a space: which texts follow
-- which tag, in which order, wherever they end.
pub encode-injective :
    (fs gs : List Field)
    → All (λ (f : Field). IsFree 32 f.0) fs
    → All (λ (f : Field). IsFree 32 f.0) gs
    → encode fs ≡ encode gs
    → fs ≡ gs
encode-injective [] [] tf tg e = refl
encode-injective [] (g ∷ gs) tf tg e = absurd (write-not_nil g (encode gs) (sym e))
encode-injective (f ∷ fs) [] tf tg e = absurd (write-not_nil f (encode fs) e)
encode-injective (f ∷ fs) (g ∷ gs) tf tg e =
    let (first, rest) = write-injective f g (encode fs) (encode gs) tf.0 tg.0 e in
    let later = encode-injective fs gs tf.1 tg.1 rest in cc (first, later)

-- ===== src/Graph/Order.antt =====
-- What an order of the actions and a cycle among them are, without any algorithm.
use buildforge.Prelude.{◌≡◌, Str, List, [], ◌∷◌, ◌++◌, In, SameItems, append_assoc, append-nil}

-- Each string's dependencies are in `seen` or stand before it.
abbrev pub IsOrdered : (Str → List Str) → List Str → List Str → Type 0
IsOrdered deps seen [] = Unit
IsOrdered deps seen (n ∷ rest) =
    ((d : Str) → In d (deps n) → In d seen) × IsOrdered deps (seen ++ n ∷ []) rest

-- Every name exactly as often as it is given, and after all that it depends on.
pub record IsTopologicalOrder (deps : Str → List Str) (names order : List Str) : Type 0 where
  pub complete : SameItems order names
  pub ordered : IsOrdered deps [] order

-- Each string depends on the one after it.
abbrev pub IsPath : (Str → List Str) → List Str → Type 0
IsPath deps [] = Unit
IsPath deps (x ∷ []) = Unit
IsPath deps (x ∷ y ∷ r) = In y (deps x) × IsPath deps (y ∷ r)

-- A path from a string back to itself, by at least one dependency.
pub record IsCycle (deps : Str → List Str) (c : List Str) : Type 0 where
  pub start : Str
  pub middle : List Str
  pub closed : c ≡ start ∷ middle ++ start ∷ []
  pub path : IsPath deps c

module _ (deps : Str → List Str) where
  pub IsOrdered-snoc :
      (seen order : List Str) (n : Str)
      → IsOrdered deps seen order
      → ((d : Str) → In d (deps n) → In d (seen ++ order))
      → IsOrdered deps seen (order ++ n ∷ [])
  IsOrdered-snoc seen [] n h k = ((λ d i. rw append-nil at (k d i)), tt)
  IsOrdered-snoc seen (x ∷ order) n h k =
      (h.0, IsOrdered-snoc (seen ++ x ∷ []) order n h.1 (λ d i. rw append_assoc (k d i)))

  pub IsPath-snoc :
      (base : List Str) (n d : Str)
      → IsPath deps (base ++ n ∷ [])
      → In d (deps n)
      → IsPath deps ((base ++ n ∷ []) ++ d ∷ [])
  IsPath-snoc [] n d p i = (i, tt)
  IsPath-snoc (x ∷ []) n d p i = (p.0, (i, tt))
  IsPath-snoc (x ∷ y ∷ base) n d p i = (p.0, IsPath-snoc (y ∷ base) n d p.1 i)

  pub IsPath-tail : (x : Str) (l : List Str) → IsPath deps (x ∷ l) → IsPath deps l
  IsPath-tail x [] p = tt
  IsPath-tail x (y ∷ l) p = p.1

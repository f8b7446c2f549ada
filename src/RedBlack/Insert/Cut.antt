-- ===== src/RedBlack/Insert/Cut.antt =====
-- What a search looks for, on the list of the nodes in order.
use libappf.Base.{
  ℕ, arith, ◌≡◌, List, [], ◌+◌, ◌++◌, refl, ◌∷◌, ap, Option, none, some, if◌then◌else◌, ◌==◌, ◌≢◌,
  subst,
}
use libappf.RedBlack.{Sign, negative, positive, zero'}

abbrev pub choose : Sign → ℕ → Option ℕ → Option ℕ
choose negative x later = later
choose positive x later = later
choose zero' x later = some x

-- The first node that compares equal.
abbrev pub find : (ℕ → Sign) → List ℕ → Option ℕ
find sign [] = none
find sign (x ∷ xs) = choose (sign x) x (find sign xs)

abbrev pub place : Sign → (z x : ℕ) → (xs later : List ℕ) → List ℕ
place negative z x xs later = z ∷ x ∷ xs
place positive z x xs later = x ∷ later
place zero' z x xs later = x ∷ later

-- A new node, before the first one that is greater.
abbrev pub insert_at : (ℕ → Sign) → ℕ → List ℕ → List ℕ
insert_at sign z [] = z ∷ []
insert_at sign z (x ∷ xs) = place (sign x) z x xs (insert_at sign z xs)

abbrev pub AllHave : Sign → (ℕ → Sign) → List ℕ → Type 0
AllHave c sign [] = Unit
AllHave c sign (x ∷ xs) = (sign x ≡ c) × AllHave c sign xs

-- What may follow a node: after one that is not less there are only greater ones.
abbrev pub MayFollow : Sign → (ℕ → Sign) → List ℕ → Type 0
MayFollow positive sign xs = Unit
MayFollow negative sign xs = AllHave negative sign xs
MayFollow zero' sign xs = AllHave negative sign xs

-- The comparison cuts the list in two, with at most one node that compares equal between.
abbrev pub IsCut : (ℕ → Sign) → List ℕ → Type 0
IsCut sign [] = Unit
IsCut sign (x ∷ xs) = MayFollow (sign x) sign xs × IsCut sign xs

abbrev pub occurrences : ℕ → List ℕ → ℕ
occurrences p [] = 0
occurrences p (x ∷ xs) = (if x == p then 1 else 0) + occurrences p xs

pub occurrences-append :
    (p : ℕ) (xs ys : List ℕ) → occurrences p (xs ++ ys) ≡ occurrences p xs + occurrences p ys
occurrences-append p [] ys = omega arith
occurrences-append p (x ∷ xs) ys = omega (arith, occurrences-append p xs ys)

module _ (sign : ℕ → Sign) where
  pub AllHave-append :
      (c : Sign) (xs ys : List ℕ)
      → AllHave c sign xs
      → AllHave c sign ys
      → AllHave c sign (xs ++ ys)
  AllHave-append c [] ys h i = i
  AllHave-append c (x ∷ xs) ys h i = (h.0, AllHave-append c xs ys h.1 i)

  pub AllHave-left : (c : Sign) (xs ys : List ℕ) → AllHave c sign (xs ++ ys) → AllHave c sign xs
  AllHave-left c [] ys h = tt
  AllHave-left c (x ∷ xs) ys h = (h.0, AllHave-left c xs ys h.1)

  pub AllHave-right : (c : Sign) (xs ys : List ℕ) → AllHave c sign (xs ++ ys) → AllHave c sign ys
  AllHave-right c [] ys h = h
  AllHave-right c (x ∷ xs) ys h = AllHave-right c xs ys h.1

  MayFollow-left : (c : Sign) (xs ys : List ℕ) → MayFollow c sign (xs ++ ys) → MayFollow c sign xs
  MayFollow-left positive xs ys h = tt
  MayFollow-left negative xs ys h = AllHave-left negative xs ys h
  MayFollow-left zero' xs ys h = AllHave-left negative xs ys h

  pub IsCut-left : (xs ys : List ℕ) → IsCut sign (xs ++ ys) → IsCut sign xs
  IsCut-left [] ys h = tt
  IsCut-left (x ∷ xs) ys h = (MayFollow-left (sign x) xs ys h.0, IsCut-left xs ys h.1)

  pub IsCut-right : (xs ys : List ℕ) → IsCut sign (xs ++ ys) → IsCut sign ys
  IsCut-right [] ys h = h
  IsCut-right (x ∷ xs) ys h = IsCut-right xs ys h.1

  pub IsCut-negative :
      (xs : List ℕ) (q : ℕ) (ys : List ℕ)
      → sign q ≡ negative
      → IsCut sign (xs ++ q ∷ ys)
      → AllHave negative sign ys
  IsCut-negative xs q ys e h = subst (λ z. MayFollow z sign ys) e (IsCut-right xs (q ∷ ys) h).0

  head-positive :
      (x q : ℕ) (xs ys : List ℕ)
      → sign q ≢ negative
      → (c : Sign) → sign x ≡ c
      → MayFollow c sign (xs ++ q ∷ ys)
      → sign x ≡ positive
  head-positive x q xs ys e positive f h = f
  head-positive x q xs ys e negative f h = absurd (e (AllHave-right negative xs (q ∷ ys) h).0)
  head-positive x q xs ys e zero' f h = absurd (e (AllHave-right negative xs (q ∷ ys) h).0)

  pub IsCut-positive :
      (xs : List ℕ) (q : ℕ) (ys : List ℕ)
      → sign q ≢ negative
      → IsCut sign (xs ++ q ∷ ys)
      → AllHave positive sign xs
  IsCut-positive [] q ys e h = tt
  IsCut-positive (x ∷ xs) q ys e h =
      (head-positive x q xs ys e (sign x) refl h.0, IsCut-positive xs q ys e h.1)

  -- Nothing compares equal between nodes that are less and nodes that are greater.
  pub find-cut :
      (xs ys : List ℕ)
      → AllHave positive sign xs
      → AllHave negative sign ys
      → find sign (xs ++ ys) ≡ none
  find-cut [] [] h i = refl
  find-cut [] (y ∷ ys) h i = rw i.0 (find-cut [] ys tt i.1)
  find-cut (x ∷ xs) ys h i = rw h.0 (find-cut xs ys h.1 i)

  pub find-at :
      (xs ys : List ℕ) (q : ℕ)
      → AllHave positive sign xs
      → sign q ≡ zero'
      → find sign (xs ++ q ∷ ys) ≡ some q
  find-at [] ys q h e = rw e refl
  find-at (x ∷ xs) ys q h e = rw h.0 (find-at xs ys q h.1 e)

  pub insert_at-cut :
      (z : ℕ) (xs ys : List ℕ)
      → AllHave positive sign xs
      → AllHave negative sign ys
      → insert_at sign z (xs ++ ys) ≡ xs ++ z ∷ ys
  insert_at-cut z [] [] h i = refl
  insert_at-cut z [] (y ∷ ys) h i = rw i.0 refl
  insert_at-cut z (x ∷ xs) ys h i = rw h.0 (ap (λ r. x ∷ r) (insert_at-cut z xs ys h.1 i))

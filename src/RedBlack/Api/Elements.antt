-- ===== src/RedBlack/Api/Elements.antt =====
-- The tree as the sorted list of its elements.
use libappf.Base.{
  ℕ, arith, ◌≡◌, List, ◌∙◌, [], ◌+◌, refl, ◌∷◌, sym, ap, length, subst, Option, none, some,
}
use libappf.RedBlack.{Sign, negative, positive, zero'}
use libappf.RedBlack.Insert.Cut.{
  choose, place, IsCut, find, insert_at, occurrences, AllHave, MayFollow,
}
use libappf.RedBlack.Insert.Adding.{Holds, none-ne-some}
use libappf.RedBlack.Api.{Tree}

-- The nodes of elements.
abbrev pub nodes : ℕ → List ℕ → List ℕ
nodes offset [] = []
nodes offset (e ∷ es) = (e + offset) ∷ nodes offset es

-- The tree holds the elements, in this order.
pub record IsTree (t : Tree) (es : List ℕ) : Type 0 where
  pub tree : Holds t.nil t.store (nodes t.offset es)
  pub counted : t.count ≡ length es

-- The node of an element, if there is one.
abbrev pub shift : ℕ → Option ℕ → Option ℕ
shift offset none = none
shift offset (some e) = some (e + offset)

pub length-nodes : (offset : ℕ) (es : List ℕ) → length (nodes offset es) ≡ length es
length-nodes offset [] = refl
length-nodes offset (e ∷ es) = omega (arith, length-nodes offset es)

pub occurrences-nodes :
    (offset e : ℕ) (es : List ℕ) → occurrences (e + offset) (nodes offset es) ≡ occurrences e es
occurrences-nodes offset e [] = refl
occurrences-nodes offset e (x ∷ es) = ground (arith, occurrences-nodes offset e es)

-- What the comparison callback promises: it is an order, where equal elements are
-- interchangeable.
pub record IsOrder (compare' : ℕ → ℕ → Sign) : Type 0 where
  pub less_less :
      (a b c : ℕ) → compare' a b ≡ negative → compare' b c ≡ negative → compare' a c ≡ negative
  pub equal_less :
      (a b c : ℕ) → compare' a b ≡ zero' → compare' b c ≡ negative → compare' a c ≡ negative
  pub greater_less : (a b : ℕ) → compare' a b ≡ positive → compare' b a ≡ negative

-- Every element is less than those after it.
abbrev pub IsSorted : (ℕ → ℕ → Sign) → List ℕ → Type 0
IsSorted compare' [] = Unit
IsSorted compare' (x ∷ xs) = AllHave negative (compare' x) xs × IsSorted compare' xs

choose-shift :
    (offset : ℕ) (c : Sign) (e : ℕ) (later : Option ℕ)
    → choose c (e + offset) (shift offset later) ≡ shift offset (choose c e later)
choose-shift offset negative e later = refl
choose-shift offset positive e later = refl
choose-shift offset zero' e later = refl

place-nodes :
    (offset : ℕ) (c : Sign) (z e : ℕ) (es later : List ℕ)
    → place c (z + offset) (e + offset) (nodes offset es) (nodes offset later)
      ≡ nodes offset (place c z e es later)
place-nodes offset negative z e es later = refl
place-nodes offset positive z e es later = refl
place-nodes offset zero' z e es later = refl

-- The signs of the nodes are those of the elements.
module _ (offset : ℕ) (sign at : ℕ → Sign) (same : (x : ℕ) → sign (x + offset) ≡ at x) where
  AllHave-nodes : (c : Sign) (es : List ℕ) → AllHave c at es → AllHave c sign (nodes offset es)
  AllHave-nodes c [] h = tt
  AllHave-nodes c (e ∷ es) h = (same e ∙ h.0, AllHave-nodes c es h.1)

  MayFollow-nodes :
      (c : Sign) (es : List ℕ) → MayFollow c at es → MayFollow c sign (nodes offset es)
  MayFollow-nodes positive es h = tt
  MayFollow-nodes negative es h = AllHave-nodes negative es h
  MayFollow-nodes zero' es h = AllHave-nodes negative es h

  pub IsCut-nodes : (es : List ℕ) → IsCut at es → IsCut sign (nodes offset es)
  IsCut-nodes [] h = tt
  IsCut-nodes (e ∷ es) h = (
    subst (λ c. MayFollow c sign (nodes offset es)) (sym (same e)) (MayFollow-nodes (at e) es h.0),
    IsCut-nodes es h.1,
  )

  pub find-nodes : (es : List ℕ) → find sign (nodes offset es) ≡ shift offset (find at es)
  find-nodes [] = refl
  find-nodes (e ∷ es) =
      ap (λ c. choose c (e + offset) (find sign (nodes offset es))) (same e)
      ∙ ap (choose (at e) (e + offset)) (find-nodes es)
      ∙ choose-shift offset (at e) e (find at es)

  pub insert_at-nodes :
      (z : ℕ) (es : List ℕ)
      → insert_at sign (z + offset) (nodes offset es) ≡ nodes offset (insert_at at z es)
  insert_at-nodes z [] = refl
  insert_at-nodes z (e ∷ es) =
      ap
        (λ c.
          place c (z + offset) (e + offset) (nodes offset es)
            (insert_at sign (z + offset) (nodes offset es)))
        (same e)
      ∙ ap (place (at e) (z + offset) (e + offset) (nodes offset es)) (insert_at-nodes z es)
      ∙ place-nodes offset (at e) z e es (insert_at at z es)

module _ (compare' : ℕ → ℕ → Sign) (order : IsOrder compare') where
  AllHave-less :
      (e x : ℕ) (xs : List ℕ)
      → ((c : ℕ) → compare' x c ≡ negative → compare' e c ≡ negative)
      → AllHave negative (compare' x) xs
      → AllHave negative (compare' e) xs
  AllHave-less e x [] f h = tt
  AllHave-less e x (y ∷ xs) f h = (f y h.0, AllHave-less e x xs f h.1)

  MayFollow-IsSorted :
      (e x : ℕ) (xs : List ℕ) (c : Sign)
      → compare' e x ≡ c
      → AllHave negative (compare' x) xs
      → MayFollow c (compare' e) xs
  MayFollow-IsSorted e x xs positive q h = tt
  MayFollow-IsSorted e x xs negative q h = AllHave-less e x xs (λ c. order.less_less e x c q) h
  MayFollow-IsSorted e x xs zero' q h = AllHave-less e x xs (λ c. order.equal_less e x c q) h

  -- A sorted list is cut in two by a comparison with any element.
  pub IsSorted-IsCut : (e : ℕ) (es : List ℕ) → IsSorted compare' es → IsCut (compare' e) es
  IsSorted-IsCut e [] h = tt
  IsSorted-IsCut e (x ∷ xs) h =
      (MayFollow-IsSorted e x xs (compare' e x) refl h.0, IsSorted-IsCut e xs h.1)

  AllHave-insert_at :
      (e x : ℕ) (xs : List ℕ)
      → compare' x e ≡ negative
      → AllHave negative (compare' x) xs
      → AllHave negative (compare' x) (insert_at (compare' e) e xs)
  AllHave-insert_at e x [] q h = (q, tt)
  AllHave-insert_at e x (y ∷ xs) q h = go (compare' e y) (AllHave-insert_at e x xs q h.1)
    where
      go :
          (c : Sign)
          → AllHave negative (compare' x) (insert_at (compare' e) e xs)
          → AllHave negative (compare' x) (place c e y xs (insert_at (compare' e) e xs))
      go negative later = (q, h)
      go positive later = (h.0, later)
      go zero' later = (h.0, later)

  -- A new element keeps the list sorted.
  pub insert_at-IsSorted :
      (e : ℕ) (es : List ℕ)
      → IsSorted compare' es
      → find (compare' e) es ≡ none
      → IsSorted compare' (insert_at (compare' e) e es)
  insert_at-IsSorted e [] h f = (tt, tt)
  insert_at-IsSorted e (x ∷ xs) h f = go (compare' e x) refl f (insert_at-IsSorted e xs h.1)
    where
      go :
          (c : Sign)
          → compare' e x ≡ c
          → choose c x (find (compare' e) xs) ≡ none
          → (find (compare' e) xs ≡ none → IsSorted compare' (insert_at (compare' e) e xs))
          → IsSorted compare' (place c e x xs (insert_at (compare' e) e xs))
      go negative r f' later = ((r, AllHave-less e x xs (λ c. order.less_less e x c r) h.0), h)
      go positive r f' later = (AllHave-insert_at e x xs (order.greater_less e x r) h.0, later f')
      go zero' r f' later = absurd (none-ne-some (sym f'))

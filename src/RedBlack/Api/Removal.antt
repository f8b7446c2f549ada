-- ===== src/RedBlack/Api/Removal.antt =====
-- The removal from a list, and the removal of the node that a search found.
use libappf.Base.{
  ℕ, arith, ◌≡◌, List, ◌∙◌, [], ◌+◌, ◌++◌, refl, ◌∷◌, ◌<◌, sym, ap, length, append_assoc, subst,
  some, ◌≢◌,
}
use libappf.RedBlack.{Sign, negative, positive, zero', Store}
use libappf.RedBlack.Memory.Shape.{node}
use libappf.RedBlack.Memory.Balance.{inorder}
use libappf.RedBlack.Insert.Lookup.{before, after, inorder-around}
use libappf.RedBlack.Delete.Spine.{length-spine}
use libappf.RedBlack.Insert.Cut.{choose, IsCut, find, AllHave, IsCut-positive}
use libappf.RedBlack.Insert.Descending.{Spot}
use libappf.RedBlack.Insert.Adding.{Holds, none-ne-some}
use libappf.RedBlack.Api.Elements.{nodes, IsSorted}
use libappf.RedBlack.Delete.Deletion.{delete-Holds}
use libappf.RedBlack.Delete.{delete}

abbrev pub skip : Sign → ℕ → (xs later : List ℕ) → List ℕ
skip negative x xs later = x ∷ later
skip positive x xs later = x ∷ later
skip zero' x xs later = xs

-- The list without the first node that compares equal.
abbrev pub remove_equal : (ℕ → Sign) → List ℕ → List ℕ
remove_equal sign [] = []
remove_equal sign (x ∷ xs) = skip (sign x) x xs (remove_equal sign xs)

remove_equal-at :
    (sign : ℕ → Sign) (xs ys : List ℕ) (q : ℕ)
    → AllHave positive sign xs
    → sign q ≡ zero'
    → remove_equal sign (xs ++ q ∷ ys) ≡ xs ++ ys
remove_equal-at sign [] ys q h e = rw e refl
remove_equal-at sign (x ∷ xs) ys q h e =
    rw h.0 (ap (λ z. x ∷ z) (remove_equal-at sign xs ys q h.1 e))

skip-nodes :
    (offset : ℕ) (c : Sign) (x : ℕ) (es later : List ℕ)
    → skip c (x + offset) (nodes offset es) (nodes offset later) ≡ nodes offset (skip c x es later)
skip-nodes offset negative x es later = refl
skip-nodes offset positive x es later = refl
skip-nodes offset zero' x es later = refl

pub remove_equal-nodes :
    (offset : ℕ) (sign at : ℕ → Sign)
    → ((x : ℕ) → sign (x + offset) ≡ at x)
    → (es : List ℕ) → remove_equal sign (nodes offset es) ≡ nodes offset (remove_equal at es)
remove_equal-nodes offset sign at same [] = refl
remove_equal-nodes offset sign at same (e ∷ es) =
    ap (λ c. skip c (e + offset) (nodes offset es) (remove_equal sign (nodes offset es))) (same e)
    ∙ ap (skip (at e) (e + offset) (nodes offset es)) (remove_equal-nodes offset sign at same es)
    ∙ skip-nodes offset (at e) e es (remove_equal at es)

AllHave-remove_equal :
    (c : Sign) (sign at : ℕ → Sign) (es : List ℕ)
    → AllHave c sign es
    → AllHave c sign (remove_equal at es)
AllHave-remove_equal c sign at [] h = tt
AllHave-remove_equal c sign at (x ∷ xs) h = go (at x) (AllHave-remove_equal c sign at xs h.1)
  where
    go :
        (a : Sign)
        → AllHave c sign (remove_equal at xs)
        → AllHave c sign (skip a x xs (remove_equal at xs))
    go negative later = (h.0, later)
    go positive later = (h.0, later)
    go zero' later = h.1

pub remove_equal-IsSorted :
    (compare' : ℕ → ℕ → Sign) (at : ℕ → Sign) (es : List ℕ)
    → IsSorted compare' es
    → IsSorted compare' (remove_equal at es)
remove_equal-IsSorted compare' at [] h = tt
remove_equal-IsSorted compare' at (x ∷ xs) h = go (at x) (remove_equal-IsSorted compare' at xs h.1)
  where
    go :
        (a : Sign)
        → IsSorted compare' (remove_equal at xs)
        → IsSorted compare' (skip a x xs (remove_equal at xs))
    go negative later = (AllHave-remove_equal negative (compare' x) at xs h.0, later)
    go positive later = (AllHave-remove_equal negative (compare' x) at xs h.0, later)
    go zero' later = h.1

pub length-remove_equal :
    (sign : ℕ → Sign) (es : List ℕ) {q : ℕ}
    → find sign es ≡ some q
    → length (remove_equal sign es) + 1 ≡ length es
length-remove_equal sign [] f = absurd (none-ne-some f)
length-remove_equal sign (x ∷ xs) {q} f =
    go (sign x) f (λ g. length-remove_equal sign xs g) ∙ omega arith
  where
    go :
        (c : Sign)
        → choose c x (find sign xs) ≡ some q
        → (find sign xs ≡ some q → length (remove_equal sign xs) + 1 ≡ length xs)
        → length (skip c x xs (remove_equal sign xs)) + 1 ≡ length xs + 1
    go negative g later = omega (arith, later g)
    go positive g later = omega (arith, later g)
    go zero' g later = refl

-- The node that was found is taken out.
pub delete-found :
    (fuel : ℕ) (sign : ℕ → Sign) (nil q : ℕ) (s : Store) (xs : List ℕ)
    → IsCut sign xs
    → length xs < fuel
    → Spot sign nil s xs q
    → Holds nil (delete fuel nil q s) (remove_equal sign xs)
delete-found fuel sign nil q s xs c le i =
    let bs = before i.way in
    let ls = inorder i.lower in
    let us = inorder i.upper in
    let as' = after i.way in
    let o : (bs ++ ls) ++ q ∷ (us ++ as') ≡ xs =
      append_assoc bs ls (q ∷ (us ++ as'))
      ∙ ap (λ z. bs ++ z) (sym (append_assoc ls (q ∷ us) as'))
      ∙ i.order in
    let c' : IsCut sign ((bs ++ ls) ++ q ∷ (us ++ as')) = subst (λ z. IsCut sign z) (sym o) c in
    let p =
      IsCut-positive sign (bs ++ ls) q (us ++ as') (λ n. zero-ne-negative (sym i.equal ∙ n)) c' in
    let r : bs ++ ((ls ++ us) ++ as') ≡ remove_equal sign xs =
      ap (λ z. bs ++ z) (append_assoc ls us as')
      ∙ sym (append_assoc bs ls (us ++ as'))
      ∙ sym (remove_equal-at sign (bs ++ ls) (us ++ as') q p i.equal)
      ∙ ap (remove_equal sign) o in
    let n1 = length-spine i.way (node i.lower q i.color i.upper) in
    let n2 = ap length (inorder-around i.way (node i.lower q i.color i.upper) ∙ i.order) in
    subst (λ z. Holds nil (delete fuel nil q s) z) r
      (delete-Holds nil fuel q i.color i.lower i.upper i.way s i.holds i.fits
        (omega (arith, n1, n2, le)))
  where
    zero-ne-negative : zero' ≢ negative
    zero-ne-negative e = cc

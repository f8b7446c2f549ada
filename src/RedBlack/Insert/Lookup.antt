-- ===== src/RedBlack/Insert/Lookup.antt =====
-- What stands around a subtree on the walk down of `rb_traverse`.
use libappf.Base.{
  ℕ, arith, ◌≡◌, List, ◌∙◌, [], ◌++◌, refl, ◌∷◌, sym, suc, zero, append_assoc, append-nil, ap,
}
use libappf.RedBlack.{Color, black, red, left, right}
use libappf.RedBlack.Memory.Shape.{Shape, leaf, node, Frame, frame, plug, count}
use libappf.RedBlack.Memory.Recolor.{color_of}
use libappf.RedBlack.Memory.Balance.{inorder, IsBalanced, AroundIsBalanced, TopIsBlack}
use libappf.RedBlack.Insert.Cut.{occurrences, occurrences-append}

-- The nodes before and after a subtree.
abbrev pub before : List Frame → List ℕ
before [] = []
before (frame left q c s ∷ k) = before k
before (frame right q c s ∷ k) = before k ++ (inorder s ++ q ∷ [])

abbrev pub after : List Frame → List ℕ
after [] = []
after (frame left q c s ∷ k) = q ∷ (inorder s ++ after k)
after (frame right q c s ∷ k) = after k

pub inorder-around :
    (k : List Frame) (t : Shape) → inorder (plug k t) ≡ before k ++ (inorder t ++ after k)
inorder-around [] t = sym (append-nil (inorder t))
inorder-around (frame left q c s ∷ k) t =
    inorder-around k (node t q c s)
    ∙ ap (λ z. before k ++ z) (append_assoc (inorder t) (q ∷ inorder s) (after k))
inorder-around (frame right q c s ∷ k) t = inorder-around k (node s q c t) ∙ simp (append_assoc)

pub count-inorder : (p : ℕ) (t : Shape) → count p t ≡ occurrences p (inorder t)
count-inorder p leaf = refl
count-inorder p (node l q c r) =
    omega (
      arith,
      count-inorder p l,
      count-inorder p r,
      occurrences-append p (inorder l) (q ∷ inorder r),
    )

-- Colors and heights around a subtree, on the way down.
pub record Fits (k : List Frame) (t : Shape) : Type 0 where
  pub height : ℕ
  pub around : AroundIsBalanced height k
  pub balanced : IsBalanced height t
  pub below : color_of t ≡ red → TopIsBlack k

pub Fits-left :
    (l : Shape) (q : ℕ) (c : Color) (r : Shape) (k : List Frame)
    → Fits k (node l q c r)
    → Fits (frame left q c r ∷ k) l × Fits (frame right q c l ∷ k) r
Fits-left l q red r k f = (
  record {
    height = f.height;
    around = (f.balanced.1, f.balanced.3, f.below refl, f.around);
    balanced = f.balanced.0;
    below = λ e. absurd (black-ne-red (sym f.balanced.2 ∙ e));
  },
  record {
    height = f.height;
    around = (f.balanced.0, f.balanced.2, f.below refl, f.around);
    balanced = f.balanced.1;
    below = λ e. absurd (black-ne-red (sym f.balanced.3 ∙ e));
  },
)
  where
    black-ne-red : black ≡ red → ⊥
    black-ne-red e = cc
Fits-left l q black r k f = lower (f.height) f.around f.balanced
  where
    lower :
        (n : ℕ)
        → AroundIsBalanced n k
        → IsBalanced n (node l q black r)
        → Fits (frame left q black r ∷ k) l × Fits (frame right q black l ∷ k) r
    lower zero h b = absurd b
    lower (suc n) h b = (
      record { height = n; around = (b.1, h); balanced = b.0; below = λ e. refl },
      record { height = n; around = (b.0, h); balanced = b.1; below = λ e. refl },
    )

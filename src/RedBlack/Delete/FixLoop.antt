-- ===== src/RedBlack/Delete/FixLoop.antt =====
-- The whole loop of `rb_delete_fix`.
use libappf.Base.{
  ℕ, arith, ◌≡◌, List, ap, ◌∙◌, false, [], refl, ◌∷◌, subst, suc, zero, ◌==◌, ◌≤◌, length,
}
use libappf.RedBlack.{Color, black, red, is_red, Side, left, right, Store}
use libappf.RedBlack.Memory.Shape.{Shape, leaf, node, make, Frame, frame, plug, addr, Focus}
use libappf.RedBlack.Memory.Parts.{addr-make}
use libappf.RedBlack.Memory.Recolor.{color_of, color-addr, root_of-apart}
use libappf.RedBlack.Memory.Balance.{
  inorder, IsBalanced, AroundIsBalanced, IsBalanced-black, inorder-plug, inorder-rotate,
  red-ne-black,
}
use libappf.RedBlack.Delete.Sibling.{sibling-is, side-is, y-is}
use libappf.RedBlack.Delete.Nephew.{Seat, turned_over, turned_over-Seat, black_sibling-red}
use libappf.RedBlack.Delete.Reads.{red-mk, black_sibling-black}
use libappf.RedBlack.Delete.Endings.{Rest, IsFixed, Fixed-root, Fixed-red}
use libappf.RedBlack.Delete.Fixing.{black_round}
use libappf.RedBlack.Delete.{fix_loop}

module _ (nil : ℕ) where
  not_root :
      (d : Side) (p : ℕ) (c : Color) (w t : Shape) (k : List Frame) (s : Store)
      → Focus nil s (frame d p c w ∷ k) t
      → (addr nil t == s.root) ≡ false
  not_root d p c w leaf k s v =
      ap (λ z. nil == z) v.root ∙ root_of-apart nil nil p k (omega (arith, v.no_nil))
  not_root d p c w (node a x c' b) k s v =
      ap (λ z. x == z) v.root ∙ root_of-apart nil x p k (ground (arith, v.apart x))

  -- What the rounds below the fuel do, and a round at a black node under `p`.
  module _ (fuel : ℕ)
      (rest : (k : List Frame) (n : ℕ) (t : Shape) (s : Store)
        → length k ≤ fuel
        → Seat nil s k t
        → IsBalanced n t
        → AroundIsBalanced (suc n) k
        → IsFixed nil (fix_loop fuel nil (addr nil t) s) (inorder (plug k t)))
      (d : Side) (p n : ℕ) (t : Shape) (k : List Frame) (s : Store) (col : color_of t ≡ black)
      (bt : IsBalanced n t) (le : length k ≤ fuel) where
    not_red :
        {cp : Color} {w : Shape}
        → Focus nil s (frame d p cp w ∷ k) t
        → is_red (s.mem (addr nil t)).color ≡ false
    not_red v = ap is_red (color-addr nil t p s.mem v.nil_black v.here ∙ col)

    -- A black sibling.
    pub at_black :
        (cp : Color) (y : ℕ) (w1 w2 : Shape)
        → Seat nil s (frame d p cp (make d y black w1 w2) ∷ k) t
        → IsBalanced n w1
        → IsBalanced n w2
        → Rest cp (suc n) k
        → IsFixed nil
            (fix_loop (suc fuel) nil (addr nil t) s)
            (inorder (plug k (make d p cp t (make d y black w1 w2))))
    at_black cp y w1 w2 i b1 b2 h =
        black_round nil fuel d p y n cp t k s s
          (not_root d p cp (make d y black w1 w2) t k s i.focus) (not_red i.focus)
          (side-is nil d p y cp black t w1 w2 k s i.focus i.parent)
          (black_sibling-black d nil (addr nil t) y s
            (sibling-is nil d p y cp black t w1 w2 k s i.focus i.parent)
            (ap (λ z. is_red z.color) (y-is nil d p y cp black t w1 w2 k s i.focus i.parent)
              ∙ red-mk d (addr nil w1) (addr nil w2) p black))
          bt h w1 w2 (higher cp h) i b1 b2
      where
        higher :
            (cp : Color)
            → Rest cp (suc n) k
            → (s' : Store) → cp ≡ black
            → IsBalanced n (make d y red w1 w2)
            → Seat nil s' k (make d p cp t (make d y red w1 w2))
            → IsFixed nil
                (fix_loop fuel nil p s')
                (inorder (plug k (make d p cp t (make d y red w1 w2))))
        higher red h s' e bw j = absurd (red-ne-black e)
        higher black h s' e bw j =
            subst
              (λ z.
                IsFixed nil (fix_loop fuel nil z s')
                  (inorder (plug k (make d p black t (make d y red w1 w2)))))
              (addr-make nil d p black t (make d y red w1 w2))
              (rest k (suc n) (make d p black t (make d y red w1 w2)) s' le j
                (IsBalanced-black d n p t (make d y red w1 w2) bt bw) h)

    -- A red sibling, whose near child is black and no leaf.
    pub at_red :
        (y z : ℕ) (u1 u2 w2 : Shape)
        → Seat nil s (frame d p black (make d y red (make d z black u1 u2) w2) ∷ k) t
        → IsBalanced n u1
        → IsBalanced n u2
        → IsBalanced (suc n) w2
        → AroundIsBalanced (suc (suc n)) k
        → IsFixed nil
            (fix_loop (suc fuel) nil (addr nil t) s)
            (inorder (plug k (make d p black t (make d y red (make d z black u1 u2) w2))))
    at_red y z u1 u2 w2 i b1 b2 bw h =
        let w1 = make d z black u1 u2 in
        let s1 = turned_over nil d p y black t w1 w2 k s in
        let r =
          black_round nil fuel d p z n red t (frame d y black w2 ∷ k) s s1
            (not_root d p black (make d y red w1 w2) t k s i.focus) (not_red i.focus)
            (side-is nil d p y black red t w1 w2 k s i.focus i.parent)
            (black_sibling-red nil d p y black t w1 w2 k s i
              ∙ ap (λ q. (q, s1)) (addr-make nil d z black u1 u2))
            bt (refl, (bw, h)) u1 u2 (λ s' e bw' j. absurd (red-ne-black e))
            (turned_over-Seat nil d p y black t w1 w2 k s i) b1 b2 in
        subst (λ xs. IsFixed nil (fix_loop (suc fuel) nil (addr nil t) s) xs)
          (inorder-plug k (make d y black (make d p red t w1) w2)
            (make d p black t (make d y red w1 w2))
            (inorder-rotate d y p black red black red t w1 w2))
          r

  abbrev Rests : ℕ → Type 0
  Rests fuel =
      (k : List Frame) (n : ℕ) (t : Shape) (s : Store)
      → length k ≤ fuel
      → Seat nil s k t
      → IsBalanced n t
      → AroundIsBalanced (suc n) k
      → IsFixed nil (fix_loop fuel nil (addr nil t) s) (inorder (plug k t))

  -- A round at a black node, by the shape of the sibling.
  round :
      (fuel : ℕ) (d : Side) (p : ℕ) (cp : Color) (w : Shape) (n : ℕ) (t : Shape) (k : List Frame)
      (s : Store)
      → Rests fuel
      → color_of t ≡ black
      → IsBalanced n t
      → length k ≤ fuel
      → Seat nil s (frame d p cp w ∷ k) t
      → AroundIsBalanced (suc n) (frame d p cp w ∷ k)
      → IsFixed nil (fix_loop (suc fuel) nil (addr nil t) s) (inorder (plug (frame d p cp w ∷ k) t))
  round fuel d p black leaf n t k s rest col bt le i h = absurd (omega (arith, h.0))
  round fuel d p red leaf n t k s rest col bt le i h = absurd (omega (arith, h.0))
  round fuel left p black (node l y black r) n t k s rest col bt le i h =
      at_black fuel rest left p n t k s col bt le black y l r i h.0.0 h.0.1 h.1
  round fuel right p black (node l y black r) n t k s rest col bt le i h =
      at_black fuel rest right p n t k s col bt le black y r l i h.0.1 h.0.0 h.1
  round fuel left p red (node l y black r) n t k s rest col bt le i h =
      at_black fuel rest left p n t k s col bt le red y l r i h.0.0 h.0.1 (h.2, h.3)
  round fuel right p red (node l y black r) n t k s rest col bt le i h =
      at_black fuel rest right p n t k s col bt le red y r l i h.0.1 h.0.0 (h.2, h.3)
  round fuel d p red (node l y red r) n t k s rest col bt le i h = absurd (red-ne-black h.1)
  round fuel left p black (node leaf y red r) n t k s rest col bt le i h =
      absurd (omega (arith, h.0.0))
  round fuel left p black (node (node u1 z red u2) y red r) n t k s rest col bt le i h =
      absurd (red-ne-black h.0.2)
  round fuel left p black (node (node u1 z black u2) y red r) n t k s rest col bt le i h =
      at_red fuel rest left p n t k s col bt le y z u1 u2 r i h.0.0.0 h.0.0.1 h.0.1 h.1
  round fuel right p black (node l y red leaf) n t k s rest col bt le i h =
      absurd (omega (arith, h.0.1))
  round fuel right p black (node l y red (node u1 z red u2)) n t k s rest col bt le i h =
      absurd (red-ne-black h.0.3)
  round fuel right p black (node l y red (node u1 z black u2)) n t k s rest col bt le i h =
      at_red fuel rest right p n t k s col bt le y z u2 u1 l i h.0.1.1 h.0.1.0 h.0.0 h.1

  -- Where the store holds a tree seen from a subtree that has one black node less on every way down
  -- than what is around it asks for, its parent's address stands in its root (for a leaf, in the
  -- tree's own node), and on fuel for one round at each node of the way up: after the loop, and when
  -- the node at which it ends is made black, the store holds a red-black tree with the same nodes in
  -- the same order.
  pub fix_loop-IsFixed :
      (fuel : ℕ) (k : List Frame) (n : ℕ) (t : Shape) (s : Store)
      → length k ≤ fuel
      → Seat nil s k t
      → IsBalanced n t
      → AroundIsBalanced (suc n) k
      → IsFixed nil (fix_loop fuel nil (addr nil t) s) (inorder (plug k t))
  fix_loop-IsFixed fuel [] n t s le i bt h =
      subst (λ z. IsFixed nil (fix_loop fuel nil z s) (inorder t)) i.focus.root
        (Fixed-root nil fuel [] t s i.focus (n, bt) refl)
  fix_loop-IsFixed fuel (frame d p cp w ∷ k) n (node a x red b) s le i bt h =
      Fixed-red nil fuel left x n a b (frame d p cp w ∷ k) s i.focus bt.0 bt.1 h
        (inorder-plug (frame d p cp w ∷ k) (node a x black b) (node a x red b) refl)
  fix_loop-IsFixed zero (frame d p cp w ∷ k) n t s le i bt h = absurd (omega arith)
  fix_loop-IsFixed (suc fuel) (frame d p cp w ∷ k) n leaf s le i bt h =
      round fuel d p cp w n leaf k s (fix_loop-IsFixed fuel) refl bt (omega arith) i h
  fix_loop-IsFixed (suc fuel) (frame d p cp w ∷ k) n (node a x black b) s le i bt h =
      round fuel d p cp w n (node a x black b) k s (fix_loop-IsFixed fuel) refl bt (omega arith) i h

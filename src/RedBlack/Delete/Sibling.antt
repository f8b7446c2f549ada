-- ===== src/RedBlack/Delete/Sibling.antt =====
-- What a round of `rb_delete_fix`'s loop reads: the parent and the sibling of its node.
use libappf.Base.{ℕ, arith, ◌≡◌, if◌then◌else◌, List, ap, ◌∙◌, false, ◌==◌, ◌∷◌, Bool}
use libappf.RedBlack.{Color, is_red, Side, left, right, opposite, child, Node, Store}
use libappf.RedBlack.Memory.Shape.{
  Shape, leaf, node, make, mk, Frame, frame, addr, top, Is, Focus, unzoom,
}
use libappf.RedBlack.Memory.Parts.{Parts-make, addr-apart, addr-make, count-make}
use libappf.RedBlack.Memory.Rotation.{child-mk, child-mk-opposite}
use libappf.RedBlack.Memory.Recolor.{color_of, at-make, color-addr, is_left, side-is_left}
use libappf.RedBlack.Insert.Round.{zoom-other}

module _ (nil : ℕ) where
  -- The parent above a subtree, which for a leaf is kept in the tree's own node.
  pub up-kept :
      (t : Shape) (k : List Frame) (p : ℕ) (s s' : Store)
      → Focus nil s' k t
      → (s'.mem nil).up ≡ (s.mem nil).up
      → top nil k ≡ p
      → (s.mem (addr nil t)).up ≡ p
      → (s'.mem (addr nil t)).up ≡ p
  up-kept leaf k p s s' v e f u = e ∙ u
  up-kept (node l q c r) k p s s' v e f u = ap (λ n. n.up) v.here.0 ∙ f

  parts-make :
      (d : Side) (q : ℕ) (c : Color) (a b : Shape) (up : ℕ) (m : ℕ → Node)
      → Is nil m up (make d q c a b)
      → Is nil m q a × Is nil m q b
  parts-make d q c a b up m v = let r = Parts-make nil d m up q c a b v in (r.first, r.second)

  module _ (d : Side) (p y : ℕ) (cp cw : Color) (t w1 w2 : Shape) (k : List Frame) (s : Store)
      (v : Focus nil s (frame d p cp (make d y cw w1 w2) ∷ k) t)
      (u : (s.mem (addr nil t)).up ≡ p) where
    pub at_p : Focus nil s k (make d p cp t (make d y cw w1 w2))
    at_p = unzoom nil d p cp t (make d y cw w1 w2) k v

    pub at_y : Focus nil s (frame (opposite d) p cp t ∷ k) (make d y cw w1 w2)
    at_y = zoom-other nil d p cp t (make d y cw w1 w2) k at_p

    pub p-is : s.mem p ≡ mk d (addr nil t) y (top nil k) cp
    p-is =
        at-make nil d p cp t (make d y cw w1 w2) k at_p
        ∙ ap (λ z. mk d (addr nil t) z (top nil k) cp) (addr-make nil d y cw w1 w2)

    pub y-is : s.mem y ≡ mk d (addr nil w1) (addr nil w2) p cw
    y-is = at-make nil d y cw w1 w2 (frame (opposite d) p cp t ∷ k) at_y

    pub sibling-is : child (opposite d) (s.mem (s.mem (addr nil t)).up) ≡ y
    sibling-is =
        ap (λ z. child (opposite d) (s.mem z)) u
        ∙ ap (child (opposite d)) p-is
        ∙ child-mk-opposite d (addr nil t) y (top nil k) cp

    x-ne-y : (addr nil t == y) ≡ false
    x-ne-y =
        addr-apart nil t y (ground (arith, v.apart y, count-make y d y cw w1 w2))
          (ground (arith, v.no_nil, count-make nil d y cw w1 w2))

    left-is : (e : Side) → (addr nil t == (mk e (addr nil t) y (top nil k) cp).left) ≡ is_left e
    left-is left = ground arith
    left-is right = x-ne-y

    pub side-is : (if addr nil t == (s.mem (s.mem (addr nil t)).up).left then left else right) ≡ d
    side-is =
        ap (λ z. if addr nil t == (s.mem z).left then left else right) u
        ∙ ap (λ (z : Node). if addr nil t == z.left then left else right) p-is
        ∙ ap (λ (z : Bool). if z then left else right) (left-is d)
        ∙ side-is_left d

    pub near-is : child d (s.mem y) ≡ addr nil w1
    near-is = ap (child d) y-is ∙ child-mk d (addr nil w1) (addr nil w2) p cw

    pub far-is : child (opposite d) (s.mem y) ≡ addr nil w2
    far-is = ap (child (opposite d)) y-is ∙ child-mk-opposite d (addr nil w1) (addr nil w2) p cw

    pub near-color : is_red (s.mem (child d (s.mem y))).color ≡ is_red (color_of w1)
    near-color =
        ap (λ z. is_red (s.mem z).color) near-is
        ∙ ap is_red
            (color-addr nil w1 y s.mem v.nil_black (parts-make d y cw w1 w2 p s.mem at_y.here).0)

    pub far-color : is_red (s.mem (child (opposite d) (s.mem y))).color ≡ is_red (color_of w2)
    far-color =
        ap (λ z. is_red (s.mem z).color) far-is
        ∙ ap is_red
            (color-addr nil w2 y s.mem v.nil_black (parts-make d y cw w1 w2 p s.mem at_y.here).1)

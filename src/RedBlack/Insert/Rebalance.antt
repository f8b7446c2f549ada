-- ===== src/RedBlack/Insert/Rebalance.antt =====
-- `rb_traverse`'s loop makes the tree a red-black tree again.
use libappf.Base.{
  ℕ, arith, ◌≡◌, List, ◌∙◌, [], refl, ◌∷◌, sym, suc, zero, ap, true, false, ◌==◌, if◌then◌else◌,
  Bool, subst,
}
use libappf.RedBlack.{rotate, Color, black, red, is_red, child, Side, left, right, Store, opposite}
use libappf.RedBlack.Memory.Shape.{
  Shape, node, make, Frame, frame, plug, Focus, unzoom, addr, top, zoom,
}
use libappf.RedBlack.Memory.Rotation.{up-mk, color-mk}
use libappf.RedBlack.Memory.Recolor.{color_of, at-make}
use libappf.RedBlack.Insert.Round.{
  parent-x, p-is, parent-p, side-is, uncle-is, uncle-color, not_root,
}
use libappf.RedBlack.Insert.Uncle.{lift-Focus, straighten-inner, straighten-outer, straighten-Focus}
use libappf.RedBlack.Memory.Balance.{
  inorder, IsBalanced, AroundIsBalanced, IsBalanced-black, IsBalanced-red, color-make,
  IsBalanced-plug, inorder-plug, inorder-rotate, inorder-rotate_inner, plug-Focus,
}
use libappf.RedBlack.Insert.{recolor, straighten, lift, rebalance}

-- The loop stops at the root, and under a black parent.
pub rebalance-root :
    (fuel nil x : ℕ) (s : Store) → (x == s.root) ≡ true → rebalance fuel nil x s ≡ s
unfolding rebalance
rebalance-root zero nil x s e = refl
rebalance-root (suc fuel) nil x s e = rw e refl

pub rebalance-black :
    (fuel nil x p : ℕ) (s : Store)
    → (s.mem x).up ≡ p
    → (s.mem p).color ≡ black
    → rebalance fuel nil x s ≡ s
unfolding rebalance
rebalance-black zero nil x p s e f = refl
rebalance-black (suc fuel) nil x p s e f = ground (arith, e, f)

pub rebalance-red :
    (fuel nil x p g y : ℕ) (d : Side) (b : Bool) (s : Store)
    → (x == s.root) ≡ false
    → (s.mem x).up ≡ p
    → (s.mem p).color ≡ red
    → (s.mem p).up ≡ g
    → (if p == (s.mem g).left then left else right) ≡ d
    → child (opposite d) (s.mem g) ≡ y
    → is_red (s.mem y).color ≡ b
    → rebalance (suc fuel) nil x s ≡ (
        if b
        then rebalance fuel nil g (recolor x y s)
        else rebalance fuel nil
            ((straighten d nil x s).0)
            (lift d nil ((straighten d nil x s).0) ((straighten d nil x s).1)))
unfolding rebalance
rebalance-red fuel nil x p g y d b s r e c f h i j = cc

module _ (nil : ℕ) where
  -- The store holds a red-black tree with the given nodes in order, its root of any color.
  pub record HoldsBalanced (s : Store) (xs : List ℕ) : Type 0 where
    pub tree : Shape
    pub height : ℕ
    pub holds : Focus nil s [] tree
    pub order : inorder tree ≡ xs
    pub balanced : IsBalanced height tree

  pub reorder :
      {ys xs : List ℕ} {s s' : Store} → HoldsBalanced s xs → xs ≡ ys → s' ≡ s → HoldsBalanced s' ys
  reorder {ys} h e f =
      subst (λ z. HoldsBalanced z ys) (sym f)
        record {
          tree = h.tree;
          height = h.height;
          holds = h.holds;
          order = h.order ∙ e;
          balanced = h.balanced;
        }

  pub under-black :
      (fuel : ℕ) (d e : Side) (p x n : ℕ) (c : Color) (a b w : Shape) (k : List Frame) (s : Store)
      → Focus nil s (frame d p black w ∷ k) (make e x c a b)
      → IsBalanced n (make e x c a b)
      → IsBalanced n w
      → AroundIsBalanced (suc n) k
      → HoldsBalanced
          (rebalance fuel nil x s)
          (inorder (plug (frame d p black w ∷ k) (make e x c a b)))
  under-black fuel d e p x n c a b w k s v bt bw bk =
      let t = make e x c a b in
      let v' : Focus nil s k (make d p black t w) = unzoom nil d p black t w k v in
      let up : (s.mem x).up ≡ p =
        ap (λ z. z.up) (at-make nil e x c a b (frame d p black w ∷ k) v)
        ∙ up-mk e (addr nil a) (addr nil b) p c in
      let col : (s.mem p).color ≡ black =
        ap (λ z. z.color) (at-make nil d p black t w k v')
        ∙ color-mk d (addr nil t) (addr nil w) (top nil k) black in
      let r =
        IsBalanced-plug k (suc n) (make d p black t w) (color-make d p black t w) bk
          (IsBalanced-black d n p t w bt bw) in
      reorder
        record {
          tree = plug k (make d p black t w);
          height = r.0;
          holds = plug-Focus nil k (make d p black t w) v';
          order = refl;
          balanced = r.1;
        }
        refl (rebalance-black fuel nil x p s up col)

  -- A black uncle, and the outer grandchild.
  outer :
      (fuel : ℕ) (d : Side) (g p x n : ℕ) (a b w u : Shape) (k : List Frame) (s : Store)
      → Focus nil s (frame d p red w ∷ frame d g black u ∷ k) (make d x red a b)
      → IsBalanced n (make d x red a b)
      → IsBalanced n w
      → IsBalanced n u
      → color_of w ≡ black
      → color_of u ≡ black
      → AroundIsBalanced (suc n) k
      → HoldsBalanced
          (rebalance fuel nil x (lift d nil x s))
          (inorder (plug (frame d p red w ∷ frame d g black u ∷ k) (make d x red a b)))
  outer fuel d g p x n a b w u k s v bt bw bu cw cu bk =
      let t = make d x red a b in
      let v' : Focus nil (lift d nil x s) (frame d p black (make d g red w u) ∷ k) t =
        zoom nil d p black t (make d g red w u) k
          (lift-Focus nil d g p x red black a b w u k s v) in
      reorder
        (under-black fuel d d p x n red a b (make d g red w u) k (lift d nil x s) v' bt
          (IsBalanced-red d n g w u bw bu cw cu) bk)
        (sym (
          inorder-plug k (make d g black (make d p red t w) u) (make d p black t (make d g red w u))
            (inorder-rotate d g p black red black red t w u)))
        refl

  -- A black uncle, and the inner grandchild.
  inner :
      (fuel : ℕ) (d : Side) (g p x n : ℕ) (a b w u : Shape) (k : List Frame) (s : Store)
      → Focus nil s (frame (opposite d) p red w ∷ frame d g black u ∷ k) (make d x red a b)
      → IsBalanced n a
      → IsBalanced n b
      → color_of a ≡ black
      → color_of b ≡ black
      → IsBalanced n w
      → IsBalanced n u
      → color_of w ≡ black
      → color_of u ≡ black
      → AroundIsBalanced (suc n) k
      → HoldsBalanced
          (rebalance fuel nil p (lift d nil p (rotate d nil p s)))
          (inorder (plug (frame (opposite d) p red w ∷ frame d g black u ∷ k) (make d x red a b)))
  inner fuel d g p x n a b w u k s v ba bb ca cb bw bu cw cu bk =
      reorder
        (outer fuel d g x p n w a b u k (rotate d nil p s)
          (straighten-Focus nil d g p x red black a b w u k s v)
          (IsBalanced-red d n p w a bw ba cw ca) bb bu cb cu bk)
        (sym (
          inorder-plug (frame d g black u ∷ k) (make (opposite d) p red (make d x red a b) w)
            (make d x red (make d p red w a) b) (inorder-rotate_inner d p x red red red red a b w)))
        refl

  -- What the loop computes at a red node under a red parent.
  pub round :
      (fuel : ℕ) (d e : Side) (g p x : ℕ) (a b w u : Shape) (k : List Frame) (s : Store)
      → Focus nil s (frame e p red w ∷ frame d g black u ∷ k) (make d x red a b)
      → rebalance (suc fuel) nil x s ≡ (
          if is_red (color_of u)
          then rebalance fuel nil g (recolor x (addr nil u) s)
          else rebalance fuel nil
              ((straighten d nil x s).0)
              (lift d nil ((straighten d nil x s).0) ((straighten d nil x s).1)))
  round fuel d e g p x a b w u k s v =
      rebalance-red fuel nil x p g (addr nil u) d (is_red (color_of u)) s
        (not_root nil d e g p x red black a b w u k s v)
        (parent-x nil d e g p x red black a b w u k s v)
        (ap (λ z. z.color) (p-is nil d e g p x red black a b w u k s v)
          ∙ color-mk e (addr nil (make d x red a b)) (addr nil w) g red)
        (parent-p nil d e g p x red black a b w u k s v)
        (side-is nil d e g p x red black a b w u k s v)
        (uncle-is nil d e g p x red black a b w u k s v)
        (ap is_red (uncle-color nil d e g p x red black a b w u k s v))

  -- A round with a black uncle is the last.
  pub last :
      (fuel : ℕ) (d e : Side) (g p x n : ℕ) (a b w u : Shape) (k : List Frame) (s : Store)
      → Focus nil s (frame e p red w ∷ frame d g black u ∷ k) (make d x red a b)
      → IsBalanced n a
      → IsBalanced n b
      → color_of a ≡ black
      → color_of b ≡ black
      → color_of u ≡ black
      → AroundIsBalanced n (frame e p red w ∷ frame d g black u ∷ k)
      → HoldsBalanced
          (rebalance (suc fuel) nil x s)
          (inorder (plug (frame e p red w ∷ frame d g black u ∷ k) (make d x red a b)))
  last fuel left left g p x n a b w u k s v ba bb ca cb cu h =
      reorder
        (outer fuel left g p x n a b w u k s v (IsBalanced-red left n x a b ba bb ca cb) h.0 h.3.0
          h.1 cu h.3.1)
        refl
        (round fuel left left g p x a b w u k s v
          ∙ rw (cu, straighten-outer nil left g p x red black a b w u k s v) refl)
  last fuel right right g p x n a b w u k s v ba bb ca cb cu h =
      reorder
        (outer fuel right g p x n a b w u k s v (IsBalanced-red right n x a b ba bb ca cb) h.0 h.3.0
          h.1 cu h.3.1)
        refl
        (round fuel right right g p x a b w u k s v
          ∙ rw (cu, straighten-outer nil right g p x red black a b w u k s v) refl)
  last fuel left right g p x n a b w u k s v ba bb ca cb cu h =
      reorder (inner fuel left g p x n a b w u k s v ba bb ca cb h.0 h.3.0 h.1 cu h.3.1) refl (
        round fuel left right g p x a b w u k s v
        ∙ rw (cu, straighten-inner nil left g p x red black a b w u k s v) refl)
  last fuel right left g p x n a b w u k s v ba bb ca cb cu h =
      reorder (inner fuel right g p x n a b w u k s v ba bb ca cb h.0 h.3.0 h.1 cu h.3.1) refl (
        round fuel right left g p x a b w u k s v
        ∙ rw (cu, straighten-inner nil right g p x red black a b w u k s v) refl)

  -- After a round with a red uncle the grandparent is red, and the rest is as before.
  pub raised :
      (d e : Side) (g p x y n : ℕ) (a b w u1 u2 : Shape) (k : List Frame)
      → IsBalanced n (make d x red a b)
      → AroundIsBalanced n (frame e p red w ∷ frame d g black (node u1 y red u2) ∷ k)
      → IsBalanced (suc n) (make d g red (make e p black (make d x red a b) w) (node u1 y black u2))
  raised d e g p x y n a b w u1 u2 k bt h =
      IsBalanced-red d (suc n) g (make e p black (make d x red a b) w) (node u1 y black u2)
        (IsBalanced-black e n p (make d x red a b) w bt h.0) (h.3.0.0, h.3.0.1)
        (color-make e p black (make d x red a b) w) refl

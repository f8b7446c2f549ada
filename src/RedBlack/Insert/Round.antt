-- ===== src/RedBlack/Insert/Round.antt =====
-- A round of `rb_traverse`'s loop: what it reads and what it does to the tree in memory.
use libappf.Base.{ℕ, arith, ◌≡◌, if◌then◌else◌, List, ap, ◌∙◌, false, ◌==◌, ◌∷◌, Bool}
use libappf.RedBlack.{
  Color, black, red, Side, left, right, opposite, child, Store, rotate, set_color,
}
use libappf.RedBlack.Memory.Shape.{Shape, make, mk, Frame, frame, addr, top, Focus, zoom, unzoom}
use libappf.RedBlack.Memory.Parts.{addr-make, count-make}
use libappf.RedBlack.Memory.Rotation.{child-mk-opposite, up-mk}
use libappf.RedBlack.Memory.Turn.{rotate-Focus}
use libappf.RedBlack.Memory.Recolor.{
  color_of, side-is_left, at-make, color-addr, root-frame, is_left-make,
}
use libappf.RedBlack.Insert.{recolor, lift}

pub set_color-up : (q p : ℕ) (c : Color) (s : Store) → ((set_color q c s).mem p).up ≡ (s.mem p).up
set_color-up q p c s = ground arith

-- The two colors that a round starts with.
pub recolor-up :
    (x y p g : ℕ) (s : Store)
    → (s.mem x).up ≡ p
    → (s.mem p).up ≡ g
    → recolor x y s ≡ set_color g red (set_color y black (set_color p black s))
unfolding recolor
recolor-up x y p g s e f =
    let s2 = set_color y black (set_color p black s) in
    let h : (s2.mem x).up ≡ p =
      set_color-up y x black (set_color p black s) ∙ set_color-up p x black s ∙ e in
    let i : (s2.mem p).up ≡ g =
      set_color-up y p black (set_color p black s) ∙ set_color-up p p black s ∙ f in
    ap
      (λ z.
        let r = set_color y black (set_color z black s) in set_color (r.mem (r.mem x).up).up red r)
      e
    ∙ ap (λ z. set_color (s2.mem z).up red s2) h
    ∙ ap (λ z. set_color z red s2) i

pub lift-up :
    (d : Side) (nil x p g : ℕ) (s : Store)
    → (s.mem x).up ≡ p
    → (s.mem p).up ≡ g
    → lift d nil x s ≡ rotate (opposite d) nil g (set_color g red (set_color p black s))
unfolding lift
lift-up d nil x p g s e f =
    let s1 = set_color p black s in
    let s2 = set_color g red s1 in
    let e1 : (s1.mem x).up ≡ p = set_color-up p x black s ∙ e in
    let f1 : (s1.mem p).up ≡ g = set_color-up p p black s ∙ f in
    let e2 : (s2.mem x).up ≡ p = set_color-up g x red s1 ∙ e1 in
    let f2 : (s2.mem p).up ≡ g = set_color-up g p red s1 ∙ f1 in
    ap
      (λ z.
        let r = set_color z black s in
        let r' = set_color (r.mem (r.mem x).up).up red r in
        rotate (opposite d) nil (r'.mem (r'.mem x).up).up r')
      e
    ∙ ap
        (λ z.
          let r = set_color (s1.mem z).up red s1 in
          rotate (opposite d) nil (r.mem (r.mem x).up).up r)
        e1
    ∙ ap (λ z. let r = set_color z red s1 in rotate (opposite d) nil (r.mem (r.mem x).up).up r) f1
    ∙ ap (λ z. rotate (opposite d) nil (s2.mem z).up s2) e2
    ∙ ap (λ z. rotate (opposite d) nil z s2) f2

module _ (nil : ℕ) where
  pub zoom-other :
      (d : Side) (q : ℕ) (c : Color) (a b : Shape) (k : List Frame) {s : Store}
      → Focus nil s k (make d q c a b)
      → Focus nil s (frame (opposite d) q c a ∷ k) b
  zoom-other left q c a b k v = zoom nil right q c b a k v
  zoom-other right q c a b k v = zoom nil left q c b a k v

  pub unzoom-other :
      (d : Side) (q : ℕ) (c : Color) (a b : Shape) (k : List Frame) {s : Store}
      → Focus nil s (frame (opposite d) q c a ∷ k) b
      → Focus nil s k (make d q c a b)
  unzoom-other left q c a b k v = unzoom nil right q c b a k v
  unzoom-other right q c a b k v = unzoom nil left q c b a k v

  pub rotate-other :
      (d : Side) (g p : ℕ) (cg cp : Color) (t w u : Shape) (k : List Frame) (s : Store)
      → Focus nil s k (make d g cg (make d p cp t w) u)
      → Focus nil (rotate (opposite d) nil g s) k (make d p cp t (make d g cg w u))
  rotate-other left g p cg cp t w u k s v = rotate-Focus nil right g p cg cp u w t k s v
  rotate-other right g p cg cp t w u k s v = rotate-Focus nil left g p cg cp u w t k s v

  pub rotate-inner :
      (d : Side) (p x : ℕ) (cp cx : Color) (a b w : Shape) (k : List Frame) (s : Store)
      → Focus nil s k (make (opposite d) p cp (make d x cx a b) w)
      → Focus nil (rotate d nil p s) k (make d x cx (make d p cp w a) b)
  rotate-inner left p x cp cx a b w k s v = rotate-Focus nil left p x cp cx w a b k s v
  rotate-inner right p x cp cx a b w k s v = rotate-Focus nil right p x cp cx w a b k s v

  -- A red node `x` under `p` on side `e`, under `g` on side `d`.
  module _ (d e : Side) (g p x : ℕ) (cp cg : Color) (a b w u : Shape) (k : List Frame) (s : Store)
      (v : Focus nil s (frame e p cp w ∷ frame d g cg u ∷ k) (make d x red a b)) where
    pub at_parent : Focus nil s (frame d g cg u ∷ k) (make e p cp (make d x red a b) w)
    at_parent = unzoom nil e p cp (make d x red a b) w (frame d g cg u ∷ k) v

    at_grandparent : Focus nil s k (make d g cg (make e p cp (make d x red a b) w) u)
    at_grandparent = unzoom nil d g cg (make e p cp (make d x red a b) w) u k at_parent

    pub parent-x : (s.mem x).up ≡ p
    parent-x =
        ap (λ n. n.up) (at-make nil d x red a b (frame e p cp w ∷ frame d g cg u ∷ k) v)
        ∙ up-mk d (addr nil a) (addr nil b) p red

    pub p-is : s.mem p ≡ mk e (addr nil (make d x red a b)) (addr nil w) g cp
    p-is = at-make nil e p cp (make d x red a b) w (frame d g cg u ∷ k) at_parent

    pub p-is_x : s.mem p ≡ mk e x (addr nil w) g cp
    p-is_x = p-is ∙ ap (λ z. mk e z (addr nil w) g cp) (addr-make nil d x red a b)

    pub parent-p : (s.mem p).up ≡ g
    parent-p = ap (λ n. n.up) p-is ∙ up-mk e (addr nil (make d x red a b)) (addr nil w) g cp

    pub g-is :
        s.mem g ≡ mk d (addr nil (make e p cp (make d x red a b) w)) (addr nil u) (top nil k) cg
    g-is = at-make nil d g cg (make e p cp (make d x red a b) w) u k at_grandparent

    pub side-is : (if p == (s.mem g).left then left else right) ≡ d
    side-is =
        ap (λ (z : Bool). if z then left else right)
          (is_left-make nil d g cg (make e p cp (make d x red a b) w) u p k
            (addr-make nil e p cp (make d x red a b) w)
            (ground (arith, count-make p e p cp (make d x red a b) w)) at_grandparent)
        ∙ side-is_left d

    pub uncle-is : child (opposite d) (s.mem g) ≡ addr nil u
    uncle-is =
        ap (child (opposite d)) g-is
        ∙ child-mk-opposite d (addr nil (make e p cp (make d x red a b) w)) (addr nil u) (top nil k)
            cg

    pub uncle-color : (s.mem (addr nil u)).color ≡ color_of u
    uncle-color = color-addr nil u g s.mem v.nil_black v.around.2.1

    pub not_root : (x == s.root) ≡ false
    not_root =
        root-frame nil e p cp w (make d x red a b) x (frame d g cg u ∷ k)
          (ground (arith, count-make x d x red a b)) v

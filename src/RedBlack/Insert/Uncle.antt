-- ===== src/RedBlack/Insert/Uncle.antt =====
-- What the parts of a round of `rb_traverse`'s loop do to the tree in memory.
use libappf.Base.{ℕ, arith, ◌≡◌, List, ap, ◌∙◌, false, ◌==◌, ◌∷◌, sym, subst}
use libappf.RedBlack.{Color, black, red, Side, left, opposite, child, Store, rotate, set_color}
use libappf.RedBlack.Memory.Shape.{Shape, node, make, Frame, frame, addr, Focus, zoom, unzoom}
use libappf.RedBlack.Memory.Parts.{addr-apart, count-make}
use libappf.RedBlack.Memory.Rotation.{child-mk, child-mk-opposite}
use libappf.RedBlack.Memory.Recolor.{set_color-Focus}
use libappf.RedBlack.Insert.{recolor, straighten, lift}
use libappf.RedBlack.Insert.Round.{
  recolor-up, lift-up, zoom-other, unzoom-other, rotate-other, rotate-inner, at_parent, parent-x,
  parent-p, p-is_x,
}
use libappf.Base.{ap, ◌≡◌, ℕ, ◌∷◌, false, arith, subst, List, ◌∙◌, ◌==◌, sym}

module _ (nil : ℕ) where
  -- A red uncle: the colors move up.
  pub recolor-Focus :
      (d e : Side) (g p x y : ℕ) (cp cg : Color) (a b w u1 u2 : Shape) (k : List Frame) (s : Store)
      → Focus nil s (frame e p cp w ∷ frame d g cg (node u1 y red u2) ∷ k) (make d x red a b)
      → Focus nil
          (recolor x y s)
          k
          (make d g red (make e p black (make d x red a b) w) (node u1 y black u2))
  recolor-Focus d e g p x y cp cg a b w u1 u2 k s v =
      let u = node u1 y red u2 in
      let t = make d x red a b in
      let pb = make e p black t w in
      let s1 = set_color p black s in
      let v1 : Focus nil s1 (frame d g cg u ∷ k) pb =
        set_color-Focus nil e p cp black t w (frame d g cg u ∷ k) s
          (at_parent nil d e g p x cp cg a b w u k s v) in
      let v2 : Focus nil (set_color y black s1) (frame (opposite d) g cg pb ∷ k)
          (node u1 y black u2) =
        set_color-Focus nil left y red black u1 u2 (frame (opposite d) g cg pb ∷ k) s1
          (zoom-other nil d g cg pb u k (unzoom nil d g cg pb u k v1)) in
      subst (λ z. Focus nil z k (make d g red pb (node u1 y black u2)))
        (sym (
          recolor-up x y p g s (parent-x nil d e g p x cp cg a b w u k s v)
            (parent-p nil d e g p x cp cg a b w u k s v)))
        (set_color-Focus nil d g cg red pb (node u1 y black u2) k (set_color y black s1)
          (unzoom-other nil d g cg pb (node u1 y black u2) k v2))

  -- A black uncle, and the outer grandchild: a rotation at the grandparent.
  pub lift-Focus :
      (d : Side) (g p x : ℕ) (cp cg : Color) (a b w u : Shape) (k : List Frame) (s : Store)
      → Focus nil s (frame d p cp w ∷ frame d g cg u ∷ k) (make d x red a b)
      → Focus nil (lift d nil x s) k (make d p black (make d x red a b) (make d g red w u))
  lift-Focus d g p x cp cg a b w u k s v =
      let t = make d x red a b in
      let pb = make d p black t w in
      let s1 = set_color p black s in
      let v1 : Focus nil s1 (frame d g cg u ∷ k) pb =
        set_color-Focus nil d p cp black t w (frame d g cg u ∷ k) s
          (at_parent nil d d g p x cp cg a b w u k s v) in
      subst (λ z. Focus nil z k (make d p black t (make d g red w u)))
        (sym (
          lift-up d nil x p g s (parent-x nil d d g p x cp cg a b w u k s v)
            (parent-p nil d d g p x cp cg a b w u k s v)))
        (rotate-other nil d g p red black t w u k (set_color g red s1)
          (set_color-Focus nil d g cg red pb u k s1 (unzoom nil d g cg pb u k v1)))

  -- The inner grandchild becomes the outer one, and the outer one stays.
  pub straighten-inner :
      (d : Side) (g p x : ℕ) (cp cg : Color) (a b w u : Shape) (k : List Frame) (s : Store)
      → Focus nil s (frame (opposite d) p cp w ∷ frame d g cg u ∷ k) (make d x red a b)
      → straighten d nil x s ≡ (p, rotate d nil p s)
  unfolding straighten
  straighten-inner d g p x cp cg a b w u k s v =
      let q : (s.mem x).up ≡ p = parent-x nil d (opposite d) g p x cp cg a b w u k s v in
      let h : child (opposite d) (s.mem p) ≡ x =
        ap (child (opposite d)) (p-is_x nil d (opposite d) g p x cp cg a b w u k s v)
        ∙ child-mk (opposite d) x (addr nil w) g cp in
      ground (arith, q, h)

  pub straighten-outer :
      (d : Side) (g p x : ℕ) (cp cg : Color) (a b w u : Shape) (k : List Frame) (s : Store)
      → Focus nil s (frame d p cp w ∷ frame d g cg u ∷ k) (make d x red a b)
      → straighten d nil x s ≡ (x, s)
  unfolding straighten
  straighten-outer d g p x cp cg a b w u k s v =
      let q : (s.mem x).up ≡ p = parent-x nil d d g p x cp cg a b w u k s v in
      let h : child (opposite d) (s.mem p) ≡ addr nil w =
        ap (child (opposite d)) (p-is_x nil d d g p x cp cg a b w u k s v)
        ∙ child-mk-opposite d x (addr nil w) g cp in
      let i : (addr nil w == x) ≡ false =
        addr-apart nil w x (ground (arith, v.apart x, count-make x d x red a b))
          (ground (arith, v.no_nil, count-make nil d x red a b)) in
      ground (arith, q, h, i)

  pub straighten-Focus :
      (d : Side) (g p x : ℕ) (cp cg : Color) (a b w u : Shape) (k : List Frame) (s : Store)
      → Focus nil s (frame (opposite d) p cp w ∷ frame d g cg u ∷ k) (make d x red a b)
      → Focus nil (rotate d nil p s) (frame d x red b ∷ frame d g cg u ∷ k) (make d p cp w a)
  straighten-Focus d g p x cp cg a b w u k s v =
      zoom nil d x red (make d p cp w a) b (frame d g cg u ∷ k) (
        rotate-inner nil d p x cp red a b w (frame d g cg u ∷ k) s
          (at_parent nil d (opposite d) g p x cp cg a b w u k s v))

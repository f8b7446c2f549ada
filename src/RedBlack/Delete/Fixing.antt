-- ===== src/RedBlack/Delete/Fixing.antt =====
-- A round of `rb_delete_fix`'s loop whose sibling is black.
use libappf.Base.{
  ℕ, ◌≡◌, if◌then◌else◌, List, ap, ◌∙◌, false, true, refl, ◌∷◌, sym, subst, suc, ◌==◌,
}
use libappf.RedBlack.{
  Color, black, red, is_red, Side, left, right, opposite, child, Store, set_color,
}
use libappf.RedBlack.Memory.Shape.{Shape, make, Frame, frame, plug, addr, top, Focus}
use libappf.RedBlack.Memory.Parts.{addr-make}
use libappf.RedBlack.Memory.Rotation.{up-mk}
use libappf.RedBlack.Memory.Recolor.{color_of, set_color-Focus, at-make}
use libappf.RedBlack.Insert.Round.{unzoom-other, set_color-up}
use libappf.RedBlack.Delete.Sibling.{at_y, near-color, far-color}
use libappf.RedBlack.Memory.Balance.{
  inorder, IsBalanced, IsBalanced-red, color-make, inorder-make, inorder-plug, inorder-rotate,
}
use libappf.RedBlack.Delete.Nephew.{Seat, bent, bent-Seat, red_nephew-near}
use libappf.RedBlack.Delete.Reads.{red_nephew-far, fix_loop-higher, fix_loop-done}
use libappf.RedBlack.Delete.{black_sibling, finish, fix_loop}
use libappf.RedBlack.Delete.Endings.{
  Rest, is_black, is_red_node, view, children, or-true, IsFixed, Fixed-red, Fixed-ended,
}

module _ (nil : ℕ) where
  -- The parent's turn.
  parent_next :
      (cp : Color) (fuel : ℕ) (d : Side) (p n : ℕ) (t w : Shape) (k : List Frame) (s : Store)
      → ((s' : Store)
          → cp ≡ black
          → IsBalanced n w
          → Seat nil s' k (make d p cp t w)
          → IsFixed nil (fix_loop fuel nil p s') (inorder (plug k (make d p cp t w))))
      → Focus nil s k (make d p cp t w)
      → Rest cp (suc n) k
      → IsBalanced n t
      → IsBalanced n w
      → IsFixed nil (fix_loop fuel nil p s) (inorder (plug k (make d p cp t w)))
  parent_next black fuel d p n t w k s higher v h bt bw = higher s refl bw record {
    focus = v;
    parent =
        ap (λ z. (s.mem z).up) (addr-make nil d p black t w)
        ∙ ap (λ z. z.up) (at-make nil d p black t w k v)
        ∙ up-mk d (addr nil t) (addr nil w) (top nil k) black;
  }
  parent_next red fuel d p n t w k s higher v h bt bw =
      Fixed-red nil fuel d p n t w k s v bt bw h.1 (
        inorder-plug k (make d p black t w) (make d p red t w)
          (inorder-make d p black red t t w w refl refl))

  -- The far nephew is red.
  module _ (fuel : ℕ) (d : Side) (p y n : ℕ) (cp : Color) (t : Shape) (k : List Frame)
      (s0 s : Store) (r : (addr nil t == s0.root) ≡ false)
      (c : is_red (s0.mem (addr nil t)).color ≡ false)
      (e : (if addr nil t == (s0.mem (s0.mem (addr nil t)).up).left then left else right) ≡ d)
      (b : black_sibling d nil (addr nil t) s0 ≡ (y, s)) (bt : IsBalanced n t)
      (h : Rest cp (suc n) k) where
    -- A round ends well, where the sibling has these children.
    abbrev Ends : (w1 w2 : Shape) → Type 0
    Ends w1 w2 =
        Seat nil s (frame d p cp (make d y black w1 w2) ∷ k) t
        → IsBalanced n w1
        → IsBalanced n w2
        → IsFixed nil (fix_loop (suc fuel) nil (addr nil t) s0)
            (inorder (plug k (make d p cp t (make d y black w1 w2))))

    far_red : (f : ℕ) (w1 f1 f2 : Shape) → Ends w1 (make d f red f1 f2)
    far_red f w1 f1 f2 i b1 b2 =
        let w2 = make d f red f1 f2 in
        let fc : is_red (s.mem (child (opposite d) (s.mem y))).color ≡ true =
          far-color nil d p y cp black t w1 w2 k s i.focus i.parent
          ∙ ap is_red (color-make d f red f1 f2) in
        subst (λ z. IsFixed nil z (inorder (plug k (make d p cp t (make d y black w1 w2)))))
          (sym (
            fix_loop-done fuel nil (addr nil t) y y d (is_red (color_of w1)) true s0 s s
              (finish d nil (addr nil t) y s) r c e b
              (near-color nil d p y cp black t w1 w2 k s i.focus i.parent) fc
              (or-true (is_red (color_of w1))) (red_nephew-far d nil (addr nil t) y s fc) refl))
          (Fixed-ended nil fuel d p y f n cp t w1 f1 f2 k s i bt b1 b2 h refl)

    near_red : (z : ℕ) (z1 z2 w2 : Shape) → color_of w2 ≡ black → Ends (make d z red z1 z2) w2
    near_red z z1 z2 w2 cw i b1 b2 =
        let w1 = make d z red z1 z2 in
        let s' = bent nil d p y z cp t z1 z2 w2 k s in
        let bz = children d n z z1 z2 b1 in
        subst (λ r. IsFixed nil r (inorder (plug k (make d p cp t (make d y black w1 w2)))))
          (sym (
            fix_loop-done fuel nil (addr nil t) y z d true false s0 s s'
              (finish d nil (addr nil t) z s') r c e b
              (near-color nil d p y cp black t w1 w2 k s i.focus i.parent
                ∙ ap is_red (color-make d z red z1 z2))
              (far-color nil d p y cp black t w1 w2 k s i.focus i.parent ∙ ap is_red cw) refl
              (red_nephew-near nil d p y z cp t z1 z2 w2 k s i cw) refl))
          (Fixed-ended nil fuel d p z y n cp t z1 z2 w2 k s'
            (bent-Seat nil d p y z cp t z1 z2 w2 k s i) bt bz.0
            (IsBalanced-red d n y z2 w2 bz.1 b2 bz.3 cw) h
            (inorder-plug k (make d p cp t (make d z black z1 (make d y red z2 w2)))
              (make d p cp t (make d y black w1 w2))
              (inorder-make d p cp cp t t (make d z black z1 (make d y red z2 w2))
                (make d y black w1 w2) refl
                (sym (inorder-rotate d y z black red black red z1 z2 w2)))))

    -- Both nephews are black: the sibling becomes red, and the parent is next.
    both_black :
        (w1 w2 : Shape)
        → color_of w1 ≡ black
        → color_of w2 ≡ black
        → ((s' : Store)
            → cp ≡ black
            → IsBalanced n (make d y red w1 w2)
            → Seat nil s' k (make d p cp t (make d y red w1 w2))
            → IsFixed nil
                (fix_loop fuel nil p s')
                (inorder (plug k (make d p cp t (make d y red w1 w2)))))
        → Ends w1 w2
    both_black w1 w2 c1 c2 higher i b1 b2 =
        let x = addr nil t in
        let w = make d y red w1 w2 in
        let s2 = set_color y red s in
        let v : Focus nil s2 k (make d p cp t w) = unzoom-other nil d p cp t w k (
          set_color-Focus nil d y black red w1 w2 (frame (opposite d) p cp t ∷ k) s
            (at_y nil d p y cp black t w1 w2 k s i.focus i.parent)) in
        let q =
          parent_next cp fuel d p n t w k s2 higher v h bt
            (IsBalanced-red d n y w1 w2 b1 b2 c1 c2) in
        let o = inorder-plug k (make d p cp t w) (make d p cp t (make d y black w1 w2)) (
          inorder-make d p cp cp t t w (make d y black w1 w2) refl
            (inorder-make d y red black w1 w1 w2 w2 refl refl)) in
        subst (λ r. IsFixed nil r (inorder (plug k (make d p cp t (make d y black w1 w2)))))
          (sym (
            fix_loop-higher fuel nil x p y d s0 s r c e b
              (near-color nil d p y cp black t w1 w2 k s i.focus i.parent ∙ ap is_red c1)
              (far-color nil d p y cp black t w1 w2 k s i.focus i.parent ∙ ap is_red c2)
              (set_color-up y x red s ∙ i.parent)))
          (subst (λ z. IsFixed nil (fix_loop fuel nil p s2) z) o q)

    pub black_round :
        (w1 w2 : Shape)
        → ((s' : Store)
            → cp ≡ black
            → IsBalanced n (make d y red w1 w2)
            → Seat nil s' k (make d p cp t (make d y red w1 w2))
            → IsFixed nil
                (fix_loop fuel nil p s')
                (inorder (plug k (make d p cp t (make d y red w1 w2)))))
        → Ends w1 w2
    black_round w1 w2 higher = elim (view d w2) [
      | is_red_node f f1 f2 e2 ↦ subst (λ z. Ends w1 z) (sym e2) (far_red f w1 f1 f2)
      | is_black c2 ↦ elim (view d w1) [
        | is_red_node z z1 z2 e1 ↦ subst (λ z. Ends z w2) (sym e1) (near_red z z1 z2 w2 c2)
        | is_black c1 ↦ both_black w1 w2 c1 c2 higher
      ]
    ]

-- ===== src/RedBlack/Delete/Nephew.antt =====
-- What the parts of a round of `rb_delete_fix`'s loop do to the tree in memory.
use libappf.Base.{ℕ, ◌≡◌, List, ap, ◌∙◌, true, refl, ◌∷◌}
use libappf.RedBlack.{
  Color, black, red, is_red, Side, left, right, opposite, child, Store, rotate, set_color,
}
use libappf.RedBlack.Memory.Shape.{Shape, make, Frame, frame, addr, top, Focus, zoom, unzoom}
use libappf.RedBlack.Memory.Parts.{addr-make}
use libappf.RedBlack.Memory.Rotation.{color-mk, child-mk-opposite}
use libappf.RedBlack.Memory.Turn.{rotate-Focus, rotate-nil}
use libappf.RedBlack.Memory.Recolor.{color_of, set_color-Focus, at-make}
use libappf.RedBlack.Insert.Round.{zoom-other, unzoom-other, rotate-other, set_color-up}
use libappf.RedBlack.Delete.Sibling.{up-kept, at_y, p-is, y-is, sibling-is, near-is, far-color}
use libappf.RedBlack.Delete.{black_sibling, red_nephew, finish}
use libappf.RedBlack.Delete.Reads.{red-mk, black_sibling-reads, red_nephew-reads, finish-reads}

module _ (nil : ℕ) where
  -- The seat of a node in a store: its tree, and its parent.
  pub record Seat (s : Store) (k : List Frame) (t : Shape) : Type 0 where
    pub focus : Focus nil s k t
    pub parent : (s.mem (addr nil t)).up ≡ top nil k

  rotate-nil_other :
      (d : Side) (g p : ℕ) (cg cp : Color) (t w u : Shape) (k : List Frame) (s : Store)
      → Focus nil s k (make d g cg (make d p cp t w) u)
      → (rotate (opposite d) nil g s).mem nil ≡ s.mem nil
  rotate-nil_other left g p cg cp t w u k s v = rotate-nil nil right g p cg cp u w t k s v
  rotate-nil_other right g p cg cp t w u k s v = rotate-nil nil left g p cg cp u w t k s v

  module _ (d : Side) (p y : ℕ) (cp : Color) (t w1 w2 : Shape) (k : List Frame) (s : Store) where
    -- A red sibling is turned over the parent.
    pub turned_over : Store
    turned_over = rotate d nil p (set_color p red (set_color y black s))

    module _ (i : Seat s (frame d p cp (make d y red w1 w2) ∷ k) t) where
      painted :
          Focus nil
            (set_color p red (set_color y black s))
            k
            (make d p red t (make d y black w1 w2))
      painted = set_color-Focus nil d p cp red t (make d y black w1 w2) k (set_color y black s) (
          unzoom-other nil d p cp t (make d y black w1 w2) k (
            set_color-Focus nil d y red black w1 w2 (frame (opposite d) p cp t ∷ k) s
              (at_y nil d p y cp red t w1 w2 k s i.focus i.parent)))

      pub turned_over-Seat : Seat turned_over (frame d p red w1 ∷ frame d y black w2 ∷ k) t
      unfolding turned_over
      turned_over-Seat =
          let s2 = set_color p red (set_color y black s) in
          let v = zoom nil d p red t w1 (frame d y black w2 ∷ k) (
            zoom nil d y black (make d p red t w1) w2 k
              (rotate-Focus nil d p y red black t w1 w2 k s2 painted)) in
          record {
            focus = v;
            parent =
                up-kept nil t (frame d p red w1 ∷ frame d y black w2 ∷ k) p s turned_over v
                  (ap (λ n. n.up) (rotate-nil nil d p y red black t w1 w2 k s2 painted)
                    ∙ set_color-up p nil red (set_color y black s)
                    ∙ set_color-up y nil black s)
                  refl i.parent;
          }

      pub black_sibling-red : black_sibling d nil (addr nil t) s ≡ (addr nil w1, turned_over)
      unfolding black_sibling turned_over
      black_sibling-red =
          let e = sibling-is nil d p y cp red t w1 w2 k s i.focus i.parent in
          let c : is_red (s.mem y).color ≡ true =
            ap (λ n. is_red n.color) (y-is nil d p y cp red t w1 w2 k s i.focus i.parent)
            ∙ red-mk d (addr nil w1) (addr nil w2) p red in
          let s1 = set_color y black s in
          let s2 = set_color p red s1 in
          let u1 : (s1.mem (addr nil t)).up ≡ p = set_color-up y (addr nil t) black s ∙ i.parent in
          let u2 : (s2.mem (addr nil t)).up ≡ p = set_color-up p (addr nil t) red s1 ∙ u1 in
          let st = turned_over-Seat in
          let f : child (opposite d) (turned_over.mem (turned_over.mem (addr nil t)).up)
              ≡ addr nil w1 =
            ap (λ z. child (opposite d) (turned_over.mem z)) st.parent
            ∙ ap (child (opposite d)) (
                at-make nil d p red t w1 (frame d y black w2 ∷ k)
                  (unzoom nil d p red t w1 (frame d y black w2 ∷ k) st.focus))
            ∙ child-mk-opposite d (addr nil t) (addr nil w1) y red in
          black_sibling-reads d nil (addr nil t) y p (addr nil w1) s s1 s2 turned_over e c refl u1
            refl u2 refl f

  -- The near nephew is red, and is turned over the sibling.
  module _ (d : Side) (p y z : ℕ) (cp : Color) (t z1 z2 w2 : Shape) (k : List Frame)
      (s : Store) where
    pub bent : Store
    bent = rotate (opposite d) nil y (set_color y red (set_color z black s))

    module _ (i : Seat s (frame d p cp (make d y black (make d z red z1 z2) w2) ∷ k) t) where
      bent_ready :
          Focus nil
            (set_color y red (set_color z black s))
            (frame (opposite d) p cp t ∷ k)
            (make d y red (make d z black z1 z2) w2)
      bent_ready =
          let k1 = frame (opposite d) p cp t ∷ k in
          set_color-Focus nil d y black red (make d z black z1 z2) w2 k1 (set_color z black s) (
            unzoom nil d y black (make d z black z1 z2) w2 k1 (
              set_color-Focus nil d z red black z1 z2 (frame d y black w2 ∷ k1) s (
                zoom nil d y black (make d z red z1 z2) w2 k1
                  (at_y nil d p y cp black t (make d z red z1 z2) w2 k s i.focus i.parent))))

      pub bent-Seat : Seat bent (frame d p cp (make d z black z1 (make d y red z2 w2)) ∷ k) t
      unfolding bent
      bent-Seat =
          let s2 = set_color y red (set_color z black s) in
          let k1 = frame (opposite d) p cp t ∷ k in
          let w = make d z black z1 (make d y red z2 w2) in
          let v = zoom nil d p cp t w k (
            unzoom-other nil d p cp t w k
              (rotate-other nil d y z red black z1 z2 w2 k1 s2 bent_ready)) in
          record {
            focus = v;
            parent =
                up-kept nil t (frame d p cp w ∷ k) p s bent v
                  (ap (λ n. n.up) (rotate-nil_other d y z red black z1 z2 w2 k1 s2 bent_ready)
                    ∙ set_color-up y nil red (set_color z black s)
                    ∙ set_color-up z nil black s)
                  refl i.parent;
          }

      pub red_nephew-near : color_of w2 ≡ black → red_nephew d nil (addr nil t) y s ≡ (z, bent)
      unfolding bent
      red_nephew-near c =
          let w1 = make d z red z1 z2 in
          let st = bent-Seat in
          red_nephew-reads d nil (addr nil t) y z z s (set_color z black s)
            (set_color y red (set_color z black s)) bent
            (near-is nil d p y cp black t w1 w2 k s i.focus i.parent ∙ addr-make nil d z red z1 z2)
            (far-color nil d p y cp black t w1 w2 k s i.focus i.parent ∙ ap is_red c) refl refl refl
            (sibling-is nil d p z cp black t z1 (make d y red z2 w2) k bent st.focus st.parent)

  -- The far nephew is red: the sibling is turned over the parent.
  module _ (d : Side) (p y f : ℕ) (cp : Color) (t w1 f1 f2 : Shape) (k : List Frame)
      (s : Store) where
    pub ended_store : Store
    ended_store = rotate d nil p (set_color f black (set_color p black (set_color y cp s)))

    module _ (i : Seat s (frame d p cp (make d y black w1 (make d f red f1 f2)) ∷ k) t) where
      recolored_y :
          Focus nil (set_color y cp s) k (make d p cp t (make d y cp w1 (make d f red f1 f2)))
      recolored_y = unzoom-other nil d p cp t (make d y cp w1 (make d f red f1 f2)) k (
          set_color-Focus nil d y black cp w1 (make d f red f1 f2) (frame (opposite d) p cp t ∷ k) s
            (at_y nil d p y cp black t w1 (make d f red f1 f2) k s i.focus i.parent))

      recolored_p :
          Focus nil
            (set_color p black (set_color y cp s))
            k
            (make d p black t (make d y cp w1 (make d f red f1 f2)))
      recolored_p =
          set_color-Focus nil d p cp black t (make d y cp w1 (make d f red f1 f2)) k
            (set_color y cp s) recolored_y

      recolored_f :
          Focus nil
            (set_color f black (set_color p black (set_color y cp s)))
            k
            (make d p black t (make d y cp w1 (make d f black f1 f2)))
      recolored_f =
          let s2 = set_color p black (set_color y cp s) in
          let k1 = frame (opposite d) p black t ∷ k in
          unzoom-other nil d p black t (make d y cp w1 (make d f black f1 f2)) k (
            unzoom-other nil d y cp w1 (make d f black f1 f2) k1 (
              set_color-Focus nil d f red black f1 f2 (frame (opposite d) y cp w1 ∷ k1) s2 (
                zoom-other nil d y cp w1 (make d f red f1 f2) k1 (
                  zoom-other nil d p black t (make d y cp w1 (make d f red f1 f2)) k recolored_p))))

      pub ended-Focus :
          Focus nil ended_store k (make d y cp (make d p black t w1) (make d f black f1 f2))
      unfolding ended_store
      ended-Focus =
          rotate-Focus nil d p y black cp t w1 (make d f black f1 f2) k
            (set_color f black (set_color p black (set_color y cp s))) recolored_f

      pub finish_lem : finish d nil (addr nil t) y s ≡ ended_store
      unfolding ended_store
      finish_lem =
          let x = addr nil t in
          let w2 = make d f red f1 f2 in
          let s1 = set_color y cp s in
          let s2 = set_color p black s1 in
          let u1 : (s1.mem x).up ≡ p = set_color-up y x cp s ∙ i.parent in
          let u2 : (s2.mem x).up ≡ p = set_color-up p x black s1 ∙ u1 in
          finish-reads d nil x y p f cp s s1 s2 (set_color f black s2) i.parent
            (ap (λ n. n.color) (p-is nil d p y cp black t w1 w2 k s i.focus i.parent)
              ∙ color-mk d (addr nil t) y (top nil k) cp)
            refl u1 refl
            (ap (child (opposite d)) (
                at-make nil d y cp w1 w2 (frame (opposite d) p black t ∷ k)
                  (zoom-other nil d p black t (make d y cp w1 w2) k recolored_p))
              ∙ child-mk-opposite d (addr nil w1) (addr nil w2) p cp
              ∙ addr-make nil d f red f1 f2)
            refl (set_color-up f x black s2 ∙ u2)

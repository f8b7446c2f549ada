-- ===== src/RedBlack/Delete/Removing.antt =====
-- `rb_delete` as a whole, as the removal from a list of nodes.
use libappf.Base.{
  ℕ, arith, ◌≡◌, if◌then◌else◌, List, ap, ◌∙◌, false, true, [], refl, ◌∷◌, sym, subst, suc, zero,
  ◌==◌, ◌≤◌, ◌+◌, ◌++◌, length, ◌||◌,
}
use libappf.RedBlack.{Color, black, red, is_red, Side, right, Store, Node, set_up, replace_child}
use libappf.RedBlack.Memory.Shape.{
  Shape, leaf, node, make, Frame, frame, Focus, addr, top, plug, count, count_around, zoom, unzoom,
}
use libappf.RedBlack.Memory.Parts.{addr-make}
use libappf.RedBlack.Memory.Recolor.{at-make}
use libappf.RedBlack.Memory.Rotation.{up-mk, color-mk}
use libappf.RedBlack.Memory.Balance.{
  inorder, IsBalanced, AroundIsBalanced, IsBalanced-plug, plug-Focus,
}
use libappf.RedBlack.Insert.Adding.{Holds}
use libappf.RedBlack.Delete.Nephew.{Seat}
use libappf.RedBlack.Delete.Endings.{plug-color}
use libappf.RedBlack.Delete.FixLoop.{fix_loop-IsFixed}
use libappf.RedBlack.Delete.Substitute.{substitute-Focus, substitute-nil_leaf, substitute-nil_node}
use libappf.RedBlack.Delete.Unlink.{unlinked-y, unlink-Seat}
use libappf.RedBlack.Delete.Spine.{count-way, AroundIsBalanced-readdress, unzoom-way, zoom-way}
use libappf.RedBlack.Delete.{successor, delete, delete_fix, substitute}

delete-same :
    (fuel nil z u x : ℕ) (c : Color) (s : Store)
    → (((s.mem z).left == nil) || ((s.mem z).right == nil)) ≡ true
    → (if (s.mem z).left == nil then (s.mem z).right else (s.mem z).left) ≡ x
    → (s.mem z).up ≡ u
    → ((replace_child nil z x (set_up x u s)).mem z).color ≡ c
    → (z == z) ≡ true
    → delete fuel nil z s ≡ (
        if is_red c
        then replace_child nil z x (set_up x u s)
        else delete_fix fuel nil x (replace_child nil z x (set_up x u s)))
unfolding delete
delete-same fuel nil z u x c s e f g i zz = simp (e, f, g, i, zz)

delete-other :
    (fuel nil z y u x : ℕ) (c : Color) (s : Store)
    → (((s.mem z).left == nil) || ((s.mem z).right == nil)) ≡ false
    → successor fuel nil z s.mem ≡ y
    → (if (s.mem y).left == nil then (s.mem y).right else (s.mem y).left) ≡ x
    → (s.mem y).up ≡ u
    → ((replace_child nil y x (set_up x u s)).mem y).color ≡ c
    → (y == z) ≡ false
    → delete fuel nil z s ≡ (
        if is_red c
        then substitute nil z y (replace_child nil y x (set_up x u s))
        else delete_fix fuel nil x (substitute nil z y (replace_child nil y x (set_up x u s))))
unfolding delete
delete-other fuel nil z y u x c s e o f g i n = simp (e, o, f, g, i, n)

module _ (nil : ℕ) where
  -- The tree after a node with at most one child has been taken out.
  removed-Holds :
      (fuel : ℕ) (c : Color) (n y : ℕ) (t : Shape) (k : List Frame) (s : Store)
      → length k ≤ fuel
      → IsBalanced n (node leaf y c t)
      → AroundIsBalanced n k
      → Seat nil s k t
      → Holds nil (if is_red c then s else delete_fix fuel nil (addr nil t) s) (inorder (plug k t))
  unfolding delete_fix
  removed-Holds fuel red n y t k s le b h i =
      let r = IsBalanced-plug k n t b.3 h b.1 in
      record {
        tree = plug k t;
        height = r.0;
        holds = plug-Focus nil k t i.focus;
        order = refl;
        balanced = r.1;
        black_root = plug-color k n t b.3 h;
      }
  removed-Holds fuel black zero y t k s le b h i = absurd b
  removed-Holds fuel black (suc n) y t k s le b h i = fix_loop-IsFixed nil fuel k n t s le i b.1 h

  -- A node with a leaf.
  pub delete-one :
      (fuel : ℕ) (d : Side) (z : ℕ) (c : Color) (t : Shape) (n : ℕ) (k : List Frame) (s : Store)
      → length k ≤ fuel
      → Focus nil s k (make d z c t leaf)
      → (((s.mem z).left == nil) || ((s.mem z).right == nil)) ≡ true
      → (if (s.mem z).left == nil then (s.mem z).right else (s.mem z).left) ≡ addr nil t
      → IsBalanced n (node leaf z c t)
      → AroundIsBalanced n k
      → Holds nil (delete fuel nil z s) (inorder (plug k t))
  delete-one fuel d z c t n k s le v e f b h =
      let m = at-make nil d z c t leaf k v in
      let s1 = replace_child nil z (addr nil t) (set_up (addr nil t) (top nil k) s) in
      subst (λ r. Holds nil r (inorder (plug k t)))
        (sym (
          delete-same fuel nil z (top nil k) (addr nil t) c s e f
            (ap (λ w. w.up) m ∙ up-mk d (addr nil t) nil (top nil k) c)
            (ap (λ w. w.color) (unlinked-y nil d z c t k s v ∙ m)
              ∙ color-mk d (addr nil t) nil (top nil k) c)
            (ground arith)))
        (removed-Holds fuel c n z t k s1 le b h (unlink-Seat nil d z c t k s v))

  nil_ne-plug :
      (ks k : List Frame) (t : Shape)
      → (nil == addr nil t) ≡ false
      → count_around nil (ks ++ k) ≡ 0
      → (nil == addr nil (plug ks t)) ≡ false
  nil_ne-plug [] k t e h = e
  nil_ne-plug (frame d q c w ∷ ks) k t e h =
      nil_ne-plug ks k (make d q c t w)
        (ap (λ z. nil == z) (addr-make nil d q c t w) ∙ ground (arith, h)) (omega (arith, h))

  parent-kept :
      (ks : List Frame) (b : Shape) (z y : ℕ) (c : Color) (l : Shape) (k : List Frame)
      (s s' : Store)
      → Focus nil s' (ks ++ frame right y c l ∷ k) b
      → (addr nil (plug ks b) ≡ nil → (s'.mem nil).up ≡ y)
      → ((nil == addr nil (plug ks b)) ≡ false → (s'.mem nil).up ≡ (s.mem nil).up)
      → (s.mem (addr nil b)).up ≡ top nil (ks ++ frame right z c l ∷ k)
      → (s'.mem (addr nil b)).up ≡ top nil (ks ++ frame right y c l ∷ k)
  parent-kept ks (node b1 x cx b2) z y c l k s s' v e f u = ap (λ n. n.up) v.here.0
  parent-kept [] leaf z y c l k s s' v e f u = e refl
  parent-kept (frame d p cp w ∷ ks) leaf z y c l k s s' v e f u =
      f (
        nil_ne-plug ks (frame right y c l ∷ k) (make d p cp leaf w)
          (ap (λ r. nil == r) (addr-make nil d p cp leaf w) ∙ ground (arith, v.no_nil))
          (omega (arith, v.no_nil)))
      ∙ u

  -- A node without a leaf, whose successor is at the end of the way `ks`.
  module _ (fuel : ℕ) (z q : ℕ) (c cl : Color) (l1 l2 : Shape) (k ks : List Frame) (y : ℕ)
      (cy : Color) (b : Shape) (s : Store)
      (v : Focus nil s (ks ++ frame right z c (node l1 q cl l2) ∷ k) (node leaf y cy b)) where
    unlinked : Store
    unlinked =
        replace_child nil y (addr nil b)
          (set_up (addr nil b) (top nil (ks ++ frame right z c (node l1 q cl l2) ∷ k)) s)

    seat : Seat nil unlinked (ks ++ frame right z c (node l1 q cl l2) ∷ k) b
    unfolding unlinked
    seat = unlink-Seat nil right y cy b (ks ++ frame right z c (node l1 q cl l2) ∷ k) s v

    at_z : Focus nil unlinked k (node (node l1 q cl l2) z c (plug ks b))
    at_z =
        unzoom nil right z c (plug ks b) (node l1 q cl l2) k
          (unzoom-way nil ks (frame right z c (node l1 q cl l2) ∷ k) b seat.focus)

    nil-y : (nil == y) ≡ false
    nil-y = ground (arith, v.no_nil)

    fresh : count y (node (node l1 q cl l2) z c (plug ks b)) + count_around y k ≡ 0
    fresh =
        let w = count-way y ks (frame right z c (node l1 q cl l2) ∷ k) b in
        let o : count y b + count_around y (ks ++ frame right z c (node l1 q cl l2) ∷ k) ≡ 0 =
          ground (arith, v.apart y) in
        omega (arith, w, o)

    moved : Focus nil (substitute nil z y unlinked) (ks ++ frame right y c (node l1 q cl l2) ∷ k) b
    moved = zoom-way nil ks (frame right y c (node l1 q cl l2) ∷ k) b (
        zoom nil right y c (plug ks b) (node l1 q cl l2) k
          (substitute-Focus nil z y q c cl l1 l2 (plug ks b) k unlinked at_z fresh nil-y))

    moved-Seat :
        Seat nil (substitute nil z y unlinked) (ks ++ frame right y c (node l1 q cl l2) ∷ k) b
    moved-Seat = record {
      focus = moved;
      parent =
          parent-kept ks b z y c (node l1 q cl l2) k unlinked (substitute nil z y unlinked) moved
            (substitute-nil_leaf nil z y q c cl l1 l2 (plug ks b) k unlinked at_z fresh nil-y)
            (substitute-nil_node nil z y q c cl l1 l2 (plug ks b) k unlinked at_z fresh nil-y)
            seat.parent;
    }

    pub delete-two :
        (n : ℕ)
        → successor fuel nil z s.mem ≡ y
        → length (ks ++ frame right y c (node l1 q cl l2) ∷ k) ≤ fuel
        → IsBalanced n (node leaf y cy b)
        → AroundIsBalanced n (ks ++ frame right z c (node l1 q cl l2) ∷ k)
        → (((s.mem z).left == nil) || ((s.mem z).right == nil)) ≡ false
        → Holds nil
            (delete fuel nil z s)
            (inorder (plug (ks ++ frame right y c (node l1 q cl l2) ∷ k) b))
    unfolding unlinked
    delete-two n o le bt h e =
        let way = ks ++ frame right z c (node l1 q cl l2) ∷ k in
        let m = v.here.0 in
        subst (λ r. Holds nil r (inorder (plug (ks ++ frame right y c (node l1 q cl l2) ∷ k) b)))
          (sym (
            delete-other fuel nil z y (top nil way) (addr nil b) cy s e o
              (ap (λ (w : Node). if w.left == nil then w.right else w.left) m ∙ ground arith)
              (ap (λ w. w.up) m) (ap (λ w. w.color) (unlinked-y nil right y cy b way s v ∙ m))
              (ground (arith, fresh))))
          (removed-Holds fuel cy n y b (ks ++ frame right y c (node l1 q cl l2) ∷ k)
            (substitute nil z y unlinked) le bt
            (AroundIsBalanced-readdress ks k right z y c (node l1 q cl l2) n h) moved-Seat)

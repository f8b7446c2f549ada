-- ===== src/RedBlack/Delete/Deletion.antt =====
-- `rb_delete` and `__rb_tree_remove`, as the removal from a list.
use libappf.Base.{
  ℕ, arith, ◌≡◌, List, ap, ◌∙◌, false, refl, ◌∷◌, sym, subst, suc, zero, ◌==◌, ◌≤◌, ◌+◌, ◌++◌,
  length, length-append, append-nil,
}
use libappf.RedBlack.{Color, black, red, left, right, Store}
use libappf.RedBlack.Memory.Shape.{Shape, leaf, node, Frame, frame, Focus, plug, zoom}
use libappf.RedBlack.Memory.Balance.{inorder, IsBalanced}
use libappf.RedBlack.Insert.Lookup.{before, after, Fits, Fits-left, inorder-around}
use libappf.RedBlack.Insert.Adding.{Holds}
use libappf.RedBlack.Delete.Spine.{
  spine, plug-append, inorder-spine, length-spine, Fits-way, zoom-way, leftmost-spine,
}
use libappf.RedBlack.Delete.Removing.{delete-one, delete-two}
use libappf.RedBlack.Delete.{leftmost, successor, delete}

swap_children :
    (c : Color) (n z : ℕ) (l : Shape)
    → IsBalanced n (node l z c leaf)
    → IsBalanced n (node leaf z c l)
swap_children red n z l b = (b.1, b.0, b.3, b.2)
swap_children black zero z l b = b
swap_children black (suc n) z l b = (b.1, b.0)

module _ (nil : ℕ) where
  successor-right :
      (fuel z : ℕ) (p : ℕ) (s : Store) {q : ℕ}
      → (s.mem z).right ≡ p
      → (p == nil) ≡ false
      → leftmost fuel nil p s.mem ≡ q
      → successor fuel nil z s.mem ≡ q
  unfolding successor
  successor-right fuel z p s e f h = rw (e, f) h

  pub delete-Holds :
      (fuel z : ℕ) (c : Color) (l r : Shape) (k : List Frame) (s : Store)
      → Focus nil s k (node l z c r)
      → Fits k (node l z c r)
      → length k + length (inorder (node l z c r)) ≤ fuel
      → Holds nil (delete fuel nil z s) (before k ++ ((inorder l ++ inorder r) ++ after k))
  delete-Holds fuel z c leaf r k s v f le =
      subst (λ xs. Holds nil (delete fuel nil z s) xs) (inorder-around k r)
        (delete-one nil fuel right z c r f.height k s (omega arith) v (ground (arith, v.here.0))
          (ground (arith, v.here.0)) f.balanced f.around)
  delete-Holds fuel z c (node l1 q cl l2) leaf k s v f le =
      let l = node l1 q cl l2 in
      subst (λ xs. Holds nil (delete fuel nil z s) xs)
        (inorder-around k l ∙ ap (λ xs. before k ++ (xs ++ after k)) (sym (append-nil (inorder l))))
        (delete-one nil fuel left z c l f.height k s (omega arith) v
          (ground (arith, v.here.0, v.no_nil)) (ground (arith, v.here.0, v.no_nil))
          (swap_children c f.height z l f.balanced) f.around)
  delete-Holds fuel z c (node l1 q cl l2) (node r1 p cr r2) k s v f le =
      let l = node l1 q cl l2 in
      let r = node r1 p cr r2 in
      let sp = spine r1 p cr r2 in
      let kz = frame right z c l ∷ k in
      let y = sp.first in
      let vr : Focus nil s kz r = zoom nil right z c r l k v in
      let vy =
        zoom-way nil sp.way kz (node leaf y sp.color sp.upper)
          (subst (λ t. Focus nil s kz t) (sym sp.is) vr) in
      let fy =
        Fits-way sp.way kz (node leaf y sp.color sp.upper) sp.lefts
          (subst (λ t. Fits kz t) (sym sp.is) (Fits-left l z c r k f).1) in
      let n1 = length-append (inorder l) (z ∷ inorder r) in
      let n2 = length-append (inorder r1) (p ∷ inorder r2) in
      let n3 = length-spine sp.way (node leaf y sp.color sp.upper) in
      let n4 = ap (λ t. length (inorder t)) sp.is in
      let n5 = length-append sp.way (frame right y c l ∷ k) in
      let o : inorder r ≡ y ∷ inorder (plug sp.way sp.upper) =
        ap inorder (sym sp.is)
        ∙ inorder-spine sp.way y sp.color sp.upper sp.lefts (node leaf y sp.color sp.upper) refl in
      subst (λ xs. Holds nil (delete fuel nil z s) xs)
        (ap inorder (plug-append sp.way (frame right y c l ∷ k) sp.upper)
          ∙ inorder-around k (node l y c (plug sp.way sp.upper))
          ∙ ap (λ xs. before k ++ ((inorder l ++ xs) ++ after k)) (sym o))
        (delete-two nil fuel z q c cl l1 l2 k sp.way y sp.color sp.upper s vy fy.height
          (successor-right fuel z p s (ap (λ w. w.right) v.here.0) (ground (arith, v.no_nil))
            (leftmost-spine nil fuel r1 p cr r2 kz s vr (omega (arith, n1, n2))))
          (omega (arith, n1, n3, n4, n5)) fy.balanced fy.around
          (ground (arith, v.here.0, v.no_nil)))

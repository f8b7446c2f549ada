-- ===== src/RedBlack/Insert/Loop.antt =====
-- The whole loop of `rb_traverse`, from a new red node up.
use libappf.Base.{ℕ, arith, ◌≡◌, List, [], refl, ◌∷◌, ◌≤◌, suc, zero, length}
use libappf.RedBlack.{black, red, Side, left, right, Store}
use libappf.RedBlack.Memory.Shape.{Shape, leaf, node, make, Frame, frame, plug, Focus}
use libappf.RedBlack.Insert.Uncle.{recolor-Focus}
use libappf.RedBlack.Memory.Balance.{
  inorder, IsBalanced, AroundIsBalanced, inorder-make, inorder-plug, red-ne-black,
}
use libappf.RedBlack.Insert.Rebalance.{
  HoldsBalanced, reorder, under-black, last, raised, round, rebalance-root,
}
use libappf.RedBlack.Insert.{recolor, rebalance}

module _ (nil : ℕ) where
  raised-inorder :
      (d e : Side) (g p y : ℕ) (t w u1 u2 : Shape) (k : List Frame)
      → inorder (plug k (make d g red (make e p black t w) (node u1 y black u2)))
        ≡ inorder (plug (frame e p red w ∷ frame d g black (node u1 y red u2) ∷ k) t)
  raised-inorder d e g p y t w u1 u2 k =
      inorder-plug k (make d g red (make e p black t w) (node u1 y black u2))
        (make d g black (make e p red t w) (node u1 y red u2))
        (inorder-make d g red black (make e p black t w) (make e p red t w) (node u1 y black u2)
          (node u1 y red u2) (inorder-make e p black red t t w w refl refl) refl)

  -- Where the store holds a tree with a red node `x`, seen from `x`, that is balanced but for the color
  -- of the parent of `x`, on fuel for one round at each node of the way up: after the loop the store
  -- holds a tree with the same nodes in the same order, in which no red node has a red child and
  -- every way down has as many black nodes, where only the root may be red.
  pub rebalance-HoldsBalanced :
      (fuel : ℕ) (k : List Frame) (n x : ℕ) (a b : Shape) (s : Store)
      → length k ≤ fuel
      → Focus nil s k (node a x red b)
      → IsBalanced n (node a x red b)
      → AroundIsBalanced n k
      → HoldsBalanced nil (rebalance fuel nil x s) (inorder (plug k (node a x red b)))
  rebalance-HoldsBalanced fuel [] n x a b s le v bt h =
      reorder nil
        record { tree = node a x red b; height = n; holds = v; order = refl; balanced = bt } refl
        (rebalance-root fuel nil x s (ground (arith, v.root)))
  rebalance-HoldsBalanced fuel (frame d p black w ∷ k) n x a b s le v bt h =
      under-black nil fuel d left p x n red a b w k s v bt h.0 h.1
  rebalance-HoldsBalanced fuel (frame e p red w ∷ []) n x a b s le v bt h = absurd h.2
  rebalance-HoldsBalanced fuel (frame e p red w ∷ frame d g red u ∷ k) n x a b s le v bt h =
      absurd (red-ne-black h.2)
  rebalance-HoldsBalanced zero (frame e p red w ∷ frame d g black u ∷ k) n x a b s le v bt h =
      absurd (omega arith)
  rebalance-HoldsBalanced (suc fuel) (frame e p red w ∷ frame left g black leaf ∷ k) n x a b s le v
        bt h =
      last nil fuel left e g p x n a b w leaf k s v bt.0 bt.1 bt.2 bt.3 refl h
  rebalance-HoldsBalanced (suc fuel) (frame e p red w ∷ frame right g black leaf ∷ k) n x a b s le v
        bt h =
      last nil fuel right e g p x n b a w leaf k s v bt.1 bt.0 bt.3 bt.2 refl h
  rebalance-HoldsBalanced (suc fuel) (frame e p red w ∷ frame left g black (node u1 y black u2) ∷ k)
        n x a b s le v bt h =
      last nil fuel left e g p x n a b w (node u1 y black u2) k s v bt.0 bt.1 bt.2 bt.3 refl h
  rebalance-HoldsBalanced (suc fuel)
        (frame e p red w ∷ frame right g black (node u1 y black u2) ∷ k) n x a b s le v bt h =
      last nil fuel right e g p x n b a w (node u1 y black u2) k s v bt.1 bt.0 bt.3 bt.2 refl h
  rebalance-HoldsBalanced (suc fuel) (frame e p red w ∷ frame left g black (node u1 y red u2) ∷ k) n
        x a b s le v bt h =
      let t = node a x red b in
      reorder nil
        (rebalance-HoldsBalanced fuel k (suc n) g (make e p black t w) (node u1 y black u2)
          (recolor x y s) (omega arith)
          (recolor-Focus nil left e g p x y red black a b w u1 u2 k s v)
          (raised nil left e g p x y n a b w u1 u2 k bt h) h.3.1)
        (raised-inorder left e g p y t w u1 u2 k)
        (round nil fuel left e g p x a b w (node u1 y red u2) k s v)
  rebalance-HoldsBalanced (suc fuel) (frame e p red w ∷ frame right g black (node u1 y red u2) ∷ k)
        n x a b s le v bt h =
      let t = node a x red b in
      reorder nil
        (rebalance-HoldsBalanced fuel k (suc n) g (node u1 y black u2) (make e p black t w)
          (recolor x y s) (omega arith)
          (recolor-Focus nil right e g p x y red black b a w u1 u2 k s v)
          (raised nil right e g p x y n b a w u1 u2 k bt h) h.3.1)
        (raised-inorder right e g p y t w u1 u2 k)
        (round nil fuel right e g p x b a w (node u1 y red u2) k s v)

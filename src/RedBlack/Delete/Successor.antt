-- ===== src/RedBlack/Delete/Successor.antt =====
-- `rb_successor`: the next node in order.
use libappf.Base.{
  ℕ, arith, ◌≡◌, List, ap, ◌∙◌, false, true, [], refl, ◌∷◌, sym, suc, zero, ◌==◌, ◌≤◌, ◌+◌, ◌++◌,
  length, length-append,
}
use libappf.RedBlack.{Color, left, right, Store}
use libappf.RedBlack.Memory.Shape.{
  plug, Shape, leaf, node, Frame, frame, Focus, addr, top, zoom, unzoom,
}
use libappf.RedBlack.Memory.Parts.{addr-apart, eq_sym_false}
use libappf.RedBlack.Memory.Balance.{inorder}
use libappf.RedBlack.Insert.Lookup.{after}
use libappf.RedBlack.Delete.Spine.{spine, inorder-spine, leftmost-spine}
use libappf.RedBlack.Delete.{climb, successor}

abbrev pub head_or : ℕ → List ℕ → ℕ
head_or nil [] = nil
head_or nil (x ∷ xs) = x

module _ (nil : ℕ) where
  climb_lem :
      (fuel : ℕ) (k : List Frame) (a : Shape) (x : ℕ) (c : Color) (b : Shape) (s : Store)
      → Focus nil s k (node a x c b)
      → length k ≤ fuel
      → climb fuel nil x (top nil k) s.mem ≡ head_or nil (after k)
  unfolding climb
  climb_lem zero [] a x c b s v le = refl
  climb_lem (suc fuel) [] a x c b s v le = ground arith
  climb_lem zero (frame d q c' w ∷ k) a x c b s v le = absurd (omega arith)
  climb_lem (suc fuel) (frame left q c' w ∷ k) a x c b s v le =
      let e : (s.mem q).right ≡ addr nil w = ap (λ n. n.right) v.around.0 in
      let f : (x == addr nil w) ≡ false =
        eq_sym_false (addr nil w) x
          (addr-apart nil w x (ground (arith, v.apart x)) (ground (arith, v.no_nil))) in
      ground (arith, e, f)
  climb_lem (suc fuel) (frame right q c' w ∷ k) a x c b s v le =
      let e : (s.mem q).right ≡ x = ap (λ n. n.right) v.around.0 in
      let u : (s.mem q).up ≡ top nil k = ap (λ n. n.up) v.around.0 in
      let qn : (q == nil) ≡ false = ground (arith, v.no_nil) in
      let h =
        climb_lem fuel k w q c' (node a x c b) s (unzoom nil right q c' (node a x c b) w k v)
          (omega arith) in
      let xx : (x == x) ≡ true = ground arith in rw (e, u, qn, xx) h

  -- Where the store holds a tree, seen from one of its nodes, on fuel for the way up and the nodes
  -- below: `successor` returns the node that follows in order, or the tree's own node at the end.
  pub successor_lem :
      (fuel : ℕ) (k : List Frame) (l : Shape) (q : ℕ) (c : Color) (r : Shape) (s : Store)
      → Focus nil s k (node l q c r)
      → length k + length (inorder (node l q c r)) ≤ fuel
      → successor fuel nil q s.mem ≡ head_or nil (inorder r ++ after k)
  unfolding successor
  successor_lem fuel k l q c leaf s v le =
      let e : (s.mem q).right ≡ nil = ap (λ n. n.right) v.here.0 in
      let u : (s.mem q).up ≡ top nil k = ap (λ n. n.up) v.here.0 in
      let nn : (nil == nil) ≡ true = ground arith in
      rw (e, u, nn) (climb_lem fuel k l q c leaf s v (omega arith))
  successor_lem fuel k l q c (node r1 p c' r2) s v le =
      let e : (s.mem q).right ≡ p = ap (λ n. n.right) v.here.0 in
      let f : (p == nil) ≡ false = ground (arith, v.no_nil) in
      let sp = spine r1 p c' r2 in
      let o : inorder (node r1 p c' r2) ≡ sp.first ∷ inorder (plug sp.way sp.upper) =
        ap inorder (sym sp.is)
        ∙ inorder-spine sp.way sp.first sp.color sp.upper sp.lefts
            (node leaf sp.first sp.color sp.upper) refl in
      let h =
        leftmost-spine nil fuel r1 p c' r2 (frame right q c l ∷ k) s
          (zoom nil right q c (node r1 p c' r2) l k v)
          (omega (
            arith,
            length-append (inorder l) (q ∷ inorder (node r1 p c' r2)),
            length-append (inorder r1) (p ∷ inorder r2),
          )) in
      rw (e, f) (h ∙ ap (λ z. head_or nil (z ++ after k)) (sym o))

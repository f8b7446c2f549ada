-- ===== src/RedBlack/Api/Walks.antt =====
-- `__rb_tree_walk_inorder` and `__rb_tree_get_first`, on the sorted list of the elements.
use libappf.Base.{
  ℕ, arith, ◌≡◌, List, ap, ◌∙◌, [], ◌∷◌, length-append, ◌<◌, sym, ◌+◌, ◌-◌, length, Option, none,
  some, false, ◌==◌, if◌then◌else◌, refl,
}
use libappf.RedBlack.{Store}
use libappf.RedBlack.Memory.Shape.{Shape, leaf, node, plug, Focus}
use libappf.RedBlack.Memory.Balance.{inorder}
use libappf.RedBlack.Api.Elements.{nodes, IsTree, length-nodes}
use libappf.RedBlack.Delete.Spine.{spine, inorder-spine, leftmost-spine}
use libappf.RedBlack.Api.Visits.{
  with_levels, nodes_of, nodes_of-with_levels, visit_all, walk_inorder_lem,
}
use libappf.RedBlack.Walk.{Walk, walk_inorder}
use libappf.RedBlack.Delete.{leftmost}
use libappf.RedBlack.Api.{Tree, rounds, tree_get_first}

-- Where the tree holds a list of elements, the walk in order, started at the root, calls the callback
-- on one node after the other, until the callback says to stop, and the nodes are those of the
-- elements, in the order of the list.
pub walk_inorder-IsTree :
    {S : Type 0} (act : ℕ → (level : ℕ) → S → Walk S) (t : Tree) (es : List ℕ) (v : IsTree t es)
    (s : S)
    → (walk_inorder act (rounds t) t.nil t.store.root 0 t.store.mem s
        ≡ visit_all act (with_levels 0 v.tree.tree) s)
      × (nodes_of (with_levels 0 v.tree.tree) ≡ nodes t.offset es)
walk_inorder-IsTree act t es v s = (
  ap (λ z. walk_inorder act (rounds t) t.nil z 0 t.store.mem s) v.tree.holds.root
      ∙ walk_inorder_lem act (rounds t) t.nil t.nil 0 v.tree.tree t.store.mem s v.tree.holds.here
          (omega (arith, v.tree.holds.no_nil))
          (omega (arith, ap length v.tree.order, length-nodes t.offset es, v.counted)),
  nodes_of-with_levels 0 v.tree.tree ∙ v.tree.order,
)

abbrev pub first_of : List ℕ → Option ℕ
first_of [] = none
first_of (x ∷ xs) = some x

first-node :
    (fuel nil offset : ℕ) (t : Shape) (s : Store) (es : List ℕ)
    → Focus nil s [] t
    → inorder t ≡ nodes offset es
    → length (inorder t) < fuel
    → (if s.root == nil then none else some (leftmost fuel nil s.root s.mem - offset)) ≡ first_of es
first-node fuel nil offset leaf s [] v e le = ground (arith, v.root)
first-node fuel nil offset leaf s (x ∷ es) v e le = absurd (omega (arith, ap length e))
first-node fuel nil offset (node l q c r) s [] v e le =
    absurd (omega (arith, ap length e, length-append (inorder l) (q ∷ inorder r)))
first-node fuel nil offset (node l q c r) s (x ∷ es) v e le =
    let sp = spine l q c r in
    let o : inorder (node l q c r) ≡ sp.first ∷ inorder (plug sp.way sp.upper) =
      ap inorder (sym sp.is)
      ∙ inorder-spine sp.way sp.first sp.color sp.upper sp.lefts
          (node leaf sp.first sp.color sp.upper) refl in
    let h =
      leftmost-spine nil fuel l q c r [] s v
        (omega (arith, length-append (inorder l) (q ∷ inorder r))) in
    let f : sp.first ≡ x + offset = head-eq (sym o ∙ e) in
    let qn : (q == nil) ≡ false = ground (arith, v.no_nil) in
    rw (v.root, qn, h, f) (ap some (omega arith))
  where
    head-eq : {a b : ℕ} {xs ys : List ℕ} → a ∷ xs ≡ b ∷ ys → a ≡ b
    head-eq p = cc

-- Where the tree holds a list of elements, `tree_get_first` returns the first of them, or NULL where
-- there is none.
pub tree_get_first_lem : (t : Tree) (es : List ℕ) → IsTree t es → tree_get_first t ≡ first_of es
unfolding tree_get_first
tree_get_first_lem t es v =
    first-node (rounds t) t.nil t.offset v.tree.tree t.store es v.tree.holds v.tree.order
      (omega (arith, ap length v.tree.order, length-nodes t.offset es, v.counted))

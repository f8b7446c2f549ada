-- ===== src/RedBlack/Tests.antt =====
-- Runs of the tree, and the theorems on small trees.
use libappf.Base.{
  ℕ, ◌∷◌, ◌-◌, ◌==◌, ◌≡◌, List, [], ◌++◌, if◌then◌else◌, true, false, ltb, refl, arith, some,
}
use libappf.RedBlack.{black, red, left, right, Node, Store, Sign, negative, positive, zero', rotate}
use libappf.RedBlack.Memory.Shape.{Shape, leaf, node, Frame, frame, mk, Focus, make}
use libappf.RedBlack.Walk.{walk_inorder}
use libappf.RedBlack.Api.{Tree, tree_add, tree_remove, tree_get}
use libappf.RedBlack.{descend, attach, move_inner, replace_child, put_on}
use libappf.RedBlack.Delete.{
  delete, delete_fix, fix_loop, black_sibling, red_nephew, finish, substitute, successor, leftmost,
  climb,
}
use libappf.RedBlack.Insert.{search, recolor, straighten, lift, traverse_insert, rebalance}
use libappf.RedBlack.Insert.Rebalance.{HoldsBalanced}
use libappf.RedBlack.Memory.Turn.{rotate-Focus}
use libappf.RedBlack.Insert.Loop.{rebalance-HoldsBalanced}
use libappf.RedBlack.Insert.Adding.{Holds}
use libappf.RedBlack.Api.Elements.{IsTree, IsOrder, IsSorted}
use libappf.RedBlack.Delete.Nephew.{Seat}
use libappf.RedBlack.Delete.Endings.{IsFixed}
use libappf.RedBlack.Delete.FixLoop.{fix_loop-IsFixed}
use libappf.RedBlack.Api.Remove.{tree_remove-none, tree_remove-IsTree}
use libappf.Base.{
  none, List, ◌-◌, false, ltb, ◌≡◌, [], some, ◌∷◌, ◌==◌, arith, ℕ, true, ◌++◌, refl, if◌then◌else◌,
}
use libappf.RedBlack.Api.Following.{tree_get_next_lem}
use libappf.RedBlack.Api.{tree_get_next}
use libappf.RedBlack.Api.Walks.{walk_inorder-IsTree, tree_get_first_lem}
use libappf.RedBlack.Walk.{Walk}
use libappf.RedBlack.Api.Visits.{visit_all, nodes_of}
use libappf.RedBlack.Api.{tree_get_first}
use libappf.RedBlack.Api.Members.{tree_add-IsTree, tree_add-found, tree_get_lem}

-- Elements are compared by their addresses.
abbrev by_address : ℕ → ℕ → Sign
by_address a b = if ltb a b then negative else if ltb b a then positive else zero'

by_address-IsOrder : IsOrder by_address
by_address-IsOrder = record {
  less_less = λ a b c h i. ground arith;
  equal_less = λ a b c h i. ground arith;
  greater_less = λ a b h. ground arith;
}

abbrev blank : ℕ → Node
blank q = record { left = 0; right = 0; up = 0; color = black }

abbrev empty : Tree
empty = record { nil = 0; offset = 100; count = 0; store = record { mem = blank; root = 0 } }

add_all : List ℕ → Tree → Tree
unfolding tree_add
add_all [] t = t
add_all (e ∷ es) t = add_all es (tree_add by_address e t).1

remove_all : List ℕ → Tree → Tree
unfolding tree_remove
remove_all [] t = t
remove_all (e ∷ es) t = remove_all es (tree_remove by_address e t).1

-- The elements in order, with the levels at which they stand.
levels : Tree → List (ℕ × ℕ)
unfolding walk_inorder
levels t =
    (walk_inorder (λ n level s. (true, s ++ (n - 100, level) ∷ [])) 20 t.nil t.store.root 0
      t.store.mem []).1

-- A tree of three elements.
abbrev nodes3 : ℕ → Node
nodes3 q =
    if q == 105
    then mk left 103 108 0 black
    else if q == 103
    then mk left 0 0 105 red
    else if q == 108
    then mk left 0 0 105 red
    else blank q

abbrev store3 : Store
store3 = record { mem = nodes3; root = 105 }

abbrev shape3 : Shape
shape3 = node (node leaf 103 red leaf) 105 black (node leaf 108 red leaf)

focus3 : Focus 0 store3 [] shape3
focus3 = record {
  here = (refl, (refl, tt, tt), (refl, tt, tt));
  around = tt;
  root = refl;
  apart = λ p. ground arith;
  no_nil = refl;
  nil_black = refl;
}

holds3 : Holds 0 store3 (103 ∷ 105 ∷ 108 ∷ [])
holds3 = record {
  tree = shape3;
  height = 1;
  holds = focus3;
  order = refl;
  balanced = ((refl, refl, refl, refl), (refl, refl, refl, refl));
  black_root = refl;
}

abbrev tree3 : Tree
tree3 = record { nil = 0; offset = 100; count = 3; store = store3 }

abbrev elements3 : List ℕ
elements3 = 3 ∷ 5 ∷ 8 ∷ []

tree3-IsTree : IsTree tree3 elements3
tree3-IsTree = record { tree = holds3; counted = refl }

elements3-IsSorted : IsSorted by_address elements3
elements3-IsSorted = ((refl, (refl, tt)), ((refl, tt), (tt, tt)))

-- The same tree with a new node under a red one.
abbrev nodes4 : ℕ → Node
nodes4 q =
    if q == 105
    then mk left 103 108 0 black
    else if q == 103
    then mk left 0 0 105 red
    else if q == 108
    then mk left 107 0 105 red
    else if q == 107
    then mk left 0 0 108 red
    else blank q

abbrev store4 : Store
store4 = record { mem = nodes4; root = 105 }

abbrev way4 : List Frame
way4 = frame left 108 red leaf ∷ frame right 105 black (node leaf 103 red leaf) ∷ []

focus4 : Focus 0 store4 way4 (node leaf 107 red leaf)
focus4 = record {
  here = (refl, tt, tt);
  around = (refl, tt, (refl, (refl, tt, tt), tt));
  root = refl;
  apart = λ p. ground arith;
  no_nil = refl;
  nil_black = refl;
}

rotate-Focus_example :
    Focus 0
      (rotate left 0 105 store3)
      []
      (make left 108 red (make left 105 black (node leaf 103 red leaf) leaf) leaf)
rotate-Focus_example =
    rotate-Focus 0 left 105 108 black red (node leaf 103 red leaf) leaf leaf [] store3 focus3

rebalance-HoldsBalanced_example :
    HoldsBalanced 0 (rebalance 2 0 107 store4) (103 ∷ 105 ∷ 107 ∷ 108 ∷ [])
rebalance-HoldsBalanced_example =
    rebalance-HoldsBalanced 0 2 way4 0 107 leaf leaf store4 (omega arith) focus4
      (refl, refl, refl, refl) (refl, refl, refl, ((refl, refl, refl, refl), tt))

tree_add-IsTree_example :
    (t' : Tree) × (tree_add by_address 7 tree3 ≡ (true, t'))
    × IsTree t' (3 ∷ 5 ∷ 7 ∷ 8 ∷ [])
    × IsSorted by_address (3 ∷ 5 ∷ 7 ∷ 8 ∷ [])
    × (t'.nil ≡ 0)
    × (t'.offset ≡ 100)
tree_add-IsTree_example =
    tree_add-IsTree by_address by_address-IsOrder 7 tree3 elements3 tree3-IsTree elements3-IsSorted
      refl refl refl (omega arith)

tree_add-found_example : tree_add by_address 8 tree3 ≡ (false, tree3)
tree_add-found_example =
    tree_add-found by_address by_address-IsOrder 8 tree3 elements3 tree3-IsTree elements3-IsSorted 8
      refl

tree_get_lem_example : tree_get by_address 8 tree3 ≡ some 8
tree_get_lem_example =
    tree_get_lem by_address by_address-IsOrder 8 tree3 elements3 tree3-IsTree elements3-IsSorted

adds :
    levels (add_all (1 ∷ 2 ∷ 3 ∷ 4 ∷ 5 ∷ 6 ∷ 7 ∷ 8 ∷ []) empty)
    ≡ ((1, 2) ∷ (2, 1) ∷ (3, 2) ∷ (4, 0) ∷ (5, 2) ∷ (6, 1) ∷ (7, 2) ∷ (8, 3) ∷ [])
unfolding add_all levels traverse_insert descend attach rebalance recolor straighten lift rotate
    move_inner replace_child put_on
adds = refl

removes :
    levels (remove_all (4 ∷ 1 ∷ 6 ∷ []) (add_all (1 ∷ 2 ∷ 3 ∷ 4 ∷ 5 ∷ 6 ∷ 7 ∷ 8 ∷ []) empty))
    ≡ ((2, 1) ∷ (3, 2) ∷ (5, 0) ∷ (7, 1) ∷ (8, 2) ∷ [])
unfolding add_all remove_all levels traverse_insert descend attach rebalance recolor straighten lift
    rotate move_inner replace_child put_on search delete delete_fix fix_loop black_sibling
    red_nephew finish substitute successor leftmost climb
removes = refl

-- A tree from which a black node has been taken: the tree's own node stands in its place.
abbrev nodes2 : ℕ → Node
nodes2 q =
    if q == 105
    then mk left 0 108 0 black
    else if q == 108
    then mk left 0 0 105 black
    else if q == 0
    then mk left 0 0 105 black
    else blank q

abbrev store2 : Store
store2 = record { mem = nodes2; root = 105 }

abbrev way2 : List Frame
way2 = frame left 105 black (node leaf 108 black leaf) ∷ []

seat2 : Seat 0 store2 way2 leaf
seat2 = record {
  focus = record {
    here = tt;
    around = (refl, (refl, tt, tt), tt);
    root = refl;
    apart = λ p. ground arith;
    no_nil = refl;
    nil_black = refl;
  };
  parent = refl;
}

fix_loop-IsFixed_example : IsFixed 0 (fix_loop 1 0 0 store2) (105 ∷ 108 ∷ [])
fix_loop-IsFixed_example =
    fix_loop-IsFixed 0 1 way2 0 leaf store2 (omega arith) seat2 refl ((refl, refl), tt)

tree_remove-none_example : tree_remove by_address 7 tree3 ≡ (none, tree3)
tree_remove-none_example =
    tree_remove-none by_address by_address-IsOrder 7 tree3 elements3 tree3-IsTree elements3-IsSorted
      refl

tree_remove-IsTree_example :
    (t' : Tree) × (tree_remove by_address 5 tree3 ≡ (some 5, t'))
    × IsTree t' (3 ∷ 8 ∷ [])
    × IsSorted by_address (3 ∷ 8 ∷ [])
    × (t'.nil ≡ 0)
    × (t'.offset ≡ 100)
tree_remove-IsTree_example =
    tree_remove-IsTree by_address by_address-IsOrder 5 tree3 elements3 tree3-IsTree
      elements3-IsSorted 5 refl (omega arith)

tree_get_next_lem_example : tree_get_next by_address 6 tree3 ≡ some 8
tree_get_next_lem_example =
    tree_get_next_lem by_address by_address-IsOrder 6 tree3 elements3 tree3-IsTree
      elements3-IsSorted

-- A callback that keeps the nodes it sees, and stops at the second.
abbrev collect : ℕ → ℕ → List ℕ → Walk (List ℕ)
collect n level [] = (true, n ∷ [])
collect n level (x ∷ xs) = (false, n ∷ x ∷ xs)

walk_inorder-IsTree_example :
    (walk_inorder collect 4 0 105 0 nodes3 []
      ≡ visit_all collect ((103, 1) ∷ (105, 0) ∷ (108, 1) ∷ []) [])
    × (nodes_of ((103, 1) ∷ (105, 0) ∷ (108, 1) ∷ []) ≡ (103 ∷ 105 ∷ 108 ∷ []))
unfolding tree3-IsTree holds3
walk_inorder-IsTree_example = walk_inorder-IsTree collect tree3 elements3 tree3-IsTree []

tree_get_first_lem_example : tree_get_first tree3 ≡ some 3
tree_get_first_lem_example = tree_get_first_lem tree3 elements3 tree3-IsTree

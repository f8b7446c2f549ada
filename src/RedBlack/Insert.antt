-- ===== src/RedBlack/Insert.antt =====
-- `rb_traverse` of redblack.c: the search, and the insertion with its walk back up.
pub mod Round
pub mod Uncle
pub mod Rebalance
pub mod Loop
pub mod Cut
pub mod Lookup
pub mod Descending
pub mod Attach
pub mod Adding
use libappf.Base.{ℕ, suc, ◌==◌, zero, not, if◌then◌else◌, ◌||◌}
use libappf.RedBlack.{
  black, red, is_red, Side, left, right, opposite, child, Store, set_color, rotate, Sign, descend,
  attach,
}

-- A round with a red uncle `y`: parent and uncle become black, the grandparent red.
unfoldable pub recolor : (x y : ℕ) → Store → Store
recolor x y s =
    let s1 = set_color (s.mem x).up black s in
    let s2 = set_color y black s1 in set_color (s2.mem (s2.mem x).up).up red s2

-- A round with a black uncle. `x` is moved to its parent where it is the inner grandchild.
unfoldable pub straighten : Side → (nil x : ℕ) → Store → ℕ × Store
straighten d nil x s =
    let p = (s.mem x).up in
    if x == child (opposite d) (s.mem p) then (p, rotate d nil p s) else (x, s)

unfoldable pub lift : Side → (nil x : ℕ) → Store → Store
lift d nil x s =
    let s1 = set_color (s.mem x).up black s in
    let s2 = set_color (s1.mem (s1.mem x).up).up red s1 in
    rotate (opposite d) nil (s2.mem (s2.mem x).up).up s2

-- The loop that walks back up, on fuel.
unfoldable pub rebalance : (fuel nil x : ℕ) → Store → Store
rebalance zero nil x s = s
rebalance (suc fuel) nil x s =
    let p = (s.mem x).up in
    let g = (s.mem p).up in
    let d = if p == (s.mem g).left then left else right in
    let y = child (opposite d) (s.mem g) in
    let higher = rebalance fuel nil g (recolor x y s) in
    let turned = straighten d nil x s in
    let done = rebalance fuel nil (turned.0) (lift d nil (turned.0) (turned.1)) in
    if (x == s.root) || not (is_red (s.mem p).color)
    then s
    else if is_red (s.mem y).color
    then higher
    else done

-- `rb_traverse` where `insert` is false: the node found, or `nil`.
unfoldable pub search : (fuel : ℕ) → (ℕ → Sign) → (nil : ℕ) → Store → ℕ
search fuel sign nil s = (descend fuel sign nil nil s.root s.mem).node

-- `rb_traverse` where `insert` is true: `nil` where the element is there, or else the new node `z`,
-- which is `RB_NODE(pTree, pElement)`.
unfoldable pub traverse_insert : (fuel : ℕ) → (ℕ → Sign) → (nil z : ℕ) → Store → ℕ × Store
traverse_insert fuel sign nil z s =
    let r = descend fuel sign nil nil s.root s.mem in
    if r.found
    then (nil, s)
    else let s1 = rebalance fuel nil z (attach sign nil r.parent z s) in
      (z, set_color s1.root black s1)

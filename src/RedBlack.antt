-- ===== src/RedBlack.antt =====
-- redblack.c: a red-black tree whose nodes stand inside the elements of its user, with parent
-- pointers and one node of the tree itself in the place of every leaf.
pub mod Memory
pub mod Insert
pub mod Delete
pub mod Walk
pub mod Api
mod Tests
use libappf.Base.{ℕ, true, false, Bool, if◌then◌else◌, suc, zero, ◌==◌}

pub data Color : Type 0 where
  black : Color
  red : Color

abbrev pub is_red : Color → Bool
is_red black = false
is_red red = true

-- Half of the source is the other half with left and right exchanged. A side stands for both.
pub data Side : Type 0 where
  left : Side
  right : Side

abbrev pub opposite : Side → Side
opposite left = right
opposite right = left

-- `struct rb_node`; the field `pKey` is not used.
pub record Node : Type 0 where
  pub left : ℕ
  pub right : ℕ
  pub up : ℕ
  pub color : Color

abbrev pub child : Side → Node → ℕ
child left n = n.left
child right n = n.right

abbrev pub with_child : Side → ℕ → Node → Node
with_child left v n = record n { left = v }
with_child right v n = record n { right = v }

-- The nodes at their addresses, and `pRoot`.
pub record Store : Type 0 where
  pub mem : ℕ → Node
  pub root : ℕ

abbrev pub write : ℕ → Node → Store → Store
write p n s = record s { mem = λ q. if q == p then n else s.mem q }

abbrev pub set_child : Side → (p v : ℕ) → Store → Store
set_child d p v s = write p (with_child d v (s.mem p)) s

abbrev pub set_up : (p v : ℕ) → Store → Store
set_up p v s = write p (record (s.mem p) { up = v }) s

abbrev pub set_color : ℕ → Color → Store → Store
set_color p c s = write p (record (s.mem p) { color = c }) s

-- In the functions below `nil` is the address of the tree's own node, `RB_ROOT(pTree)`.

-- The parent of `x`, or `pRoot` where there is none, is made to point to `y`.
unfoldable pub replace_child : (nil x y : ℕ) → Store → Store
replace_child nil x y s =
    let u = (s.mem x).up in
    if u == nil
    then record s { root = y }
    else if x == (s.mem u).left
    then set_child left u y s
    else set_child right u y s

-- The first part of a rotation at `x`: the inner subtree of `y` moves to `x`.
unfoldable pub move_inner : Side → (nil x y : ℕ) → Store → Store
move_inner d nil x y s =
    let s1 = set_child (opposite d) x (child d (s.mem y)) s in
    let b = child d (s1.mem y) in if b == nil then s1 else set_up b x s1

-- The last part: `x` is put on `y`.
unfoldable pub put_on : Side → (x y : ℕ) → Store → Store
put_on d x y s = set_up x y (set_child d y x s)

-- `rb_rotate_left` where the side is `left`, `rb_rotate_right` where it is `right`.
unfoldable pub rotate : Side → (nil x : ℕ) → Store → Store
rotate d nil x s =
    let y = child (opposite d) (s.mem x) in
    let s1 = move_inner d nil x y s in
    let s2 = set_up y (s1.mem x).up s1 in put_on d x y (replace_child nil x y s2)

-- What the comparison callback says of the element that is looked for and the one at a node: less
-- than, greater than, or equal to 0.
pub data Sign : Type 0 where
  negative : Sign
  positive : Sign
  zero' : Sign

-- Where the walk down `rb_traverse` ends: `pNodeY`, `pNodeX` and `found`.
pub record Descent : Type 0 where
  pub parent : ℕ
  pub node : ℕ
  pub found : Bool

-- The walk down, on fuel.
unfoldable pub descend : (fuel : ℕ) → (ℕ → Sign) → (nil parent node : ℕ) → (ℕ → Node) → Descent
descend zero sign nil parent node mem = record { parent = parent; node = node; found = false }
descend (suc fuel) sign nil parent node mem =
    if node == nil
    then record { parent = parent; node = node; found = false }
    else elim (sign node) [
      | negative ↦ descend fuel sign nil node (mem node).left mem
      | positive ↦ descend fuel sign nil node (mem node).right mem
      | zero' ↦ record { parent = node; node = node; found = true }
    ]

-- The new node `z` is hung under `y`, red and without children.
unfoldable pub attach : (ℕ → Sign) → (nil y z : ℕ) → Store → Store
attach sign nil y z s =
    let s1 = set_up z y s in
    let s2 : Store = if y == nil then record s1 { root = z } else elim (sign y) [
      | negative ↦ set_child left y z s1
      | positive ↦ set_child right y z s1
      | zero' ↦ set_child right y z s1
    ] in
    set_color z red (set_child right z nil (set_child left z nil s2))

-- ===== src/RedBlack/Delete.antt =====
-- `rb_successor`, `rb_delete` and `rb_delete_fix` of redblack.c.
pub mod Sibling
pub mod Reads
pub mod Nephew
pub mod Endings
pub mod Fixing
pub mod FixLoop
pub mod Replacing
pub mod Substitute
pub mod Unlink
pub mod Spine
pub mod Removing
pub mod Deletion
pub mod Successor
use libappf.Base.{ℕ, not, ◌&&◌, if◌then◌else◌, suc, ◌||◌, ◌==◌, zero}
use libappf.RedBlack.{
  black, red, is_red, Side, left, right, opposite, Node, child, Store, set_color, set_child, set_up,
  replace_child, rotate,
}

-- The walk down on the left, on fuel.
unfoldable pub leftmost : (fuel nil y : ℕ) → (ℕ → Node) → ℕ
leftmost zero nil y mem = y
leftmost (suc fuel) nil y mem =
    let lower = leftmost fuel nil (mem y).left mem in if (mem y).left == nil then y else lower

-- The walk up while `x` is the right child of `y`, on fuel.
unfoldable pub climb : (fuel nil x y : ℕ) → (ℕ → Node) → ℕ
climb zero nil x y mem = y
climb (suc fuel) nil x y mem =
    let higher = climb fuel nil y (mem y).up mem in
    if not (y == nil) && (x == (mem y).right) then higher else y

-- `rb_successor`
unfoldable pub successor : (fuel nil x : ℕ) → (ℕ → Node) → ℕ
successor fuel nil x mem =
    if (mem x).right == nil
    then climb fuel nil x (mem x).up mem
    else leftmost fuel nil (mem x).right mem

-- The sibling `w` of `x` is made black where it is red; the sibling afterwards, and the store.
unfoldable pub black_sibling : Side → (nil x : ℕ) → Store → ℕ × Store
black_sibling d nil x s =
    let w = child (opposite d) (s.mem (s.mem x).up) in
    let s1 = set_color w black s in
    let s2 = set_color (s1.mem x).up red s1 in
    let s3 = rotate d nil (s2.mem x).up s2 in
    if is_red (s.mem w).color then (child (opposite d) (s3.mem (s3.mem x).up), s3) else (w, s)

-- The far child of the sibling `w` is made red where it is black.
unfoldable pub red_nephew : Side → (nil x w : ℕ) → Store → ℕ × Store
red_nephew d nil x w s =
    let s1 = set_color (child d (s.mem w)) black s in
    let s2 = set_color w red s1 in
    let s3 = rotate (opposite d) nil w s2 in
    if is_red (s.mem (child (opposite d) (s.mem w))).color
    then (w, s)
    else (child (opposite d) (s3.mem (s3.mem x).up), s3)

-- The last round: the sibling takes the parent's color, and is turned over it.
unfoldable pub finish : Side → (nil x w : ℕ) → Store → Store
finish d nil x w s =
    let s1 = set_color w (s.mem (s.mem x).up).color s in
    let s2 = set_color (s1.mem x).up black s1 in
    let s3 = set_color (child (opposite d) (s2.mem w)) black s2 in rotate d nil (s3.mem x).up s3

-- The loop of `rb_delete_fix`, on fuel, and the node at which it ends.
unfoldable pub fix_loop : (fuel nil x : ℕ) → Store → ℕ × Store
fix_loop zero nil x s = (x, s)
fix_loop (suc fuel) nil x s =
    let d = if x == (s.mem (s.mem x).up).left then left else right in
    let r = black_sibling d nil x s in
    let w = r.0 in
    let s1 = r.1 in
    let s2 = set_color w red s1 in
    let higher = fix_loop fuel nil (s2.mem x).up s2 in
    let q = red_nephew d nil x w s1 in
    let s3 = finish d nil x (q.0) (q.1) in
    let done = fix_loop fuel nil s3.root s3 in
    if (x == s.root) || is_red (s.mem x).color
    then (x, s)
    else if is_red (s1.mem (child d (s1.mem w))).color
        || is_red (s1.mem (child (opposite d) (s1.mem w))).color
    then done
    else higher

unfoldable pub delete_fix : (fuel nil x : ℕ) → Store → Store
delete_fix fuel nil x s = let r = fix_loop fuel nil x s in set_color (r.0) black (r.1)

-- `y` takes the place of `z`: its parent, its children and its color. Where `z` has no parent, the
-- right pointer of the tree's own node is written.
unfoldable pub substitute : (nil z y : ℕ) → Store → Store
substitute nil z y s =
    let s1 = if (s.mem z).up == nil then record s { root = y } else s in
    let s2 = set_up y (s1.mem z).up s1 in
    let u = (s2.mem z).up in
    let s3 = if (s2.mem u).left == z then set_child left u y s2 else set_child right u y s2 in
    let s4 = set_up (s3.mem z).left y s3 in
    let s5 = set_up (s4.mem z).right y s4 in
    let s6 = set_child left y (s5.mem z).left s5 in
    let s7 = set_child right y (s6.mem z).right s6 in set_color y (s7.mem z).color s7

-- `rb_delete`
unfoldable pub delete : (fuel nil z : ℕ) → Store → Store
delete fuel nil z s =
    let y =
      if ((s.mem z).left == nil) || ((s.mem z).right == nil)
      then z
      else successor fuel nil z s.mem in
    let x = if (s.mem y).left == nil then (s.mem y).right else (s.mem y).left in
    let s1 = replace_child nil y x (set_up x (s.mem y).up s) in
    let removed = (s1.mem y).color in
    let s2 = if y == z then s1 else substitute nil z y s1 in
    if is_red removed then s2 else delete_fix fuel nil x s2

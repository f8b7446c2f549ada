-- ===== src/RedBlack/Api.antt =====
-- The functions of redblack.h. Those without `__` take the tree's mutex, call the ones with it and
-- give it back.
pub mod Elements
pub mod Members
pub mod Removal
pub mod Remove
pub mod Next
pub mod Following
pub mod Visits
pub mod Walks
use libappf.Base.{
  ℕ, none, ◌||◌, ◌%◌, ◌==◌, if◌then◌else◌, ◌+◌, suc, Option, Bool, ◌^◌, some, true, false, ◌-◌,
}
use libappf.RedBlack.{black, Node, Store, Sign, positive, negative, zero', descend}
use libappf.RedBlack.Insert.{search, traverse_insert}
use libappf.RedBlack.Delete.{successor, leftmost, delete}
use libappf.RedBlack.Walk.{destroy}
use libappf.Base.Int.{pos, ℤ, ltb_ℤ}

-- `struct rb_tree`: `nil` is the address of its field `root`, and the node of the element at `e`
-- is at `e + offset`. `fCompare` is a parameter. The pointers to a tree are not NULL.
pub record Tree : Type 0 where
  pub nil : ℕ
  pub offset : ℕ
  pub count : ℕ
  pub store : Store

-- `RB_NODE` and `RB_ELEMENT`
abbrev pub node_of : Tree → ℕ → ℕ
node_of t e = e + t.offset

abbrev pub element : Tree → ℕ → ℕ
element t n = n - t.offset

-- An element, or NULL for the tree's own node.
abbrev pub element_or_null : Tree → ℕ → Option ℕ
element_or_null t n = if n == t.nil then none else some (element t n)

-- Fuel for every walk: one round for each node and one more.
abbrev pub rounds : Tree → ℕ
rounds t = suc t.count

-- `rb_tree_init`, on what is in the memory.
unfoldable pub tree_init : (nil offset : ℕ) → (ℕ → Node) → Tree
tree_init nil offset mem = record {
  nil = nil;
  offset = offset;
  count = 0;
  store = record {
    mem = λ q.
        if q == nil then record { left = nil; right = nil; up = nil; color = black } else mem q;
    root = nil;
  };
}

abbrev pub is_positive : Sign → Bool
is_positive negative = false
is_positive positive = true
is_positive zero' = false

module _ (compare' : ℕ → ℕ → Sign) where
  -- The comparison of the element `e` with that of a node.
  abbrev pub sign_of : Tree → ℕ → ℕ → Sign
  sign_of t e n = compare' e (element t n)

  -- `__rb_tree_add`: was the element added?
  unfoldable pub tree_add : ℕ → Tree → Bool × Tree
  tree_add e t =
      let r = traverse_insert (rounds t) (sign_of t e) t.nil (node_of t e) t.store in
      if r.0 == t.nil
      then (false, record t { store = r.1 })
      else (true, record t { store = r.1; count = (t.count + 1) % 2 ^ 32 })

  -- `__rb_tree_remove`
  unfoldable pub tree_remove : ℕ → Tree → Option ℕ × Tree
  tree_remove e t =
      let n = search (rounds t) (sign_of t e) t.nil t.store in
      if n == t.nil then (none, t) else (
        some (element t n),
        record t {
          store = delete (rounds t) t.nil n t.store;
          count = (t.count + (2 ^ 32 - 1)) % 2 ^ 32;
        },
      )

  -- `__rb_tree_get`
  unfoldable pub tree_get : ℕ → Tree → Option ℕ
  tree_get e t =
      if t.store.root == t.nil
      then none
      else element_or_null t (search (rounds t) (sign_of t e) t.nil t.store)

  -- `__rb_tree_get_next`
  unfoldable pub tree_get_next : ℕ → Tree → Option ℕ
  tree_get_next e t =
      let r = descend (rounds t) (sign_of t e) t.nil t.nil t.store.root t.store.mem in
      let n = if r.node == t.nil then r.parent else r.node in
      let after = successor (rounds t) t.nil n t.store.mem in
      let greater = is_positive (sign_of t e n) in
      if t.store.root == t.nil
      then none
      else element_or_null t (if r.found || greater then after else n)

-- `__rb_tree_get_first`
unfoldable pub tree_get_first : Tree → Option ℕ
tree_get_first t =
    if t.store.root == t.nil
    then none
    else some (element t (leftmost (rounds t) t.nil t.store.root t.store.mem))

-- `__rb_tree_get_next_from_node`. It takes a node and returns an element.
unfoldable pub tree_get_next_from_node : Option ℕ → Tree → Option ℕ
tree_get_next_from_node none t = tree_get_first t
tree_get_next_from_node (some n) t = element_or_null t (successor (rounds t) t.nil n t.store.mem)

-- `__rb_tree_step`
unfoldable pub tree_step : Option ℕ → ℤ → Tree → Option ℕ
tree_step none dir t = element_or_null t t.store.root
tree_step (some e) dir t =
    let n = node_of t e in
    element_or_null t (
      if ltb_ℤ (pos 0) dir
      then (t.store.mem n).right
      else if ltb_ℤ dir (pos 0)
      then (t.store.mem n).left
      else n)

-- `rb_tree_flush`; without a callback it does nothing.
unfoldable pub tree_flush : {S : Type 0} → Option (ℕ → S → S) → Tree → S → Tree × S
tree_flush none t s = (t, s)
tree_flush (some free) t s = (
  record t { count = 0; store = record t.store { root = t.nil } },
  destroy (λ n. free (element t n)) (rounds t) t.nil t.store.root t.store.mem s,
)

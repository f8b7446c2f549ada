-- ===== src/RedBlack/Walk.antt =====
-- `rb_walk`, `rb_walk_inorder` and `rb_destroy` of redblack.c. A callback takes what was there before
-- it to what is there after it; the element is given by its node.
use libappf.Base.{ℕ, true, zero, ◌&&◌, suc, Bool, false, if◌then◌else◌, ◌+◌, ◌==◌}
use libappf.RedBlack.{Node}

pub data Visit : Type 0 where
  preorder : Visit
  postorder : Visit
  endorder : Visit
  leaf : Visit

-- Whether to go on, and what is there; `RB_WALK_CONT` is `true`.
abbrev pub Walk : Type 0 → Type 0
Walk S = Bool × S

module _ {S : Type 0} where
  abbrev pub and_then : Walk S → (S → Walk S) → Walk S
  and_then (go_on, s) next = elim go_on [ true ↦ next s | false ↦ (false, s) ]

  -- `rb_walk`, on fuel for the depth of the recursion.
  unfoldable pub walk :
      (ℕ → Visit → (level : ℕ) → S → Walk S) → (fuel nil node level : ℕ) → (ℕ → Node) → S → Walk S
  walk act zero nil node level mem s = (true, s)
  walk act (suc fuel) nil node level mem s =
      let lower = λ (child' : ℕ) (t : S). walk act fuel nil child' (level + 1) mem t in
      let n = mem node in
      if node == nil
      then (true, s)
      else if (n.left == nil) && (n.right == nil)
      then act node leaf level s
      else and_then (act node preorder level s) (λ a. and_then (lower n.left a) (λ b.
        and_then (act node postorder level b)
          (λ c. and_then (lower n.right c) (act node endorder level))))

  -- `rb_walk_inorder`
  unfoldable pub walk_inorder :
      (ℕ → (level : ℕ) → S → Walk S) → (fuel nil node level : ℕ) → (ℕ → Node) → S → Walk S
  walk_inorder act zero nil node level mem s = (true, s)
  walk_inorder act (suc fuel) nil node level mem s =
      let lower = λ (child' : ℕ) (t : S). walk_inorder act fuel nil child' (level + 1) mem t in
      let n = mem node in
      if node == nil
      then (true, s)
      else if (n.left == nil) && (n.right == nil)
      then act node level s
      else and_then (lower n.left s) (λ a. and_then (act node level a) (lower n.right))

  -- `rb_destroy`, where there is a callback `fFreeCB`.
  unfoldable pub destroy : (ℕ → S → S) → (fuel nil node : ℕ) → (ℕ → Node) → S → S
  destroy free zero nil node mem s = s
  destroy free (suc fuel) nil node mem s =
      let n = mem node in
      let left_gone = if n.left == nil then s else destroy free fuel nil n.left mem s in
      let right_gone =
        if n.right == nil then left_gone else destroy free fuel nil n.right mem left_gone in
      if node == nil then s else free node right_gone

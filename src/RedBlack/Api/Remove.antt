-- ===== src/RedBlack/Api/Remove.antt =====
-- `__rb_tree_remove`, on the sorted list of the elements.
use libappf.Base.{
  ℕ, arith, ◌≡◌, List, ◌∙◌, ◌+◌, ◌-◌, ◌^◌, ◌%◌, refl, ◌<◌, sym, ap, ◌==◌, length, false, subst,
  none, some,
}
use libappf.RedBlack.{Sign, Store}
use libappf.RedBlack.Insert.Cut.{find}
use libappf.RedBlack.Insert.Descending.{at_node, at_gap, Spot}
use libappf.RedBlack.Insert.Adding.{Holds, ended, none-ne-some}
use libappf.RedBlack.Api.Elements.{nodes, shift, IsTree, IsOrder, IsSorted}
use libappf.RedBlack.Api.Members.{
  search-elements, cut, enough, sought, sign-same, found-ne_nil, node-ne-nil,
}
use libappf.RedBlack.Insert.{search}
use libappf.RedBlack.Delete.{delete}
use libappf.RedBlack.Api.{Tree, rounds, sign_of, tree_remove}
use libappf.RedBlack.Api.Removal.{
  remove_equal, remove_equal-nodes, remove_equal-IsSorted, length-remove_equal, delete-found,
}

module _ (compare' : ℕ → ℕ → Sign) (order : IsOrder compare') (e : ℕ) (t : Tree) (es : List ℕ)
    (v : IsTree t es) (sorted : IsSorted compare' es) where
  sought_node :
      search (rounds t) (sign_of compare' t e) t.nil t.store
      ≡ (elim (shift t.offset (find (compare' e) es)) as (λ c. ℕ) [ none ↦ t.nil | some q ↦ q ])
  sought_node = search-elements compare' order e t es v sorted

  -- Where the comparison callback is an order and the tree holds a sorted list of elements, none of
  -- which compares equal to `e`, `tree_remove` returns NULL and changes nothing.
  pub tree_remove-none : find (compare' e) es ≡ none → tree_remove compare' e t ≡ (none, t)
  unfolding tree_remove
  tree_remove-none f =
      let h : search (rounds t) (sign_of compare' t e) t.nil t.store ≡ t.nil =
        sought_node
        ∙ ap (λ z. elim (shift t.offset z) as (λ c. ℕ) [ none ↦ t.nil | some q ↦ q ]) f in
      rw h (ground arith)

  module _ (q : ℕ) (f : find (compare' e) es ≡ some q) where
    found_node : find (sign_of compare' t e) (nodes t.offset es) ≡ some (q + t.offset)
    found_node = sought compare' order e t es v sorted ∙ ap (shift t.offset) f

    spot : Spot (sign_of compare' t e) t.nil t.store (nodes t.offset es) (q + t.offset)
    spot =
        elim (ended (rounds t) (sign_of compare' t e) t.nil t.store v.tree
          (cut compare' order e t es v sorted) (enough compare' order e t es v sorted)) [
            | at_node p g i d ↦
                subst (λ z. Spot (sign_of compare' t e) t.nil t.store (nodes t.offset es) z)
                  (some-eq (sym g ∙ found_node)) i
            | at_gap g i ↦ absurd (none-ne-some (sym g ∙ found_node))
          ]
      where
        some-eq : {a b : ℕ} → some a ≡ some b → a ≡ b
        some-eq e = cc

    gone : Store
    gone = delete (rounds t) t.nil (q + t.offset) t.store

    gone-Holds : Holds t.nil gone (nodes t.offset (remove_equal (compare' e) es))
    unfolding gone
    gone-Holds =
        subst (λ z. Holds t.nil (delete (rounds t) t.nil (q + t.offset) t.store) z)
          (remove_equal-nodes t.offset (sign_of compare' t e) (compare' e)
            (sign-same compare' order e t es v sorted) es)
          (delete-found (rounds t) (sign_of compare' t e) t.nil (q + t.offset) t.store
            (nodes t.offset es) (cut compare' order e t es v sorted)
            (enough compare' order e t es v sorted) spot)

    -- Where the comparison callback is an order, and the tree holds a sorted list of less than 2^32
    -- elements of which `q` is the first that compares equal to `e`: `tree_remove` returns `q`, and
    -- the tree then holds, as a red-black tree with right counts, the sorted list without `q`. The
    -- tree's own node and offset are as before.
    pub tree_remove-IsTree :
        length es < 2 ^ 32
        → (t' : Tree) × (tree_remove compare' e t ≡ (some q, t'))
          × IsTree t' (remove_equal (compare' e) es)
          × IsSorted compare' (remove_equal (compare' e) es)
          × (t'.nil ≡ t.nil)
          × (t'.offset ≡ t.offset)
    unfolding tree_remove gone
    tree_remove-IsTree small =
        let h : search (rounds t) (sign_of compare' t e) t.nil t.store ≡ q + t.offset =
          sought_node
          ∙ ap (λ z. elim (shift t.offset z) as (λ c. ℕ) [ none ↦ t.nil | some q ↦ q ]) f in
        let n : (q + t.offset == t.nil) ≡ false =
          found-ne_nil (sign_of compare' t e) t.nil (q + t.offset) (nodes t.offset es) found_node
            (node-ne-nil t es v) in
        let t' : Tree = record t { store = gone; count = (t.count + (2 ^ 32 - 1)) % 2 ^ 32 } in
        let back : q + t.offset - t.offset ≡ q = omega arith in
        (
          t',
          rw (h, n) (ap (λ z. (some z, t')) back),
          record {
            tree = gone-Holds;
            counted = omega (arith, v.counted, length-remove_equal (compare' e) es f);
          },
          remove_equal-IsSorted compare' (compare' e) es sorted,
          refl,
          refl,
        )

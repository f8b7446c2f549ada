-- ===== src/RedBlack/Api/Members.antt =====
-- The functions of redblack.h, on the sorted list of the elements.
use libappf.Base.{
  ℕ, arith, ◌≡◌, List, ◌∙◌, [], ◌+◌, ◌^◌, ◌%◌, refl, ◌∷◌, ◌<◌, sym, suc, ap, if◌then◌else◌, ◌==◌,
  length, true, false, subst, Option, none, some, Bool,
}
use libappf.RedBlack.{Sign, negative, positive, zero', Node, Store}
use libappf.RedBlack.Memory.Shape.{leaf}
use libappf.RedBlack.Insert.Cut.{IsCut, find, insert_at, occurrences, choose, place}
use libappf.RedBlack.Insert.Lookup.{count-inorder}
use libappf.RedBlack.Insert.Adding.{
  none-ne-some, Holds, search_lem, traverse_insert-found, traverse_insert-Holds,
}
use libappf.RedBlack.Api.Elements.{
  nodes, shift, IsTree, length-nodes, occurrences-nodes, IsOrder, IsSorted, IsCut-nodes, find-nodes,
  insert_at-nodes, IsSorted-IsCut, insert_at-IsSorted,
}
use libappf.RedBlack.{descend}
use libappf.RedBlack.Insert.{search}
use libappf.RedBlack.Api.{
  Tree, node_of, element_or_null, rounds, tree_init, sign_of, tree_add, tree_get,
}

-- A new tree holds no elements.
pub tree_init-IsTree : (nil offset : ℕ) (mem : ℕ → Node) → IsTree (tree_init nil offset mem) []
unfolding tree_init
tree_init-IsTree nil offset mem = record {
  tree = record {
    tree = leaf;
    height = 0;
    holds = record {
      here = tt;
      around = tt;
      root = refl;
      apart = λ p. omega arith;
      no_nil = refl;
      nil_black = ground arith;
    };
    order = refl;
    balanced = refl;
    black_root = refl;
  };
  counted = refl;
}

place-length :
    (c : Sign) (e x n : ℕ) (xs later : List ℕ)
    → n ≡ length xs + 1
    → length later ≡ n
    → length (place c e x xs later) ≡ n + 1
place-length negative e x n xs later f g = omega (arith, f)
place-length positive e x n xs later f g = omega (arith, g)
place-length zero' e x n xs later f g = omega (arith, g)

length-insert_at :
    (sign : ℕ → Sign) (e : ℕ) (es : List ℕ) → length (insert_at sign e es) ≡ length es + 1
length-insert_at sign e [] = refl
length-insert_at sign e (x ∷ es) =
    place-length (sign x) e x (length es + 1) es (insert_at sign e es) refl
      (length-insert_at sign e es)
    ∙ omega arith

-- The tree's own node is the node of no element.
pub node-ne-nil : (t : Tree) (es : List ℕ) → IsTree t es → occurrences t.nil (nodes t.offset es) ≡ 0
node-ne-nil t es v =
    ap (occurrences t.nil) (sym v.tree.order)
    ∙ sym (count-inorder t.nil v.tree.tree)
    ∙ omega (arith, v.tree.holds.no_nil)

pub found-ne_nil :
    (sign : ℕ → Sign) (nil q : ℕ) (xs : List ℕ)
    → find sign xs ≡ some q
    → occurrences nil xs ≡ 0
    → (q == nil) ≡ false
found-ne_nil sign nil q [] f h = absurd (none-ne-some f)
found-ne_nil sign nil q (x ∷ xs) f h =
    go (sign x) f (λ g. found-ne_nil sign nil q xs g (omega (arith, h)))
  where
    go :
        (c : Sign)
        → choose c x (find sign xs) ≡ some q
        → (find sign xs ≡ some q → (q == nil) ≡ false)
        → (q == nil) ≡ false
    go negative g later = later g
    go positive g later = later g
    go zero' g later = ground (arith, g, h)

search-empty :
    (n : ℕ) (sign : ℕ → Sign) (nil : ℕ) (s : Store)
    → (s.root == nil) ≡ true
    → search (suc n) sign nil s ≡ nil
unfolding search descend
search-empty n sign nil s e = ground (arith, e)

unless : (b : Bool) (x : Option ℕ) → (b ≡ true → x ≡ none) → (if b then none else x) ≡ x
unless true x f = sym (f refl)
unless false x f = refl

module _ (compare' : ℕ → ℕ → Sign) (order : IsOrder compare') (e : ℕ) (t : Tree) (es : List ℕ)
    (v : IsTree t es) (sorted : IsSorted compare' es) where
  pub sign-same : (x : ℕ) → sign_of compare' t e (x + t.offset) ≡ compare' e x
  sign-same x = ap (compare' e) (omega arith)

  pub cut : IsCut (sign_of compare' t e) (nodes t.offset es)
  cut =
      IsCut-nodes t.offset (sign_of compare' t e) (compare' e) sign-same es
        (IsSorted-IsCut compare' order e es sorted)

  pub enough : length (nodes t.offset es) < rounds t
  enough = omega (arith, length-nodes t.offset es, v.counted)

  pub sought :
      find (sign_of compare' t e) (nodes t.offset es) ≡ shift t.offset (find (compare' e) es)
  sought = find-nodes t.offset (sign_of compare' t e) (compare' e) sign-same es

  -- Where the comparison callback is an order and the tree holds a sorted list of elements, one of
  -- which compares equal to the new element, `tree_add` fails and changes nothing.
  pub tree_add-found : (q : ℕ) → find (compare' e) es ≡ some q → tree_add compare' e t ≡ (false, t)
  unfolding tree_add
  tree_add-found q f =
      let r =
        traverse_insert-found (rounds t) (sign_of compare' t e) t.nil t.store v.tree cut enough
          (q + t.offset) (sought ∙ ap (shift t.offset) f) (node_of t e) in
      rw r (ground arith)

  -- Where the comparison callback is an order, the tree holds a sorted list of elements, none of
  -- which compares equal to the new element `e` or is it, the node of `e` is not the tree's own node,
  -- and the count does not wrap around: `tree_add` adds `e`, and the tree then holds, as a red-black
  -- tree with right counts, the sorted list with `e` at its place, which is sorted again. The tree's
  -- own node and offset are as before.
  pub tree_add-IsTree :
      find (compare' e) es ≡ none
      → occurrences e es ≡ 0
      → (node_of t e == t.nil) ≡ false
      → length es + 1 < 2 ^ 32
      → (t' : Tree) × (tree_add compare' e t ≡ (true, t'))
        × IsTree t' (insert_at (compare' e) e es)
        × IsSorted compare' (insert_at (compare' e) e es)
        × (t'.nil ≡ t.nil)
        × (t'.offset ≡ t.offset)
  unfolding tree_add
  tree_add-IsTree f new zn small =
      let r =
        traverse_insert-Holds (rounds t) (sign_of compare' t e) t.nil t.store v.tree cut enough
          (node_of t e) (sought ∙ ap (shift t.offset) f) (occurrences-nodes t.offset e es ∙ new)
          zn in
      let t' : Tree = record t { store = r.0; count = (t.count + 1) % 2 ^ 32 } in
      (
        t',
        rw (r.1, zn) refl,
        record {
          tree =
              subst (λ z. Holds t.nil r.0 z)
                (insert_at-nodes t.offset (sign_of compare' t e) (compare' e) sign-same e es) r.2;
          counted = ground (arith, v.counted, length-insert_at (compare' e) e es);
        },
        insert_at-IsSorted compare' order e es sorted f,
        refl,
        refl,
      )

  pub search-elements :
      search (rounds t) (sign_of compare' t e) t.nil t.store
      ≡ (elim (shift t.offset (find (compare' e) es)) as (λ c. ℕ) [ none ↦ t.nil | some q ↦ q ])
  search-elements =
      search_lem (rounds t) (sign_of compare' t e) t.nil t.store v.tree cut enough
      ∙ ap (λ z. elim z as (λ c. ℕ) [ none ↦ t.nil | some q ↦ q ]) sought

  pub found-back :
      (r : Option ℕ)
      → find (compare' e) es ≡ r
      → element_or_null t (elim (shift t.offset r) as (λ c. ℕ) [ none ↦ t.nil | some q ↦ q ]) ≡ r
  found-back none f = ground arith
  found-back (some q) f =
      let h : (q + t.offset == t.nil) ≡ false =
        found-ne_nil (sign_of compare' t e) t.nil (q + t.offset) (nodes t.offset es)
          (sought ∙ ap (shift t.offset) f) (node-ne-nil t es v) in
      rw h (ap some (omega arith))

  -- Where the comparison callback is an order and the tree holds a sorted list of elements, `tree_get`
  -- returns the element that compares equal, or NULL where there is none.
  pub tree_get_lem : tree_get compare' e t ≡ find (compare' e) es
  unfolding tree_get
  tree_get_lem =
      let q = search (rounds t) (sign_of compare' t e) t.nil t.store in
      let h = search-empty t.count (sign_of compare' t e) t.nil t.store in
      unless (t.store.root == t.nil) (element_or_null t q) (λ r. rw (h r) (ground arith))
      ∙ ap (element_or_null t) search-elements
      ∙ found-back (find (compare' e) es) refl

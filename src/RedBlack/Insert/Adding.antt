-- ===== src/RedBlack/Insert/Adding.antt =====
-- `rb_traverse` as a whole, as a search and an insertion into a sorted list.
use libappf.Base.{
  ℕ, arith, ◌≡◌, List, ◌∙◌, [], ◌+◌, ◌++◌, refl, ◌∷◌, ◌<◌, sym, suc, append-nil, ap, ◌==◌, length,
  false, subst, none, some,
}
use libappf.RedBlack.{black, red, Store, Sign, attach, descend, Descent, set_color}
use libappf.RedBlack.Memory.Shape.{
  Shape, leaf, node, make, Frame, frame, plug, Focus, top, count, count_around, addr,
}
use libappf.RedBlack.Memory.Parts.{count-make}
use libappf.RedBlack.Memory.Recolor.{color_of, set_color-node}
use libappf.RedBlack.Insert.Lookup.{before, after, inorder-around, count-inorder}
use libappf.RedBlack.Memory.Balance.{inorder, IsBalanced, red-ne-black}
use libappf.RedBlack.Insert.Loop.{rebalance-HoldsBalanced}
use libappf.RedBlack.Insert.Cut.{IsCut, find, insert_at, insert_at-cut, occurrences}
use libappf.RedBlack.Insert.Descending.{Gap, Ended, at_node, at_gap, descend-Ended}
use libappf.RedBlack.Insert.Attach.{attach-Focus}
use libappf.RedBlack.Insert.{search, traverse_insert, rebalance}

-- The store holds a red-black tree with the given nodes in order.
pub record Holds (nil : ℕ) (s : Store) (xs : List ℕ) : Type 0 where
  pub tree : Shape
  pub height : ℕ
  pub holds : Focus nil s [] tree
  pub order : inorder tree ≡ xs
  pub balanced : IsBalanced height tree
  pub black_root : color_of tree ≡ black

pub blacken :
    (nil : ℕ) (t : Shape) (n : ℕ) (s : Store) {xs : List ℕ}
    → Focus nil s [] t
    → inorder t ≡ xs
    → IsBalanced n t
    → Holds nil (set_color s.root black s) xs
blacken nil leaf n s v e b = record {
  tree = leaf;
  height = n;
  holds = record {
    here = tt;
    around = tt;
    root = v.root;
    apart = v.apart;
    no_nil = v.no_nil;
    nil_black = ground (arith, v.root);
  };
  order = e;
  balanced = b;
  black_root = refl;
}
blacken nil (node l q red r) n s v e b = record {
  tree = node l q black r;
  height = suc n;
  holds =
      subst (λ z. Focus nil (set_color z black s) [] (node l q black r)) (sym v.root)
        (set_color-node nil q red black l r [] s v);
  order = e;
  balanced = (b.0, b.1);
  black_root = refl;
}
blacken nil (node l q black r) n s v e b = record {
  tree = node l q black r;
  height = n;
  holds =
      subst (λ z. Focus nil (set_color z black s) [] (node l q black r)) (sym v.root)
        (set_color-node nil q black black l r [] s v);
  order = e;
  balanced = b;
  black_root = refl;
}

count-plug :
    (p : ℕ) (k : List Frame) (t : Shape) → count p (plug k t) ≡ count p t + count_around p k
count-plug p [] t = omega arith
count-plug p (frame d q c s ∷ k) t =
    omega (arith, count-plug p k (make d q c t s), count-make p d q c t s)

count-gap : (p : ℕ) (k : List Frame) → count_around p k ≡ occurrences p (before k ++ after k)
count-gap p k = omega (
  arith,
  count-plug p k leaf,
  count-inorder p (plug k leaf),
  ap (occurrences p) (inorder-around k leaf),
)

pub none-ne-some : {p : ℕ} → none ≡ some p → ⊥
none-ne-some e = cc

module _ (fuel : ℕ) (sign : ℕ → Sign) (nil : ℕ) (s : Store) {xs : List ℕ} (h : Holds nil s xs)
    (cut : IsCut sign xs) (enough : length xs < fuel) where
  pub ended : Ended sign nil s xs fuel (descend fuel sign nil nil s.root s.mem)
  ended =
      let e : inorder h.tree ++ [] ≡ xs = append-nil (inorder h.tree) ∙ h.order in
      let l : length (inorder h.tree) ≡ length xs = ap length h.order in
      subst (λ z. Ended sign nil s xs fuel (descend fuel sign nil nil z s.mem)) (sym h.holds.root)
        (subst (λ z. Ended sign nil s z fuel (descend fuel sign nil nil (addr nil h.tree) s.mem)) e
          (descend-Ended sign nil fuel fuel [] h.tree s h.holds
            record {
              height = h.height;
              around = tt;
              balanced = h.balanced;
              below = λ r. absurd (red-ne-black (sym r ∙ h.black_root));
            }
            tt tt (subst (λ z. IsCut sign z) (sym h.order) cut) (omega (arith, l))
            (omega (arith, l))))

  -- The search returns the first node that compares equal, or the tree's own node.
  pub search_lem :
      search fuel sign nil s ≡ (elim (find sign xs) as (λ c. ℕ) [ none ↦ nil | some q ↦ q ])
  unfolding search
  search_lem = elim ended [
    | at_node q e i d ↦ ap (λ r. r.node) d ∙ rw e refl
    | at_gap e g ↦ ap (λ r. r.node) g.ends ∙ rw e refl
  ]

  -- Where a node compares equal, nothing is written.
  pub traverse_insert-found :
      (q : ℕ) → find sign xs ≡ some q → (z : ℕ) → traverse_insert fuel sign nil z s ≡ (nil, s)
  unfolding traverse_insert
  traverse_insert-found q f z = elim ended [
    | at_node p e i d ↦ rw d refl
    | at_gap e g ↦ absurd (none-ne-some (sym e ∙ f))
  ]

  -- What is left when the walk down ended at a gap.
  insert-Gap :
      (z : ℕ) (d : Descent) (g : Gap sign nil s xs fuel d)
      → occurrences z xs ≡ 0
      → (z == nil) ≡ false
      → Holds nil
          (set_color
            (rebalance fuel nil z (attach sign nil (top nil g.way) z s)).root
            black
            (rebalance fuel nil z (attach sign nil (top nil g.way) z s)))
          (insert_at sign z xs)
  insert-Gap z d g new zn =
      let k = g.way in
      let fresh : count_around z k ≡ 0 = count-gap z k ∙ ap (occurrences z) g.order ∙ new in
      let b =
        rebalance-HoldsBalanced nil fuel k 0 z leaf leaf (attach sign nil (top nil k) z s) g.short
          (attach-Focus sign nil z s k g.holds g.less g.greater fresh zn) (refl, refl, refl, refl)
          g.balanced in
      blacken nil b.tree b.height (rebalance fuel nil z (attach sign nil (top nil k) z s)) b.holds
        (b.order
          ∙ inorder-around k (node leaf z red leaf)
          ∙ sym (insert_at-cut sign z (before k) (after k) g.less g.greater)
          ∙ ap (insert_at sign z) g.order)
        b.balanced

  -- On more fuel than there are nodes, where the store holds a red-black tree whose list of nodes the
  -- comparison cuts in two, with none that compares equal, and the new node is not in the tree nor
  -- the tree's own: `traverse_insert` returns the new node, and the store then holds a red-black tree
  -- with the new node at its place in the list.
  pub traverse_insert-Holds :
      (z : ℕ)
      → find sign xs ≡ none
      → occurrences z xs ≡ 0
      → (z == nil) ≡ false
      → (s' : Store) × (traverse_insert fuel sign nil z s ≡ (z, s'))
        × Holds nil s' (insert_at sign z xs)
  unfolding traverse_insert
  traverse_insert-Holds z f new zn = elim ended [
    | at_node p e i d ↦ absurd (none-ne-some (sym f ∙ e))
    | at_gap e g ↦ (_, rw g.ends refl, insert-Gap z _ g new zn)
  ]

-- ===== src/RedBlack/Api/Following.antt =====
-- `__rb_tree_get_next`, on the sorted list of the elements.
use libappf.Base.{
  ℕ, arith, ◌≡◌, List, ◌∙◌, [], ◌+◌, refl, ◌∷◌, sym, ap, if◌then◌else◌, ◌==◌, length, true, false,
  Option, none, some, Bool, ◌||◌, Bool-cases, inl, inr,
}
use libappf.RedBlack.{Sign, negative, positive, zero', Store, Descent, descend}
use libappf.RedBlack.Memory.Shape.{Shape, leaf, node, Focus, top}
use libappf.RedBlack.Memory.Balance.{inorder}
use libappf.RedBlack.Insert.Cut.{occurrences}
use libappf.RedBlack.Insert.Descending.{at_node, at_gap}
use libappf.RedBlack.Insert.Adding.{ended, none-ne-some}
use libappf.RedBlack.Api.Elements.{nodes, shift, IsTree, IsOrder, IsSorted}
use libappf.RedBlack.Api.Members.{cut, enough, sign-same, node-ne-nil}
use libappf.RedBlack.Delete.{successor}
use libappf.RedBlack.Api.{Tree, element_or_null, rounds, sign_of, tree_get_next, is_positive}
use libappf.RedBlack.Api.Next.{pick, next_greater, or_nil, after-Spot, after-Gap}

found_ne :
    (sign : ℕ → Sign) (nil q : ℕ) (xs : List ℕ)
    → next_greater sign xs ≡ some q
    → occurrences nil xs ≡ 0
    → (q == nil) ≡ false
found_ne sign nil q [] f h = absurd (none-ne-some f)
found_ne sign nil q (x ∷ xs) f h = go (sign x) f (λ g. found_ne sign nil q xs g (omega (arith, h)))
  where
    go :
        (c : Sign)
        → pick c x (next_greater sign xs) ≡ some q
        → (next_greater sign xs ≡ some q → (q == nil) ≡ false)
        → (q == nil) ≡ false
    go negative g later = ground (arith, g, h)
    go positive g later = later g
    go zero' g later = later g

pick-shift :
    (offset : ℕ) (c : Sign) (e : ℕ) (later : Option ℕ)
    → pick c (e + offset) (shift offset later) ≡ shift offset (pick c e later)
pick-shift offset negative e later = refl
pick-shift offset positive e later = refl
pick-shift offset zero' e later = refl

next_greater-nodes :
    (offset : ℕ) (sign at : ℕ → Sign)
    → ((x : ℕ) → sign (x + offset) ≡ at x)
    → (es : List ℕ) → next_greater sign (nodes offset es) ≡ shift offset (next_greater at es)
next_greater-nodes offset sign at same [] = refl
next_greater-nodes offset sign at same (e ∷ es) =
    ap (λ c. pick c (e + offset) (next_greater sign (nodes offset es))) (same e)
    ∙ ap (pick (at e) (e + offset)) (next_greater-nodes offset sign at same es)
    ∙ pick-shift offset (at e) e (next_greater at es)

if-same : (b : Bool) (q : ℕ) → (if b then q else q) ≡ q
if-same true q = refl
if-same false q = refl

-- An empty tree has no elements.
root-empty :
    (nil : ℕ) (t : Shape) (s : Store) {xs : List ℕ}
    → Focus nil s [] t
    → inorder t ≡ xs
    → (s.root == nil) ≡ true
    → xs ≡ []
root-empty nil leaf s v e r = sym e
root-empty nil (node a q c b) s v e r =
    absurd (omega (arith, v.no_nil, same_one q nil (ap (λ z. z == nil) (sym v.root) ∙ r)))
  where
    same_one : (q nil : ℕ) → (q == nil) ≡ true → (if q == nil then 1 else 0) + 0 ≡ 1
    same_one q nil e = rw e refl

module _ (compare' : ℕ → ℕ → Sign) (order : IsOrder compare') (e : ℕ) (t : Tree) (es : List ℕ)
    (v : IsTree t es) (sorted : IsSorted compare' es) where
  following :
      next_greater (sign_of compare' t e) (nodes t.offset es)
      ≡ shift t.offset (next_greater (compare' e) es)
  following =
      next_greater-nodes t.offset (sign_of compare' t e) (compare' e)
        (sign-same compare' order e t es v sorted) es

  next_back :
      (r : Option ℕ)
      → next_greater (compare' e) es ≡ r
      → element_or_null t (or_nil t.nil (shift t.offset r)) ≡ r
  next_back none f = ground arith
  next_back (some q) f =
      let h : (q + t.offset == t.nil) ≡ false =
        found_ne (sign_of compare' t e) t.nil (q + t.offset) (nodes t.offset es)
          (following ∙ ap (shift t.offset) f) (node-ne-nil t es v) in
      rw h (ap some (omega arith))

  next_empty : (t.store.root == t.nil) ≡ true → none ≡ next_greater (compare' e) es
  next_empty r = none_back es (root-empty t.nil v.tree.tree t.store v.tree.holds v.tree.order r)
    where
      none_back : (es : List ℕ) → nodes t.offset es ≡ [] → none ≡ next_greater (compare' e) es
      none_back [] h = refl
      none_back (x ∷ es) h = absurd (omega (arith, ap length h))

  -- The node whose element is returned.
  next_node : Descent → ℕ
  next_node r =
      let n = if r.node == t.nil then r.parent else r.node in
      if r.found || is_positive (sign_of compare' t e n)
      then successor (rounds t) t.nil n t.store.mem
      else n

  next_node_lem :
      (t.store.root == t.nil) ≡ false
      → next_node (descend (rounds t) (sign_of compare' t e) t.nil t.nil t.store.root t.store.mem)
        ≡ or_nil t.nil (next_greater (sign_of compare' t e) (nodes t.offset es))
  unfolding next_node
  next_node_lem r =
      let c = cut compare' order e t es v sorted in
      let l = enough compare' order e t es v sorted in
      elim (ended (rounds t) (sign_of compare' t e) t.nil t.store v.tree c l) [
        | at_node q f i d ↦
            ap next_node d
            ∙ own (q == t.nil) q
            ∙ after-Spot (rounds t) (sign_of compare' t e) t.nil t.store c l q i
        | at_gap f g ↦
            ap next_node g.ends
            ∙ at_top (top t.nil g.way)
            ∙ after-Gap (rounds t) (sign_of compare' t e) t.nil t.store c l _ g r _ refl
      ]
    where
      own :
          (b : Bool) (q : ℕ)
          → next_node record { parent = q; node = q; found = true }
            ≡ successor (rounds t) t.nil q t.store.mem
      own b q = ap (λ p. successor (rounds t) t.nil p t.store.mem) (if-same (q == t.nil) q)

      at_top :
          (p : ℕ)
          → next_node record { parent = p; node = t.nil; found = false } ≡ (
              if is_positive (sign_of compare' t e p)
              then successor (rounds t) t.nil p t.store.mem
              else p)
      at_top p = let nn : (t.nil == t.nil) ≡ true = ground arith in rw nn refl

  -- Where the comparison callback is an order and the tree holds a sorted list of elements,
  -- `tree_get_next` returns the first element that is greater than `e`, whether or not `e` is in the
  -- tree, or NULL where there is none.
  pub tree_get_next_lem : tree_get_next compare' e t ≡ next_greater (compare' e) es
  unfolding tree_get_next next_node
  tree_get_next_lem =
      let d = descend (rounds t) (sign_of compare' t e) t.nil t.nil t.store.root t.store.mem in
      elim (Bool-cases (t.store.root == t.nil)) [
        | inl r ↦ ap (λ b. if b then none else element_or_null t (next_node d)) r ∙ next_empty r
        | inr r ↦
            ap (λ b. if b then none else element_or_null t (next_node d)) r
            ∙ ap (element_or_null t) (next_node_lem r ∙ ap (or_nil t.nil) following)
            ∙ next_back (next_greater (compare' e) es) refl
      ]

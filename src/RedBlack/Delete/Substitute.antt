-- ===== src/RedBlack/Delete/Substitute.antt =====
-- Another node takes the place of the one that is removed, as what it does to the tree in memory.
use libappf.Base.{
  ℕ, arith, ◌≡◌, if◌then◌else◌, List, ap, ◌∙◌, false, true, [], ◌∷◌, sym, subst, ◌==◌, ◌≤◌, ◌+◌,
  ◌⊎◌, inl, inr,
}
use libappf.RedBlack.{Color, black, left, right, Store, Node, with_child}
use libappf.RedBlack.Memory.Shape.{
  Shape, leaf, node, mk, Frame, frame, Focus, addr, top, count, count_around, root_of,
}
use libappf.RedBlack.Memory.Parts.{
  addr-apart, top-apart, eq_sym_false, Is-reup, Around-repoint, root_of-repoint,
}
use libappf.RedBlack.Insert.Attach.{if-zero, ne_count}
use libappf.RedBlack.Delete.Replacing.{
  above, below, substitute-parts, above-same, above-u, above-y, above-root, above-color, above-up,
  below-same, below-y, below-left, below-right, below-root, below-color,
}
use libappf.RedBlack.Delete.{substitute}

swap_test :
    (z y : ℕ) (n : Node)
    → (if n.left == z then with_child left y n else with_child right y n)
      ≡ (if z == n.left then with_child left y n else with_child right y n)
swap_test z y n = ground arith

Dec-eq : (a b : ℕ) → (a ≡ b) ⊎ ((a == b) ≡ false)
Dec-eq a b = ground arith

module _ (nil z y q : ℕ) (c cl : Color) (l1 l2 r : Shape) (k : List Frame) (s : Store)
    (v : Focus nil s k (node (node l1 q cl l2) z c r))
    (new : count y (node (node l1 q cl l2) z c r) + count_around y k ≡ 0)
    (ny : (nil == y) ≡ false) where
  after_all : Store
  after_all = below y q (addr nil r) c (above nil z y (top nil k) s)

  zy : (z == y) ≡ false
  zy = ground (arith, new)

  nil-z : (nil == z) ≡ false
  nil-z = ground (arith, v.no_nil)

  nil-q : (nil == q) ≡ false
  nil-q = ground (arith, v.no_nil)

  zu : (z == top nil k) ≡ false
  zu = eq_sym_false (top nil k) z (top-apart nil k z (ground (arith, v.apart z)) nil-z)

  zl : (z == q) ≡ false
  zl = ground (arith, v.apart z)

  zr : (z == addr nil r) ≡ false
  zr = eq_sym_false (addr nil r) z (addr-apart nil r z (ground (arith, v.apart z)) nil-z)

  uy : (top nil k == y) ≡ false
  uy = top-apart nil k y (omega (arith, new)) ny

  ry : (addr nil r == y) ≡ false
  ry = addr-apart nil r y (omega (arith, new)) ny

  qy : (q == y) ≡ false
  qy = ground (arith, new)

  rq : (addr nil r == q) ≡ false
  rq = addr-apart nil r q (ground (arith, v.apart q)) nil-q

  qu : (q == top nil k) ≡ false
  qu = eq_sym_false (top nil k) q (top-apart nil k q (ground (arith, v.apart q)) nil-q)

  ez : s.mem z ≡ mk left q (addr nil r) (top nil k) c
  ez = v.here.0

  parts : substitute nil z y s ≡ after_all
  unfolding after_all
  parts = substitute-parts nil z y q (addr nil r) (top nil k) c s ez zy zu zl zr uy

  -- What is not written.
  untouched :
      (p : ℕ)
      → (p == y) ≡ false
      → (p == q) ≡ false
      → (p == addr nil r) ≡ false
      → (p == top nil k) ≡ false
      → after_all.mem p ≡ s.mem p
  unfolding after_all
  untouched p e f g h =
      below-same nil z y q (addr nil r) (top nil k) c s ez zy zu zl zr uy
        (above nil z y (top nil k) s) p e f g
      ∙ above-same nil z y q (addr nil r) (top nil k) c s ez zy zu zl zr uy p h e

  -- An address inside the trees or around them is not one of the others.
  in_l : (p : ℕ) → 1 ≤ count p (node l1 q cl l2) → (p == q) ≡ false → after_all.mem p ≡ s.mem p
  in_l p i e =
      untouched p (ne_count (λ j. count j (node l1 q cl l2)) p y i (omega (arith, new))) e
        (eq_sym_false (addr nil r) p
          (addr-apart nil r p (ground (arith, v.apart p, i)) (nil_ne p i)))
        (eq_sym_false (top nil k) p (top-apart nil k p (ground (arith, v.apart p, i)) (nil_ne p i)))
    where
      nil_ne : (p : ℕ) → 1 ≤ count p (node l1 q cl l2) → (nil == p) ≡ false
      nil_ne p i =
          eq_sym_false p nil
            (ne_count (λ j. count j (node l1 q cl l2)) p nil i (omega (arith, v.no_nil)))

  q-not-r : count q r ≡ 0
  q-not-r = ground (arith, v.apart q)

  q-not-k : count_around q k ≡ 0
  q-not-k = ground (arith, v.apart q)

  nil_ne_r : (p : ℕ) → 1 ≤ count p r → (nil == p) ≡ false
  nil_ne_r p i = eq_sym_false p nil (ne_count (λ j. count j r) p nil i (omega (arith, v.no_nil)))

  in_r : (p : ℕ) → 1 ≤ count p r → (p == addr nil r) ≡ false → after_all.mem p ≡ s.mem p
  in_r p i e =
      untouched p (ne_count (λ j. count j r) p y i (omega (arith, new)))
        (ne_count (λ j. count j r) p q i q-not-r) e
        (eq_sym_false (top nil k) p
          (top-apart nil k p (omega (arith, v.apart p, i)) (nil_ne_r p i)))

  nil_ne_k : (p : ℕ) → 1 ≤ count_around p k → (nil == p) ≡ false
  nil_ne_k p i =
      eq_sym_false p nil (ne_count (λ j. count_around j k) p nil i (omega (arith, v.no_nil)))

  in_k : (p : ℕ) → 1 ≤ count_around p k → (p == top nil k) ≡ false → after_all.mem p ≡ s.mem p
  in_k p i e =
      untouched p (ne_count (λ j. count_around j k) p y i (omega (arith, new)))
        (ne_count (λ j. count_around j k) p q i q-not-k)
        (eq_sym_false (addr nil r) p
          (addr-apart nil r p (omega (arith, v.apart p, i)) (nil_ne_k p i)))
        e

  y-after : after_all.mem y ≡ mk left q (addr nil r) (top nil k) c
  unfolding after_all
  y-after =
      below-y nil z y q (addr nil r) (top nil k) c s ez zy zu zl zr uy (above nil z y (top nil k) s)
        qy ry
      ∙ ap (λ (n : Node). mk left q (addr nil r) n.up c)
          (above-y nil z y q (addr nil r) (top nil k) c s ez zy zu zl zr uy)

  q-after : after_all.mem q ≡ record (s.mem q) { up = y }
  unfolding after_all
  q-after =
      below-left nil z y q (addr nil r) (top nil k) c s ez zy zu zl zr uy
        (above nil z y (top nil k) s) qy (eq_sym_false (addr nil r) q rq)
      ∙ ap (λ (n : Node). record n { up = y })
          (above-same nil z y q (addr nil r) (top nil k) c s ez zy zu zl zr uy q qu qy)

  r-after :
      (addr nil r == nil) ≡ false
      → after_all.mem (addr nil r) ≡ record (s.mem (addr nil r)) { up = y }
  unfolding after_all
  r-after e =
      below-right nil z y q (addr nil r) (top nil k) c s ez zy zu zl zr uy
        (above nil z y (top nil k) s) ry (eq_sym_false (addr nil r) q rq)
      ∙ ap (λ (n : Node). record n { up = y })
          (above-same nil z y q (addr nil r) (top nil k) c s ez zy zu zl zr uy (addr nil r)
            (ru r (λ p. omega (arith, v.apart p)) e) ry)
    where
      ru :
          (r : Shape)
          → ((p : ℕ) → count p r + count_around p k ≤ 1)
          → (addr nil r == nil) ≡ false
          → (addr nil r == top nil k) ≡ false
      ru leaf h e = absurd (true_false (sym (ground arith) ∙ e))
        where
          true_false : true ≡ false → ⊥
          true_false f = cc
      ru (node r1 p c' r2) h e =
          eq_sym_false (top nil k) p
            (top-apart nil k p (ground (arith, h p)) (eq_sym_false p nil e))

  u-after :
      (top nil k == nil) ≡ false
      → after_all.mem (top nil k) ≡ (
          if z == (s.mem (top nil k)).left
          then with_child left y (s.mem (top nil k))
          else with_child right y (s.mem (top nil k)))
  unfolding after_all
  u-after e =
      below-same nil z y q (addr nil r) (top nil k) c s ez zy zu zl zr uy
        (above nil z y (top nil k) s) (top nil k) uy (eq_sym_false q (top nil k) qu)
        (tr k (λ p. omega (arith, v.apart p)) e)
      ∙ above-u nil z y q (addr nil r) (top nil k) c s ez zy zu zl zr uy
      ∙ swap_test z y (s.mem (top nil k))
    where
      tr :
          (k : List Frame)
          → ((p : ℕ) → count p r + count_around p k ≤ 1)
          → (top nil k == nil) ≡ false
          → (top nil k == addr nil r) ≡ false
      tr [] h e = ground (arith, e)
      tr (frame d p c' w ∷ k') h e =
          eq_sym_false (addr nil r) p
            (addr-apart nil r p (ground (arith, h p)) (eq_sym_false p nil e))

  nil-after : (after_all.mem nil).color ≡ black
  unfolding after_all
  nil-after =
      below-color nil z y q (addr nil r) (top nil k) c s ez zy zu zl zr uy
        (above nil z y (top nil k) s) nil ny
      ∙ above-color nil z y q (addr nil r) (top nil k) c s ez zy zu zl zr uy nil ny
      ∙ v.nil_black

  root-after : after_all.root ≡ root_of nil y k
  unfolding after_all
  root-after =
      below-root nil z y q (addr nil r) (top nil k) c s ez zy zu zl zr uy
        (above nil z y (top nil k) s)
      ∙ above-root nil z y q (addr nil r) (top nil k) c s ez zy zu zl zr uy
      ∙ root_of-repoint nil z y k (omega (arith, v.no_nil)) v.root

  once-after : (p : ℕ) → count p (node (node l1 q cl l2) y c r) + count_around p k ≤ 1
  once-after p = elim (Dec-eq y p) [
    | inl e ↦ rw (sym e) (ground (arith, new))
    | inr e ↦ omega (arith, v.apart p, if-zero y p e)
  ]

  -- Where `y` is not in the tree, it takes the place, the children and the color of `z`.
  pub substitute-Focus : Focus nil (substitute nil z y s) k (node (node l1 q cl l2) y c r)
  substitute-Focus =
      subst (λ s'. Focus nil s' k (node (node l1 q cl l2) y c r)) (sym parts)
        record {
          here = (
            y-after,
            Is-reup nil s.mem after_all.mem z y (node l1 q cl l2) (λ p. omega (arith, v.apart p))
                (omega (arith, v.no_nil)) in_l (λ e. q-after) v.here.1,
            Is-reup nil s.mem after_all.mem z y r (λ p. omega (arith, v.apart p))
                (omega (arith, v.no_nil)) in_r r-after v.here.2,
          );
          around =
              Around-repoint nil s.mem after_all.mem z y k u-after in_k
                (λ p. omega (arith, v.apart p)) (omega (arith, v.no_nil))
                (ground (arith, v.apart z)) nil-z v.around;
          root = root-after;
          apart = λ p. once-after p;
          no_nil = omega (arith, v.no_nil, if-zero y nil (eq_sym_false nil y ny));
          nil_black = nil-after;
        }

  -- The tree's own node, which may be the right child.
  pub substitute-nil_leaf : addr nil r ≡ nil → ((substitute nil z y s).mem nil).up ≡ y
  unfolding after_all
  substitute-nil_leaf e =
      ap (λ s'. (s'.mem nil).up) parts
      ∙ ap (λ p. (after_all.mem p).up) (sym e)
      ∙ ap (λ n. n.up)
          (below-right nil z y q (addr nil r) (top nil k) c s ez zy zu zl zr uy
            (above nil z y (top nil k) s) ry (eq_sym_false (addr nil r) q rq))

  pub substitute-nil_node :
      (nil == addr nil r) ≡ false → ((substitute nil z y s).mem nil).up ≡ (s.mem nil).up
  unfolding after_all
  substitute-nil_node e =
      ap (λ s'. (s'.mem nil).up) parts
      ∙ ap (λ n. n.up)
          (below-same nil z y q (addr nil r) (top nil k) c s ez zy zu zl zr uy
            (above nil z y (top nil k) s) nil ny nil-q e)
      ∙ above-up nil z y q (addr nil r) (top nil k) c s ez zy zu zl zr uy nil ny

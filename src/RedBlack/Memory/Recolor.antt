-- ===== src/RedBlack/Memory/Recolor.antt =====
-- The steps of `rb_traverse`'s loop, as what they do to the tree in memory.
use libappf.Base.{
  ℕ, arith, ◌≡◌, if◌then◌else◌, List, ap, ◌∙◌, false, true, ◌==◌, [], ◌+◌, refl, ◌∷◌, ◌≤◌, Bool,
}
use libappf.RedBlack.{Color, black, Side, left, right, Node, Store, set_color}
use libappf.RedBlack.Memory.Shape.{
  Shape, leaf, node, make, mk, Frame, frame, count, count_around, addr, top, Is, Is-elsewhere,
  Focus, Around-elsewhere, root_of,
}
use libappf.RedBlack.Memory.Parts.{addr-apart, Parts-make, eq_sym_false}

-- The root's color; a leaf is black.
abbrev pub color_of : Shape → Color
color_of leaf = black
color_of (node l q c r) = c

-- Which side a child stands on.
abbrev pub is_left : Side → Bool
is_left left = true
is_left right = false

pub side-is_left : (d : Side) → (if is_left d then left else right) ≡ d
side-is_left left = refl
side-is_left right = refl

module _ (nil : ℕ) where
  pub set_color-node :
      (q : ℕ) (c c' : Color) (a b : Shape) (k : List Frame) (s : Store)
      → Focus nil s k (node a q c b)
      → Focus nil (set_color q c' s) k (node a q c' b)
  set_color-node q c c' a b k s v = record {
    here = (
      ground arith ∙ ap (λ (z : Node). record z { color = c' }) v.here.0,
      Is-elsewhere nil s.mem (set_color q c' s).mem q a (λ p i. ground (arith, v.apart p, i))
          v.here.1,
      Is-elsewhere nil s.mem (set_color q c' s).mem q b (λ p i. ground (arith, v.apart p, i))
          v.here.2,
    );
    around =
        Around-elsewhere nil s.mem (set_color q c' s).mem q k (λ p i. ground (arith, v.apart p, i))
          v.around;
    root = v.root;
    apart = v.apart;
    no_nil = v.no_nil;
    nil_black = ground (arith, v.no_nil, v.nil_black);
  }

  -- A node gets another color.
  pub set_color-Focus :
      (d : Side) (q : ℕ) (c c' : Color) (a b : Shape) (k : List Frame) (s : Store)
      → Focus nil s k (make d q c a b)
      → Focus nil (set_color q c' s) k (make d q c' a b)
  set_color-Focus left q c c' a b k s v = set_color-node q c c' a b k s v
  set_color-Focus right q c c' a b k s v = set_color-node q c c' b a k s v

  -- What a look at the memory shows.
  pub at-make :
      (d : Side) (q : ℕ) (c : Color) (a b : Shape) (k : List Frame) {s : Store}
      → Focus nil s k (make d q c a b)
      → s.mem q ≡ mk d (addr nil a) (addr nil b) (top nil k) c
  at-make d q c a b k v = (Parts-make nil d _ (top nil k) q c a b v.here).fields

  pub color-addr :
      (t : Shape) (up : ℕ) (m : ℕ → Node)
      → (m nil).color ≡ black
      → Is nil m up t
      → (m (addr nil t)).color ≡ color_of t
  color-addr leaf up m e v = e
  color-addr (node l q c r) up m e v = ap (λ n. n.color) v.0

  pub root_of-apart :
      (p q : ℕ) (k : List Frame)
      → (if q == p then 1 else 0) + count_around p k ≡ 0
      → (p == root_of nil q k) ≡ false
  root_of-apart p q [] h = ground (arith, h)
  root_of-apart p q (frame d' q' c' s' ∷ k) h = root_of-apart p q' k (omega (arith, h))

  pub root-frame :
      (d : Side) (q : ℕ) (c : Color) (b : Shape) (t : Shape) (p : ℕ) (k : List Frame) {s : Store}
      → 1 ≤ count p t
      → Focus nil s (frame d q c b ∷ k) t
      → (p == s.root) ≡ false
  root-frame d q c b t p k i v =
      ap (λ z. p == z) v.root ∙ root_of-apart p q k (omega (arith, v.apart p, i))

  -- `child == (its parent).left` tells the side.
  pub is_left-make :
      (d : Side) (q : ℕ) (c : Color) (t b : Shape) (p : ℕ) (k : List Frame) {s : Store}
      → addr nil t ≡ p
      → 1 ≤ count p t
      → Focus nil s k (make d q c t b)
      → (p == (s.mem q).left) ≡ is_left d
  is_left-make left q c t b p k e i v = ground (arith, v.here.0, e)
  is_left-make right q c t b p k e i v =
      ap (λ (z : Node). p == z.left) v.here.0
      ∙ eq_sym_false (addr nil b) p
          (addr-apart nil b p (omega (arith, v.apart p, i)) (ground (arith, v.no_nil, i, e)))

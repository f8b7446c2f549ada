-- ===== src/RedBlack/Memory/Shape.antt =====
-- What the nodes in memory stand for: a tree, seen from a node inside it.
use libappf.Base.{ℕ, if◌then◌else◌, ◌∙◌, ◌≤◌, ◌+◌, ◌∷◌, ◌==◌, arith, [], ◌≡◌, List}
use libappf.RedBlack.{Color, black, Side, left, right, Node, Store}

-- A tree with the addresses of its nodes.
pub data Shape : Type 0 where
  leaf : Shape
  node : Shape → ℕ → Color → Shape → Shape

-- A node with its child on the given side first.
abbrev pub make : Side → ℕ → Color → Shape → Shape → Shape
make left q c a b = node a q c b
make right q c a b = node b q c a

abbrev pub mk : Side → (a b up : ℕ) → Color → Node
mk left a b up c = record { left = a; right = b; up = up; color = c }
mk right a b up c = record { left = b; right = a; up = up; color = c }

-- One step of the way down: the node, and the tree on the other side.
pub data Frame : Type 0 where
  frame : Side → ℕ → Color → Shape → Frame

-- The whole tree around a subtree, from the way down to it.
abbrev pub plug : List Frame → Shape → Shape
plug [] t = t
plug (frame d q c s ∷ k) t = plug k (make d q c t s)

-- How often an address stands in a tree, and around a subtree.
abbrev pub count : ℕ → Shape → ℕ
count p leaf = 0
count p (node l q c r) = (if q == p then 1 else 0) + count p l + count p r

abbrev pub count_around : ℕ → List Frame → ℕ
count_around p [] = 0
count_around p (frame d q c s ∷ k) = (if q == p then 1 else 0) + count p s + count_around p k

module _ (nil : ℕ) where
  abbrev pub addr : Shape → ℕ
  addr leaf = nil
  addr (node l q c r) = q

  -- The parent of the subtree, and the root of the whole tree.
  abbrev pub top : List Frame → ℕ
  top [] = nil
  top (frame d q c s ∷ k) = q

  abbrev pub root_of : ℕ → List Frame → ℕ
  root_of p [] = p
  root_of p (frame d q c s ∷ k) = root_of q k

  -- The memory holds the tree, under the parent `up`.
  abbrev pub Is : (ℕ → Node) → ℕ → Shape → Type 0
  Is m up leaf = Unit
  Is m up (node l q c r) = (m q ≡ mk left (addr l) (addr r) up c) × Is m q l × Is m q r

  -- The memory holds what is around a subtree at `p`.
  abbrev pub Around : (ℕ → Node) → ℕ → List Frame → Type 0
  Around m p [] = Unit
  Around m p (frame d q c s ∷ k) = (m q ≡ mk d p (addr s) (top k) c) × Is m q s × Around m q k

  -- The store holds the tree `plug k t`, and no address stands in it twice. The tree's own node is
  -- not one of its nodes, and is black.
  pub record Focus (s : Store) (k : List Frame) (t : Shape) : Type 0 where
    pub here : Is s.mem (top k) t
    pub around : Around s.mem (addr t) k
    pub root : s.root ≡ root_of (addr t) k
    pub apart : (p : ℕ) → count p t + count_around p k ≤ 1
    pub no_nil : count nil t + count_around nil k ≡ 0
    pub nil_black : (s.mem nil).color ≡ black

  pub zoom :
      (d : Side) (q : ℕ) (c : Color) (a b : Shape) (k : List Frame) {s : Store}
      → Focus s k (make d q c a b)
      → Focus s (frame d q c b ∷ k) a
  zoom left q c a b k v = record {
    here = v.here.1;
    around = (v.here.0, v.here.2, v.around);
    root = v.root;
    apart = λ p. omega (arith, v.apart p);
    no_nil = omega (arith, v.no_nil);
    nil_black = v.nil_black;
  }
  zoom right q c a b k v = record {
    here = v.here.2;
    around = (v.here.0, v.here.1, v.around);
    root = v.root;
    apart = λ p. omega (arith, v.apart p);
    no_nil = omega (arith, v.no_nil);
    nil_black = v.nil_black;
  }

  pub unzoom :
      (d : Side) (q : ℕ) (c : Color) (a b : Shape) (k : List Frame) {s : Store}
      → Focus s (frame d q c b ∷ k) a
      → Focus s k (make d q c a b)
  unzoom left q c a b k v = record {
    here = (v.around.0, v.here, v.around.1);
    around = v.around.2;
    root = v.root;
    apart = λ p. omega (arith, v.apart p);
    no_nil = omega (arith, v.no_nil);
    nil_black = v.nil_black;
  }
  unzoom right q c a b k v = record {
    here = (v.around.0, v.around.1, v.here);
    around = v.around.2;
    root = v.root;
    apart = λ p. omega (arith, v.apart p);
    no_nil = omega (arith, v.no_nil);
    nil_black = v.nil_black;
  }

  -- Writes elsewhere leave a tree and what is around it as they are.
  pub Is-elsewhere :
      (m m' : ℕ → Node) (up : ℕ) (t : Shape)
      → ((q : ℕ) → 1 ≤ count q t → m' q ≡ m q)
      → Is m up t
      → Is m' up t
  Is-elsewhere m m' up leaf same v = tt
  Is-elsewhere m m' up (node l q c r) same v = (
    same q (ground arith) ∙ v.0,
    Is-elsewhere m m' q l (λ p i. same p (omega (arith, i))) v.1,
    Is-elsewhere m m' q r (λ p i. same p (omega (arith, i))) v.2,
  )

  pub Around-elsewhere :
      (m m' : ℕ → Node) (p : ℕ) (k : List Frame)
      → ((q : ℕ) → 1 ≤ count_around q k → m' q ≡ m q)
      → Around m p k
      → Around m' p k
  Around-elsewhere m m' p [] same v = tt
  Around-elsewhere m m' p (frame d q c s ∷ k) same v = (
    same q (ground arith) ∙ v.0,
    Is-elsewhere m m' q s (λ j i. same j (omega (arith, i))) v.1,
    Around-elsewhere m m' q k (λ j i. same j (omega (arith, i))) v.2,
  )

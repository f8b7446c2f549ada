-- ===== src/RedBlack/Memory/Parts.antt =====
-- The parts of a node in memory, and addresses that stand elsewhere.
use libappf.Base.{
  ℕ, arith, ◌≡◌, if◌then◌else◌, List, ap, ◌∙◌, false, ◌==◌, not, [], ◌&&◌, ◌+◌, refl, ◌∷◌, ◌≤◌,
}
use libappf.RedBlack.{Color, Side, left, right, Node, with_child}
use libappf.RedBlack.Memory.Shape.{
  Shape, leaf, node, make, mk, Frame, frame, count, count_around, addr, top, Is, Is-elsewhere,
  root_of, Around, Around-elsewhere,
}

pub count-make :
    (p : ℕ) (d : Side) (q : ℕ) (c : Color) (a b : Shape)
    → count p (make d q c a b) ≡ (if q == p then 1 else 0) + count p a + count p b
count-make p left q c a b = refl
count-make p right q c a b = omega arith

pub eq_sym_false : (a b : ℕ) → (a == b) ≡ false → (b == a) ≡ false
eq_sym_false a b e = ground (arith, e)

module _ (nil : ℕ) where
  pub addr-make : (d : Side) (q : ℕ) (c : Color) (a b : Shape) → addr nil (make d q c a b) ≡ q
  addr-make left q c a b = refl
  addr-make right q c a b = refl

  pub Is-make :
      (d : Side) (m : ℕ → Node) (up q : ℕ) (c : Color) (a b : Shape)
      → m q ≡ mk d (addr nil a) (addr nil b) up c
      → Is nil m q a
      → Is nil m q b
      → Is nil m up (make d q c a b)
  Is-make left m up q c a b e va vb = (e, va, vb)
  Is-make right m up q c a b e va vb = (e, vb, va)

  -- The parts of a node that the memory holds.
  pub record Parts (d : Side) (m : ℕ → Node) (up q : ℕ) (c : Color) (a b : Shape) : Type 0 where
    pub fields : m q ≡ mk d (addr nil a) (addr nil b) up c
    pub first : Is nil m q a
    pub second : Is nil m q b

  pub Parts-make :
      (d : Side) (m : ℕ → Node) (up q : ℕ) (c : Color) (a b : Shape)
      → Is nil m up (make d q c a b)
      → Parts d m up q c a b
  Parts-make left m up q c a b v = record { fields = v.0; first = v.1; second = v.2 }
  Parts-make right m up q c a b v = record { fields = v.0; first = v.2; second = v.1 }

  -- An address that stands elsewhere is not the root of a tree, nor the parent above.
  pub addr-apart :
      (t : Shape) (p : ℕ) → count p t ≡ 0 → (nil == p) ≡ false → (addr nil t == p) ≡ false
  addr-apart leaf p h n = n
  addr-apart (node l q c r) p h n = ground (arith, h)

  pub top-apart :
      (k : List Frame) (p : ℕ)
      → count_around p k ≡ 0
      → (nil == p) ≡ false
      → (top nil k == p) ≡ false
  top-apart [] p h n = n
  top-apart (frame d q c s ∷ k) p h n = ground (arith, h)

  pub not-addr :
      (t : Shape) (q : ℕ) → count q t ≡ 0 → ((q == addr nil t) && not (addr nil t == nil)) ≡ false
  not-addr leaf q h = ground arith
  not-addr (node l p c r) q h = ground (arith, h)

  pub not-top :
      (k : List Frame) (q : ℕ)
      → count_around q k ≡ 0
      → ((q == top nil k) && not (top nil k == nil)) ≡ false
  not-top [] q h = ground arith
  not-top (frame d p c s ∷ k) q h = ground (arith, h)

  pub top-addr :
      (k : List Frame) (t : Shape)
      → ((p : ℕ) → count p t + count_around p k ≤ 1)
      → count_around nil k ≡ 0
      → ((top nil k == addr nil t) && not (top nil k == nil)) ≡ false
  top-addr [] t h n = ground arith
  top-addr (frame d p c s ∷ k) leaf h n = ground (arith, n)
  top-addr (frame d p c s ∷ k) (node l q c' r) h n = ground (arith, h p)

  -- A subtree gets another parent.
  pub Is-reup :
      (m m' : ℕ → Node) (up up' : ℕ) (t : Shape)
      → ((p : ℕ) → count p t ≤ 1)
      → count nil t ≡ 0
      → ((q : ℕ) → 1 ≤ count q t → (q == addr nil t) ≡ false → m' q ≡ m q)
      → ((addr nil t == nil) ≡ false → m' (addr nil t) ≡ record (m (addr nil t)) { up = up' })
      → Is nil m up t
      → Is nil m' up' t
  Is-reup m m' up up' leaf once n same e v = tt
  Is-reup m m' up up' (node l q c r) once n same e v = (
    e (ground (arith, n)) ∙ ap (λ (x : Node). record x { up = up' }) v.0,
    Is-elsewhere nil m m' q l (λ p i. same p (omega (arith, i)) (ground (arith, once p, i))) v.1,
    Is-elsewhere nil m m' q r (λ p i. same p (omega (arith, i)) (ground (arith, once p, i))) v.2,
  )

  with_child-mk_one :
      (d : Side) (x y w u : ℕ) (c : Color)
      → (x == w) ≡ false
      → (if x == (mk d x w u c).left
          then with_child left y (mk d x w u c)
          else with_child right y (mk d x w u c))
        ≡ mk d y w u c
  with_child-mk_one left x y w u c e = ground arith
  with_child-mk_one right x y w u c e = ground (arith, e)

  -- The parent of a subtree points to another node in its place.
  pub Around-repoint :
      (m m' : ℕ → Node) (x y : ℕ) (k : List Frame)
      → ((top nil k == nil) ≡ false
          → m' (top nil k) ≡ (
              if x == (m (top nil k)).left
              then with_child left y (m (top nil k))
              else with_child right y (m (top nil k))))
      → ((q : ℕ) → 1 ≤ count_around q k → (q == top nil k) ≡ false → m' q ≡ m q)
      → ((q : ℕ) → count_around q k ≤ 1)
      → count_around nil k ≡ 0
      → count_around x k ≡ 0
      → (nil == x) ≡ false
      → Around nil m x k
      → Around nil m' y k
  Around-repoint m m' x y [] new same once never other n v = tt
  Around-repoint m m' x y (frame d q c s ∷ k) new same once never other n v = (
    new (ground (arith, never))
        ∙ ap (λ (z : Node). if x == z.left then with_child left y z else with_child right y z) v.0
        ∙ with_child-mk_one d x y (addr nil s) (top nil k) c
            (eq_sym_false (addr nil s) x (addr-apart s x (omega (arith, other)) n)),
    Is-elsewhere nil m m' q s (λ p i. same p (omega (arith, i)) (ground (arith, once p, i))) v.1,
    Around-elsewhere nil m m' q k (λ p i. same p (omega (arith, i)) (ground (arith, once p, i)))
        v.2,
  )

  pub root_of-repoint :
      (x y : ℕ) (k : List Frame) {r : ℕ}
      → count_around nil k ≡ 0
      → r ≡ root_of nil x k
      → (if top nil k == nil then y else r) ≡ root_of nil y k
  root_of-repoint x y [] n e = ground arith
  root_of-repoint x y (frame d q c s ∷ k) n e = ground (arith, n, e)

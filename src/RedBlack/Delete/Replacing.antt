-- ===== src/RedBlack/Delete/Replacing.antt =====
-- What `rb_delete` writes where another node takes the place of the one that is removed.
use libappf.Base.{ℕ, arith, ◌≡◌, if◌then◌else◌, ap, ◌∙◌, false, true, refl, sym, ◌==◌, Bool}
use libappf.RedBlack.{
  Color, Side, left, right, Store, Node, set_color, set_child, set_up, with_child,
}
use libappf.RedBlack.Memory.Shape.{mk}
use libappf.RedBlack.Delete.{substitute}

-- The parent, or `pRoot`, is made to point to `y`.
pub above : (nil z y u : ℕ) → Store → Store
above nil z y u s =
    let s1 = if u == nil then record s { root = y } else s in
    let s2 = set_up y u s1 in
    if (s2.mem u).left == z then set_child left u y s2 else set_child right u y s2

-- The node `y` gets the children and the color.
pub below : (y al ar : ℕ) → Color → Store → Store
below y al ar c s =
    let s4 = set_up al y s in
    let s5 = set_up ar y s4 in
    let s6 = set_child left y al s5 in set_color y c (set_child right y ar s6)

substitute-reads :
    (nil z y u al ar : ℕ) (c : Color) (s s1 s2 s3 s4 s5 s6 s7 : Store)
    → s1 ≡ (if (s.mem z).up == nil then record s { root = y } else s)
    → (s1.mem z).up ≡ u
    → s2 ≡ set_up y u s1
    → (s2.mem z).up ≡ u
    → s3 ≡ (if (s2.mem u).left == z then set_child left u y s2 else set_child right u y s2)
    → (s3.mem z).left ≡ al
    → s4 ≡ set_up al y s3
    → (s4.mem z).right ≡ ar
    → s5 ≡ set_up ar y s4
    → (s5.mem z).left ≡ al
    → s6 ≡ set_child left y al s5
    → (s6.mem z).right ≡ ar
    → s7 ≡ set_child right y ar s6
    → (s7.mem z).color ≡ c
    → substitute nil z y s ≡ set_color y c s7
unfolding substitute
substitute-reads nil z y u al ar c s s1 s2 s3 s4 s5 s6 s7 e1 u1 e2 u2 e3 l3 e4 r4 e5 l5 e6 r6 e7
      c7 =
    cc

set_up-other : (p v q : ℕ) (s : Store) → (q == p) ≡ false → (set_up p v s).mem q ≡ s.mem q
set_up-other p v q s e = ground (arith, e)

set_child-other :
    (d : Side) (p v q : ℕ) (s : Store) → (q == p) ≡ false → (set_child d p v s).mem q ≡ s.mem q
set_child-other d p v q s e = ground (arith, e)

either :
    (b : Bool) (s s' : Store) (q : ℕ) {n : Node}
    → s.mem q ≡ n
    → s'.mem q ≡ n
    → (let r : Store = if b then s else s' in r.mem q) ≡ n
either true s s' q e f = e
either false s s' q e f = f

module _ (nil z y al ar u : ℕ) (c : Color) (s : Store) (ez : s.mem z ≡ mk left al ar u c)
    (zy : (z == y) ≡ false) (zu : (z == u) ≡ false) (zl : (z == al) ≡ false)
    (zr : (z == ar) ≡ false) (uy : (u == y) ≡ false) where
  pub above-same :
      (q : ℕ) → (q == u) ≡ false → (q == y) ≡ false → (above nil z y u s).mem q ≡ s.mem q
  unfolding above
  above-same q e f = ground (arith, e, f)

  pub above-u :
      (above nil z y u s).mem u
      ≡ (if (s.mem u).left == z then with_child left y (s.mem u) else with_child right y (s.mem u))
  unfolding above
  above-u = ground (arith, uy)

  pub above-y : (above nil z y u s).mem y ≡ record (s.mem y) { up = u }
  unfolding above
  above-y = ground (arith, uy)

  pub above-root : (above nil z y u s).root ≡ (if u == nil then y else s.root)
  unfolding above
  above-root = ground arith

  pub below-same :
      (s' : Store) (q : ℕ)
      → (q == y) ≡ false
      → (q == al) ≡ false
      → (q == ar) ≡ false
      → (below y al ar c s').mem q ≡ s'.mem q
  unfolding below
  below-same s' q e f g = ground (arith, e, f, g)

  pub substitute-parts : substitute nil z y s ≡ below y al ar c (above nil z y u s)
  unfolding above below
  substitute-parts =
      let s1 : Store = if u == nil then record s { root = y } else s in
      let s2 = set_up y u s1 in
      let s3 : Store =
        if (s2.mem u).left == z then set_child left u y s2 else set_child right u y s2 in
      let s4 = set_up al y s3 in
      let s5 = set_up ar y s4 in
      let s6 = set_child left y al s5 in
      let s7 = set_child right y ar s6 in
      let z1 : s1.mem z ≡ s.mem z = ground arith in
      let z2 : s2.mem z ≡ s.mem z = set_up-other y u z s1 zy ∙ z1 in
      let z3 : s3.mem z ≡ s.mem z =
        either ((s2.mem u).left == z) (set_child left u y s2) (set_child right u y s2) z
          (set_child-other left u y z s2 zu) (set_child-other right u y z s2 zu)
        ∙ z2 in
      let z4 : s4.mem z ≡ s.mem z = set_up-other al y z s3 zl ∙ z3 in
      let z5 : s5.mem z ≡ s.mem z = set_up-other ar y z s4 zr ∙ z4 in
      let z6 : s6.mem z ≡ s.mem z = set_child-other left y al z s5 zy ∙ z5 in
      let z7 : s7.mem z ≡ s.mem z = set_child-other right y ar z s6 zy ∙ z6 in
      let up-z : (s.mem z).up ≡ u = ap (λ n. n.up) ez in
      substitute-reads nil z y u al ar c s s1 s2 s3 s4 s5 s6 s7
        (sym
          (ap (λ (p : ℕ). let r : Store = if p == nil then record s { root = y } else s in r) up-z))
        (ap (λ n. n.up) z1 ∙ up-z) refl (ap (λ n. n.up) z2 ∙ up-z) refl (ap (λ n. n.left) (z3 ∙ ez))
        refl (ap (λ n. n.right) (z4 ∙ ez)) refl (ap (λ n. n.left) (z5 ∙ ez)) refl
        (ap (λ n. n.right) (z6 ∙ ez)) refl (ap (λ n. n.color) (z7 ∙ ez))

  pub below-y :
      (s' : Store)
      → (al == y) ≡ false
      → (ar == y) ≡ false
      → (below y al ar c s').mem y ≡ mk left al ar (s'.mem y).up c
  unfolding below
  below-y s' e f = ground (arith, e, f)

  pub below-left :
      (s' : Store)
      → (al == y) ≡ false
      → (al == ar) ≡ false
      → (below y al ar c s').mem al ≡ record (s'.mem al) { up = y }
  unfolding below
  below-left s' e f = ground (arith, e, f)

  pub below-right :
      (s' : Store)
      → (ar == y) ≡ false
      → (al == ar) ≡ false
      → (below y al ar c s').mem ar ≡ record (s'.mem ar) { up = y }
  unfolding below
  below-right s' e f = ground (arith, e, f)

  pub below-root : (s' : Store) → (below y al ar c s').root ≡ s'.root
  unfolding below
  below-root s' = refl

  pub above-color : (q : ℕ) → (q == y) ≡ false → ((above nil z y u s).mem q).color ≡ (s.mem q).color
  unfolding above
  above-color q e = ground (arith, e)

  pub above-up : (q : ℕ) → (q == y) ≡ false → ((above nil z y u s).mem q).up ≡ (s.mem q).up
  unfolding above
  above-up q e = ground (arith, e)

  pub below-color :
      (s' : Store) (q : ℕ)
      → (q == y) ≡ false
      → ((below y al ar c s').mem q).color ≡ (s'.mem q).color
  unfolding below
  below-color s' q e = ground (arith, e)

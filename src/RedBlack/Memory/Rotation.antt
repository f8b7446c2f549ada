-- ===== src/RedBlack/Memory/Rotation.antt =====
-- `rb_rotate_left` and `rb_rotate_right`: what they write.
use libappf.Base.{ℕ, ◌==◌, ◌∙◌, ap, ◌≡◌, refl, if◌then◌else◌, arith, false, ◌&&◌, not}
use libappf.RedBlack.{
  Color, Side, left, right, opposite, child, Store, move_inner, with_child, replace_child, put_on,
  rotate, set_up, Node,
}
use libappf.RedBlack.Memory.Shape.{mk}

pub child-mk : (d : Side) (a b u : ℕ) (c : Color) → child d (mk d a b u c) ≡ a
child-mk left a b u c = refl
child-mk right a b u c = refl

pub child-mk-opposite : (d : Side) (a b u : ℕ) (c : Color) → child (opposite d) (mk d a b u c) ≡ b
child-mk-opposite left a b u c = refl
child-mk-opposite right a b u c = refl

pub with_child-mk :
    (d : Side) (a b u v : ℕ) (c : Color) → with_child d v (mk d a b u c) ≡ mk d v b u c
with_child-mk left a b u v c = refl
with_child-mk right a b u v c = refl

with_child-mk-opposite :
    (d : Side) (a b u v : ℕ) (c : Color) → with_child (opposite d) v (mk d a b u c) ≡ mk d a v u c
with_child-mk-opposite left a b u v c = refl
with_child-mk-opposite right a b u v c = refl

pub up-mk : (d : Side) (a b u : ℕ) (c : Color) → (mk d a b u c).up ≡ u
up-mk left a b u c = refl
up-mk right a b u c = refl

pub color-mk : (d : Side) (a b u : ℕ) (c : Color) → (mk d a b u c).color ≡ c
color-mk left a b u c = refl
color-mk right a b u c = refl

with_up-mk : (d : Side) (a b u v : ℕ) (c : Color) → record (mk d a b u c) { up = v } ≡ mk d a b v c
with_up-mk left a b u v c = refl
with_up-mk right a b u v c = refl

-- The memory after a rotation at `x`, by the addresses that it writes.
module _ (d : Side) (nil x y a b c u : ℕ) (cx cy : Color) where
  move_inner-mem :
      (s : Store)
      → s.mem x ≡ mk d a y u cx
      → s.mem y ≡ mk d b c x cy
      → (x == y) ≡ false
      → (b == x) ≡ false
      → (q : ℕ)
      → (move_inner d nil x y s).mem q ≡ (
          if (q == b) && not (b == nil)
          then record (s.mem b) { up = x }
          else if q == x
          then mk d a b u cx
          else s.mem q)
  unfolding move_inner
  move_inner-mem s ex ey xy bx q =
      let e1 : child d (s.mem y) ≡ b = ap (child d) ey ∙ child-mk d b c x cy in
      let e2 : with_child (opposite d) b (s.mem x) ≡ mk d a b u cx =
        ap (with_child (opposite d) b) ex ∙ with_child-mk-opposite d a y u b cx in
      ground (arith, e1, e2, xy, bx)

  pub replace_child-mem :
      (s : Store) (q : ℕ)
      → (s.mem x).up ≡ u
      → (replace_child nil x y s).mem q ≡ (
          if (q == u) && not (u == nil)
          then (if x == (s.mem u).left
              then with_child left y (s.mem u)
              else with_child right y (s.mem u))
          else s.mem q)
  unfolding replace_child
  replace_child-mem s q e = ground (arith, e)

  pub replace_child-root :
      (s : Store)
      → (s.mem x).up ≡ u
      → (replace_child nil x y s).root ≡ (if u == nil then y else s.root)
  unfolding replace_child
  replace_child-root s e = ground (arith, e)

  put_on-mem :
      (s : Store) (q : ℕ)
      → (x == y) ≡ false
      → (put_on d x y s).mem q ≡ (
          if q == x
          then record (s.mem x) { up = y }
          else if q == y
          then with_child d x (s.mem y)
          else s.mem q)
  unfolding put_on
  put_on-mem s q e = ground (arith, e)

  move_inner-root : (s : Store) → (move_inner d nil x y s).root ≡ s.root
  unfolding move_inner
  move_inner-root s = ground arith

  put_on-root : (s : Store) → (put_on d x y s).root ≡ s.root
  unfolding put_on
  put_on-root s = refl

  module _ (s : Store) (ex : s.mem x ≡ mk d a y u cx) (ey : s.mem y ≡ mk d b c x cy)
      (xy : (x == y) ≡ false) (bx : (b == x) ≡ false) (by' : (b == y) ≡ false)
      (ux : (u == x) ≡ false) (uy : (u == y) ≡ false) where
    moved : Store
    moved = move_inner d nil x y s

    moved-x : moved.mem x ≡ mk d a b u cx
    unfolding moved
    moved-x = move_inner-mem s ex ey xy bx x ∙ ground (arith, bx)

    moved-y : moved.mem y ≡ mk d b c x cy
    unfolding moved
    moved-y = move_inner-mem s ex ey xy bx y ∙ ground (arith, by', xy, ey)

    rotate-parts : rotate d nil x s ≡ put_on d x y (replace_child nil x y (set_up y u moved))
    unfolding rotate moved
    rotate-parts =
        let e : child (opposite d) (s.mem x) ≡ y =
          ap (child (opposite d)) ex ∙ child-mk-opposite d a y u cx in
        let f : (moved.mem x).up ≡ u = ap (λ n. n.up) moved-x ∙ up-mk d a b u cx in simp (e, f)

    raised : Store
    raised = set_up y u moved

    raised-mem : (q : ℕ) → raised.mem q ≡ (if q == y then mk d b c u cy else moved.mem q)
    unfolding raised
    raised-mem q =
        let raise : Node → Node = λ n. record n { up = u } in
        ground (arith, ap raise moved-y ∙ with_up-mk d b c x u cy)

    raised-x : raised.mem x ≡ mk d a b u cx
    raised-x = raised-mem x ∙ ground (arith, xy, moved-x)

    raised-u : (raised.mem x).up ≡ u
    raised-u = ap (λ n. n.up) raised-x ∙ up-mk d a b u cx

    replaced : Store
    replaced = replace_child nil x y raised

    replaced-x : replaced.mem x ≡ mk d a b u cx
    unfolding replaced
    replaced-x = replace_child-mem raised x raised-u ∙ ground (arith, ux, raised-x)

    replaced-y : replaced.mem y ≡ mk d b c u cy
    unfolding replaced
    replaced-y = replace_child-mem raised y raised-u ∙ ground (arith, uy, raised-mem y)

    rotated-mem :
        (q : ℕ)
        → (rotate d nil x s).mem q
          ≡ (if q == x then mk d a b y cx else if q == y then mk d x c u cy else replaced.mem q)
    unfolding replaced raised
    rotated-mem q =
        let raise : Node → Node = λ n. record n { up = y } in
        ap (λ r. r.mem q) rotate-parts
        ∙ put_on-mem replaced q xy
        ∙ ground (
          arith,
          ap raise replaced-x ∙ with_up-mk d a b u y cx,
          ap (with_child d x) replaced-y ∙ with_child-mk d b c u x cy,
        )

    pub rotate-mem :
        (q : ℕ)
        → ((u == b) && not (u == nil)) ≡ false
        → (rotate d nil x s).mem q ≡ (
            if q == x
            then mk d a b y cx
            else if q == y
            then mk d x c u cy
            else if (q == u) && not (u == nil)
            then (if x == (s.mem u).left
                then with_child left y (s.mem u)
                else with_child right y (s.mem u))
            else if (q == b) && not (b == nil)
            then record (s.mem b) { up = x }
            else s.mem q)
    unfolding replaced moved
    rotate-mem q ub =
        rotated-mem q
        ∙ ground (
          arith,
          replace_child-mem raised q raised-u,
          raised-mem q,
          raised-mem u,
          move_inner-mem s ex ey xy bx q,
          move_inner-mem s ex ey xy bx u,
          ub,
          ux,
          uy,
        )

    pub rotate-root : (rotate d nil x s).root ≡ (if u == nil then y else s.root)
    unfolding raised moved
    rotate-root =
        ap (λ r. r.root) rotate-parts
        ∙ put_on-root (replace_child nil x y raised)
        ∙ replace_child-root raised raised-u
        ∙ ap (λ r. if u == nil then y else r) (move_inner-root s)

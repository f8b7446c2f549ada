-- ===== src/RedBlack/Delete/Reads.antt =====
-- What the parts of a round of `rb_delete_fix`'s loop compute, by what they read.
use libappf.Base.{ℕ, ◌≡◌, false, true, refl}
use libappf.RedBlack.{
  Color, black, red, is_red, Side, left, right, opposite, child, Store, rotate, set_color,
}
use libappf.RedBlack.Memory.Shape.{mk}
use libappf.RedBlack.Delete.{black_sibling, red_nephew, finish}
use libappf.Base.{◌==◌, ◌||◌, if◌then◌else◌, suc, zero, ℕ, Bool, true, false, arith, refl, ◌≡◌}
use libappf.RedBlack.Delete.{fix_loop}

pub red-mk : (d : Side) (a b u : ℕ) (c : Color) → is_red (mk d a b u c).color ≡ is_red c
red-mk left a b u c = refl
red-mk right a b u c = refl

-- `black_sibling` at a red sibling, by what it reads.
pub black_sibling-reads :
    (d : Side) (nil x y p z : ℕ) (s s1 s2 s3 : Store)
    → child (opposite d) (s.mem (s.mem x).up) ≡ y
    → is_red (s.mem y).color ≡ true
    → s1 ≡ set_color y black s
    → (s1.mem x).up ≡ p
    → s2 ≡ set_color p red s1
    → (s2.mem x).up ≡ p
    → s3 ≡ rotate d nil p s2
    → child (opposite d) (s3.mem (s3.mem x).up) ≡ z
    → black_sibling d nil x s ≡ (z, s3)
unfolding black_sibling
black_sibling-reads d nil x y p z s s1 s2 s3 e c e1 u1 e2 u2 e3 f = cc

pub black_sibling-black :
    (d : Side) (nil x y : ℕ) (s : Store)
    → child (opposite d) (s.mem (s.mem x).up) ≡ y
    → is_red (s.mem y).color ≡ false
    → black_sibling d nil x s ≡ (y, s)
unfolding black_sibling
black_sibling-black d nil x y s e c = cc

pub red_nephew-far :
    (d : Side) (nil x y : ℕ) (s : Store)
    → is_red (s.mem (child (opposite d) (s.mem y))).color ≡ true
    → red_nephew d nil x y s ≡ (y, s)
unfolding red_nephew
red_nephew-far d nil x y s c = cc

pub red_nephew-reads :
    (d : Side) (nil x y z z' : ℕ) (s s1 s2 s3 : Store)
    → child d (s.mem y) ≡ z
    → is_red (s.mem (child (opposite d) (s.mem y))).color ≡ false
    → s1 ≡ set_color z black s
    → s2 ≡ set_color y red s1
    → s3 ≡ rotate (opposite d) nil y s2
    → child (opposite d) (s3.mem (s3.mem x).up) ≡ z'
    → red_nephew d nil x y s ≡ (z', s3)
unfolding red_nephew
red_nephew-reads d nil x y z z' s s1 s2 s3 e c e1 e2 e3 f = cc

pub finish-reads :
    (d : Side) (nil x y p f : ℕ) (cp : Color) (s s1 s2 s3 : Store)
    → (s.mem x).up ≡ p
    → (s.mem p).color ≡ cp
    → s1 ≡ set_color y cp s
    → (s1.mem x).up ≡ p
    → s2 ≡ set_color p black s1
    → child (opposite d) (s2.mem y) ≡ f
    → s3 ≡ set_color f black s2
    → (s3.mem x).up ≡ p
    → finish d nil x y s ≡ rotate d nil p s3
unfolding finish
finish-reads d nil x y p f cp s s1 s2 s3 u c e1 u1 e2 e e3 u3 = cc

-- The loop ends at the root, and at a red node.
pub fix_loop-root :
    (fuel nil x : ℕ) (s : Store) → (x == s.root) ≡ true → fix_loop fuel nil x s ≡ (x, s)
unfolding fix_loop
fix_loop-root zero nil x s e = refl
fix_loop-root (suc fuel) nil x s e = rw e refl

pub fix_loop-red :
    (fuel nil x : ℕ) (s : Store) → is_red (s.mem x).color ≡ true → fix_loop fuel nil x s ≡ (x, s)
unfolding fix_loop
fix_loop-red zero nil x s e = refl
fix_loop-red (suc fuel) nil x s e = ground (arith, e)

-- A round where both nephews are black, and one that is the last.
pub fix_loop-higher :
    (fuel nil x p y : ℕ) (d : Side) (s s1 : Store)
    → (x == s.root) ≡ false
    → is_red (s.mem x).color ≡ false
    → (if x == (s.mem (s.mem x).up).left then left else right) ≡ d
    → black_sibling d nil x s ≡ (y, s1)
    → is_red (s1.mem (child d (s1.mem y))).color ≡ false
    → is_red (s1.mem (child (opposite d) (s1.mem y))).color ≡ false
    → ((set_color y red s1).mem x).up ≡ p
    → fix_loop (suc fuel) nil x s ≡ fix_loop fuel nil p (set_color y red s1)
unfolding fix_loop
fix_loop-higher fuel nil x p y d s s1 r c e b n f u = simp (r, c, e, b, n, f, u)

pub fix_loop-done :
    (fuel nil x y z : ℕ) (d : Side) (b1 b2 : Bool) (s s1 s2 s3 : Store)
    → (x == s.root) ≡ false
    → is_red (s.mem x).color ≡ false
    → (if x == (s.mem (s.mem x).up).left then left else right) ≡ d
    → black_sibling d nil x s ≡ (y, s1)
    → is_red (s1.mem (child d (s1.mem y))).color ≡ b1
    → is_red (s1.mem (child (opposite d) (s1.mem y))).color ≡ b2
    → (b1 || b2) ≡ true
    → red_nephew d nil x y s1 ≡ (z, s2)
    → finish d nil x z s2 ≡ s3
    → fix_loop (suc fuel) nil x s ≡ fix_loop fuel nil s3.root s3
unfolding fix_loop
fix_loop-done fuel nil x y z d b1 b2 s s1 s2 s3 r c e b n f o q h = simp (r, c, e, b, n, f, o, q, h)

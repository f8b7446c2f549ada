-- ===== src/RedBlack/Insert/Attach.antt =====
-- The new node of `rb_traverse`, hung under the node at which the walk down ended.
use libappf.Base.{
  ℕ, arith, ◌≡◌, List, ◌∙◌, [], ◌+◌, ◌++◌, refl, ◌∷◌, ◌≤◌, ap, if◌then◌else◌, ◌==◌, false,
}
use libappf.RedBlack.{
  Color, red, Side, left, right, Store, Sign, negative, positive, attach, with_child,
}
use libappf.RedBlack.Memory.Shape.{
  Shape, leaf, node, mk, Frame, frame, Focus, addr, top, count, count_around, Is-elsewhere,
  Around-elsewhere,
}
use libappf.RedBlack.Memory.Rotation.{with_child-mk}
use libappf.RedBlack.Insert.Lookup.{before, after}
use libappf.RedBlack.Memory.Balance.{inorder}
use libappf.RedBlack.Insert.Cut.{AllHave, AllHave-right}

abbrev side_sign : Side → Sign
side_sign left = negative
side_sign right = positive

-- The node above the gap is less or greater, as the gap's side says.
sign-top :
    (sign : ℕ → Sign) (d : Side) (q : ℕ) (c : Color) (w : Shape) (k : List Frame)
    → AllHave positive sign (before (frame d q c w ∷ k))
    → AllHave negative sign (after (frame d q c w ∷ k))
    → sign q ≡ side_sign d
sign-top sign left q c w k p n = n.0
sign-top sign right q c w k p n =
    (AllHave-right sign positive (inorder w) (q ∷ [])
      (AllHave-right sign positive (before k) (inorder w ++ q ∷ []) p)).0

pub ne_count : (f : ℕ → ℕ) (q z : ℕ) → 1 ≤ f q → f z ≡ 0 → (q == z) ≡ false
ne_count f q z i e = ground (arith, i, e)

pub if-zero : (z q : ℕ) → (z == q) ≡ false → (if z == q then 1 else 0) + 0 ≡ 0
if-zero z q e = rw e refl

apart_new :
    (f : ℕ → ℕ) (z q : ℕ) → 0 + f q ≤ 1 → f z ≡ 0 → (if z == q then 1 else 0) + 0 + 0 + f q ≤ 1
apart_new f z q i e = ground (arith, i, e)

module _ (sign : ℕ → Sign) (nil z : ℕ) (s : Store) where
  top-mem :
      (q : ℕ)
      → (attach sign nil nil z s).mem q ≡ (if q == z then mk left nil nil nil red else s.mem q)
  unfolding attach
  top-mem q = ground arith

  top-root : (attach sign nil nil z s).root ≡ z
  unfolding attach
  top-root = ground arith

  under-mem :
      (d : Side) (y q : ℕ)
      → sign y ≡ side_sign d
      → (y == nil) ≡ false
      → (z == y) ≡ false
      → (attach sign nil y z s).mem q ≡ (
          if q == z
          then mk left nil nil y red
          else if q == y
          then with_child d z (s.mem y)
          else s.mem q)
  unfolding attach
  under-mem left y q e f g = ground (arith, e, f, g)
  under-mem right y q e f g = ground (arith, e, f, g)

  under-same :
      (d : Side) (y q : ℕ)
      → sign y ≡ side_sign d
      → (y == nil) ≡ false
      → (z == y) ≡ false
      → (q == z) ≡ false
      → (q == y) ≡ false
      → (attach sign nil y z s).mem q ≡ s.mem q
  under-same d y q e f g h i = under-mem d y q e f g ∙ ground (arith, h, i)

  under-root :
      (d : Side) (y : ℕ)
      → sign y ≡ side_sign d
      → (y == nil) ≡ false
      → (attach sign nil y z s).root ≡ s.root
  unfolding attach
  under-root left y e f = ground (arith, e, f)
  under-root right y e f = ground (arith, e, f)

  -- A new node at a leaf, red and without children.
  pub attach-Focus :
      (k : List Frame)
      → Focus nil s k leaf
      → AllHave positive sign (before k)
      → AllHave negative sign (after k)
      → count_around z k ≡ 0
      → (z == nil) ≡ false
      → Focus nil (attach sign nil (top nil k) z s) k (node leaf z red leaf)
  attach-Focus [] v p n new zn = record {
    here = (top-mem z ∙ ground arith, tt, tt);
    around = tt;
    root = top-root;
    apart = λ q. ground arith;
    no_nil = ground (arith, zn);
    nil_black = ap (λ n. n.color) (top-mem nil) ∙ ground (arith, zn, v.nil_black);
  }
  attach-Focus (frame d y c w ∷ k) v p n new zn =
      let e = sign-top sign d y c w k p n in
      let yn : (y == nil) ≡ false = ground (arith, v.no_nil) in
      let zy : (z == y) ≡ false = ground (arith, new) in
      let m = λ (q : ℕ). under-mem d y q e yn zy in
      record {
        here = (m z ∙ ground arith, tt, tt);
        around = (
          m y
              ∙ ground (arith, zy)
              ∙ ap (λ n. with_child d z n) v.around.0
              ∙ with_child-mk d nil (addr nil w) (top nil k) z c,
          Is-elsewhere nil s.mem _ y w
              (λ q i.
                under-same d y q e yn zy (ne_count (λ r. count r w) q z i (omega (arith, new)))
                  (ground (arith, v.apart q, i)))
              v.around.1,
          Around-elsewhere nil s.mem _ y k
              (λ q i.
                under-same d y q e yn zy
                  (ne_count (λ r. count_around r k) q z i (omega (arith, new)))
                  (ground (arith, v.apart q, i)))
              v.around.2,
        );
        root = under-root d y e yn ∙ v.root;
        apart = λ q. apart_new (λ r. count_around r (frame d y c w ∷ k)) z q (v.apart q) new;
        no_nil = omega (arith, v.no_nil, if-zero z nil zn);
        nil_black = ap (λ n. n.color) (m nil) ∙ ground (arith, zn, yn, v.nil_black);
      }

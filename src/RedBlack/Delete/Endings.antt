-- ===== src/RedBlack/Delete/Endings.antt =====
-- How `rb_delete_fix`'s loop ends.
use libappf.Base.{
  ℕ, arith, ◌≡◌, List, ap, ◌∙◌, false, true, [], refl, ◌∷◌, sym, subst, suc, Bool, ◌||◌,
}
use libappf.RedBlack.{Color, black, red, is_red, Side, left, right, Store, set_color}
use libappf.RedBlack.Memory.Shape.{Shape, leaf, node, make, Frame, frame, plug, addr, top, Focus}
use libappf.RedBlack.Memory.Recolor.{color_of, set_color-Focus, at-make}
use libappf.RedBlack.Memory.Balance.{
  inorder, IsBalanced, AroundIsBalanced, TopIsBlack, IsBalanced-black, IsBalanced-red,
  IsBalanced-plug, color-make, inorder-make, inorder-plug, inorder-rotate, plug-Focus, red-ne-black,
}
use libappf.RedBlack.Insert.Adding.{Holds, blacken}
use libappf.RedBlack.Delete.Nephew.{Seat, ended_store, ended-Focus, finish_lem}
use libappf.RedBlack.Delete.Reads.{red-mk, fix_loop-root, fix_loop-red}
use libappf.RedBlack.Delete.{finish, fix_loop}

-- What is around the parent, whose color is given.
abbrev pub Rest : Color → ℕ → List Frame → Type 0
Rest black n k = AroundIsBalanced (suc n) k
Rest red n k = TopIsBlack k × AroundIsBalanced n k

pub plug-color :
    (k : List Frame) (n : ℕ) (t : Shape)
    → color_of t ≡ black
    → AroundIsBalanced n k
    → color_of (plug k t) ≡ black
plug-color [] n t e h = e
plug-color (frame d q black s ∷ k) n t e h =
    plug-color k (suc n) (make d q black t s) (color-make d q black t s) h.1
plug-color (frame d q red s ∷ []) n t e h = absurd h.2
plug-color (frame d q red s ∷ frame d' q' red s' ∷ k) n t e h = absurd (red-ne-black h.2)
plug-color (frame d q red s ∷ frame d' q' black s' ∷ k) n t e h =
    plug-color k (suc n) (make d' q' black (make d q red t s) s')
      (color-make d' q' black (make d q red t s) s') h.3.1

pub data View (d : Side) (t : Shape) : Type 0 where
  is_black : color_of t ≡ black → View d t
  is_red_node : (q : ℕ) (a b : Shape) → t ≡ make d q red a b → View d t

pub view : (d : Side) (t : Shape) → View d t
view d leaf = is_black refl
view d (node l q black r) = is_black refl
view left (node l q red r) = is_red_node q l r refl
view right (node l q red r) = is_red_node q r l refl

pub Rest-plug :
    (cp : Color) (k : List Frame) (d : Side) (q n : ℕ) (a b : Shape)
    → Rest cp n k
    → IsBalanced n a
    → IsBalanced n b
    → color_of a ≡ black
    → color_of b ≡ black
    → (m : ℕ) × IsBalanced m (plug k (make d q cp a b))
Rest-plug black k d q n a b h ba bb ca cb =
    IsBalanced-plug k (suc n) (make d q black a b) (color-make d q black a b) h
      (IsBalanced-black d n q a b ba bb)
Rest-plug red [] d q n a b h ba bb ca cb = absurd h.0
Rest-plug red (frame d' q' red s' ∷ k) d q n a b h ba bb ca cb = absurd (red-ne-black h.0)
Rest-plug red (frame d' q' black s' ∷ k) d q n a b h ba bb ca cb =
    let t = make d q red a b in
    IsBalanced-plug k (suc n) (make d' q' black t s') (color-make d' q' black t s') h.1.1
      (IsBalanced-black d' n q' t s' (IsBalanced-red d n q a b ba bb ca cb) h.1.0)

blackened :
    (d : Side) (n f : ℕ) (f1 f2 : Shape)
    → IsBalanced n (make d f red f1 f2)
    → IsBalanced (suc n) (make d f black f1 f2)
blackened left n f f1 f2 b = (b.0, b.1)
blackened right n f f1 f2 b = (b.0, b.1)

pub children :
    (d : Side) (n q : ℕ) (a b : Shape)
    → IsBalanced n (make d q red a b)
    → IsBalanced n a × IsBalanced n b × (color_of a ≡ black) × (color_of b ≡ black)
children left n q a b h = h
children right n q a b h = (h.1, h.0, h.3, h.2)

pub or-true : (b : Bool) → (b || true) ≡ true
or-true true = refl
or-true false = refl

module _ (nil : ℕ) where
  -- The loop's result, when its last node is made black.
  abbrev pub IsFixed : ℕ × Store → List ℕ → Type 0
  IsFixed r xs = Holds nil (set_color r.0 black r.1) xs

  -- The whole tree is right up to the color of the root.
  pub Fixed-root :
      (fuel : ℕ) (k : List Frame) (t : Shape) (s : Store) {xs : List ℕ}
      → Focus nil s k t
      → (m : ℕ) × IsBalanced m (plug k t)
      → inorder (plug k t) ≡ xs
      → IsFixed (fix_loop fuel nil s.root s) xs
  Fixed-root fuel k t s {xs} v b e =
      subst (λ r. IsFixed r xs) (sym (fix_loop-root fuel nil s.root s (ground arith)))
        (blacken nil (plug k t) b.0 s (plug-Focus nil k t v) e b.1)

  -- A red node ends the loop.
  pub Fixed-red :
      (fuel : ℕ) (d : Side) (q n : ℕ) (a b : Shape) (k : List Frame) (s : Store) {xs : List ℕ}
      → Focus nil s k (make d q red a b)
      → IsBalanced n a
      → IsBalanced n b
      → AroundIsBalanced (suc n) k
      → inorder (plug k (make d q black a b)) ≡ xs
      → IsFixed (fix_loop fuel nil q s) xs
  Fixed-red fuel d q n a b k s {xs} v ba bb h e =
      let t = make d q black a b in
      let c : is_red (s.mem q).color ≡ true =
        ap (λ z. is_red z.color) (at-make nil d q red a b k v)
        ∙ red-mk d (addr nil a) (addr nil b) (top nil k) red in
      let r =
        IsBalanced-plug k (suc n) t (color-make d q black a b) h
          (IsBalanced-black d n q a b ba bb) in
      subst (λ r. IsFixed r xs) (sym (fix_loop-red fuel nil q s c))
        record {
          tree = plug k t;
          height = r.0;
          holds = plug-Focus nil k t (set_color-Focus nil d q red black a b k s v);
          order = e;
          balanced = r.1;
          black_root = plug-color k (suc n) t (color-make d q black a b) h;
        }

  -- The last rotation leaves a balanced tree.
  pub Fixed-ended :
      (fuel : ℕ) (d : Side) (p y f n : ℕ) (cp : Color) (t w1 f1 f2 : Shape) (k : List Frame)
      (s : Store) {xs : List ℕ}
      → Seat nil s (frame d p cp (make d y black w1 (make d f red f1 f2)) ∷ k) t
      → IsBalanced n t
      → IsBalanced n w1
      → IsBalanced n (make d f red f1 f2)
      → Rest cp (suc n) k
      → inorder (plug k (make d p cp t (make d y black w1 (make d f red f1 f2)))) ≡ xs
      → IsFixed
          (fix_loop fuel nil (finish d nil (addr nil t) y s).root (finish d nil (addr nil t) y s))
          xs
  Fixed-ended fuel d p y f n cp t w1 f1 f2 k s {xs} i bt b1 bf h e =
      let fb = make d f black f1 f2 in
      let a = make d p black t w1 in
      let new = make d y cp a fb in
      let fe = finish_lem nil d p y f cp t w1 f1 f2 k s i in
      let o : inorder (plug k new) ≡ xs =
        inorder-plug k new (make d p cp t (make d y black w1 (make d f red f1 f2))) (
          inorder-rotate d y p cp black cp black t w1 fb
          ∙ inorder-make d p cp cp t t (make d y black w1 fb)
              (make d y black w1 (make d f red f1 f2)) refl
              (inorder-make d y black black w1 w1 fb (make d f red f1 f2) refl
                (inorder-make d f black red f1 f1 f2 f2 refl refl)))
        ∙ e in
      let ba : IsBalanced (suc n) a = IsBalanced-black d n p t w1 bt b1 in
      let bb : IsBalanced (suc n) fb = blackened d n f f1 f2 bf in
      subst (λ z. IsFixed (fix_loop fuel nil z.root z) xs) (sym fe)
        (Fixed-root fuel k new (ended_store nil d p y f cp t w1 f1 f2 k s)
          (ended-Focus nil d p y f cp t w1 f1 f2 k s i)
          (Rest-plug cp k d y (suc n) a fb h ba bb (color-make d p black t w1)
            (color-make d f black f1 f2))
          o)

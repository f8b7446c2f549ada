-- ===== src/RedBlack/Memory/Balance.antt =====
-- The colors of a red-black tree: no red node has a red child, and every way down to a leaf meets
-- as many black nodes.
use libappf.Base.{ℕ, ◌≡◌, List, [], ◌++◌, refl, ◌∷◌, sym, suc, zero, append_assoc, subst, ◌≢◌}
use libappf.RedBlack.{Color, black, red, Side, left, right, Store, opposite}
use libappf.RedBlack.Memory.Shape.{Shape, leaf, node, make, Frame, frame, plug, Focus, unzoom}
use libappf.RedBlack.Memory.Recolor.{color_of}

-- The addresses in order.
abbrev pub inorder : Shape → List ℕ
inorder leaf = []
inorder (node l q c r) = inorder l ++ q ∷ inorder r

-- A tree of the given black height, its root of any color.
abbrev pub IsBalanced : ℕ → Shape → Type 0
IsBalanced n leaf = n ≡ 0
IsBalanced n (node l q red r) =
    IsBalanced n l × IsBalanced n r × (color_of l ≡ black) × (color_of r ≡ black)
IsBalanced zero (node l q black r) = ⊥
IsBalanced (suc n) (node l q black r) = IsBalanced n l × IsBalanced n r

abbrev pub TopIsBlack : List Frame → Type 0
TopIsBlack [] = ⊥
TopIsBlack (frame d q c s ∷ k) = c ≡ black

-- What is around a subtree of the given black height. The root of the tree is black.
abbrev pub AroundIsBalanced : ℕ → List Frame → Type 0
AroundIsBalanced n [] = Unit
AroundIsBalanced n (frame d q black s ∷ k) = IsBalanced n s × AroundIsBalanced (suc n) k
AroundIsBalanced n (frame d q red s ∷ k) =
    IsBalanced n s × (color_of s ≡ black) × TopIsBlack k × AroundIsBalanced n k

pub IsBalanced-black :
    (d : Side) (n q : ℕ) (a b : Shape)
    → IsBalanced n a
    → IsBalanced n b
    → IsBalanced (suc n) (make d q black a b)
IsBalanced-black left n q a b u v = (u, v)
IsBalanced-black right n q a b u v = (v, u)

pub IsBalanced-red :
    (d : Side) (n q : ℕ) (a b : Shape)
    → IsBalanced n a
    → IsBalanced n b
    → color_of a ≡ black
    → color_of b ≡ black
    → IsBalanced n (make d q red a b)
IsBalanced-red left n q a b u v e f = (u, v, e, f)
IsBalanced-red right n q a b u v e f = (v, u, f, e)

pub color-make : (d : Side) (q : ℕ) (c : Color) (a b : Shape) → color_of (make d q c a b) ≡ c
color-make left q c a b = refl
color-make right q c a b = refl

pub red-ne-black : red ≢ black
red-ne-black e = subst IsRed e tt
  where
    IsRed : Color → Type 0
    IsRed red = Unit
    IsRed black = ⊥

-- A tree with a black root fits everywhere.
pub IsBalanced-plug :
    (k : List Frame) (n : ℕ) (t : Shape)
    → color_of t ≡ black
    → AroundIsBalanced n k
    → IsBalanced n t
    → (m : ℕ) × IsBalanced m (plug k t)
IsBalanced-plug [] n t e a b = (n, b)
IsBalanced-plug (frame d q black s ∷ k) n t e a b =
    IsBalanced-plug k (suc n) (make d q black t s) (color-make d q black t s) a.1
      (IsBalanced-black d n q t s b a.0)
IsBalanced-plug (frame d q red s ∷ []) n t e a b = absurd a.2
IsBalanced-plug (frame d q red s ∷ frame d' q' red s' ∷ k) n t e a b = absurd (red-ne-black a.2)
IsBalanced-plug (frame d q red s ∷ frame d' q' black s' ∷ k) n t e a b =
    IsBalanced-plug k (suc n) (make d' q' black (make d q red t s) s')
      (color-make d' q' black (make d q red t s) s') a.3.1
      (IsBalanced-black d' n q' (make d q red t s) s' (IsBalanced-red d n q t s b a.0 e a.1) a.3.0)

pub inorder-make :
    (d : Side) (q : ℕ) (c c' : Color) (a a' b b' : Shape)
    → inorder a ≡ inorder a'
    → inorder b ≡ inorder b'
    → inorder (make d q c a b) ≡ inorder (make d q c' a' b')
inorder-make left q c c' a a' b b' e f = rw (e, f)
inorder-make right q c c' a a' b b' e f = rw (e, f)

pub inorder-plug :
    (k : List Frame) (t t' : Shape)
    → inorder t ≡ inorder t'
    → inorder (plug k t) ≡ inorder (plug k t')
inorder-plug [] t t' e = e
inorder-plug (frame d q c s ∷ k) t t' e =
    inorder-plug k (make d q c t s) (make d q c t' s) (inorder-make d q c c t t' s s e refl)

-- Rotations keep the order.
pub inorder-rotate :
    (d : Side) (x y : ℕ) (c1 c2 c3 c4 : Color) (a b w : Shape)
    → inorder (make d x c1 (make d y c2 a b) w) ≡ inorder (make d y c3 a (make d x c4 b w))
inorder-rotate left x y c1 c2 c3 c4 a b w = append_assoc (inorder a) (y ∷ inorder b) (x ∷ inorder w)
inorder-rotate right x y c1 c2 c3 c4 a b w =
    sym (append_assoc (inorder w) (x ∷ inorder b) (y ∷ inorder a))

pub inorder-rotate_inner :
    (d : Side) (p x : ℕ) (c1 c2 c3 c4 : Color) (a b w : Shape)
    → inorder (make (opposite d) p c1 (make d x c2 a b) w)
      ≡ inorder (make d x c3 (make d p c4 w a) b)
inorder-rotate_inner left p x c1 c2 c3 c4 a b w =
    sym (append_assoc (inorder w) (p ∷ inorder a) (x ∷ inorder b))
inorder-rotate_inner right p x c1 c2 c3 c4 a b w =
    append_assoc (inorder b) (x ∷ inorder a) (p ∷ inorder w)

pub plug-Focus :
    (nil : ℕ) (k : List Frame) (t : Shape) {s : Store} → Focus nil s k t → Focus nil s [] (plug k t)
plug-Focus nil [] t v = v
plug-Focus nil (frame d q c b ∷ k) t v =
    plug-Focus nil k (make d q c t b) (unzoom nil d q c t b k v)

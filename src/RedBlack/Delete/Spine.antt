-- ===== src/RedBlack/Delete/Spine.antt =====
-- The way down on the left, and the successor.
use libappf.Base.{
  ℕ, arith, ◌≡◌, List, ap, ◌∙◌, false, [], refl, ◌∷◌, suc, zero, ◌==◌, ◌≤◌, ◌+◌, ◌++◌, length,
  length-append,
}
use libappf.RedBlack.{Color, black, red, Side, left, right, Store}
use libappf.RedBlack.Memory.Shape.{
  Shape, leaf, node, make, Frame, frame, Focus, plug, count, count_around, zoom, unzoom,
}
use libappf.RedBlack.Memory.Parts.{count-make}
use libappf.RedBlack.Memory.Balance.{inorder, AroundIsBalanced, TopIsBlack}
use libappf.RedBlack.Insert.Lookup.{Fits, Fits-left}
use libappf.RedBlack.Delete.{leftmost}

abbrev pub AllLeft : List Frame → Type 0
AllLeft [] = Unit
AllLeft (frame left q c s ∷ k) = AllLeft k
AllLeft (frame right q c s ∷ k) = ⊥

pub plug-append : (ks k : List Frame) (t : Shape) → plug (ks ++ k) t ≡ plug k (plug ks t)
plug-append [] k t = refl
plug-append (frame d q c s ∷ ks) k t = plug-append ks k (make d q c t s)

AllLeft-append :
    (ks : List Frame) (q : ℕ) (c : Color) (r : Shape)
    → AllLeft ks
    → AllLeft (ks ++ frame left q c r ∷ [])
AllLeft-append [] q c r h = tt
AllLeft-append (frame left q' c' s ∷ ks) q c r h = AllLeft-append ks q c r h
AllLeft-append (frame right q' c' s ∷ ks) q c r h = absurd h

-- The first node of a tree, and the way to it.
pub record Spine (t : Shape) : Type 0 where
  pub way : List Frame
  pub first : ℕ
  pub color : Color
  pub upper : Shape
  pub is : plug way (node leaf first color upper) ≡ t
  pub lefts : AllLeft way

pub spine : (l : Shape) (q : ℕ) (c : Color) (r : Shape) → Spine (node l q c r)
spine leaf q c r = record { way = []; first = q; color = c; upper = r; is = refl; lefts = tt }
spine (node l p c' m) q c r =
    let s = spine l p c' m in
    record {
      way = s.way ++ frame left q c r ∷ [];
      first = s.first;
      color = s.color;
      upper = s.upper;
      is =
          plug-append s.way (frame left q c r ∷ []) (node leaf s.first s.color s.upper)
          ∙ ap (λ t. node t q c r) s.is;
      lefts = AllLeft-append s.way q c r s.lefts;
    }

pub inorder-spine :
    (ks : List Frame) (y : ℕ) (c : Color) (b : Shape)
    → AllLeft ks
    → (w : Shape) → inorder w ≡ y ∷ inorder b
    → inorder (plug ks w) ≡ y ∷ inorder (plug ks b)
inorder-spine [] y c b h w e = e
inorder-spine (frame left q c' s ∷ ks) y c b h w e =
    inorder-spine ks y c (node b q c' s) h (node w q c' s) (ap (λ z. z ++ q ∷ inorder s) e)
inorder-spine (frame right q c' s ∷ ks) y c b h w e = absurd h

pub length-spine :
    (ks : List Frame) (t : Shape) → length ks + length (inorder t) ≤ length (inorder (plug ks t))
length-spine [] t = omega arith
length-spine (frame d q c s ∷ ks) t =
    omega (arith, length-spine ks (make d q c t s), longer d q c t s)
  where
    longer :
        (d : Side) (q : ℕ) (c : Color) (t s : Shape)
        → length (inorder t) + 1 ≤ length (inorder (make d q c t s))
    longer left q c t s = omega (arith, length-append (inorder t) (q ∷ inorder s))
    longer right q c t s = omega (arith, length-append (inorder s) (q ∷ inorder t))

pub count-way :
    (p : ℕ) (ks k : List Frame) (t : Shape)
    → count p (plug ks t) + count_around p k ≡ count p t + count_around p (ks ++ k)
count-way p [] k t = refl
count-way p (frame d q c s ∷ ks) k t =
    omega (arith, count-way p ks k (make d q c t s), count-make p d q c t s)

pub Fits-way : (ks k : List Frame) (t : Shape) → AllLeft ks → Fits k (plug ks t) → Fits (ks ++ k) t
Fits-way [] k t h f = f
Fits-way (frame left q c s ∷ ks) k t h f =
    (Fits-left t q c s (ks ++ k) (Fits-way ks k (node t q c s) h f)).0
Fits-way (frame right q c s ∷ ks) k t h f = absurd h

-- Colors and heights do not depend on the addresses.
pub AroundIsBalanced-readdress :
    (ks k : List Frame) (d : Side) (z y : ℕ) (c : Color) (l : Shape) (n : ℕ)
    → AroundIsBalanced n (ks ++ frame d z c l ∷ k)
    → AroundIsBalanced n (ks ++ frame d y c l ∷ k)
AroundIsBalanced-readdress [] k d z y black l n h = h
AroundIsBalanced-readdress [] k d z y red l n h = h
AroundIsBalanced-readdress (frame d' q black s ∷ ks) k d z y c l n h =
    (h.0, AroundIsBalanced-readdress ks k d z y c l (suc n) h.1)
AroundIsBalanced-readdress (frame d' q red s ∷ ks) k d z y c l n h =
    (h.0, h.1, top_color ks h.2, AroundIsBalanced-readdress ks k d z y c l n h.3)
  where
    top_color :
        (ks : List Frame)
        → TopIsBlack (ks ++ frame d z c l ∷ k)
        → TopIsBlack (ks ++ frame d y c l ∷ k)
    top_color [] e = e
    top_color (frame d q c s ∷ ks) e = e

module _ (nil : ℕ) where
  pub unzoom-way :
      (ks k : List Frame) (t : Shape) {s : Store}
      → Focus nil s (ks ++ k) t
      → Focus nil s k (plug ks t)
  unzoom-way [] k t v = v
  unzoom-way (frame d q c w ∷ ks) k t v =
      unzoom-way ks k (make d q c t w) (unzoom nil d q c t w (ks ++ k) v)

  pub zoom-way :
      (ks k : List Frame) (t : Shape) {s : Store}
      → Focus nil s k (plug ks t)
      → Focus nil s (ks ++ k) t
  zoom-way [] k t v = v
  zoom-way (frame d q c w ∷ ks) k t v =
      zoom nil d q c t w (ks ++ k) (zoom-way ks k (make d q c t w) v)

  pub leftmost-spine :
      (fuel : ℕ) (l : Shape) (q : ℕ) (c : Color) (r : Shape) (k : List Frame) (s : Store)
      → Focus nil s k (node l q c r)
      → length (inorder l) ≤ fuel
      → leftmost fuel nil q s.mem ≡ (spine l q c r).first
  unfolding leftmost spine
  leftmost-spine zero leaf q c r k s v le = refl
  leftmost-spine (suc fuel) leaf q c r k s v le = ground (arith, v.here.0)
  leftmost-spine zero (node l p c' m) q c r k s v le =
      absurd (omega (arith, length-append (inorder l) (p ∷ inorder m)))
  leftmost-spine (suc fuel) (node l p c' m) q c r k s v le =
      let e : (s.mem q).left ≡ p = ap (λ n. n.left) v.here.0 in
      let f : (p == nil) ≡ false = ground (arith, v.no_nil) in
      let h =
        leftmost-spine fuel l p c' m (frame left q c r ∷ k) s
          (zoom nil left q c (node l p c' m) r k v)
          (omega (arith, length-append (inorder l) (p ∷ inorder m))) in
      rw (e, f) h

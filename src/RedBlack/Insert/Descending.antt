-- ===== src/RedBlack/Insert/Descending.antt =====
-- The walk down of `rb_traverse`.
use libappf.Base.{
  ℕ, arith, ◌≡◌, List, ◌∙◌, [], ◌+◌, ◌++◌, refl, ◌∷◌, ◌≤◌, ◌<◌, sym, suc, zero, append_assoc, ap,
  none, some, ◌==◌, length, length-append, ◌≢◌, true, false, subst,
}
use libappf.RedBlack.{
  left, right, Store, Node, Sign, negative, positive, zero', Descent, descend, Color,
}
use libappf.RedBlack.Memory.Shape.{Shape, leaf, node, Frame, frame, Focus, addr, top, zoom}
use libappf.RedBlack.Memory.Balance.{inorder, AroundIsBalanced}
use libappf.RedBlack.Insert.Cut.{
  find, AllHave, IsCut, IsCut-left, IsCut-right, IsCut-negative, IsCut-positive, AllHave-append,
  find-cut, find-at,
}
use libappf.RedBlack.Insert.Lookup.{before, after, Fits, Fits-left}

other : {a b c : Sign} → a ≡ b → b ≢ c → a ≢ c
other e f g = f (sym e ∙ g)

pub data SignCase (c : Sign) : Type 0 where
  is_negative : c ≡ negative → SignCase c
  is_positive : c ≡ positive → SignCase c
  is_zero : c ≡ zero' → SignCase c

pub Sign-cases : (c : Sign) → SignCase c
Sign-cases negative = is_negative refl
Sign-cases positive = is_positive refl
Sign-cases zero' = is_zero refl

module _ (sign : ℕ → Sign) (nil : ℕ) where
  -- The walk ended at a leaf: the place of a new node.
  pub record Gap (s : Store) (xs : List ℕ) (fuel : ℕ) (d : Descent) : Type 0 where
    pub way : List Frame
    pub holds : Focus nil s way leaf
    pub order : before way ++ after way ≡ xs
    pub less : AllHave positive sign (before way)
    pub greater : AllHave negative sign (after way)
    pub balanced : AroundIsBalanced 0 way
    pub short : length way ≤ fuel
    pub ends : d ≡ record { parent = top nil way; node = nil; found = false }

  -- The node at which the walk ended, inside the tree.
  pub record Spot (s : Store) (xs : List ℕ) (q : ℕ) : Type 0 where
    pub way : List Frame
    pub lower : Shape
    pub color : Color
    pub upper : Shape
    pub holds : Focus nil s way (node lower q color upper)
    pub order : before way ++ ((inorder lower ++ q ∷ inorder upper) ++ after way) ≡ xs
    pub fits : Fits way (node lower q color upper)
    pub equal : sign q ≡ zero'

  pub data Ended (s : Store) (xs : List ℕ) (fuel : ℕ) (d : Descent) : Type 0 where
    at_node :
        (q : ℕ)
        → find sign xs ≡ some q
        → Spot s xs q
        → d ≡ record { parent = q; node = q; found = true }
        → Ended s xs fuel d
    at_gap : find sign xs ≡ none → Gap s xs fuel d → Ended s xs fuel d

  descend-leaf :
      (fuel p : ℕ) (m : ℕ → Node)
      → descend (suc fuel) sign nil p nil m ≡ record { parent = p; node = nil; found = false }
  unfolding descend
  descend-leaf fuel p m = ground arith

  descend-sign :
      (fuel p q : ℕ) (m : ℕ → Node) (c : Sign)
      → (q == nil) ≡ false
      → sign q ≡ c
      → descend (suc fuel) sign nil p q m ≡ elim c as (λ c. Descent) [
        | negative ↦ descend fuel sign nil q (m q).left m
        | positive ↦ descend fuel sign nil q (m q).right m
        | zero' ↦ record { parent = q; node = q; found = true }
      ]
  unfolding descend
  descend-sign fuel p q m c e f = rw (e, f) refl

  move :
      {xs ys : List ℕ} {fuel : ℕ} {d d' : Descent} {s : Store}
      → Ended s xs fuel d
      → xs ≡ ys
      → d' ≡ d
      → Ended s ys fuel d'
  move {ys} {fuel} {d} {d'} {s} h e f =
      subst (λ z. Ended s ys fuel z) (sym f) (subst (λ z. Ended s z fuel d) e h)

  -- On fuel for every node below, the walk down ends at the first node that compares equal, or at
  -- the place where a new node belongs.
  pub descend-Ended :
      (fuel bound : ℕ) (k : List Frame) (t : Shape) (s : Store)
      → Focus nil s k t
      → Fits k t
      → AllHave positive sign (before k)
      → AllHave negative sign (after k)
      → IsCut sign (inorder t)
      → length (inorder t) < fuel
      → length k + length (inorder t) ≤ bound
      → Ended s
          (before k ++ (inorder t ++ after k))
          bound
          (descend fuel sign nil (top nil k) (addr nil t) s.mem)
  descend-Ended zero bound k t s v f p n c le lb = absurd (omega arith)
  descend-Ended (suc fuel) bound k leaf s v f p n c le lb =
      at_gap (find-cut sign (before k) (after k) p n) record {
        way = k;
        holds = v;
        order = refl;
        less = p;
        greater = n;
        balanced = subst (λ h. AroundIsBalanced h k) f.balanced f.around;
        short = omega arith;
        ends = descend-leaf fuel (top nil k) s.mem;
      }
  descend-Ended (suc fuel) bound k (node l q c' r) s v f p n c le lb =
      let nl = length-append (inorder l) (q ∷ inorder r) in
      let qn : (q == nil) ≡ false = ground (arith, v.no_nil) in
      let el : (s.mem q).left ≡ addr nil l = ap (λ z. z.left) v.here.0 in
      let er : (s.mem q).right ≡ addr nil r = ap (λ z. z.right) v.here.0 in
      let fs = Fits-left l q c' r k f in
      elim (Sign-cases (sign q))
        as (λ z.
          Ended s (before k ++ ((inorder l ++ q ∷ inorder r) ++ after k)) bound
            (descend (suc fuel) sign nil (top nil k) q s.mem)) [
              | is_negative e ↦
                  move
                    (descend-Ended fuel bound (frame left q c' r ∷ k) l s
                      (zoom nil left q c' l r k v) fs.0 p
                      (
                        e,
                        AllHave-append sign negative (inorder r) (after k)
                            (IsCut-negative sign (inorder l) q (inorder r) e c) n,
                      )
                      (IsCut-left sign (inorder l) (q ∷ inorder r) c) (omega (arith, nl))
                      (omega (arith, nl)))
                    (simp (append_assoc))
                    (descend-sign fuel (top nil k) q s.mem negative qn e
                      ∙ ap (λ z. descend fuel sign nil q z s.mem) el)
              | is_positive e ↦
                  move
                    (descend-Ended fuel bound (frame right q c' l ∷ k) r s
                      (zoom nil right q c' r l k v) fs.1
                      (AllHave-append sign positive (before k) (inorder l ++ q ∷ []) p (
                        AllHave-append sign positive (inorder l) (q ∷ [])
                          (IsCut-positive sign (inorder l) q (inorder r) (other e (λ h. cc)) c)
                          (e, tt)))
                      n (IsCut-right sign (inorder l) (q ∷ inorder r) c).1 (omega (arith, nl))
                      (omega (arith, nl)))
                    (simp (append_assoc))
                    (descend-sign fuel (top nil k) q s.mem positive qn e
                      ∙ ap (λ z. descend fuel sign nil q z s.mem) er)
              | is_zero e ↦
                  at_node q
                    (ap (λ z. find sign (before k ++ z))
                        (append_assoc (inorder l) (q ∷ inorder r) (after k))
                      ∙ ap (λ z. find sign z)
                          (sym (append_assoc (before k) (inorder l) (q ∷ (inorder r ++ after k))))
                      ∙ find-at sign (before k ++ inorder l) (inorder r ++ after k) q
                          (AllHave-append sign positive (before k) (inorder l) p
                            (IsCut-positive sign (inorder l) q (inorder r) (other e (λ h. cc)) c))
                          e)
                    record {
                      way = k;
                      lower = l;
                      color = c';
                      upper = r;
                      holds = v;
                      order = refl;
                      fits = f;
                      equal = e;
                    }
                    (descend-sign fuel (top nil k) q s.mem zero' qn e)
            ]

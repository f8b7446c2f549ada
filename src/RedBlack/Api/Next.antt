-- ===== src/RedBlack/Api/Next.antt =====
-- `__rb_tree_get_next` and `__rb_tree_get_first`, on the sorted list of the elements.
use libappf.Base.{
  ℕ, arith, ◌≡◌, List, ◌∙◌, [], ◌++◌, refl, ◌∷◌, ◌<◌, sym, ap, if◌then◌else◌, ◌==◌, length,
  append_assoc, true, false, subst, Option, none, some, Bool, ◌≢◌,
}
use libappf.RedBlack.{Sign, negative, positive, zero', Store, Descent, left, right}
use libappf.RedBlack.Memory.Shape.{leaf, node, Frame, frame, Focus, top, unzoom}
use libappf.RedBlack.Memory.Balance.{inorder}
use libappf.RedBlack.Insert.Lookup.{before, after, inorder-around}
use libappf.RedBlack.Delete.Spine.{length-spine}
use libappf.RedBlack.Insert.Cut.{
  MayFollow, IsCut, AllHave, AllHave-right, IsCut-right, IsCut-positive,
}
use libappf.RedBlack.Insert.Descending.{Spot, Gap}
use libappf.RedBlack.Delete.Successor.{head_or, successor_lem}
use libappf.RedBlack.Delete.{successor}
use libappf.RedBlack.Api.{is_positive}

abbrev pub pick : Sign → ℕ → Option ℕ → Option ℕ
pick negative x later = some x
pick positive x later = later
pick zero' x later = later

-- The first node that is greater.
abbrev pub next_greater : (ℕ → Sign) → List ℕ → Option ℕ
next_greater sign [] = none
next_greater sign (x ∷ xs) = pick (sign x) x (next_greater sign xs)

abbrev pub or_nil : ℕ → Option ℕ → ℕ
or_nil nil none = nil
or_nil nil (some q) = q

next_greater-skip :
    (sign : ℕ → Sign) (nil : ℕ) (xs ys : List ℕ)
    → AllHave positive sign xs
    → next_greater sign (xs ++ ys) ≡ next_greater sign ys
next_greater-skip sign nil [] ys h = refl
next_greater-skip sign nil (x ∷ xs) ys h = rw h.0 (next_greater-skip sign nil xs ys h.1)

next_greater-head :
    (sign : ℕ → Sign) (nil : ℕ) (xs : List ℕ)
    → AllHave negative sign xs
    → or_nil nil (next_greater sign xs) ≡ head_or nil xs
next_greater-head sign nil [] h = refl
next_greater-head sign nil (x ∷ xs) h = ap (λ c. or_nil nil (pick c x (next_greater sign xs))) h.0

root-leaf : {r nil : ℕ} → r ≡ nil → (r == nil) ≢ false
root-leaf e f = absurd (true-ne-false (sym (ground (arith, e)) ∙ f))
  where
    true-ne-false : true ≢ false
    true-ne-false g = cc

-- What follows the node that was found, or the gap.
module _ (fuel : ℕ) (sign : ℕ → Sign) (nil : ℕ) (s : Store) {xs : List ℕ} (cut' : IsCut sign xs)
    (small : length xs < fuel) where
  pub after-Spot :
      (q : ℕ)
      → Spot sign nil s xs q
      → successor fuel nil q s.mem ≡ or_nil nil (next_greater sign xs)
  after-Spot q i =
      let bs = before i.way in
      let ls = inorder i.lower in
      let us = inorder i.upper in
      let as' = after i.way in
      let o : (bs ++ ls) ++ q ∷ (us ++ as') ≡ xs =
        append_assoc bs ls (q ∷ (us ++ as'))
        ∙ ap (λ z. bs ++ z) (sym (append_assoc ls (q ∷ us) as'))
        ∙ i.order in
      let c' : IsCut sign ((bs ++ ls) ++ q ∷ (us ++ as')) =
        subst (λ z. IsCut sign z) (sym o) cut' in
      let p =
        IsCut-positive sign (bs ++ ls) q (us ++ as') (λ n. zero-ne-negative (sym i.equal ∙ n)) c' in
      let g : AllHave negative sign (us ++ as') =
        subst (λ z. MayFollow z sign (us ++ as')) i.equal
          (IsCut-right sign (bs ++ ls) (q ∷ (us ++ as')) c').0 in
      let n1 = length-spine i.way (node i.lower q i.color i.upper) in
      let n2 = ap length (inorder-around i.way (node i.lower q i.color i.upper) ∙ i.order) in
      successor_lem nil fuel i.way i.lower q i.color i.upper s i.holds (omega (arith, n1, n2))
      ∙ sym (next_greater-head sign nil (us ++ as') g)
      ∙ ap (or_nil nil) (
          sym (ap (λ c. pick c q (next_greater sign (us ++ as'))) i.equal)
          ∙ sym (next_greater-skip sign nil (bs ++ ls) (q ∷ (us ++ as')) p)
          ∙ ap (next_greater sign) o)
    where
      zero-ne-negative : zero' ≢ negative
      zero-ne-negative e = cc

  -- The node above a gap, or its successor where it is less.
  pub after-Gap :
      (d : Descent) (g : Gap sign nil s xs fuel d)
      → (s.root == nil) ≡ false
      → (b : Bool) → b ≡ is_positive (sign (top nil g.way))
      → (if b then successor fuel nil (top nil g.way) s.mem else top nil g.way)
        ≡ or_nil nil (next_greater sign xs)
  after-Gap d g r b e = ends g.way g.holds g.less g.greater g.order b e
    where
      spread :
          (k : List Frame)
          → AllHave positive sign (before k)
          → AllHave negative sign (after k)
          → before k ++ after k ≡ xs
          → head_or nil (after k) ≡ or_nil nil (next_greater sign xs)
      spread k p n o =
          sym (next_greater-head sign nil (after k) n)
          ∙ ap (or_nil nil)
              (sym (next_greater-skip sign nil (before k) (after k) p) ∙ ap (next_greater sign) o)

      ends :
          (k : List Frame)
          → Focus nil s k leaf
          → AllHave positive sign (before k)
          → AllHave negative sign (after k)
          → before k ++ after k ≡ xs
          → (b : Bool) → b ≡ is_positive (sign (top nil k))
          → (if b then successor fuel nil (top nil k) s.mem else top nil k)
            ≡ or_nil nil (next_greater sign xs)
      ends [] v p n o b e = absurd (root-leaf v.root r)
      ends (frame left y c w ∷ k) v p n o b e = rw (e, n.0) (spread (frame left y c w ∷ k) p n o)
      ends (frame right y c w ∷ k) v p n o b e =
          let m : sign y ≡ positive =
            (AllHave-right sign positive (inorder w) (y ∷ [])
              (AllHave-right sign positive (before k) (inorder w ++ y ∷ []) p)).0 in
          let n1 = length-spine (frame right y c w ∷ k) leaf in
          let n2 = ap length (inorder-around (frame right y c w ∷ k) leaf ∙ o) in
          let n3 = length-spine k (node w y c leaf) in
          rw (e, m)
            (successor_lem nil fuel k w y c leaf s (unzoom nil right y c leaf w k v)
                (omega (arith, n1, n2, n3))
              ∙ spread (frame right y c w ∷ k) p n o)

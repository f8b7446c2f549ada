-- ===== src/RedBlack/Api/Visits.antt =====
-- The walks, as visits of the nodes one after the other.
use libappf.Base.{
  ℕ, arith, ◌≡◌, List, ap, ◌∙◌, false, true, [], refl, ◌∷◌, sym, suc, zero, ◌==◌, ◌<◌, ◌+◌, ◌++◌,
  length, length-append, ◌&&◌, if◌then◌else◌,
}
use mathlib.Core.Path.{fun_ext}
use libappf.RedBlack.{Node}
use libappf.RedBlack.Memory.Shape.{Shape, leaf, node, addr, Is, count}
use libappf.RedBlack.Memory.Balance.{inorder}
use libappf.RedBlack.Walk.{Walk, and_then, walk_inorder}

-- The nodes in order, with their levels.
abbrev pub with_levels : ℕ → Shape → List (ℕ × ℕ)
with_levels level leaf = []
with_levels level (node l q c r) =
    with_levels (level + 1) l ++ (q, level) ∷ with_levels (level + 1) r

abbrev pub nodes_of : List (ℕ × ℕ) → List ℕ
nodes_of [] = []
nodes_of (x ∷ xs) = x.0 ∷ nodes_of xs

nodes_of-append : (xs ys : List (ℕ × ℕ)) → nodes_of (xs ++ ys) ≡ nodes_of xs ++ nodes_of ys
nodes_of-append [] ys = refl
nodes_of-append (x ∷ xs) ys = ap (λ z. x.0 ∷ z) (nodes_of-append xs ys)

pub nodes_of-with_levels : (level : ℕ) (t : Shape) → nodes_of (with_levels level t) ≡ inorder t
nodes_of-with_levels level leaf = refl
nodes_of-with_levels level (node l q c r) =
    nodes_of-append (with_levels (level + 1) l) ((q, level) ∷ with_levels (level + 1) r)
    ∙ ap (λ z. z ++ q ∷ nodes_of (with_levels (level + 1) r)) (nodes_of-with_levels (level + 1) l)
    ∙ ap (λ z. inorder l ++ q ∷ z) (nodes_of-with_levels (level + 1) r)

module _ {S : Type 0} (act : ℕ → (level : ℕ) → S → Walk S) where
  -- The callback on one node after the other, until it says to stop.
  abbrev pub visit_all : List (ℕ × ℕ) → S → Walk S
  visit_all [] s = (true, s)
  visit_all (x ∷ xs) s = and_then (act x.0 x.1 s) (visit_all xs)

  and_then_assoc :
      (w : Walk S) (f g : S → Walk S)
      → and_then (and_then w f) g ≡ and_then w (λ s. and_then (f s) g)
  and_then_assoc (true, s) f g = refl
  and_then_assoc (false, s) f g = refl

  and_then_end : (w : Walk S) → and_then w (λ s. (true, s)) ≡ w
  and_then_end (true, s) = refl
  and_then_end (false, s) = refl

  visit_all-append :
      (xs ys : List (ℕ × ℕ)) (s : S)
      → visit_all (xs ++ ys) s ≡ and_then (visit_all xs s) (visit_all ys)
  visit_all-append [] ys s = refl
  visit_all-append (x ∷ xs) ys s =
      ap (and_then (act x.0 x.1 s)) (fun_ext (λ a. visit_all-append xs ys a))
      ∙ sym (and_then_assoc (act x.0 x.1 s) (visit_all xs) (visit_all ys))

  walk_step :
      (fuel nil q level al ar : ℕ) (mem : ℕ → Node) (s : S)
      → (q == nil) ≡ false
      → (mem q).left ≡ al
      → (mem q).right ≡ ar
      → walk_inorder act (suc fuel) nil q level mem s ≡ (
          if (al == nil) && (ar == nil)
          then act q level s
          else and_then
              (walk_inorder act fuel nil al (level + 1) mem s)
              (λ a. and_then (act q level a) (walk_inorder act fuel nil ar (level + 1) mem)))
  unfolding walk_inorder
  walk_step fuel nil q level al ar mem s e f g = rw (e, f, g) refl

  -- The three parts of a visit, one after the other.
  visit_node :
      (w1 w2 : S → Walk S) (xs ys : List (ℕ × ℕ)) (q level : ℕ) (s : S)
      → ((a : S) → w1 a ≡ visit_all xs a)
      → ((a : S) → w2 a ≡ visit_all ys a)
      → and_then (w1 s) (λ a. and_then (act q level a) w2) ≡ visit_all (xs ++ (q, level) ∷ ys) s
  visit_node w1 w2 xs ys q level s e f =
      ap (λ w. and_then w (λ a. and_then (act q level a) w2)) (e s)
      ∙ ap (λ (g : S → Walk S). and_then (visit_all xs s) (λ a. and_then (act q level a) g))
          (fun_ext f)
      ∙ sym (visit_all-append xs ((q, level) ∷ ys) s)

  -- Where the memory holds a tree, on more fuel than it has nodes: the walk in order calls the
  -- callback on the tree's nodes in order, each with its level, until the callback says to stop.
  pub walk_inorder_lem :
      (fuel nil up level : ℕ) (t : Shape) (mem : ℕ → Node) (s : S)
      → Is nil mem up t
      → count nil t ≡ 0
      → length (inorder t) < fuel
      → walk_inorder act fuel nil (addr nil t) level mem s ≡ visit_all (with_levels level t) s
  unfolding walk_inorder
  walk_inorder_lem zero nil up level t mem s v n le = absurd (omega arith)
  walk_inorder_lem (suc fuel) nil up level leaf mem s v n le = ground arith
  walk_inorder_lem (suc fuel) nil up level (node leaf q c leaf) mem s v n le =
      let nn : (nil == nil) ≡ true = ground arith in
      walk_step fuel nil q level nil nil mem s (ground (arith, n)) (ap (λ z. z.left) v.0)
        (ap (λ z. z.right) v.0)
      ∙ ap
          (λ b.
            if b && b
            then act q level s
            else and_then (walk_inorder act fuel nil nil (level + 1) mem s)
                (λ a. and_then (act q level a) (walk_inorder act fuel nil nil (level + 1) mem)))
          nn
      ∙ sym (and_then_end (act q level s))
  walk_inorder_lem (suc fuel) nil up level (node (node l1 p c' l2) q c r) mem s v n le =
      let l = node l1 p c' l2 in
      let nl = length-append (inorder l) (q ∷ inorder r) in
      let pn : (p == nil) ≡ false = ground (arith, n) in
      walk_step fuel nil q level p (addr nil r) mem s (ground (arith, n)) (ap (λ z. z.left) v.0)
        (ap (λ z. z.right) v.0)
      ∙ ap
          (λ b.
            if b && (addr nil r == nil)
            then act q level s
            else and_then (walk_inorder act fuel nil p (level + 1) mem s) (λ a.
              and_then (act q level a) (walk_inorder act fuel nil (addr nil r) (level + 1) mem)))
          pn
      ∙ visit_node (walk_inorder act fuel nil p (level + 1) mem)
          (walk_inorder act fuel nil (addr nil r) (level + 1) mem) (with_levels (level + 1) l)
          (with_levels (level + 1) r) q level s
          (λ a.
            walk_inorder_lem fuel nil q (level + 1) l mem a v.1 (omega (arith, n))
              (omega (arith, nl)))
          (λ a.
            walk_inorder_lem fuel nil q (level + 1) r mem a v.2 (omega (arith, n))
              (omega (arith, nl)))
  walk_inorder_lem (suc fuel) nil up level (node leaf q c (node r1 p c' r2)) mem s v n le =
      let r = node r1 p c' r2 in
      let pn : (p == nil) ≡ false = ground (arith, n) in
      let nn : (nil == nil) ≡ true = ground arith in
      walk_step fuel nil q level nil p mem s (ground (arith, n)) (ap (λ z. z.left) v.0)
        (ap (λ z. z.right) v.0)
      ∙ ap
          (λ b.
            if b && (p == nil)
            then act q level s
            else and_then (walk_inorder act fuel nil nil (level + 1) mem s)
                (λ a. and_then (act q level a) (walk_inorder act fuel nil p (level + 1) mem)))
          nn
      ∙ ap
          (λ b.
            if b
            then act q level s
            else and_then (walk_inorder act fuel nil nil (level + 1) mem s)
                (λ a. and_then (act q level a) (walk_inorder act fuel nil p (level + 1) mem)))
          pn
      ∙ visit_node (walk_inorder act fuel nil nil (level + 1) mem)
          (walk_inorder act fuel nil p (level + 1) mem) [] (with_levels (level + 1) r) q level s
          (λ a. walk_inorder_lem fuel nil q (level + 1) leaf mem a tt refl (omega arith))
          (λ a.
            walk_inorder_lem fuel nil q (level + 1) r mem a v.2 (omega (arith, n)) (omega arith))

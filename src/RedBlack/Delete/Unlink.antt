-- ===== src/RedBlack/Delete/Unlink.antt =====
-- What `rb_delete` writes where a node with at most one child is taken out.
use libappf.Base.{
  ℕ, arith, ◌≡◌, if◌then◌else◌, List, ap, ◌∙◌, false, [], refl, ◌∷◌, subst, ◌==◌, ◌≤◌, ◌+◌, ◌&&◌,
  not, inl, inr, Bool-cases,
}
use libappf.RedBlack.{Color, black, Side, left, right, Store, with_child, set_up, replace_child}
use libappf.RedBlack.Memory.Shape.{
  Shape, leaf, make, mk, Frame, frame, Focus, addr, top, count, count_around, Around, root_of,
}
use libappf.RedBlack.Memory.Parts.{
  addr-make, count-make, addr-apart, eq_sym_false, Is-reup, Around-repoint, root_of-repoint,
  not-top, Parts-make,
}
use libappf.RedBlack.Memory.Rotation.{replace_child-mem, replace_child-root, up-mk}
use libappf.RedBlack.Memory.Recolor.{at-make}
use libappf.RedBlack.Insert.Attach.{ne_count}
use libappf.RedBlack.Delete.Nephew.{Seat}

module _ (nil : ℕ) (d : Side) (y : ℕ) (c : Color) (t : Shape) (k : List Frame) (s : Store)
    (v : Focus nil s k (make d y c t leaf)) where
  unlinked : Store
  unlinked = replace_child nil y (addr nil t) (set_up (addr nil t) (top nil k) s)

  once : (p : ℕ) → (if y == p then 1 else 0) + count p t + count_around p k ≤ 1
  once p = omega (arith, v.apart p, count-make p d y c t leaf)

  never : (if y == nil then 1 else 0) + count nil t + count_around nil k ≡ 0
  never = omega (arith, v.no_nil, count-make nil d y c t leaf)

  nil-y : (nil == y) ≡ false
  nil-y = ground (arith, never)

  x-y : (addr nil t == y) ≡ false
  x-y = addr-apart nil t y (ground (arith, once y)) nil-y

  fields : s.mem y ≡ mk d (addr nil t) nil (top nil k) c
  fields = at-make nil d y c t leaf k v

  up-y : ((set_up (addr nil t) (top nil k) s).mem y).up ≡ top nil k
  up-y = ground (arith, x-y, ap (λ n. n.up) fields ∙ up-mk d (addr nil t) nil (top nil k) c)

  top-x : (top nil k == nil) ≡ false → (top nil k == addr nil t) ≡ false
  top-x e = tr k t (λ p. omega (arith, once p)) (omega (arith, never)) e
    where
      tr :
          (k : List Frame) (t : Shape)
          → ((p : ℕ) → count p t + count_around p k ≤ 1)
          → count nil t + count_around nil k ≡ 0
          → (top nil k == nil) ≡ false
          → (top nil k == addr nil t) ≡ false
      tr [] t h n e = ground (arith, e)
      tr (frame d p c w ∷ k) t h n e =
          eq_sym_false (addr nil t) p
            (addr-apart nil t p (ground (arith, h p)) (eq_sym_false p nil e))

  unlinked-mem :
      (q : ℕ)
      → unlinked.mem q ≡ (
          if (q == top nil k) && not (top nil k == nil)
          then (if y == ((set_up (addr nil t) (top nil k) s).mem (top nil k)).left
              then with_child left
                  (addr nil t)
                  ((set_up (addr nil t) (top nil k) s).mem (top nil k))
              else with_child right
                  (addr nil t)
                  ((set_up (addr nil t) (top nil k) s).mem (top nil k)))
          else (set_up (addr nil t) (top nil k) s).mem q)
  unfolding unlinked
  unlinked-mem q =
      replace_child-mem d nil y (addr nil t) (addr nil t) nil nil (top nil k) c c
        (set_up (addr nil t) (top nil k) s) q up-y

  set_x : (q : ℕ) → (q == addr nil t) ≡ false → (set_up (addr nil t) (top nil k) s).mem q ≡ s.mem q
  set_x q e = ground (arith, e)

  unlinked-same :
      (q : ℕ)
      → ((q == top nil k) && not (top nil k == nil)) ≡ false
      → (q == addr nil t) ≡ false
      → unlinked.mem q ≡ s.mem q
  unlinked-same q e f = unlinked-mem q ∙ rw e (set_x q f)

  in_k : (q : ℕ) → 1 ≤ count_around q k → (q == top nil k) ≡ false → unlinked.mem q ≡ s.mem q
  in_k q i e = unlinked-same q (rw e refl) (
      eq_sym_false (addr nil t) q (
        addr-apart nil t q (omega (arith, once q, i))
          (eq_sym_false q nil (ne_count (λ j. count_around j k) q nil i (omega (arith, never))))))

  in_t : (q : ℕ) → 1 ≤ count q t → (q == addr nil t) ≡ false → unlinked.mem q ≡ s.mem q
  in_t q i e = unlinked-same q (not-top nil k q (omega (arith, once q, i))) e

  x-not-top : ((addr nil t == top nil k) && not (top nil k == nil)) ≡ false
  x-not-top = elim (Bool-cases (top nil k == nil)) [
    | inl e ↦ ground (arith, e)
    | inr e ↦ ground (arith, e, top-x e)
  ]

  x-after : unlinked.mem (addr nil t) ≡ record (s.mem (addr nil t)) { up = top nil k }
  x-after = unlinked-mem (addr nil t) ∙ rw x-not-top (ground arith)

  u-after :
      (top nil k == nil) ≡ false
      → unlinked.mem (top nil k) ≡ (
          if y == (s.mem (top nil k)).left
          then with_child left (addr nil t) (s.mem (top nil k))
          else with_child right (addr nil t) (s.mem (top nil k)))
  u-after e = unlinked-mem (top nil k) ∙ ground (arith, e, top-x e)

  nil-after : (unlinked.mem nil).color ≡ black
  nil-after = ap (λ n. n.color) (unlinked-mem nil) ∙ ground (arith, v.nil_black)

  -- The other node of `rb_delete` keeps its fields.
  pub unlinked-y :
      (replace_child nil y (addr nil t) (set_up (addr nil t) (top nil k) s)).mem y ≡ s.mem y
  unfolding unlinked
  unlinked-y =
      unlinked-same y (not-top nil k y (ground (arith, once y))) (eq_sym_false (addr nil t) y x-y)

  unlinked-root : unlinked.root ≡ root_of nil (addr nil t) k
  unfolding unlinked
  unlinked-root =
      replace_child-root d nil y (addr nil t) (addr nil t) nil nil (top nil k) c c
        (set_up (addr nil t) (top nil k) s) up-y
      ∙ root_of-repoint nil (addr nil (make d y c t leaf)) (addr nil t) k (omega (arith, never))
          v.root

  -- A node with at most one child is taken out, and the child takes its place.
  pub unlink-Seat :
      Seat nil (replace_child nil y (addr nil t) (set_up (addr nil t) (top nil k) s)) k t
  unfolding unlinked
  unlink-Seat = record {
    focus = record {
      here =
          Is-reup nil s.mem unlinked.mem y (top nil k) t (λ p. omega (arith, once p))
            (omega (arith, never)) in_t (λ e. x-after)
            (Parts-make nil d s.mem (top nil k) y c t leaf v.here).first;
      around =
          Around-repoint nil s.mem unlinked.mem y (addr nil t) k u-after in_k
            (λ p. omega (arith, once p)) (omega (arith, never)) (ground (arith, once y)) nil-y
            (subst (λ z. Around nil s.mem z k) (addr-make nil d y c t leaf) v.around);
      root = unlinked-root;
      apart = λ p. omega (arith, once p);
      no_nil = omega (arith, never);
      nil_black = nil-after;
    };
    parent = ap (λ n. n.up) x-after;
  }

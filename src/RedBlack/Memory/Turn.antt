-- ===== src/RedBlack/Memory/Turn.antt =====
-- A rotation, as what it does to the tree in memory.
use libappf.Base.{
  ℕ, arith, ◌≡◌, if◌then◌else◌, List, ap, ◌∙◌, false, ◌==◌, not, ◌&&◌, ◌+◌, ◌≤◌, sym, subst,
}
use libappf.RedBlack.{Color, Side, left, right, Node, Store, rotate, with_child, black}
use libappf.RedBlack.Memory.Shape.{
  Shape, make, mk, Frame, count, count_around, addr, top, Is, Is-elsewhere, Focus, Around, root_of,
}
use libappf.RedBlack.Memory.Parts.{
  Around-repoint, root_of-repoint, count-make, addr-make, Is-make, Parts, Parts-make, addr-apart,
  top-apart, not-addr, not-top, top-addr, Is-reup,
}
use libappf.RedBlack.Memory.Rotation.{rotate-mem, rotate-root}

module _ (nil : ℕ) where
  module _ (d : Side) (x y : ℕ) (cx cy : Color) (a b c : Shape) (k : List Frame) (s : Store)
      (v : Focus nil s k (make d x cx a (make d y cy b c))) where
    -- How often an address stands in all the parts.
    once :
        (p : ℕ)
        → (if x == p then 1 else 0)
            + (if y == p then 1 else 0)
            + count p a
            + count p b
            + count p c
            + count_around p k
          ≤ 1
    once p =
        omega (arith, v.apart p, count-make p d x cx a (make d y cy b c), count-make p d y cy b c)

    never :
        (if x == nil then 1 else 0)
          + (if y == nil then 1 else 0)
          + count nil a
          + count nil b
          + count nil c
          + count_around nil k
        ≡ 0
    never =
        omega
          (arith, v.no_nil, count-make nil d x cx a (make d y cy b c), count-make nil d y cy b c)

    outer : Parts nil d s.mem (top nil k) x cx a (make d y cy b c)
    outer = Parts-make nil d s.mem (top nil k) x cx a (make d y cy b c) v.here

    inner : Parts nil d s.mem x y cy b c
    inner = Parts-make nil d s.mem x y cy b c outer.second

    x-fields : s.mem x ≡ mk d (addr nil a) y (top nil k) cx
    x-fields =
        outer.fields ∙ ap (λ z. mk d (addr nil a) z (top nil k) cx) (addr-make nil d y cy b c)

    x-ne-y : (x == y) ≡ false
    x-ne-y = ground (arith, once x)

    nil-ne-x : (nil == x) ≡ false
    nil-ne-x = ground (arith, never)

    nil-ne-y : (nil == y) ≡ false
    nil-ne-y = ground (arith, never)

    b-ne-x : (addr nil b == x) ≡ false
    b-ne-x = addr-apart nil b x (ground (arith, once x)) nil-ne-x

    b-ne-y : (addr nil b == y) ≡ false
    b-ne-y = addr-apart nil b y (ground (arith, once y)) nil-ne-y

    u-ne-x : (top nil k == x) ≡ false
    u-ne-x = top-apart nil k x (ground (arith, once x)) nil-ne-x

    u-ne-y : (top nil k == y) ≡ false
    u-ne-y = top-apart nil k y (ground (arith, once y)) nil-ne-y

    u-ne-b : ((top nil k == addr nil b) && not (top nil k == nil)) ≡ false
    u-ne-b = top-addr nil k b (λ p. omega (arith, once p)) (omega (arith, never))

    turned : ℕ → Node
    turned = (rotate d nil x s).mem

    turned-mem :
        (q : ℕ)
        → turned q ≡ (
            if q == x
            then mk d (addr nil a) (addr nil b) y cx
            else if q == y
            then mk d x (addr nil c) (top nil k) cy
            else if (q == top nil k) && not (top nil k == nil)
            then (if x == (s.mem (top nil k)).left
                then with_child left y (s.mem (top nil k))
                else with_child right y (s.mem (top nil k)))
            else if (q == addr nil b) && not (addr nil b == nil)
            then record (s.mem (addr nil b)) { up = x }
            else s.mem q)
    unfolding turned
    turned-mem q =
        rotate-mem d nil x y (addr nil a) (addr nil b) (addr nil c) (top nil k) cx cy s x-fields
          inner.fields x-ne-y b-ne-x b-ne-y u-ne-x u-ne-y q u-ne-b

    turned-same :
        (q : ℕ)
        → (if x == q then 1 else 0) + (if y == q then 1 else 0) ≡ 0
        → ((q == top nil k) && not (top nil k == nil)) ≡ false
        → ((q == addr nil b) && not (addr nil b == nil)) ≡ false
        → turned q ≡ s.mem q
    turned-same q h e f = turned-mem q ∙ ground (arith, h, e, f)

    same-a : (q : ℕ) → 1 ≤ count q a → turned q ≡ s.mem q
    same-a q i =
        turned-same q (omega (arith, i, once q)) (not-top nil k q (omega (arith, i, once q)))
          (not-addr nil b q (omega (arith, i, once q)))

    same-c : (q : ℕ) → 1 ≤ count q c → turned q ≡ s.mem q
    same-c q i =
        turned-same q (omega (arith, i, once q)) (not-top nil k q (omega (arith, i, once q)))
          (not-addr nil b q (omega (arith, i, once q)))

    same-b : (q : ℕ) → 1 ≤ count q b → (q == addr nil b) ≡ false → turned q ≡ s.mem q
    same-b q i e =
        turned-same q (omega (arith, i, once q)) (not-top nil k q (omega (arith, i, once q)))
          (ground (arith, e))

    turned-x : turned x ≡ mk d (addr nil a) (addr nil b) y cx
    turned-x = turned-mem x ∙ ground arith

    turned-y : turned y ≡ mk d x (addr nil c) (top nil k) cy
    turned-y = turned-mem y ∙ ground (arith, x-ne-y)

    turned-b :
        (addr nil b == nil) ≡ false → turned (addr nil b) ≡ record (s.mem (addr nil b)) { up = x }
    turned-b e = turned-mem (addr nil b) ∙ ground (arith, b-ne-x, b-ne-y, u-ne-b, e)

    turned-here : Is nil turned (top nil k) (make d y cy (make d x cx a b) c)
    turned-here =
        Is-make nil d turned (top nil k) y cy (make d x cx a b) c
          (turned-y ∙ ap (λ z. mk d z (addr nil c) (top nil k) cy) (sym (addr-make nil d x cx a b)))
          (Is-make nil d turned y x cx a b turned-x
            (Is-elsewhere nil s.mem turned x a same-a outer.first)
            (Is-reup nil s.mem turned y x b (λ p. omega (arith, once p)) (omega (arith, never))
              same-b turned-b inner.first))
          (Is-elsewhere nil s.mem turned y c same-c inner.second)

    turned-nil : (turned nil).color ≡ black
    turned-nil =
        ap (λ n. n.color) (turned-same nil (omega (arith, never)) (ground arith) (ground arith))
        ∙ v.nil_black

    turned-Around : Around nil turned y k
    turned-Around =
        Around-repoint nil s.mem turned x y k
          (λ e. turned-mem (top nil k) ∙ ground (arith, u-ne-x, u-ne-y, e))
          (λ q i e.
            turned-same q (omega (arith, i, once q)) (ground (arith, e))
              (not-addr nil b q (omega (arith, i, once q))))
          (λ q. omega (arith, once q)) (omega (arith, never)) (ground (arith, once x)) nil-ne-x
          (subst (λ z. Around nil s.mem z k) (addr-make nil d x cx a (make d y cy b c)) v.around)

    turned-root : (rotate d nil x s).root ≡ root_of nil y k
    turned-root =
        rotate-root d nil x y (addr nil a) (addr nil b) (addr nil c) (top nil k) cx cy s x-fields
          inner.fields x-ne-y b-ne-x b-ne-y u-ne-x u-ne-y
        ∙ root_of-repoint nil (addr nil (make d x cx a (make d y cy b c))) y k
            (omega (arith, never)) v.root

    -- Where the store holds a tree, seen from a node `x` whose child on the other side is `y`: after a
    -- rotation at `x` it holds the tree with `y` in the place of `x`, `x` below it, and everything
    -- else of the tree where it was.
    pub rotate-Focus : Focus nil (rotate d nil x s) k (make d y cy (make d x cx a b) c)
    unfolding turned
    rotate-Focus = record {
      here = turned-here;
      around =
          subst (λ z. Around nil turned z k) (sym (addr-make nil d y cy (make d x cx a b) c))
            turned-Around;
      root =
          turned-root ∙ ap (λ z. root_of nil z k) (sym (addr-make nil d y cy (make d x cx a b) c));
      apart = λ p.
          omega (arith, once p, count-make p d y cy (make d x cx a b) c, count-make p d x cx a b);
      no_nil =
          omega
            (arith, never, count-make nil d y cy (make d x cx a b) c, count-make nil d x cx a b);
      nil_black = turned-nil;
    }

    -- The tree's own node is not written.
    pub rotate-nil : (rotate d nil x s).mem nil ≡ s.mem nil
    unfolding turned
    rotate-nil = turned-same nil (omega (arith, never)) (ground arith) (ground arith)

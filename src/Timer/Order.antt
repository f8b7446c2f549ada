-- ===== src/Timer/Order.antt =====
-- The order of the list of running timers. `timediff` counts whole milliseconds, so the list is in
-- order where the timeouts are equal or a millisecond apart.
use libappf.Timer.{Ref, Timer, insert}
use libappf.Timer.Time.{
  Timespec, not_after, ns, IsTime, Near, lt-of-not_after, lt-of-not_after-true,
}
use libappf.Base.{List, ◌⊎◌, inr, Bool-cases, ◌≡◌, ℕ, inl, [], arith, All, true, ◌+◌, ◌∷◌, ◌≤◌}

-- Equal, or a millisecond apart at least, and within the span that `timediff` measures.
abbrev pub Apart : Timespec → Timespec → Type 0
Apart x y = Near x y × ((ns x ≡ ns y) ⊎ ((ns x + 1_000_000 ≤ ns y) ⊎ (ns y + 1_000_000 ≤ ns x)))

module _ (timer : Ref → Timer) where
  -- Each timeout is at most those behind it.
  abbrev pub Sorted : List Ref → Type 0
  Sorted [] = Unit
  Sorted (t ∷ ts) = All (λ u. ns (timer t).timeout ≤ ns (timer u).timeout) ts × Sorted ts

  -- What is asked of the timeout `x` of a new timer, and of those on the list.
  abbrev pub AllApart : Timespec → List Ref → Type 0
  AllApart x ts = All (λ u. IsTime (timer u).timeout × Apart x (timer u).timeout) ts

  All-le :
      (a b : ℕ) (ts : List Ref)
      → a ≤ b
      → All (λ u. b ≤ ns (timer u).timeout) ts
      → All (λ u. a ≤ ns (timer u).timeout) ts
  All-le a b [] h p = tt
  All-le a b (t ∷ ts) h p = (omega (arith, p.0), All-le a b ts h p.1)

  All-insert :
      (a : ℕ) (t : Ref) (x : Timespec) (ts : List Ref)
      → (timer t).timeout ≡ x
      → a ≤ ns x
      → All (λ u. a ≤ ns (timer u).timeout) ts
      → All (λ u. a ≤ ns (timer u).timeout) (insert timer t x ts)
  unfolding insert
  All-insert a t x [] e h p = (rw e h, tt)
  All-insert a t x (u ∷ us) e h p = elim (Bool-cases (not_after x (timer u).timeout)) [
    | inl n ↦ rw n (rw e h, p)
    | inr n ↦ rw n (p.0, All-insert a t x us e h p.1)
  ]

  le-of-not_after :
      (x y : Timespec) → IsTime x → IsTime y → Apart x y → not_after x y ≡ true → ns x ≤ ns y
  le-of-not_after x y hx hy apart h = grind (arith, lt-of-not_after-true x y hx hy apart.0 h)

  -- A new timer whose timeout is apart from the others goes to its place.
  pub insert-Sorted :
      (t : Ref) (x : Timespec) (ts : List Ref)
      → (timer t).timeout ≡ x
      → IsTime x
      → AllApart x ts
      → Sorted ts
      → Sorted (insert timer t x ts)
  unfolding insert
  insert-Sorted t x [] e hx p s = (tt, tt)
  insert-Sorted t x (u ∷ us) e hx p s = elim (Bool-cases (not_after x (timer u).timeout)) [
    | inl n ↦
        let first = le-of-not_after x (timer u).timeout hx p.0.0 p.0.1 n in
        rw n ((rw e first, All-le _ _ us (rw e first) s.0), s)
    | inr n ↦
        let later = lt-of-not_after x (timer u).timeout hx p.0.0 n in
        rw n (
          All-insert (ns (timer u).timeout) t x us e (omega (arith, later)) s.0,
          insert-Sorted t x us e hx p.1 s.1,
        )
  ]

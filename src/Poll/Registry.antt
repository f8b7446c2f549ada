-- ===== src/Poll/Registry.antt =====
-- The list as a finite map from descriptors to entries.
use libappf.Poll.{Poll, max_fds, registered, poll_add, poll_rem, Op, add, rem, apply, apply_all}
use libappf.Base.{
  arith, ◌≡◌, ◌∷◌, inl, if◌then◌else◌, suc, inr, refl, List, length, some, leb, ◌==◌, Bool-cases,
  false, true, ℕ, ◌≢◌, none, Option, [], ◌≤◌,
}
use libappf.Base.Int.{negsuc, ℤ, pos}
use mathlib.Core.Bool.{false≢true}

-- The entry of a descriptor.
unfoldable pub entry : ℕ → List Poll → Option Poll
entry fd [] = none
entry fd (p ∷ ps) = if p.fd == fd then some p else entry fd ps

-- No descriptor stands twice on the list.
abbrev pub Distinct : List Poll → Type 0
Distinct [] = Unit
Distinct (p ∷ ps) = (registered p.fd ps ≡ false) × Distinct ps

-- What holds of the list between two calls.
pub record IsRegistry (ps : List Poll) : Type 0 where
  pub distinct : Distinct ps
  pub bounded : length ps ≤ max_fds

entry-registered : (fd : ℕ) (ps : List Poll) → registered fd ps ≡ false → entry fd ps ≡ none
unfolding entry registered
entry-registered fd [] h = refl
entry-registered fd (p ∷ ps) h = ground (arith, entry-registered fd ps)

registered-entry :
    (fd : ℕ) (ps : List Poll) → registered fd ps ≡ true → (p : Poll) × (entry fd ps ≡ some p)
unfolding entry registered
registered-entry fd [] h = absurd (false≢true h)
registered-entry fd (p ∷ ps) h = elim (Bool-cases (p.fd == fd)) [
  | inl e ↦ rw e (p, refl)
  | inr e ↦ rw e (registered-entry fd ps (rw e at h))
]

registered-poll_rem :
    (fd j : ℕ) (ps : List Poll) → registered j ps ≡ false → registered j (poll_rem fd ps) ≡ false
unfolding registered poll_rem
registered-poll_rem fd j [] h = refl
registered-poll_rem fd j (p ∷ ps) h = ground (arith, registered-poll_rem fd j ps)

Distinct-poll_rem : (fd : ℕ) (ps : List Poll) → Distinct ps → Distinct (poll_rem fd ps)
unfolding poll_rem
Distinct-poll_rem fd [] h = tt
Distinct-poll_rem fd (p ∷ ps) h = elim (Bool-cases (p.fd == fd)) [
  | inl e ↦ rw e h.1
  | inr e ↦ rw e (registered-poll_rem fd p.fd ps h.0, Distinct-poll_rem fd ps h.1)
]

length-poll_rem : (fd : ℕ) (ps : List Poll) → length (poll_rem fd ps) ≤ length ps
unfolding poll_rem
length-poll_rem fd [] = omega arith
length-poll_rem fd (p ∷ ps) = ground (arith, length-poll_rem fd ps)

-- `af_poll_rem` keeps the invariant.
pub poll_rem-IsRegistry : (fd : ℕ) {ps : List Poll} → IsRegistry ps → IsRegistry (poll_rem fd ps)
poll_rem-IsRegistry fd {ps} v = record {
  distinct = Distinct-poll_rem fd ps v.distinct;
  bounded = omega (arith, length-poll_rem fd ps, v.bounded);
}

-- `af_poll_add` keeps the invariant.
pub poll_add-IsRegistry :
    (fd events callback ctx : ℕ) {ps : List Poll}
    → IsRegistry ps
    → IsRegistry (poll_add fd events callback ctx ps).1
unfolding poll_add
poll_add-IsRegistry fd events callback ctx {ps} v = elim (Bool-cases (registered fd ps)) [
  | inl e ↦ rw e v
  | inr e ↦ rw e (elim (Bool-cases (leb max_fds (length ps))) [
    | inl f ↦ rw f v
    | inr f ↦ rw f (record { distinct = (e, v.distinct); bounded = ground arith })
  ])
]

-- Whatever a callback does to the list, it stays a registry.
pub apply_all-IsRegistry :
    (os : List Op) {ps : List Poll} → IsRegistry ps → IsRegistry (apply_all os ps)
unfolding apply_all apply
apply_all-IsRegistry [] v = v
apply_all-IsRegistry (add fd events callback ctx ∷ os) v =
    apply_all-IsRegistry os (poll_add-IsRegistry fd events callback ctx v)
apply_all-IsRegistry (rem fd ∷ os) v = apply_all-IsRegistry os (poll_rem-IsRegistry fd v)

-- What `af_poll_add` returns, and the map that it leaves, on each of its three branches.
pub data Added (fd events callback ctx : ℕ) (ps : List Poll) : ℤ × List Poll → Type 0 where
  already : (p : Poll) → entry fd ps ≡ some p → Added fd events callback ctx ps (negsuc 1, ps)
  too_many :
      entry fd ps ≡ none → length ps ≡ max_fds → Added fd events callback ctx ps (negsuc 0, ps)
  added :
      {qs : List Poll}
      → entry fd ps ≡ none
      → entry fd qs
        ≡ some
            (record { fd = fd; events = events; revents = 0; context = ctx; callback = callback })
      → ((j : ℕ) → j ≢ fd → entry j qs ≡ entry j ps)
      → length qs ≡ suc (length ps)
      → Added fd events callback ctx ps (pos 0, qs)

-- On a list without a descriptor twice and with at most 256 entries, `af_poll_add` returns -2 and
-- leaves the list where the descriptor has an entry, returns -1 and leaves the list where it has none
-- and the list is full, and otherwise returns 0 with the descriptor mapped to the new entry, every
-- other one mapped as before, and one entry more.
pub poll_add-Added :
    (fd events callback ctx : ℕ) (ps : List Poll)
    → IsRegistry ps
    → Added fd events callback ctx ps (poll_add fd events callback ctx ps)
unfolding poll_add entry
poll_add-Added fd events callback ctx ps v = elim (Bool-cases (registered fd ps)) [
  | inl e ↦ let (p, q) = registered-entry fd ps e in rw e (already p q)
  | inr e ↦ rw e (elim (Bool-cases (leb max_fds (length ps))) [
    | inl f ↦ rw f (too_many (entry-registered fd ps e) (ground (arith, v.bounded)))
    | inr f ↦ rw f (added (entry-registered fd ps e) (ground arith) (λ j h. ground arith) refl)
  ])
]

-- On a list without a descriptor twice: after `af_poll_rem` the descriptor has no entry, and every
-- other has the one that it had.
pub entry-poll_rem :
    (fd j : ℕ) (ps : List Poll)
    → Distinct ps
    → entry j (poll_rem fd ps) ≡ (if j == fd then none else entry j ps)
unfolding poll_rem entry
entry-poll_rem fd j [] h = ground arith
entry-poll_rem fd j (p ∷ ps) h =
    ground (arith, entry-poll_rem fd j ps h.1, entry-registered p.fd ps h.0)

-- A descriptor that was added and removed again leaves the list as it was, in the same order.
pub poll_rem-poll_add :
    (fd events callback ctx : ℕ) (ps : List Poll)
    → (poll_add fd events callback ctx ps).0 ≡ pos 0
    → poll_rem fd (poll_add fd events callback ctx ps).1 ≡ ps
unfolding poll_rem poll_add
poll_rem-poll_add fd events callback ctx ps h = ground arith

entry-poll_add-none :
    (fd events callback ctx j : ℕ) (ps : List Poll)
    → fd ≢ j
    → entry j ps ≡ none
    → entry j (poll_add fd events callback ctx ps).1 ≡ none
unfolding poll_add entry
entry-poll_add-none fd events callback ctx j ps n h = ground arith

-- The operations do not register the descriptor.
unfoldable pub Avoids : ℕ → List Op → Type 0
Avoids fd [] = Unit
Avoids fd (add j events callback ctx ∷ os) = (j ≢ fd) × Avoids fd os
Avoids fd (rem j ∷ os) = Avoids fd os

pub entry-apply_all :
    (fd : ℕ) (os : List Op) {ps : List Poll}
    → Avoids fd os
    → IsRegistry ps
    → entry fd ps ≡ none
    → entry fd (apply_all os ps) ≡ none
unfolding Avoids apply_all apply
entry-apply_all fd [] q v h = h
entry-apply_all fd (add j events callback ctx ∷ os) {ps} q v h =
    entry-apply_all fd os q.1 (poll_add-IsRegistry j events callback ctx v)
      (entry-poll_add-none j events callback ctx fd ps q.0 h)
entry-apply_all fd (rem j ∷ os) {ps} q v h =
    entry-apply_all fd os q (poll_rem-IsRegistry j v)
      (rw (entry-poll_rem j fd ps v.distinct) (ground (arith, h)))

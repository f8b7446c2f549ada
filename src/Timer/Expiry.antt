-- ===== src/Timer/Expiry.antt =====
-- What `af_timer_check` comes to, from a list in any order and from a list in order.
use libappf.Timer.{Ref, Timer, Timers, Act, take_due, timer_check}
use libappf.Base.Int.{◌+ℤ◌}
use libappf.Timer.Time.{Timespec, not_after, ns, IsTime, Near}
use libappf.Timer.Running.{IsConsistent, count, count-append}
use libappf.Timer.Order.{Sorted}
use libappf.Timer.Sorted.{IsClock}
use libappf.Timer.Check.{
  take_due-append, fire_loop-IsConsistent, expired-fire_loop, Own, fired-fire_loop,
}
use libappf.Base.{
  ◌≡◌, ◌≤◌, ◌∷◌, ap, ◌++◌, true, arith, false, inl, Bool-cases, List, length, inr, All, [], ◌<◌,
  ◌+◌, ◌⊎◌,
}

split-IsConsistent :
    (now : Timespec) (s : Timers)
    → IsConsistent s
    → s.expired ≡ []
    → IsConsistent (record {
      head = (take_due now s.timer s.head).later;
      expired = (take_due now s.timer s.head).due;
      timer = s.timer;
    })
unfolding count
split-IsConsistent now s v none_left = record {
  counted = λ u. ground (
    arith,
    v.counted u,
    ap (count u) none_left,
    ap (count u) (take_due-append now s.timer s.head),
    count-append u (take_due now s.timer s.head).due (take_due now s.timer s.head).later,
  );
}

-- `af_timer_check` comes to its end with no timer left on the expired list, and keeps the lists
-- consistent, whatever timers the callbacks start and stop.
pub timer_check-IsConsistent :
    (callback : Ref → Timers → List Act) (now : Timespec) (s : Timers)
    → IsConsistent s
    → s.expired ≡ []
    → IsConsistent (timer_check callback now s).timers
      × ((timer_check callback now s).timers.expired ≡ [])
unfolding timer_check
timer_check-IsConsistent callback now s v none_left = (
  fire_loop-IsConsistent callback _ _ (split-IsConsistent now s v none_left),
  expired-fire_loop callback _ _ (omega arith),
)

-- The times that fail the test against a clock's time `now`.
abbrev Ahead : Timespec → Timespec → Type 0
Ahead now x = (now.sec < x.sec) ⊎ ((x.sec ≡ now.sec) × (now.nsec + 1_000_000 ≤ x.nsec))

Ahead-of-not_after : (now x : Timespec) → IsTime x → not_after x now ≡ false → Ahead now x
unfolding not_after ◌+ℤ◌
Ahead-of-not_after now x hx h = ground arith

not_after-of-Ahead :
    (now x : Timespec) → IsClock now → Near x now → Ahead now x → not_after x now ≡ false
unfolding not_after ◌+ℤ◌
not_after-of-Ahead now x hn near (inl h) = ground arith
not_after-of-Ahead now x hn near (inr h) = ground arith

-- A time behind one that is ahead of the clock is ahead of it.
not_after_mono :
    (now x y : Timespec)
    → IsClock now
    → IsClock x
    → IsClock y
    → Near y now
    → ns x ≤ ns y
    → not_after x now ≡ false
    → not_after y now ≡ false
not_after_mono now x y hn hx hy near le h =
    not_after-of-Ahead now y hn near (step (Ahead-of-not_after now x (omega (arith, hx)) h))
  where
    step : Ahead now x → Ahead now y
    step (inl a) = ground arith
    step (inr a) = ground arith

All-not_after :
    (now : Timespec) (timer : Ref → Timer) (x : Timespec) (ts : List Ref)
    → IsClock now
    → IsClock x
    → not_after x now ≡ false
    → All (λ u. IsClock (timer u).timeout × Near (timer u).timeout now) ts
    → All (λ u. ns x ≤ ns (timer u).timeout) ts
    → All (λ u. not_after (timer u).timeout now ≡ false) ts
All-not_after now timer x [] hn hx h p q = tt
All-not_after now timer x (u ∷ us) hn hx h p q = (
  not_after_mono now x (timer u).timeout hn hx p.0.0 p.0.1 q.0 h,
  All-not_after now timer x us hn hx h p.1 q.1,
)

later-not_after :
    (now : Timespec) (timer : Ref → Timer) (ts : List Ref)
    → IsClock now
    → All (λ u. IsClock (timer u).timeout × Near (timer u).timeout now) ts
    → Sorted timer ts
    → All (λ u. not_after (timer u).timeout now ≡ false) (take_due now timer ts).later
unfolding take_due
later-not_after now timer [] hn p s = tt
later-not_after now timer (t ∷ ts) hn p s = elim (Bool-cases (not_after (timer t).timeout now)) [
  | inl e ↦ rw e (later-not_after now timer ts hn p.1 s.1)
  | inr e ↦ rw e (e, All-not_after now timer (timer t).timeout ts hn p.0.0 e p.1 s.0)
]

due-not_after :
    (now : Timespec) (timer : Ref → Timer) (ts : List Ref)
    → All (λ u. not_after (timer u).timeout now ≡ true) (take_due now timer ts).due
unfolding take_due
due-not_after now timer [] = tt
due-not_after now timer (t ∷ ts) = elim (Bool-cases (not_after (timer t).timeout now)) [
  | inl e ↦ rw e (e, due-not_after now timer ts)
  | inr e ↦ rw e tt
]

-- The callbacks that `af_timer_check` runs are those of the timers that pass its test `timediff <= 0`
-- at the time of the call, each once and in the order of the list: the list falls into the timers
-- that fired, all of which pass, and the rest, none of which does. The conditions are that each
-- callback starts and stops its own timer only, that the list is consistent and in the order of the
-- timeouts and the expired list is empty, and that the `tv_nsec` of the clock and of every timeout
-- are below 10^9 and every timeout is within 100000000 seconds of the clock, the span that
-- `timediff` measures.
pub timer_check-fired :
    (callback : Ref → Timers → List Act) (now : Timespec) (s : Timers)
    → ((t : Ref) (r : Timers) → Own t (callback t r))
    → IsConsistent s
    → s.expired ≡ []
    → IsClock now
    → All (λ u. IsClock (s.timer u).timeout × Near (s.timer u).timeout now) s.head
    → Sorted s.timer s.head
    → (rest : List Ref) × ((timer_check callback now s).fired ++ rest ≡ s.head)
      × All (λ u. not_after (s.timer u).timeout now ≡ true) (timer_check callback now s).fired
      × All (λ u. not_after (s.timer u).timeout now ≡ false) rest
unfolding timer_check
timer_check-fired callback now s own v none_left hn p sorted =
    let fired =
      fired-fire_loop callback own (length (take_due now s.timer s.head).due) _
        (split-IsConsistent now s v none_left) (omega arith) in
    (
      (take_due now s.timer s.head).later,
      rw fired (take_due-append now s.timer s.head),
      rw fired (due-not_after now s.timer s.head),
      later-not_after now s.timer s.head hn p sorted,
    )

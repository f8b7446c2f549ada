-- ===== src/Timer/Sorted.antt =====
-- `af_timer_start` and `af_timer_stop` keep the list of running timers in order.
use libappf.Timer.{Ref, Timer, Timers, unlink, timer_stop, due, launch, timer_start}
use libappf.Timer.Time.{Timespec, ns, IsTime}
use libappf.Timer.Running.{IsConsistent, count, timer_stop_lem}
use libappf.Timer.Order.{Apart, Sorted, AllApart, insert-Sorted}
use libappf.Base.{
  inr, ◌≢◌, [], inl, ◌*◌, ◌≤◌, All, List, ◌∷◌, ◌<◌, Bool-cases, subst, ◌+◌, ◌==◌, arith,
  if◌then◌else◌, ◌≡◌, sym,
}

-- What `clock_gettime` leaves in `tv_nsec`.
abbrev pub IsClock : Timespec → Type 0
IsClock now = now.nsec < 1_000_000_000

-- The timeout is the time of the call plus the timer's interval, to the nanosecond.
pub due_exact :
    (now : Timespec) (t : Timer)
    → IsClock now
    → t.nsec ≤ 1_000_000_000
    → (ns (due now t) ≡ ns now + (t.sec * 1_000_000_000 + t.nsec)) × IsTime (due now t)
unfolding due
due_exact now t h k = ground arith

-- Only the timeouts of the timers on the list matter.
module _ (f g : Ref → Timer) where
  All-cong :
      (P : Timespec → Type 0) (ts : List Ref)
      → ((u : Ref) → count u ts ≢ 0 → (f u).timeout ≡ (g u).timeout)
      → All (λ u. P (f u).timeout) ts
      → All (λ u. P (g u).timeout) ts
  unfolding count
  All-cong P [] same p = tt
  All-cong P (t ∷ ts) same p =
      (subst P (same t (ground arith)) p.0, All-cong P ts (λ u h. same u (ground arith)) p.1)

  Sorted-cong :
      (ts : List Ref)
      → ((u : Ref) → count u ts ≢ 0 → (f u).timeout ≡ (g u).timeout)
      → Sorted f ts
      → Sorted g ts
  unfolding count
  Sorted-cong [] same s = tt
  Sorted-cong (t ∷ ts) same s =
      let rest : (u : Ref) → count u ts ≢ 0 → (f u).timeout ≡ (g u).timeout =
        λ u h. same u (ground arith) in
      (
        subst (λ x. All (λ u. ns x ≤ ns (g u).timeout) ts) (same t (ground arith))
            (All-cong (λ y. ns (f t).timeout ≤ ns y) ts rest s.0),
        Sorted-cong ts rest s.1,
      )

All-unlink {ℓ} : (P : Ref → Type ℓ) (t : Ref) (ts : List Ref) → All P ts → All P (unlink t ts)
unfolding unlink
All-unlink P t [] p = tt
All-unlink P t (u ∷ us) p = elim (Bool-cases (u == t)) [
  | inl e ↦ rw e p.1
  | inr e ↦ rw e (p.0, All-unlink P t us p.1)
]

Sorted-unlink :
    (timer : Ref → Timer) (t : Ref) (ts : List Ref) → Sorted timer ts → Sorted timer (unlink t ts)
unfolding unlink
Sorted-unlink timer t [] s = tt
Sorted-unlink timer t (u ∷ us) s = elim (Bool-cases (u == t)) [
  | inl e ↦ rw e s.1
  | inr e ↦ rw e (
    All-unlink (λ v. ns (timer u).timeout ≤ ns (timer v).timeout) t us s.0,
    Sorted-unlink timer t us s.1,
  )
]

timeout-timer_stop :
    (t : Ref) (s : Timers) (u : Ref) → (s.timer u).timeout ≡ ((timer_stop t s).timer u).timeout
unfolding timer_stop
timeout-timer_stop t s u = ground arith

head-timer_stop :
    (t : Ref) (s : Timers)
    → (timer_stop t s).head ≡ (if (s.timer t).running then unlink t s.head else s.head)
unfolding timer_stop
head-timer_stop t s = ground arith

-- `af_timer_stop` keeps the list in order.
pub timer_stop-Sorted :
    (t : Ref) (s : Timers)
    → Sorted s.timer s.head
    → Sorted (timer_stop t s).timer (timer_stop t s).head
timer_stop-Sorted t s h =
    Sorted-cong s.timer (timer_stop t s).timer (timer_stop t s).head
      (λ u _. timeout-timer_stop t s u)
      (rw (head-timer_stop t s) (elim (Bool-cases (s.timer t).running) [
        | inl e ↦ rw e (Sorted-unlink s.timer t s.head h)
        | inr e ↦ rw e h
      ]))

launch-Sorted :
    (now : Timespec) (t : Ref) (s : Timers)
    → count t s.head ≡ 0
    → IsTime (due now (s.timer t))
    → AllApart s.timer (due now (s.timer t)) s.head
    → Sorted s.timer s.head
    → Sorted (launch now t s).timer (launch now t s).head
unfolding launch
launch-Sorted now t s absent time apart h =
    let g = (launch now t s).timer in
    let same : (u : Ref) → count u s.head ≢ 0 → (s.timer u).timeout ≡ (g u).timeout =
      λ u k. ground arith in
    insert-Sorted g t (due now (s.timer t)) s.head (ground arith) time
      (All-cong s.timer g (λ y. IsTime y × Apart (due now (s.timer t)) y) s.head same apart)
      (Sorted-cong s.timer g s.head same h)

due-timer_stop :
    (now : Timespec) (t : Ref) (s : Timers)
    → due now ((timer_stop t s).timer t) ≡ due now (s.timer t)
unfolding due timer_stop
due-timer_stop now t s = ground arith

-- `af_timer_start` puts a timer in its place: a list that is in order stays so, whether or not the
-- timer ran. The conditions are that the lists are consistent, that the new timeout equals each of
-- the other timeouts on the list or is at least a millisecond apart from it, that it is within
-- 100000000 seconds of each of them, the span that `timediff` measures, and that the `tv_nsec` of
-- all these timeouts are at most 10^9.
pub timer_start-Sorted :
    (now : Timespec) (t : Ref) (s : Timers)
    → IsConsistent s
    → IsTime (due now (s.timer t))
    → AllApart s.timer
        (due now (s.timer t))
        (if (s.timer t).running then unlink t s.head else s.head)
    → Sorted s.timer s.head
    → Sorted (timer_start now t s).timer (timer_start now t s).head
unfolding timer_start due
timer_start-Sorted now t s v time apart h = elim (Bool-cases (s.timer t).running) [
  | inl e ↦
      let s' = timer_stop t s in
      let x = due now (s.timer t) in
      let same = due-timer_stop now t s in
      let others : AllApart s.timer x s'.head =
        subst (AllApart s.timer x) (sym (head-timer_stop t s)) apart in
      let apart' : AllApart s'.timer x s'.head =
        All-cong s.timer s'.timer (λ y. IsTime y × Apart x y) s'.head
          (λ u _. timeout-timer_stop t s u) others in
      rw e (
        launch-Sorted now t s' (timer_stop_lem t v).1 (subst IsTime (sym same) time)
          (subst (λ y. AllApart s'.timer y s'.head) (sym same) apart') (timer_stop-Sorted t s h))
  | inr e ↦
      let absent : count t s.head ≡ 0 = ground (arith, v.counted t) in
      rw e (launch-Sorted now t s absent time (rw e at apart) h)
]

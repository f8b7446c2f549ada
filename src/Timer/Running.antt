-- ===== src/Timer/Running.antt =====
-- `running` tells whether a timer is on a list, and a timer is on one list, once.
use libappf.Timer.{
  Ref, Timer, Timers, unlink, listed, timer_stop, due, insert, timer_start, launch, Act,
  set_interval, start, stop, act, act_all,
}
use libappf.Timer.Time.{Timespec}
use libappf.Base.{
  arith, ◌==◌, if◌then◌else◌, ◌-◌, [], ℕ, ◌∷◌, refl, ◌≡◌, true, List, ◌++◌, ◌+◌, false, Bool-cases,
  inr, inl,
}

unfoldable pub count : Ref → List Ref → ℕ
count t [] = 0
count t (u ∷ us) = (if u == t then 1 else 0) + count t us

-- What holds of the timers between two calls.
pub record IsConsistent (s : Timers) : Type 0 where
  pub counted :
      (t : Ref) → count t s.head + count t s.expired ≡ (if (s.timer t).running then 1 else 0)

pub count-append : (t : Ref) (us vs : List Ref) → count t (us ++ vs) ≡ count t us + count t vs
unfolding count
count-append t [] vs = omega arith
count-append t (u ∷ us) vs = omega (arith, count-append t us vs)

pub listed-count :
    (t : Ref) (us : List Ref) → listed t us ≡ (if count t us == 0 then false else true)
unfolding listed count
listed-count t [] = refl
listed-count t (u ∷ us) = ground (arith, listed-count t us)

pub count-unlink :
    (t u : Ref) (us : List Ref)
    → count u (unlink t us) ≡ (if t == u then count u us - 1 else count u us)
unfolding unlink count
count-unlink t u [] = ground arith
count-unlink t u (v ∷ vs) = ground (arith, count-unlink t u vs)

pub count-insert :
    (timer : Ref → Timer) (t : Ref) (timeout : Timespec) (u : Ref) (us : List Ref)
    → count u (insert timer t timeout us) ≡ (if t == u then 1 else 0) + count u us
unfolding insert count
count-insert timer t timeout u [] = refl
count-insert timer t timeout u (v ∷ vs) = ground (arith, count-insert timer t timeout u vs)

-- `af_timer_stop` keeps the lists consistent.
pub timer_stop-IsConsistent :
    (t : Ref) {s : Timers} → IsConsistent s → IsConsistent (timer_stop t s)
unfolding timer_stop
timer_stop-IsConsistent t {s} v = record {
  counted = λ u. ground (
    arith,
    v.counted u,
    v.counted t,
    count-unlink t u s.head,
    count-unlink t u s.expired,
    listed-count t s.head,
    listed-count t s.expired,
  );
}

-- After `af_timer_stop` the timer does not run, and stands on no list.
pub timer_stop_lem :
    (t : Ref) {s : Timers}
    → IsConsistent s
    → (((timer_stop t s).timer t).running ≡ false)
      × (count t (timer_stop t s).head ≡ 0)
      × (count t (timer_stop t s).expired ≡ 0)
unfolding timer_stop
timer_stop_lem t {s} v = ground (
  arith,
  v.counted t,
  count-unlink t t s.head,
  count-unlink t t s.expired,
  listed-count t s.head,
  listed-count t s.expired,
)

launch-IsConsistent :
    (now : Timespec) (t : Ref) {s : Timers}
    → IsConsistent s
    → (s.timer t).running ≡ false
    → IsConsistent (launch now t s)
unfolding launch
launch-IsConsistent now t {s} v idle = record {
  counted = λ u. ground (
    arith,
    v.counted u,
    v.counted t,
    count-insert (launch now t s).timer t (due now (s.timer t)) u s.head,
  );
}

-- `af_timer_start` keeps the lists consistent, whether or not the timer ran before.
pub timer_start-IsConsistent :
    (now : Timespec) (t : Ref) {s : Timers} → IsConsistent s → IsConsistent (timer_start now t s)
unfolding timer_start
timer_start-IsConsistent now t {s} v = elim (Bool-cases (s.timer t).running) [
  | inl e ↦ rw e (launch-IsConsistent now t (timer_stop-IsConsistent t v) (timer_stop_lem t v).0)
  | inr e ↦ rw e (launch-IsConsistent now t v e)
]

launch_lem :
    (now : Timespec) (t : Ref) {s : Timers}
    → IsConsistent s
    → (s.timer t).running ≡ false
    → (((launch now t s).timer t).running ≡ true)
      × (count t (launch now t s).head ≡ 1)
      × (count t (launch now t s).expired ≡ 0)
unfolding launch
launch_lem now t {s} v idle =
    ground
      (arith, v.counted t, count-insert (launch now t s).timer t (due now (s.timer t)) t s.head)

-- Where the lists are consistent before: after `af_timer_start` the timer runs, and stands once on the
-- list of running timers and not on that of expired ones.
pub timer_start_lem :
    (now : Timespec) (t : Ref) {s : Timers}
    → IsConsistent s
    → (((timer_start now t s).timer t).running ≡ true)
      × (count t (timer_start now t s).head ≡ 1)
      × (count t (timer_start now t s).expired ≡ 0)
unfolding timer_start
timer_start_lem now t {s} v = elim (Bool-cases (s.timer t).running) [
  | inl e ↦ rw e (launch_lem now t (timer_stop-IsConsistent t v) (timer_stop_lem t v).0)
  | inr e ↦ rw e (launch_lem now t v e)
]

act-IsConsistent : (a : Act) {s : Timers} → IsConsistent s → IsConsistent (act a s)
unfolding act
act-IsConsistent (set_interval t sec nsec) v = record { counted = λ u. ground (arith, v.counted u) }
act-IsConsistent (start now t) v = timer_start-IsConsistent now t v
act-IsConsistent (stop t) v = timer_stop-IsConsistent t v

-- Whatever a callback does to the timers, the lists stay consistent.
pub act_all-IsConsistent :
    (as' : List Act) {s : Timers} → IsConsistent s → IsConsistent (act_all as' s)
unfolding act_all
act_all-IsConsistent [] v = v
act_all-IsConsistent (a ∷ more) v = act_all-IsConsistent more (act-IsConsistent a v)

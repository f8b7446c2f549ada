-- ===== src/Timer/Burst.antt =====
-- Timers started one soon after another, within the millisecond that `timediff` cuts away.
use libappf.Timer.{Ref, Timer, Timers, update, listed, due, insert, launch, timer_start}
use libappf.Timer.Time.{Timespec, not_after}
use libappf.Base.{◌≡◌, [], false, ◌∙◌, refl, List, ◌∷◌, ◌≢◌, arith, true, ap, subst, sym}

-- Calls of `af_timer_start`: the time of the call, and the timer.
abbrev pub Calls : Type 0
Calls = List (Timespec × Ref)

abbrev pub refs : Calls → List Ref
refs [] = []
refs ((now, t) ∷ cs) = t ∷ refs cs

unfoldable pub start_all : Calls → Timers → Timers
start_all [] s = s
start_all ((now, t) ∷ cs) s = start_all cs (timer_start now t s)

-- Different timers that do not run, each of which goes in front of the one before, `prev` at first: it
-- is due earlier or less than a millisecond later.
abbrev pub Burst : (Ref → Timer) → Timespec → Calls → Type 0
Burst timer prev [] = Unit
Burst timer prev ((now, t) ∷ cs) =
    ((timer t).running ≡ false)
    × (not_after (due now (timer t)) prev ≡ true)
    × (listed t (refs cs) ≡ false)
    × Burst timer (due now (timer t)) cs

-- When the last timer of the burst is due.
abbrev pub last_due : (Ref → Timer) → Timespec → Calls → Timespec
last_due timer prev [] = prev
last_due timer prev ((now, t) ∷ cs) = last_due timer (due now (timer t)) cs

unfoldable pub reverse_onto : List Ref → List Ref → List Ref
reverse_onto [] us = us
reverse_onto (t ∷ ts) us = reverse_onto ts (t ∷ us)

module _ (f g : Ref → Timer) where
  Burst-cong :
      (prev : Timespec) (cs : Calls)
      → ((u : Ref) → listed u (refs cs) ≡ true → f u ≡ g u)
      → Burst f prev cs
      → Burst g prev cs
  unfolding listed
  Burst-cong prev [] same b = tt
  Burst-cong prev ((now, t) ∷ cs) same b =
      let e : f t ≡ g t = same t (ground arith) in
      (
        rw e at b.0,
        rw e at b.1,
        b.2,
        Burst-cong (due now (g t)) cs (λ u h. same u (ground arith)) (rw e at b.3),
      )

  last_due-cong :
      (prev : Timespec) (cs : Calls)
      → ((u : Ref) → listed u (refs cs) ≡ true → f u ≡ g u)
      → last_due f prev cs ≡ last_due g prev cs
  unfolding listed
  last_due-cong prev [] same = refl
  last_due-cong prev ((now, t) ∷ cs) same =
      let e : f t ≡ g t = same t (ground arith) in
      last_due-cong (due now (f t)) cs (λ u h. same u (ground arith))
      ∙ ap (λ x. last_due g (due now x) cs) e

insert-front :
    (timer : Ref → Timer) (t : Ref) (x : Timespec) (u : Ref) (us : List Ref)
    → not_after x (timer u).timeout ≡ true
    → insert timer t x (u ∷ us) ≡ t ∷ u ∷ us
unfolding insert
insert-front timer t x u us h = rw h

module _ (now : Timespec) (t : Ref) (s : Timers) (idle : (s.timer t).running ≡ false) where
  head-timer_start :
      (u : Ref) (us : List Ref)
      → s.head ≡ u ∷ us
      → u ≢ t
      → not_after (due now (s.timer t)) (s.timer u).timeout ≡ true
      → (timer_start now t s).head ≡ t ∷ u ∷ us
  unfolding timer_start launch
  head-timer_start u us e ne h =
      let x = due now (s.timer t) in
      let g : Ref → Timer = update s.timer t (record (s.timer t) { running = true; timeout = x }) in
      let start : (timer_start now t s).head ≡ insert g t x s.head = simp idle in
      start ∙ ap (insert g t x) e ∙ insert-front g t x u us (ground arith)

  timer-timer_start : (u : Ref) → u ≢ t → s.timer u ≡ (timer_start now t s).timer u
  unfolding timer_start launch
  timer-timer_start u ne = ground arith

  timeout-timer_start : ((timer_start now t s).timer t).timeout ≡ due now (s.timer t)
  unfolding timer_start launch
  timeout-timer_start = ground arith

  running-timer_start : ((timer_start now t s).timer t).running ≡ true
  unfolding timer_start launch
  running-timer_start = ground arith

-- The list after a burst, with what is known of its first timer.
record IsReversed (cs : Calls) (us : List Ref) (last : Timespec) (s : Timers) : Type 0 where
  head : s.head ≡ reverse_onto (refs cs) us
  first : Ref
  others : List Ref
  split : s.head ≡ first ∷ others
  timeout : (s.timer first).timeout ≡ last

start_all-IsReversed :
    (cs : Calls) (s : Timers) (u : Ref) (us : List Ref)
    → s.head ≡ u ∷ us
    → (s.timer u).running ≡ true
    → Burst s.timer (s.timer u).timeout cs
    → IsReversed cs (u ∷ us) (last_due s.timer (s.timer u).timeout cs) (start_all cs s)
unfolding start_all reverse_onto
start_all-IsReversed [] s u us e run b = record {
  head = e;
  first = u;
  others = us;
  split = e;
  timeout = refl;
}
start_all-IsReversed ((now, t) ∷ cs) s u us e run b =
    let ne : u ≢ t = λ k. cc (ap (λ v. (s.timer v).running) k) in
    let s' = timer_start now t s in
    let same : (v : Ref) → listed v (refs cs) ≡ true → s.timer v ≡ s'.timer v =
      λ v h. timer-timer_start now t s b.0 v (λ k. cc (ap (λ w. listed w (refs cs)) k)) in
    let time = timeout-timer_start now t s b.0 in
    let tail : Burst s'.timer (s'.timer t).timeout cs =
      subst (λ x. Burst s'.timer x cs) (sym time)
        (Burst-cong s.timer s'.timer (due now (s.timer t)) cs same b.3) in
    let rest =
      start_all-IsReversed cs s' t (u ∷ us) (head-timer_start now t s b.0 u us e ne b.1)
        (running-timer_start now t s b.0) tail in
    record {
      head = rest.head;
      first = rest.first;
      others = rest.others;
      split = rest.split;
      timeout =
          rest.timeout
          ∙ ap (λ x. last_due s'.timer x cs) time
          ∙ sym (last_due-cong s.timer s'.timer (due now (s.timer t)) cs same);
    }

module _ (cs : Calls) (s : Timers) (u : Ref) (us : List Ref) (front : s.head ≡ u ∷ us)
    (runs : (s.timer u).running ≡ true) (burst : Burst s.timer (s.timer u).timeout cs) where
  -- Timers that are started in a row, each due earlier than the one before or less than a millisecond
  -- later, stand on the list in reverse order.
  pub start_all-reverse : (start_all cs s).head ≡ reverse_onto (refs cs) (u ∷ us)
  start_all-reverse = (start_all-IsReversed cs s u us front runs burst).head

-- ===== src/Timer/Tests.antt =====
-- Runs of the timers, and their theorems at concrete inputs.
use libappf.Timer.{
  Ref, Timer, Timers, Act, start, due, insert, launch, timer_start, act, act_all, take_due,
  fire_loop, timer_check,
}
use libappf.Timer.Time.{Timespec, not_after}
use libappf.Timer.Running.{IsConsistent, count, timer_start_lem}
use libappf.Timer.Order.{Sorted}
use libappf.Timer.Sorted.{timer_start-Sorted}
use libappf.Timer.Expiry.{timer_check-IsConsistent, timer_check-fired}
use libappf.Timer.Burst.{Calls}
use libappf.Base.{◌==◌, ◌≡◌, List, All, true, ◌∷◌, ℕ, ◌++◌, refl, arith, false, if◌then◌else◌, []}
use libappf.Base.Int.{◌+ℤ◌}

abbrev at : ℕ → ℕ → Timespec
at sec nsec = record { sec = sec; nsec = nsec }

abbrev idle : ℕ → ℕ → Timer
idle sec nsec = record { sec = sec; nsec = nsec; running = false; timeout = at 0 0 }

-- Timer 1 runs until 10 s, timer 2 until 12 s; timer 3 waits to be started for a second.
abbrev timer : Ref → Timer
timer t =
    if t == 1
    then record { sec = 5; nsec = 0; running = true; timeout = at 10 0 }
    else if t == 2
    then record { sec = 5; nsec = 0; running = true; timeout = at 12 0 }
    else idle 1 0

abbrev timers : Timers
timers = record { head = 1 ∷ 2 ∷ []; expired = []; timer = timer }

-- A periodic timer: each callback starts its own timer again.
abbrev again : Ref → Timers → List Act
again t s = start (at 11 0) t ∷ []

timers-IsConsistent : IsConsistent timers
unfolding count
timers-IsConsistent = record { counted = λ t. ground arith }

check-timers : (timer_check again (at 11 0) timers).fired ≡ 1 ∷ []
unfolding timer_check take_due fire_loop act_all act timer_start launch insert not_after ◌+ℤ◌ due
check-timers = refl

check_restarts : (timer_check again (at 11 0) timers).timers.head ≡ 2 ∷ 1 ∷ []
unfolding timer_check take_due fire_loop act_all act timer_start launch insert not_after ◌+ℤ◌ due
check_restarts = refl

timer_start_lem_example :
    (((timer_start (at 9 0) 1 timers).timer 1).running ≡ true)
    × (count 1 (timer_start (at 9 0) 1 timers).head ≡ 1)
    × (count 1 (timer_start (at 9 0) 1 timers).expired ≡ 0)
timer_start_lem_example = timer_start_lem (at 9 0) 1 timers-IsConsistent

timer_start-Sorted_example :
    Sorted
      (timer_start (at 10 500_000_000) 3 timers).timer
      (timer_start (at 10 500_000_000) 3 timers).head
unfolding due
timer_start-Sorted_example =
    timer_start-Sorted (at 10 500_000_000) 3 timers timers-IsConsistent (omega arith) (ground arith)
      (omega arith)

timer_check-IsConsistent_example :
    IsConsistent (timer_check again (at 11 0) timers).timers
    × ((timer_check again (at 11 0) timers).timers.expired ≡ [])
timer_check-IsConsistent_example =
    timer_check-IsConsistent again (at 11 0) timers timers-IsConsistent refl

timer_check-fired_example :
    (rest : List Ref) × ((timer_check again (at 11 0) timers).fired ++ rest ≡ 1 ∷ 2 ∷ [])
    × All
        (λ u. not_after (timer u).timeout (at 11 0) ≡ true)
        (timer_check again (at 11 0) timers).fired
    × All (λ u. not_after (timer u).timeout (at 11 0) ≡ false) rest
timer_check-fired_example =
    timer_check-fired again (at 11 0) timers (λ t r. (refl, tt)) timers-IsConsistent refl
      (omega arith) (omega arith) (omega arith)

-- Two more timers of a second, started 0.9 ms after one another: the first is due at 10.9009 s.
abbrev calls : Calls
calls = (at 9 900_900_000, 3) ∷ (at 9 901_800_000, 4) ∷ []

abbrev one : Timers
one = record {
  head = 1 ∷ [];
  expired = [];
  timer = λ t.
      if t == 1
      then record { sec = 1; nsec = 0; running = true; timeout = at 10 900_000_000 }
      else idle 1 0;
}

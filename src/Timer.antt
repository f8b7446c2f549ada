-- ===== src/Timer.antt =====
-- appf_timer.c, and `timediff` and the timer structures of appf.h: timers in a list that is kept in
-- the order of their timeouts.
pub mod Time
pub mod Order
pub mod Sorted
pub mod Running
pub mod Check
pub mod Expiry
pub mod Burst
mod Tests
use libappf.Timer.Time.{Timespec, not_after}
use libappf.Base.{
  ℕ, ◌||◌, if◌then◌else◌, true, ltb, ◌==◌, ◌+◌, ◌∷◌, ◌-◌, Bool, false, [], List, zero, suc, length,
}

-- A timer is known by its address, and an address is any number.
abbrev pub Ref : Type 0
Ref = ℕ

-- `struct _af_timer_s`: the user's `sec` and `nsec`, and the internal data. The `next` pointers are
-- the order of the two lists below, and the callback is a parameter of `timer_check`.
pub record Timer : Type 0 where
  pub sec : ℕ
  pub nsec : ℕ
  pub running : Bool
  pub timeout : Timespec

-- `timers.head` and `timers.expired` with what follows them, and the timers that exist.
pub record Timers : Type 0 where
  pub head : List Ref
  pub expired : List Ref
  pub timer : Ref → Timer

abbrev pub update : (Ref → Timer) → Ref → Timer → Ref → Timer
update f t v u = if u == t then v else f u

-- The removal loops of `af_timer_stop`: the first occurrence is unlinked.
pub unlink : Ref → List Ref → List Ref
unlink t [] = []
unlink t (u ∷ us) = if u == t then us else u ∷ unlink t us

pub listed : Ref → List Ref → Bool
listed t [] = false
listed t (u ∷ us) = (u == t) || listed t us

-- `af_timer_stop`: out of the list, then out of the expired list, where it stands.
pub timer_stop : Ref → Timers → Timers
timer_stop t s =
    let stopped = update s.timer t (record (s.timer t) { running = false }) in
    if (s.timer t).running
    then record {
      head = unlink t s.head;
      expired = unlink t s.expired;
      timer = if listed t s.head || listed t s.expired then stopped else s.timer;
    }
    else s

-- The timeout that `af_timer_start` computes from the time and the user's `sec` and `nsec`.
pub due : Timespec → Timer → Timespec
due now t =
    let nsec = now.nsec + t.nsec in
    if ltb 1_000_000_000 nsec
    then record { sec = now.sec + (t.sec + 1); nsec = nsec - 1_000_000_000 }
    else record { sec = now.sec + t.sec; nsec = nsec }

-- The search for the place of a new timer: in front of the first one that is not before it.
pub insert : (Ref → Timer) → Ref → Timespec → List Ref → List Ref
insert timer t timeout [] = t ∷ []
insert timer t timeout (u ∷ us) =
    if not_after timeout (timer u).timeout then t ∷ u ∷ us else u ∷ insert timer t timeout us

-- `af_timer_start` behind its first test: a timer that does not run gets its timeout and its place.
-- `af_timer_reset_fd` has an empty body.
pub launch : Timespec → Ref → Timers → Timers
launch now t s =
    let timeout = due now (s.timer t) in
    let timer = update s.timer t (record (s.timer t) { running = true; timeout = timeout }) in
    record { head = insert timer t timeout s.head; expired = s.expired; timer = timer }

-- `af_timer_start` at the time `now`.
pub timer_start : Timespec → Ref → Timers → Timers
timer_start now t s = launch now t (if (s.timer t).running then timer_stop t s else s)

-- What a callback may do to the timers: change a timer's interval, start it, stop it.
pub data Act : Type 0 where
  set_interval : Ref → (sec nsec : ℕ) → Act
  start : Timespec → Ref → Act
  stop : Ref → Act

pub act : Act → Timers → Timers
act (set_interval t sec nsec) s = record s {
  timer = update s.timer t (record (s.timer t) { sec = sec; nsec = nsec });
}
act (start now t) s = timer_start now t s
act (stop t) s = timer_stop t s

pub act_all : List Act → Timers → Timers
act_all [] s = s
act_all (a ∷ more) s = act_all more (act a s)

-- The first loop of `af_timer_check`: timers are moved from the head of the list to the end of the
-- expired list while they are due.
pub record Split : Type 0 where
  pub due : List Ref
  pub later : List Ref

pub take_due : Timespec → (Ref → Timer) → List Ref → Split
take_due now timer [] = record { due = []; later = [] }
take_due now timer (t ∷ ts) =
    let rest = take_due now timer ts in
    if not_after (timer t).timeout now
    then record { due = t ∷ rest.due; later = rest.later }
    else record { due = []; later = t ∷ ts }

-- The callbacks run so far, in order, and the timers as they left them.
pub record Fired : Type 0 where
  pub fired : List Ref
  pub timers : Timers

-- The second loop: the first expired timer leaves its list, is marked as stopped, and its callback
-- runs. On fuel; `Check.expired-fire_loop` shows that the number of expired timers is enough.
pub fire_loop : (Ref → Timers → List Act) → ℕ → Timers → Fired
fire_loop callback zero s = record { fired = []; timers = s }
fire_loop callback (suc fuel) s = elim s.expired [
  | [] ↦ record { fired = []; timers = s }
  | t ∷ ts ↦
      let stopped = update s.timer t (record (s.timer t) { running = false }) in
      let s' : Timers = record { head = s.head; expired = ts; timer = stopped } in
      let rest = fire_loop callback fuel (act_all (callback t s') s') in
      record { fired = t ∷ rest.fired; timers = rest.timers }
]

-- `af_timer_check` at the time `now`.
pub timer_check : (Ref → Timers → List Act) → Timespec → Timers → Fired
timer_check callback now s =
    let split = take_due now s.timer s.head in
    fire_loop callback (length split.due)
      (record { head = split.later; expired = split.due; timer = s.timer })

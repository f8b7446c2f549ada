-- ===== src/Timer/Check.antt =====
-- `af_timer_check`: it comes to an end, keeps the lists consistent, and runs the callbacks of the
-- timers that are due.
use libappf.Timer.{
  Ref, Timer, Timers, update, unlink, timer_stop, launch, timer_start, Act, set_interval, start,
  stop, act, act_all, take_due, fire_loop,
}
use libappf.Timer.Time.{Timespec, not_after}
use libappf.Timer.Running.{IsConsistent, count, act_all-IsConsistent}
use libappf.Base.{
  ◌++◌, [], zero, ap, refl, false, Bool-cases, ◌∷◌, inl, List, ◌≡◌, ◌≤◌, ℕ, inr, length, arith, suc,
  ◌⊎◌, ◌∙◌, sym,
}

pub take_due-append :
    (now : Timespec) (timer : Ref → Timer) (ts : List Ref)
    → (take_due now timer ts).due ++ (take_due now timer ts).later ≡ ts
unfolding take_due
take_due-append now timer [] = refl
take_due-append now timer (t ∷ ts) = elim (Bool-cases (not_after (timer t).timeout now)) [
  | inl e ↦ rw e (ap (λ l. t ∷ l) (take_due-append now timer ts))
  | inr e ↦ rw e
]

length-unlink : (t : Ref) (us : List Ref) → length (unlink t us) ≤ length us
unfolding unlink
length-unlink t [] = omega arith
length-unlink t (u ∷ us) = ground (arith, length-unlink t us)

-- No callback puts a timer on the expired list.
length-act : (a : Act) (s : Timers) → length (act a s).expired ≤ length s.expired
unfolding act timer_start launch timer_stop
length-act (set_interval t sec nsec) s = omega arith
length-act (start now t) s = ground (arith, length-unlink t s.expired)
length-act (stop t) s = ground (arith, length-unlink t s.expired)

length-act_all : (acts : List Act) (s : Timers) → length (act_all acts s).expired ≤ length s.expired
unfolding act_all
length-act_all [] s = omega arith
length-act_all (a ∷ acts) s = omega (arith, length-act_all acts (act a s), length-act a s)

-- The timers after the first expired one has left its list.
abbrev popped : Ref → List Ref → Timers → Timers
popped t ts s = record {
  head = s.head;
  expired = ts;
  timer = update s.timer t (record (s.timer t) { running = false });
}

popped-IsConsistent :
    (t : Ref) (ts : List Ref) (s : Timers)
    → s.expired ≡ t ∷ ts
    → IsConsistent s
    → IsConsistent (popped t ts s)
unfolding count
popped-IsConsistent t ts s e v = record {
  counted = λ u. ground (arith, v.counted u, v.counted t, ap (count u) e, ap (count t) e);
}

List-cases {ℓ} : {A : Type ℓ} (l : List A) → (l ≡ []) ⊎ ((x : A) × (xs : List A) × (l ≡ x ∷ xs))
List-cases [] = inl refl
List-cases (x ∷ xs) = inr (x, xs, refl)

module _ (callback : Ref → Timers → List Act) where
  -- The timers after the callback of the first expired one.
  abbrev called : Ref → List Ref → Timers → Timers
  called t ts s = act_all (callback t (popped t ts s)) (popped t ts s)

  fire_loop-nil :
      (fuel : ℕ) (s : Timers)
      → s.expired ≡ []
      → fire_loop callback fuel s ≡ record { fired = []; timers = s }
  unfolding fire_loop
  fire_loop-nil zero s e = refl
  fire_loop-nil (suc fuel) s e = simp (e, fire_loop)

  fire_loop-cons :
      (fuel : ℕ) (s : Timers) (t : Ref) (ts : List Ref)
      → s.expired ≡ t ∷ ts
      → fire_loop callback (suc fuel) s ≡ (
          let rest = fire_loop callback fuel (called t ts s) in
          record { fired = t ∷ rest.fired; timers = rest.timers })
  unfolding fire_loop
  fire_loop-cons fuel s t ts e = rw (e, fire_loop)

  length-called :
      (t : Ref) (ts : List Ref) (s : Timers) → length (called t ts s).expired ≤ length ts
  length-called t ts s = length-act_all (callback t (popped t ts s)) (popped t ts s)

  called-IsConsistent :
      (t : Ref) (ts : List Ref) (s : Timers)
      → s.expired ≡ t ∷ ts
      → IsConsistent s
      → IsConsistent (called t ts s)
  called-IsConsistent t ts s e v =
      act_all-IsConsistent (callback t (popped t ts s)) (popped-IsConsistent t ts s e v)

  pub fire_loop-IsConsistent :
      (fuel : ℕ) (s : Timers) → IsConsistent s → IsConsistent (fire_loop callback fuel s).timers
  unfolding fire_loop
  fire_loop-IsConsistent zero s v = v
  fire_loop-IsConsistent (suc fuel) s v = elim (List-cases s.expired) [
    | inl e ↦ rw (e, fire_loop) v
    | inr (t, ts, e) ↦
        rw (fire_loop-cons fuel s t ts e)
          (fire_loop-IsConsistent fuel (called t ts s) (called-IsConsistent t ts s e v))
  ]

  pub expired-fire_loop :
      (fuel : ℕ) (s : Timers)
      → length s.expired ≤ fuel
      → (fire_loop callback fuel s).timers.expired ≡ []
  expired-fire_loop zero s h = elim (List-cases s.expired) [
    | inl e ↦ rw (fire_loop-nil zero s e) e
    | inr (t, ts, e) ↦ absurd (omega (arith, ap length e))
  ]
  expired-fire_loop (suc fuel) s h = elim (List-cases s.expired) [
    | inl e ↦ rw (fire_loop-nil (suc fuel) s e) e
    | inr (t, ts, e) ↦
        rw (fire_loop-cons fuel s t ts e) (
          expired-fire_loop fuel (called t ts s) (omega (arith, length-called t ts s, ap length e)))
  ]

-- The timer's callback starts and stops no other timer; it may set any interval.
abbrev pub Own : Ref → List Act → Type 0
Own t [] = Unit
Own t (set_interval u sec nsec ∷ acts) = Own t acts
Own t (start now u ∷ acts) = (u ≡ t) × Own t acts
Own t (stop u ∷ acts) = (u ≡ t) × Own t acts

unlink-count : (t : Ref) (us : List Ref) → count t us ≡ 0 → unlink t us ≡ us
unfolding unlink count
unlink-count t [] h = refl
unlink-count t (u ∷ us) h = ground (arith, unlink-count t us)

expired-start :
    (now : Timespec) (t : Ref) (s : Timers)
    → count t s.expired ≡ 0
    → (timer_start now t s).expired ≡ s.expired
unfolding timer_start launch timer_stop
expired-start now t s h = ground (arith, unlink-count t s.expired h)

expired-stop : (t : Ref) (s : Timers) → count t s.expired ≡ 0 → (timer_stop t s).expired ≡ s.expired
unfolding timer_stop
expired-stop t s h = ground (arith, unlink-count t s.expired h)

expired-act_all :
    (t : Ref) (acts : List Act) (s : Timers)
    → Own t acts
    → count t s.expired ≡ 0
    → (act_all acts s).expired ≡ s.expired
unfolding act_all act
expired-act_all t [] s own h = refl
expired-act_all t (set_interval u sec nsec ∷ acts) s own h =
    expired-act_all t acts (act (set_interval u sec nsec) s) own h
expired-act_all t (start now u ∷ acts) s own h =
    let e = expired-start now u s (rw own.0 h) in
    expired-act_all t acts (timer_start now u s) own.1 (rw e h) ∙ e
expired-act_all t (stop u ∷ acts) s own h =
    let e = expired-stop u s (rw own.0 h) in
    expired-act_all t acts (timer_stop u s) own.1 (rw e h) ∙ e

module _ (callback : Ref → Timers → List Act)
    (own : (t : Ref) (s : Timers) → Own t (callback t s)) where
  pub fired-fire_loop :
      (fuel : ℕ) (s : Timers)
      → IsConsistent s
      → length s.expired ≤ fuel
      → (fire_loop callback fuel s).fired ≡ s.expired
  unfolding count
  fired-fire_loop zero s v h = elim (List-cases s.expired) [
    | inl e ↦ rw (fire_loop-nil callback zero s e) (sym e)
    | inr (t, ts, e) ↦ absurd (omega (arith, ap length e))
  ]
  fired-fire_loop (suc fuel) s v h = elim (List-cases s.expired) [
    | inl e ↦ rw (fire_loop-nil callback (suc fuel) s e) (sym e)
    | inr (t, ts, e) ↦
        let once : count t ts ≡ 0 = ground (arith, v.counted t, ap (count t) e) in
        let same =
          expired-act_all t (callback t (popped t ts s)) (popped t ts s) (own t (popped t ts s))
            once in
        let rest =
          fired-fire_loop fuel (called callback t ts s) (called-IsConsistent callback t ts s e v)
            (rw same (omega (arith, ap length e))) in
        rw (fire_loop-cons callback fuel s t ts e) (ap (λ l. t ∷ l) (rest ∙ same) ∙ sym e)
  ]

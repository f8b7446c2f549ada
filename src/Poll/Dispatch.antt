-- ===== src/Poll/Dispatch.antt =====
-- One round of `af_poll_run`, for any callbacks and any answer of `poll`.
use libappf.Poll.{Poll, max_fds, Op, rem, apply, apply_all, Answer, dispatch, poll_run}
use libappf.Poll.Registry.{IsRegistry, apply_all-IsRegistry, entry, entry-poll_rem}
use libappf.Base.{
  zero, length, inr, [], ◌∷◌, none, Bool-cases, inl, refl, ◌≢◌, true, ℕ, ap, suc, ◌&&◌, List, ◌==◌,
  ◌≤◌, if◌then◌else◌, ◌≡◌, arith, take, false,
}
use libappf.Base.Int.{ltb_ℤ, pos, ◌≤ℤ◌}

take_all {ℓ} : {A : Type ℓ} (n : ℕ) (xs : List A) → length xs ≤ n → take n xs ≡ xs
take_all zero [] h = refl
take_all zero (x ∷ xs) h = absurd (omega arith)
take_all (suc n) [] h = refl
take_all (suc n) (x ∷ xs) h = ap (λ l. x ∷ l) (take_all n xs (omega arith))

-- The entries with an event, in the order of the list, each with its events filled in.
unfoldable pub ready : List Poll → List ℕ → List Poll
ready [] revents = []
ready (p ∷ ps) [] = []
ready (p ∷ ps) (r ∷ revents) =
    if r == 0 then ready ps revents else record p { revents = r } ∷ ready ps revents

module _ (handler : Poll → List Op) where
  dispatch-ready :
      (copies : List Poll) (revents : List ℕ) (ps : List Poll)
      → (dispatch handler copies revents ps).calls ≡ ready copies revents
  unfolding dispatch ready
  dispatch-ready [] revents ps = refl
  dispatch-ready (p ∷ copies) [] ps = refl
  dispatch-ready (p ∷ copies) (r ∷ revents) ps = elim (Bool-cases (r == 0)) [
    | inl e ↦ rw e (dispatch-ready copies revents ps)
    | inr e ↦ rw e (
        ap (λ l. record p { revents = r } ∷ l)
          (dispatch-ready copies revents (apply_all (handler (record p { revents = r })) ps)))
  ]

  dispatch-IsRegistry :
      (copies : List Poll) (revents : List ℕ) {ps : List Poll}
      → IsRegistry ps
      → IsRegistry (dispatch handler copies revents ps).polls
  unfolding dispatch
  dispatch-IsRegistry [] revents v = v
  dispatch-IsRegistry (p ∷ copies) [] v = v
  dispatch-IsRegistry (p ∷ copies) (r ∷ revents) v = elim (Bool-cases (r == 0)) [
    | inl e ↦ rw e (dispatch-IsRegistry copies revents v)
    | inr e ↦ rw e (
        dispatch-IsRegistry copies revents
          (apply_all-IsRegistry (handler (record p { revents = r })) v))
  ]

  module _ (poll : List Poll → Answer) where
    -- Whatever the callbacks add and remove, and whatever `poll` answers, the list stays a registry.
    pub poll_run-IsRegistry :
        (ps : List Poll) → IsRegistry ps → IsRegistry (poll_run handler poll ps).1.polls
    unfolding poll_run
    poll_run-IsRegistry [] v = v
    poll_run-IsRegistry (p ∷ ps) v =
        let after =
          dispatch-IsRegistry (take max_fds (p ∷ ps)) (poll (take max_fds (p ∷ ps))).revents v in
        elim (Bool-cases (ltb_ℤ (pos 0) (poll (take max_fds (p ∷ ps))).ret)) [
          | inl e ↦ rw e after
          | inr e ↦ rw e v
        ]

    -- When `poll` reports events, each entry of the whole registry that has one is called once, in
    -- the order of the list and with its events, whatever the callbacks do to the list meanwhile.
    pub poll_run-ready :
        (ps : List Poll)
        → IsRegistry ps
        → ps ≢ []
        → pos 1 ≤ℤ (poll ps).ret
        → ((poll_run handler poll ps).0 ≡ (poll ps).ret)
          × ((poll_run handler poll ps).1.calls ≡ ready ps (poll ps).revents)
    unfolding poll_run
    poll_run-ready [] v some_entry h = absurd (some_entry refl)
    poll_run-ready (p ∷ ps) v some_entry h =
        let all = take_all max_fds (p ∷ ps) v.bounded in
        let up : ltb_ℤ (pos 0) (poll (p ∷ ps)).ret ≡ true = ground arith in
        rw (all, up) (refl, dispatch-ready (p ∷ ps) (poll (p ∷ ps)).revents (p ∷ ps))

    -- When `poll` reports nothing or fails, nothing is called and the list stays; a failure by a
    -- signal is reported as 0, any other as it is.
    pub poll_run_idle :
        (ps : List Poll)
        → IsRegistry ps
        → ps ≢ []
        → (poll ps).ret ≤ℤ pos 0
        → poll_run handler poll ps ≡ (
          if (poll ps).interrupted && ltb_ℤ (poll ps).ret (pos 0) then pos 0 else (poll ps).ret,
          record { calls = []; polls = ps },
        )
    unfolding poll_run
    poll_run_idle [] v some_entry h = absurd (some_entry refl)
    poll_run_idle (p ∷ ps) v some_entry h =
        let all = take_all max_fds (p ∷ ps) v.bounded in
        let down : ltb_ℤ (pos 0) (poll (p ∷ ps)).ret ≡ false = ground arith in
        rw (all, down) (ground arith)

    -- A callback that removes the next ready descriptor does not keep it from being called: after
    -- the removal the descriptor has no entry, and its callback runs all the same, on the old copy.
    pub poll_run_stale :
        (p q : Poll) (ps : List Poll) (r s : ℕ) (revents : List ℕ)
        → IsRegistry (p ∷ q ∷ ps)
        → pos 1 ≤ℤ (poll (p ∷ q ∷ ps)).ret
        → (poll (p ∷ q ∷ ps)).revents ≡ r ∷ s ∷ revents
        → r ≢ 0
        → s ≢ 0
        → handler (record p { revents = r }) ≡ rem q.fd ∷ []
        → (entry q.fd (apply_all (handler (record p { revents = r })) (p ∷ q ∷ ps)) ≡ none)
          × ((poll_run handler poll (p ∷ q ∷ ps)).1.calls
              ≡ record p { revents = r } ∷ record q { revents = s } ∷ ready ps revents)
    unfolding apply_all apply ready
    poll_run_stale p q ps r s revents v up e nr ns drops =
        let calls = (poll_run-ready (p ∷ q ∷ ps) v (λ k. cc) up).1 in
        (
          rw drops (ground (arith, entry-poll_rem q.fd q.fd (p ∷ q ∷ ps) v.distinct)),
          rw (calls, e) (ground arith),
        )

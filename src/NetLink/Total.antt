-- ===== src/NetLink/Total.antt =====
-- `process_NetLink_message` comes to an end on any bytes.
use libappf.NetLink.{Message, Decoded, message, refused, fault, decode}
use libappf.NetLink.Process.{
  go_on, give_up, bad_read, switch, Callbacks, call_back, returned, gave_up, faulted, out_of_fuel,
  Outcome, and_before, process_loop, process, round,
}
use libappf.Base.{
  none, some, ◌%◌, List, Option, ◌<◌, ◌∷◌, length, refl, ℕ, ◌≤◌, arith, ◌+◌, zero, ◌≡◌, [], ◌≢◌,
  suc, ◌++◌, ◌-◌, ◌^◌, drop, length-drop,
}

-- A next packet begins at least four bytes further on, and inside what was there something was read.
next_bounds :
    (buf : List ℕ) (len : ℕ) {m : Message} (n : ℕ)
    → decode buf len ≡ message m
    → m.next ≡ some n
    → (4 ≤ n) × (0 < length buf)
unfolding decode
next_bounds [] len n h e = ground arith
next_bounds (b ∷ bs) len n h e = ground arith

-- A round uses up the fuel only where the rest does.
round_total :
    (callbacks : Callbacks) (rest : ℕ → Outcome) (m : Message)
    → ((n : ℕ) → m.next ≡ some n → (rest n).0 ≢ out_of_fuel)
    → (round callbacks rest m).0 ≢ out_of_fuel
unfolding round
round_total callbacks rest m h =
    elim (switch m)
      as (λ c.
        (elim c as (λ x. Outcome) [
          | bad_read ↦ (faulted, [])
          | give_up ↦ (gave_up, [])
          | go_on events ↦
              and_before (events ++ call_back callbacks m)
                (elim m.next [ none ↦ (returned 1, []) | some n ↦ rest n ])
        ]).0
        ≢ out_of_fuel) [ bad_read ↦ λ e. cc | give_up ↦ λ e. cc | go_on events ↦ follow m.next h ]
  where
    follow :
        (o : Option ℕ)
        → ((n : ℕ) → o ≡ some n → (rest n).0 ≢ out_of_fuel)
        → (let r : Outcome = elim o [ none ↦ (returned 1, []) | some n ↦ rest n ] in r).0
          ≢ out_of_fuel
    follow none k = λ e. cc
    follow (some n) k = k n refl

-- The number of bytes in memory is enough fuel.
process_loop_total :
    (callbacks : Callbacks) (fuel : ℕ) (buf : List ℕ) (len : ℕ)
    → length buf < fuel
    → (process_loop callbacks fuel buf len).0 ≢ out_of_fuel
unfolding process_loop
process_loop_total callbacks zero buf len h = elim h [ ]
process_loop_total callbacks (suc fuel) buf len h =
    go (process_loop_total callbacks fuel) (decode buf len) refl
  where
    rest : ℕ → Outcome
    rest n = process_loop callbacks fuel (drop n buf) ((len + 2 ^ 32 - n) % 2 ^ 32)

    go :
        ((bs : List ℕ) (k : ℕ)
          → length bs < fuel
          → (process_loop callbacks fuel bs k).0 ≢ out_of_fuel)
        → (d : Decoded) → decode buf len ≡ d
        → (process_loop callbacks (suc fuel) buf len).0 ≢ out_of_fuel
    go ih fault e = rw (e, process_loop) (λ k. cc)
    go ih (refused code) e = rw (e, process_loop) (λ k. cc)
    go ih (message m) e =
        rw (e, process_loop)
          (round_total callbacks rest m (λ n k.
            ih (drop n buf) _
              (let b = next_bounds buf len n e k in omega (arith, length-drop n buf, b.0, b.1))))

-- On any bytes `process_NetLink_message` returns, or reads behind the memory.
pub process_total :
    (callbacks : Callbacks) (buf : List ℕ) (len : ℕ) → (process callbacks buf len).0 ≢ out_of_fuel
unfolding process
process_total callbacks buf len =
    process_loop_total callbacks (suc (length buf)) buf len (omega arith)

-- ===== src/NetLink/Stream.antt =====
-- `process_NetLink_message` on whole packets: it handles each message in order.
use libappf.NetLink.{checksum, header, packet, Message}
use libappf.NetLink.Codec.{IsSendable, length-packet, decode-packet}
use libappf.NetLink.Process.{
  Case, go_on, give_up, bad_read, switch, Callbacks, call_back, returned, gave_up, faulted, Outcome,
  and_before, process_loop, process, round,
}
use libappf.Base.{
  none, some, ◌%◌, inl, List, Option, ◌<◌, ◌∷◌, length, refl, if◌then◌else◌, ℕ, ◌≤◌, arith, inr,
  ◌+◌, ◌⊎◌, zero, ◌≡◌, [], ◌≢◌, suc, ◌==◌, ◌++◌, ◌-◌, ◌^◌, drop, ◌∙◌, drop-length_append, subst, ap,
  length-append, false, ap₂, sym, Bool,
}

-- What is put into one packet.
pub record Sent : Type 0 where
  pub destination : ℕ
  pub command : ℕ
  pub subcommand : ℕ
  pub bytes : List ℕ

abbrev pub pack : Sent → List ℕ
pack p = packet p.destination p.command p.subcommand p.bytes

-- The packets one behind the other, as they are received.
abbrev pub pack_all : List Sent → List ℕ
pack_all [] = []
pack_all (p ∷ ps) = pack p ++ pack_all ps

-- The messages that they stand for: each envelope reaches to the end of what was received.
abbrev pub messages : List Sent → List Message
messages [] = []
messages (p ∷ ps) =
    record {
      destination = p.destination;
      command = p.command;
      subcommand = p.subcommand;
      datasize = length p.bytes + 3;
      envelope =
          p.bytes
          ++ (checksum (header p.destination p.command p.subcommand p.bytes) ∷ 0xff ∷ pack_all ps);
      next = if length (pack_all ps) == 0 then none else some (length p.bytes + 7);
    }
    ∷ messages ps

-- The specification: the messages are handled one by one, until one cannot be.
unfoldable pub handle_all : Callbacks → List Message → Outcome
handle_all callbacks [] = (returned 1, [])
handle_all callbacks (m ∷ ms) =
    let rest = handle_all callbacks ms in
    elim (switch m) [
      | bad_read ↦ (faulted, [])
      | give_up ↦ (gave_up, [])
      | go_on events ↦ and_before (events ++ call_back callbacks m) rest
    ]

-- Every packet can be sent, and what follows one is nothing or no multiple of 256 bytes.
abbrev pub IsFramed : List Sent → Type 0
IsFramed [] = Unit
IsFramed (p ∷ ps) =
    IsSendable p.destination p.command p.subcommand p.bytes
    × ((ps ≡ []) ⊎ (length (pack_all ps) % 256 ≢ 0))
    × IsFramed ps

-- The message of a packet, with what is received behind it.
abbrev pub received : Sent → List ℕ → Option ℕ → Message
received p rest next = record {
  destination = p.destination;
  command = p.command;
  subcommand = p.subcommand;
  datasize = length p.bytes + 3;
  envelope =
      p.bytes ++ (checksum (header p.destination p.command p.subcommand p.bytes) ∷ 0xff ∷ rest);
  next = next;
}

-- A round is the handling of its message followed by that of the messages behind it.
round-handle_all :
    (callbacks : Callbacks) (rest : ℕ → Outcome) (m : Message) (ms : List Message)
    → (let r : Outcome = elim m.next [ none ↦ (returned 1, []) | some n ↦ rest n ] in r)
      ≡ handle_all callbacks ms
    → round callbacks rest m ≡ handle_all callbacks (m ∷ ms)
unfolding round handle_all
round-handle_all callbacks rest m ms e = go (switch m) refl
  where
    go : (c : Case) → switch m ≡ c → round callbacks rest m ≡ handle_all callbacks (m ∷ ms)
    go bad_read k = rw (k, round, handle_all)
    go give_up k = rw (k, round, handle_all)
    go (go_on events) k =
        rw (k, round, handle_all) (ap (and_before (events ++ call_back callbacks m)) e)

module _ (callbacks : Callbacks) (p : Sent)
    (v : IsSendable p.destination p.command p.subcommand p.bytes) where
  -- The first round over a packet and `rest`.
  process_loop-pack :
      (fuel : ℕ) (rest : List ℕ)
      → process_loop callbacks (suc fuel) (pack p ++ rest) (length p.bytes + 7 + length rest)
        ≡ round callbacks
            (λ n.
              process_loop callbacks fuel
                (drop n (pack p ++ rest))
                ((length p.bytes + 7 + length rest + 2 ^ 32 - n) % 2 ^ 32))
            (received p rest (if length rest % 256 == 0 then none else some (length p.bytes + 7)))
  unfolding process_loop
  process_loop-pack fuel rest = rw (decode-packet v rest (length rest), process_loop)

  drop-pack : (rest : List ℕ) → drop (length p.bytes + 7) (pack p ++ rest) ≡ rest
  drop-pack rest =
      subst (λ n. drop n (pack p ++ rest) ≡ rest) (length-packet v)
        (drop-length_append (pack p) rest)

handle_all-nil : (callbacks : Callbacks) → handle_all callbacks [] ≡ (returned 1, [])
unfolding handle_all
handle_all-nil callbacks = refl

next_some : (b : Bool) (n : ℕ) → b ≡ false → (if b then none else some n) ≡ some n
next_some b n h = rw h

unframed :
    {q : Sent} {qs : List Sent} (n : ℕ) → (q ∷ qs ≡ []) ⊎ (n % 256 ≢ 0) → (n % 256 == 0) ≡ false
unframed n (inl e) = absurd (cc)
unframed n (inr h) = ground arith

length-pack_all :
    (p : Sent) (ps : List Sent) → IsFramed (p ∷ ps) → length ps ≤ length (pack_all (p ∷ ps))
length-pack_all p [] v = omega arith
length-pack_all p (q ∷ qs) v =
    omega (
      arith,
      length-append (pack p) (pack_all (q ∷ qs)),
      length-packet v.0,
      length-pack_all q qs v.2,
    )

-- The loop over the bytes is the loop over the messages.
process_loop-pack_all :
    (callbacks : Callbacks) (ps : List Sent) (p : Sent) (fuel : ℕ)
    → IsFramed (p ∷ ps)
    → length ps < fuel
    → length (pack_all (p ∷ ps)) < 2 ^ 31
    → process_loop callbacks fuel (pack_all (p ∷ ps)) (length (pack_all (p ∷ ps)))
      ≡ handle_all callbacks (messages (p ∷ ps))
process_loop-pack_all callbacks ps p zero framed f small = elim f [ ]
process_loop-pack_all callbacks [] p (suc fuel) framed f small =
    let size : length (pack p ++ []) ≡ length p.bytes + 7 + 0 =
      omega (arith, length-packet framed.0, length-append (pack p) []) in
    rw size (
      process_loop-pack callbacks p framed.0 fuel []
      ∙ round-handle_all callbacks _ (received p [] none) [] (sym (handle_all-nil callbacks)))
process_loop-pack_all callbacks (q ∷ qs) p (suc fuel) framed f small =
    let rest = pack_all (q ∷ qs) in
    let size : length (pack p ++ rest) ≡ length p.bytes + 7 + length rest =
      omega (arith, length-packet framed.0, length-append (pack p) rest) in
    let ih =
      process_loop-pack_all callbacks qs q fuel framed.2 (omega arith) (omega (arith, size)) in
    let n = length p.bytes + 7 in
    let more : (if length rest % 256 == 0 then none else some n) ≡ some n =
      next_some _ n (unframed (length rest) framed.1) in
    let left : (if length rest == 0 then none else some n) ≡ some n =
      next_some (length rest == 0) n
        (ground (arith, length-append (pack q) (pack_all qs), length-packet framed.2.0)) in
    let R : ℕ → Outcome = λ k.
      process_loop callbacks fuel (drop k (pack p ++ rest))
        ((n + length rest + 2 ^ 32 - k) % 2 ^ 32) in
    let back : (n + length rest + 2 ^ 32 - n) % 2 ^ 32 ≡ length rest = omega (arith, size) in
    let go_on_at : R n ≡ handle_all callbacks (messages (q ∷ qs)) =
      ap₂ (process_loop callbacks fuel) (drop-pack callbacks p framed.0 rest) back ∙ ih in
    rw size (
      process_loop-pack callbacks p framed.0 fuel rest
      ∙ ap (λ o. round callbacks R (received p rest o)) more
      ∙ round-handle_all callbacks R (received p rest (some n)) (messages (q ∷ qs)) go_on_at
      ∙ ap (λ o. handle_all callbacks (received p rest o ∷ messages (q ∷ qs))) (sym left))

-- Whole packets, received one behind the other in one read of less than 2 GB, are handled message
-- by message, in order, each with the envelope that was sent; the loop stops at the first message
-- that it cannot handle. The conditions are that each packet has at most 252 bytes of data and its
-- destination, command and subcommand are below 256, and that what follows a packet is nothing or
-- no multiple of 256 bytes.
pub process-pack_all :
    (callbacks : Callbacks) (p : Sent) (ps : List Sent)
    → IsFramed (p ∷ ps)
    → length (pack_all (p ∷ ps)) < 2 ^ 31
    → process callbacks (pack_all (p ∷ ps)) (length (pack_all (p ∷ ps)))
      ≡ handle_all callbacks (messages (p ∷ ps))
unfolding process
process-pack_all callbacks p ps framed small =
    process_loop-pack_all callbacks ps p (suc (length (pack_all (p ∷ ps)))) framed
      (omega (arith, length-pack_all p ps framed)) small

-- A message that is followed by a multiple of 256 bytes ends the loop: what is behind it is not
-- handled, whatever it holds.
pub process_dropped :
    (callbacks : Callbacks) (p : Sent) (rest : List ℕ)
    → IsSendable p.destination p.command p.subcommand p.bytes
    → length rest % 256 ≡ 0
    → process callbacks (pack p ++ rest) (length (pack p ++ rest))
      ≡ handle_all callbacks (received p rest none ∷ [])
unfolding process
process_dropped callbacks p rest v h =
    let size : length (pack p ++ rest) ≡ length p.bytes + 7 + length rest =
      omega (arith, length-packet v, length-append (pack p) rest) in
    let last : (if length rest % 256 == 0 then none else some (length p.bytes + 7)) ≡ none =
      ground arith in
    let R : ℕ → Outcome = λ n.
      process_loop callbacks (length (pack p ++ rest)) (drop n (pack p ++ rest))
        ((length p.bytes + 7 + length rest + 2 ^ 32 - n) % 2 ^ 32) in
    ap (process_loop callbacks (suc (length (pack p ++ rest))) (pack p ++ rest)) size
    ∙ process_loop-pack callbacks p v (length (pack p ++ rest)) rest
    ∙ ap (λ o. round callbacks R (received p rest o)) last
    ∙ round-handle_all callbacks R (received p rest none) [] (sym (handle_all-nil callbacks))

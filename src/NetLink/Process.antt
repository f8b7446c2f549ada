-- ===== src/NetLink/Process.antt =====
-- `process_NetLink_message` of tcli.c, with its `switch` and the callback table.
use libappf.NetLink.{Message, message, refused, fault, decode, packet}
use libappf.Base.{
  Option, ◌-◌, ◌||◌, zero, [], if◌then◌else◌, length, suc, false, List, some, ℕ, ◌%◌, ◌==◌, ◌++◌,
  Bool, ◌^◌, none, ◌+◌, ◌&&◌, ◌∷◌, drop,
}

-- What the program does for a message, as far as it can be seen from outside: the notices that it
-- prints, the packets that it sends and the callbacks that it makes.
pub data Event : Type 0 where
  nack : ℕ → Event
  sent : List ℕ → Event
  login_rejected : Event
  login_successful : Event
  login_unrecognized : Event
  called : (command destination subcommand datasize : ℕ) → List ℕ → Event

-- A case of the `switch` goes on behind it, or returns -99. A read behind the memory is a fault.
pub data Case : Type 0 where
  go_on : List Event → Case
  give_up : Case
  bad_read : Case

abbrev pub member : ℕ → List ℕ → Bool
member c [] = false
member c (k ∷ ks) = (c == k) || member c ks

-- The error numbers of a NACK.
abbrev pub nack_codes : List ℕ
nack_codes = 0x01 ∷ 0x02 ∷ 0x03 ∷ 0x04 ∷ 0x05 ∷ 0x06 ∷ 0x07 ∷ 0x08 ∷ 0x10 ∷ 0x11 ∷ []

-- The commands whose case only breaks.
abbrev pub known_commands : List ℕ
known_commands =
    0x20 ∷ 0x30 ∷ 0x21 ∷ 0x31 ∷ 0x22 ∷ 0x32 ∷ 0x36 ∷ 0x23 ∷ 0x37 ∷ 0x40 ∷ 0x41 ∷ 0x50 ∷ 0x51 ∷ 0x52
    ∷ 0x53 ∷ 0x54 ∷ 0x55 ∷ 0x56 ∷ 0x57 ∷ 0x58 ∷ 0x59 ∷ 0x60 ∷ 0x61 ∷ 0x70 ∷ 0x71 ∷ 0x73 ∷ 0x74
    ∷ 0x76 ∷ 0x77 ∷ 0x80 ∷ 0x81 ∷ 0x82 ∷ 0x90 ∷ 0x91 ∷ 0x93 ∷ 0x94 ∷ 0x95 ∷ []

-- `switch ( *envelope )` of a NACK.
unfoldable pub nack_case : List ℕ → Case
nack_case [] = bad_read
nack_case (e ∷ es) = if member e nack_codes then go_on (nack e ∷ []) else give_up

-- The answer to a login.
unfoldable pub login_case : List ℕ → Case
login_case [] = bad_read
login_case (e ∷ es) =
    if e == 0
    then go_on (login_rejected ∷ [])
    else if e == 1
    then go_on (login_successful ∷ [])
    else go_on (login_unrecognized ∷ [])

-- `switch ( (unsigned char)command )`.
unfoldable pub switch : Message → Case
switch m =
    if m.command == 0x10
    then nack_case m.envelope
    else if m.command == 0x01
    then go_on (if m.subcommand == 1 then sent (packet 0 0x01 0x10 []) ∷ [] else [])
    else if m.command == 0x02
    then (if (m.subcommand == 0x10) && (m.datasize == 4) then login_case m.envelope else go_on [])
    else if member m.command known_commands
    then go_on []
    else give_up

-- The callbacks registered in `CommandCallBack`, each with what it does.
abbrev pub Callbacks : Type 0
Callbacks = ℕ → Option (Message → List Event)

-- `if ( CommandCallBack[command] ) GET_CALLBACK(command)( ... )`: the call, and what it does.
unfoldable pub call_back : Callbacks → Message → List Event
call_back callbacks m = elim (callbacks m.command) [
  | none ↦ []
  | some f ↦ called m.command m.destination m.subcommand m.datasize m.envelope ∷ f m
]

-- What `process_NetLink_message` returns, with what it did on the way; -99 is `gave_up`.
pub data Ending : Type 0 where
  returned : ℕ → Ending
  gave_up : Ending
  faulted : Ending
  out_of_fuel : Ending

abbrev pub Outcome : Type 0
Outcome = Ending × List Event

abbrev pub and_before : List Event → Outcome → Outcome
and_before es (e, fs) = (e, es ++ fs)

-- One round behind the decoding: the `switch`, the callback, and the `rest` at the next packet.
unfoldable pub round : Callbacks → (ℕ → Outcome) → Message → Outcome
round callbacks rest m = elim (switch m) [
  | bad_read ↦ (faulted, [])
  | give_up ↦ (gave_up, [])
  | go_on events ↦
      and_before (events ++ call_back callbacks m)
        (elim m.next [ none ↦ (returned 1, []) | some n ↦ rest n ])
]

-- The loop, on fuel. `templen -= ...` is an `int` that the next call takes as `unsigned int`.
unfoldable pub process_loop : Callbacks → ℕ → List ℕ → ℕ → Outcome
process_loop callbacks zero buf len = (out_of_fuel, [])
process_loop callbacks (suc fuel) buf len = elim (decode buf len) [
  | fault ↦ (faulted, [])
  | refused code ↦ (returned code, [])
  | message m ↦
      round callbacks (λ n. process_loop callbacks fuel (drop n buf) ((len + 2 ^ 32 - n) % 2 ^ 32))
        m
]

-- `process_NetLink_message`. Each round leaves a packet of four bytes at least behind it, so the
-- number of bytes in memory is enough fuel.
unfoldable pub process : Callbacks → List ℕ → ℕ → Outcome
process callbacks buf len = process_loop callbacks (suc (length buf)) buf len

-- `ProcessPing`: on a ping eight packets ask for the state of the outlets 1 to 8.
unfoldable pub process_ping : Message → List Event
process_ping m =
    if m.subcommand == 1
    then sent (packet 0 0x20 0x02 (1 ∷ []))
      ∷ sent (packet 0 0x20 0x02 (2 ∷ []))
      ∷ sent (packet 0 0x20 0x02 (3 ∷ []))
      ∷ sent (packet 0 0x20 0x02 (4 ∷ []))
      ∷ sent (packet 0 0x20 0x02 (5 ∷ []))
      ∷ sent (packet 0 0x20 0x02 (6 ∷ []))
      ∷ sent (packet 0 0x20 0x02 (7 ∷ []))
      ∷ sent (packet 0 0x20 0x02 (8 ∷ []))
      ∷ []
    else []

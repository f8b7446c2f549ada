-- ===== src/NetLink/Send.antt =====
-- `send_NetLink_command` and `send_NetLink_login` of tcli.c: what is handed to the socket.
use libappf.Base.{
  ℕ, ◌≤◌, ◌≡◌, true, [], ◌++◌, ◌↔◌, if◌then◌else◌, Bool, none, ◌∷◌, List, length, ◌==◌, ◌+◌, arith,
  subst, refl, ◌∙◌, sym, append-nil,
}
use libappf.Client.Send.{
  Status, Sending, client_send_raw, af_ok, af_timeout, af_errno, af_socket, af_buffer,
  client_send_raw-ok,
}
use libappf.NetLink.{packet, header, checksum, Message, message, decode}
use libappf.NetLink.Codec.{IsSendable, decode-packet, length-packet}
use libappf.Base.Int.{pos}

-- What is left of a command: `exitval`, and `tcli.conn.busy`.
pub record Sent : Type 0 where
  pub exitval : ℕ
  pub busy : Bool

-- `switch ( status )`
unfoldable pub conclude_send : Bool → Status → Sent
conclude_send busy af_ok = record { exitval = 0; busy = true }
conclude_send busy af_timeout = record { exitval = 1; busy = busy }
conclude_send busy af_errno = record { exitval = 1; busy = busy }
conclude_send busy af_socket = record { exitval = 1; busy = busy }
conclude_send busy af_buffer = record { exitval = 1; busy = busy }

-- `send_NetLink_command`, with the flag `tcli.conn.busy`.
unfoldable pub send_command :
    (List ℕ → Sending) → Bool → (destination command subcommand : ℕ) → List ℕ → Sent
unfolding conclude_send
send_command send busy destination command subcommand data' =
    conclude_send busy (client_send_raw send (packet destination command subcommand data'))

-- `strcpy(userpassword,"user|"); strcat(userpassword,password)`
abbrev pub credentials : List ℕ → List ℕ
credentials password = b'u' ∷ b's' ∷ b'e' ∷ b'r' ∷ b'|' ∷ password

-- The return of `send_NetLink_login` from that of `send_NetLink_command`.
abbrev pub login_status : ℕ → ℕ
login_status n = if n == 0 then 0 else 1

-- `send_NetLink_login`: CLOGIN is 2 and SSET is 1.
unfoldable pub send_login : (List ℕ → Sending) → Bool → List ℕ → Sent
unfolding send_command
send_login send busy password =
    let sent = send_command send busy 0 2 1 (credentials password) in
    record { exitval = login_status sent.exitval; busy = sent.busy }

-- The login as it is received.
pub login_message : List ℕ → Message
login_message password = record {
  destination = 0;
  command = 2;
  subcommand = 1;
  datasize = length (credentials password) + 3;
  envelope = credentials password ++ (checksum (header 0 2 1 (credentials password)) ∷ 0xff ∷ []);
  next = none;
}

exitval-ok :
    (busy : Bool) (st : Status) → (login_status (conclude_send busy st).exitval ≡ 0) ↔ (st ≡ af_ok)
unfolding conclude_send
exitval-ok busy af_ok = (λ h. refl, λ h. refl)
exitval-ok busy af_timeout = (λ h. absurd (omega (arith, h)), λ h. absurd (ground (arith, h)))
exitval-ok busy af_errno = (λ h. absurd (omega (arith, h)), λ h. absurd (ground (arith, h)))
exitval-ok busy af_socket = (λ h. absurd (omega (arith, h)), λ h. absurd (ground (arith, h)))
exitval-ok busy af_buffer = (λ h. absurd (omega (arith, h)), λ h. absurd (ground (arith, h)))

exitval-login :
    (send : List ℕ → Sending) (busy : Bool) (password : List ℕ)
    → (send_login send busy password).exitval ≡ (
        if (conclude_send busy (client_send_raw send (packet 0 2 1 (credentials password)))).exitval
          == 0
        then 0
        else 1)
unfolding send_login send_command
exitval-login send busy password = ground arith

login-IsSendable :
    (password : List ℕ) → length password ≤ 247 → IsSendable 0 2 1 (credentials password)
login-IsSendable password h = record {
  destination_byte = omega arith;
  command_byte = omega arith;
  subcommand_byte = omega arith;
  fits = omega (arith, h);
}

login_packet-decode :
    (password : List ℕ)
    → length password ≤ 247
    → decode (packet 0 2 1 (credentials password)) (length (packet 0 2 1 (credentials password)))
      ≡ message (login_message password)
unfolding login_message
login_packet-decode password h =
    let v = login-IsSendable password h in
    let e : length (packet 0 2 1 (credentials password)) ≡ length (credentials password) + 7 + 0 =
      omega (arith, length-packet v) in
    let d = decode-packet v [] 0 in
    rw e (
      subst
        (λ p. decode p (length (credentials password) + 7 + 0) ≡ message (login_message password))
        (append-nil (packet 0 2 1 (credentials password))) d)

-- A login with a password of at most 247 bytes is sent as a packet that is taken apart into a login
-- with `user|` and the password, and it is reported as sent (0) exactly when the socket took the
-- whole packet.
pub send_login-sent :
    (send : List ℕ → Sending) (busy : Bool) (password : List ℕ)
    → length password ≤ 247
    → let p = packet 0 2 1 (credentials password) in
      (decode p (length p) ≡ message (login_message password))
      × (((send_login send busy password).exitval ≡ 0) ↔ ((send p).ret ≡ pos (length p)))
send_login-sent send busy password h =
    let p = packet 0 2 1 (credentials password) in
    let sent = exitval-ok busy (client_send_raw send p) in
    let took = client_send_raw-ok send p in
    let e = exitval-login send busy password in
    (login_packet-decode password h, (λ k. took.0 (sent.0 (sym e ∙ k)), λ k. e ∙ sent.1 (took.1 k)))

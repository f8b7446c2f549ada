-- ===== src/NetLink/Tests.antt =====
-- Runs of the NetLink codec, and its theorems at concrete inputs.
use libappf.NetLink.{checksum, header, packet, message, fault, decode}
use libappf.NetLink.Codec.{IsSendable, decode-packet}
use libappf.NetLink.Overrun.{IsAccepted, decode_overrun, decode-IsAccepted}
use libappf.NetLink.Process.{
  sent, login_successful, Callbacks, returned, out_of_fuel, process, process_loop, round, switch,
  call_back, login_case, nack_case,
}
use libappf.Client.Send.{Sending}
use libappf.NetLink.Send.{credentials, login_message, send_login, send_login-sent}
use libappf.Base.Int.{pos}
use libappf.NetLink.Total.{process_total}
use libappf.NetLink.Stream.{
  Sent, pack, pack_all, messages, received, handle_all, IsFramed, process-pack_all,
}
use libappf.Base.{
  ◌++◌, none, [], ◌≢◌, refl, inr, ◌≡◌, List, some, ◌∷◌, inl, ℕ, length, arith, false, ◌↔◌,
}

-- The answer to a login, and a ping.
abbrev login : Sent
login = record { destination = 0; command = 2; subcommand = 0x10; bytes = 1 ∷ [] }

abbrev ping : Sent
ping = record { destination = 0; command = 1; subcommand = 1; bytes = [] }

abbrev silent : Callbacks
silent c = none

ping-packet : pack ping ≡ 0xfe ∷ 3 ∷ 0 ∷ 1 ∷ 1 ∷ 3 ∷ 0xff ∷ []
unfolding packet header checksum
ping-packet = refl

process-login :
    process silent (pack_all (login ∷ ping ∷ [])) 15
    ≡ (returned 1, login_successful ∷ sent (packet 0 0x01 0x10 []) ∷ [])
unfolding process process_loop round switch call_back login_case nack_case decode packet header
    checksum
process-login = refl

login-IsSendable : IsSendable 0 2 0x10 (1 ∷ [])
login-IsSendable = omega arith

framed : IsFramed (login ∷ ping ∷ [])
unfolding packet header
framed = (login-IsSendable, inr (omega arith), (omega arith, inl refl, tt))

decode-packet_example :
    decode (packet 0 2 0x10 (1 ∷ []) ++ pack ping) 15
    ≡ message (record {
      destination = 0;
      command = 2;
      subcommand = 0x10;
      datasize = 4;
      envelope = (1 ∷ []) ++ (checksum (header 0 2 0x10 (1 ∷ [])) ∷ 0xff ∷ pack ping);
      next = some 8;
    })
decode-packet_example = decode-packet login-IsSendable (pack ping) 7

-- A message that promises 20 bytes where 7 came.
abbrev short : List ℕ
short = 0xfe ∷ 20 ∷ 0 ∷ 1 ∷ 1 ∷ 3 ∷ 0xff ∷ []

decode_overrun_example : decode short 7 ≡ fault
decode_overrun_example = decode_overrun short 20 (omega arith) refl (omega arith)

decode-IsAccepted_example : IsAccepted (pack ping) 7 (received ping [] none)
unfolding decode packet header checksum
decode-IsAccepted_example = decode-IsAccepted (pack ping) 7 refl

process_total_example : (process silent short 7).0 ≢ out_of_fuel
process_total_example = process_total silent short 7

process-pack_all_example :
    process silent (pack_all (login ∷ ping ∷ [])) 15
    ≡ handle_all silent (messages (login ∷ ping ∷ []))
unfolding packet header
process-pack_all_example = process-pack_all silent login (ping ∷ []) framed (omega arith)

-- A socket that takes every byte.
abbrev accepting : List ℕ → Sending
accepting bytes = record { ret = pos (length bytes); would_block = false }

send_login-sent_example :
    let p = packet 0 2 1 (credentials (b'p' ∷ b'w' ∷ [])) in
    (decode p (length p) ≡ message (login_message (b'p' ∷ b'w' ∷ [])))
    × (((send_login accepting false (b'p' ∷ b'w' ∷ [])).exitval ≡ 0)
        ↔ (pos (length p) ≡ pos (length p)))
send_login-sent_example = send_login-sent accepting false (b'p' ∷ b'w' ∷ []) (omega arith)

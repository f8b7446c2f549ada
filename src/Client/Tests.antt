-- ===== src/Client/Tests.antt =====
-- Runs of the client, and its theorems at concrete inputs.
use libappf.Base.{ℕ, false, true, refl, ◌↔◌, length, ap, ◌∷◌, ◌≡◌, List, []}
use libappf.Base.Int.{pos, negsuc}
use libappf.Client.Prompt.{Detector}
use libappf.Client.Send.{
  Sending, client_send, ends_line, line, client_send-ok_iff, client_send_raw, af_ok, sent_all,
  IsLine,
}
use libappf.Client.Connect.{
  Socket, Answers, in_progress, ready, client_connect, IsConnected, client_connect-zero,
  connect_timeout, connected,
}

-- A socket that takes three bytes.
abbrev three_bytes : List ℕ → Sending
three_bytes bytes = record { ret = pos 3; would_block = false }

send_adds_newline : client_send three_bytes b'o' (b'n' ∷ []) ≡ af_ok
unfolding client_send client_send_raw line ends_line sent_all
send_adds_newline = refl

client_send-ok_iff_example :
    IsLine (b'o' ∷ b'f' ∷ b'f' ∷ []) (line b'o' (b'f' ∷ b'f' ∷ []))
    × ((client_send three_bytes b'o' (b'f' ∷ b'f' ∷ []) ≡ af_ok)
        ↔ (pos 3 ≡ pos (length (line b'o' (b'f' ∷ b'f' ∷ [])))))
client_send-ok_iff_example = client_send-ok_iff three_bytes b'o' (b'f' ∷ b'f' ∷ [])

abbrev answers : Answers
answers = record {
  socket = pos 5;
  get_flags = true;
  set_flags = true;
  connect = in_progress;
  polled = ready;
  get_error = true;
  error = 0;
  restore_flags = true;
}

abbrev closed : Socket
closed = record { sock = negsuc 0; nonblocking = false }

connect_answers :
    client_connect answers closed ≡ (pos 0, record { sock = pos 5; nonblocking = false })
unfolding client_connect connect_timeout connected
connect_answers = refl

client_connect-zero_example : IsConnected answers closed (client_connect answers closed).1
client_connect-zero_example = client_connect-zero answers closed (ap (λ r. r.0) connect_answers)

abbrev det : Detector
det = record { prompt = b'd' ∷ b'>' ∷ []; saved = [] }

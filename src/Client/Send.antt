-- ===== src/Client/Send.antt =====
-- `af_client_send` and `af_client_send_raw` of appf_client.c.
use libappf.Base.{
  ℕ, ◌≡◌, inl, ◌↔◌, Bool-cases, ◌==◌, refl, inr, ◌++◌, false, Bool, List, if◌then◌else◌, length, [],
  true, ◌∷◌, arith, ◌≢◌, sym, ap, ◌∙◌,
}
use libappf.Base.Int.{ℤ, pos, ltb_ℤ, negsuc}
use mathlib.Core.Bool.{false≢true}

-- `AF_OK`, `AF_TIMEOUT`, `AF_ERRNO`, `AF_SOCKET` and `AF_BUFFER`.
pub data Status : Type 0 where
  af_ok : Status
  af_timeout : Status
  af_errno : Status
  af_socket : Status
  af_buffer : Status

-- What `send` answers for the bytes: its result, and whether `errno` is EAGAIN or EWOULDBLOCK.
pub record Sending : Type 0 where
  pub ret : ℤ
  pub would_block : Bool

-- `rt != cmd_len` for an `rt` that is not negative.
unfoldable pub sent_all : ℤ → ℕ → Bool
sent_all (pos n) k = n == k
sent_all (negsuc n) k = false

-- `af_client_send_raw`
unfoldable pub client_send_raw : (List ℕ → Sending) → List ℕ → Status
unfolding sent_all
client_send_raw send cmd =
    let r = send cmd in
    if ltb_ℤ r.ret (pos 0)
    then (if r.would_block then af_timeout else af_errno)
    else if sent_all r.ret (length cmd)
    then af_ok
    else af_socket

-- `cmd[cmd_len-1] == '\n'`, for a command with the first byte `c` and `cs` behind it.
unfoldable pub ends_line : (c : ℕ) → List ℕ → Bool
ends_line c [] = c == 0x0a
ends_line c (d ∷ cs) = ends_line d cs

-- The bytes that `af_client_send` hands over: the newline is added where it is missing. The byte
-- behind the command is 0 again afterwards.
unfoldable pub line : (c : ℕ) → List ℕ → List ℕ
line c cs = if ends_line c cs then c ∷ cs else c ∷ cs ++ 0x0a ∷ []

-- `af_client_send` of the command `c ∷ cs`. The code reads the byte in front of an empty command,
-- which is left out.
unfoldable pub client_send : (List ℕ → Sending) → (c : ℕ) → List ℕ → Status
unfolding line client_send_raw
client_send send c cs = client_send_raw send (line c cs)

-- `wire` is the command as one line: the command itself where a newline is its last byte, and else
-- the command with a newline behind it.
pub data IsLine (cmd : List ℕ) : (wire : List ℕ) → Type 0 where
  complete : (text : List ℕ) → cmd ≡ text ++ 0x0a ∷ [] → IsLine cmd cmd
  completed : ((text : List ℕ) → cmd ≢ text ++ 0x0a ∷ []) → IsLine cmd (cmd ++ 0x0a ∷ [])

ends_newline : List ℕ → Bool
ends_newline [] = false
ends_newline (c ∷ cs) = ends_line c cs

ends_newline-append : (text : List ℕ) → ends_newline (text ++ 0x0a ∷ []) ≡ true
unfolding ends_newline ends_line
ends_newline-append [] = refl
ends_newline-append (c ∷ []) = refl
ends_newline-append (c ∷ d ∷ cs) = ends_newline-append (d ∷ cs)

ends_line-append :
    (c : ℕ) (cs : List ℕ) → ends_line c cs ≡ true → (text : List ℕ) × (c ∷ cs ≡ text ++ 0x0a ∷ [])
unfolding ends_line
ends_line-append c [] h = ([], ap (λ d. d ∷ []) (ground (arith, h)))
ends_line-append c (d ∷ cs) h =
    let (text, e) = ends_line-append d cs h in (c ∷ text, ap (λ t. c ∷ t) e)

line-IsLine : (c : ℕ) (cs : List ℕ) → IsLine (c ∷ cs) (line c cs)
unfolding line ends_newline
line-IsLine c cs = elim (Bool-cases (ends_line c cs)) [
  | inl e ↦ let (text, p) = ends_line-append c cs e in rw e (complete text p)
  | inr e ↦
      rw e (completed (λ text p. false≢true (sym e ∙ ap ends_newline p ∙ ends_newline-append text)))
]

status-ok :
    (r : ℤ) (w : Bool) (n : ℕ)
    → ((if ltb_ℤ r (pos 0)
          then (if w then af_timeout else af_errno)
          else if sent_all r n
          then af_ok
          else af_socket)
        ≡ af_ok)
      ↔ (r ≡ pos n)
unfolding sent_all
status-ok (pos m) w n = (λ h. ground (arith, h), λ h. ground (arith, h))
status-ok (negsuc m) true n = (λ h. ground (arith, h), λ h. ground (arith, h))
status-ok (negsuc m) false n = (λ h. ground (arith, h), λ h. ground (arith, h))

pub client_send_raw-ok :
    (send : List ℕ → Sending) (cmd : List ℕ)
    → (client_send_raw send cmd ≡ af_ok) ↔ ((send cmd).ret ≡ pos (length cmd))
unfolding client_send_raw sent_all
client_send_raw-ok send cmd = status-ok (send cmd).ret (send cmd).would_block (length cmd)

-- For a command that is not empty, `af_client_send` reports success exactly when the system took the
-- whole line, and the line is the command itself where its last byte is a newline, and else the
-- command with a newline behind it.
pub client_send-ok_iff :
    (send : List ℕ → Sending) (c : ℕ) (cs : List ℕ)
    → IsLine (c ∷ cs) (line c cs)
      × ((client_send send c cs ≡ af_ok) ↔ ((send (line c cs)).ret ≡ pos (length (line c cs))))
unfolding client_send
client_send-ok_iff send c cs = (line-IsLine c cs, client_send_raw-ok send (line c cs))

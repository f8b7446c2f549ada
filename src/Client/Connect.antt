-- ===== src/Client/Connect.antt =====
-- `af_client_connect` and `af_client_disconnect` of appf_client.c.
use libappf.Base.{
  ℕ, ◌&&◌, not, if◌then◌else◌, ◌==◌, Bool, false, true, ◌⊎◌, ◌≡◌, inl, arith, refl, inr, Bool-cases,
}
use libappf.Base.Int.{ℤ, pos, negsuc, ltb_ℤ, ◌≤ℤ◌}

-- The socket of the client: its descriptor, -1 where there is none, and its file status flags, with
-- whether O_NONBLOCK is set beside the others.
pub record Socket : Type 0 where
  pub sock : ℤ
  pub nonblocking : Bool

-- What `connect` answers, and `poll` on the socket.
pub data Connecting : Type 0 where
  at_once : Connecting
  in_progress : Connecting
  refused : Connecting

pub data Polled : Type 0 where
  poll_failed : Polled
  timed_out : Polled
  ready : Polled

-- What the system answers: whether the calls of `fcntl` and `getsockopt` succeed, and the pending
-- error of the socket.
pub record Answers : Type 0 where
  pub socket : ℤ
  pub get_flags : Bool
  pub set_flags : Bool
  pub connect : Connecting
  pub polled : Polled
  pub get_error : Bool
  pub error : ℕ
  pub restore_flags : Bool

-- The part in the middle: is the socket connected?
unfoldable pub connected : Answers → Bool
connected a = elim a.connect [
  | at_once ↦ true
  | refused ↦ false
  | in_progress ↦ elim a.polled [
    | poll_failed ↦ false
    | timed_out ↦ false
    | ready ↦ a.get_error && (a.error == 0)
  ]
]

-- `_af_client_connect_timeout`: 0 or -1, and the socket with its flags.
unfoldable pub connect_timeout : Answers → Socket → ℤ × Socket
unfolding connected
connect_timeout a s =
    if not a.get_flags
    then (negsuc 0, s)
    else if not a.set_flags
    then (negsuc 0, s)
    else if a.restore_flags
    then (if connected a then pos 0 else negsuc 0, s)
    else (negsuc 0, record s { nonblocking = true })

-- `af_client_connect`
unfoldable pub client_connect : Answers → Socket → ℤ × Socket
unfolding connect_timeout
client_connect a s =
    if ltb_ℤ s.sock (pos 0)
    then (if ltb_ℤ a.socket (pos 0)
        then (negsuc 0, record s { sock = a.socket })
        else connect_timeout a (record { sock = a.socket; nonblocking = false }))
    else connect_timeout a s

-- What it takes for `af_client_connect` to return 0.
pub record IsConnected (a : Answers) (s r : Socket) : Type 0 where
  pub completed :
      (a.connect ≡ at_once)
      ⊎ ((a.connect ≡ in_progress) × (a.polled ≡ ready) × (a.get_error ≡ true) × (a.error ≡ 0))
  pub has_socket : pos 0 ≤ℤ r.sock
  pub same_mode : r.nonblocking ≡ (if ltb_ℤ s.sock (pos 0) then false else s.nonblocking)

ready-true :
    (p : Polled) (ok : Bool) (n : ℕ)
    → (elim p as (λ q. Bool) [ poll_failed ↦ false | timed_out ↦ false | ready ↦ ok && (n == 0) ])
      ≡ true
    → (p ≡ ready) × (ok ≡ true) × (n ≡ 0)
ready-true poll_failed ok n h = absurd (ground (arith, h))
ready-true timed_out ok n h = absurd (ground (arith, h))
ready-true ready ok n h = (refl, ground (arith, h), ground (arith, h))

connected-true :
    (a : Answers)
    → connected a ≡ true
    → (a.connect ≡ at_once)
      ⊎ ((a.connect ≡ in_progress) × (a.polled ≡ ready) × (a.get_error ≡ true) × (a.error ≡ 0))
unfolding connected
connected-true a =
    elim a.connect
      as (λ c.
        ((elim c as (λ q. Bool) [
          | at_once ↦ true
          | refused ↦ false
          | in_progress ↦ elim a.polled [
            | poll_failed ↦ false
            | timed_out ↦ false
            | ready ↦ a.get_error && (a.error == 0)
          ]
        ])
          ≡ true)
        → (c ≡ at_once)
          ⊎ ((c ≡ in_progress) × (a.polled ≡ ready) × (a.get_error ≡ true) × (a.error ≡ 0))) [
            | at_once ↦ λ h. inl refl
            | refused ↦ λ h. absurd (ground (arith, h))
            | in_progress ↦
                λ h. let r = ready-true a.polled a.get_error a.error h in inr (refl, r.0, r.1, r.2)
          ]

connect_timeout-zero :
    (a : Answers) (s : Socket)
    → (connect_timeout a s).0 ≡ pos 0
    → (connected a ≡ true) × ((connect_timeout a s).1 ≡ s)
unfolding connect_timeout
connect_timeout-zero a s h = ground (arith, h)

from-timeout :
    (a : Answers) (s t : Socket)
    → (connect_timeout a t).0 ≡ pos 0
    → pos 0 ≤ℤ t.sock
    → t.nonblocking ≡ (if ltb_ℤ s.sock (pos 0) then false else s.nonblocking)
    → IsConnected a s (connect_timeout a t).1
from-timeout a s t h k m =
    let z = connect_timeout-zero a t h in
    record { completed = connected-true a z.0; has_socket = rw z.1 k; same_mode = rw z.1 m }

-- Where `af_client_connect` returns 0 the connection was made, at once or within the time, where
-- `getsockopt` succeeded and told of no pending error; the client has a socket, and it is in the mode that it had before, or blocking if
-- it is new.
pub client_connect-zero :
    (a : Answers) (s : Socket)
    → (client_connect a s).0 ≡ pos 0
    → IsConnected a s (client_connect a s).1
unfolding client_connect
client_connect-zero a s = elim (Bool-cases (ltb_ℤ s.sock (pos 0))) [
  | inl e ↦ rw e (elim (Bool-cases (ltb_ℤ a.socket (pos 0))) [
    | inl f ↦ rw f (λ h. absurd (ground (arith, h)))
    | inr f ↦ rw f (λ h.
        from-timeout a s (record { sock = a.socket; nonblocking = false }) h (ground (arith, f))
          (rw e refl))
  ])
  | inr e ↦ rw e (λ h. from-timeout a s s h (ground (arith, e)) (rw e refl))
]

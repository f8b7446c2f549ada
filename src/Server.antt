-- ===== src/Server.antt =====
-- appf_server.c, and the server structures of appf.h: a telnet server with its connections.
pub mod Start
pub mod Events
pub mod Account
pub mod Accept
pub mod Disconnect
pub mod Stop
pub mod Handling
pub mod Returns
pub mod Open
mod Tests
use libappf.Base.{
  ℕ, none, ◌||◌, [], Bool, if◌then◌else◌, Option, ◌==◌, suc, zero, some, not, List, false, length,
  ◌∷◌, true,
}
use libappf.Base.Int.{ℤ, ◌+ℤ◌, ltb_ℤ, pos, negsuc}
use libappf.Poll.{Poll, Op, poll_add, poll_rem, apply_all}

-- `struct _af_server_cnx_s`. `id` is the address of the structure, and `dup` is the descriptor of
-- `fh`, which every connection of `_af_server_add_connection` has. The user's data is left out.
pub record Cnx : Type 0 where
  pub id : ℕ
  pub fd : ℕ
  pub dup : ℕ

-- `struct _af_server_s`, with the daemon's list `poll_head`, the descriptors that the process has
-- open, what was appended to /etc/services and the descriptors to which the prompt was sent.
-- `service` and `prompt` are `none` where they are NULL, and `fd` is `none` where it is -1.
pub record Server : Type 0 where
  pub service : Option (List ℕ)
  pub prompt : Option (List ℕ)
  pub port : ℤ
  pub max_cnx : ℤ
  pub fd : Option ℕ
  pub num_cnx : ℤ
  pub cnx : List Cnx
  pub polls : List Poll
  pub descriptors : List ℕ
  pub services : List (List ℕ × ℤ × List ℕ)
  pub sent : List ℕ

-- The callbacks of the poll list: `_af_server_handle_new_connection` and
-- `_af_server_cnx_handle_event`.
abbrev pub new_connection_event : ℕ
new_connection_event = 1

abbrev pub cnx_event : ℕ
cnx_event = 2

-- `close( fd )`
pub release : ℕ → List ℕ → List ℕ
release fd [] = []
release fd (f ∷ fs) = if f == fd then fs else f ∷ release fd fs

abbrev pub close : ℕ → Server → Server
close fd s = record s { descriptors = release fd s.descriptors }

abbrev pub opened : ℕ → Server → Server
opened fd s = record s { descriptors = fd ∷ s.descriptors }

-- Whether the calls of `setsockopt` for TCP_NODELAY, SO_REUSEADDR and SO_LINGER succeed.
pub record SockOpts : Type 0 where
  pub nodelay : Bool
  pub reuse : Bool
  pub linger : Bool

-- `af_server_set_sockopts`: whether it returns 0. It closes the descriptor itself where TCP_NODELAY
-- or SO_REUSEADDR fails, and leaves it open where SO_LINGER fails. A failure of `fcntl` is logged
-- only.
unfoldable pub set_sockopts : SockOpts → (fd : ℕ) → (server_sock : Bool) → Server → Bool × Server
set_sockopts o fd server_sock s =
    if not o.nodelay
    then (false, close fd s)
    else if server_sock
    then (if o.reuse then (true, s) else (false, close fd s))
    else (o.linger, s)

-- What the system answers to `_af_server_add_connection`: the descriptors of `accept` and `dup`, the
-- address of the new structure, whether the calls of `setsockopt` for the first descriptor and for its
-- copy succeed, and whether `getpeername` and `fdopen` do.
pub record Accepting : Type 0 where
  pub accepted : Option ℕ
  pub peer : Bool
  pub allocated : Option ℕ
  pub options : SockOpts
  pub duplicated : Option ℕ
  pub dup_options : SockOpts
  pub stream : Bool

-- From `fdopen` on.
unfoldable pub open_stream : Accepting → (id fd dup : ℕ) → Server → Option Cnx × Server
open_stream a id fd dup s =
    let c : Cnx = record { id = id; fd = fd; dup = dup } in
    if not a.stream
    then (none, close dup (close fd s))
    else (some c, record s { cnx = c ∷ s.cnx; num_cnx = s.num_cnx +ℤ pos 1 })

-- From the second `af_server_set_sockopts` on. Where that fails, only `fd` is closed here.
unfoldable pub join : Accepting → (id fd dup : ℕ) → Server → Option Cnx × Server
unfolding open_stream
join a id fd dup s =
    let r = set_sockopts a.dup_options dup false s in
    if not r.0 then (none, close fd r.1) else open_stream a id fd dup r.1

-- From `dup` on.
unfoldable pub copy : Accepting → (id fd : ℕ) → Server → Option Cnx × Server
unfolding join
copy a id fd s = elim a.duplicated [
  | none ↦ (none, close fd s)
  | some dup ↦ join a id fd dup (opened dup s)
]

-- From `calloc` on. Where the first `af_server_set_sockopts` fails, `fd` is closed here, also where
-- that function has closed it already.
unfoldable pub duplicate : Accepting → (fd : ℕ) → Server → Option Cnx × Server
unfolding copy
duplicate a fd s = elim a.allocated [
  | none ↦ (none, close fd s)
  | some id ↦
      let r = set_sockopts a.options fd false s in
      if not r.0 then (none, close fd r.1) else copy a id fd r.1
]

-- `_af_server_add_connection`
unfoldable pub add_connection : Accepting → Server → Option Cnx × Server
unfolding duplicate
add_connection a s = elim a.accepted [
  | none ↦ (none, s)
  | some fd ↦
      if ltb_ℤ s.num_cnx s.max_cnx
      then (if a.peer then duplicate a fd (opened fd s) else (none, close fd (opened fd s)))
      else (none, close fd (opened fd s))
]

-- The search for a connection in the list, and the list without it.
pub live : ℕ → List Cnx → Bool
live id [] = false
live id (c ∷ cs) = (c.id == id) || live id cs

pub without : ℕ → List Cnx → List Cnx
without id [] = []
without id (c ∷ cs) = if c.id == id then cs else c ∷ without id cs

-- `_af_server_rem_instance`: both descriptors are closed, and the connection leaves the list.
unfoldable pub rem_instance : Option Cnx → Server → Server
rem_instance none s = s
rem_instance (some c) s = record s {
  descriptors = release c.fd (release c.dup s.descriptors);
  cnx = without c.id s.cnx;
  num_cnx = if live c.id s.cnx then s.num_cnx +ℤ negsuc 0 else s.num_cnx;
}

-- `af_server_disconnect`; `goodbye` is what the user's disconnection callback does to the poll list.
unfoldable pub server_disconnect : (Cnx → List Op) → Option Cnx → Server → Server
unfolding rem_instance
server_disconnect goodbye none s = s
server_disconnect goodbye (some c) s =
    rem_instance (some c) (record s { polls = apply_all (goodbye c) (poll_rem c.fd s.polls) })

-- `af_server_disconnect_all`: the loop, on fuel, and with the number of connections as the fuel.
pub disconnect_loop : (Cnx → List Op) → ℕ → Server → Server
disconnect_loop goodbye zero s = s
disconnect_loop goodbye (suc fuel) s = elim s.cnx [
  | [] ↦ s
  | c ∷ cs ↦ disconnect_loop goodbye fuel (server_disconnect goodbye (some c) s)
]

unfoldable pub disconnect_all : (Cnx → List Op) → Server → Server
disconnect_all goodbye s = disconnect_loop goodbye (length s.cnx) s

-- `af_server_stop`
unfoldable pub server_stop : (Cnx → List Op) → Server → Server
server_stop goodbye s =
    let s' = disconnect_all goodbye s in
    elim s'.fd [
      | none ↦ s'
      | some fd ↦ record s' {
        polls = poll_rem fd s'.polls;
        descriptors = release fd s'.descriptors;
        fd = none;
      }
    ]

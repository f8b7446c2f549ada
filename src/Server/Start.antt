-- ===== src/Server/Start.antt =====
-- `af_server_start`, and how it finds the port and the prompt of a service.
use libappf.Base.{
  ℕ, some, false, List, none, ◌++◌, if◌then◌else◌, ◌∷◌, [], Bool, take, Option, ◌==◌, not, true,
}
use libappf.Base.Int.{ℤ, negsuc, pos}
use libappf.Poll.{poll_add}
use libappf.Server.{Server, opened, close, new_connection_event, SockOpts, set_sockopts}

-- What `getservbyname` reports of a service: its name, its port in the byte order of the host, and
-- its other names.
pub record Servent : Type 0 where
  pub name : List ℕ
  pub port : ℕ
  pub aliases : List (List ℕ)

-- `alias[strlen(alias)-1] == '>'`, for a name that is not empty.
unfoldable pub is_prompt : List ℕ → Bool
is_prompt [] = false
is_prompt (b ∷ []) = b == b'>'
is_prompt (b ∷ c ∷ bs) = is_prompt (c ∷ bs)

-- The loop over the other names: the first that is a prompt, cut to the 63 bytes of the buffer.
unfoldable pub find_alias : List (List ℕ) → Option (List ℕ)
find_alias [] = none
find_alias (a ∷ as') = if is_prompt a then some (take 63 a) else find_alias as'

-- `af_server_get_prompt` with what `getservbyname` reports: the result, and the static buffer.
unfoldable pub get_prompt : Option Servent → List ℕ → Option (List ℕ) × List ℕ
unfolding find_alias
get_prompt none buffer = (none, buffer)
get_prompt (some e) buffer =
    let copied : List ℕ = elim (find_alias e.aliases) [ none ↦ buffer | some a ↦ a ] in
    let filled : List ℕ = elim copied [ [] ↦ take 63 (e.name ++ (b'>' ∷ [])) | b ∷ bs ↦ b ∷ bs ] in
    (some filled, filled)

-- `af_server_get_port`, for a service that is not NULL.
unfoldable pub get_port : Option Servent → ℤ
get_port none = negsuc 0
get_port (some e) = pos e.port

-- What the system answers to `af_server_start`.
pub record Starting : Type 0 where
  pub servent : Option Servent
  pub socket : Option ℕ
  pub options : SockOpts
  pub bind : Bool
  pub listen : Bool

abbrev pub is_zero : ℤ → Bool
is_zero (pos n) = n == 0
is_zero (negsuc n) = false

-- The service is not in /etc/services: it is added, where the user gave a port and a prompt.
unfoldable pub add_service : List ℕ → Server → Option Server
add_service service s = elim s.prompt [
  | none ↦ none
  | some prompt ↦
      if is_zero s.port
      then none
      else some (record s { services = s.services ++ ((service, s.port, prompt) ∷ []) })
]

-- The first part: the port and the prompt. `none` is the return of -1; the static buffer comes
-- along.
unfoldable pub resolve : Starting → List ℕ → Server → Option Server × List ℕ
unfolding add_service get_prompt get_port
resolve a buffer s = elim s.service [
  | none ↦ (some s, buffer)
  | some service ↦
      let found = get_prompt a.servent buffer in
      let set : Option Server = elim (found.0) [
        | none ↦ add_service service s
        | some prompt ↦
            if is_zero (get_port a.servent)
            then add_service service s
            else some (record s { port = get_port a.servent; prompt = some prompt })
      ] in
      (set, found.1)
]

-- The socket, which `af_server_set_sockopts` has closed where it fails. `POLLIN|POLLPRI` is 3, and
-- the context is the server, 0.
unfoldable pub open_socket : Starting → Server → ℤ × Server
open_socket a s = elim a.socket [
  | none ↦ (negsuc 0, s)
  | some fd ↦
      let r = set_sockopts a.options fd true (opened fd s) in
      if not r.0
      then (negsuc 0, r.1)
      else if not a.bind
      then (negsuc 0, close fd r.1)
      else if not a.listen
      then (negsuc 0, close fd r.1)
      else (
        pos 0,
        record r.1 {
          fd = some fd;
          num_cnx = pos 0;
          cnx = [];
          polls = (poll_add fd 3 new_connection_event 0 r.1.polls).1;
        },
      )
]

-- The second part: a port and a prompt are needed, then the socket.
unfoldable pub listen_on : Starting → Server → ℤ × Server
unfolding open_socket
listen_on a s =
    if is_zero s.port
    then (negsuc 0, s)
    else elim s.prompt [ none ↦ (negsuc 0, s) | some prompt ↦ open_socket a s ]

-- `af_server_start`, with the static buffer of `af_server_get_prompt`.
unfoldable pub server_start : Starting → List ℕ → Server → (ℤ × Server) × List ℕ
unfolding resolve listen_on
server_start a buffer s =
    let r = resolve a buffer s in
    elim (r.0) [ none ↦ ((negsuc 0, s), r.1) | some s' ↦ (listen_on a s', r.1) ]

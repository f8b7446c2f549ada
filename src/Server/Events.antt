-- ===== src/Server/Events.antt =====
-- The callbacks of the poll list: a new connection, and an event of a connection.
use libappf.Base.{ℕ, Option, ◌==◌, if◌then◌else◌, ◌∷◌, ◌%◌, List, none, some, []}
use libappf.Poll.{Op, apply, poll_add}
use libappf.Server.{Server, Cnx, server_disconnect, add_connection, cnx_event, Accepting}

-- What the user's handlers do: they change the poll list, and disconnect a connection.
pub data Act : Type 0 where
  change : Op → Act
  disconnect : (id : ℕ) → Act

-- The user's handlers; a handler that is NULL does nothing.
pub record Handlers : Type 0 where
  pub goodbye : Cnx → List Op
  pub greet : (id : ℕ) → List Act
  pub command : List ℕ → (id : ℕ) → List Act

-- The connection at an address, if it was not freed.
unfoldable pub find : ℕ → List Cnx → Option Cnx
find id [] = none
find id (c ∷ cs) = if c.id == id then some c else find id cs

-- A freed connection is not there to be disconnected: `none`.
unfoldable pub perform : Handlers → Act → Server → Option Server
perform h (change o) s = some (record s { polls = apply o s.polls })
perform h (disconnect id) s = elim (find id s.cnx) [
  | none ↦ none
  | some c ↦ some (server_disconnect h.goodbye (some c) s)
]

unfoldable pub perform_all : Handlers → List Act → Server → Option Server
perform_all h [] s = some s
perform_all h (a ∷ as') s = elim (perform h a s) [ none ↦ none | some s' ↦ perform_all h as' s' ]

-- `af_server_prompt` of a connection that is not NULL; a freed one is not there to be read.
unfoldable pub server_prompt : (id : ℕ) → Server → Option Server
server_prompt id s = elim (find id s.cnx) [
  | none ↦ none
  | some c ↦ some (record s { sent = c.fd ∷ s.sent })
]

-- `_af_server_handle_new_connection`; `POLLIN` is 1. `af_poll_add` may refuse, and is not asked.
unfoldable pub handle_new_connection : Handlers → Accepting → Server → Option Server
handle_new_connection h a s =
    let r = add_connection a s in
    elim (r.0) [
      | none ↦ some (r.1)
      | some c ↦
          let polled : Server = record (r.1) {
            polls = (poll_add c.fd 1 cnx_event c.id r.1.polls).1;
          } in
          elim (perform_all h (h.greet c.id) polled) [
            | none ↦ none
            | some s' ↦ server_prompt c.id s'
          ]
    ]

-- What `read` answers: the bytes (`sizeof(buf)-1` at most), the end of the stream, EAGAIN or another error.
pub data Reading : Type 0 where
  bytes : (b : ℕ) → List ℕ → Reading
  end_of_stream : Reading
  again : Reading
  failed : Reading

-- The branch for POLLIN: what was read. The connection is the context of the poll entry; it may
-- have been freed, and is not there to be read then.
unfoldable pub handle_read : Handlers → Reading → (id : ℕ) → Server → Option Server
handle_read h (bytes b bs) id s = elim (find id s.cnx) [
  | none ↦ none
  | some c ↦ perform_all h (h.command (b ∷ bs) id) s
]
handle_read h end_of_stream id s = perform h (disconnect id) s
handle_read h again id s = some s
handle_read h failed id s = perform h (disconnect id) s

-- `_af_server_cnx_handle_event`: `revents & POLLIN` is the lowest bit.
unfoldable pub cnx_handle_event :
    Handlers → (revents : ℕ) → Reading → (id : ℕ) → Server → Option Server
unfolding perform perform_all find handle_read
cnx_handle_event h revents answer id s =
    if revents % 2 == 1
    then handle_read h answer id s
    else if revents == 0
    then some s
    else perform h (disconnect id) s

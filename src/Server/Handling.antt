-- ===== src/Server/Handling.antt =====
-- The account of the server under its two callbacks, for any handlers of the user.
use libappf.Base.{
  ℕ, ◌≡◌, List, Option, ◌∷◌, inr, none, inl, [], some, ◌==◌, arith, Bool-cases, refl, ◌%◌, true,
}
use libappf.Poll.{Poll, apply, poll_add}
use libappf.Server.{Cnx, Server, server_disconnect, Accepting, add_connection, cnx_event}
use libappf.Server.Events.{
  failed, again, end_of_stream, Reading, Act, change, disconnect, Handlers, find, perform,
  perform_all, server_prompt, handle_new_connection, handle_read, cnx_handle_event, bytes,
}
use libappf.Server.Account.{IsServing}
use libappf.Server.Accept.{IsFresh, add_connection-IsServing}
use libappf.Server.Disconnect.{Listed}
use libappf.Server.Stop.{disconnect-IsServing}

-- The account, where no freed connection was used.
unfoldable pub Serves : List ℕ → Option Server → Type 0
Serves apart none = Unit
Serves apart (some s) = IsServing apart s

id-find : (id : ℕ) (cs : List Cnx) (c : Cnx) → find id cs ≡ some c → c.id ≡ id
unfolding find
id-find id [] c h = ground (arith, h)
id-find id (d ∷ ds) c h = ground (arith, h, id-find id ds c)

Listed-find : (id : ℕ) (cs : List Cnx) (c : Cnx) → find id cs ≡ some c → Listed c cs
unfolding find Listed
Listed-find id [] c h = ground (arith, h)
Listed-find id (d ∷ ds) c h = elim (Bool-cases (d.id == id)) [
  | inl e ↦ inl (ground (arith, h, e))
  | inr e ↦ inr (ground (arith, h, e, id-find id ds c), Listed-find id ds c (ground (arith, h, e)))
]

with_polls-IsServing :
    (ps : List Poll) {apart : List ℕ} {s : Server}
    → IsServing apart s
    → IsServing apart (record s { polls = ps })
with_polls-IsServing ps v = record {
  accounted = v.accounted;
  counted = v.counted;
  limited = v.limited;
  distinct = v.distinct;
}

perform-Serves :
    (h : Handlers) (a : Act) (apart : List ℕ) (s : Server)
    → IsServing apart s
    → Serves apart (perform h a s)
unfolding perform Serves
perform-Serves h (change o) apart s v = with_polls-IsServing (apply o s.polls) v
perform-Serves h (disconnect id) apart s v =
    elim (find id s.cnx)
        as (λ o.
          (find id s.cnx ≡ o)
          → Serves apart
              (elim o [ none ↦ none | some c ↦ some (server_disconnect h.goodbye (some c) s) ])) [
                | none ↦ λ e. tt
                | some c ↦ λ e. disconnect-IsServing h.goodbye c (Listed-find id s.cnx c e) v
              ]
      refl

perform_all-Serves :
    (h : Handlers) (as' : List Act) (apart : List ℕ) (s : Server)
    → IsServing apart s
    → Serves apart (perform_all h as' s)
unfolding perform_all Serves
perform_all-Serves h [] apart s v = v
perform_all-Serves h (a ∷ as') apart s v =
    elim (perform h a s)
        as (λ o.
          Serves apart o → Serves apart (elim o [ none ↦ none | some s' ↦ perform_all h as' s' ])) [
            | none ↦ λ w. tt
            | some s' ↦ λ w. perform_all-Serves h as' apart s' w
          ]
      (perform-Serves h a apart s v)

server_prompt-Serves :
    (id : ℕ) (apart : List ℕ) (s : Server) → IsServing apart s → Serves apart (server_prompt id s)
unfolding server_prompt Serves
server_prompt-Serves id apart s v =
    elim (find id s.cnx)
      as (λ o.
        Serves apart (elim o [ none ↦ none | some c ↦ some (record s { sent = c.fd ∷ s.sent }) ])) [
          | none ↦ tt
          | some c ↦ record {
            accounted = v.accounted;
            counted = v.counted;
            limited = v.limited;
            distinct = v.distinct;
          }
        ]

-- `P` of what was computed, where something was.
then-Serves :
    (apart : List ℕ) (o : Option Server) (k : Server → Option Server)
    → Serves apart o
    → ((s : Server) → IsServing apart s → Serves apart (k s))
    → Serves apart (elim o [ none ↦ none | some s ↦ k s ])
unfolding Serves
then-Serves apart none k v f = tt
then-Serves apart (some s) k v f = f s v

-- A new connection keeps the account, whatever the user's callback does, as long as no freed
-- connection is used and SO_LINGER can be set on the copied descriptor.
pub handle_new_connection-Serves :
    (h : Handlers) (a : Accepting) (apart : List ℕ) (s : Server)
    → a.dup_options.linger ≡ true
    → IsFresh a s
    → IsServing apart s
    → Serves apart (handle_new_connection h a s)
unfolding handle_new_connection Serves
handle_new_connection-Serves h a apart s options fresh v =
    let w = add_connection-IsServing a options fresh v in
    elim ((add_connection a s).0)
      as (λ o. Serves apart (elim o [
        | none ↦ some ((add_connection a s).1)
        | some c ↦
            let polled : Server = record ((add_connection a s).1) {
              polls = (poll_add c.fd 1 cnx_event c.id (add_connection a s).1.polls).1;
            } in
            elim (perform_all h (h.greet c.id) polled) [
              | none ↦ none
              | some s' ↦ server_prompt c.id s'
            ]
      ])) [
        | none ↦ w
        | some c ↦
            then-Serves apart _ (server_prompt c.id)
              (perform_all-Serves h (h.greet c.id) apart _ (with_polls-IsServing _ w))
              (server_prompt-Serves c.id apart)
      ]

read-Serves :
    (h : Handlers) (answer : Reading) (id : ℕ) (apart : List ℕ) (s : Server)
    → IsServing apart s
    → Serves apart (handle_read h answer id s)
unfolding handle_read Serves
read-Serves h (bytes b bs) id apart s v =
    elim (find id s.cnx)
      as (λ o.
        Serves apart (elim o [ none ↦ none | some c ↦ perform_all h (h.command (b ∷ bs) id) s ])) [
          | none ↦ tt
          | some c ↦ perform_all-Serves h (h.command (b ∷ bs) id) apart s v
        ]
read-Serves h end_of_stream id apart s v = perform-Serves h (disconnect id) apart s v
read-Serves h again id apart s v = v
read-Serves h failed id apart s v = perform-Serves h (disconnect id) apart s v

-- An event of a connection keeps the account, whatever was read and whatever the user's handler
-- does, as long as no freed connection is used.
pub cnx_handle_event-Serves :
    (h : Handlers) (revents : ℕ) (answer : Reading) (id : ℕ) (apart : List ℕ) (s : Server)
    → IsServing apart s
    → Serves apart (cnx_handle_event h revents answer id s)
unfolding cnx_handle_event Serves
cnx_handle_event-Serves h revents answer id apart s v = elim (Bool-cases (revents % 2 == 1)) [
  | inl e ↦ rw e (read-Serves h answer id apart s v)
  | inr e ↦ rw e (elim (Bool-cases (revents == 0)) [
    | inl z ↦ rw z v
    | inr z ↦ rw z (perform-Serves h (disconnect id) apart s v)
  ])
]

-- ===== src/Server/Returns.antt =====
-- Events of a live connection under orderly handlers of the user: they are handled to the end.
use libappf.Base.{
  ℕ, List, ◌%◌, ◌∙◌, Bool-cases, inr, ◌≡◌, Option, ◌==◌, subst, ◌∷◌, inl, some, refl, [],
}
use libappf.Poll.{Op, apply}
use libappf.Server.{Cnx, Server, server_disconnect}
use libappf.Server.Events.{
  Act, change, disconnect, Handlers, find, perform, perform_all, Reading, bytes, end_of_stream,
  again, failed, handle_read, cnx_handle_event,
}
use libappf.Server.Account.{IsServing}
use libappf.Server.Handling.{Serves, cnx_handle_event-Serves}

-- What a handler for a connection may do: change the poll list, and at the end disconnect that
-- connection.
unfoldable pub Orderly : (id : ℕ) → List Act → Type 0
Orderly id [] = Unit
Orderly id (change o ∷ as') = Orderly id as'
Orderly id (disconnect j ∷ as') = (j ≡ id) × (as' ≡ [])

perform-live :
    (h : Handlers) (id : ℕ) (c : Cnx) (s : Server)
    → find id s.cnx ≡ some c
    → perform h (disconnect id) s ≡ some (server_disconnect h.goodbye (some c) s)
unfolding perform
perform-live h id c s f = simp (perform, f)

perform_all-step :
    (h : Handlers) (a : Act) (as' : List Act) (s s' : Server)
    → perform h a s ≡ some s'
    → perform_all h (a ∷ as') s ≡ perform_all h as' s'
unfolding perform_all
perform_all-step h a as' s s' e = simp (perform_all, e)

perform_all-nil : (h : Handlers) (s : Server) → perform_all h [] s ≡ some s
unfolding perform_all
perform_all-nil h s = refl

perform-change :
    (h : Handlers) (o : Op) (s : Server)
    → perform h (change o) s ≡ some (record s { polls = apply o s.polls })
unfolding perform
perform-change h o s = refl

perform_all-Orderly :
    (h : Handlers) (id : ℕ) (c : Cnx) (as' : List Act) (s : Server)
    → Orderly id as'
    → find id s.cnx ≡ some c
    → (s' : Server) × (perform_all h as' s ≡ some s')
unfolding Orderly
perform_all-Orderly h id c [] s q f = (s, perform_all-nil h s)
perform_all-Orderly h id c (change o ∷ as') s q f =
    let t : Server = record s { polls = apply o s.polls } in
    let rest = perform_all-Orderly h id c as' t q f in
    (rest.0, perform_all-step h (change o) as' s t (perform-change h o s) ∙ rest.1)
perform_all-Orderly h id c (disconnect j ∷ as') s q f =
    let t = server_disconnect h.goodbye (some c) s in
    (
      t,
      perform_all-step h (disconnect j) as' s t (rw q.0 (perform-live h id c s f))
          ∙ rw q.1 (perform_all-nil h t),
    )

handle_read-bytes :
    (h : Handlers) (b : ℕ) (bs : List ℕ) (id : ℕ) (c : Cnx) (s : Server)
    → find id s.cnx ≡ some c
    → handle_read h (bytes b bs) id s ≡ perform_all h (h.command (b ∷ bs) id) s
unfolding handle_read
handle_read-bytes h b bs id c s f = simp (handle_read, f)

read_returns :
    (h : Handlers) (answer : Reading) (id : ℕ) (c : Cnx) (s : Server)
    → ((bs : List ℕ) → Orderly id (h.command bs id))
    → find id s.cnx ≡ some c
    → (s' : Server) × (handle_read h answer id s ≡ some s')
unfolding handle_read
read_returns h (bytes b bs) id c s q f =
    let r = perform_all-Orderly h id c (h.command (b ∷ bs) id) s (q (b ∷ bs)) f in
    (r.0, handle_read-bytes h b bs id c s f ∙ r.1)
read_returns h end_of_stream id c s q f =
    (server_disconnect h.goodbye (some c) s, perform-live h id c s f)
read_returns h again id c s q f = (s, refl)
read_returns h failed id c s q f = (server_disconnect h.goodbye (some c) s, perform-live h id c s f)

event_returns :
    (h : Handlers) (revents : ℕ) (answer : Reading) (id : ℕ) (c : Cnx) (s : Server)
    → ((bs : List ℕ) → Orderly id (h.command bs id))
    → find id s.cnx ≡ some c
    → (s' : Server) × (cnx_handle_event h revents answer id s ≡ some s')
unfolding cnx_handle_event
event_returns h revents answer id c s q f = elim (Bool-cases (revents % 2 == 1)) [
  | inl e ↦ rw e (read_returns h answer id c s q f)
  | inr e ↦ rw e (elim (Bool-cases (revents == 0)) [
    | inl z ↦ rw z (s, refl)
    | inr z ↦ rw z (server_disconnect h.goodbye (some c) s, perform-live h id c s f)
  ])
]

IsServing-of_Serves :
    (apart : List ℕ) (o : Option Server) (s : Server)
    → o ≡ some s
    → Serves apart o
    → IsServing apart s
unfolding Serves
IsServing-of_Serves apart o s e v = subst (Serves apart) e v

-- An event of a live connection is handled to the end and keeps the account, whatever was read, where
-- the user's handler changes the poll list as it likes and disconnects that connection last, if at
-- all.
pub cnx_handle_event-IsServing :
    (h : Handlers) (revents : ℕ) (answer : Reading) (id : ℕ) (c : Cnx) {apart : List ℕ} {s : Server}
    → ((bs : List ℕ) → Orderly id (h.command bs id))
    → find id s.cnx ≡ some c
    → IsServing apart s
    → (s' : Server) × (cnx_handle_event h revents answer id s ≡ some s') × IsServing apart s'
cnx_handle_event-IsServing h revents answer id c {apart} {s} q f v =
    let r = event_returns h revents answer id c s q f in
    (
      r.0,
      r.1,
      IsServing-of_Serves apart _ r.0 r.1 (cnx_handle_event-Serves h revents answer id apart s v),
    )

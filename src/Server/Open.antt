-- ===== src/Server/Open.antt =====
-- `af_server_start`: the account of a server that was started, and the prompt that it finds.
use libappf.Base.{
  ℕ, List, some, [], ◌≡◌, ◌∷◌, Bool-cases, inr, none, inl, Option, Option-cases, if◌then◌else◌,
  ◌++◌, refl, true, arith, sym, ◌∙◌, ap, length, false,
}
use libappf.Server.{Server, set_sockopts, SockOpts, close, opened}
use libappf.Server.Start.{
  Starting, resolve, add_service, get_port, is_zero, listen_on, server_start, get_prompt, Servent,
  find_alias, open_socket,
}
use libappf.Server.Account.{IsServing, count, held, close-IsServing, Distinct, opened-IsServing}
use libappf.Server.Accept.{set_sockopts-closed}
use libappf.Base.Int.{negsuc, ℤ, pos}

-- What `af_server_start` returns, and the server that it leaves.
pub data Started (a : Starting) (apart : List ℕ) : ℤ × Server → Type 0 where
  failed : {s : Server} → IsServing apart s → Started a apart (negsuc 0, s)
  listening :
      {s : Server} (fd : ℕ)
      → a.socket ≡ some fd
      → s.fd ≡ some fd
      → s.cnx ≡ []
      → IsServing (fd ∷ apart) s
      → Started a apart (pos 0, s)

-- A server that may be opened: it has no connection, and the account is kept.
pub record IsReady (apart : List ℕ) (s : Server) : Type 0 where
  pub serving : IsServing apart s
  pub no_cnx : s.cnx ≡ []

unfoldable pub Found : List ℕ → Option Server → Type 0
Found apart none = Unit
Found apart (some s) = IsReady apart s

set_service-IsReady :
    (service' : List (List ℕ × ℤ × List ℕ)) (port : ℤ) (prompt : Option (List ℕ)) (apart : List ℕ)
    (s : Server)
    → IsReady apart s
    → IsReady apart (record s { services = service'; port = port; prompt = prompt })
set_service-IsReady service' port prompt apart s v = record {
  serving = record {
    accounted = v.serving.accounted;
    counted = v.serving.counted;
    limited = v.serving.limited;
    distinct = v.serving.distinct;
  };
  no_cnx = v.no_cnx;
}

add_service-Found :
    (service : List ℕ) (apart : List ℕ) (s : Server)
    → IsReady apart s
    → Found apart (add_service service s)
unfolding add_service Found
add_service-Found service apart s v =
    elim s.prompt
      as (λ o. Found apart (elim o [
        | none ↦ none
        | some prompt ↦
            if is_zero s.port
            then none
            else some (record s { services = s.services ++ ((service, s.port, prompt) ∷ []) })
      ])) [
        | none ↦ tt
        | some p ↦ elim (Bool-cases (is_zero s.port)) [
          | inl e ↦ rw e tt
          | inr e ↦ rw e (set_service-IsReady _ s.port s.prompt apart s v)
        ]
      ]

choose-Found :
    (a : Starting) (service : List ℕ) (prompt : Option (List ℕ)) (apart : List ℕ) (s : Server)
    → IsReady apart s
    → Found apart (elim prompt [
      | none ↦ add_service service s
      | some prompt ↦
          if is_zero (get_port a.servent)
          then add_service service s
          else some (record s { port = get_port a.servent; prompt = some prompt })
    ])
unfolding Found
choose-Found a service none apart s v = add_service-Found service apart s v
choose-Found a service (some p) apart s v = elim (Bool-cases (is_zero (get_port a.servent))) [
  | inl e ↦ rw e (add_service-Found service apart s v)
  | inr e ↦ rw e (set_service-IsReady s.services (get_port a.servent) (some p) apart s v)
]

resolve-Found :
    (a : Starting) (buffer : List ℕ) (apart : List ℕ) (s : Server)
    → IsReady apart s
    → Found apart ((resolve a buffer s).0)
unfolding resolve Found
resolve-Found a buffer apart s v = elim (Option-cases s.service) [
  | inl e ↦ simp (resolve, e) v
  | inr (service, e) ↦ simp (resolve, e) (choose-Found a service _ apart s v)
]

fresh-IsServing :
    (fd : ℕ) {apart : List ℕ} {s s' : Server}
    → IsReady apart s
    → s'.descriptors ≡ fd ∷ s.descriptors
    → s'.cnx ≡ []
    → s'.num_cnx ≡ pos 0
    → IsServing (fd ∷ apart) s'
unfolding count held Distinct
fresh-IsServing fd {apart} {s} {s'} v d e n = record {
  accounted =
      λ f. rw d (rw e (omega (arith, v.serving.accounted f, ap (λ l. count f (held l)) v.no_cnx)));
  counted = n ∙ ap (λ l. pos (length l)) (sym e);
  limited = omega (arith, ap length e);
  distinct = rw e tt;
}

set_sockopts-server :
    (o : SockOpts) (fd : ℕ) (s : Server)
    → o.nodelay ≡ true
    → set_sockopts o fd true s ≡ (if o.reuse then (true, s) else (false, close fd s))
unfolding set_sockopts
set_sockopts-server o fd s h = rw h refl

open_socket-Started :
    (a : Starting) {apart : List ℕ} (s : Server)
    → IsReady apart s
    → Started a apart (open_socket a s)
unfolding open_socket
open_socket-Started a {apart} s v = elim (Option-cases a.socket) [
  | inl o ↦ rw o (failed v.serving)
  | inr (fd, o) ↦
      let closed = close-IsServing fd (opened-IsServing fd v.serving) in
      rw o (elim (Bool-cases a.options.nodelay) [
        | inr n ↦ rw (set_sockopts-closed a.options fd true (opened fd s) n) (failed closed)
        | inl n ↦
            rw (set_sockopts-server a.options fd (opened fd s) n)
              (elim (Bool-cases a.options.reuse) [
                | inr r ↦ rw r (failed closed)
                | inl r ↦ rw r (elim (Bool-cases a.bind) [
                  | inr b ↦ rw b (failed closed)
                  | inl b ↦ rw b (elim (Bool-cases a.listen) [
                    | inr l ↦ rw l (failed closed)
                    | inl l ↦
                        rw l (
                          listening fd refl refl refl (fresh-IsServing fd {s = s} v refl refl refl))
                  ])
                ])
              ])
      ])
]

listen_on-Started :
    (a : Starting) {apart : List ℕ} (s : Server) → IsReady apart s → Started a apart (listen_on a s)
unfolding listen_on
listen_on-Started a {apart} s v = elim (Bool-cases (is_zero s.port)) [
  | inl z ↦ rw z (failed v.serving)
  | inr z ↦
      rw z
        (elim s.prompt
          as (λ o.
            Started a apart (elim o [ none ↦ (negsuc 0, s) | some prompt ↦ open_socket a s ])) [
              | none ↦ failed v.serving
              | some prompt ↦ open_socket-Started a s v
            ])
]

-- `af_server_start` on a server without connections, where `apart` are the open descriptors: it
-- returns 0 with the socket as the server's descriptor, no connection and nothing else opened, or -1
-- with no other descriptor open than before, whichever call fails.
pub server_start-Started :
    (a : Starting) (buffer : List ℕ) (apart : List ℕ) (s : Server)
    → IsReady apart s
    → Started a apart (server_start a buffer s).0
unfolding server_start Found
server_start-Started a buffer apart s v =
    (elim ((resolve a buffer s).0)
        as (λ o.
          Found apart o
          → Started a apart (
              let r : (ℤ × Server) × List ℕ = elim o [
                | none ↦ ((negsuc 0, s), (resolve a buffer s).1)
                | some s' ↦ (listen_on a s', (resolve a buffer s).1)
              ] in
              r.0)) [ none ↦ λ w. failed v.serving | some s' ↦ λ w. listen_on-Started a s' w ])
      (resolve-Found a buffer apart s v)

get_prompt-alias :
    (e : Servent) (buffer : List ℕ) (b : ℕ) (bs : List ℕ)
    → find_alias e.aliases ≡ some (b ∷ bs)
    → get_prompt (some e) buffer ≡ (some (b ∷ bs), b ∷ bs)
unfolding get_prompt
get_prompt-alias e buffer b bs h = simp (get_prompt, h)

get_prompt-no_alias :
    (e : Servent) (b : ℕ) (bs : List ℕ)
    → find_alias e.aliases ≡ none
    → get_prompt (some e) (b ∷ bs) ≡ (some (b ∷ bs), b ∷ bs)
unfolding get_prompt
get_prompt-no_alias e b bs h = simp (get_prompt, h)

-- The static buffer is never cleared: after a service with a prompt among its names, a service
-- without one is given the prompt of the other and not `name>`.
pub get_prompt_stale :
    (e e' : Servent) (buffer : List ℕ) (b : ℕ) (bs : List ℕ)
    → find_alias e.aliases ≡ some (b ∷ bs)
    → find_alias e'.aliases ≡ none
    → (get_prompt (some e') (get_prompt (some e) buffer).1).0 ≡ (get_prompt (some e) buffer).0
get_prompt_stale e e' buffer b bs h h' =
    rw (get_prompt-alias e buffer b bs h) (rw (get_prompt-no_alias e' b bs h') refl)

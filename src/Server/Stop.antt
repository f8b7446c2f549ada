-- ===== src/Server/Stop.antt =====
-- All connections leave: the loop of `af_server_disconnect_all`, and `af_server_stop`.
use libappf.Base.{
  ℕ, some, List, ◌∷◌, arith, ap, suc, length, inr, ◌∙◌, ◌≤◌, zero, [], refl, ◌≡◌, inl, none, ◌+◌,
  List-cases,
}
use libappf.Poll.{Op, poll_rem, apply_all}
use libappf.Poll.Registry.{
  IsRegistry, entry, apply_all-IsRegistry, poll_rem-IsRegistry, entry-poll_rem,
}
use libappf.Server.{
  Cnx, Server, release, without, rem_instance, server_disconnect, disconnect_loop, disconnect_all,
  server_stop,
}
use libappf.Server.Account.{count, count-release, held, IsServing}
use libappf.Server.Disconnect.{Listed, rem_instance-IsServing}
use libappf.Base.Int.{pos}

-- No connection and no more descriptors than there were apart from the connections.
pub record IsEmptied (apart : List ℕ) (s r : Server) : Type 0 where
  pub serving : IsServing apart r
  pub empty : r.cnx ≡ []
  pub registry : IsRegistry r.polls
  pub same_fd : r.fd ≡ s.fd

pub disconnect-IsServing :
    (goodbye : Cnx → List Op) (c : Cnx) {apart : List ℕ} {s : Server}
    → Listed c s.cnx
    → IsServing apart s
    → IsServing apart (server_disconnect goodbye (some c) s)
unfolding server_disconnect
disconnect-IsServing goodbye c {apart} {s} l v =
    rem_instance-IsServing c
      {s = record s { polls = apply_all (goodbye c) (poll_rem c.fd s.polls) }} l
      (record {
        accounted = v.accounted;
        counted = v.counted;
        limited = v.limited;
        distinct = v.distinct;
      })

Listed-head : (c : Cnx) (cs ds : List Cnx) → ds ≡ c ∷ cs → Listed c ds
unfolding Listed
Listed-head c cs ds e = rw e (inl refl)

without-head : (c : Cnx) (cs ds : List Cnx) → ds ≡ c ∷ cs → without c.id ds ≡ cs
unfolding without
without-head c cs ds e = rw e (ground arith)

disconnect-IsRegistry :
    (goodbye : Cnx → List Op) (c : Cnx) (s : Server)
    → IsRegistry s.polls
    → IsRegistry (server_disconnect goodbye (some c) s).polls
unfolding server_disconnect rem_instance
disconnect-IsRegistry goodbye c s r = apply_all-IsRegistry (goodbye c) (poll_rem-IsRegistry c.fd r)

cnx-disconnect :
    (goodbye : Cnx → List Op) (c : Cnx) (s : Server)
    → (server_disconnect goodbye (some c) s).cnx ≡ without c.id s.cnx
unfolding server_disconnect rem_instance
cnx-disconnect goodbye c s = refl

fd-disconnect :
    (goodbye : Cnx → List Op) (c : Cnx) (s : Server)
    → (server_disconnect goodbye (some c) s).fd ≡ s.fd
unfolding server_disconnect rem_instance
fd-disconnect goodbye c s = refl

loop-nil :
    (goodbye : Cnx → List Op) (fuel : ℕ) (s : Server)
    → s.cnx ≡ []
    → disconnect_loop goodbye (suc fuel) s ≡ s
unfolding disconnect_loop
loop-nil goodbye fuel s e = simp (disconnect_loop, e)

loop-cons :
    (goodbye : Cnx → List Op) (fuel : ℕ) (s : Server) (c : Cnx) (cs : List Cnx)
    → s.cnx ≡ c ∷ cs
    → disconnect_loop goodbye (suc fuel) s
      ≡ disconnect_loop goodbye fuel (server_disconnect goodbye (some c) s)
unfolding disconnect_loop
loop-cons goodbye fuel s c cs e = simp (disconnect_loop, e)

stop-some :
    (goodbye : Cnx → List Op) (fd : ℕ) (s : Server)
    → (disconnect_all goodbye s).fd ≡ some fd
    → server_stop goodbye s ≡ record (disconnect_all goodbye s) {
      polls = poll_rem fd (disconnect_all goodbye s).polls;
      descriptors = release fd (disconnect_all goodbye s).descriptors;
      fd = none;
    }
unfolding server_stop
stop-some goodbye fd s e = simp (server_stop, e)

loop-IsEmptied :
    (goodbye : Cnx → List Op) (fuel : ℕ) {apart : List ℕ} {s : Server}
    → length s.cnx ≤ fuel
    → IsServing apart s
    → IsRegistry s.polls
    → IsEmptied apart s (disconnect_loop goodbye fuel s)
unfolding disconnect_loop
loop-IsEmptied goodbye zero {apart} {s} h v r = elim (List-cases s.cnx) [
  | inl e ↦ record { serving = v; empty = e; registry = r; same_fd = refl }
  | inr (c, cs, e) ↦ absurd (omega (arith, h, ap length e))
]
loop-IsEmptied goodbye (suc fuel) {apart} {s} h v r = elim (List-cases s.cnx) [
  | inl e ↦
      rw (loop-nil goodbye fuel s e)
        (record { serving = v; empty = e; registry = r; same_fd = refl })
  | inr (c, cs, e) ↦
      let next = server_disconnect goodbye (some c) s in
      let done =
        loop-IsEmptied goodbye fuel {s = next}
          (omega (
            arith,
            h,
            ap length (cnx-disconnect goodbye c s ∙ without-head c cs s.cnx e),
            ap length e,
          ))
          (disconnect-IsServing goodbye c (Listed-head c cs s.cnx e) v)
          (disconnect-IsRegistry goodbye c s r) in
      rw (loop-cons goodbye fuel s c cs e) (record {
        serving = done.serving;
        empty = done.empty;
        registry = done.registry;
        same_fd = done.same_fd ∙ fd-disconnect goodbye c s;
      })
]

held-nil :
    (f : ℕ) (apart : List ℕ) {cs : List Cnx}
    → cs ≡ []
    → count f apart + count f (held cs) ≡ count f apart
unfolding count held
held-nil f apart e = rw e (omega arith)

close-head :
    (fd : ℕ) (apart : List ℕ) (ds : List ℕ)
    → ((f : ℕ) → count f ds ≡ count f (fd ∷ apart))
    → (f : ℕ) → count f (release fd ds) ≡ count f apart
unfolding count
close-head fd apart ds h f = ground (arith, h f, h fd, count-release f fd ds)

-- `af_server_stop` closes every connection and the server: nothing is open but what was open apart
-- from them, no connection is left, `num_cnx` is 0, the server's descriptor is -1, and the poll list
-- has no entry for it.
pub server_stop_lem :
    (goodbye : Cnx → List Op) (fd : ℕ) {apart : List ℕ} {s : Server}
    → s.fd ≡ some fd
    → IsServing (fd ∷ apart) s
    → IsRegistry s.polls
    → ((f : ℕ) → count f (server_stop goodbye s).descriptors ≡ count f apart)
      × ((server_stop goodbye s).cnx ≡ [])
      × ((server_stop goodbye s).num_cnx ≡ pos 0)
      × ((server_stop goodbye s).fd ≡ none)
      × (entry fd (server_stop goodbye s).polls ≡ none)
unfolding server_stop disconnect_all
server_stop_lem goodbye fd {apart} {s} ok v r =
    let done = loop-IsEmptied goodbye (length s.cnx) (omega arith) v r in
    rw (stop-some goodbye fd s (done.same_fd ∙ ok)) (
      close-head fd apart _ (λ f. done.serving.accounted f ∙ held-nil f (fd ∷ apart) done.empty),
      done.empty,
      done.serving.counted ∙ ap (λ l. pos (length l)) done.empty,
      refl,
      rw (entry-poll_rem fd fd _ done.registry.distinct) (ground arith),
    )

-- ===== src/Server/Disconnect.antt =====
-- A connection leaves: `_af_server_rem_instance` and `af_server_disconnect`.
use libappf.Base.{
  ℕ, arith, true, Bool-cases, ◌+◌, refl, ◌≢◌, suc, ◌≡◌, ◌∷◌, inr, inl, false, zero, ◌⊎◌, ◌==◌,
  length, List, [], some, none,
}
use libappf.Poll.{Op, poll_rem, apply_all}
use libappf.Poll.Registry.{
  IsRegistry, entry, apply_all-IsRegistry, poll_rem-IsRegistry, entry-poll_rem, Avoids,
  entry-apply_all,
}
use libappf.Server.{Cnx, Server, release, live, without, rem_instance, server_disconnect}
use libappf.Server.Account.{count, count-release, held, Distinct, IsServing, shrink}

-- The connection stands on the list of the server.
unfoldable pub Listed : Cnx → List Cnx → Type 0
Listed c [] = (zero ≡ 1)
Listed c (d ∷ ds) = (c ≡ d) ⊎ ((d.id ≢ c.id) × Listed c ds)

live-without : (id j : ℕ) (cs : List Cnx) → live j cs ≡ false → live j (without id cs) ≡ false
unfolding live without
live-without id j [] h = refl
live-without id j (c ∷ cs) h = ground (arith, live-without id j cs)

Distinct-without : (id : ℕ) (cs : List Cnx) → Distinct cs → Distinct (without id cs)
unfolding without Distinct
Distinct-without id [] h = tt
Distinct-without id (c ∷ cs) h = elim (Bool-cases (c.id == id)) [
  | inl e ↦ rw e h.1
  | inr e ↦ rw e (live-without id c.id cs h.0, Distinct-without id cs h.1)
]

dead-without : (id : ℕ) (cs : List Cnx) → Distinct cs → live id (without id cs) ≡ false
unfolding live without Distinct
dead-without id [] h = refl
dead-without id (c ∷ cs) h = ground (arith, dead-without id cs, h.0, h.1)

live-Listed : (c : Cnx) (cs : List Cnx) → Listed c cs → live c.id cs ≡ true
unfolding live Listed
live-Listed c [] h = absurd (omega (arith, h))
live-Listed c (d ∷ ds) (inl e) = rw e (ground arith)
live-Listed c (d ∷ ds) (inr (n, h)) = ground (arith, live-Listed c ds h)

length-without :
    (c : Cnx) (cs : List Cnx) → Listed c cs → suc (length (without c.id cs)) ≡ length cs
unfolding without Listed
length-without c [] h = absurd (omega (arith, h))
length-without c (d ∷ ds) (inl e) = rw e (ground arith)
length-without c (d ∷ ds) (inr (n, h)) = ground (arith, length-without c ds h, n)

count-held-without :
    (f : ℕ) (c : Cnx) (cs : List Cnx)
    → Listed c cs
    → count f (held cs) ≡ count f (c.fd ∷ c.dup ∷ []) + count f (held (without c.id cs))
unfolding without Listed count held
count-held-without f c [] h = absurd (omega (arith, h))
count-held-without f c (d ∷ ds) (inl e) = rw e (ground arith)
count-held-without f c (d ∷ ds) (inr (n, h)) = ground (arith, count-held-without f c ds h, n)

-- `_af_server_rem_instance` keeps the account: the connection's two descriptors are closed, it is no
-- longer counted, and no other connection is touched.
pub rem_instance-IsServing :
    (c : Cnx) {apart : List ℕ} {s : Server}
    → Listed c s.cnx
    → IsServing apart s
    → IsServing apart (rem_instance (some c) s)
unfolding rem_instance count
rem_instance-IsServing c {apart} {s} l v = rw (live-Listed c s.cnx l) record {
  accounted = λ f. ground (
    arith,
    v.accounted f,
    v.accounted c.fd,
    v.accounted c.dup,
    count-release f c.fd (release c.dup s.descriptors),
    count-release f c.dup s.descriptors,
    count-release c.fd c.dup s.descriptors,
    count-held-without f c s.cnx l,
    count-held-without c.fd c s.cnx l,
    count-held-without c.dup c s.cnx l,
  );
  counted = shrink _ _ (rw (length-without c s.cnx l) v.counted);
  limited = omega (arith, length-without c s.cnx l, v.limited);
  distinct = Distinct-without c.id s.cnx v.distinct;
}

-- `af_server_disconnect` takes a connection off the server and off the poll list: it is on neither
-- afterwards, one connection fewer is counted, both its descriptors are closed and no other, as
-- long as the user's callback does not register its descriptor anew.
pub server_disconnect_lem :
    (goodbye : Cnx → List Op) (c : Cnx) {apart : List ℕ} {s : Server}
    → Listed c s.cnx
    → IsServing apart s
    → IsRegistry s.polls
    → Avoids c.fd (goodbye c)
    → IsServing apart (server_disconnect goodbye (some c) s)
      × IsRegistry (server_disconnect goodbye (some c) s).polls
      × (live c.id (server_disconnect goodbye (some c) s).cnx ≡ false)
      × (suc (length (server_disconnect goodbye (some c) s).cnx) ≡ length s.cnx)
      × (entry c.fd (server_disconnect goodbye (some c) s).polls ≡ none)
unfolding server_disconnect rem_instance
server_disconnect_lem goodbye c {apart} {s} l v r q =
    let gone : Server = record s { polls = apply_all (goodbye c) (poll_rem c.fd s.polls) } in
    let v' : IsServing apart gone = record {
      accounted = v.accounted;
      counted = v.counted;
      limited = v.limited;
      distinct = v.distinct;
    } in
    (
      rem_instance-IsServing c {s = gone} l v',
      apply_all-IsRegistry (goodbye c) (poll_rem-IsRegistry c.fd r),
      dead-without c.id s.cnx v.distinct,
      length-without c s.cnx l,
      entry-apply_all c.fd (goodbye c) q (poll_rem-IsRegistry c.fd r)
          (rw (entry-poll_rem c.fd c.fd s.polls r.distinct) (ground arith)),
    )

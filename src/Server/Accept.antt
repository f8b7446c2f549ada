-- ===== src/Server/Accept.antt =====
-- `af_server_set_sockopts` and `_af_server_add_connection`: the account of a new connection.
use libappf.Base.{
  ℕ, arith, false, List, ◌∷◌, if◌then◌else◌, ◌≡◌, some, true, inl, inr, Bool-cases, refl, none,
  Option-cases, Bool, not, ap, ◌∙◌, subst, sym, Option,
}
use libappf.Server.{
  Cnx, Server, Accepting, live, opened, close, join, duplicate, add_connection, set_sockopts,
  SockOpts, copy, open_stream,
}
use mathlib.Core.Bool.{false≢true}
use libappf.Base.Int.{ltb_ℤ}
use libappf.Server.Account.{
  IsServing, count, swap-IsServing, opened-IsServing, close-IsServing, reclose-IsServing,
  connect-IsServing,
}

-- What `calloc` and `accept` return is new: the address of the structure is not one of a connection,
-- and the descriptor is not open.
pub record IsFresh (a : Accepting) (s : Server) : Type 0 where
  pub structure : (id : ℕ) → a.allocated ≡ some id → live id s.cnx ≡ false
  pub descriptor : (fd : ℕ) → a.accepted ≡ some fd → count fd s.descriptors ≡ 0

pub set_sockopts-closed :
    (o : SockOpts) (fd : ℕ) (server_sock : Bool) (s : Server)
    → o.nodelay ≡ false
    → set_sockopts o fd server_sock s ≡ (false, close fd s)
unfolding set_sockopts
set_sockopts-closed o fd server_sock s h = rw h refl

set_sockopts-client :
    (o : SockOpts) (fd : ℕ) (s : Server)
    → o.nodelay ≡ true
    → set_sockopts o fd false s ≡ (o.linger, s)
unfolding set_sockopts
set_sockopts-client o fd s h = rw h refl

open_stream-IsServing :
    (a : Accepting) (id fd dup : ℕ) {apart : List ℕ} {s : Server}
    → live id s.cnx ≡ false
    → ltb_ℤ s.num_cnx s.max_cnx ≡ true
    → IsServing (fd ∷ dup ∷ apart) s
    → IsServing apart ((open_stream a id fd dup s).1)
unfolding open_stream
open_stream-IsServing a id fd dup {apart} {s} fresh room v = elim (Bool-cases a.stream) [
  | inl e ↦ rw e (connect-IsServing (record { id = id; fd = fd; dup = dup }) fresh room v)
  | inr e ↦ rw e (close-IsServing dup (close-IsServing fd v))
]

-- What a caller of `af_server_set_sockopts` does where that fails, and where not.
module _ (fd : ℕ) (k : Server → Option Cnx × Server) {r : Bool × Server} {s : Server} where
  refused :
      r ≡ (false, s) → (if not (r.0) then (none, close fd (r.1)) else k (r.1)) ≡ (none, close fd s)
  refused e = ap (λ q. if not (q.0) then (none, close fd (q.1)) else k (q.1)) e

  passed : r ≡ (true, s) → (if not (r.0) then (none, close fd (r.1)) else k (r.1)) ≡ k s
  passed e = ap (λ q. if not (q.0) then (none, close fd (q.1)) else k (q.1)) e

join-IsServing :
    (a : Accepting) (id fd dup : ℕ) {apart : List ℕ} {s : Server}
    → a.dup_options.linger ≡ true
    → live id s.cnx ≡ false
    → ltb_ℤ s.num_cnx s.max_cnx ≡ true
    → IsServing (fd ∷ dup ∷ apart) s
    → IsServing apart ((join a id fd dup s).1)
unfolding join
join-IsServing a id fd dup {apart} {s} linger fresh room v =
    let client = set_sockopts-client a.dup_options dup s in
    elim (Bool-cases a.dup_options.nodelay) [
      | inr n ↦
          subst (λ r. IsServing apart (r.1))
            (sym (
              refused fd (open_stream a id fd dup)
                (set_sockopts-closed a.dup_options dup false s n)))
            (close-IsServing fd (close-IsServing dup (swap-IsServing fd dup v)))
      | inl n ↦
          subst (λ r. IsServing apart (r.1))
            (sym (passed fd (open_stream a id fd dup) (client n ∙ ap (λ b. (b, s)) linger)))
            (open_stream-IsServing a id fd dup fresh room v)
    ]

-- The first `af_server_set_sockopts` of a connection, with the `close` behind it where it fails.
failed-IsServing :
    (o : SockOpts) (fd : ℕ) {apart : List ℕ} (s : Server)
    → count fd s.descriptors ≡ 1
    → IsServing (fd ∷ apart) s
    → IsServing apart (close fd (set_sockopts o fd false s).1)
failed-IsServing o fd {apart} s once v = elim (Bool-cases o.nodelay) [
  | inr n ↦
      subst (λ r. IsServing apart (close fd (r.1))) (sym (set_sockopts-closed o fd false s n))
        (reclose-IsServing fd s once (close-IsServing fd v))
  | inl n ↦
      subst (λ r. IsServing apart (close fd (r.1))) (sym (set_sockopts-client o fd s n))
        (close-IsServing fd v)
]

set_sockopts-true :
    (o : SockOpts) (fd : ℕ) (s : Server)
    → (set_sockopts o fd false s).0 ≡ true
    → (set_sockopts o fd false s).1 ≡ s
set_sockopts-true o fd s h = elim (Bool-cases o.nodelay) [
  | inr n ↦ absurd (false≢true (sym (ap (λ r. r.0) (set_sockopts-closed o fd false s n)) ∙ h))
  | inl n ↦ ap (λ r. r.1) (set_sockopts-client o fd s n)
]

after-IsServing :
    (fd : ℕ) {apart : List ℕ} (r : Bool × Server) (k : Server → Option Cnx × Server)
    → IsServing apart (close fd (r.1))
    → (r.0 ≡ true → IsServing apart (k (r.1)).1)
    → IsServing apart (if not (r.0) then (none, close fd (r.1)) else k (r.1)).1
after-IsServing fd (true, s) k f g = g refl
after-IsServing fd (false, s) k f g = f

copy-IsServing :
    (a : Accepting) (id fd : ℕ) {apart : List ℕ} (s : Server)
    → a.dup_options.linger ≡ true
    → live id s.cnx ≡ false
    → ltb_ℤ s.num_cnx s.max_cnx ≡ true
    → IsServing (fd ∷ apart) s
    → IsServing apart ((copy a id fd s).1)
unfolding copy
copy-IsServing a id fd {apart} s linger fresh room v = elim (Option-cases a.duplicated) [
  | inl d ↦ rw d (close-IsServing fd v)
  | inr (dup, d) ↦ rw d (
      join-IsServing a id fd dup linger fresh room (swap-IsServing dup fd (opened-IsServing dup v)))
]

duplicate-IsServing :
    (a : Accepting) (fd : ℕ) {apart : List ℕ} {s : Server}
    → a.dup_options.linger ≡ true
    → ((id : ℕ) → a.allocated ≡ some id → live id s.cnx ≡ false)
    → count fd s.descriptors ≡ 1
    → ltb_ℤ s.num_cnx s.max_cnx ≡ true
    → IsServing (fd ∷ apart) s
    → IsServing apart ((duplicate a fd s).1)
unfolding duplicate
duplicate-IsServing a fd {apart} {s} linger fresh once room v = elim (Option-cases a.allocated) [
  | inl e ↦ rw e (close-IsServing fd v)
  | inr (id, e) ↦
      let a' : Accepting = record a { allocated = some id } in
      rw e (
        after-IsServing fd (set_sockopts a.options fd false s) (copy a' id fd)
          (failed-IsServing a.options fd s once v)
          (λ h.
            let same = sym (set_sockopts-true a.options fd s h) in
            copy-IsServing a' id fd ((set_sockopts a.options fd false s).1) linger
              (subst (λ t. live id t.cnx ≡ false) same (fresh id e))
              (subst (λ t. ltb_ℤ t.num_cnx t.max_cnx ≡ true) same room)
              (subst (IsServing (fd ∷ apart)) same v)))
]

-- A new connection keeps the account: it is counted, it is within the limit, and where it is
-- refused, for whatever reason, its descriptors are closed. The conditions are that `accept` returns a
-- descriptor that is not open and `calloc` an address that is not one of a connection, and that
-- `setsockopt` does not fail for SO_LINGER on the duplicated descriptor.
pub add_connection-IsServing :
    (a : Accepting) {apart : List ℕ} {s : Server}
    → a.dup_options.linger ≡ true
    → IsFresh a s
    → IsServing apart s
    → IsServing apart ((add_connection a s).1)
unfolding add_connection count
add_connection-IsServing a {apart} {s} linger fresh v = elim (Option-cases a.accepted) [
  | inl e ↦ rw e v
  | inr (fd, e) ↦ rw e (elim (Bool-cases (ltb_ℤ s.num_cnx s.max_cnx)) [
    | inr r ↦ rw r (close-IsServing fd (opened-IsServing fd v))
    | inl r ↦ rw r (elim (Bool-cases a.peer) [
      | inr p ↦ rw p (close-IsServing fd (opened-IsServing fd v))
      | inl p ↦
          let once : count fd (fd ∷ s.descriptors) ≡ 1 = ground (arith, fresh.descriptor fd e) in
          rw p (duplicate-IsServing a fd linger fresh.structure once r (opened-IsServing fd v))
    ])
  ])
]

copy_leak :
    (a : Accepting) (id fd dup : ℕ) (s : Server)
    → a.duplicated ≡ some dup
    → a.dup_options.nodelay ≡ true
    → a.dup_options.linger ≡ false
    → copy a id fd s ≡ (none, close fd (opened dup s))
unfolding copy join
copy_leak a id fd dup s d n l =
    let a' : Accepting = record a { duplicated = some dup } in
    let s' = opened dup s in
    rw d (
      refused fd (open_stream a' id fd dup)
        (set_sockopts-client a.dup_options dup s' n ∙ ap (λ b. (b, s')) l))

duplicate_leak :
    (a : Accepting) (id fd dup : ℕ) (s : Server)
    → a.allocated ≡ some id
    → a.options.nodelay ≡ true
    → a.options.linger ≡ true
    → a.duplicated ≡ some dup
    → a.dup_options.nodelay ≡ true
    → a.dup_options.linger ≡ false
    → duplicate a fd s ≡ (none, close fd (opened dup s))
unfolding duplicate
duplicate_leak a id fd dup s e n l d n' l' =
    let a' : Accepting = record a { allocated = some id } in
    rw e (
      passed fd (copy a' id fd) (set_sockopts-client a.options fd s n ∙ ap (λ b. (b, s)) l)
      ∙ copy_leak a' id fd dup s d n' l')

-- Where there is room for a connection, all calls up to TCP_NODELAY on the duplicated descriptor
-- succeed and `setsockopt` fails for SO_LINGER on it, the connection is refused and the duplicated
-- descriptor stays open, besides those that were open before.
pub add_connection_leak :
    (a : Accepting) (id fd dup : ℕ) {apart : List ℕ} {s : Server}
    → a.accepted ≡ some fd
    → a.peer ≡ true
    → a.allocated ≡ some id
    → a.options.nodelay ≡ true
    → a.options.linger ≡ true
    → a.duplicated ≡ some dup
    → a.dup_options.nodelay ≡ true
    → a.dup_options.linger ≡ false
    → ltb_ℤ s.num_cnx s.max_cnx ≡ true
    → IsServing apart s
    → ((add_connection a s).0 ≡ none) × IsServing (dup ∷ apart) ((add_connection a s).1)
unfolding add_connection
add_connection_leak a id fd dup {apart} {s} h1 h2 h3 h4 h5 h6 h7 h8 h9 v =
    let a' : Accepting = record a { accepted = some fd; peer = true } in
    rw (h1, h9, h2)
      (subst (λ r. (r.0 ≡ none) × IsServing (dup ∷ apart) (r.1))
        (sym (duplicate_leak a' id fd dup (opened fd s) h3 h4 h5 h6 h7 h8))
        (
          refl,
          close-IsServing fd (swap-IsServing dup fd (opened-IsServing dup (opened-IsServing fd v))),
        ))

-- ===== src/Server/Account.antt =====
-- The account of a server: its connections, their number and the open descriptors.
use libappf.Base.{
  ℕ, ◌+◌, arith, false, length, leb, List, ◌∷◌, [], ◌-◌, if◌then◌else◌, ◌≡◌, ◌==◌, ◌≤◌, true, suc,
}
use libappf.Server.{Cnx, Server, release, live, opened, close}
use libappf.Base.Int.{pos_part, pos, ltb_ℤ, ◌+ℤ◌, negsuc, ℤ}

-- How often a number stands in a list.
unfoldable pub count : ℕ → List ℕ → ℕ
count f [] = 0
count f (g ∷ gs) = (if g == f then 1 else 0) + count f gs

-- The descriptors that the connections hold.
unfoldable pub held : List Cnx → List ℕ
held [] = []
held (c ∷ cs) = c.fd ∷ c.dup ∷ held cs

unfoldable pub Distinct : List Cnx → Type 0
Distinct [] = Unit
Distinct (c ∷ cs) = (live c.id cs ≡ false) × Distinct cs

-- What holds between two calls: the open descriptors are those that were open `apart` from the
-- connections and those of the connections, `num_cnx` counts the connections, no connection stands
-- twice on the list, and there are at most `max_cnx`.
pub record IsServing (apart : List ℕ) (s : Server) : Type 0 where
  pub accounted : (f : ℕ) → count f s.descriptors ≡ count f apart + count f (held s.cnx)
  pub counted : s.num_cnx ≡ pos (length s.cnx)
  pub limited : length s.cnx ≤ pos_part s.max_cnx
  pub distinct : Distinct s.cnx

pub count-release :
    (f fd : ℕ) (fs : List ℕ)
    → count f (release fd fs)
      ≡ count f fs - (if fd == f then (if leb 1 (count fd fs) then 1 else 0) else 0)
unfolding count release
count-release f fd [] = ground arith
count-release f fd (g ∷ gs) = ground (arith, count-release f fd gs)

pub swap-IsServing :
    (x y : ℕ) {apart : List ℕ} {s : Server}
    → IsServing (x ∷ y ∷ apart) s
    → IsServing (y ∷ x ∷ apart) s
unfolding count
swap-IsServing x y {apart} {s} v = record {
  accounted = λ f. omega (arith, v.accounted f);
  counted = v.counted;
  limited = v.limited;
  distinct = v.distinct;
}

-- A descriptor was opened and is not handed to a connection.
pub opened-IsServing :
    (fd : ℕ) {apart : List ℕ} {s : Server}
    → IsServing apart s
    → IsServing (fd ∷ apart) (opened fd s)
unfolding count
opened-IsServing fd {apart} {s} v = record {
  accounted = λ f. omega (arith, v.accounted f);
  counted = v.counted;
  limited = v.limited;
  distinct = v.distinct;
}

pub close-IsServing :
    (fd : ℕ) {apart : List ℕ} {s : Server} → IsServing (fd ∷ apart) s → IsServing apart (close fd s)
unfolding count
close-IsServing fd {apart} {s} v = record {
  accounted = λ f. ground (arith, v.accounted f, v.accounted fd, count-release f fd s.descriptors);
  counted = v.counted;
  limited = v.limited;
  distinct = v.distinct;
}

-- A second `close` of a descriptor that was open once.
pub reclose-IsServing :
    (fd : ℕ) {apart : List ℕ} (s : Server)
    → count fd s.descriptors ≡ 1
    → IsServing apart (close fd s)
    → IsServing apart (close fd (close fd s))
reclose-IsServing fd {apart} s once v = record {
  accounted = λ f. ground (
    arith,
    once,
    v.accounted f,
    count-release fd fd s.descriptors,
    count-release f fd (release fd s.descriptors),
  );
  counted = v.counted;
  limited = v.limited;
  distinct = v.distinct;
}

grow : (x : ℤ) (n : ℕ) → x ≡ pos n → x +ℤ pos 1 ≡ pos (suc n)
unfolding ◌+ℤ◌
grow x n h = rw h (ground arith)

pub shrink : (x : ℤ) (n : ℕ) → x ≡ pos (suc n) → x +ℤ negsuc 0 ≡ pos n
unfolding ◌+ℤ◌
shrink x n h = rw h (ground arith)

room_for : (x m : ℤ) (n : ℕ) → x ≡ pos n → ltb_ℤ x m ≡ true → suc n ≤ pos_part m
room_for (pos k) (pos m) n h e = ground arith
room_for (pos k) (negsuc m) n h e = ground arith
room_for (negsuc k) m n h e = ground arith

-- A connection joins.
pub connect-IsServing :
    (c : Cnx) {apart : List ℕ} {s : Server}
    → live c.id s.cnx ≡ false
    → ltb_ℤ s.num_cnx s.max_cnx ≡ true
    → IsServing (c.fd ∷ c.dup ∷ apart) s
    → IsServing apart (record s { cnx = c ∷ s.cnx; num_cnx = s.num_cnx +ℤ pos 1 })
unfolding count held Distinct ◌+ℤ◌
connect-IsServing c {apart} {s} fresh room v = record {
  accounted = λ f. omega (arith, v.accounted f);
  counted = grow _ _ v.counted;
  limited = room_for _ _ _ v.counted room;
  distinct = (fresh, v.distinct);
}

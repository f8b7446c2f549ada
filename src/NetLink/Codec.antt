-- ===== src/NetLink/Codec.antt =====
-- What was sent is read back.
use libappf.NetLink.{checksum, header, packet, message, decode}
use libappf.Base.{
  ◌==◌, ℕ, ◌≤◌, ◌%◌, length-append, arith, ap, get_elem?, [], ◌+◌, none, ◌++◌, length, ◌<◌, ◌∷◌,
  some, ◌≡◌, if◌then◌else◌, suc, List, ◌-◌, take, take-length_append, subst, drop, append_assoc,
  sym, refl, ◌∙◌,
}

-- What can be sent in one packet: bytes, and no more data than the length byte can count.
pub record IsSendable (destination command subcommand : ℕ) (data' : List ℕ) : Type 0 where
  pub destination_byte : destination < 256
  pub command_byte : command < 256
  pub subcommand_byte : subcommand < 256
  pub fits : length data' ≤ 252

get_elem?-append : (xs ys : List ℕ) (i : ℕ) → get_elem? (xs ++ ys) (length xs + i) ≡ get_elem? ys i
get_elem?-append [] ys i = ap (get_elem? ys) (omega arith)
get_elem?-append (x ∷ xs) ys i =
    let e : length (x ∷ xs) + i ≡ suc (length xs + i) = omega arith in
    rw e (get_elem?-append xs ys i)

-- The way through all tests.
decode-message :
    (raw : List ℕ) (len size d c t : ℕ)
    → 7 ≤ len
    → get_elem? raw 1 ≡ some size
    → get_elem? raw (size + 2) ≡ some (checksum (take (size + 2) raw))
    → get_elem? raw 0 ≡ some 0xfe
    → get_elem? raw (size + 2 + 1) ≡ some 0xff
    → get_elem? raw 2 ≡ some d
    → get_elem? raw 3 ≡ some c
    → get_elem? raw 4 ≡ some t
    → decode raw len
      ≡ message (record {
        destination = d;
        command = c;
        subcommand = t;
        datasize = size;
        envelope = drop 5 raw;
        next = if size == (len - 4) % 256 then none else some (size + 2 + 2);
      })
unfolding decode
decode-message raw len size d c t h e1 es e0 ef e2 e3 e4 = ground arith

next-eq :
    (m n : ℕ)
    → m ≤ 252
    → (if m + 3 == (m + 7 + n - 4) % 256 then none else some (m + 3 + 2 + 2))
      ≡ (if n % 256 == 0 then none else some (m + 7))
next-eq m n h = ground arith

module _ {destination command subcommand : ℕ} {data' : List ℕ}
    (v : IsSendable destination command subcommand data') where
  -- The packet with what lies behind it in memory.
  abbrev memory : List ℕ → List ℕ
  memory rest = packet destination command subcommand data' ++ rest

  pub length-packet : length (packet destination command subcommand data') ≡ length data' + 7
  unfolding packet header
  length-packet = omega (
    arith,
    length-append data' (checksum (header destination command subcommand data') ∷ 0xff ∷ []),
  )

  -- The first part of a packet, and what follows it.
  memory-eq :
      (rest : List ℕ)
      → memory rest
        ≡ header destination command subcommand data'
          ++ (checksum (header destination command subcommand data') ∷ 0xff ∷ rest)
  unfolding packet
  memory-eq rest = append_assoc (header destination command subcommand data') _ rest

  -- A packet with at most 252 bytes of data, whose destination, command and subcommand are below 256,
  -- is taken apart into what was sent, whatever lies behind it in memory. If `n` more bytes were
  -- received the next packet begins right behind this one, unless `n` is a multiple of 256: then no
  -- next packet is reported.
  pub decode-packet :
      (rest : List ℕ) (n : ℕ)
      → decode (memory rest) (length data' + 7 + n)
        ≡ message (record {
          destination = destination;
          command = command;
          subcommand = subcommand;
          datasize = length data' + 3;
          envelope =
              data' ++ (checksum (header destination command subcommand data') ∷ 0xff ∷ rest);
          next = if n % 256 == 0 then none else some (length data' + 7);
        })
  unfolding header
  decode-packet rest n =
      let H = header destination command subcommand data' in
      let R : List ℕ = checksum H ∷ 0xff ∷ rest in
      let sz : (length data' + 3) % 256 ≡ length data' + 3 = omega arith in
      let size : length H ≡ length data' + 3 + 2 = omega arith in
      let cut : take (length data' + 3 + 2) (H ++ R) ≡ H =
        subst (λ k. take k (H ++ R) ≡ H) size (take-length_append H R) in
      let sum : get_elem? (H ++ R) (length data' + 3 + 2) ≡ some (checksum H) =
        subst (λ k. get_elem? (H ++ R) k ≡ some (checksum H)) (omega arith)
          (get_elem?-append H R 0) in
      let last : get_elem? (H ++ R) (length data' + 3 + 2 + 1) ≡ some 0xff =
        subst (λ k. get_elem? (H ++ R) k ≡ some 0xff) (omega arith) (get_elem?-append H R 1) in
      let start : decode (H ++ R) (length data' + 7 + n) ≡ _ =
        decode-message (H ++ R) (length data' + 7 + n) (length data' + 3) destination command
          subcommand (omega arith) (ap some sz) (sum ∙ ap (λ l. some (checksum l)) (sym cut)) refl
          last (ap some (omega arith)) (ap some (omega arith)) (ap some (omega arith)) in
      rw (memory-eq rest) (
        start
        ∙ ap
            (λ x. message (record {
              destination = destination;
              command = command;
              subcommand = subcommand;
              datasize = length data' + 3;
              envelope = data' ++ R;
              next = x;
            }))
            (next-eq (length data') n (omega arith)))

-- ===== src/NetLink/Overrun.antt =====
-- What `decode_NetLink_command` does with bytes that are no whole message.
use libappf.NetLink.{checksum, Message, message, fault, decode}
use libappf.Base.{
  some, length, ◌≤◌, ℕ, List, none, get_elem?, ◌%◌, ◌≡◌, ◌+◌, ◌-◌, ◌↔◌, take, arith, suc, refl,
  zero, ◌∷◌, [],
}

get_elem?-eq_none {ℓ} : {A : Type ℓ} (xs : List A) (i : ℕ) → length xs ≤ i → get_elem? xs i ≡ none
get_elem?-eq_none [] i h = refl
get_elem?-eq_none (x ∷ xs) zero h = absurd (omega arith)
get_elem?-eq_none (x ∷ xs) (suc i) h = get_elem?-eq_none xs i (omega arith)

-- The length byte is not held against the number of bytes received: where it promises more than
-- came, a read goes behind the received bytes.
pub decode_overrun :
    (raw : List ℕ) (size : ℕ)
    → 7 ≤ length raw
    → get_elem? raw 1 ≡ some size
    → length raw ≤ size + 2
    → decode raw (length raw) ≡ fault
unfolding decode
decode_overrun raw size h e short = ground (arith, get_elem?-eq_none raw (size + 2))

-- What every accepted message has been tested for.
pub record IsAccepted (raw : List ℕ) (len : ℕ) (m : Message) : Type 0 where
  pub long : 7 ≤ len
  pub size_byte : get_elem? raw 1 ≡ some m.datasize
  pub header_byte : get_elem? raw 0 ≡ some 0xfe
  pub tail_byte : get_elem? raw (m.datasize + 2 + 1) ≡ some 0xff
  pub sum_byte : get_elem? raw (m.datasize + 2) ≡ some (checksum (take (m.datasize + 2) raw))
  pub whole : (m.next ≡ none) ↔ (m.datasize ≡ (len - 4) % 256)

-- Only bytes with the header, the tail and the checksum in their places are taken for a message.
pub decode-IsAccepted :
    (raw : List ℕ) (len : ℕ) {m : Message} → decode raw len ≡ message m → IsAccepted raw len m
unfolding decode
decode-IsAccepted raw len h = ground arith

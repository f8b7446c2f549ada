-- ===== src/NetLink.antt =====
-- The NetLink messages of tcli.c: how a command is sent, how received bytes are taken apart, and
-- what is done with each message.
pub mod Codec
pub mod Overrun
pub mod Process
pub mod Total
pub mod Stream
pub mod Send
mod Tests
use libappf.Base.{
  ◌==◌, ℕ, ◌-◌, ◌+◌, none, some, length, [], drop, ◌%◌, List, ltb, if◌then◌else◌, get_elem?, ◌∷◌,
  ◌^◌, take, ◌++◌, Option,
}

-- The two loops over `sum`: an `unsigned int`, and `sum & 0x7f`.
pub sum_bytes : List ℕ → ℕ
sum_bytes [] = 0
sum_bytes (b ∷ bs) = b + sum_bytes bs

unfoldable pub checksum : List ℕ → ℕ
unfolding sum_bytes
checksum bs = sum_bytes bs % 2 ^ 32 % 128

-- The header, the length, the three numbers and the data, each cast to `unsigned char`.
unfoldable pub header : (destination command subcommand : ℕ) → List ℕ → List ℕ
header destination command subcommand data' =
    0xfe
    ∷ ((length data' + 3) % 256)
    ∷ (destination % 256)
    ∷ (command % 256)
    ∷ (subcommand % 256)
    ∷ data'

-- The packet that `send_NetLink_command` puts together: `datapacket[0 .. packetsize + 2)`.
unfoldable pub packet : (destination command subcommand : ℕ) → List ℕ → List ℕ
packet destination command subcommand data' =
    let start = header destination command subcommand data' in start ++ (checksum start ∷ 0xff ∷ [])

-- What `decode_NetLink_command` leaves in its arguments: `datasize` is the length byte, `envelope`
-- is the memory from `*data` on, and `next` is the offset of `*nextpacket`.
pub record Message : Type 0 where
  pub destination : ℕ
  pub command : ℕ
  pub subcommand : ℕ
  pub datasize : ℕ
  pub envelope : List ℕ
  pub next : Option ℕ

-- `refused` holds the code returned, 1 to 4. A read behind the given memory is a `fault`.
pub data Decoded : Type 0 where
  message : Message → Decoded
  refused : ℕ → Decoded
  fault : Decoded

-- `*(raw + i)`.
abbrev pub read : List ℕ → ℕ → (ℕ → Decoded) → Decoded
read raw i k = elim (get_elem? raw i) [ none ↦ fault | some b ↦ k b ]

-- The end of `decode_NetLink_command`: the next packet and the fields.
pub fields : List ℕ → (len size : ℕ) → Decoded
fields raw len size =
    let more = if size == (len - 4) % 256 then none else some (size + 2 + 2) in
    read raw 2 λ d. read raw 3 λ c. read raw 4 λ s. message (record {
      destination = d;
      command = c;
      subcommand = s;
      datasize = size;
      envelope = drop 5 raw;
      next = more;
    })

-- The test of the tail character.
pub tail_test : List ℕ → (len size : ℕ) → Decoded
unfolding fields
tail_test raw len size =
    read raw (size + 2 + 1) λ last. (if last == 0xff then fields raw len size else refused 4)

-- The test of the header.
pub header_test : List ℕ → (len size : ℕ) → Decoded
unfolding tail_test
header_test raw len size =
    read raw 0 λ first. (if first == 0xfe then tail_test raw len size else refused 3)

-- `decode_NetLink_command`, with the memory from `raw` on and the length `len`.
unfoldable pub decode : List ℕ → ℕ → Decoded
unfolding checksum header_test
decode raw len =
    if ltb len 7
    then refused 1
    else read raw 1 λ size.
      read raw (size + 2) λ sum.
        (if checksum (take (size + 2) raw) == sum then header_test raw len size else refused 2)

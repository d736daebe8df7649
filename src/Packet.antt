-- ===== src/Packet.antt =====
-- packet_interface.h and packet_implem.c: the packet structure, its constants and status codes,
-- and its accessors. `pkt_decode` and `pkt_encode` are in the children.
pub mod Wire
pub mod Payload
pub mod Release
pub mod Encode
pub mod Decode
pub mod Unique
pub mod RoundTrip
pub mod Setters
mod Tests
use projet.Base.{
  ℕ, ◌+◌, ◌-◌, ◌%◌, ◌≡◌, Bool, true, false, not, ◌&&◌, List, [], ltb, ◌==◌, if◌then◌else◌,
  replicate,
}
use projet.Base.Exec.{Exec, ok, fault, ◌>>=◌}
use projet.Base.Array.{copy, fill}

-- `ptypes_t`
abbrev pub ptype_data : ℕ
ptype_data = 1

abbrev pub ptype_ack : ℕ
ptype_ack = 2

abbrev pub ptype_nack : ℕ
ptype_nack = 4

abbrev pub max_payload_size : ℕ
max_payload_size = 512

abbrev pub max_window_size : ℕ
max_window_size = 31

-- `pkt_status_code`
pub data Status : Type 0 where
  pkt_ok : Status
  e_type e_length e_crc e_window e_seqnum e_padding : Status
  e_nomem e_nopayload e_noheader e_unconsistent : Status

-- The `payload` pointer: never set, NULL, or a block from `malloc` with the bytes it holds.
pub data Pointer : Type 0 where
  wild null : Pointer
  block : List ℕ → Pointer

-- `struct pkt`
pub record Pkt : Type 0 where
  pub type : ℕ
  pub window : ℕ
  pub seqnum : ℕ
  pub length : ℕ
  pub payload : Pointer
  pub crc : ℕ

-- `pkt_new`, where `malloc` succeeds: the fields keep what the memory held, and the payload pointer
-- was never set.
unfoldable pub pkt_new : Pkt → Pkt
pkt_new memory = record memory { payload = wild }

-- `free`: NULL and a block may be released, a pointer that was never set may not.
unfoldable pub release : Pointer → Exec (Unit {0})
release wild = fault
release null = ok tt
release (block bytes) = ok tt

-- What a pointer to a released packet leads to: its payload can neither be read nor released again.
-- The other fields read as they were left.
abbrev pub released : Pkt → Pkt
released pkt = record pkt { payload = wild }

-- `pkt_del`, with what other pointers to the packet now lead to.
unfoldable pub pkt_del : Pkt → Exec Pkt
unfolding release
pkt_del pkt = release pkt.payload >>= λ _. ok (released pkt)

-- The bytes that can be read through the pointer.
abbrev pub bytes_at : Pointer → List ℕ
bytes_at wild = []
bytes_at null = []
bytes_at (block bytes) = bytes

unfoldable pub pkt_get_type : Pkt → ℕ
pkt_get_type pkt = pkt.type

unfoldable pub pkt_get_window : Pkt → ℕ
pkt_get_window pkt = pkt.window

unfoldable pub pkt_get_seqnum : Pkt → ℕ
pkt_get_seqnum pkt = pkt.seqnum

unfoldable pub pkt_get_length : Pkt → ℕ
pkt_get_length pkt = pkt.length

unfoldable pub pkt_get_crc : Pkt → ℕ
pkt_get_crc pkt = pkt.crc

unfoldable pub pkt_get_payload : Pkt → Pointer
pkt_get_payload pkt = pkt.payload

unfoldable pub pkt_set_type : Pkt → ℕ → Status × Pkt
pkt_set_type pkt type =
    if not (type == ptype_data) && not (type == ptype_ack) && not (type == ptype_nack)
    then (e_type, pkt)
    else (pkt_ok, record pkt { type = type })

unfoldable pub pkt_set_window : Pkt → ℕ → Status × Pkt
pkt_set_window pkt window =
    if ltb max_window_size window then (e_window, pkt) else (pkt_ok, record pkt { window = window })

unfoldable pub pkt_set_seqnum : Pkt → ℕ → Status × Pkt
pkt_set_seqnum pkt seqnum = (pkt_ok, record pkt { seqnum = seqnum })

unfoldable pub pkt_set_length : Pkt → ℕ → Status × Pkt
pkt_set_length pkt length =
    if ltb max_payload_size length
    then (e_length, pkt)
    else (pkt_ok, record pkt { length = length })

unfoldable pub pkt_set_crc : Pkt → ℕ → Status × Pkt
pkt_set_crc pkt crc = (pkt_ok, record pkt { crc = crc })

-- `padding`: the bytes that fill the payload up to a multiple of four.
unfoldable pub padding_of : ℕ → ℕ
padding_of length = if not (length % 4 == 0) then 4 - length % 4 else 0

-- `pkt_set_payload`; `junk` is what a byte of a fresh block holds.
unfoldable pub pkt_set_payload : ℕ → Pkt → List ℕ → ℕ → Exec (Status × Pkt)
pkt_set_payload junk pkt bytes length =
    if ltb max_payload_size length then ok (e_length, pkt) else do
      let padding = padding_of length
      copied ← copy length (replicate (length + padding) junk) 0 bytes 0
      padded ← fill padding copied length 0
      ok (pkt_ok, record pkt { payload = block padded; length = length })

-- ===== src/Packet/Decode.antt =====
-- `pkt_decode` of packet_implem.c.
pub mod Parts
pub mod Accept
pub mod Sound
pub mod Refuse
use Prim.Native.Nat.{bit_or}
use projet.Base.{
  ℕ, zero, suc, ◌+◌, ◌*◌, ◌/◌, ◌%◌, ◌^◌, Bool, true, false, not, ◌&&◌, List, ltb, ◌==◌,
  if◌then◌else◌, replicate,
}
use projet.Base.Exec.{Exec, ok, ◌>>=◌}
use projet.Base.Array.{load, prefix, copy}
use projet.Base.Word.{u8, u16, u32, char_to_u16, char_to_u32, swap16, swap32}
use projet.Packet.{
  ptype_data, ptype_ack, ptype_nack, Pkt, Status, pkt_ok, e_type, e_crc, e_noheader, e_unconsistent,
  padding_of, pkt_get_type, pkt_get_length, pkt_get_crc, pkt_set_type, pkt_set_window,
  pkt_set_seqnum, pkt_set_length, pkt_set_crc, pkt_set_payload,
}

-- `err != PKT_OK`
unfoldable pub failed : Status → Bool
failed pkt_ok = false
failed _ = true

-- `err == E_NOHEADER`
abbrev pub is_noheader : Status → Bool
is_noheader e_noheader = true
is_noheader _ = false

-- `length = data[3]; length = length << 8; length = length | data[2];` before `ntohs`
unfoldable pub read_length : ℕ → ℕ → ℕ
read_length low high =
    let shifted = u16 (char_to_u16 high * 2 ^ 8) in u16 (bit_or shifted (char_to_u16 low))

-- `for (i = 3; i >= 0; i--)`: the checksum before `ntohl`, from the byte at `start + 3` down. The
-- first argument counts the rounds left.
unfoldable pub read_crc : ℕ → List ℕ → ℕ → ℕ → Exec ℕ
read_crc zero bytes start crc = ok crc
read_crc (suc i) bytes start crc = do
  ith ← load bytes (start + i)
  let inter = char_to_u32 ith % 256
  read_crc i bytes start (bit_or (u32 (crc * 2 ^ 8)) inter)

-- The fields of the header are stored in the packet before any check but the first.
pub record Header : Type 0 where
  pub pkt : Pkt
  pub err : Status
  pub err2 : Status
  pub err3 : Status
  pub err4 : Status

unfoldable pub read_header : List ℕ → Pkt → Exec Header
unfolding pkt_set_seqnum
read_header bytes pkt₀ = do
  d₀ ← load bytes 0
  let (err, pkt₁) = pkt_set_type pkt₀ (d₀ / 2 ^ 5 % 8)
  let (err2, pkt₂) = pkt_set_window pkt₁ (d₀ % 32)
  d₁ ← load bytes 1
  let (err3, pkt₃) = pkt_set_seqnum pkt₂ d₁
  d₃ ← load bytes 3
  d₂ ← load bytes 2
  let (err4, pkt₄) = pkt_set_length pkt₃ (swap16 (read_length d₂ d₃))
  ok (record { pkt = pkt₄; err = err; err2 = err2; err3 = err3; err4 = err4 })

module _ (crc32 : List ℕ → ℕ) (junk : ℕ) where
  -- The payload and the checksum of a packet whose header and size are in order.
  unfoldable pub read_body : List ℕ → Pkt → ℕ → Exec (Status × Pkt)
  unfolding failed pkt_set_crc
  read_body bytes pkt padding = do
    let length = pkt_get_length pkt
    payload ← copy length (replicate length junk) 0 bytes 4
    (err5, pkt₅) ← pkt_set_payload junk pkt payload length
    crc ← read_crc 4 bytes (4 + pkt_get_length pkt₅ + padding) 0
    let (err6, pkt₆) = pkt_set_crc pkt₅ (swap32 crc)
    covered ← prefix bytes (pkt₆.length + 4 + padding)
    if not (pkt_get_crc pkt₆ == u32 (crc32 covered))
        then ok (e_crc, pkt₆)
        else if failed err5
        then ok (err5, pkt₆)
        else if failed err6
        then ok (err6, pkt₆)
        else ok (pkt_ok, pkt₆)

  -- `bytes` is the array that `data` points to, and `len` the number of bytes said to be received.
  -- The result is the status and the packet as the call leaves it.
  unfoldable pub pkt_decode : List ℕ → ℕ → Pkt → Exec (Status × Pkt)
  unfolding failed
  pkt_decode bytes len pkt₀ = if ltb len 4 then ok (e_noheader, pkt₀) else do
    header ← read_header bytes pkt₀
    let pkt = header.pkt
    let padding = padding_of (pkt_get_length pkt)
    if ltb len 8
        then ok (e_unconsistent, pkt)
        else if not (len % 4 == 0)
        then ok (e_unconsistent, pkt)
        else if failed header.err
        then ok (header.err, pkt)
        else if failed header.err2
        then ok (header.err2, pkt)
        else if failed header.err3
        then ok (header.err3, pkt)
        else if failed header.err4
        then ok (header.err4, pkt)
        else if not (pkt.type == ptype_data)
            && not (pkt.type == ptype_ack)
            && not (pkt.type == ptype_nack)
        then ok (e_type, pkt)
        else if not (pkt_get_type pkt == ptype_data) && ltb 0 (pkt_get_length pkt)
        then ok (e_unconsistent, pkt)
        else if not (pkt_get_length pkt + 8 + padding == u16 len)
        then ok (e_unconsistent, pkt)
        else read_body bytes pkt padding

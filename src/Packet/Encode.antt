-- ===== src/Packet/Encode.antt =====
-- `pkt_encode` of packet_implem.c.
pub mod Frame
pub mod Room
use Prim.Native.Nat.{bit_or}
use projet.Base.{ℕ, ◌+◌, ◌*◌, ◌/◌, ◌%◌, ◌^◌, List, ltb, if◌then◌else◌}
use projet.Base.Exec.{Exec, ok, ◌>>=◌}
use projet.Base.Array.{store, prefix, copy, fill}
use projet.Base.Word.{u8, u16, u32, swap16, swap32}
use projet.Packet.{Pkt, Status, pkt_ok, e_nomem, bytes_at, padding_of, pkt_get_length}

-- What the call leaves: its result, the buffer, and `*len`.
pub record Encoded : Type 0 where
  pub status : Status
  pub buf : List ℕ
  pub len : ℕ

-- The four bytes of the checksum, in the order in which they are stored from index `at` on.
unfoldable pub store_crc : List ℕ → ℕ → ℕ → Exec (List ℕ)
store_crc buf at crc = do
  b₀ ← store buf at (u8 crc)
  b₁ ← store b₀ (at + 1) (u8 (crc / 2 ^ 8))
  b₂ ← store b₁ (at + 2) (u8 (crc / 2 ^ 16))
  store b₂ (at + 3) (u8 (crc / 2 ^ 24))

module _ (crc32 : List ℕ → ℕ) where
  -- The size of the buffer is the length of the list; `len` is what the caller says of it. The
  -- bytes are written first, and `len` is compared last.
  unfoldable pub pkt_encode : Pkt → List ℕ → ℕ → Exec Encoded
  pkt_encode pkt buf len = do
    b₀ ← store buf 0 (u8 (bit_or (pkt.type * 2 ^ 5) pkt.window))
    b₁ ← store b₀ 1 pkt.seqnum
    let ordering = swap16 (pkt_get_length pkt)
    b₂ ← store b₁ 2 (ordering % 256)
    b₃ ← store b₂ 3 (u8 (ordering / 2 ^ 8))
    b₄ ← copy (pkt_get_length pkt) b₃ 4 (bytes_at pkt.payload) 0
    let padding = padding_of (pkt_get_length pkt)
    b₅ ← fill padding b₄ (4 + pkt_get_length pkt) 0
    covered ← prefix b₅ (pkt.length + 4 + padding)
    let crc = swap32 (u32 (crc32 covered))
    b₆ ← store_crc b₅ (4 + pkt_get_length pkt + padding) crc
    if ltb (u16 len) (8 + pkt.length + padding)
        then ok (record { status = e_nomem; buf = b₆; len = len })
        else ok (record { status = pkt_ok; buf = b₆; len = 8 + pkt_get_length pkt + padding })

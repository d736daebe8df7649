-- ===== src/Protocol/System/Frames.antt =====
-- The sizes of the frames of packet_implem.c, and the bytes of those without payload.
use projet.Base.{
  ℕ, ◌%◌, ◌^◌, ◌≤◌, ◌<◌, ◌≡◌, List, arith, length, replicate, length-append, length-replicate, All,
}
use projet.Base.Word.{u16}
use projet.Packet.{max_window_size}
use projet.Packet.Wire.{Content, IsContent, IsByte, covered, be32, gap, size, frame, control}

module _ (crc32 : List ℕ → ℕ) where
  pub length-frame : (c : Content) → length (frame crc32 c) ≡ size c
  length-frame c = omega (
    arith,
    length-append c.payload (replicate (gap (length c.payload)) 0),
    length-append (covered c (replicate (gap (length c.payload)) 0))
        (be32 (crc32 (covered c (replicate (gap (length c.payload)) 0)) % 2 ^ 32)),
    length-replicate {A = ℕ} (gap (length c.payload)) 0,
  )

  -- The size of a packet fits in 16 bits.
  pub sized-frame : (c : Content) → IsContent c → u16 (length (frame crc32 c)) ≡ size c
  sized-frame c v = omega (arith, length-frame c, v.short)

  -- A packet fits in the buffers of the programs, and has a header.
  pub bounds-frame :
      (c : Content) → IsContent c → (8 ≤ length (frame crc32 c)) × (length (frame crc32 c) ≤ 520)
  bounds-frame c v = (omega (arith, length-frame c), omega (arith, length-frame c, v.short))

  -- The packets without payload consist of bytes.
  pub frame-IsByte :
      (type window seqnum : ℕ)
      → type < 8
      → window ≤ max_window_size
      → seqnum < 256
      → All IsByte (frame crc32 (control type window seqnum))
  frame-IsByte type window seqnum t w s = (
    omega arith,
    (
      omega arith,
      (omega arith, (omega arith, (omega arith, (omega arith, (omega arith, (omega arith, tt)))))),
    ),
  )

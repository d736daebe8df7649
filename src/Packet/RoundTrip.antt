-- ===== src/Packet/RoundTrip.antt =====
-- Encoding and then decoding a packet.
use projet.Base.{ℕ, ◌≤◌, ◌≡◌, refl, List, arith, length, length-replicate, le→ltb, drop, replicate}
use projet.Base.Exec.{ok, Yields, yields}
use projet.Base.Word.{u16}
use projet.Packet.{Pkt, pkt_ok}
use projet.Packet.Wire.{Content, IsContent, Represents, gap, size}
use projet.Packet.Encode.{pkt_encode}
use projet.Packet.Encode.Frame.{pkt_encode-frame}
use projet.Packet.Decode.{pkt_decode}
use projet.Packet.Decode.Accept.{decoded, pkt_decode-framed}

-- A packet that is encoded into a buffer with room for it, of which the caller states a size that
-- suffices, is decoded from the bytes and the length that the call leaves, into any packet
-- structure: the status is PKT_OK, and the structure says what the encoded one said.
pub pkt_encode-decode :
    (crc32 : List ℕ → ℕ) (junk : ℕ) (pkt : Pkt) (c : Content) (buf : List ℕ) (len : ℕ) (pkt₀ : Pkt)
    → IsContent c
    → Represents pkt c
    → size c ≤ length buf
    → size c ≤ u16 len
    → Yields
        (λ e.
          (pkt' : Pkt) × (pkt_decode crc32 junk e.buf e.len pkt₀ ≡ ok (pkt_ok, pkt'))
          × Represents pkt' c)
        (pkt_encode crc32 pkt buf len)
pkt_encode-decode crc32 junk pkt c buf len pkt₀ v r room stated =
    let zeros : List ℕ = replicate (gap (length c.payload)) 0 in
    rw (pkt_encode-frame crc32 pkt c buf len v r room, le→ltb (u16 len) (size c) stated)
      (yields (
        decoded crc32 c zeros,
        pkt_decode-framed crc32 junk c zeros (drop (size c) buf) (size c) pkt₀ v
            (length-replicate (gap (length c.payload)) 0) (omega arith),
        record {
          type_eq = refl;
          window_eq = refl;
          seqnum_eq = refl;
          length_eq = refl;
          beyond = zeros;
          payload_eq = refl;
        },
      ))

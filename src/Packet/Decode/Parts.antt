-- ===== src/Packet/Decode/Parts.antt =====
-- The header and the checksum that `pkt_decode` reads.
use Prim.Native.Nat.{bit_or}
use projet.Base.{
  ℕ, ◌+◌, ◌*◌, ◌/◌, ◌%◌, ◌^◌, ◌<◌, ◌≡◌, refl, ◌∙◌, List, [], ◌∷◌, ◌++◌, arith, length, ltb,
  if◌then◌else◌,
}
use projet.Base.Exec.{ok}
use projet.Base.Array.{load, load-append, load-skip}
use projet.Base.Word.{u16, u32, char_to_u16, char_to_u32, swap16}
use projet.Base.Bits.{bit_or-shifted, bit_or-ones}
use projet.Packet.{Pkt, pkt_set_type, pkt_set_window, pkt_set_seqnum, pkt_set_length}
use projet.Packet.Decode.{read_length, read_crc, Header, read_header}

-- The length in network order; a first byte of 128 or more is extended with its sign, which loses the
-- second byte.
pub swap16-read_length :
    (d₂ d₃ : ℕ)
    → d₂ < 256
    → d₃ < 256
    → swap16 (read_length d₂ d₃) ≡ (if ltb d₂ 128 then d₂ * 256 + d₃ else d₂ * 256 + 255)
unfolding read_length
swap16-read_length d₂ d₃ h₂ h₃ =
    let shifted : u16 (char_to_u16 d₃ * 2 ^ 8) ≡ d₃ * 256 = ground arith in
    rw shifted (ground (arith, bit_or-shifted d₃ d₂ h₂, bit_or-ones d₃ d₂ h₃ h₂))

-- One round: `crc << 8 | inter`, with the bits of the sign masked out.
crc_round :
    (q b : ℕ) → q < 2 ^ 24 → b < 256 → bit_or (u32 (q * 2 ^ 8)) (char_to_u32 b % 256) ≡ q * 256 + b
crc_round q b hq hb =
    let kept : u32 (q * 2 ^ 8) ≡ q * 256 = omega arith in
    let masked : char_to_u32 b % 256 ≡ b = ground arith in rw (kept, masked) (bit_or-shifted q b hb)

-- The checksum in network order, from the four bytes behind `pre`.
pub read_crc-append :
    (pre : List ℕ) (a b c d : ℕ) (rest : List ℕ) {start : ℕ}
    → start ≡ length pre
    → a < 256
    → b < 256
    → c < 256
    → d < 256
    → read_crc 4 (pre ++ a ∷ b ∷ c ∷ d ∷ rest) start 0 ≡ ok (((d * 256 + c) * 256 + b) * 256 + a)
unfolding read_crc
read_crc-append pre a b c d rest {start} e ha hb hc hd =
    let bytes = a ∷ b ∷ c ∷ d ∷ rest in
    let l₃ : load (pre ++ bytes) (start + 3) ≡ ok d =
      load-skip pre bytes 3 (omega arith) ∙ load-append (a ∷ b ∷ c ∷ []) d rest refl in
    let l₂ : load (pre ++ bytes) (start + 2) ≡ ok c =
      load-skip pre bytes 2 (omega arith) ∙ load-append (a ∷ b ∷ []) c (d ∷ rest) refl in
    let l₁ : load (pre ++ bytes) (start + 1) ≡ ok b =
      load-skip pre bytes 1 (omega arith) ∙ load-append (a ∷ []) b (c ∷ d ∷ rest) refl in
    let l₀ : load (pre ++ bytes) (start + 0) ≡ ok a =
      load-skip pre bytes 0 (omega arith) ∙ load-append [] a (b ∷ c ∷ d ∷ rest) refl in
    let r₃ : bit_or 0 (char_to_u32 d % 256) ≡ d = omega (arith, crc_round 0 d (omega arith) hd) in
    rw (
      l₃,
      l₂,
      l₁,
      l₀,
      r₃,
      crc_round d c (omega arith) hc,
      crc_round (d * 256 + c) b (omega arith) hb,
      crc_round ((d * 256 + c) * 256 + b) a (omega arith) ha,
    )

-- What the four setters make of the fields of a header, in the order of the calls.
abbrev pub parsed : ℕ → ℕ → ℕ → ℕ → Pkt → Header
parsed type window seqnum length pkt₀ =
    let (err, pkt₁) = pkt_set_type pkt₀ type in
    let (err2, pkt₂) = pkt_set_window pkt₁ window in
    let (err3, pkt₃) = pkt_set_seqnum pkt₂ seqnum in
    let (err4, pkt₄) = pkt_set_length pkt₃ length in
    record { pkt = pkt₄; err = err; err2 = err2; err3 = err3; err4 = err4 }

-- The fields that the header is read as.
pub read_header_lem :
    (d₀ d₁ d₂ d₃ : ℕ) (rest : List ℕ) (pkt₀ : Pkt)
    → d₀ < 256
    → d₂ < 256
    → d₃ < 256
    → read_header (d₀ ∷ d₁ ∷ d₂ ∷ d₃ ∷ rest) pkt₀
      ≡ ok (
          parsed (d₀ / 32) (d₀ % 32) d₁ (if ltb d₂ 128 then d₂ * 256 + d₃ else d₂ * 256 + 255) pkt₀)
unfolding read_header
read_header_lem d₀ d₁ d₂ d₃ rest pkt₀ h₀ h₂ h₃ =
    let type : d₀ / 2 ^ 5 % 8 ≡ d₀ / 32 = omega arith in
    rw (
      load-append [] d₀ (d₁ ∷ d₂ ∷ d₃ ∷ rest) refl,
      load-append (d₀ ∷ []) d₁ (d₂ ∷ d₃ ∷ rest) refl,
      load-append (d₀ ∷ d₁ ∷ d₂ ∷ []) d₃ rest refl,
      load-append (d₀ ∷ d₁ ∷ []) d₂ (d₃ ∷ rest) refl,
      swap16-read_length d₂ d₃ h₂ h₃,
      type,
    )

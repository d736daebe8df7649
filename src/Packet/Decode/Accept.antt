-- ===== src/Packet/Decode/Accept.antt =====
-- `pkt_decode` accepts every packet in the format, and stores what it says.
use projet.Base.{
  ℕ, ◌+◌, ◌*◌, ◌/◌, ◌%◌, ◌^◌, ◌<◌, ◌≡◌, refl, true, false, List, [], ◌∷◌, ◌++◌, arith, length,
  length-append, length-replicate, append_assoc, replicate, ltb, ◌==◌, ==-refl, not, ◌&&◌,
  if◌then◌else◌,
}
use projet.Base.Exec.{ok}
use projet.Base.Array.{copy-whole, prefix-append}
use projet.Base.Word.{u16, swap32}
use projet.Packet.{
  Pkt, Status, pkt_ok, e_crc, block, pkt_get_type, pkt_get_length, pkt_get_crc, pkt_set_type,
  pkt_set_window, pkt_set_seqnum, pkt_set_length, pkt_set_crc,
}
use projet.Packet.Wire.{Content, IsContent, be32, gap, covered, size, framed}
use projet.Packet.Payload.{padding_of-eq-gap, pkt_set_payload-whole}
use projet.Packet.Decode.{failed, read_header, read_body, pkt_decode}
use projet.Packet.Decode.Parts.{read_header_lem, read_crc-append}

-- The packet structure after the header of `c` was read.
abbrev with_header : Content → Pkt → Pkt
with_header c pkt₀ = record pkt₀ {
  type = c.type;
  window = c.window;
  seqnum = c.seqnum;
  length = length c.payload;
}

-- The packet structure after the whole packet was read.
abbrev pub decoded : (List ℕ → ℕ) → Content → List ℕ → Pkt
decoded crc32 c filler = record {
  type = c.type;
  window = c.window;
  seqnum = c.seqnum;
  length = length c.payload;
  payload = block (c.payload ++ replicate (gap (length c.payload)) 0);
  crc = crc32 (covered c filler) % 2 ^ 32;
}

read_header-framed :
    (c : Content) (rest : List ℕ) (pkt₀ : Pkt)
    → IsContent c
    → read_header
        ((c.type * 32 + c.window)
          ∷ c.seqnum
          ∷ length c.payload / 256 % 256
          ∷ length c.payload % 256
          ∷ rest)
        pkt₀
      ≡ ok (record {
        pkt = with_header c pkt₀;
        err = pkt_ok;
        err2 = pkt_ok;
        err3 = pkt_ok;
        err4 = pkt_ok;
      })
unfolding pkt_set_type pkt_set_window pkt_set_seqnum pkt_set_length
read_header-framed c rest pkt₀ v =
    let n = length c.payload in
    let type : (c.type * 32 + c.window) / 32 ≡ c.type = omega arith in
    let window : (c.type * 32 + c.window) % 32 ≡ c.window = omega arith in
    let n_eq : (if ltb (n / 256 % 256) 128
          then n / 256 % 256 * 256 + n % 256
          else n / 256 % 256 * 256 + 255)
        ≡ n =
      ground arith in
    rw
      (
        read_header_lem (c.type * 32 + c.window) c.seqnum (n / 256 % 256) (n % 256) rest pkt₀
            (omega arith) (omega arith) (omega arith),
        type,
        window,
        n_eq,
      )
      (ground arith)

-- The number that four bytes stand for in network order.
abbrev pub number32 : ℕ → ℕ → ℕ → ℕ → ℕ
number32 s₀ s₁ s₂ s₃ = s₀ * 2 ^ 24 + s₁ * 2 ^ 16 + s₂ * 2 ^ 8 + s₃

-- The answer to a packet with the checksum `s₀ s₁ s₂ s₃`.
abbrev pub checked : (List ℕ → ℕ) → Content → List ℕ → ℕ → ℕ → ℕ → ℕ → Status × Pkt
checked crc32 c filler s₀ s₁ s₂ s₃ =
    let w = number32 s₀ s₁ s₂ s₃ in
    (
      if w == crc32 (covered c filler) % 2 ^ 32 then pkt_ok else e_crc,
      record (decoded crc32 c filler) { crc = w },
    )

-- A packet in the format but for its checksum, which is `s₀ s₁ s₂ s₃`.
module _ (crc32 : List ℕ → ℕ) (junk : ℕ) (c : Content) (filler : List ℕ) (s₀ s₁ s₂ s₃ : ℕ)
    (rest : List ℕ) (pkt₀ : Pkt) (v : IsContent c) (filled : length filler ≡ gap (length c.payload))
    (b₀ : s₀ < 256) (b₁ : s₁ < 256) (b₂ : s₂ < 256) (b₃ : s₃ < 256) where
  read_body-checked :
      read_body crc32 junk
        (covered c filler ++ s₀ ∷ s₁ ∷ s₂ ∷ s₃ ∷ rest)
        (with_header c pkt₀)
        (gap (length c.payload))
      ≡ ok (checked crc32 c filler s₀ s₁ s₂ s₃)
  unfolding read_body pkt_set_crc pkt_get_length pkt_get_crc failed
  read_body-checked =
      let n = length c.payload in
      let tail = s₀ ∷ s₁ ∷ s₂ ∷ s₃ ∷ rest in
      let head = (c.type * 32 + c.window) ∷ c.seqnum ∷ n / 256 % 256 ∷ n % 256 ∷ [] in
      let swapped : swap32 (((s₃ * 256 + s₂) * 256 + s₁) * 256 + s₀) ≡ number32 s₀ s₁ s₂ s₃ =
        omega arith in
      rw
        (
          append_assoc c.payload filler tail,
          copy-whole (replicate n junk) head c.payload (filler ++ tail) refl
              (length-replicate n junk) refl,
          pkt_set_payload-whole junk (with_header c pkt₀) c.payload v.short,
          ← append_assoc c.payload filler tail,
          read_crc-append (covered c filler) s₀ s₁ s₂ s₃ rest {start = 4 + n + gap n}
              (omega (arith, length-append c.payload filler)) b₀ b₁ b₂ b₃,
          prefix-append (covered c filler) tail {n = n + 4 + gap n}
              (omega (arith, length-append c.payload filler)),
          swapped,
        )
        (ground arith)

  -- A packet in the format, whatever follows it in the array, is answered by its checksum alone, if
  -- the stated number of bytes is its size modulo 2^16: PKT_OK if the CRC32 of header, payload and
  -- filling is the one it carries, E_CRC otherwise. In both cases the packet structure gets the
  -- header, the payload with zeros for padding, and the checksum that was carried.
  pub pkt_decode-checked :
      (len : ℕ)
      → u16 len ≡ size c
      → pkt_decode crc32 junk (covered c filler ++ s₀ ∷ s₁ ∷ s₂ ∷ s₃ ∷ rest) len pkt₀
        ≡ ok (checked crc32 c filler s₀ s₁ s₂ s₃)
  unfolding pkt_decode pkt_get_length pkt_get_type failed
  pkt_decode-checked len el =
      let n = length c.payload in
      let long : ltb len 4 ≡ false = ground arith in
      let longer : ltb len 8 ≡ false = ground arith in
      let whole : (len % 4 == 0) ≡ true = ground arith in
      let fits : (n + 8 + gap n == u16 len) ≡ true = ground arith in
      let typed : (not (c.type == 1) && not (c.type == 2) && not (c.type == 4)) ≡ false =
        ground arith in
      let carries : (not (c.type == 1) && ltb 0 n) ≡ false = ground arith in
      rw
        (
          long,
          read_header-framed c ((c.payload ++ filler) ++ s₀ ∷ s₁ ∷ s₂ ∷ s₃ ∷ rest) pkt₀ v,
          longer,
          whole,
          padding_of-eq-gap n,
          typed,
          carries,
          fits,
        )
        read_body-checked

module _ (crc32 : List ℕ → ℕ) (junk : ℕ) where
  -- The call accepts every packet in the format, whatever follows it in the array, if the stated
  -- number of bytes is its size modulo 2^16. It stores the header, the payload with its padding as
  -- zeros, and the checksum. The bytes of the filling are not compared with zero.
  pub pkt_decode-framed :
      (c : Content) (filler rest : List ℕ) (len : ℕ) (pkt₀ : Pkt)
      → IsContent c
      → length filler ≡ gap (length c.payload)
      → u16 len ≡ size c
      → pkt_decode crc32 junk (framed crc32 c filler ++ rest) len pkt₀
        ≡ ok (pkt_ok, decoded crc32 c filler)
  pkt_decode-framed c filler rest len pkt₀ v ef el =
      let w = crc32 (covered c filler) % 2 ^ 32 in
      let sum : number32 (w / 2 ^ 24 % 256) (w / 2 ^ 16 % 256) (w / 2 ^ 8 % 256) (w % 256) ≡ w =
        omega arith in
      rw (
        append_assoc (c.payload ++ filler) (be32 w) rest,
        pkt_decode-checked crc32 junk c filler (w / 2 ^ 24 % 256) (w / 2 ^ 16 % 256)
            (w / 2 ^ 8 % 256) (w % 256) rest pkt₀ v ef (omega arith) (omega arith) (omega arith)
            (omega arith) len el,
        sum,
        ==-refl w,
      )

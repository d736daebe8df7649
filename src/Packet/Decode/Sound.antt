-- ===== src/Packet/Decode/Sound.antt =====
-- `pkt_decode` on any bytes: it stays inside the array, and accepts nothing but the format.
use mathlib.Core.Path.{subst}
use projet.Base.{
  ℕ, ◌+◌, ◌*◌, ◌/◌, ◌%◌, ◌^◌, ◌≤◌, ◌<◌, ◌≡◌, sym, ap, ap₂, ◌∙◌, true, List, [], ◌∷◌, ◌++◌, arith,
  length, append_assoc, lt→ltb, ltb, dec_lt, All, Bool-cases, inl, inr, Cut, cut, All-append_right,
}
use projet.Base.Exec.{Yields, yields, Yields-map}
use projet.Base.Word.{u16}
use projet.Packet.{Pkt, Status, pkt_ok}
use projet.Packet.Wire.{Content, IsContent, IsByte, be32, gap, covered, size, framed}
use projet.Packet.Decode.{pkt_decode, is_noheader}
use projet.Packet.Decode.Refuse.{in_order, pkt_decode-refusal}
use projet.Packet.Decode.Accept.{decoded, number32, pkt_decode-checked}

-- The bytes are a packet in the format, followed by any others, and `pkt` is what it says.
pub record IsDecoded (crc32 : List ℕ → ℕ) (bytes : List ℕ) (len : ℕ) (pkt : Pkt) : Type 0 where
  pub content : Content
  pub filler : List ℕ
  pub rest : List ℕ
  pub valid : IsContent content
  pub filled : length filler ≡ gap (length content.payload)
  pub sized : u16 len ≡ size content
  pub wire : bytes ≡ framed crc32 content filler ++ rest
  pub stored : pkt ≡ decoded crc32 content filler

-- What any answer says: PKT_OK of a packet in the format, and E_NOHEADER exactly of fewer than four
-- bytes.
abbrev pub IsAnswer : (List ℕ → ℕ) → List ℕ → ℕ → Status × Pkt → Type 0
IsAnswer crc32 bytes len r =
    (r.0 ≡ pkt_ok → IsDecoded crc32 bytes len r.1) × (is_noheader r.0 ≡ ltb len 4)

-- A checksum that is accepted is the one that the format asks for.
checked-IsDecoded :
    (crc32 : List ℕ → ℕ) (c : Content) (filler : List ℕ) (s₀ s₁ s₂ s₃ : ℕ) (rest : List ℕ) (len : ℕ)
    → IsContent c
    → length filler ≡ gap (length c.payload)
    → u16 len ≡ size c
    → All IsByte (s₀ ∷ s₁ ∷ s₂ ∷ s₃ ∷ [])
    → number32 s₀ s₁ s₂ s₃ ≡ crc32 (covered c filler) % 2 ^ 32
    → IsDecoded crc32
        (covered c filler ++ s₀ ∷ s₁ ∷ s₂ ∷ s₃ ∷ rest)
        len
        (record (decoded crc32 c filler) { crc = number32 s₀ s₁ s₂ s₃ })
checked-IsDecoded crc32 c filler s₀ s₁ s₂ s₃ rest len v filled sized b e =
    let w = number32 s₀ s₁ s₂ s₃ in
    let e₀ : w / 2 ^ 24 % 256 ≡ s₀ = omega arith in
    let e₁ : w / 2 ^ 16 % 256 ≡ s₁ = omega arith in
    let e₂ : w / 2 ^ 8 % 256 ≡ s₂ = omega arith in
    let e₃ : w % 256 ≡ s₃ = omega arith in
    record {
      content = c;
      filler = filler;
      rest = rest;
      valid = v;
      filled = filled;
      sized = sized;
      wire = rw (
        append_assoc (c.payload ++ filler) (be32 (crc32 (covered c filler) % 2 ^ 32)) rest,
        ← e,
        e₀,
        e₁,
        e₂,
        e₃,
      );
      stored = rw e;
    }

module _ (crc32 : List ℕ → ℕ) (junk : ℕ) (d₀ d₁ d₂ d₃ : ℕ) (tail : List ℕ) (len : ℕ) (pkt₀ : Pkt)
    (h₀ : d₀ < 256) (h₁ : d₁ < 256) (h₂ : d₂ < 256) (h₃ : d₃ < 256) where
  abbrev stated : ℕ
  stated = d₂ * 256 + d₃

  parts_compared :
      Cut stated (gap stated) tail
      → in_order (d₀ / 32) stated len ≡ true
      → All IsByte tail
      → Yields
          (IsAnswer crc32 (d₀ ∷ d₁ ∷ d₂ ∷ d₃ ∷ tail) len)
          (pkt_decode crc32 junk (d₀ ∷ d₁ ∷ d₂ ∷ d₃ ∷ tail) len pkt₀)
  parts_compared k good bytes =
      let content : Content = record {
        type = d₀ / 32;
        window = d₀ % 32;
        seqnum = d₁;
        payload = k.front;
      } in
      let facts : stated ≤ 512 = ground arith in
      let valid : IsContent content = grind arith in
      let filled : length k.middle ≡ gap (length k.front) = rw k.front_n k.middle_g in
      let sized : u16 len ≡ size content = rw k.front_n (ground arith) in
      let sums : All IsByte (k.s₀ ∷ k.s₁ ∷ k.s₂ ∷ k.s₃ ∷ k.rest) =
        All-append_right IsByte k.middle _
          (All-append_right IsByte k.front _ (subst (All IsByte) k.whole bytes)) in
      let d₀_eq : d₀ ≡ d₀ / 32 * 32 + d₀ % 32 = omega arith in
      let d₂_eq : d₂ ≡ length k.front / 256 % 256 = rw k.front_n (omega arith) in
      let d₃_eq : d₃ ≡ length k.front % 256 = rw k.front_n (omega arith) in
      let same : d₀ ∷ d₁ ∷ d₂ ∷ d₃ ∷ tail
          ≡ covered content k.middle ++ k.s₀ ∷ k.s₁ ∷ k.s₂ ∷ k.s₃ ∷ k.rest =
        ap₂ ◌∷◌ d₀_eq (
          ap (◌∷◌ d₁) (
            ap₂ ◌∷◌ d₂_eq (
              ap₂ ◌∷◌ d₃_eq (
                k.whole
                ∙ sym (append_assoc k.front k.middle (k.s₀ ∷ k.s₁ ∷ k.s₂ ∷ k.s₃ ∷ k.rest)))))) in
      subst (λ b. Yields (IsAnswer crc32 b len) (pkt_decode crc32 junk b len pkt₀)) (sym same)
        (rw
          (pkt_decode-checked crc32 junk content k.middle k.s₀ k.s₁ k.s₂ k.s₃ k.rest pkt₀ valid
            filled sums.0 sums.1.0 sums.1.1.0 sums.1.1.1.0 len sized)
          (yields (
            (λ e.
                checked-IsDecoded crc32 content k.middle k.s₀ k.s₁ k.s₂ k.s₃ k.rest len valid filled
                  sized (omega arith) (ground arith)),
            ground arith,
          )))

  -- A header in order leads to the checksum.
  compared :
      in_order (d₀ / 32) stated len ≡ true
      → len ≤ 4 + length tail
      → All IsByte tail
      → Yields
          (IsAnswer crc32 (d₀ ∷ d₁ ∷ d₂ ∷ d₃ ∷ tail) len)
          (pkt_decode crc32 junk (d₀ ∷ d₁ ∷ d₂ ∷ d₃ ∷ tail) len pkt₀)
  compared good within bytes =
      let facts : (stated + 8 + gap stated ≡ u16 len) × (stated ≤ 512) = ground arith in
      parts_compared (cut stated (gap stated) tail (omega arith)) good bytes

no_header :
    (crc32 : List ℕ → ℕ) (junk : ℕ) (bytes : List ℕ) (len : ℕ) (pkt₀ : Pkt)
    → len < 4
    → Yields (IsAnswer crc32 bytes len) (pkt_decode crc32 junk bytes len pkt₀)
unfolding pkt_decode
no_header crc32 junk bytes len pkt₀ h =
    rw (lt→ltb len 4 h) (yields ((λ e. cc), sym (lt→ltb len 4 h)))

pub pkt_decode-IsAnswer :
    (crc32 : List ℕ → ℕ) (junk : ℕ) (bytes : List ℕ) (len : ℕ) (pkt₀ : Pkt)
    → All IsByte bytes
    → len ≤ length bytes
    → Yields (IsAnswer crc32 bytes len) (pkt_decode crc32 junk bytes len pkt₀)
pkt_decode-IsAnswer crc32 junk (d₀ ∷ d₁ ∷ d₂ ∷ d₃ ∷ tail) len pkt₀ b h =
    elim (Bool-cases (in_order (d₀ / 32) (d₂ * 256 + d₃) len)) [
      | inl good ↦
          compared crc32 junk d₀ d₁ d₂ d₃ tail len pkt₀ b.0 b.1.0 b.1.1.0 b.1.1.1.0 good
            (omega arith) b.1.1.1.1
      | inr bad ↦ elim (dec_lt len 4) [
        | yes few ↦ no_header crc32 junk (d₀ ∷ d₁ ∷ d₂ ∷ d₃ ∷ tail) len pkt₀ few
        | no many ↦
            Yields-map
              (pkt_decode-refusal crc32 junk d₀ d₁ d₂ d₃ tail len pkt₀ b.0 b.1.0 b.1.1.0 b.1.1.1.0
                (omega arith) bad)
              λ r refused.
                ((λ e. absurd (ground (arith, refused.status))), ground (arith, refused.status))
      ]
    ]
pkt_decode-IsAnswer crc32 junk [] len pkt₀ b h = no_header crc32 junk [] len pkt₀ (omega arith)
pkt_decode-IsAnswer crc32 junk (d₀ ∷ []) len pkt₀ b h =
    no_header crc32 junk _ len pkt₀ (omega arith)
pkt_decode-IsAnswer crc32 junk (d₀ ∷ d₁ ∷ []) len pkt₀ b h =
    no_header crc32 junk _ len pkt₀ (omega arith)
pkt_decode-IsAnswer crc32 junk (d₀ ∷ d₁ ∷ d₂ ∷ []) len pkt₀ b h =
    no_header crc32 junk _ len pkt₀ (omega arith)

-- On bytes of which at least the stated number are there, the call stays inside the array and
-- returns. If it answers PKT_OK, the bytes are a packet in the format, of the stated size modulo
-- 2^16, whose checksum is the CRC32 of header, payload and filling, and the packet structure holds
-- exactly what it says.
pub pkt_decode-IsDecoded :
    (crc32 : List ℕ → ℕ) (junk : ℕ) (bytes : List ℕ) (len : ℕ) (pkt₀ : Pkt)
    → All IsByte bytes
    → len ≤ length bytes
    → Yields
        (λ r. r.0 ≡ pkt_ok → IsDecoded crc32 bytes len r.1)
        (pkt_decode crc32 junk bytes len pkt₀)
pkt_decode-IsDecoded crc32 junk bytes len pkt₀ b h =
    Yields-map (pkt_decode-IsAnswer crc32 junk bytes len pkt₀ b h) λ r (accepted, header). accepted

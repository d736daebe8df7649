-- ===== src/Packet/Unique.antt =====
-- The format on the wire is unambiguous, since `pkt_decode` reads back what was written.
use projet.Base.{ℕ, ◌≡◌, refl, sym, ap, ◌∙◌, List, ◌++◌, length, take, take-append, replicate}
use projet.Base.Word.{u16}
use projet.Packet.{Pkt, bytes_at}
use projet.Packet.Wire.{Content, IsContent, gap, size, framed}
use projet.Packet.Decode.{pkt_decode}
use projet.Packet.Decode.Accept.{decoded, pkt_decode-framed}

module _ (crc32 : List ℕ → ℕ) where
  decoded_unique :
      (c c' : Content) (filler filler' : List ℕ)
      → decoded crc32 c filler ≡ decoded crc32 c' filler'
      → c ≡ c'
  decoded_unique c c' filler filler' equal =
      let sizes : length c.payload ≡ length c'.payload = ap (λ p. p.length) equal in
      let zeros = replicate (gap (length c.payload)) 0 in
      let blocks : c.payload ++ zeros ≡ c'.payload ++ replicate (gap (length c'.payload)) 0 =
        ap (λ p. bytes_at p.payload) equal in
      let payloads : c.payload ≡ c'.payload =
        sym (take-append (length c.payload) c.payload zeros refl)
        ∙ ap (take (length c.payload)) blocks
        ∙ take-append (length c.payload) c'.payload _ sizes in
      let types : c.type ≡ c'.type = ap (λ p. p.type) equal in
      let windows : c.window ≡ c'.window = ap (λ p. p.window) equal in
      let seqnums : c.seqnum ≡ c'.seqnum = ap (λ p. p.seqnum) equal in
      λ i. record { type = types i; window = windows i; seqnum = seqnums i; payload = payloads i }

  -- If an array starts with two packets of the format, both of the same stated size, the packets
  -- say the same.
  pub framed_unique :
      (c c' : Content) (filler filler' rest rest' : List ℕ) (len : ℕ)
      → IsContent c
      → IsContent c'
      → length filler ≡ gap (length c.payload)
      → length filler' ≡ gap (length c'.payload)
      → u16 len ≡ size c
      → u16 len ≡ size c'
      → framed crc32 c filler ++ rest ≡ framed crc32 c' filler' ++ rest'
      → c ≡ c'
  framed_unique c c' filler filler' rest rest' len v v' f f' s s' same =
      let blank : Pkt = decoded crc32 c filler in
      let one = pkt_decode-framed crc32 0 c filler rest len blank v f s in
      let two = pkt_decode-framed crc32 0 c' filler' rest' len blank v' f' s' in
      let both = sym one ∙ ap (λ b. pkt_decode crc32 0 b len blank) same ∙ two in
      decoded_unique c c' filler filler' cc

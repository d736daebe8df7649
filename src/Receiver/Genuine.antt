-- ===== src/Receiver/Genuine.antt =====
-- Which datagrams are genuine: packets of the stream, and bytes that are no packet at all.
use projet.Base.{ℕ, ◌+◌, ◌%◌, ◌≤◌, ◌<◌, ◌≡◌, sym, ap, ◌∙◌, List, ◌++◌, arith, length}
use projet.Base.Word.{u16}
use projet.Packet.Wire.{Content, IsContent, gap, size, framed}
use projet.Packet.Unique.{framed_unique}
use projet.Receiver.Stream.{IsGenuine}

module _ (crc32 : List ℕ → ℕ) where
  -- A packet of the stream is genuine for a receiver that is not too far from it.
  pub framed-IsGenuine :
      (data_of : ℕ → List ℕ) (n k : ℕ) (c : Content) (filler rest : List ℕ) (len : ℕ)
      → IsContent c
      → length filler ≡ gap (length c.payload)
      → u16 len ≡ size c
      → c.seqnum ≡ k % 256
      → c.payload ≡ data_of k
      → k < n + 31
      → n ≤ k + 225
      → IsGenuine data_of crc32 n (framed crc32 c filler ++ rest) len
  framed-IsGenuine data_of n k c filler rest len v f s numbered payload near old c' filler' rest' v'
        f' s' same =
      let equal =
        sym (framed_unique crc32 c c' filler filler' rest rest' len v v' f f' s s' same) in
      (k, near, old, ap (λ c. c.seqnum) equal ∙ numbered, ap (λ c. c.payload) equal ∙ payload)

  -- A datagram that is too short for a packet is genuine.
  pub short-IsGenuine :
      (data_of : ℕ → List ℕ) (n : ℕ) (bytes : List ℕ) (len : ℕ)
      → u16 len < 8
      → IsGenuine data_of crc32 n bytes len
  short-IsGenuine data_of n bytes len h c filler rest v f s e = absurd (omega arith)

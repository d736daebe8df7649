-- ===== src/Protocol/System/Arrival.antt =====
-- What the receiver of sel_repeat_read.c does with what the link leaves of a packet.
use projet.Base.{
  ℕ, ◌+◌, ◌-◌, ◌%◌, ◌≤◌, ◌<◌, ◌≡◌, refl, List, [], ◌∷◌, ◌++◌, arith, length, take, dec_le,
  length-replicate,
}
use projet.Base.Exec.{Exec, Yields, yields, Yields-inv, Yields-elim, Yields-map}
use projet.Packet.{Pkt, ptype_nack, max_window_size, max_payload_size}
use projet.Packet.Wire.{control, frame, gap}
use projet.Link.Effect.{inverted, length-inverted}
use projet.Sender.Flight.{packet, datagram, packet-IsContent}
use projet.Receiver.{Receiver, Output, sent, round}
use projet.Receiver.Stream.{written, segment, Expects}
use projet.Receiver.Horizon.{Agrees, Knows, Knows-later, round-Learns}
use projet.Protocol.Damage.{round-inverted, round-cut, round-cut-before}
use projet.Protocol.System.{datagrams}
use projet.Protocol.System.Frames.{sized-frame}
use projet.Protocol.System.Flow.{IsPassing}
use projet.Protocol.System.Replies.{Replies, nacks, Replies-Acks}
use projet.Protocol.System.Relay.{Arriving, intact, cut, corrupted}

module _ (data_of : ℕ → List ℕ) (crc32 : List ℕ → ℕ) where
  -- The receiver has written the packets from `n` up to the one that it now expects, and has sent
  -- answers; below `bound` are the numbers of the packets sent.
  pub record IsReceived (top n bound : ℕ) (r : Receiver) (out : List Output) : Type 0 where
    pub n' : ℕ
    pub forward : n ≤ n'
    pub knows : Knows data_of top n' r
    pub bytes : written out ≡ segment data_of (n' - n) n
    pub replies : Replies crc32 n n' bound (datagrams out)

  -- What arrives comes from the packet number `k`.
  abbrev pub Arrives : ℕ → List ℕ → Type 0
  Arrives k bytes = Arriving (datagram data_of crc32 k) bytes

  -- The receiver keeps what it knows, if it does for every stream that agrees.
  kept :
      (top n : ℕ) (r : Receiver) (m : Exec (Receiver × List Output))
      → (know : Knows data_of top n r)
      → (answer : (data' : ℕ → List ℕ) → Expects data' n r → List Output)
      → ((data' : ℕ → List ℕ)
          → Agrees data_of top data'
          → (e : Expects data' n r)
          → Yields (λ (r', out). Expects data' n r' × (r' ≡ r) × (out ≡ answer data' e)) m)
      → Yields
          (λ (r', out).
            Knows data_of top n r' × (out ≡ answer data_of (know.expects data_of λ i h. refl)))
          m
  kept top n r m know answer runs =
      let e = know.expects data_of (λ i h. refl) in
      let ((r', out), run, (_, _, same)) = Yields-inv (runs data_of (λ i h. refl) e) in
      rw run (
        yields (
          record {
            behind = know.behind;
            expects = λ data' agree.
                let (e', _, _) = Yields-elim (runs data' agree (know.expects data' agree)) run in
                e';
          },
          same,
        ))

  -- Nothing is written.
  unwritten :
      (top n bound : ℕ) (r : Receiver) (out : List Output)
      → Knows data_of top n r
      → written out ≡ []
      → Replies crc32 n n bound (datagrams out)
      → IsReceived top n bound r out
  unwritten top n bound r out know none replies = record {
    n' = n;
    forward = omega arith;
    knows = know;
    bytes = let zero_more : n - n ≡ 0 = omega arith in rw zero_more none;
    replies = replies;
  }

  module _ (short : (k : ℕ) → length (data_of k) ≤ max_payload_size) (junk : ℕ) (memory : Pkt)
      (stale : List ℕ) (top n k bound : ℕ) (r : Receiver) (know : Knows data_of top n r)
      (below : k < top) (inside : top ≤ bound) (old : top ≤ k + 31) (near : top ≤ n + 31) where
    -- A packet that is cut to its header.
    cut-IsReceived :
        Yields
          (λ (r', out). IsReceived top n bound r' out)
          (round crc32 junk memory r (take 4 (datagram data_of crc32 k) ++ stale) 4)
    cut-IsReceived = elim (dec_le n k) [
      | yes ahead ↦
          Yields-map
            (kept top n r _ know
              (λ data' e.
                sent
                  (frame crc32 (control ptype_nack (max_window_size - length e.waiting) (k % 256)))
                ∷ [])
              λ data' agree e.
                round-cut data' crc32 junk memory n k r e (packet data_of k) stale
                  (packet-IsContent data_of k (short k)) refl ahead (omega arith))
            λ (r', out) (know', same). rw same (
              unwritten top n bound r' _ know' refl
                (n, nacks k _ ahead (omega arith) (omega arith), omega arith))
      | no before ↦
          Yields-map
            (kept top n r _ know (λ data' e. [])
              λ data' agree e.
                round-cut-before data' crc32 junk memory n k r (packet data_of k) stale e
                  (packet-IsContent data_of k (short k)) refl (omega arith)
                  (omega (arith, know.behind)))
            λ (r', out) (know', same).
              rw same (unwritten top n bound r' [] know' refl (omega arith))
    ]

    -- A packet whose last byte is inverted.
    corrupted-IsReceived :
        Yields
          (λ (r', out). IsReceived top n bound r' out)
          (round crc32 junk memory r
            (inverted (datagram data_of crc32 k) ++ stale)
            (length (datagram data_of crc32 k)))
    corrupted-IsReceived =
        let valid = packet-IsContent data_of k (short k) in
        Yields-map
          (kept top n r _ know (λ data' e. [])
            λ data' agree e.
              round-inverted data' crc32 junk memory n r (packet data_of k) stale
                (length (datagram data_of crc32 k)) e valid
                (sized-frame crc32 (packet data_of k) valid))
          λ (r', out) (know', same). rw same (unwritten top n bound r' [] know' refl (omega arith))

    -- A packet that arrives as it was sent.
    intact-IsReceived :
        Yields
          (λ (r', out). IsReceived top n bound r' out)
          (round crc32 junk memory r
            (datagram data_of crc32 k ++ stale)
            (length (datagram data_of crc32 k)))
    intact-IsReceived =
        let valid = packet-IsContent data_of k (short k) in
        Yields-map
          (round-Learns data_of crc32 junk memory top n k r (packet data_of k) _ stale
            (length (datagram data_of crc32 k)) know valid
            (length-replicate {A = ℕ} (gap (length (data_of k))) 0)
            (sized-frame crc32 (packet data_of k) valid) refl refl below (omega arith)
            (omega (arith, know.behind)))
          λ (r', out) a. record {
            n' = a.n';
            forward = a.forward;
            knows = a.knows;
            bytes = a.bytes;
            replies = Replies-Acks crc32 n a.n' bound out a.acks;
          }

    arriving-IsReceived :
        (bytes : List ℕ)
        → Arrives k bytes
        → Yields
            (λ (r', out). IsReceived top n bound r' out)
            (round crc32 junk memory r (bytes ++ stale) (length bytes))
    arriving-IsReceived _ intact = intact-IsReceived
    arriving-IsReceived _ cut = cut-IsReceived
    arriving-IsReceived _ corrupted =
        rw (length-inverted (datagram data_of crc32 k)) corrupted-IsReceived

  -- What is left of a packet of the stream, when it was sent at most 31 packets behind the expected
  -- one, and no more were sent before it than 31 behind it.
  pub round-IsReceived :
      (short : (k : ℕ) → length (data_of k) ≤ max_payload_size) (junk : ℕ) (memory : Pkt)
      (stale : List ℕ) (top n bound : ℕ) (r : Receiver) (bytes : List ℕ)
      → Knows data_of top n r
      → (p : IsPassing Arrives n top bytes) → p.high ≤ bound
      → Yields
          (λ (r', out). IsReceived p.high n bound r' out)
          (round crc32 junk memory r (bytes ++ stale) (length bytes))
  round-IsReceived short junk memory stale top n bound r bytes know p inside =
      arriving-IsReceived short junk memory stale p.high n p.k bound r
        (Knows-later data_of top p.high n r p.later know) p.sent_then inside p.near p.close bytes
        p.holds

-- ===== src/Sender/Flight.antt =====
-- What the sender of sel_repeat_write.c promises: the payloads of a stream go out as data packets,
-- the packet number `k` under the sequence number `k % 256`, and those in flight stand in the window.
use projet.Base.{
  ℕ, zero, suc, ◌+◌, ◌%◌, ◌≤◌, ◌≡◌, ◌≢◌, refl, List, [], ◌∷◌, ◌++◌, map, arith, length, drop,
  length-append, inl, ltb, false, replicate, length-replicate, ◌^◌,
}
use projet.Base.Exec.{ok}
use projet.Base.Int.{pos}
use projet.Base.Array.{prefix-append}
use projet.Packet.{Pkt, ptype_data, wild, max_window_size, max_payload_size}
use projet.Packet.Wire.{Content, IsContent, Represents, covered, be32, gap, frame, size}
use projet.Base.Word.{u16}
use projet.Packet.Encode.Frame.{pkt_encode-frame}
use projet.Sender.{Sender, Slot, timer, PktTimer, encode_out, max_sdu_size}

module _ (crc32 : List ℕ → ℕ) (junk : ℕ) where
  -- A packet goes out as its frame.
  pub encode_out-frame :
      (pkt : Pkt) (c : Content)
      → IsContent c
      → Represents pkt c
      → encode_out crc32 junk pkt ≡ ok (frame crc32 c)
  unfolding encode_out
  encode_out-frame pkt c v r =
      let fits : ltb (u16 max_sdu_size) (size c) ≡ false = ground arith in
      let room = length-replicate {A = ℕ} max_sdu_size junk in
      let bytes = frame crc32 c in
      let whole : size c ≡ length bytes = omega (
        arith,
        length-append c.payload (replicate (gap (length c.payload)) 0),
        length-append (covered c (replicate (gap (length c.payload)) 0))
            (be32 (crc32 (covered c (replicate (gap (length c.payload)) 0)) % 2 ^ 32)),
        length-replicate {A = ℕ} (gap (length c.payload)) 0,
      ) in
      rw
        (
          pkt_encode-frame crc32 pkt c (replicate max_sdu_size junk) max_sdu_size v r (omega arith),
          fits,
        )
        (prefix-append bytes _ whole)

module _ (data_of : ℕ → List ℕ) where
  -- The packet number `k` of the stream.
  abbrev pub packet : ℕ → Content
  packet k = record { type = ptype_data; window = 0; seqnum = k % 256; payload = data_of k }

  abbrev pub datagram : (List ℕ → ℕ) → ℕ → List ℕ
  datagram crc32 k = frame crc32 (packet k)

  pub packet-IsContent : (k : ℕ) → length (data_of k) ≤ max_payload_size → IsContent (packet k)
  packet-IsContent k h = record {
    typed = inl refl;
    narrow = omega arith;
    numbered = omega arith;
    short = h;
    carried = inl refl;
  }

  -- The packets of the timers are those from the number `base` on.
  pub record IsTimed (k : ℕ) (t : PktTimer) : Type 0 where
    pub packet_eq : Represents t.packet (packet k)
    pub owned : t.packet.payload ≢ wild

  abbrev pub Carries : ℕ → List PktTimer → Type 0
  Carries base [] = Unit
  Carries base (t ∷ flight) = IsTimed base t × Carries (suc base) flight

  -- The sender has `flight` in flight, the packets from the number `base` on, in the first slots.
  pub record Sends (base : ℕ) (s : Sender) : Type 0 where
    pub flight : List PktTimer
    pub rest : List Slot
    pub next : s.seqnum ≡ (base + length flight) % 256
    pub slots : s.window ≡ map timer flight ++ rest
    pub sized : length s.window ≡ max_window_size
    pub count : s.current_index_window ≡ pos (length flight)
    pub carried : Carries base flight
    pub limit : s.limited_window_size ≤ max_window_size

  pub Carries-append :
      (base : ℕ) (front back : List PktTimer)
      → Carries base front
      → Carries (base + length front) back
      → Carries base (front ++ back)
  Carries-append base [] back f b = let e : base + 0 ≡ base = omega arith in rw e at b
  Carries-append base (t ∷ front) back (f, fs) b =
      let e : base + length (t ∷ front) ≡ suc base + length front = omega arith in
      (f, Carries-append (suc base) front back fs (rw e at b))

  pub Carries-split :
      (base : ℕ) (front back : List PktTimer)
      → Carries base (front ++ back)
      → Carries base front × Carries (base + length front) back
  Carries-split base [] back c = let e : base + 0 ≡ base = omega arith in (tt, rw e c)
  Carries-split base (t ∷ front) back (c, cs) =
      let e : base + length (t ∷ front) ≡ suc base + length front = omega arith in
      let (first, others) = Carries-split (suc base) front back cs in ((c, first), rw e others)

  pub Carries-drop :
      (base d : ℕ) (flight : List PktTimer)
      → d ≤ length flight
      → Carries base flight
      → Carries (base + d) (drop d flight)
  Carries-drop base zero flight h c = let e : base + 0 ≡ base = omega arith in rw e c
  Carries-drop base (suc d) (t ∷ flight) h (c, cs) =
      let e : base + suc d ≡ suc base + d = omega arith in
      rw e (Carries-drop (suc base) d flight (omega arith) cs)
  Carries-drop base (suc d) [] h c = absurd (omega arith)

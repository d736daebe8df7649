-- ===== src/Sender/Incoming.antt =====
-- What a datagram from the receiver does to the sender of sel_repeat_write.c.
use projet.Base.{
  ℕ, ◌+◌, ◌-◌, ◌%◌, ◌≤◌, ◌<◌, ◌≡◌, refl, sym, ap, ◌∙◌, false, true, ◌==◌, if◌then◌else◌, List, [],
  ◌∷◌, ◌++◌, map, arith, length, All, inl, inr, ◌⊎◌,
}
use projet.Base.Exec.{ok, Yields, yields, Yields-bind, Yields-map, Yields-if}
use projet.Base.Word.{u16}
use projet.Base.Int.{pos_part}
use projet.Packet.{
  Pkt, Status, pkt_ok, ptype_data, ptype_ack, ptype_nack, max_window_size, max_payload_size,
  pkt_new, pkt_get_type, pkt_get_seqnum, pkt_get_window,
}
use projet.Packet.Wire.{Content, IsContent, IsByte, gap, size, framed}
use projet.Packet.Decode.{failed}
use projet.Packet.Decode.Sound.{pkt_decode-IsDecoded}
use projet.Sender.{Sender, Reaction, on_ack, on_nack, on_answer}
use projet.Sender.Flight.{datagram, Sends}
use projet.Sender.Ack.{IsAcked, on_ack-IsAcked}
use projet.Sender.Nack.{IsResent, on_nack-IsResent}

-- A packet that a receiver may send while the `len` packets from the number `base` on are in flight.
pub data IsCurrent (base len : ℕ) (c : Content) : Type 0 where
  acks : (d : ℕ) → c.type ≡ ptype_ack → d ≤ len → c.seqnum ≡ (base + d) % 256 → IsCurrent base len c
  nacks :
      (d : ℕ) → c.type ≡ ptype_nack → d < len → c.seqnum ≡ (base + d) % 256 → IsCurrent base len c
  data_packet : c.type ≡ ptype_data → IsCurrent base len c

-- If the bytes are a packet at all, they are such a packet.
abbrev pub IsTimely : (List ℕ → ℕ) → ℕ → ℕ → List ℕ → Type 0
IsTimely crc32 base len bytes =
    (c : Content) (filler rest : List ℕ)
    → IsContent c
    → length filler ≡ gap (length c.payload)
    → u16 (length bytes) ≡ size c
    → bytes ≡ framed crc32 c filler ++ rest
    → IsCurrent base len c

not_failed : (status : Status) → failed status ≡ false → status ≡ pkt_ok
unfolding failed
not_failed pkt_ok e = refl
not_failed _ e = absurd (cc)

-- The bytes are an acknowledgement of the packets before the number `k`.
pub record Acknowledges (crc32 : List ℕ → ℕ) (k : ℕ) (bytes : List ℕ) : Type 0 where
  pub content : Content
  pub filler : List ℕ
  pub rest : List ℕ
  pub valid : IsContent content
  pub filled : length filler ≡ gap (length content.payload)
  pub sized : u16 (length bytes) ≡ size content
  pub wire : bytes ≡ framed crc32 content filler ++ rest
  pub typed : content.type ≡ ptype_ack
  pub numbered : content.seqnum ≡ k % 256

module _ (data_of : ℕ → List ℕ) where
  -- What a datagram from the receiver leads to: the first `d` packets are no longer in flight, which
  -- for more than none has a cause, and what goes out are packets in flight.
  pub record IsAnswered (Cause : ℕ → Type 0) (base : ℕ) (crc32 : List ℕ → ℕ) (s : Sender)
      (e : Sends data_of base s) (r : Reaction) : Type 0 where
    pub d : ℕ
    pub caused : (d ≡ 0) ⊎ Cause d
    pub most : d ≤ length e.flight
    pub sends : Sends data_of (base + d) r.sender
    pub fewer : length sends.flight ≡ length e.flight - d
    pub numbers : List ℕ
    pub sent_eq : r.sent ≡ map (datagram data_of crc32) numbers
    pub within : All (λ k. (base ≤ k) × (k < base + length e.flight)) numbers
    pub finish_eq : r.sender.finish ≡ s.finish
    pub exits_last : r.exits ≡ true → (d ≡ length e.flight) × (s.finish ≡ true)

  pub same_length :
      (base base' : ℕ) (s : Sender) (e : Sends data_of base s) (e' : Sends data_of base' s)
      → length e.flight ≡ length e'.flight
  same_length base base' s e e' = ap pos_part (sym e.count ∙ e'.count)

  pub unchanged :
      (Cause : ℕ → Type 0) (base : ℕ) (crc32 : List ℕ → ℕ) (s : Sender) (e : Sends data_of base s)
      → IsAnswered Cause base crc32 s e (record { sender = s; sent = []; exits = false })
  unchanged Cause base crc32 s e =
      let zero_more : base + 0 ≡ base = omega arith in
      let e' : Sends data_of (base + 0) s = rw zero_more e in
      record {
        d = 0;
        caused = inl refl;
        most = omega arith;
        sends = e';
        fewer = omega (arith, same_length (base + 0) base s e' e);
        numbers = [];
        sent_eq = refl;
        within = tt;
        finish_eq = refl;
        exits_last = λ e. absurd cc;
      }

  acked :
      (Cause : ℕ → Type 0) (base d limit : ℕ) (crc32 : List ℕ → ℕ) (s : Sender)
      (e : Sends data_of base s) (r : Reaction)
      → Cause d
      → d ≤ length e.flight
      → IsAcked data_of base d limit s e r
      → IsAnswered Cause base crc32 s e r
  acked Cause base d limit crc32 s e r cause most a = record {
    d = d;
    caused = inr cause;
    most = most;
    sends = a.sends;
    fewer = a.fewer;
    numbers = [];
    sent_eq = a.quiet;
    within = tt;
    finish_eq = a.finish_eq;
    exits_last = λ left. ground (arith, a.exits_eq, left);
  }

  resent :
      (Cause : ℕ → Type 0) (base d limit : ℕ) (crc32 : List ℕ → ℕ) (s : Sender)
      (e : Sends data_of base s) (r : Reaction)
      → d < length e.flight
      → IsResent data_of base d limit crc32 s e r
      → IsAnswered Cause base crc32 s e r
  resent Cause base d limit crc32 s e r inside a =
      let zero_more : base + 0 ≡ base = omega arith in
      let e' : Sends data_of (base + 0) r.sender = rw zero_more a.sends in
      record {
        d = 0;
        caused = inl refl;
        most = omega arith;
        sends = e';
        fewer = omega (arith, same_length (base + 0) base r.sender e' a.sends, a.as_many);
        numbers = (base + d) ∷ [];
        sent_eq = a.datagram;
        within = ((omega arith, omega arith), tt);
        finish_eq = a.finish_eq;
        exits_last = λ left. absurd (let no = a.stays in cc);
      }

  module _ (short : (k : ℕ) → length (data_of k) ≤ max_payload_size) (crc32 : List ℕ → ℕ) (junk : ℕ)
      (memory : Pkt) (now : ℕ) where
    -- A packet that was accepted.
    on_packet :
        (Cause : ℕ → Type 0) (base : ℕ) (s : Sender) (e : Sends data_of base s) (pkt : Pkt)
        (c : Content)
        → IsContent c
        → pkt_get_seqnum pkt ≡ c.seqnum
        → pkt_get_window pkt ≡ c.window
        → pkt_get_type pkt ≡ c.type
        → IsCurrent base (length e.flight) c
        → ((d : ℕ) → c.type ≡ ptype_ack → c.seqnum ≡ (base + d) % 256 → Cause d)
        → Yields (IsAnswered Cause base crc32 s e) (
            if pkt_get_type pkt == ptype_ack
            then on_ack crc32 junk memory now s pkt
            else if pkt_get_type pkt == ptype_nack
            then on_nack crc32 junk memory now s pkt
            else ok (record { sender = s; sent = []; exits = false }))
    on_packet Cause base s e pkt c v es ew et (acks d ty most number) cause =
        let type : pkt_get_type pkt ≡ ptype_ack = et ∙ ty in
        let narrow : pkt_get_window pkt ≤ max_window_size = omega (arith, v.narrow, ew) in
        rw type (
          Yields-map
            (on_ack-IsAcked data_of crc32 junk memory now base d s e pkt most (es ∙ number) narrow)
            λ r a. acked Cause base d (pkt_get_window pkt) crc32 s e r (cause d ty number) most a)
    on_packet Cause base s e pkt c v es ew et (nacks d ty inside number) cause =
        let type : pkt_get_type pkt ≡ ptype_nack = et ∙ ty in
        let narrow : pkt_get_window pkt ≤ max_window_size = omega (arith, v.narrow, ew) in
        rw type (
          Yields-map
            (on_nack-IsResent data_of crc32 junk memory now base d s e pkt inside (short (base + d))
              (es ∙ number) narrow)
            λ r a. resent Cause base d (pkt_get_window pkt) crc32 s e r inside a)
    on_packet Cause base s e pkt c v es ew et (data_packet ty) cause =
        let type : pkt_get_type pkt ≡ ptype_data = et ∙ ty in
        rw type (yields (unchanged Cause base crc32 s e))

    -- A datagram that is no packet, or a packet that the receiver may send now, is answered: the sender
    -- returns, and its state stays in order.
    pub on_answer-IsAnswered :
        (base : ℕ) (s : Sender) (e : Sends data_of base s) (received : List ℕ)
        → All IsByte received
        → IsTimely crc32 base (length e.flight) received
        → Yields
            (IsAnswered (λ d. Acknowledges crc32 (base + d) received) base crc32 s e)
            (on_answer crc32 junk memory now s received (length received))
    unfolding on_answer pkt_get_seqnum pkt_get_window pkt_get_type
    on_answer-IsAnswered base s e received byte timely =
        Yields-bind
          (pkt_decode-IsDecoded crc32 junk received (length received) (pkt_new memory) byte
            (omega arith))
          λ (status, pkt) accepted.
            Yields-if (failed status)
              (λ f. yields (unchanged (λ d. Acknowledges crc32 (base + d) received) base crc32 s e))
              λ f.
                let k = accepted (not_failed status f) in
                on_packet (λ d. Acknowledges crc32 (base + d) received) base s e pkt k.content
                  k.valid (ap pkt_get_seqnum k.stored) (ap pkt_get_window k.stored)
                  (ap pkt_get_type k.stored)
                  (timely k.content k.filler k.rest k.valid k.filled k.sized k.wire)
                  λ d typed numbered. record {
                    content = k.content;
                    filler = k.filler;
                    rest = k.rest;
                    valid = k.valid;
                    filled = k.filled;
                    sized = k.sized;
                    wire = k.wire;
                    typed = typed;
                    numbered = numbered;
                  }

-- ===== src/Protocol/Answer.antt =====
-- What the receiver of sel_repeat_read.c sends back, at the sender of sel_repeat_write.c.
use projet.Base.{
  ℕ, ◌+◌, ◌-◌, ◌%◌, ◌≤◌, ◌<◌, ◌≡◌, refl, sym, List, [], arith, length, take, inl, inr, ◌⊎◌,
}
use projet.Base.Exec.{Exec, ok, ◌>>=◌, Yields}
use projet.Base.Int.{pos}
use projet.Packet.{
  Pkt, ptype_ack, ptype_nack, max_window_size, max_payload_size, pkt_ok, pkt_new, pkt_get_type,
  pkt_get_seqnum, pkt_get_window,
}
use projet.Packet.Wire.{control, control-IsContent, frame}
use projet.Packet.Decode.{pkt_decode, failed}
use projet.Packet.Decode.Accept.{decoded, pkt_decode-framed}
use projet.Receiver.{send_ack, send_nack}
use projet.Receiver.Control.{send-frame}
use projet.Sender.{Sender, Reaction, on_answer}
use projet.Sender.Flight.{Sends}
use projet.Sender.Ack.{IsAcked, on_ack-IsAcked}
use projet.Sender.Nack.{IsResent, on_nack-IsResent}

module _ (data_of : ℕ → List ℕ) (crc32 : List ℕ → ℕ) (junk : ℕ) (memory : Pkt) (now : ℕ) where
  -- The sender reads a datagram of the receiver.
  abbrev reads : Sender → List ℕ → Exec Reaction
  reads s bytes = on_answer crc32 junk memory now s (take 8 bytes) (length (take 8 bytes))

  decodes :
      (type window seqnum : ℕ)
      → (type ≡ ptype_ack) ⊎ (type ≡ ptype_nack)
      → window ≤ max_window_size
      → seqnum < 256
      → pkt_decode crc32 junk (frame crc32 (control type window seqnum)) 8 (pkt_new memory)
        ≡ ok (pkt_ok, decoded crc32 (control type window seqnum) [])
  decodes type window seqnum t w s =
      pkt_decode-framed crc32 junk (control type window seqnum) [] [] 8 (pkt_new memory)
        (control-IsContent type window seqnum t w s) refl refl

  -- An ACK from a receiver that expects the packet number `n` and has a window of at most 31,
  -- when it arrives at a sender that has the packets from `base` on in flight, `n` not before
  -- `base` nor behind the number after the newest packet, acknowledges exactly the packets
  -- before `n`, and lets the sender use the receiver's window.
  pub send_ack-IsAcked :
      (memory' : Pkt) (base n lastack window : ℕ) (s : Sender) (e : Sends data_of base s)
      → lastack ≡ (n + 255) % 256
      → window ≤ max_window_size
      → base ≤ n
      → n ≤ base + length e.flight
      → Yields
          (IsAcked data_of base (n - base) window s e)
          (send_ack crc32 junk memory' lastack (pos window) >>= λ bytes. reads s bytes)
  unfolding on_answer failed pkt_get_type pkt_get_seqnum pkt_get_window
  send_ack-IsAcked memory' base n lastack window s e last narrow from to =
      let number : (lastack + 1) % 256 ≡ (base + (n - base)) % 256 = omega (arith, last) in
      let (sending, _) = send-frame crc32 junk memory' lastack 0 window (omega arith) narrow in
      let seqnum = (lastack + 1) % 256 in
      let c = control ptype_ack window seqnum in
      let read = decodes ptype_ack window seqnum (inl refl) narrow (omega arith) in
      rw (sending, read)
        (on_ack-IsAcked data_of crc32 junk memory now base (n - base) s e (decoded crc32 c [])
          (omega arith) number narrow)

  -- A NACK from a receiver with a window of at most 31, for the packet number `k`, when it
  -- arrives at a sender that has this packet in flight, with a payload of at most 512 bytes,
  -- makes the sender send exactly this packet again and use the receiver's window.
  pub send_nack-IsResent :
      (memory' : Pkt) (base k window : ℕ) (s : Sender) (e : Sends data_of base s)
      → window ≤ max_window_size
      → base ≤ k
      → k < base + length e.flight
      → length (data_of k) ≤ max_payload_size
      → Yields
          (IsResent data_of base (k - base) window crc32 s e)
          (send_nack crc32 junk memory' (k % 256) (pos window) >>= λ bytes. reads s bytes)
  unfolding on_answer failed pkt_get_type pkt_get_seqnum pkt_get_window
  send_nack-IsResent memory' base k window s e narrow from to short =
      let same : k ≡ base + (k - base) = omega arith in
      let number : k % 256 ≡ (base + (k - base)) % 256 = omega arith in
      let (_, sending) = send-frame crc32 junk memory' 0 (k % 256) window (omega arith) narrow in
      let c = control ptype_nack window (k % 256) in
      let read = decodes ptype_nack window (k % 256) (inr refl) narrow (omega arith) in
      rw (sending, read)
        (on_nack-IsResent data_of crc32 junk memory now base (k - base) s e (decoded crc32 c [])
          (omega arith) (rw (sym same) short) number narrow)

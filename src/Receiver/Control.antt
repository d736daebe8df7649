-- ===== src/Receiver/Control.antt =====
-- `send_ack` and `send_nack` of sel_repeat_read.c.
use projet.Base.{
  ℕ, ◌+◌, ◌%◌, ◌≤◌, ◌<◌, ◌≡◌, ◌⊎◌, refl, false, ltb, List, [], arith, replicate, inl, inr,
}
use projet.Base.Exec.{ok, ◌>>=◌}
use projet.Base.Array.{prefix, prefix-append}
use projet.Base.Int.{pos}
use projet.Packet.{
  Pkt, ptype_ack, ptype_nack, max_window_size, wild, pkt_new, pkt_set_type, pkt_set_window,
  pkt_set_seqnum, pkt_set_length,
}
use projet.Packet.Wire.{control, control-IsContent, IsContent, Represents, frame}
use projet.Packet.Encode.{pkt_encode}
use projet.Packet.Encode.Frame.{pkt_encode-frame}
use projet.Receiver.{control_packet, send_ack, send_nack}

module _ (crc32 : List ℕ → ℕ) (junk : ℕ) (memory : Pkt) where
  -- A structure without payload, in a buffer of eight bytes.
  encoded-frame :
      (pkt : Pkt) (type window seqnum : ℕ)
      → IsContent (control type window seqnum)
      → Represents pkt (control type window seqnum)
      → (pkt_encode crc32 pkt (replicate 8 junk) 8 >>= λ encoded. prefix encoded.buf encoded.len)
        ≡ ok (frame crc32 (control type window seqnum))
  encoded-frame pkt type window seqnum v r =
      let c = control type window seqnum in
      rw (pkt_encode-frame crc32 pkt c (replicate 8 junk) 8 v r (omega arith))
        (prefix-append (frame crc32 c) [] refl)

  -- What the setters leave of a fresh structure.
  abbrev filled : ℕ → ℕ → ℕ → Pkt
  filled type window seqnum = record memory {
    type = type;
    window = window;
    seqnum = seqnum;
    length = 0;
    payload = wild;
  }

  filled-Represents :
      (type window seqnum : ℕ) → Represents (filled type window seqnum) (control type window seqnum)
  filled-Represents type window seqnum = record {
    type_eq = refl;
    window_eq = refl;
    seqnum_eq = refl;
    length_eq = refl;
    beyond = [];
    payload_eq = refl;
  }

  control_packet-frame :
      (type seqnum window : ℕ)
      → (type ≡ ptype_ack) ⊎ (type ≡ ptype_nack)
      → seqnum < 256
      → window ≤ max_window_size
      → control_packet crc32 junk memory type seqnum (pos window)
        ≡ ok (frame crc32 (control type window seqnum))
  unfolding control_packet pkt_new pkt_set_type pkt_set_window pkt_set_seqnum pkt_set_length
  control_packet-frame type seqnum window t s w =
      let narrow : window % 256 ≡ window = omega arith in
      let fits : ltb max_window_size window ≡ false = ground arith in
      let valid = control-IsContent type window seqnum t w s in
      let result =
        encoded-frame (filled type window seqnum) type window seqnum valid
          (filled-Represents type window seqnum) in
      elim t [
        | inl e ↦ rw (e, narrow, fits) (rw e at result)
        | inr e ↦ rw (e, narrow, fits) (rw e at result)
      ]

  -- With a window from 0 to 31, `send_ack` sends the frame of an ACK with the number after `lastack`,
  -- and `send_nack` the frame of a NACK with the given number; both state the window.
  pub send-frame :
      (lastack seqnum window : ℕ)
      → seqnum < 256
      → window ≤ max_window_size
      → (send_ack crc32 junk memory lastack (pos window)
          ≡ ok (frame crc32 (control ptype_ack window ((lastack + 1) % 256))))
        × (send_nack crc32 junk memory seqnum (pos window)
            ≡ ok (frame crc32 (control ptype_nack window seqnum)))
  unfolding send_ack send_nack
  send-frame lastack seqnum window s w =
      let same : seqnum % 256 ≡ seqnum = omega arith in
      (
        control_packet-frame ptype_ack ((lastack + 1) % 256) window (inl refl) (omega arith) w,
        rw same (control_packet-frame ptype_nack seqnum window (inr refl) s w),
      )

  -- A NACK for the number that `uint8_t` makes of any `int` from 0 on.
  pub send_nack-frame :
      (seqnum window : ℕ)
      → window ≤ max_window_size
      → send_nack crc32 junk memory seqnum (pos window)
        ≡ ok (frame crc32 (control ptype_nack window (seqnum % 256)))
  unfolding send_nack
  send_nack-frame seqnum window w =
      control_packet-frame ptype_nack (seqnum % 256) window (inr refl) (omega arith) w

-- ===== src/Receiver/Handle.antt =====
-- What a round of the loop of sel_repeat_read.c does with a packet, before its `refresh`.
use projet.Base.{
  ℕ, ◌+◌, ◌-◌, ◌%◌, ◌≡◌, refl, true, false, not, ◌&&◌, List, [], arith, length, ◌==◌, inl, inr,
  Bool-cases,
}
use projet.Base.Exec.{ok, Yields, yields, Yields-map, Yields-if}
use projet.Base.Int.{pos, ltb_ℤ}
use projet.Packet.{Pkt, Status, max_window_size, pkt_get_seqnum}
use projet.Packet.Decode.{failed}
use projet.Receiver.{Receiver, send_nack, handle, compare_seqnums, is_unconsistent}
use projet.Packet.{ptype_nack}
use projet.Packet.Wire.{control, frame}
use projet.Receiver.Control.{send_nack-frame}
use projet.Receiver.Stream.{Expects}
use projet.Receiver.Handled.{IsArrived, IsHandled, unchanged}
use projet.Receiver.Accept.{handle-IsAccepted}

module _ (data_of : ℕ → List ℕ) (crc32 : List ℕ → ℕ) (junk : ℕ) (memory : Pkt) where
  -- A packet that is refused: nothing is written, and at most a NACK is sent.
  handle_refused :
      (n : ℕ) (r : Receiver) (sdu_size : ℕ) (err : Status) (pkt : Pkt)
      → Expects data_of n r
      → failed err ≡ true
      → Yields
          (λ (r', out). IsHandled data_of n r' out)
          (handle crc32 junk memory r sdu_size err pkt)
  unfolding handle pkt_get_seqnum
  handle_refused n r sdu_size err pkt e bad =
      let l = r.lastack in
      let next = (l + 1) % 256 in
      let still = unchanged data_of n r e.waiting r.receive_buffer r.window_size in
      rw bad (
        Yields-if (not (ltb_ℤ (compare_seqnums l pkt.seqnum next) (pos max_window_size)))
          (λ outside. yields (still [] e.last e.buffer e.window e.sorted e.held refl))
          λ inside.
            Yields-if (is_unconsistent err && sdu_size == 4)
              (λ nacked.
                let nack : send_nack crc32 junk memory pkt.seqnum r.window_size
                    ≡ ok (
                        frame crc32 (
                          control ptype_nack (max_window_size - length e.waiting)
                            (pkt.seqnum % 256))) =
                  rw e.window (
                    send_nack-frame crc32 junk memory pkt.seqnum
                      (max_window_size - length e.waiting) (omega arith)) in
                rw nack (yields (still _ e.last e.buffer e.window e.sorted e.held refl)))
              λ silent. yields (still [] e.last e.buffer e.window e.sorted e.held refl))

  pub handle-IsHandled :
      (n : ℕ) (r : Receiver) (sdu_size : ℕ) (err : Status) (pkt : Pkt)
      → Expects data_of n r
      → (failed err ≡ false → IsArrived data_of n pkt)
      → Yields
          (λ (r', out). IsHandled data_of n r' out)
          (handle crc32 junk memory r sdu_size err pkt)
  handle-IsHandled n r sdu_size err pkt e arrived = elim (Bool-cases (failed err)) [
    | inl bad ↦ handle_refused n r sdu_size err pkt e bad
    | inr good ↦
        Yields-map
          (handle-IsAccepted data_of crc32 junk memory n r sdu_size err pkt e good (arrived good))
          λ r' (h, acks). h
  ]

-- ===== src/Protocol/Duplicate.antt =====
-- A packet that comes again at the receiver of sel_repeat_read.c, as when its acknowledgement is lost.
use projet.Base.{ℕ, ◌+◌, ◌%◌, ◌≤◌, ◌<◌, ◌≡◌, refl, false, ltb, List, [], ◌++◌, arith, length}
use projet.Base.Exec.{Yields, yields}
use projet.Base.Word.{u16}
use projet.Packet.{Pkt, max_window_size, pkt_new, pkt_get_seqnum}
use projet.Packet.Wire.{Content, IsContent, gap, size, framed}
use projet.Packet.Decode.Accept.{pkt_decode-framed}
use projet.Receiver.{Receiver, round, handle}
use projet.Receiver.Seqnum.{ahead, window_test}
use projet.Receiver.Stream.{Expects, length-IsWaiting}
use projet.Receiver.Drain.{refresh-slots}
use projet.Protocol.Damage.{Stays}

module _ (data_of : ℕ → List ℕ) (crc32 : List ℕ → ℕ) (junk : ℕ) (memory : Pkt) where
  -- An intact packet with one of the 225 numbers before the expected one, which the receiver has
  -- written already, is not answered: nothing is written, no acknowledgement is sent, and the
  -- variables of the receiver stay as they were.
  pub round-duplicate :
      (n k : ℕ) (r : Receiver) (c : Content) (filler rest : List ℕ) (len : ℕ)
      → Expects data_of n r
      → IsContent c
      → length filler ≡ gap (length c.payload)
      → u16 len ≡ size c
      → c.seqnum ≡ k % 256
      → k < n
      → n ≤ k + 225
      → Yields
          (Stays data_of crc32 junk memory n r [])
          (round crc32 junk memory r (framed crc32 c filler ++ rest) len)
  unfolding round handle pkt_get_seqnum
  round-duplicate n k r c filler rest len e v filled sized number before near =
      let last : r.lastack < 256 = omega (arith, e.last) in
      let outside : ltb (ahead r.lastack c.seqnum) max_window_size ≡ false =
        ground (arith, e.last) in
      let few : length e.waiting ≤ max_window_size =
        omega (
          arith,
          length-IsWaiting data_of n r.lastack 1 1 e.waiting (omega arith) e.sorted e.held,
        ) in
      let moved = refresh-slots 0 max_window_size e.waiting refl few in
      rw
        (
          pkt_decode-framed crc32 junk c filler rest len (pkt_new memory) v filled sized,
          window_test r.lastack c.seqnum last v.numbered,
          outside,
          e.buffer,
          moved,
        )
        (yields (
          record {
            last = e.last;
            waiting = e.waiting;
            buffer = refl;
            sorted = e.sorted;
            held = e.held;
            window = e.window;
          },
          refl,
          refl,
        ))

-- ===== src/Sender/Ack.antt =====
-- What an acknowledgement does to the sender of sel_repeat_write.c.
use projet.Base.{
  ℕ, suc, ◌+◌, ◌-◌, ◌%◌, ◌≤◌, ◌<◌, ◌≡◌, refl, ap, false, ◌==◌, if◌then◌else◌, List, [], ◌++◌, map,
  arith, length, drop, length-drop,
}
use projet.Base.Exec.{fault, Yields, yields}
use projet.Base.Int.{pos, negsuc, ◌-ℤ◌, int_laws}
use projet.Packet.{Pkt, max_window_size, pkt_get_seqnum, pkt_get_window}
use projet.Sender.{Sender, timer, Reaction, on_ack}
use projet.Sender.Position.{get_ack_position-distance}
use projet.Sender.Window.{modify_buffer-stale}
use projet.Sender.Flight.{Carries-drop, Sends}
use projet.Sender.Answer.{print_buffer-flight, ack_position, few_in_flight, window_after}

module _ (data_of : ℕ → List ℕ) where
  -- The first `d` packets are no longer in flight, and `limit` is the window of the receiver.
  pub record IsAcked (base d limit : ℕ) (s : Sender) (e : Sends data_of base s) (r : Reaction)
      : Type 0 where
    pub quiet : r.sent ≡ []
    pub sends : Sends data_of (base + d) r.sender
    pub fewer : length sends.flight ≡ length e.flight - d
    pub allowed : r.sender.limited_window_size ≡ limit
    pub finish_eq : r.sender.finish ≡ s.finish
    pub exits_eq : r.exits ≡ (if length e.flight == d then s.finish else false)

  -- An acknowledgement of the first `d` packets in flight, `d` from 0 to all of them, with a
  -- window of at most 31, takes these packets out of the sender's window and keeps the others
  -- in flight; the sender takes over the receiver's window, sends nothing, and exits if and
  -- only if nothing is left in flight and the end of the file was sent.
  pub on_ack-IsAcked :
      (crc32 : List ℕ → ℕ) (junk : ℕ) (memory : Pkt) (now base d : ℕ) (s : Sender)
      (e : Sends data_of base s) (answer : Pkt)
      → d ≤ length e.flight
      → pkt_get_seqnum answer ≡ (base + d) % 256
      → pkt_get_window answer ≤ max_window_size
      → Yields (IsAcked base d (pkt_get_window answer) s e) (on_ack crc32 junk memory now s answer)
  unfolding on_ack
  on_ack-IsAcked crc32 junk memory now base d s e answer most number narrow =
      let position = ack_position data_of base d s e most (few_in_flight data_of base s e) in
      let (rest, run, same) = window_after data_of base d e.flight e.rest e.carried most in
      let flight = drop d e.flight in
      let left_n = length-drop d e.flight in
      let left : s.current_index_window -ℤ (pos d -ℤ pos 1) -ℤ pos 1 ≡ pos (length flight) =
        rw e.count (grind int_laws) in
      let last : s.current_index_window -ℤ pos 1 ≡ pos (length e.flight) -ℤ pos 1 =
        rw e.count refl in
      let slots : s.window ≡ map timer e.flight ++ e.rest = e.slots in
      let none_left : (if length flight == 0 then s.finish else false)
          ≡ (if length e.flight == d then s.finish else false) =
        ground arith in
      rw
        (
          number,
          position,
          last,
          slots,
          run,
          left,
          print_buffer-flight (length flight) flight rest (omega arith),
        )
        (yields (record {
          quiet = refl;
          sends = record {
            flight = flight;
            rest = rest;
            next = omega (arith, e.next);
            slots = refl;
            sized = omega (arith, same, ap length slots, e.sized);
            count = refl;
            carried = Carries-drop data_of base d e.flight most e.carried;
            limit = narrow;
          };
          fewer = left_n;
          allowed = refl;
          finish_eq = refl;
          exits_eq = none_left;
        }))

  -- An acknowledgement of packets that all precede those in flight, by at least one number and
  -- by fewer than 256 with those in flight (as when two acknowledgements arrive in the wrong
  -- order), makes the sender read before its window.
  pub on_ack-stale :
      (crc32 : List ℕ → ℕ) (junk : ℕ) (memory : Pkt) (now base k behind : ℕ) (s : Sender)
      (e : Sends data_of base s) (answer : Pkt)
      → base ≡ k + suc behind
      → suc behind + length e.flight < 256
      → pkt_get_seqnum answer ≡ k % 256
      → on_ack crc32 junk memory now s answer ≡ fault
  unfolding on_ack
  on_ack-stale crc32 junk memory now base k behind s e answer old near number =
      let acked = k % 256 in
      let small : s.seqnum < 256 = omega (arith, e.next) in
      let last = s.current_index_window -ℤ pos 1 in
      let (found, _) =
        get_ack_position-distance s.seqnum acked 0 last small (omega arith) (omega arith) in
      let distance : (s.seqnum + 256 - acked) % 256 ≡ length e.flight + suc behind =
        omega (arith, e.next) in
      let count : last ≡ pos (length e.flight) -ℤ pos 1 = rw e.count refl in
      let before : last -ℤ pos (length e.flight + suc behind) ≡ negsuc (suc behind) =
        rw count (grind int_laws) in
      rw
        (
          number,
          found,
          distance,
          before,
          count,
          modify_buffer-stale behind (length e.flight) s.window,
        )
        refl

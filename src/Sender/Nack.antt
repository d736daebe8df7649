-- ===== src/Sender/Nack.antt =====
-- What a negative acknowledgement does to the sender of sel_repeat_write.c.
use mathlib.Core.Path.{subst}
use projet.Base.{
  ℕ, ◌+◌, ◌%◌, ◌≤◌, ◌<◌, ◌≡◌, refl, sym, ap, ◌∙◌, false, List, [], ◌∷◌, ◌++◌, map, arith, length,
  append_assoc, length-append, split_at, first_cut, drop,
}
use projet.Base.Exec.{Yields, yields}
use projet.Base.Array.{load-append, store-append}
use projet.Packet.{Pkt, max_window_size, max_payload_size, pkt_get_seqnum, pkt_get_window}
use projet.Packet.Wire.{frame, Represents}
use projet.Sender.{Sender, timer, PktTimer, Reaction, on_nack}
use projet.Sender.Flight.{
  packet, packet-IsContent, IsTimed, Carries, Carries-append, Carries-split, Sends,
  encode_out-frame,
}
use projet.Sender.Send.{length-map, map-append}
use projet.Sender.Answer.{nack_position, few_in_flight}

module _ (data_of : ℕ → List ℕ) where
  -- The packet number `base + d` went out again; all packets are still in flight.
  pub record IsResent (base d limit : ℕ) (crc32 : List ℕ → ℕ) (s : Sender)
      (e : Sends data_of base s) (r : Reaction) : Type 0 where
    pub datagram : r.sent ≡ frame crc32 (packet data_of (base + d)) ∷ []
    pub sends : Sends data_of base r.sender
    pub as_many : length sends.flight ≡ length e.flight
    pub allowed : r.sender.limited_window_size ≡ limit
    pub finish_eq : r.sender.finish ≡ s.finish
    pub stays : r.exits ≡ false

  -- A negative acknowledgement of a packet in flight, with a payload of at most 512 bytes, and
  -- with a window of at most 31, makes the sender send that packet again, as its frame, and
  -- take over the receiver's window; all packets stay in flight and the program goes on.
  pub on_nack-IsResent :
      (crc32 : List ℕ → ℕ) (junk : ℕ) (memory : Pkt) (now base d : ℕ) (s : Sender)
      (e : Sends data_of base s) (answer : Pkt)
      → d < length e.flight
      → length (data_of (base + d)) ≤ max_payload_size
      → pkt_get_seqnum answer ≡ (base + d) % 256
      → pkt_get_window answer ≤ max_window_size
      → Yields
          (IsResent base d (pkt_get_window answer) crc32 s e)
          (on_nack crc32 junk memory now s answer)
  unfolding on_nack
  on_nack-IsResent crc32 junk memory now base d s e answer inside short number narrow =
      let position = nack_position data_of base d s e inside (few_in_flight data_of base s e) in
      let (front, front_n, cut, left) = split_at d e.flight (omega arith) in
      let (t, back, cut') = first_cut (drop d e.flight) (omega arith) in
      let parts : e.flight ≡ front ++ t ∷ back = cut ∙ ap (◌++◌ front) cut' in
      let (before, from) =
        Carries-split data_of base front (t ∷ back)
          (subst (Carries data_of base) parts e.carried) in
      let number' : base + length front ≡ base + d = omega (arith, front_n) in
      let timed : IsTimed data_of (base + length front) t = from.0 in
      let out =
        encode_out-frame crc32 junk t.packet (packet data_of (base + d))
          (packet-IsContent data_of (base + d) short)
          (subst (λ k. Represents t.packet (packet data_of k)) number' timed.packet_eq) in
      let at_d : d ≡ length (map timer front) = omega (arith, front_n, length-map timer front) in
      let again : PktTimer = record t { start = now } in
      let spread : (u : PktTimer)
          → map timer (front ++ u ∷ back) ++ e.rest
            ≡ map timer front ++ timer u ∷ (map timer back ++ e.rest) =
        λ u.
          rw (map-append timer front (u ∷ back))
            (append_assoc (map timer front) (map timer (u ∷ back)) e.rest) in
      let slots : s.window ≡ map timer front ++ timer t ∷ (map timer back ++ e.rest) =
        e.slots ∙ ap (λ l. map timer l ++ e.rest) parts ∙ spread t in
      let stored =
        store-append (map timer front) (timer t) (timer again) (map timer back ++ e.rest) at_d in
      let loaded = load-append (map timer front) (timer t) (map timer back ++ e.rest) at_d in
      let as_many : length (front ++ again ∷ back) ≡ length e.flight = omega (
        arith,
        length-append front (again ∷ back),
        length-append front (t ∷ back),
        ap length parts,
      ) in
      rw (number, position, slots, loaded, out, stored)
        (yields (record {
          datagram = refl;
          sends = record {
            flight = front ++ again ∷ back;
            rest = e.rest;
            next = rw as_many e.next;
            slots = sym (spread again);
            sized = omega (
              arith,
              ap length slots,
              e.sized,
              length-append (map timer front) (timer t ∷ (map timer back ++ e.rest)),
              length-append (map timer front) (timer again ∷ (map timer back ++ e.rest)),
            );
            count = rw as_many e.count;
            carried =
                Carries-append data_of base front (again ∷ back) before
                  (record { packet_eq = timed.packet_eq; owned = timed.owned }, from.1);
            limit = narrow;
          };
          as_many = as_many;
          allowed = refl;
          finish_eq = refl;
          stays = refl;
        }))

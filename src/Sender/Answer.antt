-- ===== src/Sender/Answer.antt =====
-- Where an answer of the receiver points to in the window of sel_repeat_write.c.
use mathlib.Core.Path.{subst}
use projet.Base.{
  ℕ, zero, suc, ◌+◌, ◌-◌, ◌%◌, ◌≤◌, ◌<◌, ◌≡◌, refl, ap, ◌∙◌, List, [], ◌∷◌, ◌++◌, map, arith,
  length, append_assoc, length-append, All, split_at, drop, replicate, length-replicate,
}
use projet.Base.Exec.{ok}
use projet.Base.Array.{load}
use projet.Base.Int.{pos, negsuc, ◌-ℤ◌, int_laws}
use projet.Packet.{max_window_size}
use projet.Packet.Release.{pkt_del-owned}
use projet.Sender.{
  Sender, Slot, null, timer, PktTimer, print_buffer, modify_buffer, get_ack_position,
}
use projet.Sender.Position.{get_ack_position-distance}
use projet.Sender.Window.{IsOwned, owned, modify_buffer-drop, modify_buffer-none}
use projet.Sender.Flight.{Carries, Carries-split, Sends}
use projet.Sender.Send.{length-map, map-append}

-- The slot of a packet in flight.
pub load-flight :
    (flight : List PktTimer) (rest : List Slot) (i : ℕ)
    → i < length flight
    → (t : PktTimer) × (load (map timer flight ++ rest) i ≡ ok (timer t))
unfolding load
load-flight [] rest i h = absurd (omega arith)
load-flight (t ∷ flight) rest zero h = (t, refl)
load-flight (t ∷ flight) rest (suc i) h = load-flight flight rest i (omega arith)

pub print_buffer-flight :
    (n : ℕ) (flight : List PktTimer) (rest : List Slot)
    → n ≤ length flight
    → print_buffer n (map timer flight ++ rest) ≡ ok tt
unfolding print_buffer
print_buffer-flight zero flight rest h = refl
print_buffer-flight (suc n) flight rest h =
    let (t, e) = load-flight flight rest n (omega arith) in
    rw (print_buffer-flight n flight rest (omega arith), e) refl

module _ (data_of : ℕ → List ℕ) where
  Carries-IsOwned :
      (base : ℕ) (flight : List PktTimer)
      → Carries data_of base flight
      → All IsOwned (map timer flight)
  Carries-IsOwned base [] c = tt
  Carries-IsOwned base (t ∷ flight) (c, cs) =
      (owned t (pkt_del-owned t.packet c.owned), Carries-IsOwned (suc base) flight cs)

  -- The position of an acknowledgement of the first `d` packets in flight.
  pub ack_position :
      (base d : ℕ) (s : Sender) (e : Sends data_of base s)
      → d ≤ length e.flight
      → length e.flight ≤ max_window_size
      → get_ack_position
          (pos s.seqnum -ℤ pos 1)
          (pos ((base + d) % 256) -ℤ pos 1)
          (s.current_index_window -ℤ pos 1)
        ≡ pos d -ℤ pos 1
  ack_position base d s e most few =
      let acked = (base + d) % 256 in
      let small : s.seqnum < 256 = omega (arith, e.next) in
      let (position, _) =
        get_ack_position-distance s.seqnum acked 0 (s.current_index_window -ℤ pos 1) small
          (omega arith) (omega arith) in
      let distance : (s.seqnum + 256 - acked) % 256 ≡ length e.flight - d = omega (arith, e.next) in
      position ∙ rw (distance, e.count) (grind int_laws)

  -- The position of the packet in flight that has `d` others before it.
  pub nack_position :
      (base d : ℕ) (s : Sender) (e : Sends data_of base s)
      → d < length e.flight
      → length e.flight ≤ max_window_size
      → get_ack_position
          (pos s.seqnum -ℤ pos 1)
          (pos ((base + d) % 256))
          (s.current_index_window -ℤ pos 1)
        ≡ pos d
  nack_position base d s e most few =
      let number = (base + d) % 256 in
      let small : s.seqnum < 256 = omega (arith, e.next) in
      let (_, position) =
        get_ack_position-distance s.seqnum 0 number (s.current_index_window -ℤ pos 1) small
          (omega arith) (omega arith) in
      let distance : (s.seqnum + 255 - number) % 256 ≡ length e.flight - 1 - d =
        omega (arith, e.next) in
      position ∙ rw (distance, e.count) (grind int_laws)

  pub few_in_flight :
      (base : ℕ) (s : Sender) (e : Sends data_of base s) → length e.flight ≤ max_window_size
  few_in_flight base s e = omega (
    arith,
    ap length e.slots,
    e.sized,
    length-append (map timer e.flight) e.rest,
    length-map timer e.flight,
  )

  -- The window after an acknowledgement of the first `d` packets in flight.
  pub window_after :
      (base d : ℕ) (flight : List PktTimer) (rest : List Slot)
      → Carries data_of base flight
      → d ≤ length flight
      → (rest' : List Slot) × (modify_buffer
            (pos d -ℤ pos 1)
            (pos (length flight) -ℤ pos 1)
            (map timer flight ++ rest)
          ≡ ok (map timer (drop d flight) ++ rest'))
        × (length (map timer (drop d flight) ++ rest') ≡ length (map timer flight ++ rest))
  window_after base zero flight rest c few =
      let none = modify_buffer-none (map timer flight) rest in
      let first : pos 0 -ℤ pos 1 ≡ negsuc 0 = grind int_laws in
      (rest, rw first (rw (length-map timer flight) at none), refl)
  window_after base (suc a) flight rest c few =
      let (done, size, cut, left) = split_at (suc a) flight few in
      let back = drop (suc a) flight in
      let (front, _) = Carries-split data_of base done back (subst (Carries data_of base) cut c) in
      let done_n = length-map timer done in
      let back_n = length-map timer back in
      let first : pos (suc a) -ℤ pos 1 ≡ pos a = grind int_laws in
      let last : pos (length flight) -ℤ pos 1 ≡ pos (length flight - 1) = grind int_laws in
      let parts : map timer flight ++ rest ≡ map timer done ++ (map timer back ++ rest) =
        ap (λ l. map timer l ++ rest) cut
        ∙ ap (λ l. l ++ rest) (map-append timer done back)
        ∙ append_assoc (map timer done) (map timer back) rest in
      let freed = replicate (length (map timer done)) null in
      (
        freed ++ rest,
        rw (first, last, parts)
            (modify_buffer-drop (map timer done) (map timer back) rest a (length flight - 1)
              (Carries-IsOwned base done front) (omega (arith, size)) (omega (arith, size, left))),
        omega (
          arith,
          ap length parts,
          length-append (map timer done) (map timer back ++ rest),
          length-append (map timer back) rest,
          length-append (map timer back) (freed ++ rest),
          length-append freed rest,
          length-replicate {A = Slot} (length (map timer done)) null,
        ),
      )

-- ===== src/Sender/Send.antt =====
-- The sending of new data in sel_repeat_write.c.
use projet.Base.{
  true, ℕ, suc, ◌+◌, ◌≤◌, ◌<◌, ◌≡◌, refl, sym, ap, ◌∙◌, false, ltb, if◌then◌else◌, ◌==◌, List, [],
  ◌∷◌, ◌++◌, map, arith, length, append_assoc, length-append, first_cut, replicate,
}
use projet.Base.Exec.{ok, Yields, yields}
use projet.Base.Array.{store-append}
use projet.Base.Word.{u16}
use projet.Base.Int.{int_laws}
use projet.Packet.{
  Pkt, ptype_data, block, max_window_size, max_payload_size, pkt_new, pkt_set_type, pkt_set_seqnum,
  pkt_set_window, pkt_set_length,
}
use projet.Packet.Wire.{Represents, frame, gap}
use projet.Packet.Payload.{pkt_set_payload-whole}
use projet.Sender.{Sender, Slot, timer, PktTimer, Reaction, send_new, store_ℤ}
use projet.Sender.Flight.{packet, packet-IsContent, Carries-append, Sends, encode_out-frame}

pub length-map {ℓ κ} :
    {A : Type ℓ} {B : Type κ} (f : A → B) (xs : List A) → length (map f xs) ≡ length xs
length-map f [] = refl
length-map f (x ∷ xs) = ap suc (length-map f xs)

pub map-append {ℓ κ} :
    {A : Type ℓ} {B : Type κ} (f : A → B) (xs ys : List A) → map f (xs ++ ys) ≡ map f xs ++ map f ys
map-append f [] ys = refl
map-append f (x ∷ xs) ys = ap (◌∷◌ (f x)) (map-append f xs ys)

module _ (data_of : ℕ → List ℕ) (crc32 : List ℕ → ℕ) (junk : ℕ) (memory : Pkt)
    (now unread : ℕ) where
  -- One more packet is in flight.
  pub record IsSent (base : ℕ) (s : Sender) (e : Sends data_of base s) (bytes : List ℕ)
      (r : Reaction) : Type 0 where
    pub datagram : r.sent ≡ frame crc32 (packet data_of (base + length e.flight)) ∷ []
    pub stays : r.exits ≡ false
    pub sends : Sends data_of base r.sender
    pub more : length sends.flight ≡ length e.flight + 1
    pub kept : r.sender.limited_window_size ≡ s.limited_window_size
    pub ended : r.sender.finish ≡ (if length bytes == 0 then true else s.finish)

  -- The structure that the setters make of `bytes`.
  abbrev filled : Sender → List ℕ → Pkt
  filled s bytes = record {
    type = ptype_data;
    window = 0;
    seqnum = s.seqnum;
    length = length bytes;
    payload = block (bytes ++ replicate (gap (length bytes)) 0);
    crc = memory.crc;
  }

  -- The slot behind the packets in flight.
  placed :
      (base : ℕ) (s : Sender) (e : Sends data_of base s)
      → length e.flight < max_window_size
      → (t : PktTimer)
      → (rest : List Slot) × (store_ℤ s.window s.current_index_window (timer t)
          ≡ ok (map timer (e.flight ++ t ∷ []) ++ rest))
        × (length (map timer (e.flight ++ t ∷ []) ++ rest) ≡ max_window_size)
  placed base s e room t =
      let front = map timer e.flight in
      let front_n = length-map timer e.flight in
      let total = length-append front e.rest in
      let (y, rest, cut) = first_cut e.rest (omega (arith, ap length e.slots, e.sized)) in
      let here : s.window ≡ front ++ y ∷ rest = e.slots ∙ ap (◌++◌ front) cut in
      let joined : front ++ timer t ∷ rest ≡ map timer (e.flight ++ t ∷ []) ++ rest =
        rw (map-append timer e.flight (t ∷ []), append_assoc front (timer t ∷ []) rest) refl in
      (
        rest,
        rw (here, e.count) (store-append front y (timer t) rest (sym front_n) ∙ ap ok joined),
        omega (
          arith,
          ap length joined,
          ap length here,
          e.sized,
          length-append front (y ∷ rest),
          length-append front (timer t ∷ rest),
        ),
      )

  -- With room in the window, `send_new` of the next payload of the stream, of at most 512 bytes, sends
  -- its frame and keeps the packet in flight.
  pub send_new-IsSent :
      (base : ℕ) (s : Sender) (e : Sends data_of base s)
      → length e.flight < max_window_size
      → (bytes : List ℕ) → bytes ≡ data_of (base + length e.flight)
      → length bytes ≤ max_payload_size
      → Yields
          (IsSent base s e bytes)
          (send_new crc32 junk memory now unread s bytes (length bytes))
  unfolding send_new pkt_new pkt_set_type pkt_set_seqnum pkt_set_window pkt_set_length
  send_new-IsSent base s e room bytes same short =
      let n = base + length e.flight in
      let size : u16 (length bytes) ≡ length bytes = omega arith in
      let fits : ltb max_payload_size (length bytes) ≡ false = ground arith in
      let made = filled s bytes in
      let represents : Represents made (packet data_of n) = record {
        type_eq = refl;
        window_eq = refl;
        seqnum_eq = e.next;
        length_eq = ap length same;
        beyond = replicate (gap (length bytes)) 0;
        payload_eq = ap (λ b. b ++ replicate (gap (length bytes)) 0) same;
      } in
      let valid = packet-IsContent data_of n (rw same at short) in
      let t : PktTimer = record { start = now; finish = unread; packet = made } in
      let (rest', stored, sized) = placed base s e room t in
      let total = length-append e.flight (t ∷ []) in
      rw
        (
          size,
          fits,
          pkt_set_payload-whole junk _ bytes short,
          encode_out-frame crc32 junk made (packet data_of n) valid represents,
          stored,
        )
        (yields (record {
          datagram = refl;
          stays = refl;
          sends = record {
            flight = e.flight ++ t ∷ [];
            rest = rest';
            next = omega (arith, e.next, total);
            slots = refl;
            sized = sized;
            count = grind int_laws;
            carried =
                Carries-append data_of base e.flight (t ∷ []) e.carried
                  (record { packet_eq = represents; owned = λ e. cc }, tt);
            limit = e.limit;
          };
          more = total;
          kept = refl;
          ended = refl;
        }))

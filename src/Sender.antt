-- ===== src/Sender.antt =====
-- sel_repeat_write.c: the window of the sender, the sending of new data, and what an answer of the
-- receiver does. Loop is about the rest.
pub mod Loop
pub mod Position
pub mod Window
pub mod Flight
pub mod Send
pub mod Answer
pub mod Ack
pub mod Nack
pub mod Timers
pub mod Incoming
pub mod Timely
pub mod Feed
pub mod Turn
pub mod Run
mod Tests
use projet.Base.{
  ℕ, zero, suc, ◌+◌, ◌-◌, ◌%◌, Bool, true, false, ◌&&◌, ◌||◌, Option, none, some, List, [], ◌∷◌,
  ◌++◌, length, take, replicate, ltb, leb, ◌==◌, if◌then◌else◌, not,
}
use projet.Base.Exec.{Exec, ok, fault, ◌>>=◌}
use projet.Base.Array.{load, store, prefix}
use projet.Base.Word.{u16}
use projet.Base.Int.{ℤ, pos, negsuc, pos_part, ltb_ℤ, ◌+ℤ◌, ◌-ℤ◌}
use projet.Packet.{
  Pkt, Status, pkt_ok, ptype_data, ptype_ack, ptype_nack, max_window_size, pkt_set_type,
  pkt_set_seqnum, pkt_set_window, pkt_set_length, pkt_set_payload, pkt_new, pkt_del, pkt_get_type,
  pkt_get_seqnum, pkt_get_window,
}
use projet.Packet.Encode.{Encoded, pkt_encode}
use projet.Packet.Decode.{pkt_decode, failed}

-- `struct pkt_timer`: of the dates, which are readings of CLOCK_MONOTONIC, only the seconds are read.
pub record PktTimer : Type 0 where
  pub start : ℕ
  pub finish : ℕ
  pub packet : Pkt

-- A slot of the window: never set, NULL, or a timer.
pub data Slot : Type 0 where
  unset null : Slot
  timer : PktTimer → Slot

-- `a[i]` with an `int`: before the array there is nothing.
abbrev pub load_ℤ : List Slot → ℤ → Exec Slot
load_ℤ a (pos i) = load a i
load_ℤ a (negsuc i) = fault

abbrev pub store_ℤ : List Slot → ℤ → Slot → Exec (List Slot)
store_ℤ a (pos i) v = store a i v
store_ℤ a (negsuc i) v = fault

-- `*slot`
abbrev pub timer_of : Slot → Exec PktTimer
timer_of (timer t) = ok t
timer_of _ = fault

-- The rounds of `for (i = n; i >= 0; i--)`.
abbrev pub rounds : ℤ → ℕ
rounds (pos n) = suc n
rounds (negsuc n) = 0

unfoldable pub get_ack_position : ℤ → ℤ → ℤ → ℤ
get_ack_position last_seqnum_send seqnum_validated pointeur_last_send =
    if not (ltb_ℤ last_seqnum_send seqnum_validated)
    then pointeur_last_send -ℤ (last_seqnum_send -ℤ seqnum_validated)
    else pointeur_last_send -ℤ last_seqnum_send -ℤ (pos 256 -ℤ seqnum_validated)

-- The first loop of `modify_buffer`: the slots below `n` are released, from the last one down.
unfoldable pub release_slots : ℕ → List Slot → Exec (List Slot)
release_slots zero buffer = ok buffer
release_slots (suc n) buffer = do
  slot ← load buffer n
  t ← timer_of slot
  _ ← pkt_del t.packet
  buffer' ← store buffer n null
  release_slots n buffer'

-- The second loop, from `i` on with `n` rounds left.
unfoldable pub move_slots : ℕ → ℤ → ℕ → List Slot → Exec (List Slot)
move_slots zero ack i buffer = ok buffer
move_slots (suc n) ack i buffer = do
  slot ← load_ℤ buffer (ack +ℤ pos 1 +ℤ pos i)
  buffer' ← store buffer i slot
  move_slots n ack (i + 1) buffer'

-- The third loop, from `i` down with `n` rounds left.
unfoldable pub clear_slots : ℕ → ℤ → List Slot → Exec (List Slot)
clear_slots zero i buffer = ok buffer
clear_slots (suc n) i buffer = do
  buffer' ← store_ℤ buffer i null
  clear_slots n (i -ℤ pos 1) buffer'

unfoldable pub modify_buffer : ℤ → ℤ → List Slot → Exec (List Slot)
modify_buffer ack last buffer = do
  released ← release_slots (rounds ack) buffer
  moved ← move_slots (pos_part (last -ℤ ack)) ack 0 released
  clear_slots (rounds ack) last moved

-- `print_buffer` looks at the first `n` slots, and through those that are not NULL.
unfoldable pub print_buffer : ℕ → List Slot → Exec (Unit {0})
print_buffer zero buffer = ok tt
print_buffer (suc n) buffer = do
  _ ← print_buffer n buffer
  slot ← load buffer n
  elim slot [ unset ↦ fault | null ↦ ok tt | timer t ↦ ok tt ]

-- The variables of `sel_repeat_write`; `seqnum` is a `uint8_t`.
pub record Sender : Type 0 where
  pub seqnum : ℕ
  pub window : List Slot
  pub current_index_window : ℤ
  pub limited_window_size : ℕ
  pub finish : Bool

-- What an answer leads to: the datagrams sent, and whether the program exits.
pub record Reaction : Type 0 where
  pub sender : Sender
  pub sent : List (List ℕ)
  pub exits : Bool

abbrev pub is_zero : ℤ → Bool
is_zero (pos n) = n == 0
is_zero (negsuc n) = false

-- `max_sdu_size` and `max_payload_size` of `sel_repeat_write`
abbrev pub max_sdu_size : ℕ
max_sdu_size = 520

module _ (crc32 : List ℕ → ℕ) (junk : ℕ) where
  -- A packet is encoded into a fresh array of `max_sdu_size` bytes and written to the socket; the
  -- result is the datagram.
  unfoldable pub encode_out : Pkt → Exec (List ℕ)
  encode_out packet =
      pkt_encode crc32 packet (replicate max_sdu_size junk) max_sdu_size >>= λ encoded.
      prefix encoded.buf encoded.len

-- `memory` is what a fresh packet structure holds, and `now` the date.
module _ (crc32 : List ℕ → ℕ) (junk : ℕ) (memory : Pkt) (now : ℕ) where
  -- `size` bytes have been read from the file into `buffer`: they are sent as the next packet. Where
  -- the structure has `finish`, `unread` is what the memory held.
  unfoldable pub send_new : ℕ → Sender → List ℕ → ℕ → Exec Reaction
  send_new unread s buffer size =
      let (_, packet₁) = pkt_set_type (pkt_new memory) ptype_data in
      let (_, packet₂) = pkt_set_seqnum packet₁ s.seqnum in
      let (_, packet₃) = pkt_set_window packet₂ 0 in
      let (_, packet₄) = pkt_set_length packet₃ (u16 size) in
      do
        (_, packet) ← pkt_set_payload junk packet₄ buffer (u16 size)
        bytes ← encode_out crc32 junk packet
        let element = timer (record { start = now; finish = unread; packet = packet })
        window ← store_ℤ s.window s.current_index_window element
        let s' : Sender = record {
          seqnum = (s.seqnum + 1) % 256;
          window = window;
          current_index_window = s.current_index_window +ℤ pos 1;
          limited_window_size = s.limited_window_size;
          finish = if size == 0 then true else s.finish;
        }
        ok (record { sender = s'; sent = bytes ∷ []; exits = false })

  unfoldable pub on_ack : Sender → Pkt → Exec Reaction
  on_ack s packet =
      let last = s.current_index_window -ℤ pos 1 in
      let validated = pos (pkt_get_seqnum packet) -ℤ pos 1 in
      let ack_position = get_ack_position (pos s.seqnum -ℤ pos 1) validated last in
      do
        window ← modify_buffer ack_position last s.window
        let left = s.current_index_window -ℤ ack_position -ℤ pos 1
        _ ← print_buffer (pos_part left) window
        let s' : Sender = record s {
          window = window;
          current_index_window = left;
          limited_window_size = pkt_get_window packet;
        }
        ok (record { sender = s'; sent = []; exits = if is_zero left then s.finish else false })

  unfoldable pub on_nack : Sender → Pkt → Exec Reaction
  on_nack s packet =
      let last = s.current_index_window -ℤ pos 1 in
      let nack_position =
        get_ack_position (pos s.seqnum -ℤ pos 1) (pos (pkt_get_seqnum packet)) last in
      do
        slot ← load_ℤ s.window nack_position
        t ← timer_of slot
        bytes ← encode_out crc32 junk t.packet
        window ← store_ℤ s.window nack_position (timer (record t { start = now }))
        ok (record {
          sender = record s { window = window; limited_window_size = pkt_get_window packet };
          sent = bytes ∷ [];
          exits = false;
        })

  -- A datagram of `length` bytes from the receiver, read into `buffer`.
  unfoldable pub on_answer : Sender → List ℕ → ℕ → Exec Reaction
  on_answer s buffer length = do
    (status, packet) ← pkt_decode crc32 junk buffer length (pkt_new memory)
    if failed status
        then ok (record { sender = s; sent = []; exits = false })
        else if pkt_get_type packet == ptype_ack
        then on_ack s packet
        else if pkt_get_type packet == ptype_nack
        then on_nack s packet
        else ok (record { sender = s; sent = []; exits = false })

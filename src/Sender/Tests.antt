-- ===== src/Sender/Tests.antt =====
-- The theorems on the sender, at a window that goes round at 256, and two turns with a short file.
use projet.Base.{
  ℕ, zero, suc, ◌+◌, ◌*◌, ◌-◌, ◌%◌, ◌≡◌, ◌≤◌, Bool, true, false, ltb, ◌&&◌, refl, none, some, List,
  [], ◌∷◌, ◌++◌, arith, All, length, map, replicate,
}
use projet.Base.Exec.{ok, fault, Yields}
use projet.Base.Array.{load, store, copy, fill, prefix}
use projet.Packet.Encode.{pkt_encode, store_crc}
use projet.Base.Int.{◌+ℤ◌, pos, ◌-ℤ◌}
use projet.Packet.{
  Pkt, block, null, wild, ptype_data, ptype_ack, ptype_nack, max_payload_size, release, pkt_del,
  pkt_get_seqnum, pkt_get_window, pkt_new, pkt_set_type, pkt_set_seqnum, pkt_set_window,
  pkt_set_length, pkt_set_payload, padding_of, pkt_get_length, pkt_get_type, pkt_get_payload,
}
use projet.Packet.Wire.{IsByte, control, frame}
use projet.Sender.{
  Slot, unset, null, timer, PktTimer, Sender, Reaction, get_ack_position, modify_buffer, send_new,
  on_ack, on_nack, encode_out,
}
use projet.Sender.Loop.{Input, check_timers, begin, turn, read_file, read_socket, may_send}
use projet.Sender.Position.{get_ack_position-distance}
use projet.Sender.Window.{IsOwned, owned, modify_buffer-drop}
use projet.Sender.Flight.{IsTimed, Sends, datagram}
use projet.Sender.Send.{IsSent, send_new-IsSent}
use projet.Sender.Timers.{readings, retimed, due, check_timers-due}
use projet.Sender.Ack.{IsAcked, on_ack-IsAcked, on_ack-stale}
use projet.Sender.Nack.{IsResent, on_nack-IsResent}
use projet.Sender.Timely.{ack-IsTimely}
use projet.Sender.Run.{initial, further, IsTurned, Reached-IsTurned}

get_ack_position-distance_example :
    (get_ack_position (pos 2 -ℤ pos 1) (pos 0 -ℤ pos 1) (pos 4)
      ≡ pos 4 -ℤ pos ((2 + 256 - 0) % 256))
    × (get_ack_position (pos 2 -ℤ pos 1) (pos 254) (pos 4) ≡ pos 4 -ℤ pos ((2 + 255 - 254) % 256))
get_ack_position-distance_example =
    get_ack_position-distance 2 0 254 (pos 4) (omega arith) (omega arith) (omega arith)

abbrev held : ℕ → Slot
held n = timer (record {
  start = 0;
  finish = 0;
  packet = record { type = 1; window = 0; seqnum = n; length = 0; payload = block []; crc = 0 };
})

held-IsOwned : (n : ℕ) → IsOwned (held n)
unfolding pkt_del release
held-IsOwned n = owned _ refl

modify_buffer-drop_example :
    modify_buffer (pos 1) (pos 2) (held 4 ∷ held 5 ∷ held 6 ∷ unset ∷ [])
    ≡ ok (held 6 ∷ null ∷ null ∷ unset ∷ [])
modify_buffer-drop_example =
    modify_buffer-drop (held 4 ∷ held 5 ∷ []) (held 6 ∷ []) (unset ∷ []) 1 2
      (held-IsOwned 4, (held-IsOwned 5, tt)) refl refl

abbrev sum32 : List ℕ → ℕ
sum32 [] = 1
sum32 (b ∷ bytes) = b + 3 * sum32 bytes

abbrev memory : Pkt
memory = record { type = 1; window = 40; seqnum = 0; length = 9; payload = wild; crc = 0 }

-- A stream of single bytes.
abbrev stream : ℕ → List ℕ
stream k = k % 256 ∷ []

stream-short : (k : ℕ) → length (stream k) ≤ max_payload_size
stream-short k = omega arith

-- The packet `k` of the stream, sent at the date 3.
abbrev sent_at_3 : ℕ → PktTimer
sent_at_3 k = record {
  start = 3;
  finish = 0;
  packet = record {
    type = ptype_data;
    window = 0;
    seqnum = k % 256;
    length = 1;
    payload = block (k % 256 ∷ 0 ∷ 0 ∷ 0 ∷ []);
    crc = 0;
  };
}

sent_at_3-IsTimed : (k : ℕ) → IsTimed stream k (sent_at_3 k)
sent_at_3-IsTimed k = record {
  packet_eq = record {
    type_eq = refl;
    window_eq = refl;
    seqnum_eq = refl;
    length_eq = refl;
    beyond = 0 ∷ 0 ∷ 0 ∷ [];
    payload_eq = refl;
  };
  owned = λ e. cc;
}

-- Two packets are in flight, under the numbers 255 and 0.
abbrev two : Sender
two = record {
  seqnum = 1;
  window = timer (sent_at_3 255) ∷ timer (sent_at_3 256) ∷ replicate 29 unset;
  current_index_window = pos 2;
  limited_window_size = 31;
  finish = false;
}

abbrev two-Sends : Sends stream 255 two
two-Sends = record {
  flight = sent_at_3 255 ∷ sent_at_3 256 ∷ [];
  rest = replicate 29 unset;
  next = refl;
  slots = refl;
  sized = refl;
  count = refl;
  carried = (sent_at_3-IsTimed 255, (sent_at_3-IsTimed 256, tt));
  limit = omega arith;
}

send_new-IsSent_example :
    Yields
      (IsSent stream sum32 0 memory 9 0 255 two two-Sends (1 ∷ []))
      (send_new sum32 0 memory 9 0 two (1 ∷ []) 1)
send_new-IsSent_example =
    send_new-IsSent stream sum32 0 memory 9 0 255 two two-Sends (omega arith) (1 ∷ []) refl
      (omega arith)

-- The clock goes on by two seconds with each reading.
abbrev clock : ℕ → ℕ
clock n = 2 * n

check_timers-due_example :
    check_timers sum32 0 2 clock 4 (two.window) 0
    ≡ ok (
      readings clock 4 two-Sends.flight,
      (
        map timer (retimed clock 4 two-Sends.flight) ++ replicate 29 unset,
        map (datagram stream sum32) (due clock 4 255 two-Sends.flight),
      ),
    )
check_timers-due_example =
    check_timers-due stream stream-short sum32 0 clock 255 4 two-Sends.flight []
      (replicate 29 unset) refl two-Sends.carried

abbrev answer : ℕ → ℕ → Pkt
answer type seqnum = record {
  type = type;
  window = 7;
  seqnum = seqnum;
  length = 0;
  payload = null;
  crc = 0;
}

on_ack-IsAcked_example :
    Yields (IsAcked stream 255 1 7 two two-Sends) (on_ack sum32 0 memory 9 two (answer ptype_ack 0))
unfolding pkt_get_seqnum pkt_get_window
on_ack-IsAcked_example =
    on_ack-IsAcked stream sum32 0 memory 9 255 1 two two-Sends (answer ptype_ack 0) (omega arith)
      refl (omega arith)

on_ack-stale_example : on_ack sum32 0 memory 9 two (answer ptype_ack 250) ≡ fault
unfolding pkt_get_seqnum
on_ack-stale_example =
    on_ack-stale stream sum32 0 memory 9 255 250 4 two two-Sends (answer ptype_ack 250)
      (omega arith) (omega arith) refl

on_nack-IsResent_example :
    Yields
      (IsResent stream 255 1 7 sum32 two two-Sends)
      (on_nack sum32 0 memory 9 two (answer ptype_nack 0))
unfolding pkt_get_seqnum pkt_get_window
on_nack-IsResent_example =
    on_nack-IsResent stream sum32 0 memory 9 255 1 two two-Sends (answer ptype_nack 0) (omega arith)
      (omega arith) refl (omega arith)

abbrev all : List ℕ → Bool
all [] = true
all (b ∷ bytes) = ltb b 256 && all bytes

all-IsByte : (bytes : List ℕ) → all bytes ≡ true → All IsByte bytes
all-IsByte [] h = tt
all-IsByte (b ∷ bytes) h = (ground arith, all-IsByte bytes (ground arith))

-- A file of one byte.
abbrev small_file : ℕ → List ℕ
small_file zero = b'x' ∷ []
small_file (suc k) = []

small_file-short : (k : ℕ) → length (small_file k) ≤ max_payload_size
small_file-short zero = omega arith
small_file-short (suc k) = omega arith

abbrev first_input : Input
first_input = record { file = some (b'x' ∷ []); socket = none }

abbrev first_timer : PktTimer
first_timer = record {
  start = 0;
  finish = 5;
  packet = record {
    type = 1;
    window = 0;
    seqnum = 0;
    length = 1;
    payload = block (b'x' ∷ 0 ∷ 0 ∷ 0 ∷ []);
    crc = 0;
  };
}

abbrev first_reaction : Reaction
first_reaction = record {
  sender = record {
    seqnum = 1;
    window = timer first_timer ∷ replicate 30 unset;
    current_index_window = pos 1;
    limited_window_size = 31;
    finish = false;
  };
  sent = datagram small_file sum32 0 ∷ [];
  exits = false;
}

first_turn : turn sum32 0 memory clock 5 begin first_input 0 ≡ ok first_reaction
unfolding turn check_timers begin read_file read_socket may_send send_new pkt_new pkt_set_type
    pkt_set_seqnum pkt_set_window pkt_set_length pkt_set_payload copy load store padding_of fill
    encode_out pkt_encode pkt_get_length pkt_get_type pkt_get_window pkt_get_seqnum pkt_get_payload
    prefix store_crc ◌+ℤ◌
first_turn = refl

-- The first packet is acknowledged in the turn that reads the end of the file.
abbrev second_input : Input
second_input = record { file = some []; socket = some (frame sum32 (control ptype_ack 31 1)) }

Reached-IsTurned_example :
    Yields
      (IsTurned small_file sum32 0 0 1 first_reaction.sender second_input)
      (turn sum32 0 memory clock 5 first_reaction.sender second_input 1)
Reached-IsTurned_example =
    Reached-IsTurned small_file sum32 0 small_file-short
      (further initial memory clock 5 first_input 0 refl tt first_reaction first_turn refl 0 1
        (omega arith) (omega arith) (omega arith) refl refl)
      memory clock 5 second_input 1 refl
      (
        all-IsByte (frame sum32 (control ptype_ack 31 1)) refl,
        ack-IsTimely sum32 0 1 1 31 (omega arith) (omega arith),
      )

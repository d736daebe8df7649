-- ===== src/Receiver/Tests.antt =====
-- Packets 5 and 7 at a receiver that expects 4, a round with the expected packet, and the theorems.
use projet.Base.{
  ℕ, ◌+◌, ◌*◌, ◌%◌, ◌≡◌, ◌≤◌, ◌<◌, Bool, true, ◌&&◌, All, inl, refl, none, some, List, [], ◌∷◌,
  ◌++◌, arith, ltb, replicate, drop,
}
use projet.Base.Exec.{ok, fault, Yields}
use projet.Base.Int.{◌+ℤ◌, pos, ltb_ℤ}
use projet.Packet.{
  pkt_set_type, pkt_set_window, pkt_set_seqnum, pkt_set_length, pkt_set_crc, pkt_set_payload,
  padding_of, pkt_get_type, pkt_get_seqnum, pkt_get_length, pkt_get_crc, pkt_get_payload, pkt_new,
  pkt_del, release, Pkt, ptype_data, ptype_ack, max_window_size, wild, block,
}
use projet.Packet.Wire.{control, Content, IsContent, IsByte, frame, framed}
use projet.Receiver.Stream.{Expects, IsGenuine, IsWaiting, segment}
use projet.Receiver.Round.{Advances, Delivers, round-Advances, round-Delivers}
use projet.Receiver.Run.{begin, arrival, start-Expects, Reached-segment, round-short}
use projet.Receiver.Handled.{write_payload-decoded}
use projet.Packet.Decode.Accept.{decoded}
use projet.Receiver.Genuine.{framed-IsGenuine}
use projet.Packet.Decode.{pkt_decode, read_header, read_length, failed, read_body, read_crc}
use projet.Packet.Encode.{pkt_encode, store_crc}
use projet.Base.Array.{load, store, prefix, copy, fill}
use projet.Receiver.{
  handle, accept, remove_from_buffer, drain, control_packet, refresh_loop, write_payload, Receiver,
  Output, delivered, sent, start, round, Buffer, compare_seqnums, refresh, insert_pkt, send_ack,
}
use projet.Receiver.Seqnum.{ahead, window_test}
use projet.Receiver.Refresh.{leading, refresh-drop}
use projet.Receiver.Insert.{slots, IsSorted, IsInserted, insert_pkt-Inserted}

abbrev sum32 : List ℕ → ℕ
sum32 [] = 1
sum32 (b ∷ bytes) = b + 3 * sum32 bytes

abbrev memory : Pkt
memory = record { type = 1; window = 40; seqnum = 0; length = 9; payload = wild; crc = 0 }

abbrev numbered : ℕ → Pkt
numbered n = record {
  type = 1;
  window = 0;
  seqnum = n;
  length = 1;
  payload = block (b'x' ∷ []);
  crc = 0;
}

window_test_example :
    ltb_ℤ (compare_seqnums 250 3 ((250 + 1) % 256)) (pos max_window_size)
    ≡ ltb (ahead 250 3) max_window_size
window_test_example = window_test 250 3 (omega arith) (omega arith)

abbrev holed : Buffer
holed = none ∷ none ∷ some (numbered 6) ∷ none ∷ some (numbered 9) ∷ replicate 26 none

refresh-drop_example :
    refresh holed ≡ ok (drop (leading holed) holed ++ replicate (leading holed) none)
refresh-drop_example = refresh-drop holed refl

abbrev waiting : List Pkt
waiting = numbered 5 ∷ numbered 7 ∷ []

insert_pkt-Inserted_example :
    Yields
      (λ (buffer, window').
        (ps' : List Pkt) × (buffer ≡ slots max_window_size ps')
        × IsSorted 3 0 ps'
        × IsInserted (numbered 6) waiting (pos 29) ps' window')
      (insert_pkt 3 (slots max_window_size waiting) (numbered 6) (pos 29))
insert_pkt-Inserted_example =
    insert_pkt-Inserted 3 (numbered 6) (pos 29) (omega arith) (omega arith) (λ e. cc) waiting
      (omega arith) (omega arith, omega arith, (omega arith, omega arith, tt))

-- The packet `k` of a stream of single bytes.
abbrev stream : ℕ → List ℕ
stream k = k % 256 ∷ []

abbrev content : ℕ → Content
content k = record { type = ptype_data; window = 0; seqnum = k % 256; payload = stream k }

abbrev zeros : List ℕ
zeros = 0 ∷ 0 ∷ 0 ∷ []

abbrev datagram : ℕ → List ℕ
datagram k = framed sum32 (content k) zeros ++ []

content-IsContent : (k : ℕ) → IsContent (content k)
content-IsContent k = record {
  typed = inl refl;
  narrow = omega arith;
  numbered = omega arith;
  short = omega arith;
  carried = inl refl;
}

abbrev IsByte? : ℕ → Bool
IsByte? b = ltb b 256

abbrev all : List ℕ → Bool
all [] = true
all (b ∷ bytes) = IsByte? b && all bytes

all-IsByte : (bytes : List ℕ) → all bytes ≡ true → All IsByte bytes
all-IsByte [] h = tt
all-IsByte (b ∷ bytes) h = (ground arith, all-IsByte bytes (ground arith))

datagram-IsGenuine : (n k : ℕ) → k < n + 31 → n ≤ k + 225 → IsGenuine stream sum32 n (datagram k) 12
datagram-IsGenuine n k near old =
    framed-IsGenuine sum32 stream n k (content k) zeros [] 12 (content-IsContent k) refl refl refl
      refl near old

round-Advances_example :
    Yields (λ (r', out). Advances stream 0 r' out) (round sum32 0 memory start (datagram 2) 12)
round-Advances_example =
    round-Advances stream sum32 0 memory 0 start (datagram 2) 12 (start-Expects stream)
      (all-IsByte (datagram 2) refl) (omega arith) (omega arith)
      (datagram-IsGenuine 0 2 (omega arith) (omega arith))

-- A receiver that expects the packet 0, and has the packets 1 and 3 in its buffer.
abbrev one_and_three : List Pkt
one_and_three = decoded sum32 (content 1) zeros ∷ decoded sum32 (content 3) zeros ∷ []

abbrev expecting : Receiver
expecting = record { lastack = 255; window_size = pos 29; receive_buffer = slots 31 one_and_three }

arrived-IsWaiting :
    (k : ℕ) → 1 ≤ k → k < 31 → IsWaiting stream 0 255 1 (decoded sum32 (content k) zeros)
arrived-IsWaiting k from to =
    let place : 0 + ahead 255 (k % 256) ≡ k = omega arith in
    record {
      numbered = omega arith;
      far = omega arith;
      near = omega arith;
      payload = rw place (write_payload-decoded sum32 (content k) zeros);
      owned = λ e. cc;
    }

abbrev expecting-Expects : Expects stream 0 expecting
expecting-Expects = record {
  last = refl;
  waiting = one_and_three;
  buffer = refl;
  sorted = (omega arith, omega arith, (omega arith, omega arith, tt));
  held = (
    arrived-IsWaiting 1 (omega arith) (omega arith),
    (arrived-IsWaiting 3 (omega arith) (omega arith), tt),
  );
  window = refl;
}

round-Delivers_example :
    Yields
      (λ (r', out). Delivers stream sum32 0 memory 0 one_and_three r' out)
      (round sum32 0 memory expecting (datagram 0) 12)
round-Delivers_example =
    round-Delivers stream sum32 0 memory 0 expecting (content 0) zeros [] 12 expecting-Expects
      (content-IsContent 0) refl refl refl refl

abbrev after_first : Receiver
after_first = record { lastack = 0; window_size = pos 31; receive_buffer = replicate 31 none }

abbrev first_output : List Output
first_output = delivered (0 ∷ []) ∷ sent (frame sum32 (control ptype_ack 31 1)) ∷ []

first_round : round sum32 0 memory start (datagram 0) 12 ≡ ok (after_first, first_output)
unfolding round start pkt_decode read_header read_length failed read_body read_crc pkt_set_type
    pkt_set_window pkt_set_seqnum pkt_set_length pkt_set_crc pkt_set_payload padding_of pkt_get_type
    pkt_get_seqnum pkt_get_length pkt_get_crc pkt_get_payload pkt_new pkt_del release handle accept
    remove_from_buffer drain send_ack control_packet pkt_encode store_crc load store prefix copy
    fill refresh refresh_loop compare_seqnums write_payload ◌+ℤ◌
first_round = refl

Reached-segment_example : Expects stream 1 after_first × ((0 ∷ []) ≡ segment stream 1 0)
Reached-segment_example = Reached-segment stream sum32 0 memory (
    arrival begin (datagram 0) 12 (all-IsByte (datagram 0) refl) (omega arith) (omega arith)
      (datagram-IsGenuine 0 0 (omega arith) (omega arith)) after_first first_output first_round 1
      (omega arith) (omega arith) refl)

round-short_example : round sum32 0 memory start (1 ∷ 2 ∷ 3 ∷ []) 3 ≡ fault
round-short_example = round-short sum32 0 memory start (1 ∷ 2 ∷ 3 ∷ []) 3 (omega arith)

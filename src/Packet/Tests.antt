-- ===== src/Packet/Tests.antt =====
-- The packet of test_implem.c through the encoder and the decoder, and the theorems on it. The
-- checksum function is a stand-in for zlib's.
use projet.Base.{ℕ, ◌+◌, ◌*◌, ◌≡◌, ◌≢◌, refl, List, [], ◌∷◌, ◌++◌, arith, replicate}
use projet.Base.Exec.{ok, Yields}
use projet.Base.Array.{load, store, copy, fill, prefix}
use projet.Packet.{
  Pkt, pkt_ok, e_nomem, wild, block, padding_of, pkt_get_length, pkt_get_type, pkt_get_crc,
  pkt_set_type, pkt_set_window, pkt_set_seqnum, pkt_set_length, pkt_set_crc, pkt_set_payload,
}
use projet.Packet.Wire.{Content, IsContent, Represents, frame, framed, covered}
use projet.Packet.Setters.{
  InRange, SetCall, set_type, set_window, set_payload, calls, call, IsCalled, calls-InRange,
}
use projet.Packet.Encode.{store_crc, pkt_encode}
use projet.Packet.Encode.Frame.{outcome, pkt_encode-frame}
use projet.Packet.Encode.Room.{pkt_encode-small}
use projet.Packet.Decode.{failed, read_length, read_crc, read_header, read_body, pkt_decode}
use projet.Packet.Decode.Accept.{decoded, checked, pkt_decode-checked, pkt_decode-framed}
use projet.Packet.Decode.Refuse.{IsRefused, pkt_decode-refusal}
use projet.Packet.Decode.Sound.{IsDecoded, pkt_decode-IsDecoded}
use projet.Packet.RoundTrip.{pkt_encode-decode}

abbrev sum32 : List ℕ → ℕ
sum32 [] = 0
sum32 (b ∷ bytes) = b + 2 * sum32 bytes

abbrev memory : Pkt
memory = record { type = 0; window = 9; seqnum = 77; length = 300; payload = wild; crc = 5 }

-- "ar" as data packet 4
abbrev sample : Content
sample = record { type = 1; window = 3; seqnum = 4; payload = b'a' ∷ b'r' ∷ [] }

abbrev sample_pkt : Pkt
sample_pkt = record {
  type = 1;
  window = 3;
  seqnum = 4;
  length = 2;
  payload = block (b'a' ∷ b'r' ∷ 0 ∷ 0 ∷ []);
  crc = 0;
}

abbrev room : List ℕ
room = replicate 14 9

sample-IsContent : IsContent sample
sample-IsContent = omega arith

sample-Represents : Represents sample_pkt sample
sample-Represents = record {
  type_eq = refl;
  window_eq = refl;
  seqnum_eq = refl;
  length_eq = refl;
  beyond = 0 ∷ 0 ∷ [];
  payload_eq = refl;
}

-- The bytes that the unit test expects in front of the checksum.
encoded_header :
    pkt_encode sum32 sample_pkt room 14
    ≡ ok (record {
      status = pkt_ok;
      buf = 0x23 ∷ 4 ∷ 0 ∷ 2 ∷ b'a' ∷ b'r' ∷ 0 ∷ 0 ∷ 0 ∷ 0 ∷ 20 ∷ 139 ∷ 9 ∷ 9 ∷ [];
      len = 12;
    })
unfolding pkt_encode store_crc store copy fill prefix load padding_of pkt_get_length
encoded_header = refl

abbrev packet_bytes : List ℕ
packet_bytes = 0x23 ∷ 4 ∷ 0 ∷ 2 ∷ b'a' ∷ b'r' ∷ 0 ∷ 0 ∷ 0 ∷ 0 ∷ 20 ∷ 139 ∷ []

decoded_sample :
    pkt_decode sum32 7 packet_bytes 12 memory ≡ ok (pkt_ok, record sample_pkt { crc = 5259 })
unfolding pkt_decode read_header read_length read_body read_crc store copy fill prefix load
    padding_of pkt_get_length pkt_get_type pkt_get_crc pkt_set_type pkt_set_window pkt_set_seqnum
    pkt_set_length pkt_set_crc pkt_set_payload failed
decoded_sample = refl

abbrev three_calls : List SetCall
three_calls = set_window 34 ∷ set_type 7 ∷ set_payload (b'a' ∷ b'b' ∷ b'c' ∷ b'd' ∷ []) 3 ∷ []

calls-InRange_example :
    Yields
      (λ pkt'.
        InRange pkt'
        × Yields (IsCalled 9 pkt') (call 9 (set_payload (replicate 600 b'x') 515) pkt'))
      (calls 9 three_calls sample_pkt)
calls-InRange_example =
    calls-InRange 9 three_calls (set_payload (replicate 600 b'x') 515) sample_pkt (omega arith)
      (tt, (tt, (omega arith, tt))) (omega arith)

pkt_encode-frame_example :
    pkt_encode sum32 sample_pkt room 14 ≡ ok (outcome sample 14 (frame sum32 sample ++ 9 ∷ 9 ∷ []))
pkt_encode-frame_example =
    pkt_encode-frame sum32 sample_pkt sample room 14 sample-IsContent sample-Represents
      (omega arith)

pkt_encode-small_example :
    pkt_encode sum32 sample_pkt (replicate 11 9) 11
    ≢ ok (record { status = e_nomem; buf = replicate 11 9; len = 11 })
unfolding padding_of
pkt_encode-small_example = pkt_encode-small sum32 sample_pkt (replicate 11 9) 11 _ (omega arith)

pkt_decode-checked_example :
    pkt_decode sum32 7 (covered sample (0 ∷ 1 ∷ []) ++ 9 ∷ 8 ∷ 7 ∷ 6 ∷ 5 ∷ []) 12 memory
    ≡ ok (checked sum32 sample (0 ∷ 1 ∷ []) 9 8 7 6)
pkt_decode-checked_example =
    pkt_decode-checked sum32 7 sample (0 ∷ 1 ∷ []) 9 8 7 6 (5 ∷ []) memory sample-IsContent refl
      (omega arith) (omega arith) (omega arith) (omega arith) 12 refl

pkt_decode-framed_example :
    pkt_decode sum32 7 (framed sum32 sample (0 ∷ 1 ∷ []) ++ []) 12 memory
    ≡ ok (pkt_ok, decoded sum32 sample (0 ∷ 1 ∷ []))
pkt_decode-framed_example =
    pkt_decode-framed sum32 7 sample (0 ∷ 1 ∷ []) [] 12 memory sample-IsContent refl refl

-- an acknowledgement of type 3
pkt_decode-refusal_example :
    Yields
      (IsRefused 3 2 5 0 8 memory)
      (pkt_decode sum32 7 (0x62 ∷ 5 ∷ 0 ∷ 0 ∷ 1 ∷ 2 ∷ 3 ∷ 4 ∷ []) 8 memory)
pkt_decode-refusal_example =
    pkt_decode-refusal sum32 7 0x62 5 0 0 (1 ∷ 2 ∷ 3 ∷ 4 ∷ []) 8 memory (omega arith) (omega arith)
      (omega arith) (omega arith) (omega arith) refl

pkt_decode-IsDecoded_example :
    Yields
      (λ r. r.0 ≡ pkt_ok → IsDecoded sum32 packet_bytes 12 r.1)
      (pkt_decode sum32 7 packet_bytes 12 memory)
pkt_decode-IsDecoded_example =
    pkt_decode-IsDecoded sum32 7 packet_bytes 12 memory (omega arith) (omega arith)

pkt_encode-decode_example :
    Yields
      (λ e.
        (pkt' : Pkt) × (pkt_decode sum32 7 e.buf e.len memory ≡ ok (pkt_ok, pkt'))
        × Represents pkt' sample)
      (pkt_encode sum32 sample_pkt room 14)
pkt_encode-decode_example =
    pkt_encode-decode sum32 7 sample_pkt sample room 14 memory sample-IsContent sample-Represents
      (omega arith) (omega arith)

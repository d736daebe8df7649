-- ===== src/Protocol/Tests.antt =====
-- The theorems on the parts together, at the packet 256 of a stream of single bytes.
use projet.Base.{
  ℕ, ◌≡◌, ◌+◌, ◌*◌, ◌%◌, true, false, none, inl, refl, List, [], ◌∷◌, arith, length, replicate,
  take, ◌-◌, ◌++◌,
}
use projet.Base.Exec.{◌>>=◌, Yields}
use projet.Base.Int.{pos}
use projet.Packet.{Pkt, block, wild, ptype_data, ptype_nack}
use projet.Packet.Wire.{Content, IsContent, control, frame, framed}
use projet.Link.Effect.{inverted}
use projet.Receiver.{Receiver, sent, round, send_ack, send_nack}
use projet.Receiver.Stream.{Expects}
use projet.Sender.{Sender, PktTimer, timer, unset, on_answer}
use projet.Sender.Flight.{IsTimed, Sends}
use projet.Sender.Ack.{IsAcked}
use projet.Sender.Nack.{IsResent}
use projet.Protocol.Damage.{Stays, round-inverted, round-cut}
use projet.Protocol.Duplicate.{round-duplicate}
use projet.Protocol.Answer.{send_ack-IsAcked, send_nack-IsResent}
use projet.Link.{Settings, World, sent_all}
use projet.Link.Proxy.{Proxy, SockaddrIn6, sockaddr_cmp}
use projet.Protocol.System.{
  Event, sender_turn, packet_at_proxy, packet_at_receiver, answer_at_proxy, launch, run,
}
use projet.Protocol.System.Delivery.{IsDelivering, run-IsDelivering}
use projet.Protocol.System.File.{chunk, chunk_short, IsTransfer, run-IsTransfer}

abbrev sum32 : List ℕ → ℕ
sum32 [] = 1
sum32 (b ∷ bytes) = b + 3 * sum32 bytes

abbrev memory : Pkt
memory = record { type = 1; window = 40; seqnum = 0; length = 9; payload = wild; crc = 0 }

abbrev stream : ℕ → List ℕ
stream k = k % 256 ∷ []

abbrev content : ℕ → Content
content k = record { type = ptype_data; window = 0; seqnum = k % 256; payload = stream k }

content-IsContent : (k : ℕ) → IsContent (content k)
content-IsContent k = record {
  typed = inl refl;
  narrow = omega arith;
  numbered = omega arith;
  short = omega arith;
  carried = inl refl;
}

-- A receiver that expects the packet 255.
abbrev receiver : Receiver
receiver = record { lastack = 254; window_size = pos 31; receive_buffer = replicate 31 none }

abbrev receiver-Expects : Expects stream 255 receiver
receiver-Expects = record {
  last = refl;
  waiting = [];
  buffer = refl;
  sorted = tt;
  held = tt;
  window = refl;
}

round-inverted_example :
    Yields
      (Stays stream sum32 0 memory 255 receiver [])
      (round sum32 0 memory receiver (inverted (frame sum32 (content 256)) ++ 5 ∷ []) 12)
round-inverted_example =
    round-inverted stream sum32 0 memory 255 receiver (content 256) (5 ∷ []) 12 receiver-Expects
      (content-IsContent 256) refl

round-cut_example :
    Yields
      (Stays stream sum32 0 memory 255 receiver (sent (frame sum32 (control ptype_nack 31 0)) ∷ []))
      (round sum32 0 memory receiver (take 4 (frame sum32 (content 256)) ++ 5 ∷ []) 4)
round-cut_example =
    round-cut stream sum32 0 memory 255 256 receiver receiver-Expects (content 256) (5 ∷ [])
      (content-IsContent 256) refl (omega arith) (omega arith)

abbrev sent_at_3 : ℕ → PktTimer
sent_at_3 k = record {
  start = 3;
  finish = 0;
  packet = record {
    type = ptype_data;
    window = 0;
    seqnum = k % 256;
    length = 1;
    payload = block (k % 256 ∷ 0 ∷ 0 ∷ 0 ∷ []);
    crc = 0;
  };
}

sent_at_3-IsTimed : (k : ℕ) → IsTimed stream k (sent_at_3 k)
sent_at_3-IsTimed k = record {
  packet_eq = record {
    type_eq = refl;
    window_eq = refl;
    seqnum_eq = refl;
    length_eq = refl;
    beyond = 0 ∷ 0 ∷ 0 ∷ [];
    payload_eq = refl;
  };
  owned = λ e. cc;
}

-- A sender with the packets 255 and 256 in flight.
abbrev sender : Sender
sender = record {
  seqnum = 1;
  window = timer (sent_at_3 255) ∷ timer (sent_at_3 256) ∷ replicate 29 unset;
  current_index_window = pos 2;
  limited_window_size = 31;
  finish = false;
}

abbrev sender-Sends : Sends stream 255 sender
sender-Sends = record {
  flight = sent_at_3 255 ∷ sent_at_3 256 ∷ [];
  rest = replicate 29 unset;
  next = refl;
  slots = refl;
  sized = refl;
  count = refl;
  carried = (sent_at_3-IsTimed 255, (sent_at_3-IsTimed 256, tt));
  limit = omega arith;
}

send_ack-IsAcked_example : Yields (IsAcked stream 255 (256 - 255) 31 sender sender-Sends) (
    send_ack sum32 0 memory 255 (pos 31) >>= λ bytes.
    on_answer sum32 0 memory 9 sender (take 8 bytes) (length (take 8 bytes)))
send_ack-IsAcked_example =
    send_ack-IsAcked stream sum32 0 memory 9 memory 255 256 255 31 sender sender-Sends refl
      (omega arith) (omega arith) (omega arith)

send_nack-IsResent_example : Yields (IsResent stream 255 (256 - 255) 31 sum32 sender sender-Sends) (
    send_nack sum32 0 memory 0 (pos 31) >>= λ bytes.
    on_answer sum32 0 memory 9 sender (take 8 bytes) (length (take 8 bytes)))
send_nack-IsResent_example =
    send_nack-IsResent stream sum32 0 memory 9 memory 255 256 31 sender sender-Sends (omega arith)
      (omega arith) (omega arith) (omega arith)

abbrev world : World
world = record {
  slot_allocated = true;
  slot_memory = [];
  realloc_succeeds = true;
  queue_memory = record { ts = record { tv_sec = pos 0; tv_usec = pos 0 }; size = 0; buf = [] };
  sending = sent_all;
}

abbrev lossy : Settings
lossy = record { delay = 0; jitter = 0; err_rate = 10; cut_rate = 10; loss_rate = 10 }

abbrev left_addr : SockaddrIn6
left_addr = record { sin6_addr = 1 ∷ []; sin6_port = 2; sin6_others = 0 }

abbrev right_addr : SockaddrIn6
right_addr = record { sin6_addr = 1 ∷ []; sin6_port = 3; sin6_others = 0 }

addrs_differ : sockaddr_cmp left_addr right_addr ≡ true
unfolding sockaddr_cmp
addrs_differ = refl

abbrev fresh_proxy : Proxy
fresh_proxy = record {
  dest_addr = right_addr;
  src_addr = right_addr;
  has_source_addr = false;
  last_clock = record { tv_sec = pos 0; tv_usec = pos 0 };
  pkt_queue = none;
}

-- One exchange: a turn of the sender, and its datagrams to the receiver and back.
abbrev one_packet : List Event
one_packet =
    sender_turn memory (λ n. n) 0 0 true true
    ∷ packet_at_proxy (λ n. 50) world
    ∷ packet_at_receiver memory []
    ∷ answer_at_proxy (λ n. 50) world
    ∷ []

abbrev two_bytes : List ℕ
two_bytes = 7 ∷ 8 ∷ []

-- A packet, and the end of the file: here the sender exits.
abbrev exchanges : List Event
exchanges = one_packet ++ one_packet ++ one_packet

run-IsDelivering_example :
    Yields
      (IsDelivering (chunk two_bytes))
      (run (chunk two_bytes) sum32 0 lossy left_addr right_addr exchanges (launch fresh_proxy))
run-IsDelivering_example =
    run-IsDelivering (chunk two_bytes) sum32 0 lossy left_addr right_addr (chunk_short two_bytes)
      refl addrs_differ exchanges fresh_proxy refl refl

run-IsTransfer_example :
    Yields
      (IsTransfer two_bytes)
      (run (chunk two_bytes) sum32 0 lossy left_addr right_addr exchanges (launch fresh_proxy))
run-IsTransfer_example =
    run-IsTransfer two_bytes sum32 0 lossy left_addr right_addr refl addrs_differ exchanges
      fresh_proxy refl refl

round-duplicate_example :
    Yields
      (Stays stream sum32 0 memory 255 receiver [])
      (round sum32 0 memory receiver (framed sum32 (content 254) (0 ∷ 0 ∷ 0 ∷ []) ++ []) 12)
round-duplicate_example =
    round-duplicate stream sum32 0 memory 255 254 receiver (content 254) (0 ∷ 0 ∷ 0 ∷ []) [] 12
      receiver-Expects (content-IsContent 254) refl refl refl (omega arith) (omega arith)

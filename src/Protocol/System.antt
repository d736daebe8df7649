-- ===== src/Protocol/System.antt =====
-- The programs together: the sender of sel_repeat_write.c, the proxy of linksim/link_sim.c on a link
-- without delay, and the receiver of sel_repeat_read.c. A datagram may be lost on each way between
-- two programs; on each way the others keep their order. The file is read in the payloads of
-- `data_of`; once it is empty, each next payload counts as empty too.
pub mod Frames
pub mod Flow
pub mod Replies
pub mod Relay
pub mod Passing
pub mod Arrival
pub mod Consistent
pub mod Ways
pub mod ReceiverStep
pub mod ProxyStep
pub mod SenderStep
pub mod Delivery
pub mod File
use projet.Base.{
  ℕ, ◌+◌, Bool, true, false, not, Option, none, some, List, [], ◌∷◌, ◌++◌, length, if◌then◌else◌,
}
use projet.Base.Exec.{Exec, ok, ◌>>=◌}
use projet.Packet.{Pkt}
use projet.Sender.{Sender}
use projet.Sender.Loop.{turn, begin, Input}
use projet.Sender.Feed.{consumed}
use projet.Receiver.{Receiver, Output, delivered, sent, start, round}
use projet.Receiver.Stream.{written}
use projet.Link.{Settings, World}
use projet.Link.Proxy.{SockaddrIn6, sockaddr_cmp, Proxy, datagram, process_incoming_pkt}

-- The programs, the datagrams under way, the number of payloads that the sender has read, what the
-- receiver has written, and whether the sender has exited.
pub record System : Type 0 where
  pub sender : Sender
  pub proxy : Proxy
  pub receiver : Receiver
  pub to_proxy : List (List ℕ)
  pub to_receiver : List (List ℕ)
  pub answers : List (List ℕ)
  pub to_sender : List (List ℕ)
  pub taken : ℕ
  pub output : List ℕ
  pub exited : Bool

-- What can happen next. A turn of the sender has the memory of a fresh packet, the clock, the memory
-- of a field that is not set, the number of the next reading, whether the file can be read, and
-- whether the socket is read. The receiver has the memory of a fresh packet, and what its buffer
-- holds behind the datagram. A loss says for each of the four ways whether its first datagram is lost.
pub data Event : Type 0 where
  sender_turn : Pkt → (ℕ → ℕ) → ℕ → ℕ → Bool → Bool → Event
  packet_at_proxy : (ℕ → ℕ) → World → Event
  packet_at_receiver : Pkt → List ℕ → Event
  answer_at_proxy : (ℕ → ℕ) → World → Event
  lost : Bool → Bool → Bool → Bool → Event

-- What goes to an address.
abbrev pub addressed : SockaddrIn6 → List (SockaddrIn6 × List ℕ) → List (List ℕ)
addressed addr [] = []
addressed addr ((a, bytes) ∷ sendings) =
    if sockaddr_cmp a addr then addressed addr sendings else bytes ∷ addressed addr sendings

-- The datagrams among the outputs of the receiver.
abbrev pub datagrams : List Output → List (List ℕ)
datagrams [] = []
datagrams (delivered bytes ∷ out) = datagrams out
datagrams (sent bytes ∷ out) = bytes ∷ datagrams out

abbrev pub first : Bool → List (List ℕ) → Option (List ℕ)
first true (bytes ∷ queue) = some bytes
first _ _ = none

abbrev pub behind : Bool → List (List ℕ) → List (List ℕ)
behind true (bytes ∷ queue) = queue
behind _ queue = queue

-- The start: the proxy knows the host, and no source yet.
abbrev pub launch : Proxy → System
launch proxy = record {
  sender = begin;
  proxy = proxy;
  receiver = start;
  to_proxy = [];
  to_receiver = [];
  answers = [];
  to_sender = [];
  taken = 0;
  output = [];
  exited = false;
}

abbrev pub lose : Bool → Bool → Bool → Bool → System → System
lose a b c d w = record w {
  to_proxy = behind a w.to_proxy;
  to_receiver = behind b w.to_receiver;
  answers = behind c w.answers;
  to_sender = behind d w.to_sender;
}

module _ (data_of : ℕ → List ℕ) (crc32 : List ℕ → ℕ) (junk : ℕ) (settings : Settings)
    (sender_addr receiver_addr : SockaddrIn6) where
  -- A turn of the loop of the sender.
  unfoldable pub sender_step : Pkt → (ℕ → ℕ) → ℕ → ℕ → Option (List ℕ) → Bool → System → Exec System
  sender_step memory clock unread now file answered w =
      let input : Input = record { file = file; socket = first answered w.to_sender } in
      turn crc32 junk memory clock unread w.sender input now >>= λ r. ok (record w {
        sender = r.sender;
        to_proxy = w.to_proxy ++ r.sent;
        to_sender = behind answered w.to_sender;
        taken = w.taken + consumed w.sender file;
        exited = r.exits;
      })

  -- The proxy gets a datagram. Where it fails, the program ends: all later datagrams are lost.
  unfoldable pub proxy_step : (ℕ → ℕ) → World → SockaddrIn6 → List ℕ → System → Exec System
  proxy_step rand world from bytes w =
      process_incoming_pkt rand settings world w.proxy (datagram from bytes) >>= λ r. ok (record w {
        proxy = r.proxy;
        to_receiver = w.to_receiver ++ addressed receiver_addr r.sent;
        to_sender = w.to_sender ++ addressed sender_addr r.sent;
      })

  -- A round of the loop of the receiver.
  unfoldable pub receiver_step : Pkt → List ℕ → List ℕ → System → Exec System
  receiver_step memory stale bytes w =
      round crc32 junk memory w.receiver (bytes ++ stale) (length bytes) >>= λ (r, out).
      ok (record w {
        receiver = r;
        answers = w.answers ++ datagrams out;
        output = w.output ++ written out;
      })

  -- An event for which there is no datagram, or for a sender that has exited, changes nothing.
  unfoldable pub step : Event → System → Exec System
  step (sender_turn memory clock unread now readable answered) w =
      if w.exited
      then ok w
      else sender_step memory clock unread now (if readable then some (data_of w.taken) else none)
          answered w
  step (packet_at_proxy rand world) w = elim w.to_proxy [
    | [] ↦ ok w
    | bytes ∷ queue ↦ proxy_step rand world sender_addr bytes (record w { to_proxy = queue })
  ]
  step (packet_at_receiver memory stale) w = elim w.to_receiver [
    | [] ↦ ok w
    | bytes ∷ queue ↦ receiver_step memory stale bytes (record w { to_receiver = queue })
  ]
  step (answer_at_proxy rand world) w = elim w.answers [
    | [] ↦ ok w
    | bytes ∷ queue ↦ proxy_step rand world receiver_addr bytes (record w { answers = queue })
  ]
  step (lost a b c d) w = ok (lose a b c d w)

  -- Any sequence of events.
  unfoldable pub run : List Event → System → Exec System
  run [] w = ok w
  run (event ∷ events) w = step event w >>= λ w'. run events w'

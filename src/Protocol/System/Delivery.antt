-- ===== src/Protocol/System/Delivery.antt =====
-- What the programs together achieve: the file arrives.
use projet.Base.{
  if◌then◌else◌, ℕ, ◌-◌, ◌≤◌, ◌<◌, ◌≡◌, refl, Bool, true, false, none, some, List, [], ◌∷◌, arith,
  length,
}
use projet.Base.Exec.{Exec, ok, Yields, yields, Yields-bind, Yields-map, Yields-if}
use projet.Packet.{max_payload_size}
use projet.Sender.Feed.{IsNext}
use projet.Receiver.Stream.{segment}
use projet.Link.{Settings}
use projet.Link.Proxy.{SockaddrIn6, sockaddr_cmp, Proxy}
use projet.Protocol.System.{
  System, Event, sender_turn, packet_at_proxy, packet_at_receiver, answer_at_proxy, lost, launch,
  step, run,
}
use projet.Protocol.System.Consistent.{IsConsistent, IsConsistent-bounds, launch-IsConsistent}
use projet.Protocol.System.Ways.{lose-IsConsistent}
use projet.Protocol.System.SenderStep.{sender_step-IsConsistent}
use projet.Protocol.System.ProxyStep.{packet_step-IsConsistent, answer_step-IsConsistent}
use projet.Protocol.System.ReceiverStep.{receiver_step-IsConsistent}

-- The output is the start of the stream, up to the packet `n`, which the sender has read; once the
-- sender has exited, it is all that the sender has read, of which the last payload is empty.
pub record IsDelivering (data_of : ℕ → List ℕ) (w : System) : Type 0 where
  pub n : ℕ
  pub read_before : n ≤ w.taken
  pub output_eq : w.output ≡ segment data_of n 0
  pub all_read :
      w.exited ≡ true → (n ≡ w.taken) × (0 < w.taken) × (length (data_of (w.taken - 1)) ≡ 0)

-- An event that needs the first datagram of a queue.
with_first :
    {P : System → Type 0} (queue : List (List ℕ)) (w : System)
    (f : List ℕ → List (List ℕ) → Exec System)
    → P w
    → ((bytes : List ℕ) (rest : List (List ℕ)) → queue ≡ bytes ∷ rest → Yields P (f bytes rest))
    → Yields P (elim queue [ [] ↦ ok w | bytes ∷ rest ↦ f bytes rest ])
with_first [] w f p next = yields p
with_first (bytes ∷ rest) w f p next = next bytes rest refl

module _ (data_of : ℕ → List ℕ) (crc32 : List ℕ → ℕ) (junk : ℕ) (settings : Settings)
    (sender_addr receiver_addr : SockaddrIn6)
    (short : (k : ℕ) → length (data_of k) ≤ max_payload_size) (undelayed : settings.delay ≡ 0)
    (apart : sockaddr_cmp sender_addr receiver_addr ≡ true) where
  given-IsNext :
      (readable : Bool) (k : ℕ) → IsNext data_of k (if readable then some (data_of k) else none)
  given-IsNext true k = refl
  given-IsNext false k = tt

  pub step-IsConsistent :
      (event : Event) (w : System)
      → IsConsistent data_of crc32 junk sender_addr receiver_addr w
      → Yields
          (IsConsistent data_of crc32 junk sender_addr receiver_addr)
          (step data_of crc32 junk settings sender_addr receiver_addr event w)
  unfolding step
  step-IsConsistent (sender_turn memory clock unread now readable answered) w k =
      Yields-if w.exited (λ done. yields k)
        λ goes.
          sender_step-IsConsistent data_of crc32 junk settings sender_addr receiver_addr short
            memory clock unread now _ answered w (given-IsNext readable w.taken) goes k
  step-IsConsistent (packet_at_proxy rand world) w k = with_first w.to_proxy w _ k λ bytes queue e.
      packet_step-IsConsistent data_of crc32 junk settings sender_addr receiver_addr short rand
        world bytes queue w undelayed apart e k
  step-IsConsistent (packet_at_receiver memory stale) w k =
      with_first w.to_receiver w _ k λ bytes queue e.
        receiver_step-IsConsistent data_of crc32 junk settings sender_addr receiver_addr short
          memory stale bytes queue w e k
  step-IsConsistent (answer_at_proxy rand world) w k = with_first w.answers w _ k λ bytes queue e.
      answer_step-IsConsistent data_of crc32 junk settings sender_addr receiver_addr rand world
        bytes queue w apart e k
  step-IsConsistent (lost a b c d) w k =
      yields (lose-IsConsistent data_of crc32 junk sender_addr receiver_addr a b c d w k)

  pub run-IsConsistent :
      (events : List Event) (w : System)
      → IsConsistent data_of crc32 junk sender_addr receiver_addr w
      → Yields
          (IsConsistent data_of crc32 junk sender_addr receiver_addr)
          (run data_of crc32 junk settings sender_addr receiver_addr events w)
  unfolding run
  run-IsConsistent [] w k = yields k
  run-IsConsistent (event ∷ events) w k =
      Yields-bind (step-IsConsistent event w k) λ w' k'. run-IsConsistent events w' k'

  -- The sender, the proxy and the receiver run together, with payloads of at most 512 bytes, a link
  -- without delay, whatever its rates of loss, cutting and corruption, and different addresses. For
  -- every sequence of turns, of datagrams that reach the next program, each way in order, and of
  -- losses on any way, no program fails to return, and what the receiver has written is the payloads of
  -- the stream, in order and each once, up to one that the sender has read. When the sender exits,
  -- the receiver has written all payloads that were read, and the last of them is empty.
  pub run-IsDelivering :
      (events : List Event) (proxy : Proxy)
      → proxy.dest_addr ≡ receiver_addr
      → proxy.has_source_addr ≡ false
      → Yields
          (IsDelivering data_of)
          (run data_of crc32 junk settings sender_addr receiver_addr events (launch proxy))
  run-IsDelivering events proxy host unknown =
      Yields-map
        (run-IsConsistent events (launch proxy)
          (launch-IsConsistent data_of crc32 junk sender_addr receiver_addr proxy host unknown))
        λ w k.
          let (b, t, l) = IsConsistent-bounds data_of crc32 junk sender_addr receiver_addr w k in
          record {
            n = k.n;
            read_before = omega arith;
            output_eq = k.output_eq;
            all_read = k.finished;
          }

-- ===== src/Protocol/System/ReceiverStep.antt =====
-- A round of the receiver of sel_repeat_read.c keeps the programs consistent.
use projet.Base.{ℕ, ◌+◌, ◌-◌, ◌≤◌, ◌≡◌, sym, inl, inr, List, ◌∷◌, ◌++◌, arith, length}
use projet.Base.Exec.{Yields, yields, Yields-bind}
use projet.Packet.{Pkt, max_payload_size}
use projet.Receiver.Stream.{segment}
use projet.Receiver.Run.{segment-add}
use projet.Link.{Settings}
use projet.Link.Proxy.{SockaddrIn6}
use projet.Protocol.System.{System, datagrams, receiver_step}
use projet.Protocol.System.Flow.{Flow-bounds, Flow-later, IsSent}
use projet.Protocol.System.Replies.{Replies-append}
use projet.Protocol.System.Arrival.{Arrives, round-IsReceived}
use projet.Protocol.System.Consistent.{IsConsistent}

module _ (data_of : ℕ → List ℕ) (crc32 : List ℕ → ℕ) (junk : ℕ) (settings : Settings)
    (sender_addr receiver_addr : SockaddrIn6)
    (short : (k : ℕ) → length (data_of k) ≤ max_payload_size) where
  -- Two segments of the stream make one.
  segment-join :
      (n n' : ℕ) → n ≤ n' → segment data_of n 0 ++ segment data_of (n' - n) n ≡ segment data_of n' 0
  segment-join n n' h =
      let whole : n + (n' - n) ≡ n' = omega arith in
      let start : 0 + n ≡ n = omega arith in
      let sum = segment-add data_of n (n' - n) 0 in
      let joined = (rw (whole, start) at sum) in sym joined

  pub receiver_step-IsConsistent :
      (memory : Pkt) (stale bytes : List ℕ) (queue : List (List ℕ)) (w : System)
      → w.to_receiver ≡ bytes ∷ queue
      → IsConsistent data_of crc32 junk sender_addr receiver_addr w
      → Yields (IsConsistent data_of crc32 junk sender_addr receiver_addr) (
          receiver_step data_of crc32 junk settings sender_addr receiver_addr memory stale bytes
            (record w { to_receiver = queue }))
  unfolding receiver_step
  receiver_step-IsConsistent memory stale bytes queue w e k =
      let o = k.outward in
      let h = k.homeward in
      let arriving = o.arriving in
      let (p, f) = (rw e at arriving) in
      let passed = Flow-bounds (Arrives data_of crc32) k.n p.high o.relayed queue f in
      let left = Flow-bounds (IsSent data_of crc32) k.n o.relayed w.taken w.to_proxy o.leaving in
      Yields-bind
        (round-IsReceived data_of crc32 short junk memory stale k.top k.n w.taken w.receiver bytes
          k.knows p (omega arith))
        λ (r, out) a. yields (record {
          base = k.base;
          n = a.n';
          top = p.high;
          serves = k.serves;
          knows = a.knows;
          window = k.window;
          outward = record {
            relayed = o.relayed;
            arriving =
                Flow-later (Arrives data_of crc32) k.n a.n' p.high o.relayed queue a.forward f;
            leaving =
                Flow-later (IsSent data_of crc32) k.n a.n' o.relayed w.taken w.to_proxy a.forward
                  o.leaving;
          };
          homeward = record {
            returned = h.returned;
            nearing = h.nearing;
            starting =
                Replies-append crc32 h.returned k.n a.n' w.taken w.answers (datagrams out)
                  h.starting a.replies;
          };
          output_eq = rw (k.output_eq, a.bytes) (segment-join k.n a.n' a.forward);
          routing = record {
            host_eq = k.routing.host_eq;
            sourced = elim k.routing.sourced [
              | inl (unknown, none, quiet) ↦ absurd cc
              | inr known ↦ inr known
            ];
          };
          finished = λ done.
              let (all, some_sent, empty) = k.finished done in
              (omega (arith, a.forward, a.knows.behind), some_sent, empty);
        })

-- ===== src/Protocol/System/Consistent.antt =====
-- What holds of the programs together between two events.
use projet.Base.{ℕ, ◌+◌, ◌-◌, ◌≤◌, ◌<◌, ◌≡◌, refl, true, false, ◌⊎◌, inl, List, [], arith, length}
use projet.Sender.Run.{Serves, begin-Serves}
use projet.Receiver.Stream.{segment}
use projet.Receiver.Horizon.{Knows, start-Knows}
use projet.Link.Proxy.{SockaddrIn6, Proxy}
use projet.Protocol.System.{System, launch}
use projet.Protocol.System.Flow.{Flow, Flow-bounds, IsSent}
use projet.Protocol.System.Replies.{Replies, Replies-bounds}
use projet.Protocol.System.Arrival.{Arrives}

-- The proxy knows the host; as long as it knows no source, it has passed nothing on.
pub record IsRouting (sender_addr receiver_addr : SockaddrIn6) (w : System) : Type 0 where
  pub host_eq : w.proxy.dest_addr ≡ receiver_addr
  pub sourced :
      (w.proxy.has_source_addr ≡ false) × (w.to_receiver ≡ []) × (w.answers ≡ [])
      ⊎ (w.proxy.has_source_addr ≡ true) × (w.proxy.src_addr ≡ sender_addr)

module _ (data_of : ℕ → List ℕ) (crc32 : List ℕ → ℕ) (junk : ℕ)
    (sender_addr receiver_addr : SockaddrIn6) where
  -- The packets on their way: the receiver has met packets that were sent before the number `top`;
  -- those on their way from the proxy were sent before the number `relayed`, in order.
  pub record IsOutward (n top taken : ℕ) (to_receiver to_proxy : List (List ℕ)) : Type 0 where
    pub relayed : ℕ
    pub arriving : Flow (Arrives data_of crc32) n top relayed to_receiver
    pub leaving : Flow (IsSent data_of crc32) n relayed taken to_proxy

  -- The answers on their way: those up to the number `returned` come from the proxy, the later ones
  -- are on their way to it.
  pub record IsHomeward (base n taken : ℕ) (to_sender answers : List (List ℕ)) : Type 0 where
    pub returned : ℕ
    pub nearing : Replies crc32 base returned taken to_sender
    pub starting : Replies crc32 returned n taken answers

  -- The sender waits for the acknowledgement of the packet `base`, and the receiver expects the
  -- packet `n`.
  pub record IsConsistent (w : System) : Type 0 where
    pub base : ℕ
    pub n : ℕ
    pub top : ℕ
    pub serves : Serves data_of crc32 junk base w.taken w.sender
    pub knows : Knows data_of top n w.receiver
    pub window : w.taken ≤ base + 31
    pub outward : IsOutward n top w.taken w.to_receiver w.to_proxy
    pub homeward : IsHomeward base n w.taken w.to_sender w.answers
    pub output_eq : w.output ≡ segment data_of n 0
    pub routing : IsRouting sender_addr receiver_addr w
    pub finished :
        w.exited ≡ true → (n ≡ w.taken) × (0 < w.taken) × (length (data_of (w.taken - 1)) ≡ 0)

  -- The numbers are in order.
  pub IsConsistent-bounds :
      (w : System) (c : IsConsistent w) → (c.base ≤ c.n) × (c.n ≤ c.top) × (c.top ≤ w.taken)
  IsConsistent-bounds w c =
      let o = c.outward in
      let h = c.homeward in
      (
        omega (
          arith,
          Replies-bounds crc32 c.base h.returned w.taken w.to_sender h.nearing,
          Replies-bounds crc32 h.returned c.n w.taken w.answers h.starting,
        ),
        c.knows.behind,
        omega (
          arith,
          Flow-bounds (Arrives data_of crc32) c.n c.top o.relayed w.to_receiver o.arriving,
          Flow-bounds (IsSent data_of crc32) c.n o.relayed w.taken w.to_proxy o.leaving,
        ),
      )

  pub launch-IsConsistent :
      (proxy : Proxy)
      → proxy.dest_addr ≡ receiver_addr
      → proxy.has_source_addr ≡ false
      → IsConsistent (launch proxy)
  launch-IsConsistent proxy host unknown = record {
    base = 0;
    n = 0;
    top = 0;
    serves = begin-Serves data_of crc32 junk;
    knows = start-Knows data_of;
    window = omega arith;
    outward = record { relayed = 0; arriving = omega arith; leaving = omega arith };
    homeward = record { returned = 0; nearing = omega arith; starting = omega arith };
    output_eq = refl;
    routing = record { host_eq = host; sourced = inl (unknown, refl, refl) };
    finished = λ e. absurd cc;
  }

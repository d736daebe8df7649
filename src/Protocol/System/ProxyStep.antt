-- ===== src/Protocol/System/ProxyStep.antt =====
-- The passing on of a datagram by the proxy of linksim/link_sim.c keeps the programs consistent.
use mathlib.Core.Path.{subst}
use projet.Base.{
  ℕ, ◌≤◌, ◌≡◌, refl, sym, ap, ◌∙◌, true, false, ◌⊎◌, inl, inr, List, [], ◌∷◌, map, arith, length,
  append-nil,
}
use projet.Base.Exec.{Yields, yields, Yields-bind}
use projet.Packet.{max_payload_size}
use projet.Sender.Flight.{packet, packet-IsContent}
use projet.Link.{Settings, World}
use projet.Link.Proxy.{SockaddrIn6, sockaddr_cmp}
use projet.Protocol.System.{System, addressed, proxy_step}
use projet.Protocol.System.Frames.{bounds-frame}
use projet.Protocol.System.Flow.{Flow, IsPassing, Flow-append, IsSent}
use projet.Protocol.System.Replies.{IsReply, acks, nacks, IsReply-bounds, Replies, Replies-append}
use projet.Protocol.System.Relay.{
  Arriving, AtMost, nothing, just_one, sockaddr_cmp_refl, sockaddr_cmp_sym,
}
use projet.Protocol.System.Passing.{packet-IsRelayed, answer-IsRelayed}
use projet.Protocol.System.Arrival.{Arrives}
use projet.Protocol.System.Consistent.{IsConsistent}

addressed-same :
    (a : SockaddrIn6) (out : List (List ℕ)) → addressed a (map (λ bytes. (a, bytes)) out) ≡ out
addressed-same a [] = refl
addressed-same a (bytes ∷ out) = rw (sockaddr_cmp_refl a) (ap (◌∷◌ bytes) (addressed-same a out))

addressed-other :
    (a to : SockaddrIn6) (out : List (List ℕ))
    → sockaddr_cmp to a ≡ true
    → addressed a (map (λ bytes. (to, bytes)) out) ≡ []
addressed-other a to [] h = refl
addressed-other a to (bytes ∷ out) h = rw h (addressed-other a to out h)

-- An answer fits in the buffers of the proxy, and has a header.
bounds-reply :
    (crc32 : List ℕ → ℕ) (low bound next : ℕ) (bytes : List ℕ)
    → IsReply crc32 low bound next bytes
    → (4 ≤ length bytes) × (length bytes ≤ 520)
bounds-reply crc32 low bound _ _ (acks next window from narrow) = (omega arith, omega arith)
bounds-reply crc32 low bound _ _ (nacks k window from below narrow) = (omega arith, omega arith)

one-Replies :
    (crc32 : List ℕ → ℕ) (low bound next : ℕ) (bytes : List ℕ) (out : List (List ℕ))
    → IsReply crc32 low bound next bytes
    → AtMost (λ b. b ≡ bytes) out
    → Replies crc32 low next bound out
one-Replies crc32 low bound next bytes _ reply nothing =
    IsReply-bounds crc32 low bound next bytes reply
one-Replies crc32 low bound next bytes _ reply (just_one b same) =
    (next, subst (IsReply crc32 low bound next) (sym same) reply, omega arith)

module _ (data_of : ℕ → List ℕ) (crc32 : List ℕ → ℕ) (junk : ℕ) (settings : Settings)
    (sender_addr receiver_addr : SockaddrIn6) where
  one-Flow :
      (n low : ℕ) (bytes : List ℕ) (out : List (List ℕ))
      → (p : IsPassing (IsSent data_of crc32) n low bytes) → AtMost (Arriving bytes) out
      → Flow (Arrives data_of crc32) n low p.high out
  one-Flow n low bytes _ p nothing = p.later
  one-Flow n low bytes _ p (just_one b left) = (
    record {
      k = p.k;
      high = p.high;
      later = p.later;
      sent_then = p.sent_then;
      near = p.near;
      close = p.close;
      holds = subst (λ whole. Arriving whole b) p.holds left;
    },
    omega arith,
  )

  pub packet_step-IsConsistent :
      (short : (k : ℕ) → length (data_of k) ≤ max_payload_size) (rand : ℕ → ℕ) (world : World)
      (bytes : List ℕ) (queue : List (List ℕ)) (w : System)
      → settings.delay ≡ 0
      → sockaddr_cmp sender_addr receiver_addr ≡ true
      → w.to_proxy ≡ bytes ∷ queue
      → IsConsistent data_of crc32 junk sender_addr receiver_addr w
      → Yields (IsConsistent data_of crc32 junk sender_addr receiver_addr) (
          proxy_step data_of crc32 junk settings sender_addr receiver_addr rand world sender_addr
            bytes
            (record w { to_proxy = queue }))
  unfolding proxy_step
  packet_step-IsConsistent short rand world bytes queue w undelayed apart e k =
      let o = k.outward in
      let host = k.routing.host_eq in
      let leaving = o.leaving in
      let (p, f) = (rw e at leaving) in
      let (least, most) =
        bounds-frame crc32 (packet data_of p.k) (packet-IsContent data_of p.k (short p.k)) in
      let source : (w.proxy.has_source_addr ≡ false) ⊎ (w.proxy.src_addr ≡ sender_addr) =
        elim k.routing.sourced [
          | inl (unknown, none, quiet) ↦ inl unknown
          | inr (known, same) ↦ inr same
        ] in
      Yields-bind
        (packet-IsRelayed rand settings world w.proxy sender_addr bytes undelayed
          (omega (arith, ap length p.holds)) (omega (arith, ap length p.holds)) (rw host apart)
          source)
        λ r a.
          let sent : r.sent ≡ map (λ b. (receiver_addr, b)) a.out = rw (sym host) a.sent_eq in
          let onward : addressed receiver_addr r.sent ≡ a.out =
            rw sent (addressed-same receiver_addr a.out) in
          let none_back : addressed sender_addr r.sent ≡ [] = rw sent (
            addressed-other sender_addr receiver_addr a.out
              (sockaddr_cmp_sym receiver_addr sender_addr ∙ apart)) in
          yields (record {
            base = k.base;
            n = k.n;
            top = k.top;
            serves = k.serves;
            knows = k.knows;
            window = k.window;
            outward = record {
              relayed = p.high;
              arriving = rw onward (
                  Flow-append (Arrives data_of crc32) k.n k.top o.relayed p.high w.to_receiver a.out
                    o.arriving (one-Flow k.n o.relayed bytes a.out p a.one));
              leaving = f;
            };
            homeward = record {
              returned = k.homeward.returned;
              nearing = rw (none_back, append-nil w.to_sender) k.homeward.nearing;
              starting = k.homeward.starting;
            };
            output_eq = k.output_eq;
            routing = record { host_eq = a.host_eq ∙ host; sourced = inr (a.known, a.source_eq) };
            finished = k.finished;
          })

  pub answer_step-IsConsistent :
      (rand : ℕ → ℕ) (world : World) (bytes : List ℕ) (queue : List (List ℕ)) (w : System)
      → sockaddr_cmp sender_addr receiver_addr ≡ true
      → w.answers ≡ bytes ∷ queue
      → IsConsistent data_of crc32 junk sender_addr receiver_addr w
      → Yields (IsConsistent data_of crc32 junk sender_addr receiver_addr) (
          proxy_step data_of crc32 junk settings sender_addr receiver_addr rand world receiver_addr
            bytes
            (record w { answers = queue }))
  unfolding proxy_step
  answer_step-IsConsistent rand world bytes queue w apart e k =
      let h = k.homeward in
      let host = k.routing.host_eq in
      let starting = h.starting in
      let (next, reply, f) = (rw e at starting) in
      let (least, most) = bounds-reply crc32 h.returned w.taken next bytes reply in
      let (known, same) : (w.proxy.has_source_addr ≡ true) × (w.proxy.src_addr ≡ sender_addr) =
        elim k.routing.sourced [ inl (unknown, none, quiet) ↦ absurd cc | inr source ↦ source ] in
      Yields-bind
        (answer-IsRelayed rand settings world w.proxy receiver_addr sender_addr bytes least most
          host known same)
        λ r a.
          let sent = a.sent_eq in
          let onward : addressed receiver_addr r.sent ≡ [] =
            rw sent (addressed-other receiver_addr sender_addr a.out apart) in
          let back : addressed sender_addr r.sent ≡ a.out =
            rw sent (addressed-same sender_addr a.out) in
          yields (record {
            base = k.base;
            n = k.n;
            top = k.top;
            serves = k.serves;
            knows = k.knows;
            window = k.window;
            outward = record {
              relayed = k.outward.relayed;
              arriving = rw (onward, append-nil w.to_receiver) k.outward.arriving;
              leaving = k.outward.leaving;
            };
            homeward = record {
              returned = next;
              nearing = rw back (
                  Replies-append crc32 k.base h.returned next w.taken w.to_sender a.out h.nearing
                    (one-Replies crc32 h.returned w.taken next bytes a.out reply a.one));
              starting = f;
            };
            output_eq = k.output_eq;
            routing = record { host_eq = a.host_eq; sourced = inr (a.known, a.source_eq) };
            finished = k.finished;
          })

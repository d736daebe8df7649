-- ===== src/Protocol/System/SenderStep.antt =====
-- A turn of the sender of sel_repeat_write.c keeps the programs consistent.
use projet.Base.{
  ℕ, ◌+◌, ◌-◌, ◌%◌, ◌≤◌, ◌≡◌, refl, sym, ap, ◌∙◌, Bool, true, false, ◌⊎◌, inl, inr, Option, some,
  List, [], ◌∷◌, arith, length, All-weaken, take, append-nil,
}
use projet.Base.Exec.{Yields, yields, Yields-bind}
use projet.Packet.{Pkt, ptype_ack, ptype_nack, max_payload_size}
use projet.Packet.Wire.{control, control-IsContent, frame}
use projet.Packet.Unique.{framed_unique}
use projet.Sender.Loop.{Input}
use projet.Sender.Feed.{IsNext, consumed}
use projet.Sender.Incoming.{Acknowledges}
use projet.Sender.Timely.{ack-IsTimely, nack-IsTimely}
use projet.Sender.Turn.{IsExpected, IsAckOf}
use projet.Sender.Run.{step-Serves, turn-step}
use projet.Link.{Settings}
use projet.Link.Proxy.{SockaddrIn6}
use projet.Protocol.System.{System, first, behind, sender_step}
use projet.Protocol.System.Frames.{frame-IsByte}
use projet.Protocol.System.Flow.{Flow-append, Flow-IsSent, IsSent}
use projet.Protocol.System.Replies.{
  IsReply, acks, nacks, Replies, Replies-bounds, Replies-lower, Replies-later,
}
use projet.Protocol.System.Consistent.{IsConsistent, IsConsistent-bounds}
use projet.Protocol.System.Ways.{Replies-behind}

module _ (crc32 : List ℕ → ℕ) where
  -- The sender may get such an answer.
  reply-IsExpected :
      (base taken next : ℕ) (bytes : List ℕ)
      → IsReply crc32 base taken next bytes
      → base ≤ taken
      → next ≤ taken
      → IsExpected crc32 base (taken - base) (some bytes)
  reply-IsExpected base taken _ _ (acks next window from narrow) h near =
      let same : next ≡ base + (next - base) = omega arith in
      let timely =
        ack-IsTimely crc32 base (taken - base) (next - base) window (omega arith) narrow in
      let back = sym same in
      (
        frame-IsByte crc32 ptype_ack window (next % 256) (omega arith) narrow (omega arith),
        (rw back at timely),
      )
  reply-IsExpected base taken _ _ (nacks k window from below narrow) h near =
      let same : k ≡ base + (k - base) = omega arith in
      let timely = nack-IsTimely crc32 base (taken - base) (k - base) window (omega arith) narrow in
      let back = sym same in
      (
        frame-IsByte crc32 ptype_nack window (k % 256) (omega arith) narrow (omega arith),
        (rw back at timely),
      )

  -- It acknowledges what the receiver meant, and nothing if it is a NACK.
  reply-base :
      (base taken next d : ℕ) (bytes : List ℕ)
      → IsReply crc32 base taken next bytes
      → next ≤ base + 31
      → d ≤ 31
      → Acknowledges crc32 (base + d) (take 8 bytes)
      → base + d ≡ next
  reply-base base taken _ d _ (acks next window from narrow) near few a =
      let c = control ptype_ack window (next % 256) in
      let equal =
        framed_unique crc32 c a.content [] a.filler [] a.rest 8
          (control-IsContent ptype_ack window (next % 256) (inl refl) narrow (omega arith)) a.valid
          refl a.filled refl a.sized (append-nil (frame crc32 c) ∙ a.wire) in
      omega (arith, ap (λ c. c.seqnum) equal, a.numbered)
  reply-base base taken _ d _ (nacks k window from below narrow) near few a =
      let c = control ptype_nack window (k % 256) in
      let equal =
        framed_unique crc32 c a.content [] a.filler [] a.rest 8
          (control-IsContent ptype_nack window (k % 256) (inr refl) narrow (omega arith)) a.valid
          refl a.filled refl a.sized (append-nil (frame crc32 c) ∙ a.wire) in
      absurd (omega (arith, ap (λ c. c.type) equal, a.typed))

  -- What the socket gives may come.
  first-IsExpected :
      (answered : Bool) (base top taken : ℕ) (queue : List (List ℕ))
      → Replies crc32 base top taken queue
      → base ≤ taken
      → top ≤ taken
      → IsExpected crc32 base (taken - base) (first answered queue)
  first-IsExpected false base top taken queue f h near = tt
  first-IsExpected true base top taken [] f h near = tt
  first-IsExpected true base top taken (bytes ∷ queue) (next, reply, f) h near =
      reply-IsExpected base taken next bytes reply h
        (omega (arith, Replies-bounds crc32 next top taken queue f))

  -- The answers behind an acknowledgement are about the packets that it does not acknowledge.
  behind-ack :
      (answered : Bool) (base top taken d : ℕ) (queue : List (List ℕ))
      → Replies crc32 base top taken queue
      → top ≤ base + 31
      → d ≤ 31
      → IsAckOf crc32 (first answered queue) (base + d)
      → Replies crc32 (base + d) top taken (behind answered queue)
  behind-ack false base top taken d queue f near few a = absurd a
  behind-ack true base top taken d [] f near few a = absurd a
  behind-ack true base top taken d (bytes ∷ queue) (next, reply, f) near few a =
      let least = Replies-bounds crc32 next top taken queue f in
      let same = reply-base base taken next d bytes reply (omega arith) few a in
      Replies-lower crc32 next (base + d) top taken queue (omega arith) f

  behind-Replies :
      (answered : Bool) (base top taken d : ℕ) (queue : List (List ℕ))
      → Replies crc32 base top taken queue
      → top ≤ base + 31
      → d ≤ 31
      → (d ≡ 0) ⊎ IsAckOf crc32 (first answered queue) (base + d)
      → Replies crc32 (base + d) top taken (behind answered queue)
  behind-Replies answered base top taken d queue f near few (inr a) =
      behind-ack answered base top taken d queue f near few a
  behind-Replies answered base top taken d queue f near few (inl none_left) =
      let same : base + d ≡ base = omega arith in
      rw same (Replies-behind crc32 answered base top taken queue f)

module _ (data_of : ℕ → List ℕ) (crc32 : List ℕ → ℕ) (junk : ℕ) (settings : Settings)
    (sender_addr receiver_addr : SockaddrIn6)
    (short : (k : ℕ) → length (data_of k) ≤ max_payload_size) where
  pub sender_step-IsConsistent :
      (memory : Pkt) (clock : ℕ → ℕ) (unread now : ℕ) (file : Option (List ℕ)) (answered : Bool)
      (w : System)
      → IsNext data_of w.taken file
      → w.exited ≡ false
      → IsConsistent data_of crc32 junk sender_addr receiver_addr w
      → Yields (IsConsistent data_of crc32 junk sender_addr receiver_addr) (
          sender_step data_of crc32 junk settings sender_addr receiver_addr memory clock unread now
            file answered w)
  unfolding sender_step
  sender_step-IsConsistent memory clock unread now file answered w next goes k =
      let o = k.outward in
      let h = k.homeward in
      let (b, t, l) = IsConsistent-bounds data_of crc32 junk sender_addr receiver_addr w k in
      let returned = Replies-bounds crc32 h.returned k.n w.taken w.answers h.starting in
      let input : Input = record { file = file; socket = first answered w.to_sender } in
      let span = k.serves.span in
      Yields-bind
        (turn-step data_of crc32 junk short k.base w.taken w.sender k.serves memory clock unread
          input now next
          (first-IsExpected crc32 answered k.base h.returned w.taken w.to_sender h.nearing
            (omega arith) (omega arith)))
        λ r p.
          let few : p.d ≤ 31 = omega (arith, p.count, p.room) in
          let serves = step-Serves data_of crc32 junk k.base w.taken w.sender input r k.serves p in
          let more = p.more_eq in
          let taken' = w.taken + consumed w.sender file in
          let same : w.taken + p.more ≡ taken' = ap (λ m. w.taken + m) more in
          let high : taken' ≤ k.base + 31 = omega (arith, p.room, span, same) in
          let nearing' =
            behind-Replies crc32 answered k.base h.returned w.taken p.d w.to_sender h.nearing
              (omega (arith, k.window)) few p.caused in
          yields (record {
            base = k.base + p.d;
            n = k.n;
            top = k.top;
            serves = (rw same at serves);
            knows = k.knows;
            window = omega arith;
            outward = record {
              relayed = o.relayed;
              arriving = o.arriving;
              leaving = rw p.sent_eq (
                  Flow-append (IsSent data_of crc32) k.n o.relayed w.taken taken' w.to_proxy _
                    o.leaving
                    (Flow-IsSent data_of crc32 k.n k.base w.taken taken' p.numbers (omega arith)
                      (omega arith) high
                      (All-weaken _ _ _ (λ i (from, to). (from, omega (arith, span, same)))
                        p.within)));
            };
            homeward = record {
              returned = h.returned;
              nearing =
                  Replies-later crc32 (k.base + p.d) h.returned w.taken taken'
                    (behind answered w.to_sender) (omega arith) nearing';
              starting =
                  Replies-later crc32 h.returned k.n w.taken taken' w.answers (omega arith)
                    h.starting;
            };
            output_eq = k.output_eq;
            routing = record { host_eq = k.routing.host_eq; sourced = k.routing.sourced };
            finished = λ done.
                let (none_left, closed) = p.exits_last done in
                let (some_sent, empty) = serves.closed closed in
                let least =
                  Replies-bounds crc32 (k.base + p.d) h.returned w.taken
                    (behind answered w.to_sender) nearing' in
                (
                  omega (arith, p.count, span, none_left, same),
                  omega (arith, same),
                  (rw same at empty),
                );
          })

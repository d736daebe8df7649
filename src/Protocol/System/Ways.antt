-- ===== src/Protocol/System/Ways.antt =====
-- The loss of a datagram keeps the programs consistent.
use projet.Base.{ℕ, ◌≡◌, ap, Bool, true, false, inl, inr, List, [], ◌∷◌}
use projet.Link.Proxy.{SockaddrIn6}
use projet.Protocol.System.{System, behind, lose}
use projet.Protocol.System.Flow.{Flow, Flow-lower, IsSent}
use projet.Protocol.System.Replies.{Replies, Replies-lower, IsReply-bounds}
use projet.Protocol.System.Arrival.{Arrives}
use projet.Protocol.System.Consistent.{IsConsistent}

Flow-behind :
    (P : ℕ → List ℕ → Type 0) (b : Bool) (n low top : ℕ) (queue : List (List ℕ))
    → Flow P n low top queue
    → Flow P n low top (behind b queue)
Flow-behind P false n low top queue f = f
Flow-behind P true n low top [] f = f
Flow-behind P true n low top (bytes ∷ queue) (p, f) = Flow-lower P n p.high low top queue p.later f

pub Replies-behind :
    (crc32 : List ℕ → ℕ) (b : Bool) (low top bound : ℕ) (queue : List (List ℕ))
    → Replies crc32 low top bound queue
    → Replies crc32 low top bound (behind b queue)
Replies-behind crc32 false low top bound queue f = f
Replies-behind crc32 true low top bound [] f = f
Replies-behind crc32 true low top bound (bytes ∷ queue) (next, reply, f) =
    Replies-lower crc32 next low top bound queue (IsReply-bounds crc32 low bound next bytes reply) f

behind-nil : (b : Bool) (queue : List (List ℕ)) → queue ≡ [] → behind b queue ≡ []
behind-nil true queue e = ap (behind true) e
behind-nil false queue e = e

module _ (data_of : ℕ → List ℕ) (crc32 : List ℕ → ℕ) (junk : ℕ)
    (sender_addr receiver_addr : SockaddrIn6) where
  pub lose-IsConsistent :
      (a b c d : Bool) (w : System)
      → IsConsistent data_of crc32 junk sender_addr receiver_addr w
      → IsConsistent data_of crc32 junk sender_addr receiver_addr (lose a b c d w)
  lose-IsConsistent a b c d w k =
      let o = k.outward in
      let h = k.homeward in
      record {
        base = k.base;
        n = k.n;
        top = k.top;
        serves = k.serves;
        knows = k.knows;
        window = k.window;
        outward = record {
          relayed = o.relayed;
          arriving =
              Flow-behind (Arrives data_of crc32) b k.n k.top o.relayed w.to_receiver o.arriving;
          leaving = Flow-behind (IsSent data_of crc32) a k.n o.relayed w.taken w.to_proxy o.leaving;
        };
        homeward = record {
          returned = h.returned;
          nearing = Replies-behind crc32 d k.base h.returned w.taken w.to_sender h.nearing;
          starting = Replies-behind crc32 c h.returned k.n w.taken w.answers h.starting;
        };
        output_eq = k.output_eq;
        routing = record {
          host_eq = k.routing.host_eq;
          sourced = elim k.routing.sourced [
            | inl (unknown, none, quiet) ↦
                inl (unknown, behind-nil b w.to_receiver none, behind-nil c w.answers quiet)
            | inr known ↦ inr known
          ];
        };
        finished = k.finished;
      }

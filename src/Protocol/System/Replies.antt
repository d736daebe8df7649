-- ===== src/Protocol/System/Replies.antt =====
-- The answers on the way to the sender, in the order in which the receiver has sent them.
use projet.Base.{ℕ, ◌%◌, ◌≤◌, ◌<◌, List, [], ◌∷◌, ◌++◌, arith}
use mathlib.Core.Path.{subst, sym}
use projet.Packet.{ptype_ack, ptype_nack, max_window_size}
use projet.Packet.Wire.{control, frame}
use projet.Receiver.{Output, delivered, sent}
use projet.Receiver.Stream.{Acks}
use projet.Protocol.System.{datagrams}

-- An answer of the receiver: an ACK of all packets before the number `low'`, which is at least `low`;
-- or a NACK of a number from `low` on and below `bound`, where `low'` is `low`.
pub data IsReply (crc32 : List ℕ → ℕ) (low bound : ℕ) : ℕ → List ℕ → Type 0 where
  acks :
      (low' window : ℕ)
      → low ≤ low'
      → window ≤ max_window_size
      → IsReply crc32 low bound low' (frame crc32 (control ptype_ack window (low' % 256)))
  nacks :
      (k window : ℕ)
      → low ≤ k
      → k < bound
      → window ≤ max_window_size
      → IsReply crc32 low bound low (frame crc32 (control ptype_nack window (k % 256)))

module _ (crc32 : List ℕ → ℕ) where
  -- The acknowledged numbers do not go down, from `low` on, and are at most `top`.
  abbrev pub Replies : ℕ → ℕ → ℕ → List (List ℕ) → Type 0
  Replies low top bound [] = low ≤ top
  Replies low top bound (bytes ∷ queue) =
      (low' : ℕ) × IsReply crc32 low bound low' bytes × Replies low' top bound queue

  pub IsReply-bounds :
      (low bound low' : ℕ) (bytes : List ℕ) → IsReply crc32 low bound low' bytes → low ≤ low'
  IsReply-bounds low bound _ _ (acks low' window from narrow) = from
  IsReply-bounds low bound _ _ (nacks k window from below narrow) = omega arith

  pub Replies-bounds :
      (low top bound : ℕ) (queue : List (List ℕ)) → Replies low top bound queue → low ≤ top
  Replies-bounds low top bound [] f = f
  Replies-bounds low top bound (bytes ∷ queue) (low', p, f) =
      omega (arith, IsReply-bounds low bound low' bytes p, Replies-bounds low' top bound queue f)

  IsReply-lower :
      (low low' bound next : ℕ) (bytes : List ℕ)
      → low' ≤ low
      → IsReply crc32 low bound next bytes
      → (next' : ℕ) × (next' ≤ next) × IsReply crc32 low' bound next' bytes
  IsReply-lower low low' bound _ _ h (acks next window from narrow) =
      (next, omega arith, acks next window (omega arith) narrow)
  IsReply-lower low low' bound _ _ h (nacks k window from below narrow) =
      (low', omega arith, nacks k window (omega arith) below narrow)

  pub Replies-lower :
      (low low' top bound : ℕ) (queue : List (List ℕ))
      → low' ≤ low
      → Replies low top bound queue
      → Replies low' top bound queue
  Replies-lower low low' top bound [] h f = omega arith
  Replies-lower low low' top bound (bytes ∷ queue) h (next, reply, f) =
      let (next', down, reply') = IsReply-lower low low' bound next bytes h reply in
      (next', reply', Replies-lower next next' top bound queue down f)

  IsReply-later :
      (low bound bound' next : ℕ) (bytes : List ℕ)
      → bound ≤ bound'
      → IsReply crc32 low bound next bytes
      → IsReply crc32 low bound' next bytes
  IsReply-later low bound bound' _ _ h (acks next window from narrow) = acks next window from narrow
  IsReply-later low bound bound' _ _ h (nacks k window from below narrow) =
      nacks k window from (omega arith) narrow

  -- More packets have been sent.
  pub Replies-later :
      (low top bound bound' : ℕ) (queue : List (List ℕ))
      → bound ≤ bound'
      → Replies low top bound queue
      → Replies low top bound' queue
  Replies-later low top bound bound' [] h f = f
  Replies-later low top bound bound' (bytes ∷ queue) h (next, reply, f) = (
    next,
    IsReply-later low bound bound' next bytes h reply,
    Replies-later next top bound bound' queue h f,
  )

  pub Replies-append :
      (low mid top bound : ℕ) (front back : List (List ℕ))
      → Replies low mid bound front
      → Replies mid top bound back
      → Replies low top bound (front ++ back)
  Replies-append low mid top bound [] back f g = Replies-lower mid low top bound back f g
  Replies-append low mid top bound (bytes ∷ front) back (low', p, f) g =
      (low', p, Replies-append low' mid top bound front back f g)

  -- The acknowledgements that a receiver sends.
  pub Replies-Acks :
      (low top bound : ℕ) (out : List Output)
      → Acks crc32 low top out
      → Replies low top bound (datagrams out)
  Replies-Acks low top bound [] a = a
  Replies-Acks low top bound (delivered bytes ∷ out) a = Replies-Acks low top bound out a
  Replies-Acks low top bound (sent bytes ∷ out) (number, window, from, narrow, same, later) = (
    number,
    subst (IsReply crc32 low bound number) (sym same) (acks number window from narrow),
    Replies-Acks number top bound out later,
  )

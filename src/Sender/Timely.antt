-- ===== src/Sender/Timely.antt =====
-- Which datagrams a receiver may send now: the acknowledgements and negative acknowledgements of what
-- is in flight, and bytes that are no packet at all.
use mathlib.Core.Path.{subst}
use projet.Base.{ℕ, ◌+◌, ◌%◌, ◌≤◌, ◌<◌, refl, ◌∙◌, List, [], arith, length, append-nil, inl, inr}
use projet.Packet.{ptype_ack, ptype_nack, max_window_size}
use projet.Packet.Wire.{IsContent, control, control-IsContent, frame}
use projet.Packet.Unique.{framed_unique}
use projet.Sender.Incoming.{IsCurrent, acks, nacks, IsTimely}

module _ (crc32 : List ℕ → ℕ) where
  control-IsTimely :
      (base len : ℕ) (type window seqnum : ℕ)
      → IsContent (control type window seqnum)
      → IsCurrent base len (control type window seqnum)
      → IsTimely crc32 base len (frame crc32 (control type window seqnum))
  control-IsTimely base len type window seqnum v current c filler rest v' f s same =
      let c₀ = control type window seqnum in
      let equal =
        framed_unique crc32 c₀ c [] filler [] rest (length (frame crc32 c₀)) v v' refl f refl s
          (append-nil (frame crc32 c₀) ∙ same) in
      subst (IsCurrent base len) equal current

  pub ack-IsTimely :
      (base len d window : ℕ)
      → d ≤ len
      → window ≤ max_window_size
      → IsTimely crc32 base len (frame crc32 (control ptype_ack window ((base + d) % 256)))
  ack-IsTimely base len d window most narrow =
      control-IsTimely base len ptype_ack window ((base + d) % 256)
        (control-IsContent ptype_ack window ((base + d) % 256) (inl refl) narrow (omega arith))
        (acks d refl most refl)

  pub nack-IsTimely :
      (base len d window : ℕ)
      → d < len
      → window ≤ max_window_size
      → IsTimely crc32 base len (frame crc32 (control ptype_nack window ((base + d) % 256)))
  nack-IsTimely base len d window inside narrow =
      control-IsTimely base len ptype_nack window ((base + d) % 256)
        (control-IsContent ptype_nack window ((base + d) % 256) (inr refl) narrow (omega arith))
        (nacks d refl inside refl)

  -- Bytes that are too few for a packet.
  pub short-IsTimely :
      (base len : ℕ) (bytes : List ℕ) → length bytes < 8 → IsTimely crc32 base len bytes
  short-IsTimely base len bytes h c filler rest v f s e = absurd (omega arith)

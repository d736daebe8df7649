-- ===== src/Packet/Setters.antt =====
-- The setters keep every field within its range, whatever the calls and their order.
use projet.Base.{
  ℕ, ◌^◌, ◌≤◌, ◌<◌, ◌≡◌, refl, sym, ap₂, ◌∙◌, length, ◌⊎◌, inl, inr, List, [], ◌∷◌, arith, All,
  dec_le, split_at, drop,
}
use projet.Base.Exec.{Exec, ok, ◌>>=◌, Yields, yields, Yields-bind}
use projet.Packet.Payload.{pkt_set_payload-ok, pkt_set_payload-long}
use projet.Base.Word.{u8, u16, u32}
use projet.Packet.{
  Pkt, Status, pkt_ok, ptype_data, ptype_ack, ptype_nack, max_window_size, max_payload_size,
  pkt_set_type, pkt_set_window, pkt_set_seqnum, pkt_set_length, pkt_set_crc, pkt_set_payload,
}

pub record InRange (pkt : Pkt) : Type 0 where
  pub typed : (pkt.type ≡ ptype_data) ⊎ ((pkt.type ≡ ptype_ack) ⊎ (pkt.type ≡ ptype_nack))
  pub narrow : pkt.window ≤ max_window_size
  pub numbered : pkt.seqnum < 256
  pub short : pkt.length ≤ max_payload_size
  pub summed : pkt.crc < 2 ^ 32

-- A call of a setter; its argument is converted to the type of the parameter. The payload comes from
-- an array, with its stated length.
pub data SetCall : Type 0 where
  set_type set_window set_seqnum set_length set_crc : ℕ → SetCall
  set_payload : List ℕ → ℕ → SetCall

-- The array of a payload holds as many bytes as are stated.
abbrev pub IsReadable : SetCall → Type 0
IsReadable (set_payload bytes n) = u16 n ≤ length bytes
IsReadable _ = Unit

-- `junk` is what a byte of a fresh block holds.
module _ (junk : ℕ) where
  abbrev pub call : SetCall → Pkt → Exec (Status × Pkt)
  call (set_type n) pkt = ok (pkt_set_type pkt n)
  call (set_window n) pkt = ok (pkt_set_window pkt (u8 n))
  call (set_seqnum n) pkt = ok (pkt_set_seqnum pkt (u8 n))
  call (set_length n) pkt = ok (pkt_set_length pkt (u16 n))
  call (set_crc n) pkt = ok (pkt_set_crc pkt (u32 n))
  call (set_payload bytes n) pkt = pkt_set_payload junk pkt bytes (u16 n)

  abbrev pub calls : List SetCall → Pkt → Exec Pkt
  calls [] pkt = ok pkt
  calls (c ∷ cs) pkt = call c pkt >>= λ (status, pkt'). calls cs pkt'

  -- The packet is in range, and as before if the answer is not PKT_OK.
  abbrev pub IsCalled : Pkt → Status × Pkt → Type 0
  IsCalled pkt (status, pkt') = InRange pkt' × ((status ≡ pkt_ok) ⊎ (pkt' ≡ pkt))

  payload-IsCalled :
      (bytes : List ℕ) (n : ℕ) (pkt : Pkt)
      → n ≤ length bytes
      → InRange pkt
      → Yields (IsCalled pkt) (pkt_set_payload junk pkt bytes n)
  payload-IsCalled bytes n pkt readable v = elim (dec_le n max_payload_size) [
    | no long ↦ rw (pkt_set_payload-long junk pkt bytes n (omega arith)) (yields (v, inr refl))
    | yes short ↦
        let (front, sized, cut, _) = split_at n bytes readable in
        let stored : pkt_set_payload junk pkt bytes n ≡ _ =
          ap₂ (pkt_set_payload junk pkt) cut (sym sized)
          ∙ pkt_set_payload-ok junk pkt front (drop n bytes) (omega (arith, sized)) in
        rw stored (
          yields (
            record {
              typed = v.typed;
              narrow = v.narrow;
              numbered = v.numbered;
              short = omega (arith, sized);
              summed = v.summed;
            },
            inl refl,
          ))
  ]

  call-IsCalled :
      (c : SetCall) (pkt : Pkt) → IsReadable c → InRange pkt → Yields (IsCalled pkt) (call c pkt)
  unfolding pkt_set_type pkt_set_window pkt_set_seqnum pkt_set_length pkt_set_crc
  call-IsCalled (set_type n) pkt r v = yields (ground arith)
  call-IsCalled (set_window n) pkt r v = yields (ground arith)
  call-IsCalled (set_seqnum n) pkt r v = yields (ground arith)
  call-IsCalled (set_length n) pkt r v = yields (ground arith)
  call-IsCalled (set_crc n) pkt r v = yields (ground arith)
  call-IsCalled (set_payload bytes n) pkt r v = payload-IsCalled bytes (u16 n) pkt r v

  -- Any calls of the six setters return, where each payload is read from an array that holds as many
  -- bytes as are stated. After them every field is within its range, if it was so before; and a
  -- further call that does not answer PKT_OK changes nothing.
  pub calls-InRange :
      (cs : List SetCall) (c : SetCall) (pkt : Pkt)
      → InRange pkt
      → All IsReadable cs
      → IsReadable c
      → Yields (λ pkt'. InRange pkt' × Yields (IsCalled pkt') (call c pkt')) (calls cs pkt)
  calls-InRange [] c pkt v rs r = yields (v, call-IsCalled c pkt r v)
  calls-InRange (d ∷ cs) c pkt v (first, rs) r =
      Yields-bind (call-IsCalled d pkt first v)
        λ (status, pkt') (v', _). calls-InRange cs c pkt' v' rs r

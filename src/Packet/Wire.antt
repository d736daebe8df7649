-- ===== src/Packet/Wire.antt =====
-- The format of a packet on the wire, as the protocol describes it: a header of four bytes, the
-- payload filled up to a multiple of four, and the CRC32 of both; numbers are in network order.
use projet.Base.{
  ℕ, ◌+◌, ◌-◌, ◌*◌, ◌/◌, ◌%◌, ◌^◌, ◌≤◌, ◌<◌, ◌≡◌, ◌⊎◌, List, [], ◌∷◌, ◌++◌, length, replicate, refl,
  arith, inr,
}
use projet.Packet.{
  Pkt, ptype_data, ptype_ack, ptype_nack, max_window_size, max_payload_size, bytes_at,
}

-- What a packet says, apart from its representation.
pub record Content : Type 0 where
  pub type : ℕ
  pub window : ℕ
  pub seqnum : ℕ
  pub payload : List ℕ

-- Only a data packet has a payload.
pub record IsContent (c : Content) : Type 0 where
  pub typed : (c.type ≡ ptype_data) ⊎ ((c.type ≡ ptype_ack) ⊎ (c.type ≡ ptype_nack))
  pub narrow : c.window ≤ max_window_size
  pub numbered : c.seqnum < 256
  pub short : length c.payload ≤ max_payload_size
  pub carried : (c.type ≡ ptype_data) ⊎ (length c.payload ≡ 0)

abbrev pub IsByte : ℕ → Type 0
IsByte b = b < 256

abbrev pub be16 : ℕ → List ℕ
be16 n = n / 256 % 256 ∷ n % 256 ∷ []

abbrev pub be32 : ℕ → List ℕ
be32 n = n / 2 ^ 24 % 256 ∷ n / 2 ^ 16 % 256 ∷ n / 2 ^ 8 % 256 ∷ n % 256 ∷ []

-- The bytes missing to a multiple of four.
abbrev pub gap : ℕ → ℕ
gap n = (4 - n % 4) % 4

-- Header, payload and filling: what the CRC covers.
abbrev pub covered : Content → List ℕ → List ℕ
covered c filler =
    (c.type * 32 + c.window) ∷ c.seqnum ∷ be16 (length c.payload) ++ (c.payload ++ filler)

-- The size of a packet on the wire.
abbrev pub size : Content → ℕ
size c = 8 + length c.payload + gap (length c.payload)

module _ (crc32 : List ℕ → ℕ) where
  -- A packet whose filling holds any bytes.
  abbrev pub framed : Content → List ℕ → List ℕ
  framed c filler = covered c filler ++ be32 (crc32 (covered c filler) % 2 ^ 32)

  -- A packet filled with zeros.
  abbrev pub frame : Content → List ℕ
  frame c = framed c (replicate (gap (length c.payload)) 0)

-- The packet structure says `c`; its block may hold more than the payload.
pub record Represents (pkt : Pkt) (c : Content) : Type 0 where
  pub type_eq : pkt.type ≡ c.type
  pub window_eq : pkt.window ≡ c.window
  pub seqnum_eq : pkt.seqnum ≡ c.seqnum
  pub length_eq : pkt.length ≡ length c.payload
  pub beyond : List ℕ
  pub payload_eq : bytes_at pkt.payload ≡ c.payload ++ beyond

-- A packet without payload.
abbrev pub control : ℕ → ℕ → ℕ → Content
control type window seqnum = record { type = type; window = window; seqnum = seqnum; payload = [] }

pub control-IsContent :
    (type window seqnum : ℕ)
    → (type ≡ ptype_ack) ⊎ (type ≡ ptype_nack)
    → window ≤ max_window_size
    → seqnum < 256
    → IsContent (control type window seqnum)
control-IsContent type window seqnum t w s = record {
  typed = inr t;
  narrow = w;
  numbered = s;
  short = omega arith;
  carried = inr refl;
}

-- ===== src/Packet/Decode/Refuse.antt =====
-- The packets that `pkt_decode` refuses before it looks at the checksum, and with which status.
use projet.Base.{
  ℕ, ◌+◌, ◌*◌, ◌/◌, ◌%◌, ◌≤◌, ◌<◌, ◌≡◌, Bool, true, false, List, ◌∷◌, arith, length, ltb, ◌==◌, not,
  ◌&&◌, leb, ◌||◌, if◌then◌else◌, Bool-cases, inl, inr,
}
use projet.Base.Exec.{Yields-if, Yields, yields}
use projet.Base.Word.{u16}
use projet.Packet.{
  ptype_data, ptype_ack, ptype_nack, Pkt, Status, pkt_ok, e_type, e_length, e_unconsistent,
  pkt_get_type, pkt_get_length, pkt_set_type, pkt_set_window, pkt_set_seqnum, pkt_set_length,
}
use projet.Packet.Wire.{gap}
use projet.Packet.Payload.{padding_of-eq-gap}
use projet.Packet.Decode.{failed, pkt_decode}
use projet.Packet.Decode.Parts.{read_header_lem}

-- The first three bits name one of the three packet types.
abbrev pub is_type : ℕ → Bool
is_type t = t == ptype_data || t == ptype_ack || t == ptype_nack

-- What the protocol asks of a header `type`, `length` and the number of bytes received.
abbrev pub in_order : ℕ → ℕ → ℕ → Bool
in_order type length len =
    is_type type
    && leb length 512
    && (type == ptype_data || length == 0)
    && length + 8 + gap length == u16 len

-- The status of a packet that is not in order, in the order of the checks.
abbrev pub refusal : ℕ → ℕ → ℕ → Status
refusal type length len =
    if ltb len 8
    then e_unconsistent
    else if not (len % 4 == 0)
    then e_unconsistent
    else if not (is_type type)
    then e_type
    else if ltb 512 length
    then e_length
    else e_unconsistent

-- What a refused packet leaves: the status, and the fields that were in range.
pub record IsRefused (type window seqnum length len : ℕ) (pkt₀ : Pkt) (r : Status × Pkt)
    : Type 0 where
  pub status : r.0 ≡ refusal type length len
  pub type_kept : is_type type ≡ false → r.1.type ≡ pkt₀.type
  pub type_stored : is_type type ≡ true → r.1.type ≡ type
  pub length_kept : 512 < length → r.1.length ≡ pkt₀.length
  pub length_stored : length ≤ 512 → r.1.length ≡ length
  pub window_stored : r.1.window ≡ window
  pub seqnum_stored : r.1.seqnum ≡ seqnum
  pub payload_kept : r.1.payload ≡ pkt₀.payload

pkt_set_type-ok :
    (pkt : Pkt) (t : ℕ) → is_type t ≡ true → pkt_set_type pkt t ≡ (pkt_ok, record pkt { type = t })
unfolding pkt_set_type
pkt_set_type-ok pkt t h = ground arith

pkt_set_type-bad : (pkt : Pkt) (t : ℕ) → is_type t ≡ false → pkt_set_type pkt t ≡ (e_type, pkt)
unfolding pkt_set_type
pkt_set_type-bad pkt t h = ground arith

pkt_set_window-ok :
    (pkt : Pkt) (d : ℕ) → pkt_set_window pkt (d % 32) ≡ (pkt_ok, record pkt { window = d % 32 })
unfolding pkt_set_window
pkt_set_window-ok pkt d = ground arith

pkt_set_length-ok :
    (pkt : Pkt) (n : ℕ)
    → ltb 512 n ≡ false
    → pkt_set_length pkt n ≡ (pkt_ok, record pkt { length = n })
unfolding pkt_set_length
pkt_set_length-ok pkt n h = rw h

pkt_set_length-long :
    (pkt : Pkt) (n : ℕ) → ltb 512 n ≡ true → pkt_set_length pkt n ≡ (e_length, pkt)
unfolding pkt_set_length
pkt_set_length-long pkt n h = rw h

-- The length as it is read, with the sign of the first byte.
abbrev claimed : ℕ → ℕ → ℕ
claimed d₂ d₃ = if ltb d₂ 128 then d₂ * 256 + d₃ else d₂ * 256 + 255

module _ (crc32 : List ℕ → ℕ) (junk : ℕ) (d₀ d₁ d₂ d₃ : ℕ) (tail : List ℕ) (len : ℕ) (pkt₀ : Pkt)
    (h₀ : d₀ < 256) (h₁ : d₁ < 256) (h₂ : d₂ < 256) (h₃ : d₃ < 256) where
  -- A packet of at least four bytes whose header is not in order, its length read in network order,
  -- is answered by the status above, without a look at the bytes behind the header. A type that is
  -- none of the three leaves the type of the packet structure as it was, and a length above 512
  -- leaves its length; the window and the sequence number are stored.
  pub pkt_decode-refusal :
      4 ≤ len
      → in_order (d₀ / 32) (d₂ * 256 + d₃) len ≡ false
      → Yields
          (IsRefused (d₀ / 32) (d₀ % 32) d₁ (d₂ * 256 + d₃) len pkt₀)
          (pkt_decode crc32 junk (d₀ ∷ d₁ ∷ d₂ ∷ d₃ ∷ tail) len pkt₀)
  unfolding pkt_decode pkt_get_length pkt_get_type failed pkt_set_seqnum
  pkt_decode-refusal h bad =
      let n = claimed d₂ d₃ in
      let read = read_header_lem d₀ d₁ d₂ d₃ tail pkt₀ h₀ h₂ h₃ in
      elim (Bool-cases (is_type (d₀ / 32))) [
        | inl typed ↦ elim (Bool-cases (ltb 512 n)) [
          | inl long ↦
              rw
                (
                  read,
                  pkt_set_type-ok pkt₀ (d₀ / 32) typed,
                  pkt_set_window-ok _ d₀,
                  pkt_set_length-long _ n long,
                )
                (grind (arith, padding_of-eq-gap n, yields))
          | inr short ↦
              let t = d₀ / 32 in
              let long : ltb len 4 ≡ false = ground arith in
              let n_eq : n ≡ d₂ * 256 + d₃ = ground arith in
              let known : (not (t == ptype_data) && not (t == ptype_ack) && not (t == ptype_nack))
                  ≡ false =
                ground arith in
              rw
                (
                  read,
                  pkt_set_type-ok pkt₀ t typed,
                  pkt_set_window-ok _ d₀,
                  pkt_set_length-ok _ n short,
                  long,
                  n_eq,
                  known,
                  padding_of-eq-gap (d₂ * 256 + d₃),
                )
                (Yields-if (ltb len 8) (λ a. yields (ground arith))
                  λ a.
                    Yields-if (not (len % 4 == 0)) (λ b. yields (ground arith))
                      λ b.
                        Yields-if (not (t == ptype_data) && ltb 0 (d₂ * 256 + d₃))
                          (λ e. yields (ground arith))
                          λ e.
                            Yields-if (not (d₂ * 256 + d₃ + 8 + gap (d₂ * 256 + d₃) == u16 len))
                              (λ f. yields (ground arith)) λ f. absurd (ground arith))
        ]
        | inr untyped ↦ elim (Bool-cases (ltb 512 n)) [
          | inl long ↦
              rw
                (
                  read,
                  pkt_set_type-bad pkt₀ (d₀ / 32) untyped,
                  pkt_set_window-ok _ d₀,
                  pkt_set_length-long _ n long,
                )
                (grind (arith, padding_of-eq-gap n, yields))
          | inr short ↦
              rw
                (
                  read,
                  pkt_set_type-bad pkt₀ (d₀ / 32) untyped,
                  pkt_set_window-ok _ d₀,
                  pkt_set_length-ok _ n short,
                )
                (grind (arith, padding_of-eq-gap n, yields))
        ]
      ]

-- ===== src/Packet/Encode/Frame.antt =====
-- What `pkt_encode` writes: the frame of the packet, if the buffer has room for it.
use Prim.Native.Nat.{bit_or}
use projet.Base.{
  ℕ, ◌+◌, ◌*◌, ◌/◌, ◌%◌, ◌^◌, ◌≤◌, ◌<◌, ◌≡◌, refl, sym, ap, ap₂, ◌∙◌, List, [], ◌∷◌, ◌++◌, arith,
  length, ltb, if◌then◌else◌, split_at, four_entries, drop, drop-drop, length-append,
  length-replicate, append_assoc, drop, replicate,
}
use mathlib.Core.Path.{subst}
use projet.Base.Exec.{ok}
use projet.Base.Array.{store-append, store-skip, copy-append, fill-append, prefix-append}
use projet.Base.Word.{u8, u16, u32, swap16, swap32}
use projet.Base.Bits.{bit_or-fields5}
use projet.Packet.{Pkt, pkt_ok, e_nomem, pkt_get_length}
use projet.Packet.Payload.{padding_of-eq-gap}
use projet.Packet.Wire.{Content, IsContent, Represents, be32, gap, covered, size, frame}
use projet.Packet.Encode.{Encoded, store_crc, pkt_encode}

-- Four stores in a row put the number in network order behind `pre`.
store_crc-append :
    (pre : List ℕ) (a b c d : ℕ) (rest : List ℕ) (w : ℕ) {at : ℕ}
    → at ≡ length pre
    → w < 2 ^ 32
    → store_crc (pre ++ a ∷ b ∷ c ∷ d ∷ rest) at (swap32 w) ≡ ok (pre ++ (be32 w ++ rest))
unfolding store_crc
store_crc-append pre a b c d rest w {at} e h =
    let v₀ : u8 (swap32 w) ≡ w / 2 ^ 24 % 256 = omega arith in
    let v₁ : u8 (swap32 w / 2 ^ 8) ≡ w / 2 ^ 16 % 256 = omega arith in
    let v₂ : u8 (swap32 w / 2 ^ 16) ≡ w / 2 ^ 8 % 256 = omega arith in
    let v₃ : u8 (swap32 w / 2 ^ 24) ≡ w % 256 = omega arith in
    rw (
      v₀,
      v₁,
      v₂,
      v₃,
      store-append pre a (w / 2 ^ 24 % 256) (b ∷ c ∷ d ∷ rest) e,
      store-skip pre (w / 2 ^ 24 % 256 ∷ b ∷ c ∷ d ∷ rest) 1 (w / 2 ^ 16 % 256) {i = at + 1}
          (omega arith) (omega arith),
      store-skip pre (w / 2 ^ 24 % 256 ∷ w / 2 ^ 16 % 256 ∷ c ∷ d ∷ rest) 2 (w / 2 ^ 8 % 256)
          {i = at + 2} (omega arith) (omega arith),
      store-skip pre (w / 2 ^ 24 % 256 ∷ w / 2 ^ 16 % 256 ∷ w / 2 ^ 8 % 256 ∷ d ∷ rest) 3 (w % 256)
          {i = at + 3} (omega arith) (omega arith),
    )

-- The end of a call that has left `buf` in the buffer.
abbrev pub outcome : Content → ℕ → List ℕ → Encoded
outcome c len buf =
    if ltb (u16 len) (size c)
    then record { status = e_nomem; buf = buf; len = len }
    else record { status = pkt_ok; buf = buf; len = size c }

module _ (crc32 : List ℕ → ℕ) where
  -- The call on a buffer that is cut where the parts of the frame go.
  encode_parts :
      (pkt : Pkt) (c : Content) (x₀ x₁ x₂ x₃ : ℕ) (mid fillers : List ℕ) (y₀ y₁ y₂ y₃ : ℕ)
      (rest : List ℕ) (len : ℕ)
      → IsContent c
      → Represents pkt c
      → length mid ≡ length c.payload
      → length fillers ≡ gap (length c.payload)
      → pkt_encode crc32 pkt
          (x₀ ∷ x₁ ∷ x₂ ∷ x₃ ∷ (mid ++ (fillers ++ y₀ ∷ y₁ ∷ y₂ ∷ y₃ ∷ rest)))
          len
        ≡ ok (outcome c len (frame crc32 c ++ rest))
  unfolding pkt_encode pkt_get_length
  encode_parts pkt c x₀ x₁ x₂ x₃ mid fillers y₀ y₁ y₂ y₃ rest len v r em ef =
      let n = length c.payload in
      let b₀ : u8 (bit_or (c.type * 2 ^ 5) c.window) ≡ c.type * 32 + c.window =
        omega (arith, bit_or-fields5 c.type c.window (omega arith)) in
      let h₁ : swap16 n % 256 ≡ n / 256 % 256 = omega arith in
      let h₂ : u8 (swap16 n / 2 ^ 8) ≡ n % 256 = omega arith in
      let tail = y₀ ∷ y₁ ∷ y₂ ∷ y₃ ∷ rest in
      let zeros : List ℕ = replicate (gap n) 0 in
      let head = (c.type * 32 + c.window) ∷ c.seqnum ∷ n / 256 % 256 ∷ n % 256 ∷ [] in
      rw
        (
          r.type_eq,
          r.window_eq,
          r.seqnum_eq,
          r.length_eq,
          r.payload_eq,
          padding_of-eq-gap n,
          b₀,
          h₁,
          h₂,
          store-append [] x₀ (c.type * 32 + c.window) (x₁ ∷ x₂ ∷ x₃ ∷ (mid ++ (fillers ++ tail)))
              refl,
          store-append ((c.type * 32 + c.window) ∷ []) x₁ c.seqnum
              (x₂ ∷ x₃ ∷ (mid ++ (fillers ++ tail))) refl,
          store-append ((c.type * 32 + c.window) ∷ c.seqnum ∷ []) x₂ (n / 256 % 256)
              (x₃ ∷ (mid ++ (fillers ++ tail))) refl,
          store-append ((c.type * 32 + c.window) ∷ c.seqnum ∷ n / 256 % 256 ∷ []) x₃ (n % 256)
              (mid ++ (fillers ++ tail)) refl,
          copy-append head mid (fillers ++ tail) [] c.payload r.beyond refl em refl refl,
          fill-append (head ++ c.payload) fillers tail 0 {n = gap n} {d = 4 + n} (sym ef)
              (omega (arith, length-append head c.payload)),
          ← append_assoc c.payload zeros tail,
          prefix-append (covered c zeros) tail {n = n + 4 + gap n}
              (omega (arith, length-append c.payload zeros, length-replicate {A = ℕ} (gap n) 0)),
          store_crc-append (covered c zeros) y₀ y₁ y₂ y₃ rest (u32 (crc32 (covered c zeros)))
              {at = 4 + n + gap n}
              (omega (arith, length-append c.payload zeros, length-replicate {A = ℕ} (gap n) 0))
              (omega arith),
          append_assoc (c.payload ++ zeros) (be32 (crc32 (covered c zeros) % 2 ^ 32)) rest,
        )
        (ground arith)

  -- On a buffer with room for the frame the call writes exactly the frame, and leaves the rest of the
  -- buffer. It answers PKT_OK with the size of the frame in `*len` if the size that the caller states,
  -- taken modulo 2^16, suffices; otherwise it answers E_NOMEM and leaves `*len`.
  pub pkt_encode-frame :
      (pkt : Pkt) (c : Content) (buf : List ℕ) (len : ℕ)
      → IsContent c
      → Represents pkt c
      → size c ≤ length buf
      → pkt_encode crc32 pkt buf len ≡ ok (outcome c len (frame crc32 c ++ drop (size c) buf))
  pkt_encode-frame pkt c buf len v r room =
      let n = length c.payload in
      let g = gap n in
      let (head, head4, buf_eq, left₁) = split_at 4 buf (omega arith) in
      let (x₀, x₁, x₂, x₃, head_eq) = four_entries head head4 in
      let (mid, mid_n, eq₁, left₂) = split_at n (drop 4 buf) (omega arith) in
      let (fillers, fillers_g, eq₂, left₃) = split_at g (drop n (drop 4 buf)) (omega arith) in
      let (sum, sum4, eq₃, left₄) = split_at 4 (drop g (drop n (drop 4 buf))) (omega arith) in
      let (y₀, y₁, y₂, y₃, sum_eq) = four_entries sum sum4 in
      let rest = drop 4 (drop g (drop n (drop 4 buf))) in
      let rest_eq : drop (size c) buf ≡ rest =
        rw (drop-drop 4 n buf, drop-drop (4 + n) g buf, drop-drop (4 + n + g) 4 buf)
          (ap (λ k. drop k buf) (omega arith)) in
      let whole : buf ≡ x₀ ∷ x₁ ∷ x₂ ∷ x₃ ∷ (mid ++ (fillers ++ y₀ ∷ y₁ ∷ y₂ ∷ y₃ ∷ rest)) =
        buf_eq
        ∙ ap₂ ◌++◌ head_eq
            (eq₁ ∙ ap (◌++◌ mid) (eq₂ ∙ ap (◌++◌ fillers) (eq₃ ∙ ap (λ q. q ++ rest) sum_eq))) in
      rw (rest_eq) (
        subst (λ b. pkt_encode crc32 pkt b len ≡ ok (outcome c len (frame crc32 c ++ rest)))
          (sym whole)
          (encode_parts pkt c x₀ x₁ x₂ x₃ mid fillers y₀ y₁ y₂ y₃ rest len v r mid_n fillers_g))

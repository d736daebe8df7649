-- ===== src/Receiver/Horizon.antt =====
-- What the receiver of sel_repeat_read.c can know: it cannot tell streams apart that agree on the
-- packets which have been sent, so it never goes beyond these.
use mathlib.Core.Path.{subst}
use projet.Base.{
  ℕ, zero, suc, ◌+◌, ◌-◌, ◌%◌, ◌≤◌, ◌<◌, ◌≡◌, refl, sym, ap, ◌∙◌, ltb, lt→ltb, le→ltb,
  if◌then◌else◌, List, ◌∷◌, ◌++◌, arith, length, length-append, dec_le,
}
use projet.Base.Exec.{Yields, yields, Yields-inv, Yields-elim}
use projet.Base.Word.{u16}
use projet.Packet.{Pkt, max_window_size}
use projet.Packet.Wire.{Content, IsContent, gap, size, framed}
use projet.Receiver.{Receiver, Output, start, round}
use projet.Receiver.Stream.{written, segment, Acks, Expects}
use projet.Receiver.Round.{AdvancesWith, round-AdvancesWith}
use projet.Receiver.Run.{start-Expects}

module _ (data_of : ℕ → List ℕ) where
  -- The other stream has the same packets up to the number `top`.
  abbrev pub Agrees : ℕ → (ℕ → List ℕ) → Type 0
  Agrees top data' = (k : ℕ) → k < top → data' k ≡ data_of k

  -- The receiver expects the packet number `n`, whatever the packets from the number `top` on are.
  pub record Knows (top n : ℕ) (r : Receiver) : Type 0 where
    pub behind : n ≤ top
    pub expects : (data' : ℕ → List ℕ) → Agrees top data' → Expects data' n r

  pub start-Knows : Knows 0 0 start
  start-Knows = record { behind = omega arith; expects = λ data' same. start-Expects data' }

  pub Knows-later : (top top' n : ℕ) (r : Receiver) → top ≤ top' → Knows top n r → Knows top' n r
  Knows-later top top' n r h k = record {
    behind = omega (arith, k.behind);
    expects = λ data' same. k.expects data' (λ i below. same i (omega arith));
  }

  -- A stream whose packets from `top` on are longer.
  abbrev longer : ℕ → ℕ → List ℕ
  longer top k = if ltb k top then data_of k else 0 ∷ data_of k

  longer-Agrees : (top : ℕ) → Agrees top (longer top)
  longer-Agrees top k h = rw (lt→ltb k top h) refl

  length_above : (top n : ℕ) → top ≤ n → length (longer top n) ≡ suc (length (data_of n))
  length_above top n h = rw (le→ltb n top h) refl

  length_each : (top n : ℕ) → length (data_of n) ≤ length (longer top n)
  length_each top n = elim (dec_le top n) [
    | yes h ↦ omega (arith, length_above top n h)
    | no h ↦ omega (arith, ap length (longer-Agrees top n (omega arith)))
  ]

  length-longer :
      (top count n : ℕ) → length (segment data_of count n) ≤ length (segment (longer top) count n)
  length-longer top zero n = omega arith
  length-longer top (suc count) n = omega (
    arith,
    length_each top n,
    length-longer top count (suc n),
    length-append (data_of n) (segment data_of count (suc n)),
    length-append (longer top n) (segment (longer top) count (suc n)),
  )

  -- A segment that goes beyond `top` differs.
  longer-segment :
      (top count n : ℕ)
      → n ≤ top
      → top < n + count
      → length (segment data_of count n) < length (segment (longer top) count n)
  longer-segment top zero n h b = absurd (omega arith)
  longer-segment top (suc count) n h b =
      let here = length-append (data_of n) (segment data_of count (suc n)) in
      let there = length-append (longer top n) (segment (longer top) count (suc n)) in
      elim (dec_le top n) [
        | yes last ↦
            omega (arith, length_above top n last, length-longer top count (suc n), here, there)
        | no more ↦ omega (
          arith,
          length_each top n,
          longer-segment top count (suc n) (omega arith) (omega arith),
          here,
          there,
        )
      ]

  module _ (crc32 : List ℕ → ℕ) (junk : ℕ) (memory : Pkt) where
    -- The receiver expects a number that is `n'`, has written the packets before it, and has sent
    -- acknowledgements of them.
    pub record Learns (top n : ℕ) (r : Receiver) (out : List Output) : Type 0 where
      pub n' : ℕ
      pub forward : n ≤ n'
      pub near : n' ≤ n + max_window_size
      pub knows : Knows top n' r
      pub bytes : written out ≡ segment data_of (n' - n) n
      pub acks : Acks crc32 n n' out

    pub round-Learns :
        (top n k : ℕ) (r : Receiver) (c : Content) (filler rest : List ℕ) (len : ℕ)
        → Knows top n r
        → IsContent c
        → length filler ≡ gap (length c.payload)
        → u16 len ≡ size c
        → c.seqnum ≡ k % 256
        → c.payload ≡ data_of k
        → k < top
        → k < n + 31
        → n ≤ k + 225
        → Yields
            (λ (r', out). Learns top n r' out)
            (round crc32 junk memory r (framed crc32 c filler ++ rest) len)
    round-Learns top n k r c filler rest len know valid filled sized numbered same below near old =
        let runs : (data' : ℕ → List ℕ)
            → Agrees top data'
            → Yields (AdvancesWith data' crc32 junk memory n)
                (round crc32 junk memory r (framed crc32 c filler ++ rest) len) =
          λ data' agree.
            round-AdvancesWith data' crc32 junk memory n k r c filler rest len
              (know.expects data' agree) valid filled sized numbered (same ∙ sym (agree k below))
              near old in
        let ((r', out), run, (a, acks)) = Yields-inv (runs data_of (λ i h. refl)) in
        let other : (data' : ℕ → List ℕ)
            → Agrees top data'
            → Expects data' (n + a.count) r' × (written out ≡ segment data' a.count n) =
          λ data' agree.
            let (a', _) = Yields-elim (runs data' agree) run in
            let equal : a'.count ≡ a.count =
              omega (arith, a.few, a'.few, a.expects.last, a'.expects.last) in
            (
              subst (λ m. Expects data' (n + m) r') equal a'.expects,
              subst (λ m. written out ≡ segment data' m n) equal a'.bytes,
            ) in
        let bound : n + a.count ≤ top = elim (dec_le (n + a.count) top) [
          | yes h ↦ h
          | no h ↦ absurd (
              omega (
                arith,
                longer-segment top a.count n know.behind (omega arith),
                ap length a.bytes,
                ap length (other (longer top) (longer-Agrees top)).1,
              ))
        ] in
        rw run (
          yields (record {
            n' = n + a.count;
            forward = omega arith;
            near = omega (arith, a.few);
            knows = record { behind = bound; expects = λ data' agree. (other data' agree).0 };
            bytes =
                let same_count : n + a.count - n ≡ a.count = omega arith in rw same_count a.bytes;
            acks = acks;
          }))

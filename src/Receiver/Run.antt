-- ===== src/Receiver/Run.antt =====
-- The receiver of sel_repeat_read.c over any sequence of datagrams.
use mathlib.Core.Path.{subst}
use projet.Base.{
  ℕ, zero, suc, ◌+◌, ◌%◌, ◌≤◌, ◌<◌, ◌≡◌, refl, sym, ap, ◌∙◌, List, [], ◌++◌, arith, length, All,
  append_assoc, lt→ltb,
}
use projet.Base.Exec.{ok, fault, Yields-elim}
use projet.Packet.{Pkt, pkt_new, pkt_del, release}
use projet.Packet.Wire.{IsByte}
use projet.Packet.Decode.{pkt_decode}
use projet.Receiver.{Receiver, Output, start, round}
use projet.Receiver.Stream.{written, segment, Expects, IsGenuine}
use projet.Receiver.Round.{round-Advances}

module _ (data_of : ℕ → List ℕ) where
  pub segment-add :
      (count more n : ℕ)
      → segment data_of (count + more) n
        ≡ segment data_of count n ++ segment data_of more (n + count)
  segment-add zero more n =
      let a : 0 + more ≡ more = omega arith in let b : n + 0 ≡ n = omega arith in rw (a, b) refl
  segment-add (suc count) more n =
      let a : suc count + more ≡ suc (count + more) = omega arith in
      let b : n + suc count ≡ suc n + count = omega arith in
      rw (a, b)
        (ap (◌++◌ (data_of n)) (segment-add count more (suc n))
          ∙ sym (append_assoc (data_of n) (segment data_of count (suc n)) _))

  pub start-Expects : Expects data_of 0 start
  unfolding start
  start-Expects = record {
    last = refl;
    waiting = [];
    buffer = refl;
    sorted = tt;
    held = tt;
    window = refl;
  }

  module _ (crc32 : List ℕ → ℕ) (junk : ℕ) (memory : Pkt) where
    -- The states that a receiver can be in after genuine datagrams, with the number of the packet that
    -- its `lastack` says it expects, and all bytes that it has written.
    pub data Reached : ℕ → Receiver → List ℕ → Type 0 where
      begin : Reached 0 start []
      arrival :
          {n : ℕ} {r : Receiver} {so_far : List ℕ}
          → Reached n r so_far
          → (bytes : List ℕ) (len : ℕ) → All IsByte bytes
          → len ≤ length bytes
          → 4 ≤ len
          → IsGenuine data_of crc32 n bytes len
          → (r' : Receiver) (out : List Output) → round crc32 junk memory r bytes len ≡ ok (r', out)
          → (n' : ℕ) → n ≤ n'
          → n' < n + 256
          → r'.lastack ≡ (n' + 255) % 256
          → Reached n' r' (so_far ++ written out)

    -- Datagrams of at least four bytes have come in any order, some of them never, damaged or
    -- repeatedly; those that are packets in the format were packets of the stream, each less
    -- than 31 numbers ahead of the packet expected when it came, and at most 225 behind it. Then
    -- the bytes written are the payloads of the stream, in order and each once, up to the
    -- expected packet.
    pub Reached-segment :
        {n : ℕ} {r : Receiver} {so_far : List ℕ}
        → Reached n r so_far
        → Expects data_of n r × (so_far ≡ segment data_of n 0)
    Reached-segment begin = (start-Expects, refl)
    Reached-segment
          (arrival {n} {r} {so_far} before bytes len byte fits header g r' out run n' from to
            last) =
        let (e, same) = Reached-segment before in
        let a =
          Yields-elim (round-Advances data_of crc32 junk memory n r bytes len e byte fits header g)
            run in
        let now : n + a.count ≡ n' = omega (arith, a.few, a.expects.last) in
        let first : 0 + n ≡ n = omega arith in
        let sum = segment-add n a.count 0 in
        let joined = rw (first, now) at sum in
        (
          subst (λ k. Expects data_of k r') now a.expects,
          ap (λ l. l ++ written out) same ∙ ap (◌++◌ (segment data_of n 0)) a.bytes ∙ sym joined,
        )

module _ (crc32 : List ℕ → ℕ) (junk : ℕ) (memory : Pkt) where
  -- On fewer than four bytes the round does not return: it releases a payload pointer that was never
  -- set.
  pub round-short :
      (r : Receiver) (bytes : List ℕ) (len : ℕ)
      → len < 4
      → round crc32 junk memory r bytes len ≡ fault
  unfolding round pkt_decode pkt_new pkt_del release
  round-short r bytes len h = rw (lt→ltb len 4 h) refl

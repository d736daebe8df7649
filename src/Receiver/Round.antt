-- ===== src/Receiver/Round.antt =====
-- One round of the loop of sel_repeat_read.c, for any datagram that has a header.
use projet.Base.{
  ℕ, suc, ◌+◌, ◌-◌, ◌%◌, ◌≤◌, ◌<◌, ◌≡◌, refl, ap, ◌∙◌, none, true, false, not, List, [], ◌∷◌, ◌++◌,
  arith, length, drop, All, replicate, ◌==◌,
}
use projet.Base.Exec.{ok, ◌>>=◌, Yields, yields, Yields-bind}
use projet.Base.Int.{pos, ltb_ℤ}
use projet.Packet.{Pkt, Status, pkt_ok, max_window_size, pkt_get_seqnum, pkt_new}
use projet.Packet.Decode.{failed, is_noheader}
use projet.Receiver.{Receiver, Output, delivered, sent, refresh, handle, round, compare_seqnums}
use projet.Receiver.Seqnum.{window_test}
use projet.Packet.{ptype_ack}
use projet.Packet.Wire.{control, Content, IsContent, frame, framed, gap, size, IsByte}
use projet.Packet.Decode.Accept.{decoded, pkt_decode-framed}
use projet.Base.Word.{u16}
use projet.Packet.Decode.Sound.{IsDecoded, pkt_decode-IsAnswer}
use projet.Receiver.Insert.{slots}
use projet.Receiver.Stream.{written, segment, Acks, consecutive, Expects, IsGenuine}
use projet.Receiver.Handled.{IsArrived, IsHandled, IsAccepted, write_payload-decoded}
use projet.Receiver.Accept.{accept-IsDrained, handle-IsAccepted}
use projet.Receiver.Handle.{handle-IsHandled}
use projet.Receiver.Drain.{IsDrained, refresh-slots}

not_failed : (err : Status) → failed err ≡ false → err ≡ pkt_ok
unfolding failed
not_failed err h = ground arith

module _ (data_of : ℕ → List ℕ) where
  -- The receiver expects a number that is `count` further on, and has written the packets between.
  pub record Advances (n : ℕ) (r : Receiver) (out : List Output) : Type 0 where
    pub count : ℕ
    pub few : count ≤ max_window_size
    pub expects : Expects data_of (n + count) r
    pub bytes : written out ≡ segment data_of count n

  module _ (crc32 : List ℕ → ℕ) (junk : ℕ) (memory : Pkt) where
    refresh_run :
        (r : Receiver) (gone rest : ℕ) (ps : List Pkt)
        → gone + rest ≡ max_window_size
        → length ps ≤ rest
        → r.receive_buffer ≡ replicate gone none ++ slots rest ps
        → refresh r.receive_buffer ≡ ok (slots max_window_size ps)
    refresh_run r gone rest ps whole room e = rw e (refresh-slots gone rest ps whole room)

    -- `refresh` moves the packets that wait to the start.
    abbrev advanced :
        (n : ℕ) (r : Receiver) (out : List Output)
        → (h : IsHandled data_of n r out)
        → Advances n (record r { receive_buffer = slots max_window_size h.waiting }) out
    advanced n r out h = record {
      count = h.count;
      few = h.few;
      expects = record {
        last = h.last;
        waiting = h.waiting;
        buffer = refl;
        sorted = h.sorted;
        held = h.held;
        window = h.window;
      };
      bytes = h.bytes;
    }

    -- The round as a whole.
    refreshed :
        (n : ℕ) (r : Receiver) (out : List Output)
        → IsHandled data_of n r out
        → Yields
            (λ (r', out'). Advances n r' out')
            (refresh r.receive_buffer >>= λ buffer. ok (record r { receive_buffer = buffer }, out))
    refreshed n r out h =
        rw (refresh_run r h.gone h.rest h.waiting h.whole h.room h.buffer)
          (yields (advanced n r out h))

    -- A round with a packet that is accepted: what it writes and sends.
    abbrev pub AdvancesWith : ℕ → Receiver × List Output → Type 0
    AdvancesWith n (r, out) = (a : Advances n r out) × Acks crc32 n (n + a.count) out

    refreshed-AdvancesWith :
        (n : ℕ) (r : Receiver) (out : List Output)
        → IsAccepted data_of crc32 n (r, out)
        → Yields
            (AdvancesWith n)
            (refresh r.receive_buffer >>= λ buffer. ok (record r { receive_buffer = buffer }, out))
    refreshed-AdvancesWith n r out (h, acks) =
        rw (refresh_run r h.gone h.rest h.waiting h.whole h.room h.buffer)
          (yields (advanced n r out h, acks))

    -- What is accepted of a genuine datagram is a packet of the stream.
    decoded-IsArrived :
        (n : ℕ) (bytes : List ℕ) (len : ℕ) (pkt : Pkt)
        → IsGenuine data_of crc32 n bytes len
        → IsDecoded crc32 bytes len pkt
        → IsArrived data_of n pkt
    decoded-IsArrived n bytes len pkt g d =
        let (k, near, old, numbered, same) =
          g d.content d.filler d.rest d.valid d.filled d.sized d.wire in
        record {
          k = k;
          near = near;
          old = old;
          numbered = rw d.stored numbered;
          payload = rw d.stored (write_payload-decoded crc32 d.content d.filler ∙ ap ok same);
          owned = rw d.stored (λ e. cc);
        }

    -- A receiver that expects the packet number `n` gets a datagram of at least four bytes. If these
    -- are, when they are a packet at all, a packet of the stream from 225 numbers behind `n` to 30 ahead of it, the round
    -- returns: it writes the payloads of some packets from `n` on, at most 31, each exactly once and
    -- in order, and expects the next one after them; the buffer is sorted and the window is the
    -- number of its free slots.
    pub round-Advances :
        (n : ℕ) (r : Receiver) (bytes : List ℕ) (len : ℕ)
        → Expects data_of n r
        → All IsByte bytes
        → len ≤ length bytes
        → 4 ≤ len
        → IsGenuine data_of crc32 n bytes len
        → Yields (λ (r', out). Advances n r' out) (round crc32 junk memory r bytes len)
    unfolding round
    round-Advances n r bytes len e byte fits header g =
        Yields-bind (pkt_decode-IsAnswer crc32 junk bytes len (pkt_new memory) byte fits)
          λ (err, pkt) (accepted, answer).
            let known : is_noheader err ≡ false = ground arith in
            rw known (
              Yields-bind
                (handle-IsHandled data_of crc32 junk memory n r len err pkt e
                  λ good. decoded-IsArrived n bytes len pkt g (accepted (not_failed err good)))
                λ (r', out) h. refreshed n r' out h)

    -- A packet of the stream arrives intact.
    pub round-AdvancesWith :
        (n k : ℕ) (r : Receiver) (c : Content) (filler rest : List ℕ) (len : ℕ)
        → Expects data_of n r
        → IsContent c
        → length filler ≡ gap (length c.payload)
        → u16 len ≡ size c
        → c.seqnum ≡ k % 256
        → c.payload ≡ data_of k
        → k < n + 31
        → n ≤ k + 225
        → Yields (AdvancesWith n) (round crc32 junk memory r (framed crc32 c filler ++ rest) len)
    unfolding round failed
    round-AdvancesWith n k r c filler rest len e valid filled sized numbered same near old =
        rw (pkt_decode-framed crc32 junk c filler rest len (pkt_new memory) valid filled sized) (
          Yields-bind
            (handle-IsAccepted data_of crc32 junk memory n r len pkt_ok (decoded crc32 c filler) e
              refl
              (record {
                k = k;
                near = near;
                old = old;
                numbered = numbered;
                payload = write_payload-decoded crc32 c filler ∙ ap ok same;
                owned = λ e. cc;
              }))
            λ (r', out) a. refreshed-AdvancesWith n r' out a)

    -- The receiver, behind which the packets `ps` have been waiting, has written `count` packets: the
    -- new one, and those that follow each other from the next number on. The others still wait. Its last
    -- datagram acknowledges all before the one it now expects, with the number of free slots for
    -- window.
    pub record Delivers (n : ℕ) (ps : List Pkt) (r : Receiver) (out : List Output) : Type 0 where
      pub count : ℕ
      pub count_eq : count ≡ suc (consecutive (suc n) ps)
      pub expects : Expects data_of (n + count) r
      pub still_waiting : expects.waiting ≡ drop (consecutive (suc n) ps) ps
      pub bytes : written out ≡ segment data_of count n
      pub early : List Output
      pub acknowledged :
          out
          ≡ early
            ++ sent (
                frame crc32 (
                  control ptype_ack (max_window_size - length expects.waiting) ((n + count) % 256)))
              ∷ []

    delivers :
        (n : ℕ) (r : Receiver) (ps : List Pkt) (out : List Output)
        → (d : IsDrained data_of crc32 junk memory (suc n) ps r out)
        → Delivers n ps
            (record r { receive_buffer = slots max_window_size d.waiting })
            (delivered (data_of n) ∷ out)
    delivers n r ps out d =
        let same : suc n + d.count ≡ n + suc d.count = omega arith in
        let shown =
          ap {A = List Output} {B = List Output} (λ o. delivered (data_of n) ∷ o) d.acknowledged in
        record {
          count = suc d.count;
          count_eq = ap suc d.count_eq;
          still_waiting = d.waiting_eq ∙ ap (λ m. drop m ps) d.count_eq;
          expects = record {
            last = omega (arith, d.last);
            waiting = d.waiting;
            buffer = refl;
            sorted = d.sorted;
            held = rw same at d.held;
            window = d.window;
          };
          bytes = ap (◌++◌ (data_of n)) d.bytes;
          early = delivered (data_of n) ∷ d.early;
          acknowledged = rw same at shown;
        }

    -- A receiver that expects the packet number `n` and gets it, whatever bytes fill it up, returns
    -- from the round: it has written the payload, and those of the packets waiting in its buffer that
    -- follow it with one number after the other, and exactly the others keep waiting. It ends with
    -- an acknowledgement of all that it has written.
    pub round-Delivers :
        (n : ℕ) (r : Receiver) (c : Content) (filler rest : List ℕ) (len : ℕ)
        → (e : Expects data_of n r) → IsContent c
        → length filler ≡ gap (length c.payload)
        → u16 len ≡ size c
        → c.seqnum ≡ n % 256
        → c.payload ≡ data_of n
        → Yields
            (λ (r', out). Delivers n e.waiting r' out)
            (round crc32 junk memory r (framed crc32 c filler ++ rest) len)
    unfolding round handle pkt_get_seqnum failed
    round-Delivers n r c filler rest len e valid filled sized numbered same =
        let pkt = decoded crc32 c filler in
        let l = r.lastack in
        let inside : not (ltb_ℤ (compare_seqnums l c.seqnum ((l + 1) % 256)) (pos max_window_size))
            ≡ false =
          ground (arith, window_test l c.seqnum, e.last) in
        let due : (c.seqnum == (l + 1) % 256) ≡ true = ground (arith, e.last) in
        rw
          (
            pkt_decode-framed crc32 junk c filler rest len (pkt_new memory) valid filled sized,
            inside,
            due,
          )
          (Yields-bind
            (accept-IsDrained data_of crc32 junk memory n r e pkt
              (write_payload-decoded crc32 c filler ∙ ap ok same) (λ e. cc))
            λ (r', out) (out', parts, d).
              rw (parts, refresh_run r' d.gone d.rest d.waiting d.whole d.room d.buffer)
                (yields (delivers n r' e.waiting out' d)))

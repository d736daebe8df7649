-- ===== src/Receiver/Accept.antt =====
-- A packet that the loop of sel_repeat_read.c accepts.
use projet.Base.{
  ℕ, suc, ◌+◌, ◌%◌, ◌≤◌, ◌<◌, ◌≡◌, ◌≢◌, refl, ap, ◌∙◌, false, not, List, [], ◌∷◌, ◌++◌, arith,
  length, ◌==◌,
}
use projet.Base.Exec.{ok, Yields, yields, Yields-map, Yields-bind, Yields-if}
use projet.Base.Int.{pos, ltb_ℤ}
use projet.Packet.{Pkt, Status, wild, max_window_size, pkt_get_seqnum}
use projet.Packet.Decode.{failed}
use projet.Packet.Release.{pkt_del-owned}
use projet.Receiver.{
  Receiver, Output, delivered, write_payload, remove_from_buffer, accept, handle, compare_seqnums,
}
use projet.Receiver.Seqnum.{ahead, window_test}
use projet.Receiver.Insert.{slots}
use projet.Receiver.Stream.{Acks-lower, Expects, IsSorted-next, IsWaiting-next, length-IsWaiting}
use projet.Receiver.Drain.{IsDrained, drain-IsDrained}
use projet.Receiver.Handled.{IsArrived, IsAccepted, unchanged, inserted, remove_from_buffer-kept}

module _ (data_of : ℕ → List ℕ) (crc32 : List ℕ → ℕ) (junk : ℕ) (memory : Pkt) where
  drained :
      (n : ℕ) (ps : List Pkt) (r : Receiver) (out : List Output)
      → length ps < max_window_size
      → IsDrained data_of crc32 junk memory (suc n) ps r out
      → IsAccepted data_of crc32 n (r, delivered (data_of n) ∷ out)
  drained n ps r out h d =
      let same : suc n + d.count ≡ n + suc d.count = omega arith in
      let acks = d.acks in
      (
        record {
          count = suc d.count;
          few = omega (arith, d.counted);
          last = omega (arith, d.last);
          gone = d.gone;
          rest = d.rest;
          whole = d.whole;
          waiting = d.waiting;
          room = d.room;
          buffer = d.buffer;
          sorted = d.sorted;
          held = rw same at d.held;
          window = d.window;
          bytes = ap (◌++◌ (data_of n)) d.bytes;
        },
        Acks-lower crc32 (suc n) n (n + suc d.count) out (omega arith) (rw same at acks),
      )

  -- The expected packet is written, and all that have been waiting for it.
  pub accept-IsDrained :
      (n : ℕ) (r : Receiver) (e : Expects data_of n r) (pkt : Pkt)
      → write_payload pkt ≡ ok (data_of n)
      → pkt.payload ≢ wild
      → Yields
          (λ (r', out).
            (out' : List Output) × (out ≡ delivered (data_of n) ∷ out')
            × IsDrained data_of crc32 junk memory (suc n) e.waiting r' out')
          (accept crc32 junk memory r pkt)
  unfolding accept
  accept-IsDrained n r e pkt payload owned =
      let l = r.lastack in
      let next = (l + 1) % 256 in
      let bound : l < 256 = omega (arith, e.last) in
      let room = length-IsWaiting data_of n l 1 1 e.waiting (omega arith) e.sorted e.held in
      let kept : remove_from_buffer r.receive_buffer next r.window_size
          ≡ ok (slots max_window_size e.waiting, r.window_size) =
        rw e.buffer (remove_from_buffer-kept data_of l n e.waiting r.window_size bound e.sorted) in
      let r' : Receiver = record {
        lastack = next;
        window_size = r.window_size;
        receive_buffer = slots max_window_size e.waiting;
      } in
      rw (payload, pkt_del-owned pkt owned, kept)
        (Yields-bind
          (drain-IsDrained data_of crc32 junk memory (suc n) 0 max_window_size e.waiting r' refl
            (omega arith) (omega (arith, e.last)) refl e.window
            (IsSorted-next data_of l next 0 e.waiting bound refl e.sorted)
            (IsWaiting-next data_of n l next e.waiting bound refl e.held))
          λ (r'', out) d. yields (out, refl, d))

  -- A packet that is accepted.
  pub handle-IsAccepted :
      (n : ℕ) (r : Receiver) (sdu_size : ℕ) (err : Status) (pkt : Pkt)
      → Expects data_of n r
      → failed err ≡ false
      → IsArrived data_of n pkt
      → Yields (IsAccepted data_of crc32 n) (handle crc32 junk memory r sdu_size err pkt)
  unfolding handle pkt_get_seqnum
  handle-IsAccepted n r sdu_size err pkt e good a =
      let l = r.lastack in
      let next = (l + 1) % 256 in
      let bound : l < 256 = omega (arith, e.last) in
      let same : n + 0 ≡ n = omega arith in
      rw good (
        Yields-if (not (ltb_ℤ (compare_seqnums l pkt.seqnum next) (pos max_window_size)))
          (λ outside. yields (
            unchanged data_of n r e.waiting r.receive_buffer r.window_size [] e.last e.buffer
                e.window e.sorted e.held refl,
            omega arith,
          ))
          λ inside.
            let byte : pkt.seqnum < 256 = omega (arith, a.numbered) in
            let near : ahead l pkt.seqnum < max_window_size =
              ground (arith, window_test l pkt.seqnum bound byte) in
            let place : a.k ≡ n + ahead l pkt.seqnum =
              omega (arith, a.near, a.old, a.numbered, e.last) in
            Yields-if (pkt.seqnum == next)
              (λ due.
                let here : a.k ≡ n = ground arith in
                let payload : write_payload pkt ≡ ok (data_of n) =
                  a.payload ∙ ap (λ k. ok (data_of k)) here in
                Yields-map (accept-IsDrained n r e pkt payload a.owned)
                  λ (r', out) (out', parts, d). rw parts (
                    drained n e.waiting r' out'
                      (omega (
                        arith,
                        length-IsWaiting data_of n l 1 1 e.waiting (omega arith) e.sorted e.held,
                      ))
                      d))
              λ later.
                let far : 1 ≤ ahead l pkt.seqnum = ground arith in
                inserted data_of crc32 n r e pkt (record {
                  numbered = byte;
                  far = far;
                  near = near;
                  payload = a.payload ∙ ap (λ k. ok (data_of k)) place;
                  owned = a.owned;
                }))

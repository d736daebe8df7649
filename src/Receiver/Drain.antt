-- ===== src/Receiver/Drain.antt =====
-- The loop of sel_repeat_read.c that writes the buffered packets which the new one has made due.
use projet.Base.{
  true, false, ℕ, zero, suc, ◌+◌, ◌-◌, ◌%◌, ◌≤◌, ◌<◌, ◌≡◌, refl, sym, ap, ◌∙◌, Option, none, some,
  List, [], ◌∷◌, ◌++◌, arith, length, drop, All, replicate, append_assoc, drop-append,
  replicate-add, length-replicate, length-append, ◌==◌,
}
use projet.Base.Exec.{ok, ◌>>=◌, Yields, yields, Yields-bind, Yields-if}
use projet.Base.Array.{load, store, load-append, store-append}
use projet.Base.Int.{ℤ, pos, ◌+ℤ◌, int_laws}
use projet.Packet.{Pkt, max_window_size, pkt_get_seqnum, ptype_ack}
use projet.Packet.Wire.{control, frame}
use projet.Packet.Release.{pkt_del-owned}
use projet.Receiver.{
  Receiver, Buffer, Output, delivered, sent, write_payload, refresh, drain, send_ack,
}
use projet.Receiver.Seqnum.{ahead}
use projet.Receiver.Control.{send-frame}
use projet.Receiver.Insert.{slots, IsSorted, length-slots}
use projet.Receiver.Refresh.{leading, refresh-drop}
use projet.Receiver.Stream.{
  written, segment, Acks, consecutive, IsWaiting, IsSorted-next, IsWaiting-next,
}

leading-replicate : (i : ℕ) (b : Buffer) → leading (replicate i none ++ b) ≡ i + leading b
leading-replicate zero b = omega arith
leading-replicate (suc i) b = omega (arith, leading-replicate i b)

slots-empty : (n : ℕ) → slots n [] ≡ replicate n none
slots-empty zero = refl
slots-empty (suc n) = ap (◌∷◌ none) (slots-empty n)

slots-spare :
    (m i : ℕ) (ps : List Pkt) → length ps ≤ m → slots m ps ++ replicate i none ≡ slots (m + i) ps
slots-spare m i [] h =
    rw (slots-empty m, slots-empty (m + i), replicate-add {A = Option Pkt} m i none) refl
slots-spare zero i (p ∷ ps) h = absurd (omega arith)
slots-spare (suc m) i (p ∷ ps) h =
    let e : suc m + i ≡ suc (m + i) = omega arith in
    rw e (ap (◌∷◌ (some p)) (slots-spare m i ps (omega arith)))

-- `refresh` on a buffer whose first slots have been emptied moves the packets to the start.
pub refresh-slots :
    (i m : ℕ) (ps : List Pkt)
    → i + m ≡ max_window_size
    → length ps ≤ m
    → refresh (replicate i none ++ slots m ps) ≡ ok (slots max_window_size ps)
refresh-slots i m [] e h =
    let empty : replicate i none ++ slots m [] ≡ replicate max_window_size none =
      rw (slots-empty m, ← replicate-add {A = Option Pkt} i m none, e) refl in
    rw empty (refresh-drop (replicate max_window_size none) refl)
refresh-slots i zero (p ∷ ps) e h = absurd (omega arith)
refresh-slots i (suc m) (p ∷ ps) e h =
    let holes : Buffer = replicate i none in
    let b = slots (suc m) (p ∷ ps) in
    let lead : leading (holes ++ b) ≡ i = omega (arith, leading-replicate i b) in
    let size : length (holes ++ b) ≡ max_window_size =
      omega (
        arith,
        length-append holes b,
        length-replicate {A = Option Pkt} i none,
        length-slots m ps,
      ) in
    let whole : suc m + i ≡ max_window_size = omega arith in
    refresh-drop (holes ++ b) size
    ∙ rw (
      lead,
      drop-append i holes b (sym (length-replicate i none)),
      slots-spare (suc m) i (p ∷ ps) h,
      whole,
    )

module _ (data_of : ℕ → List ℕ) (crc32 : List ℕ → ℕ) (junk : ℕ) (memory : Pkt) where
  -- What the loop leaves when the packet number `n` is the next one and the packets `ps` wait: it has
  -- written those of them that follow each other from `n` on, and the others still wait; its
  -- last datagram acknowledges all packets before the number `n + count`.
  pub record IsDrained (n : ℕ) (ps : List Pkt) (r : Receiver) (out : List Output) : Type 0 where
    pub count : ℕ
    pub count_eq : count ≡ consecutive n ps
    pub last : r.lastack ≡ (n + count + 255) % 256
    pub gone : ℕ
    pub rest : ℕ
    pub whole : gone + rest ≡ max_window_size
    pub waiting : List Pkt
    pub waiting_eq : waiting ≡ drop count ps
    pub counted : count + length waiting ≡ length ps
    pub room : length waiting ≤ rest
    pub buffer : r.receive_buffer ≡ replicate gone none ++ slots rest waiting
    pub sorted : IsSorted r.lastack 1 waiting
    pub held : All (IsWaiting data_of (n + count) r.lastack 1) waiting
    pub window : r.window_size ≡ pos (max_window_size - length waiting)
    pub bytes : written out ≡ segment data_of count n
    pub acks : Acks crc32 n (n + count) out
    pub early : List Output
    pub acknowledged :
        out
        ≡ early
          ++ sent (
              frame crc32
                (control ptype_ack (max_window_size - length waiting) ((n + count) % 256)))
            ∷ []

  -- Distances in a sorted list are not less than its least one.
  raise :
      (n l low low' : ℕ) (ps : List Pkt)
      → IsSorted l low ps
      → low' ≤ low
      → All (IsWaiting data_of n l 0) ps
      → All (IsWaiting data_of n l low') ps
  raise n l low low' [] s h w = tt
  raise n l low low' (p ∷ ps) s h (w, ws) = (
    record {
      numbered = w.numbered;
      far = omega (arith, s.0);
      near = w.near;
      payload = w.payload;
      owned = w.owned;
    },
    raise n l (suc (ahead l p.seqnum)) low' ps s.2 (omega (arith, s.0)) ws,
  )

  -- An acknowledgement with a window from 0 to 31.
  ack_sent :
      (l : ℕ) (w : ℤ) (k : ℕ)
      → w ≡ pos (max_window_size - k)
      → send_ack crc32 junk memory l w
        ≡ ok (frame crc32 (control ptype_ack (max_window_size - k) ((l + 1) % 256)))
  ack_sent l w k e =
      rw e (send-frame crc32 junk memory l 0 (max_window_size - k) (omega arith) (omega arith)).0

  -- The loop stops, with an acknowledgement.
  stopped :
      (n i m : ℕ) (ps : List Pkt) (r : Receiver)
      → i + m ≡ max_window_size
      → length ps ≤ m
      → r.lastack ≡ (n + 255) % 256
      → r.receive_buffer ≡ replicate i none ++ slots m ps
      → r.window_size ≡ pos (max_window_size - length ps)
      → IsSorted r.lastack 1 ps
      → All (IsWaiting data_of n r.lastack 0) ps
      → consecutive n ps ≡ 0
      → Yields
          (λ (r', out). IsDrained n ps r' out)
          (send_ack crc32 junk memory r.lastack r.window_size >>= λ ack. ok (r, sent ack ∷ []))
  stopped n i m ps r ei room el eb ew s w none_due =
      let now : (r.lastack + 1) % 256 ≡ (n + 0) % 256 = omega arith in
      let same : n + 0 ≡ n = omega arith in
      rw (ack_sent r.lastack r.window_size (length ps) ew) (
        yields (record {
          count = 0;
          count_eq = sym none_due;
          waiting_eq = refl;
          counted = omega arith;
          last = omega arith;
          gone = i;
          rest = m;
          whole = ei;
          waiting = ps;
          room = room;
          buffer = eb;
          sorted = s;
          held = rw same (raise n r.lastack 1 1 ps s (omega arith) w);
          window = ew;
          bytes = refl;
          acks = (
            n + 0,
            max_window_size - length ps,
            omega arith,
            omega arith,
            rw now refl,
            omega arith,
          );
          early = [];
          acknowledged = rw now refl;
        }))

  -- What one more packet before a drained loop gives.
  following :
      (n : ℕ) (p : Pkt) (ps : List Pkt) (r : Receiver) (out : List Output) (ack : List ℕ) (k : ℕ)
      → consecutive n (p ∷ ps) ≡ suc (consecutive (suc n) ps)
      → ack ≡ frame crc32 (control ptype_ack (max_window_size - k) (suc n % 256))
      → IsDrained (suc n) ps r out
      → IsDrained n (p ∷ ps) r (delivered (data_of n) ∷ sent ack ∷ out)
  following n p ps r out ack k one_more shape d =
      let same : suc n + d.count ≡ n + suc d.count = omega arith in
      let acks = d.acks in
      let shown =
        ap {A = List Output} {B = List Output} (λ o. delivered (data_of n) ∷ sent ack ∷ o)
          d.acknowledged in
      record {
        count = suc d.count;
        count_eq = ap suc d.count_eq ∙ sym one_more;
        waiting_eq = d.waiting_eq;
        counted = omega (arith, d.counted);
        last = omega (arith, d.last);
        gone = d.gone;
        rest = d.rest;
        whole = d.whole;
        waiting = d.waiting;
        room = d.room;
        buffer = d.buffer;
        sorted = d.sorted;
        held = rw same at d.held;
        window = d.window;
        bytes = ap (◌++◌ (data_of n)) d.bytes;
        acks = (suc n, max_window_size - k, omega arith, omega arith, shape, rw same at acks);
        early = delivered (data_of n) ∷ sent ack ∷ d.early;
        acknowledged = rw same at shown;
      }

  pub drain-IsDrained :
      (n i m : ℕ) (ps : List Pkt) (r : Receiver)
      → i + m ≡ max_window_size
      → length ps < m
      → r.lastack ≡ (n + 255) % 256
      → r.receive_buffer ≡ replicate i none ++ slots m ps
      → r.window_size ≡ pos (max_window_size - length ps)
      → IsSorted r.lastack 0 ps
      → All (IsWaiting data_of n r.lastack 0) ps
      → Yields (λ (r', out). IsDrained n ps r' out) (drain crc32 junk memory m i r)
  unfolding drain pkt_get_seqnum
  drain-IsDrained n i zero ps r ei room el eb ew s w = absurd (omega arith)
  drain-IsDrained n i (suc m) [] r ei room el eb ew s w =
      let loaded : load r.receive_buffer i ≡ ok none =
        rw eb (load-append (replicate i none) none (slots m []) (sym (length-replicate i none))) in
      rw loaded (stopped n i (suc m) [] r ei (omega arith) el eb ew tt tt refl)
  drain-IsDrained n i (suc m) (p ∷ ps) r ei room el eb ew s w =
      let holes : Buffer = replicate i none in
      let size : i ≡ length holes = sym (length-replicate i none) in
      let behind = slots m ps in
      let loaded : load r.receive_buffer i ≡ ok (some p) =
        rw eb (load-append holes (some p) behind size) in
      let next = (r.lastack + 1) % 256 in
      rw loaded (
        Yields-if (p.seqnum == next)
          (λ due.
            let numbered : (p.seqnum == n % 256) ≡ true = ground (arith, el) in
            let one_more : consecutive n (p ∷ ps) ≡ suc (consecutive (suc n) ps) =
              rw numbered refl in
            let here : n + ahead r.lastack p.seqnum ≡ n = ground (arith, w.0.numbered) in
            let payload : write_payload p ≡ ok (data_of n) =
              w.0.payload ∙ ap (λ k. ok (data_of k)) here in
            let after : Buffer = replicate (i + 1) none ++ behind in
            let moved : holes ++ none ∷ behind ≡ after =
              rw (replicate-add {A = Option Pkt} i 1 none, append_assoc holes (none ∷ []) behind)
                refl in
            let stored : store r.receive_buffer i none ≡ ok after =
              rw eb (store-append holes (some p) none behind size ∙ ap ok moved) in
            let grown : r.window_size +ℤ pos 1 ≡ pos (max_window_size - length ps) =
              grind int_laws in
            let r' : Receiver = record {
              lastack = next;
              window_size = r.window_size +ℤ pos 1;
              receive_buffer = after;
            } in
            let far : suc (ahead r.lastack p.seqnum) ≡ 1 = omega arith in
            let sorted : IsSorted r.lastack 1 ps = rw far at s.2 in
            let ih =
              drain-IsDrained (suc n) (i + 1) m ps r' (omega arith) (omega arith) (omega arith) refl
                grown (IsSorted-next data_of r.lastack next 0 ps (omega arith) refl sorted)
                (IsWaiting-next data_of n r.lastack next ps (omega arith) refl
                  (raise n r.lastack 1 1 ps sorted (omega arith) w.1)) in
            rw
              (
                payload,
                pkt_del-owned p w.0.owned,
                stored,
                ack_sent next (r.window_size +ℤ pos 1) (length ps) grown,
              )
              (Yields-bind ih λ (r'', out) d. yields (
                following n p ps r'' out _ (length ps) one_more
                  (let here : (next + 1) % 256 ≡ suc n % 256 = omega arith in rw here refl) d)))
          λ later.
            let far : 1 ≤ ahead r.lastack p.seqnum = ground (arith, w.0.numbered) in
            let other : (p.seqnum == n % 256) ≡ false = ground (arith, el) in
            stopped n i (suc m) (p ∷ ps) r ei (omega arith) el eb ew (far, s.1, s.2) w
              (rw other refl))

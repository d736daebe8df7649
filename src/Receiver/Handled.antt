-- ===== src/Receiver/Handled.antt =====
-- What a round of the loop of sel_repeat_read.c leaves before its `refresh`, and the packets that go
-- into the buffer.
use projet.Base.{
  ℕ, suc, ◌+◌, ◌-◌, ◌%◌, ◌≤◌, ◌<◌, ◌≡◌, ◌≢◌, refl, sym, ap, ◌∙◌, none, false, List, [], ◌∷◌, ◌++◌,
  arith, length, All, replicate, ◌==◌, inl, inr,
}
use projet.Base.Exec.{ok, ◌>>=◌, Yields, yields, Yields-bind}
use projet.Base.Array.{load, prefix-append}
use projet.Base.Swap.{length-perm}
use projet.Base.Int.{ℤ, pos, int_laws}
use projet.Packet.{Pkt, wild, max_window_size, pkt_get_seqnum, pkt_get_length, pkt_get_payload}
use projet.Receiver.{Receiver, Buffer, Output, write_payload, remove_from_buffer, insert_pkt}
use projet.Packet.Wire.{Content}
use projet.Packet.Decode.Accept.{decoded}
use projet.Receiver.Insert.{slots, IsSorted, IsInserted, insert_pkt_all}
use projet.Receiver.Stream.{written, segment, Acks, IsWaiting, Expects, length-IsWaiting}

-- Of a decoded packet the payload is written, without its padding.
pub write_payload-decoded :
    (crc32 : List ℕ → ℕ) (c : Content) (filler : List ℕ)
    → write_payload (decoded crc32 c filler) ≡ ok c.payload
unfolding write_payload pkt_get_length pkt_get_payload
write_payload-decoded crc32 c filler = prefix-append c.payload _ refl

module _ (data_of : ℕ → List ℕ) where
  -- The packet is the number `k` of the stream, at most 225 behind `n` and less than 31 ahead of it.
  pub record IsArrived (n : ℕ) (pkt : Pkt) : Type 0 where
    pub k : ℕ
    pub near : k < n + 31
    pub old : n ≤ k + 225
    pub numbered : pkt.seqnum ≡ k % 256
    pub payload : write_payload pkt ≡ ok (data_of k)
    pub owned : pkt.payload ≢ wild

  -- What a round leaves before its `refresh`: the first slots may be empty.
  pub record IsHandled (n : ℕ) (r : Receiver) (out : List Output) : Type 0 where
    pub count : ℕ
    pub few : count ≤ max_window_size
    pub last : r.lastack ≡ (n + count + 255) % 256
    pub gone : ℕ
    pub rest : ℕ
    pub whole : gone + rest ≡ max_window_size
    pub waiting : List Pkt
    pub room : length waiting ≤ rest
    pub buffer : r.receive_buffer ≡ replicate gone none ++ slots rest waiting
    pub sorted : IsSorted r.lastack 1 waiting
    pub held : All (IsWaiting data_of (n + count) r.lastack 1) waiting
    pub window : r.window_size ≡ pos (max_window_size - length waiting)
    pub bytes : written out ≡ segment data_of count n

  -- What a packet that is accepted leads to: what is sent acknowledges it and those before.
  abbrev pub IsAccepted : (List ℕ → ℕ) → ℕ → Receiver × List Output → Type 0
  IsAccepted crc32 n (r, out) = (h : IsHandled n r out) × Acks crc32 n (n + h.count) out

  pub IsSorted-zero : (l low : ℕ) (ps : List Pkt) → IsSorted l low ps → IsSorted l 0 ps
  IsSorted-zero l low [] s = tt
  IsSorted-zero l low (p ∷ ps) s = (omega arith, s.1, s.2)

  pub IsSorted-one :
      (n l : ℕ) (ps : List Pkt)
      → All (IsWaiting data_of n l 1) ps
      → IsSorted l 0 ps
      → IsSorted l 1 ps
  IsSorted-one n l [] w s = tt
  IsSorted-one n l (p ∷ ps) w s = (w.0.far, s.1, s.2)

  -- Nothing that is written is left to do.
  pub unchanged :
      (n : ℕ) (r : Receiver) (ps : List Pkt) (b : Buffer) (w : ℤ) (out : List Output)
      → r.lastack ≡ (n + 255) % 256
      → b ≡ slots max_window_size ps
      → w ≡ pos (max_window_size - length ps)
      → IsSorted r.lastack 1 ps
      → All (IsWaiting data_of n r.lastack 1) ps
      → written out ≡ []
      → IsHandled n (record r { receive_buffer = b; window_size = w }) out
  unchanged n r ps b w out el eb ew s h eo =
      let same : n + 0 ≡ n = omega arith in
      record {
        count = 0;
        few = omega arith;
        last = omega arith;
        gone = 0;
        rest = max_window_size;
        whole = refl;
        waiting = ps;
        room = omega (arith, length-IsWaiting data_of n r.lastack 1 1 ps (omega arith) s h);
        buffer = eb;
        sorted = s;
        held = rw same h;
        window = ew;
        bytes = eo;
      }

  -- The slot that the code would release is never the expected packet's.
  pub remove_from_buffer-kept :
      (l n : ℕ) (ps : List Pkt) (w : ℤ)
      → l < 256
      → IsSorted l 1 ps
      → remove_from_buffer (slots max_window_size ps) ((l + 1) % 256) w
        ≡ ok (slots max_window_size ps, w)
  unfolding remove_from_buffer pkt_get_seqnum load
  remove_from_buffer-kept l n [] w hl s = refl
  remove_from_buffer-kept l n (p ∷ ps) w hl s =
      let other : (p.seqnum == (l + 1) % 256) ≡ false = ground (arith, s.0, s.1) in rw other refl

  pub window_after :
      (pkt : Pkt) (ps ps' : List Pkt) (w w' : ℤ)
      → IsInserted pkt ps w ps' w'
      → length ps < max_window_size
      → w ≡ pos (max_window_size - length ps)
      → w' ≡ pos (max_window_size - length ps')
  window_after pkt ps ps' w w' (inl (q, m, eq, same, kept)) h e =
      kept ∙ e ∙ ap (λ l. pos (max_window_size - length l)) (sym same)
  window_after pkt ps ps' w w' (inr (others, perm, less)) h e =
      let size : length ps' ≡ suc (length ps) = length-perm perm in grind int_laws

  -- A packet of the window that is not the expected one goes into the buffer.
  pub inserted :
      (crc32 : List ℕ → ℕ) (n : ℕ) (r : Receiver) (e : Expects data_of n r) (pkt : Pkt)
      → IsWaiting data_of n r.lastack 1 pkt
      → Yields (IsAccepted crc32 n) (
          insert_pkt r.lastack r.receive_buffer pkt r.window_size >>= λ (buffer, window_size).
          ok (record r { window_size = window_size; receive_buffer = buffer }, []))
  inserted crc32 n r e pkt new =
      let l = r.lastack in
      let room = length-IsWaiting data_of n l 1 1 e.waiting (omega arith) e.sorted e.held in
      let run =
        insert_pkt_all l pkt r.window_size (omega (arith, e.last)) new.numbered new.owned e.waiting
          (omega arith) (IsSorted-zero l 1 e.waiting e.sorted) in
      rw (e.buffer) (
        Yields-bind run λ (b, w) (ps', parts, sorted, change, kept). yields (
          let held = kept (IsWaiting data_of n l 1) new e.held in
          (
            unchanged n r ps' b w [] e.last parts
                (window_after pkt e.waiting ps' r.window_size w change (omega arith) e.window)
                (IsSorted-one n l ps' held sorted) held refl,
            omega arith,
          )))

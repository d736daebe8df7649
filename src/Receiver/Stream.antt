-- ===== src/Receiver/Stream.antt =====
-- What the receiver of sel_repeat_read.c promises: the stream of payloads, of which the packet
-- number `k` carries `data k` under the sequence number `k % 256`, is written in order.
use projet.Base.{
  ℕ, zero, suc, ◌+◌, ◌-◌, ◌%◌, ◌≤◌, ◌<◌, ◌≡◌, ◌≢◌, List, [], ◌∷◌, ◌++◌, arith, length, All,
  if◌then◌else◌, ◌==◌,
}
use projet.Base.Exec.{ok}
use projet.Base.Int.{pos}
use projet.Base.Word.{u16}
use projet.Packet.{Pkt, wild, ptype_ack, max_window_size}
use projet.Packet.Wire.{Content, IsContent, control, gap, size, frame, framed}
use projet.Receiver.{Receiver, Output, delivered, sent, write_payload}
use projet.Receiver.Seqnum.{ahead}
use projet.Receiver.Insert.{slots, IsSorted}

-- The bytes that go to the standard output.
abbrev pub written : List Output → List ℕ
written [] = []
written (delivered bytes ∷ out) = bytes ++ written out
written (sent datagram ∷ out) = written out

-- What is sent are acknowledgements, each of all packets before a number; the numbers do not go
-- down, from `low` on, and are at most `high`. The windows are at most 31.
abbrev pub Acks : (List ℕ → ℕ) → ℕ → ℕ → List Output → Type 0
Acks crc32 low high [] = low ≤ high
Acks crc32 low high (delivered bytes ∷ out) = Acks crc32 low high out
Acks crc32 low high (sent datagram ∷ out) =
    (number : ℕ) × (window : ℕ) × (low ≤ number)
    × (window ≤ max_window_size)
    × (datagram ≡ frame crc32 (control ptype_ack window (number % 256)))
    × Acks crc32 number high out

pub Acks-lower :
    (crc32 : List ℕ → ℕ) (low low' high : ℕ) (out : List Output)
    → low' ≤ low
    → Acks crc32 low high out
    → Acks crc32 low' high out
Acks-lower crc32 low low' high [] h a = omega arith
Acks-lower crc32 low low' high (delivered bytes ∷ out) h a = Acks-lower crc32 low low' high out h a
Acks-lower crc32 low low' high (sent datagram ∷ out) h (number, window, from, narrow, same, later) =
    (number, window, omega arith, narrow, same, later)

-- How many packets at the start of the list have the numbers from `n` on, one after the other.
abbrev pub consecutive : ℕ → List Pkt → ℕ
consecutive n [] = 0
consecutive n (p ∷ ps) = if p.seqnum == n % 256 then suc (consecutive (suc n) ps) else 0

module _ (data_of : ℕ → List ℕ) where
  -- The payloads of `count` packets from the number `n` on.
  abbrev pub segment : ℕ → ℕ → List ℕ
  segment zero n = []
  segment (suc count) n = data_of n ++ segment count (suc n)

  -- A packet that waits for the numbers from `n` on to come; `low` is its least distance.
  pub record IsWaiting (n lastack low : ℕ) (p : Pkt) : Type 0 where
    pub numbered : p.seqnum < 256
    pub far : low ≤ ahead lastack p.seqnum
    pub near : ahead lastack p.seqnum < max_window_size
    pub payload : write_payload p ≡ ok (data_of (n + ahead lastack p.seqnum))
    pub owned : p.payload ≢ wild

  -- The receiver expects the packet number `n`: the buffer holds packets behind it in their order,
  -- and the window is the number of free slots.
  pub record Expects (n : ℕ) (r : Receiver) : Type 0 where
    pub last : r.lastack ≡ (n + 255) % 256
    pub waiting : List Pkt
    pub buffer : r.receive_buffer ≡ slots max_window_size waiting
    pub sorted : IsSorted r.lastack 1 waiting
    pub held : All (IsWaiting n r.lastack 1) waiting
    pub window : r.window_size ≡ pos (max_window_size - length waiting)

  -- The first `len` bytes, if they are a packet in the format at all, are a packet of the stream that
  -- is less than 31 numbers ahead of the expected one, and at most 225 behind it.
  abbrev pub IsGenuine : (List ℕ → ℕ) → ℕ → List ℕ → ℕ → Type 0
  IsGenuine crc32 n bytes len =
      (c : Content) (filler rest : List ℕ)
      → IsContent c
      → length filler ≡ gap (length c.payload)
      → u16 len ≡ size c
      → bytes ≡ framed crc32 c filler ++ rest
      → (k : ℕ) × (k < n + 31) × (n ≤ k + 225) × (c.seqnum ≡ k % 256) × (c.payload ≡ data_of k)

  -- One packet has come: the distances go down by one.
  pub IsSorted-next :
      (l l' low : ℕ) (ps : List Pkt)
      → l < 256
      → l' ≡ (l + 1) % 256
      → IsSorted l (suc low) ps
      → IsSorted l' low ps
  IsSorted-next l l' low [] h e s = tt
  IsSorted-next l l' low (p ∷ ps) h e s =
      let down : suc (ahead l' p.seqnum) ≡ ahead l p.seqnum = omega (arith, s.0, s.1) in
      (omega (arith, s.0), s.1, IsSorted-next l l' (suc (ahead l' p.seqnum)) ps h e (rw down s.2))

  pub IsWaiting-next :
      (n l l' : ℕ) (ps : List Pkt)
      → l < 256
      → l' ≡ (l + 1) % 256
      → All (IsWaiting n l 1) ps
      → All (IsWaiting (suc n) l' 0) ps
  IsWaiting-next n l l' [] h e w = tt
  IsWaiting-next n l l' (p ∷ ps) h e (w, ws) =
      let down : suc n + ahead l' p.seqnum ≡ n + ahead l p.seqnum =
        omega (arith, w.far, w.numbered) in
      (
        record {
          numbered = w.numbered;
          far = omega arith;
          near = omega (arith, w.far, w.near, w.numbered);
          payload = rw down w.payload;
          owned = w.owned;
        },
        IsWaiting-next n l l' ps h e ws,
      )

  -- Sorted packets of the window are at most as many as the distances from the least one on.
  pub length-IsWaiting :
      (n l low low' : ℕ) (ps : List Pkt)
      → low ≤ max_window_size
      → IsSorted l low ps
      → All (IsWaiting n l low') ps
      → length ps + low ≤ max_window_size
  length-IsWaiting n l low low' [] h s w = omega arith
  length-IsWaiting n l low low' (p ∷ ps) h s (w, ws) = omega (
    arith,
    s.0,
    w.near,
    length-IsWaiting n l (suc (ahead l p.seqnum)) low' ps (omega (arith, w.near)) s.2 ws,
  )

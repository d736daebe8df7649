-- ===== src/Protocol/Damage.antt =====
-- A packet that the link has corrupted or cut, at the receiver of sel_repeat_read.c.
use mathlib.Core.Path.{subst}
use projet.Base.{
  ℕ, ◌+◌, ◌-◌, ◌*◌, ◌/◌, ◌%◌, ◌^◌, ◌≤◌, ◌<◌, ◌≡◌, refl, sym, ap, ◌∙◌, Bool, true, false, ◌&&◌, not,
  ◌==◌, if◌then◌else◌, ltb, leb, List, [], ◌∷◌, ◌++◌, arith, length, take, replicate, append_assoc,
  length-replicate,
}
use projet.Base.Exec.{ok, Yields, yields, Yields-inv}
use projet.Base.Word.{u16}
use projet.Base.Int.{pos}
use projet.Packet.{
  Pkt, Status, e_crc, e_unconsistent, ptype_nack, max_window_size, pkt_get_seqnum, pkt_new,
}
use projet.Packet.Wire.{Content, IsContent, control, gap, size, covered, frame}
use projet.Packet.Decode.{failed, is_noheader, pkt_decode}
use projet.Packet.Decode.Accept.{number32, pkt_decode-checked}
use projet.Packet.Decode.Refuse.{is_type, in_order, pkt_decode-refusal}
use projet.Link.Effect.{inverted, inverted-append}
use projet.Receiver.{Receiver, Buffer, Output, sent, is_unconsistent, refresh, handle, round}
use projet.Receiver.Seqnum.{ahead, window_test}
use projet.Receiver.Control.{send_nack-frame}
use projet.Receiver.Insert.{slots}
use projet.Receiver.Stream.{Expects, length-IsWaiting}
use projet.Receiver.Drain.{refresh-slots}

module _ (crc32 : List ℕ → ℕ) (junk : ℕ) where
  -- The simulated corruption of a packet is always detected: `pkt_decode` answers E_CRC.
  pub pkt_decode-inverted :
      (c : Content) (rest : List ℕ) (len : ℕ) (pkt₀ : Pkt)
      → IsContent c
      → u16 len ≡ size c
      → Yields
          (λ r. (r.0 ≡ e_crc) × (r.1.seqnum ≡ c.seqnum))
          (pkt_decode crc32 junk (inverted (frame crc32 c) ++ rest) len pkt₀)
  pkt_decode-inverted c rest len pkt₀ v sized =
      let filler = replicate (gap (length c.payload)) 0 in
      let head = covered c filler in
      let w = crc32 head % 2 ^ 32 in
      let s₀ = w / 2 ^ 24 % 256 in
      let s₁ = w / 2 ^ 16 % 256 in
      let s₂ = w / 2 ^ 8 % 256 in
      let s₃ = w % 256 in
      let filled : length filler ≡ gap (length c.payload) =
        length-replicate {A = ℕ} (gap (length c.payload)) 0 in
      let b₀ : s₀ < 256 = omega arith in
      let b₁ : s₁ < 256 = omega arith in
      let b₂ : s₂ < 256 = omega arith in
      let b₃ : 255 - s₃ < 256 = omega arith in
      let front = s₀ ∷ s₁ ∷ s₂ ∷ [] in
      let wrong : (number32 s₀ s₁ s₂ (255 - s₃) == w) ≡ false = ground arith in
      let flipped : inverted (frame crc32 c) ++ rest ≡ head ++ s₀ ∷ s₁ ∷ s₂ ∷ (255 - s₃) ∷ rest =
        ap (λ b. b ++ rest)
          (ap inverted (sym (append_assoc head front (s₃ ∷ [])))
            ∙ inverted-append (head ++ front) s₃
            ∙ append_assoc head front ((255 - s₃) ∷ []))
        ∙ append_assoc head (s₀ ∷ s₁ ∷ s₂ ∷ (255 - s₃) ∷ []) rest in
      rw
        (
          flipped,
          pkt_decode-checked crc32 junk c filler s₀ s₁ s₂ (255 - s₃) rest pkt₀ v filled b₀ b₁ b₂ b₃
              len sized,
          wrong,
        )
        (yields (refl, refl))

module _ (data_of : ℕ → List ℕ) (crc32 : List ℕ → ℕ) (junk : ℕ) (memory : Pkt) where
  -- The receiver is as it was, still expects the packet `n`, and its outputs are `out`.
  abbrev pub Stays : ℕ → Receiver → List Output → Receiver × List Output → Type 0
  Stays n r out (r', out') = Expects data_of n r' × (r' ≡ r) × (out' ≡ out)

  -- What a refused packet is answered by.
  abbrev answer : Receiver → ℕ → Status → Pkt → ℕ → List Output
  answer r sdu_size err pkt free =
      if ltb (ahead r.lastack pkt.seqnum) max_window_size && (is_unconsistent err && sdu_size == 4)
      then sent (frame crc32 (control ptype_nack free (pkt.seqnum % 256))) ∷ []
      else []

  choose :
      {A : Type 0} (inside cut : Bool) (f : List Output → A) (nack : List Output)
      → (if not inside then f [] else if cut then f nack else f [])
        ≡ f (if inside && cut then nack else [])
  choose true true f nack = refl
  choose true false f nack = refl
  choose false cut f nack = refl

  handle-refused :
      (n : ℕ) (r : Receiver) (e : Expects data_of n r) (sdu_size : ℕ) (err : Status) (pkt : Pkt)
      → failed err ≡ true
      → pkt.seqnum < 256
      → handle crc32 junk memory r sdu_size err pkt
        ≡ ok (r, answer r sdu_size err pkt (max_window_size - length e.waiting))
  unfolding handle pkt_get_seqnum
  handle-refused n r e sdu_size err pkt bad small =
      let last : r.lastack < 256 = omega (arith, e.last) in
      let free : max_window_size - length e.waiting ≤ max_window_size = omega arith in
      rw
        (
          window_test r.lastack pkt.seqnum last small,
          bad,
          e.window,
          send_nack-frame crc32 junk memory pkt.seqnum (max_window_size - length e.waiting) free,
        )
        (choose (ltb (ahead r.lastack pkt.seqnum) max_window_size)
          (is_unconsistent err && sdu_size == 4)
          (λ out. ok (record r { window_size = pos (max_window_size - length e.waiting) }, out)) _)

  -- A round with a packet that is refused.
  round-refused :
      (n : ℕ) (r : Receiver) (e : Expects data_of n r) (bytes : List ℕ) (len : ℕ) (err : Status)
      (pkt : Pkt)
      → pkt_decode crc32 junk bytes len (pkt_new memory) ≡ ok (err, pkt)
      → failed err ≡ true
      → is_noheader err ≡ false
      → pkt.seqnum < 256
      → Yields
          (Stays n r (answer r len err pkt (max_window_size - length e.waiting)))
          (round crc32 junk memory r bytes len)
  unfolding round
  round-refused n r e bytes len err pkt run bad header small =
      let few : length e.waiting ≤ max_window_size =
        omega (
          arith,
          length-IsWaiting data_of n r.lastack 1 1 e.waiting (omega arith) e.sorted e.held,
        ) in
      let same : refresh r.receive_buffer ≡ ok (slots max_window_size e.waiting) =
        rw e.buffer (refresh-slots 0 max_window_size e.waiting refl few) in
      rw (run, header, handle-refused n r e len err pkt bad small, same)
        (yields (
          record {
            last = e.last;
            waiting = e.waiting;
            buffer = refl;
            sorted = e.sorted;
            held = e.held;
            window = e.window;
          },
          ap (λ (b : Buffer). record r { receive_buffer = b }) (sym e.buffer),
          refl,
        ))

  silence :
      (inside cut : Bool) (nack : List Output)
      → cut ≡ false
      → (if inside && cut then nack else []) ≡ []
  silence true true nack h = absurd cc
  silence true false nack h = refl
  silence false cut nack h = refl

  and_true : (b : Bool) → (b && true) ≡ b
  and_true b = ground arith

  no_match : (a b c d : Bool) → d ≡ false → (a && b && c && d) ≡ false
  no_match a b c d h = ground arith

  -- A packet whose last byte the link has inverted, whatever the packet, and whatever the buffer holds
  -- behind it, changes nothing at a receiver that expects the packet number `n`: its variables, the
  -- buffer with the packets that wait included, are as before, nothing is written, and nothing is
  -- sent.
  pub round-inverted :
      (n : ℕ) (r : Receiver) (c : Content) (rest : List ℕ) (len : ℕ)
      → Expects data_of n r
      → IsContent c
      → u16 len ≡ size c
      → Yields (Stays n r []) (round crc32 junk memory r (inverted (frame crc32 c) ++ rest) len)
  unfolding failed
  round-inverted n r c rest len e v sized =
      let ((err, pkt), run, (wrong, seqnum)) =
        Yields-inv (pkt_decode-inverted crc32 junk c rest len (pkt_new memory) v sized) in
      let free = max_window_size - length e.waiting in
      let bad : failed err ≡ true = rw wrong refl in
      let header : is_noheader err ≡ false = rw wrong refl in
      let silent : answer r len err pkt free ≡ [] =
        silence (ltb (ahead r.lastack pkt.seqnum) max_window_size) (is_unconsistent err && len == 4)
          _ (rw wrong refl) in
      subst
        (λ out.
          Yields (Stays n r out) (round crc32 junk memory r (inverted (frame crc32 c) ++ rest) len))
        silent
        (round-refused n r e (inverted (frame crc32 c) ++ rest) len err pkt run bad header
          (omega (arith, seqnum, v.numbered)))

  -- A packet that the link has cut to its header is answered by a NACK with its number where that
  -- is one of the window.
  round-cut-answer :
      (n k : ℕ) (r : Receiver) (e : Expects data_of n r) (c : Content) (rest : List ℕ)
      → IsContent c
      → c.seqnum ≡ k % 256
      → Yields
          (Stays n r (
            if ltb (ahead r.lastack (k % 256)) max_window_size
            then sent
                (frame crc32 (control ptype_nack (max_window_size - length e.waiting) (k % 256)))
              ∷ []
            else []))
          (round crc32 junk memory r (take 4 (frame crc32 c) ++ rest) 4)
  unfolding failed
  round-cut-answer n k r e c rest v number =
      let bytes = take 4 (frame crc32 c) ++ rest in
      let size = length c.payload in
      let short = v.short in
      let typed = v.typed in
      let narrow = v.narrow in
      let first : c.type * 32 + c.window < 256 = ground arith in
      let claimed = size / 256 % 256 * 256 + size % 256 in
      let unequal : (claimed + 8 + gap claimed == u16 4) ≡ false = ground arith in
      let disordered : in_order ((c.type * 32 + c.window) / 32) claimed 4 ≡ false =
        no_match (is_type ((c.type * 32 + c.window) / 32)) (leb claimed 512) _ _ unequal in
      let ((err, pkt), run, refused) = Yields-inv (
        pkt_decode-refusal crc32 junk (c.type * 32 + c.window) c.seqnum (size / 256 % 256)
          (size % 256) rest 4 (pkt_new memory) first (omega (arith, v.numbered)) (omega arith)
          (omega arith) (omega arith) disordered) in
      let free = max_window_size - length e.waiting in
      let cut : err ≡ e_unconsistent = refused.status in
      let bad : failed err ≡ true = rw cut refl in
      let header : is_noheader err ≡ false = rw cut refl in
      let seqnum : pkt.seqnum ≡ k % 256 = refused.seqnum_stored ∙ number in
      let again : k % 256 % 256 ≡ k % 256 = omega arith in
      let nack : answer r 4 err pkt free ≡ (
          if ltb (ahead r.lastack (k % 256)) max_window_size
          then sent (frame crc32 (control ptype_nack free (k % 256))) ∷ []
          else []) =
        rw (cut, seqnum, again)
          (ap
            (λ (b : Bool).
              if b then sent (frame crc32 (control ptype_nack free (k % 256))) ∷ [] else [])
            (and_true (ltb (ahead r.lastack (k % 256)) max_window_size))) in
      subst (λ out. Yields (Stays n r out) (round crc32 junk memory r bytes 4)) nack
        (round-refused n r e bytes 4 err pkt run bad header (omega (arith, seqnum)))

  -- A packet that the link has cut to its header, whatever the buffer holds behind it, with one of
  -- the numbers from the expected one to 30 ahead of it, is answered by a NACK with its number, and with the free slots for window; nothing is
  -- written, and the variables of the receiver stay as they were.
  pub round-cut :
      (n k : ℕ) (r : Receiver) (e : Expects data_of n r) (c : Content) (rest : List ℕ)
      → IsContent c
      → c.seqnum ≡ k % 256
      → n ≤ k
      → k < n + max_window_size
      → Yields
          (Stays n r (
            sent (frame crc32 (control ptype_nack (max_window_size - length e.waiting) (k % 256)))
            ∷ []))
          (round crc32 junk memory r (take 4 (frame crc32 c) ++ rest) 4)
  round-cut n k r e c rest v number from near =
      let inside : ltb (ahead r.lastack (k % 256)) max_window_size ≡ true =
        ground (arith, e.last) in
      (rw inside at (round-cut-answer n k r e c rest v number))

  -- One with a number before the window is not answered.
  pub round-cut-before :
      (n k : ℕ) (r : Receiver) (c : Content) (rest : List ℕ)
      → Expects data_of n r
      → IsContent c
      → c.seqnum ≡ k % 256
      → k < n
      → n ≤ k + 225
      → Yields (Stays n r []) (round crc32 junk memory r (take 4 (frame crc32 c) ++ rest) 4)
  round-cut-before n k r c rest e v number before near =
      let outside : ltb (ahead r.lastack (k % 256)) max_window_size ≡ false =
        ground (arith, e.last) in
      (rw outside at (round-cut-answer n k r e c rest v number))

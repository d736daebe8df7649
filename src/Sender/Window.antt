-- ===== src/Sender/Window.antt =====
-- `modify_buffer` of sel_repeat_write.c.
use mathlib.Core.Path.{subst}
use projet.Base.{
  ℕ, zero, suc, ◌+◌, ◌≡◌, refl, sym, ap, ◌∙◌, List, [], ◌∷◌, ◌++◌, arith, length, replicate, All,
  append_assoc, length-append, last_cut, length-replicate,
}
use projet.Base.Exec.{ok, fault, Yields, yields, Yields-map, Yields-inv}
use projet.Base.Array.{load, load-append, store-append}
use projet.Base.Int.{ℤ, pos, negsuc, pos_part, ◌+ℤ◌, ◌-ℤ◌, int_laws}
use projet.Packet.{pkt_del, released}
use projet.Sender.{
  Slot, null, timer, PktTimer, release_slots, move_slots, clear_slots, modify_buffer,
}

-- A slot whose packet can be released.
pub data IsOwned : Slot → Type 0 where
  owned : (t : PktTimer) → pkt_del t.packet ≡ ok (released t.packet) → IsOwned (timer t)

replicate_snoc :
    (n : ℕ) (rest : List Slot) → replicate n null ++ null ∷ rest ≡ null ∷ (replicate n null ++ rest)
replicate_snoc zero rest = refl
replicate_snoc (suc n) rest = ap (◌∷◌ null) (replicate_snoc n rest)

All-append_left :
    (xs : List Slot) (z : Slot) → All IsOwned (xs ++ z ∷ []) → All IsOwned xs × IsOwned z
All-append_left [] z h = (tt, h.0)
All-append_left (x ∷ xs) z h = let (front, last) = All-append_left xs z h.1 in ((h.0, front), last)

-- One round of the first loop, on an owned slot.
release_round :
    (n : ℕ) (init : List Slot) (z : Slot) (rest after : List Slot)
    → length init ≡ n
    → IsOwned z
    → release_slots n (init ++ null ∷ rest) ≡ ok after
    → release_slots (suc n) ((init ++ z ∷ []) ++ rest) ≡ ok after
unfolding release_slots
release_round n init _ rest after en (owned t e) next =
    rw
      (
        append_assoc init (timer t ∷ []) rest,
        load-append init (timer t) rest (sym en),
        e,
        store-append init (timer t) null rest (sym en),
      )
      next

-- The slots before `rest` are cleared, from the last one down.
release_slots-append :
    (n : ℕ) (done rest : List Slot)
    → length done ≡ n
    → All IsOwned done
    → release_slots n (done ++ rest) ≡ ok (replicate n null ++ rest)
unfolding release_slots
release_slots-append zero [] rest en h = refl
release_slots-append (suc n) (x ∷ xs) rest en h =
    let (init, z, e) = last_cut x xs in
    let owned_all : All IsOwned (init ++ z ∷ []) = subst (All IsOwned) e h in
    let (front, last) = All-append_left init z owned_all in
    let size : length init ≡ n = omega (arith, ap length e, length-append init (z ∷ [])) in
    let ih = release_slots-append n init (null ∷ rest) size front in
    subst (λ l. release_slots (suc n) (l ++ rest) ≡ ok (replicate (suc n) null ++ rest)) (sym e)
      (release_round n init z rest _ size last (ih ∙ ap ok (replicate_snoc n rest)))
release_slots-append zero (x ∷ xs) rest en h = absurd (omega arith)
release_slots-append (suc n) [] rest en h = absurd (omega arith)

-- The slots behind a hole of `a + 1` slots move to its start.
move_slots-append :
    (n a i : ℕ) (pre mid src post : List Slot)
    → length src ≡ n
    → length mid ≡ a + 1
    → length pre ≡ i
    → Yields
        (λ b. (tail : List Slot) × (b ≡ pre ++ (src ++ (tail ++ post))) × (length tail ≡ a + 1))
        (move_slots n (pos a) i (pre ++ (mid ++ (src ++ post))))
unfolding move_slots
move_slots-append zero a i pre mid [] post en em ei = yields (mid, refl, em)
move_slots-append (suc n) a i pre (m ∷ mid) (x ∷ src) post en em ei =
    let index : pos a +ℤ pos 1 +ℤ pos i ≡ pos (i + (a + 1)) = grind int_laws in
    let loaded : load (pre ++ (m ∷ mid ++ (x ∷ src ++ post))) (i + (a + 1)) ≡ ok x =
      rw (← append_assoc pre (m ∷ mid) (x ∷ src ++ post)) (
        load-append (pre ++ m ∷ mid) x (src ++ post)
          (omega (arith, length-append pre (m ∷ mid)))) in
    let ih =
      move_slots-append n a (i + 1) (pre ++ x ∷ []) (mid ++ x ∷ []) src post (omega arith)
        (omega (arith, length-append mid (x ∷ []))) (omega (arith, length-append pre (x ∷ []))) in
    rw (index, loaded, store-append pre m x (mid ++ (x ∷ src ++ post)) (sym ei))
      (Yields-map
        (rw
          (
            append_assoc pre (x ∷ []) ((mid ++ x ∷ []) ++ (src ++ post)),
            append_assoc mid (x ∷ []) (src ++ post),
          )
          at ih)
        λ b (tail, parts, size).
          (tail, parts ∙ append_assoc pre (x ∷ []) (src ++ (tail ++ post)), size))
move_slots-append zero a i pre mid (x ∷ src) post en em ei = absurd (omega arith)
move_slots-append (suc n) a i pre [] (x ∷ src) post en em ei = absurd (omega arith)
move_slots-append (suc n) a i pre mid [] post en em ei = absurd (omega arith)

-- The slots between `pre` and `post` are cleared, from the last one down.
clear_slots-append :
    (n : ℕ) (pre tail post : List Slot) (last : ℤ)
    → length tail ≡ n
    → last ≡ pos (length pre + n) -ℤ pos 1
    → clear_slots n last (pre ++ (tail ++ post)) ≡ ok (pre ++ (replicate n null ++ post))
unfolding clear_slots
clear_slots-append zero pre [] post last en el = refl
clear_slots-append (suc n) pre (x ∷ xs) post last en el =
    let (init, z, e) = last_cut x xs in
    let size : length init ≡ n = omega (arith, ap length e, length-append init (z ∷ [])) in
    let index : last ≡ pos (length pre + n) = grind int_laws in
    let ih =
      clear_slots-append n pre init (null ∷ post) (pos (length pre + n) -ℤ pos 1) size refl in
    subst
      (λ l.
        clear_slots (suc n) last (pre ++ (l ++ post))
        ≡ ok (pre ++ (replicate (suc n) null ++ post)))
      (sym e)
      (rw
        (
          index,
          append_assoc init (z ∷ []) post,
          ← append_assoc pre init (z ∷ post),
          store-append (pre ++ init) z null post {i = length pre + n}
              (omega (arith, length-append pre init)),
          append_assoc pre init (null ∷ post),
        )
        (ih ∙ ap (λ l. ok (pre ++ l)) (replicate_snoc n post)))
clear_slots-append zero pre (x ∷ xs) post last en el = absurd (omega arith)
clear_slots-append (suc n) pre [] post last en el = absurd (omega arith)

-- If the packets of the first slots, up to `ack`, can be released, `modify_buffer` takes those slots
-- out, moves the slots up to `last` to the start, and puts NULL in the slots that become free. The
-- slots behind `last` stay.
pub modify_buffer-drop :
    (done left rest : List Slot) (ack last : ℕ)
    → All IsOwned done
    → length done ≡ ack + 1
    → length done + length left ≡ last + 1
    → modify_buffer (pos ack) (pos last) (done ++ (left ++ rest))
      ≡ ok (left ++ (replicate (length done) null ++ rest))
unfolding modify_buffer
modify_buffer-drop done left rest ack last h ea el =
    let count : pos_part (pos last -ℤ pos ack) ≡ length left = grind int_laws in
    let (moved, run, (tail, parts, size)) = Yields-inv (
      move_slots-append (length left) ack 0 [] (replicate (suc ack) null) left rest refl
        (omega (arith, length-replicate {A = Slot} (suc ack) null)) refl) in
    let end : pos last ≡ pos (length left + suc ack) -ℤ pos 1 = grind int_laws in
    let cleared = clear_slots-append (suc ack) left tail rest (pos last) (omega arith) end in
    let same : length done ≡ suc ack = omega arith in
    rw (release_slots-append (suc ack) done (left ++ rest) same h, count, run, parts)
      (cleared ∙ ap (λ k. ok (left ++ (replicate k null ++ rest))) (sym same))

move_slots-same :
    (n i : ℕ) (pre src post : List Slot)
    → length src ≡ n
    → length pre ≡ i
    → move_slots n (negsuc 0) i (pre ++ (src ++ post)) ≡ ok (pre ++ (src ++ post))
unfolding move_slots
move_slots-same zero i pre src post en ei = refl
move_slots-same (suc n) i pre [] post en ei = absurd (omega arith)
move_slots-same (suc n) i pre (x ∷ src) post en ei =
    let index : negsuc 0 +ℤ pos 1 +ℤ pos i ≡ pos i = grind int_laws in
    let ih =
      move_slots-same n (i + 1) (pre ++ x ∷ []) src post (omega arith)
        (omega (arith, length-append pre (x ∷ []))) in
    rw
      (index, load-append pre x (src ++ post) (sym ei), store-append pre x x (src ++ post) (sym ei))
      (rw (append_assoc pre (x ∷ []) (src ++ post)) at ih)

-- With the position -1, of an acknowledgement that says nothing new, the window stays as it is.
pub modify_buffer-none :
    (flight rest : List Slot)
    → modify_buffer (negsuc 0) (pos (length flight) -ℤ pos 1) (flight ++ rest) ≡ ok (flight ++ rest)
unfolding modify_buffer release_slots clear_slots
modify_buffer-none flight rest =
    let count : pos_part (pos (length flight) -ℤ pos 1 -ℤ negsuc 0) ≡ length flight =
      grind int_laws in
    rw (count, move_slots-same (length flight) 0 [] flight rest refl refl) refl

-- With a position before that, of an acknowledgement older than the window, a slot before the array
-- is read.
pub modify_buffer-stale :
    (before len : ℕ) (window : List Slot)
    → modify_buffer (negsuc (suc before)) (pos len -ℤ pos 1) window ≡ fault
unfolding modify_buffer release_slots move_slots
modify_buffer-stale before len window =
    let count : pos_part (pos len -ℤ pos 1 -ℤ negsuc (suc before)) ≡ suc (len + before) =
      grind int_laws in
    let index : negsuc (suc before) +ℤ pos 1 +ℤ pos 0 ≡ negsuc before = grind int_laws in
    rw (count, index) refl

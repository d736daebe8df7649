-- ===== src/Receiver/Refresh.antt =====
-- `refresh` of sel_repeat_read.c.
use projet.Base.{
  ℕ, zero, suc, ◌+◌, ◌-◌, ◌≡◌, refl, sym, ap, ◌∙◌, Option, none, some, [], ◌∷◌, ◌++◌, arith, length,
  drop, replicate, length-append, length-replicate, replicate-add, append_assoc, append-nil,
}
use projet.Base.Exec.{ok, Yields, yields, Yields-map, Yields-inv}
use projet.Base.Array.{load, store, load-append, store-append, fill-rest}
use projet.Packet.{Pkt, max_window_size}
use projet.Receiver.{Buffer, shift_down, refresh_loop, refresh}

-- The number of slots before the first packet.
abbrev pub leading : Buffer → ℕ
leading [] = 0
leading (none ∷ b) = suc (leading b)
leading (some pkt ∷ b) = 0

-- One round of the move, given what it loads and stores.
moved :
    (n : ℕ) {i : ℕ} (j : ℕ) (pre src : Buffer) {x : Option Pkt} (before : Buffer)
    {after now : Buffer}
    → Yields
        (λ b. (tail : Buffer) × (b ≡ (pre ++ x ∷ []) ++ (src ++ tail)) × (length tail ≡ i))
        (shift_down n i (j + 1) now)
    → now ≡ after
    → load before (j + i) ≡ ok x
    → store before j x ≡ ok after
    → Yields
        (λ b. (tail : Buffer) × (b ≡ pre ++ (x ∷ src ++ tail)) × (length tail ≡ i))
        (shift_down (suc n) i j before)
unfolding shift_down
moved n j pre src {x = x} before rest same loaded stored =
    rw (loaded, stored, ← same)
      (Yields-map rest λ b (tail, e, l). (tail, e ∙ append_assoc pre (x ∷ []) (src ++ tail), l))

-- The entries behind a hole of `i` slots move to its start.
shift_down-append :
    (n i j : ℕ) (pre mid src : Buffer)
    → length src ≡ n
    → length mid ≡ i
    → length pre ≡ j
    → Yields
        (λ b. (tail : Buffer) × (b ≡ pre ++ (src ++ tail)) × (length tail ≡ i))
        (shift_down n i j (pre ++ (mid ++ src)))
unfolding shift_down
shift_down-append zero i j pre mid [] en ei ej = yields (mid, ap (◌++◌ pre) (append-nil mid), ei)
shift_down-append (suc n) i j pre [] (x ∷ src) en ei ej =
    moved n j pre src _
      (shift_down-append n i (j + 1) (pre ++ x ∷ []) [] src (omega arith) ei
        (omega (arith, length-append pre (x ∷ []))))
      (rw (append_assoc pre (x ∷ []) src) refl) (load-append pre x src (omega arith))
      (store-append pre x x src (sym ej))
shift_down-append (suc n) i j pre (m ∷ mid) (x ∷ src) en ei ej =
    moved n j pre src _
      (shift_down-append n i (j + 1) (pre ++ x ∷ []) (mid ++ x ∷ []) src (omega arith)
        (omega (arith, length-append mid (x ∷ []))) (omega (arith, length-append pre (x ∷ []))))
      (rw (append_assoc pre (x ∷ []) ((mid ++ x ∷ []) ++ src), append_assoc mid (x ∷ []) src) refl)
      (rw (← append_assoc pre (m ∷ mid) (x ∷ src))
        (load-append (pre ++ m ∷ mid) x src (omega (arith, length-append pre (m ∷ mid)))))
      (store-append pre m x (mid ++ x ∷ src) (sym ej))
shift_down-append zero i j pre mid (x ∷ src) en ei ej = absurd (omega arith)
shift_down-append (suc n) i j pre mid [] en ei ej = absurd (omega arith)

refresh_loop-append :
    (n i : ℕ) (b : Buffer)
    → length b ≡ n
    → i + n ≡ max_window_size
    → refresh_loop n i (replicate i none ++ b)
      ≡ ok (drop (leading b) b ++ replicate (leading b + i) none)
unfolding refresh_loop
refresh_loop-append zero i [] en e =
    let none_left : i ≡ 0 + i = omega arith in
    ap ok (append-nil (replicate i none) ∙ ap (λ k. replicate k none) none_left)
refresh_loop-append (suc n) i (none ∷ b) en e =
    let grown : replicate (i + 1) none ++ b ≡ replicate i none ++ none ∷ b =
      rw (replicate-add {A = Option Pkt} i 1 none, append_assoc (replicate i none) (none ∷ []) b)
        refl in
    let count : leading b + (i + 1) ≡ suc (leading b) + i = omega arith in
    rw (load-append (replicate i none) none b (sym (length-replicate i none))) (
      let ih = refresh_loop-append n (i + 1) b (omega arith) (omega arith) in
      rw (grown, count) at ih)
refresh_loop-append (suc n) i (some pkt ∷ b) en e =
    let src = some pkt ∷ b in
    let same : i ≡ 0 + i = omega arith in
    let (moved_to, run, (tail, parts, l)) = Yields-inv (
      shift_down-append (max_window_size - i) i 0 [] (replicate i none) src (omega arith)
        (length-replicate i none) refl) in
    rw (load-append (replicate i none) (some pkt) b (sym (length-replicate i none)), run, parts)
      (fill-rest src tail none (sym l) (omega arith) ∙ ap (λ k. ok (src ++ replicate k none)) same)
refresh_loop-append (suc n) i [] en e = absurd (omega arith)
refresh_loop-append zero i (x ∷ b) en e = absurd (omega arith)

-- `refresh` on a buffer of 31 slots takes away the NULLs before the first packet, and puts as many
-- behind the last slot.
pub refresh-drop :
    (b : Buffer)
    → length b ≡ max_window_size
    → refresh b ≡ ok (drop (leading b) b ++ replicate (leading b) none)
unfolding refresh
refresh-drop b e =
    rw (refresh_loop-append max_window_size 0 b e)
      (ap (λ k. ok (drop (leading b) b ++ replicate k none)) (omega arith))

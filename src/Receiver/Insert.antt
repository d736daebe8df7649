-- ===== src/Receiver/Insert.antt =====
-- `insert_pkt` of sel_repeat_read.c.
use mathlib.Core.List.{Perm, Mem, mem-cons_self, mem-cons_of_mem}
use mathlib.Core.List.Perm
use projet.Base.{
  ℕ, zero, suc, ◌+◌, ◌-◌, ◌≤◌, ◌<◌, ◌≡◌, ◌≢◌, ◌⊎◌, inl, inr, refl, sym, ap, ◌∙◌, not, ◌&&◌, Option,
  none, some, List, [], ◌∷◌, ◌++◌, arith, length, All, append_assoc, length-append,
}
use projet.Base.Exec.{ok, Yields, yields, Yields-map, Yields-if}
use projet.Base.Array.{load-append, store-append}
use projet.Base.Int.{ℤ, pos, sub_ℕ, ltb_ℤ, ◌-ℤ◌}
use projet.Packet.{Pkt, wild, max_window_size, pkt_get_seqnum}
use projet.Packet.Release.{pkt_del-owned}
use projet.Receiver.{Buffer, shift_up, insert_loop, insert_pkt}
use projet.Receiver.Seqnum.{ahead, compare_seqnums-ahead}

-- The packets from the first slot on, and NULL in the other slots, `n` in all.
abbrev pub slots : ℕ → List Pkt → Buffer
slots zero ps = []
slots (suc n) [] = none ∷ slots n []
slots (suc n) (p ∷ ps) = some p ∷ slots n ps

-- The packets' numbers go up from the distance `low` on, seen from `lastack`.
abbrev pub IsSorted : ℕ → ℕ → List Pkt → Type 0
IsSorted lastack low [] = Unit
IsSorted lastack low (p ∷ ps) =
    (low ≤ ahead lastack p.seqnum)
    × (p.seqnum < 256)
    × IsSorted lastack (suc (ahead lastack p.seqnum)) ps

-- What an insertion makes of the packets and of the window: a number that is there already changes
-- nothing, any other packet is added.
abbrev pub IsInserted : Pkt → List Pkt → ℤ → List Pkt → ℤ → Type 0
IsInserted pkt ps window ps' window' =
    ((q : Pkt) × Mem q ps × (q.seqnum ≡ pkt.seqnum) × (ps' ≡ ps) × (window' ≡ window))
    ⊎ (All (λ q. q.seqnum ≢ pkt.seqnum) ps × Perm ps' (pkt ∷ ps) × (window' ≡ window -ℤ pos 1))

not_among :
    (lastack : ℕ) (pkt : Pkt) (low : ℕ) (ps : List Pkt)
    → IsSorted lastack low ps
    → ahead lastack pkt.seqnum < low
    → All (λ q. q.seqnum ≢ pkt.seqnum) ps
not_among l pkt low [] s h = tt
not_among l pkt low (p ∷ ps) (a, b, s) h =
    ((λ e. absurd (omega (arith, e))), not_among l pkt (suc (ahead l p.seqnum)) ps s (omega arith))

shift_up-none :
    {n : ℕ} (at : ℕ) (this : Option Pkt) {b : Buffer} → n ≡ 0 → shift_up n at this b ≡ ok b
unfolding shift_up
shift_up-none at this e = rw e refl

shift_up-append :
    (n at : ℕ) (this : Option Pkt) (pre xs : Buffer) (y : Option Pkt)
    → length xs + 1 ≡ n
    → length pre ≡ at
    → shift_up n at this (pre ++ (xs ++ y ∷ [])) ≡ ok (pre ++ this ∷ xs)
unfolding shift_up
shift_up-append zero at this pre xs y en ea = absurd (omega arith)
shift_up-append (suc n) at this pre [] y en ea =
    rw (load-append pre y [] (sym ea), store-append pre y this [] (sym ea))
      (shift_up-none _ _ (omega arith))
shift_up-append (suc n) at this pre (x ∷ xs) y en ea =
    rw
      (
        load-append pre x (xs ++ y ∷ []) (sym ea),
        store-append pre x this (xs ++ y ∷ []) (sym ea),
        ← append_assoc pre (this ∷ []) (xs ++ y ∷ []),
        ← append_assoc pre (this ∷ []) (x ∷ xs),
      )
      (shift_up-append n (at + 1) x (pre ++ this ∷ []) xs y (omega arith)
        (omega (arith, length-append pre (this ∷ []))))

-- With a slot to spare the last slot is NULL.
slots-last : (n : ℕ) (ps : List Pkt) → length ps ≤ n → slots (suc n) ps ≡ slots n ps ++ none ∷ []
slots-last zero [] h = refl
slots-last zero (p ∷ ps) h = absurd (omega arith)
slots-last (suc n) [] h = ap (◌∷◌ none) (slots-last n [] (omega arith))
slots-last (suc n) (p ∷ ps) h = ap (◌∷◌ (some p)) (slots-last n ps (omega arith))

pub length-slots : (n : ℕ) (ps : List Pkt) → length (slots n ps) ≡ n
length-slots zero ps = refl
length-slots (suc n) [] = ap suc (length-slots n [])
length-slots (suc n) (p ∷ ps) = ap suc (length-slots n ps)

shift_up-slots :
    (n at : ℕ) (p : Pkt) (pre : Buffer) (ps : List Pkt)
    → length ps < n
    → length pre ≡ at
    → shift_up n at (some p) (pre ++ slots n ps) ≡ ok (pre ++ slots n (p ∷ ps))
shift_up-slots zero at p pre ps h e = absurd (omega arith)
shift_up-slots (suc n) at p pre ps h e =
    rw (slots-last n ps (omega arith)) (
      shift_up-append (suc n) at (some p) pre (slots n ps) none (omega (arith, length-slots n ps))
        e)

-- An insertion behind a packet with another number.
IsInserted-cons :
    (pkt p : Pkt) (ps ps' : List Pkt) (window window' : ℤ)
    → p.seqnum ≢ pkt.seqnum
    → IsInserted pkt ps window ps' window'
    → IsInserted pkt (p ∷ ps) window (p ∷ ps') window'
IsInserted-cons pkt p ps ps' w w' ne (inl (q, m, e, same, kept)) =
    inl (q, mem-cons_of_mem p m, e, ap (◌∷◌ p) same, kept)
IsInserted-cons pkt p ps ps' w w' ne (inr (others, perm, less)) =
    inr ((ne, others), Perm.trans (Perm.cons p perm) (Perm.swap pkt p ps), less)

module _ (lastack : ℕ) (pkt : Pkt) (window : ℤ) (hl : lastack < 256) (hs : pkt.seqnum < 256)
    (owned : pkt.payload ≢ wild) where
  -- What the loop leaves behind the slots it has passed.
  abbrev pub Inserted : ℕ → ℕ → Buffer → List Pkt → Buffer × ℤ → Type 1
  Inserted n low pre ps (buffer, window') =
      (ps' : List Pkt) × (buffer ≡ pre ++ slots n ps')
      × IsSorted lastack low ps'
      × IsInserted pkt ps window ps' window'
      × ((P : Pkt → Type 0) → P pkt → All P ps → All P ps')

  insert_loop-Inserted :
      (n i low : ℕ) (pre : Buffer) (ps : List Pkt)
      → length pre ≡ i
      → i + n ≡ max_window_size
      → length ps < n
      → low ≤ ahead lastack pkt.seqnum
      → IsSorted lastack low ps
      → Yields (Inserted n low pre ps) (insert_loop n i lastack (pre ++ slots n ps) pkt window)
  unfolding insert_loop pkt_get_seqnum
  insert_loop-Inserted zero i low pre ps ei en room hlow s = absurd (omega arith)
  insert_loop-Inserted (suc n) i low pre [] ei en room hlow s =
      rw
        (
          load-append pre none (slots n []) (sym ei),
          store-append pre none (some pkt) (slots n []) (sym ei),
        )
        (yields (pkt ∷ [], refl, (hlow, hs, tt), inr (tt, Perm.rfl, refl), λ P new all. (new, tt)))
  insert_loop-Inserted (suc n) i low pre (p ∷ ps) ei en room hlow s =
      let o = sub_ℕ (ahead lastack pkt.seqnum) (ahead lastack p.seqnum) in
      let gap = compare_seqnums-ahead lastack pkt.seqnum p.seqnum hl hs s.1 in
      rw (load-append pre (some p) (slots n ps) (sym ei), gap)
        (Yields-if (not (ltb_ℤ o (pos 0)) && not (ltb_ℤ (pos 0) o))
          (λ e.
            let equal : p.seqnum ≡ pkt.seqnum = ground arith in
            rw (pkt_del-owned pkt owned) (
              yields
                (p ∷ ps, refl, s, inl (p, mem-cons_self, equal, refl, refl), λ P new all. all)))
          λ e.
            Yields-if (ltb_ℤ o (pos 0))
              (λ e'.
                let before : ahead lastack pkt.seqnum < ahead lastack p.seqnum = ground arith in
                let left : max_window_size - i - 1 ≡ n = omega arith in
                let now = pre ++ some pkt ∷ [] in
                rw
                  (
                    store-append pre (some p) (some pkt) (slots n ps) (sym ei),
                    left,
                    ← append_assoc pre (some pkt ∷ []) (slots n ps),
                    shift_up-slots n (i + 1) p now ps (omega arith)
                        (omega (arith, length-append pre (some pkt ∷ []))),
                  )
                  (yields (
                    pkt ∷ p ∷ ps,
                    append_assoc pre (some pkt ∷ []) (slots n (p ∷ ps)),
                    (hlow, hs, (before, s.1, s.2)),
                    inr (
                      (
                        (λ e. absurd (omega (arith, ap (ahead lastack) e))),
                        not_among lastack pkt _ ps s.2 (omega arith),
                      ),
                      Perm.rfl,
                      refl,
                    ),
                    λ P new all. (new, all),
                  )))
              λ e'.
                let behind : ahead lastack p.seqnum < ahead lastack pkt.seqnum = ground arith in
                let ih =
                  insert_loop-Inserted n (i + 1) (suc (ahead lastack p.seqnum)) (pre ++ some p ∷ [])
                    ps (omega (arith, length-append pre (some p ∷ []))) (omega arith) (omega arith)
                    behind s.2 in
                Yields-map (rw (append_assoc pre (some p ∷ []) (slots n ps)) at ih)
                  λ b (ps', parts, sorted, inserted, kept). (
                    p ∷ ps',
                    parts ∙ append_assoc pre (some p ∷ []) (slots n ps'),
                    (s.0, s.1, sorted),
                    IsInserted-cons pkt p ps ps' _ _
                        (λ e. absurd (omega (arith, ap (ahead lastack) e))) inserted,
                    λ P new all. (all.0, kept P new all.1),
                  ))

  -- The whole call, with every property of packets that the new one has too.
  pub insert_pkt_all :
      (ps : List Pkt)
      → length ps < max_window_size
      → IsSorted lastack 0 ps
      → Yields
          (Inserted max_window_size 0 [] ps)
          (insert_pkt lastack (slots max_window_size ps) pkt window)
  unfolding insert_pkt
  insert_pkt_all ps room s =
      insert_loop-Inserted max_window_size 0 0 [] ps refl refl room (omega arith) s

  -- `insert_pkt` of an owned packet into a buffer of 31 slots with a slot to spare, whose packets are
  -- sorted by their distance, leaves such a buffer: a packet whose number is there already is
  -- dropped, any other is added and the window shrinks by one.
  pub insert_pkt-Inserted :
      (ps : List Pkt)
      → length ps < max_window_size
      → IsSorted lastack 0 ps
      → Yields
          (λ (buffer, window').
            (ps' : List Pkt) × (buffer ≡ slots max_window_size ps')
            × IsSorted lastack 0 ps'
            × IsInserted pkt ps window ps' window')
          (insert_pkt lastack (slots max_window_size ps) pkt window)
  insert_pkt-Inserted ps room s =
      Yields-map (insert_pkt_all ps room s)
        λ b (ps', parts, sorted, inserted, kept). (ps', parts, sorted, inserted)

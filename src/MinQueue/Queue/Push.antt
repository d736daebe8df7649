-- ===== src/MinQueue/Queue/Push.antt =====
-- `minq_push`, in terms of the entries that the queue holds.
use mathlib.Core.List.{Perm, perm_append_singleton}
use mathlib.Core.List.Perm
use projet.Base.{
  ℕ, ◌+◌, ◌<◌, ◌≡◌, refl, sym, ap, ◌∙◌, Bool, true, false, some, List, [], ◌∷◌, ◌++◌, arith, length,
  set, length-append, ◌==◌, Bool-cases, inl, inr, get_or-append, append_assoc, append-nil,
  first_cut, length-zero, eq_of_==, replicate,
}
use projet.Base.Int.{pos, negsuc}
use projet.Base.Exec.{ok, Yields, yields, Yields-bind}
use projet.Base.Array.{set-append}
use projet.Base.Swap.{length-perm}
use projet.MinQueue.{MinQueue, parent_of, grow, heapify_up, minq_push}
use projet.MinQueue.Order.{IsOrder, IsHeap}
use projet.MinQueue.Frame.{heapify_up-live}
use projet.MinQueue.Up.{UpInv, heapify_up-IsHeap}
use projet.MinQueue.Queue.{Holds, Leaves}

module _ {ℓ} {A : Type ℓ} (d : A) where
  -- Behind the slots in use a new entry is put in place.
  push_loop :
      (cmp : A → A → Bool) (order : IsOrder cmp) (live spare : List A) (y v : A) (n : ℕ)
      → n ≡ length live
      → IsHeap cmp d live
      → Yields
          (λ e.
            (live' : List A) × (e ≡ live' ++ spare) × IsHeap cmp d live' × Perm live' (v ∷ live))
          (heapify_up (n + 1) cmp (live ++ y ∷ spare) n v)
  push_loop cmp order live spare y v n en heap =
      let grown = live ++ y ∷ [] in
      let size = length-append live (y ∷ []) in
      let written : set grown n v ≡ live ++ v ∷ [] = rw (en, set-append live y v []) in
      let at = λ (c : ℕ) (h : c < length live). get_or-append d live (v ∷ []) c h in
      let start : UpInv cmp order d (set grown n v) n = rw written (record {
        inside = omega (arith, length-append live (v ∷ []));
        edges = λ c hc lc ne.
            ground (arith, length-append live (v ∷ []), at c, at (parent_of c), heap c);
        bridged = λ c p lc e. absurd (omega (arith, length-append live (v ∷ [])));
      }) in
      rw
        (
          ← append_assoc live (y ∷ []) spare,
          heapify_up-live cmp (n + 1) grown spare n v (omega (arith, size)),
        )
        (Yields-bind (heapify_up-IsHeap cmp order d (n + 1) grown n v (omega arith) start)
          λ b (heap', perm).
            yields (b, refl, heap', Perm.trans (rw written at perm) (perm_append_singleton v live)))

  -- A queue with a free slot, after `realloc` if it was full.
  grow-Holds :
      (realloc_succeeds : Bool) (junk : A) (q : MinQueue A) (items : List A)
      → Holds d q items
      → (q.size ≡ q.alloc → realloc_succeeds ≡ true)
      → (grown : MinQueue A) × (held : Holds d grown items) × (y : A) × (rest : List A) × (grow
            realloc_succeeds junk q
          ≡ some grown)
        × (held.spare ≡ y ∷ rest)
  unfolding grow
  grow-Holds r junk q items h room = elim (Bool-cases (q.size == q.alloc)) [
    | inl full ↦
        let more = replicate 20 junk in
        let none_free : h.spare ≡ [] = length-zero h.spare (
          omega (
            arith,
            ap length h.array,
            length-append h.live h.spare,
            h.sized,
            h.allocated,
            eq_of_== _ _ full,
          )) in
        (
          record q { e = q.e ++ more; alloc = q.size + 20 },
          record {
            live = h.live;
            spare = more;
            order = h.order;
            array = rw (h.array, none_free, append-nil) refl;
            sized = h.sized;
            allocated = omega (arith, length-append q.e more, h.allocated, eq_of_== _ _ full);
            heap = h.heap;
            same = h.same;
          },
          junk,
          replicate 19 junk,
          rw (full, room (eq_of_== _ _ full)),
          refl,
        )
    | inr free ↦
        let (y, rest, e) =
          first_cut h.spare (
            ground
              (arith, ap length h.array, length-append h.live h.spare, h.sized, h.allocated)) in
        (q, h, y, rest, rw free, e)
  ]

  -- `minq_push` on a queue that has a free slot, or whose `realloc` succeeds, answers 0 and adds
  -- exactly the entry.
  pub minq_push-Holds :
      (realloc_succeeds : Bool) (junk : A) (q : MinQueue A) (v : A) (items : List A)
      → Holds d q items
      → (q.size ≡ q.alloc → realloc_succeeds ≡ true)
      → Yields
          (λ r. (r.0 ≡ pos 0) × Leaves d (v ∷ items) r.1)
          (minq_push realloc_succeeds junk (some q) v)
  unfolding minq_push
  minq_push-Holds r junk q v items h room =
      let (grown, held, y, rest, e, free) = grow-Holds r junk q items h room in
      let array : grown.e ≡ held.live ++ y ∷ rest = held.array ∙ ap (◌++◌ held.live) free in
      rw (e, minq_push)
        (rw array (
          Yields-bind
            (push_loop grown.cmp held.order held.live rest y v grown.size (sym held.sized)
              held.heap)
            λ b (live, whole, heap, perm). yields (
              refl,
              (
                record grown { size = grown.size + 1; e = b },
                refl,
                record {
                  live = live;
                  spare = rest;
                  order = held.order;
                  array = whole;
                  sized = omega (arith, length-perm perm, held.sized);
                  allocated = omega (
                    arith,
                    ap length whole,
                    ap length array,
                    length-append live rest,
                    length-append held.live (y ∷ rest),
                    length-perm perm,
                    held.allocated,
                  );
                  heap = heap;
                  same = Perm.trans perm (Perm.cons v held.same);
                },
              ),
            )))

  -- `minq_push` on a full queue whose `realloc` fails answers -1 and leaves the queue as it was.
  pub minq_push-full :
      (junk : A) (q : MinQueue A) (v : A)
      → q.size ≡ q.alloc
      → minq_push false junk (some q) v ≡ ok (negsuc 0, some q)
  unfolding minq_push grow
  minq_push-full junk q v h = ground arith

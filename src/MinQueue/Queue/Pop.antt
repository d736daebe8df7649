-- ===== src/MinQueue/Queue/Pop.antt =====
-- `minq_pop` and `minq_peek`, in terms of the entries that the queue holds.
use mathlib.Core.List.{Perm, Mem, mem-cons, not-mem-nil, perm_append_singleton}
use mathlib.Core.List.Perm
use mathlib.Core.Path.{subst}
use mathlib.Core.Logic.Or
use projet.Base.{
  ℕ, zero, suc, ◌+◌, ◌-◌, ◌<◌, ◌≡◌, ◌≢◌, refl, sym, ap, ◌∙◌, Bool, false, some, List, [], ◌∷◌, ◌++◌,
  arith, length, get_or, length-append, ne→==, get_or-append, behind_first, last_cut, append_assoc,
  first_cut,
}
use projet.Base.Exec.{Exec, ok, ◌>>=◌, Yields, yields, Yields-map, Yields-bind, bind_assoc}
use projet.Base.Array.{load, store, load-append, store-append}
use projet.Base.Swap.{length-perm}
use projet.MinQueue.{MinQueue, parent_of, heapify_down, minq_pop, minq_peek, minq_empty}
use projet.MinQueue.Order.{IsOrder, IsHeap, root_least}
use projet.MinQueue.Frame.{heapify_down-live}
use projet.MinQueue.Down.{DownInv, heapify_down-IsHeap}
use projet.MinQueue.Queue.{Holds, Leaves}

module _ {ℓ} {A : Type ℓ} (d : A) where
  -- What `minq_peek` and `minq_pop` do with a queue that holds `items`: both look at the same entry,
  -- no other entry is less, and all the others stay.
  pub record IsTaken (q : MinQueue A) (items : List A) : Type ℓ where
    pub top : A
    pub rest : List A
    pub peeked : minq_peek (some q) ≡ ok (some top)
    pub popped : Yields (Leaves d rest) (minq_pop (some q))
    pub same : Perm (top ∷ rest) items
    pub least : (y : A) → Mem y items → q.cmp top y ≡ false

  -- What holds of every entry by its index holds of every member.
  by_index :
      (p : A → Bool) (xs : List A)
      → ((i : ℕ) → i < length xs → p (get_or xs i d) ≡ false)
      → (y : A) → Mem y xs
      → p y ≡ false
  by_index p [] h y m = absurd (not-mem-nil m)
  by_index p (x ∷ xs) h y m =
      Or.elim (hlevel) (mem-cons.0 m) (λ e. rw e (h 0 (omega arith)))
        (by_index p xs (λ i l. h (suc i) (omega arith)) y)

  -- The loop on the slots in use, the root's entry being out of order.
  sink_loop :
      (cmp : A → A → Bool) (order : IsOrder cmp) (live spare : List A) (k : ℕ)
      → length live < k
      → DownInv cmp order d live 0
      → Yields
          (λ e. (live' : List A) × (e ≡ live' ++ spare) × IsHeap cmp d live' × Perm live' live)
          (heapify_down k cmp (live ++ spare) (length live) 0)
  sink_loop cmp order live spare k enough start = rw (heapify_down-live cmp k live spare 0) (
      Yields-bind (heapify_down-IsHeap cmp order d k live 0 (omega arith) (omega arith) start)
        λ b (heap, perm). yields (b, refl, heap, perm))

  -- What the body of `minq_pop` leaves of a root `x` and other entries `t`.
  abbrev Popped : (A → A → Bool) → List A → List A → List A → Type ℓ
  Popped cmp t spare e =
      (live : List A) × (left : List A) × (e ≡ live ++ left)
      × (length left ≡ length spare + 1)
      × IsHeap cmp d live
      × Perm live t

  abbrev pop_body : (A → A → Bool) → A → List A → List A → Exec (List A)
  pop_body cmp x t spare = load ((x ∷ t) ++ spare) (length t) >>= λ last.
      store ((x ∷ t) ++ spare) 0 last >>= λ e. heapify_down (suc (length t) + 1) cmp e (length t) 0

  pop_last :
      (cmp : A → A → Bool) (order : IsOrder cmp) (x : A) (init : List A) (z : A) (spare : List A)
      → IsHeap cmp d (x ∷ (init ++ z ∷ []))
      → Yields (Popped cmp (init ++ z ∷ []) spare) (pop_body cmp x (init ++ z ∷ []) spare)
  pop_last cmp order x init z spare heap =
      let n : length (init ++ z ∷ []) ≡ length (z ∷ init) =
        omega (arith, length-append init (z ∷ [])) in
      let at_x = λ (c : ℕ) (h : c < length (x ∷ init)). get_or-append d (x ∷ init) (z ∷ []) c h in
      let below = λ (c : ℕ) (h : 0 < c). behind_first d x z init c h in
      let start : DownInv cmp order d (z ∷ init) 0 = record {
        edges = λ c hc lc ne.
            ground (arith, at_x c, at_x (parent_of c), below c, below (parent_of c), heap c, n);
        bridged = λ c p. absurd (omega arith);
      } in
      rw
        (
          append_assoc init (z ∷ []) spare,
          n,
          load-append (x ∷ init) z spare {i = length (z ∷ init)} refl,
          store-append [] x z (init ++ z ∷ spare) refl,
        )
        (Yields-map (sink_loop cmp order (z ∷ init) (z ∷ spare) _ (omega arith) start)
          λ e (live, whole, heap', perm). (
            live,
            z ∷ spare,
            whole,
            omega arith,
            heap',
            Perm.trans perm (Perm.symm (perm_append_singleton z init)),
          ))

  pop_loop :
      (cmp : A → A → Bool) (order : IsOrder cmp) (x : A) (t spare : List A)
      → IsHeap cmp d (x ∷ t)
      → Yields (Popped cmp t spare) (pop_body cmp x t spare)
  pop_loop cmp order x [] spare heap =
      let start : DownInv cmp order d [] 0 = record {
        edges = λ c hc lc. absurd (omega arith);
        bridged = λ c p. absurd (omega arith);
      } in
      rw (load-append [] x spare refl, store-append [] x x spare refl)
        (Yields-map (sink_loop cmp order [] (x ∷ spare) _ (omega arith) start)
          λ e (live, whole, heap', perm). (live, x ∷ spare, whole, omega arith, heap', perm))
  pop_loop cmp order x (y ∷ t) spare heap =
      let (init, z, e) = last_cut y t in
      subst (λ l. IsHeap cmp d (x ∷ l) → Yields (Popped cmp l spare) (pop_body cmp x l spare))
        (sym e) (pop_last cmp order x init z spare) heap

  no_less_than_root :
      (cmp : A → A → Bool) (order : IsOrder cmp) (x : A) (t : List A)
      → IsHeap cmp d (x ∷ t)
      → (i : ℕ) → i < length (x ∷ t)
      → cmp x (get_or (x ∷ t) i d) ≡ false
  no_less_than_root cmp order x t heap zero l = ground (arith, order.asym x x)
  no_less_than_root cmp order x t heap (suc i) l =
      root_least cmp d order (x ∷ t) (suc i) heap (omega arith) l

  -- If a queue holds entries, `minq_peek` shows one than which no entry is less, and `minq_pop` returns
  -- and leaves a queue that holds exactly the others.
  pub minq_pop-IsTaken :
      (q : MinQueue A) (items : List A) → Holds d q items → q.size ≢ 0 → IsTaken q items
  unfolding minq_pop minq_peek minq_empty
  minq_pop-IsTaken q items h some_left =
      let (x, t, e) = first_cut h.live (omega (arith, h.sized)) in
      let array : q.e ≡ (x ∷ t) ++ h.spare = h.array ∙ ap (λ l. l ++ h.spare) e in
      let size : q.size ≡ suc (length t) = omega (arith, ap length e, h.sized) in
      let last : suc (length t) - 1 ≡ length t = omega arith in
      let heap : IsHeap q.cmp d (x ∷ t) = subst (IsHeap q.cmp d) e h.heap in
      let whole : Perm (x ∷ t) items = subst (λ l. Perm l items) e h.same in
      let less : q.size - 1 ≡ length t = omega arith in
      let more : q.size + 1 ≡ suc (length t) + 1 = omega arith in
      let after =
        Yields-bind {Q = Leaves d t} {f = λ e. ok (some (record q { size = length t; e = e }))}
          (pop_loop q.cmp h.order x t h.spare heap)
          λ e (live, left, parts, grew, heap', perm). yields (
            record q { size = length t; e = e },
            refl,
            record {
              live = live;
              spare = left;
              order = h.order;
              array = parts;
              sized = length-perm perm;
              allocated = omega (
                arith,
                ap length parts,
                ap length array,
                length-append live left,
                length-append (x ∷ t) h.spare,
                length-perm perm,
                h.allocated,
              );
              heap = heap';
              same = perm;
            },
          ) in
      record {
        top = x;
        rest = t;
        peeked = rw (ne→== q.size 0 some_left, array, load-append [] x (t ++ h.spare) refl);
        popped = rw (ne→== q.size 0 some_left, less, more, array) (simp bind_assoc at after);
        same = whole;
        least = λ y m.
            by_index (q.cmp x) (x ∷ t) (no_less_than_root q.cmp h.order x t heap) y
              ((Perm.mem_iff whole).1 m);
      }

-- ===== src/MinQueue/Down.antt =====
-- The loop of `minq_pop` restores the heap order.
use mathlib.Core.List.{Perm}
use mathlib.Core.List.Perm
use projet.Base.{
  ℕ, zero, suc, ◌+◌, ◌-◌, ◌*◌, ◌<◌, ◌≡◌, ◌≢◌, Bool, true, false, List, arith, length, get_or, set,
  length-set, ◌==◌, ltb, leb, inl, ◌⊎◌,
}
use projet.Base.Exec.{Yields, yields, Yields-if, Yields-map, Yields-bind}
use projet.Base.Swap.{swap, swap_lem, length-swap, get_or-swap, swap-perm}
use projet.MinQueue.{parent_of, has_child, heapify_down}
use projet.MinQueue.Order.{IsOrder, IsHeap, IsBridged}
use projet.MinQueue.Up.{load-get_or, store-set}

module _ {ℓ} {A : Type ℓ} (cmp : A → A → Bool) (order : IsOrder cmp) (d : A) where
  -- Only the edges below `i` may be out of order.
  pub record DownInv (a : List A) (i : ℕ) : Type 0 where
    pub edges :
        (c : ℕ)
        → 0 < c
        → c < length a
        → parent_of c ≢ i
        → cmp (get_or a (parent_of c) d) (get_or a c d) ≡ false
    pub bridged : IsBridged cmp d a i

  -- What `has_child` answers: 0 if no child of `i` is less than `i`, or a least child.
  pub record IsChoice (a : List A) (i m : ℕ) : Type 0 where
    pub none :
        m ≡ 0
        → (c : ℕ) → 0 < c
        → c < length a
        → parent_of c ≡ i
        → cmp (get_or a i d) (get_or a c d) ≡ false
    pub inside : 0 < m → m < length a
    pub child : 0 < m → parent_of m ≡ i
    pub least :
        0 < m
        → (c : ℕ) → 0 < c
        → c < length a
        → parent_of c ≡ i
        → cmp (get_or a m d) (get_or a c d) ≡ false

  not_greater_self : (x : A) → cmp x x ≡ false
  not_greater_self x = ground (arith, order.asym x x)

  has_child-IsChoice : (a : List A) (i : ℕ) → Yields (IsChoice a i) (has_child cmp a (length a) i)
  unfolding has_child
  has_child-IsChoice a i =
      Yields-if (leb (length a) (i * 2))
        (λ e. yields (record {
          none = λ z c p q r. absurd (ground arith);
          inside = λ p. absurd (omega arith);
          child = λ p. absurd (omega arith);
          least = λ p. absurd (omega arith);
        }))
        λ l.
          Yields-if (ltb (i * 2 + 1) (length a))
            (λ r.
              rw
                (load-get_or d a (i * 2) (ground arith), load-get_or d a (i * 2 + 1) (ground arith))
                (Yields-if (cmp (get_or a (i * 2) d) (get_or a (i * 2 + 1) d))
                  (λ g. yields (record {
                    none = λ z. absurd (omega arith);
                    inside = λ p. ground arith;
                    child = λ p. omega arith;
                    least = λ p c hc lc e.
                        let two : (c ≡ i * 2) ⊎ (c ≡ i * 2 + 1) = omega arith in
                        ground (
                          arith,
                          not_greater_self (get_or a c d),
                          order.asym (get_or a (i * 2) d) (get_or a (i * 2 + 1) d),
                        );
                  }))
                  λ g. yields (record {
                    none = λ z c hc lc e.
                        let two : (c ≡ i * 2) ⊎ (c ≡ i * 2 + 1) = omega arith in
                        ground (
                          arith,
                          not_greater_self (get_or a c d),
                          order.asym (get_or a (i * 2) d) (get_or a (i * 2 + 1) d),
                        );
                    inside = λ p. ground arith;
                    child = λ p. omega arith;
                    least = λ p c hc lc e.
                        let two : (c ≡ i * 2) ⊎ (c ≡ i * 2 + 1) = omega arith in
                        ground (
                          arith,
                          not_greater_self (get_or a c d),
                          order.asym (get_or a (i * 2) d) (get_or a (i * 2 + 1) d),
                        );
                  })))
            λ r. yields (record {
              none = λ z c hc lc e. absurd (ground arith);
              inside = λ p. ground arith;
              child = λ p. omega arith;
              least = λ p c hc lc e.
                  let two : (c ≡ i * 2) ⊎ (c ≡ i * 2 + 1) = omega arith in
                  ground (
                    arith,
                    not_greater_self (get_or a c d),
                    order.asym (get_or a (i * 2) d) (get_or a (i * 2 + 1) d),
                  );
            })

  module _ (a : List A) (i m : ℕ) (hi : i < length a) (v : DownInv a i) (s : IsChoice a i m)
      (pos : 0 < m) (below : cmp (get_or a i d) (get_or a m d) ≡ true) where
    sink-DownInv : DownInv (swap d a i m) m
    sink-DownInv =
        let size = length-swap d a i m in
        let hm = s.inside pos in
        let at = get_or-swap d a i m hi hm in
        let up = s.child pos in
        record {
          edges = λ c hc lc ne. ground (
            arith,
            size,
            at c,
            at (parent_of c),
            v.edges c,
            v.bridged m,
            s.least pos c,
            order.asym (get_or a i d) (get_or a m d),
          );
          bridged = λ c hm lc e. ground (arith, size, at c, at (parent_of m), v.edges c);
        }

  -- From a slot whose entry may be too high in the tree, the loop ends with a heap of the same entries.
  -- The fuel exceeds the number of slots behind the slot.
  pub heapify_down-IsHeap :
      (k : ℕ) (a : List A) (i : ℕ)
      → length a - i < k
      → (i < length a) ⊎ (length a ≡ 0)
      → DownInv a i
      → Yields (λ b. IsHeap cmp d b × Perm b a) (heapify_down k cmp a (length a) i)
  unfolding heapify_down
  heapify_down-IsHeap zero a i f h v = absurd (omega arith)
  heapify_down-IsHeap (suc k) a i f h v = Yields-bind (has_child-IsChoice a i) λ m s.
      Yields-if (m == 0)
        (λ e. yields (λ c hc lc. ground (arith, v.edges c, s.none (ground arith) c), Perm.rfl))
        λ e.
          let pos : 0 < m = ground arith in
          let hm = s.inside pos in
          let hi : i < length a = omega arith in
          rw (load-get_or d a i hi, load-get_or d a m hm)
            (Yields-if (cmp (get_or a i d) (get_or a m d))
              (λ below.
                let size = length-swap d a i m in
                let ih =
                  heapify_down-IsHeap k (swap d a i m) m (omega (arith, size, s.child pos))
                    (inl (omega (arith, size))) (sink-DownInv a i m hi v s pos below) in
                rw
                  (
                    store-set a i (get_or a m d) hi,
                    store-set (set a i (get_or a m d)) m (get_or a i d)
                        (omega (arith, length-set a i (get_or a m d))),
                    ← swap_lem d a i m,
                    ← size,
                  )
                  (Yields-map ih
                    λ b (heap, perm). (heap, Perm.trans perm (swap-perm d a i m hi hm))))
              λ settled. yields (
                λ c hc lc. ground (
                  arith,
                  v.edges c,
                  s.least pos c,
                  order.trans (get_or a i d) (get_or a m d) (get_or a c d),
                ),
                Perm.rfl,
              ))

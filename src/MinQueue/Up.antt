-- ===== src/MinQueue/Up.antt =====
-- The loop of `minq_push` restores the heap order.
use mathlib.Core.List.{Perm}
use mathlib.Core.List.Perm
use projet.Base.{
  ℕ, zero, suc, ◌<◌, ◌≡◌, ◌≢◌, Bool, true, false, List, arith, length, get_or, set, length-set,
  ◌==◌, get_elem?-eq-get_or, lt→ltb,
}
use projet.Base.Exec.{ok, Yields, yields, Yields-if, Yields-map}
use projet.Base.Array.{load, store}
use projet.Base.Swap.{get_or-set, set-set, swap, swap_lem, length-swap, get_or-swap, swap-perm}
use projet.MinQueue.{parent_of, heapify_up}
use projet.MinQueue.Order.{IsOrder, IsHeap, IsBridged}

pub load-get_or {ℓ} :
    {A : Type ℓ} (d : A) (a : List A) (i : ℕ) → i < length a → load a i ≡ ok (get_or a i d)
unfolding load
load-get_or d a i h = rw (get_elem?-eq-get_or a i d h)

pub store-set {ℓ} :
    {A : Type ℓ} (a : List A) (i : ℕ) (v : A) → i < length a → store a i v ≡ ok (set a i v)
unfolding store
store-set a i v h = rw (lt→ltb i (length a) h)

module _ {ℓ} {A : Type ℓ} (cmp : A → A → Bool) (order : IsOrder cmp) (d : A) where
  -- Only the edge above `i` may be out of order.
  pub record UpInv (a : List A) (i : ℕ) : Type 0 where
    pub inside : i < length a
    pub edges :
        (c : ℕ)
        → 0 < c
        → c < length a
        → c ≢ i
        → cmp (get_or a (parent_of c) d) (get_or a c d) ≡ false
    pub bridged : IsBridged cmp d a i

  module _ (a : List A) (i : ℕ) (v : UpInv a i) (pos : 0 < i)
      (above : cmp (get_or a (parent_of i) d) (get_or a i d) ≡ true) where
    abbrev p : ℕ
    p = parent_of i

    raise-edges :
        (c : ℕ)
        → 0 < c
        → c < length a
        → c ≢ p
        → cmp (get_or (swap d a i p) (parent_of c) d) (get_or (swap d a i p) c d) ≡ false
    raise-edges c hc lc ne =
        let hp : p < length a = omega (arith, v.inside) in
        ground (
          arith,
          get_or-swap d a i p v.inside hp c,
          get_or-swap d a i p v.inside hp (parent_of c),
          v.edges c,
          v.bridged c,
          order.asym (get_or a p d) (get_or a i d),
          order.trans (get_or a i d) (get_or a p d) (get_or a c d),
        )

    raise-IsBridged : IsBridged cmp d (swap d a i p) p
    raise-IsBridged c hp lc e =
        let in_p : p < length a = omega (arith, v.inside) in
        let at = get_or-swap d a i p v.inside in_p in
        let size = length-swap d a i p in
        ground (
          arith,
          size,
          at c,
          at (parent_of p),
          v.edges p,
          v.edges c,
          order.trans (get_or a (parent_of p) d) (get_or a p d) (get_or a c d),
        )

    raise-UpInv : UpInv (swap d a i p) p
    raise-UpInv =
        let size = length-swap d a i p in
        record {
          inside = omega (arith, size, v.inside);
          edges = λ c hc lc ne. raise-edges c hc (omega (arith, size)) ne;
          bridged = raise-IsBridged;
        }

  -- Writing the entry above over slot `i` and the value at its place is an exchange.
  moved :
      (e : List A) (i : ℕ) (x : A)
      → i < length e
      → 0 < i
      → set (set e i (get_or e (parent_of i) d)) (parent_of i) x
        ≡ swap d (set e i x) i (parent_of i)
  moved e i x hi pos =
      let above : get_or (set e i x) (parent_of i) d ≡ get_or e (parent_of i) d =
        ground (arith, get_or-set d e i (parent_of i) x hi) in
      let own : get_or (set e i x) i d ≡ x = ground (arith, get_or-set d e i i x hi) in
      rw (swap_lem d (set e i x) i (parent_of i), above, own, set-set e i x)

  -- From a slot whose new entry may be too low in the tree, the loop ends with a heap of the same
  -- entries. Its fuel is more than the index of the slot.
  pub heapify_up-IsHeap :
      (k : ℕ) (e : List A) (i : ℕ) (x : A)
      → i < k
      → UpInv (set e i x) i
      → Yields (λ b. IsHeap cmp d b × Perm b (set e i x)) (heapify_up k cmp e i x)
  unfolding heapify_up
  heapify_up-IsHeap zero e i x f v = absurd (omega arith)
  heapify_up-IsHeap (suc k) e i x f v =
      let a = set e i x in
      let hi : i < length e = omega (arith, v.inside, length-set e i x) in
      let own : get_or a i d ≡ x = ground (arith, get_or-set d e i i x hi) in
      let above : 0 < i → get_or a (parent_of i) d ≡ get_or e (parent_of i) d =
        λ pos. ground (arith, get_or-set d e i (parent_of i) x hi) in
      rw (store-set e i x hi, load-get_or d e (parent_of i) (omega arith))
        (Yields-if (i == 0) (λ root. yields (λ c hc lc. v.edges c hc lc (ground arith), Perm.rfl))
          λ below.
            Yields-if (cmp (get_or e (parent_of i) d) x)
              (λ greater.
                let pos : 0 < i = ground arith in
                let over : cmp (get_or a (parent_of i) d) (get_or a i d) ≡ true =
                  rw (above pos, own) greater in
                let same = moved e i x hi pos in
                let inside : i < length a = v.inside in
                let exchanged = swap-perm d a i (parent_of i) inside (omega arith) in
                rw (store-set e i (get_or e (parent_of i) d) hi) (
                  Yields-map
                    (heapify_up-IsHeap k (set e i (get_or e (parent_of i) d)) (parent_of i) x
                      (omega arith) (rw same (raise-UpInv a i v pos over)))
                    λ b (heap, perm). (heap, Perm.trans (rw same at perm) exchanged)))
              λ settled. yields (λ c hc lc. ground (arith, v.edges c), Perm.rfl))

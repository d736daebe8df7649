-- ===== src/MinQueue/Order.antt =====
-- The heap order of min_queue.c, and what is asked of the comparison.
use projet.Base.{ℕ, zero, suc, ◌<◌, ◌≡◌, Bool, true, false, List, arith, length, get_or}
use projet.MinQueue.{parent_of}

-- `cmp a b` says that `a` is greater than `b`: it is asymmetric, and not being greater is transitive.
pub record IsOrder {ℓ} {A : Type ℓ} (cmp : A → A → Bool) : Type ℓ where
  pub asym : (a b : A) → cmp a b ≡ true → cmp b a ≡ false
  pub trans : (a b c : A) → cmp a b ≡ false → cmp b c ≡ false → cmp a c ≡ false

module _ {ℓ} {A : Type ℓ} (cmp : A → A → Bool) (d : A) where
  -- No entry is greater than a child of its slot. The slots are those of the list.
  abbrev pub IsHeap : List A → Type 0
  IsHeap a = (c : ℕ) → 0 < c → c < length a → cmp (get_or a (parent_of c) d) (get_or a c d) ≡ false

  -- The entry above `i` is not greater than the children of `i`.
  abbrev pub IsBridged : List A → ℕ → Type 0
  IsBridged a i =
      (c : ℕ)
      → 0 < i
      → c < length a
      → parent_of c ≡ i
      → cmp (get_or a (parent_of i) d) (get_or a c d) ≡ false

  module _ (order : IsOrder cmp) where
    root_least_below :
        (k : ℕ) (a : List A) (i : ℕ)
        → IsHeap a
        → 0 < i
        → i < k
        → i < length a
        → cmp (get_or a 0 d) (get_or a i d) ≡ false
    root_least_below zero a i h p f s = absurd (omega arith)
    root_least_below (suc k) a i h p f s = ground (
      arith,
      h i p s,
      root_least_below k a (parent_of i) h,
      order.trans (get_or a 0 d) (get_or a (parent_of i) d) (get_or a i d),
    )

    -- No entry of a heap is less than the root.
    pub root_least :
        (a : List A) (i : ℕ)
        → IsHeap a
        → 0 < i
        → i < length a
        → cmp (get_or a 0 d) (get_or a i d) ≡ false
    root_least a i h p s = root_least_below (suc i) a i h p (omega arith) s

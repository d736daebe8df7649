-- ===== src/MinQueue/Tests.antt =====
-- A queue of numbers, through pushes and pops, and the theorems on it.
use mathlib.Core.List.Perm
use projet.Base.{
  ℕ, zero, suc, ◌≡◌, refl, Bool, true, false, Option, some, List, [], ◌∷◌, arith, ltb,
}
use projet.Base.Int.{pos}
use projet.Base.Exec.{Exec, ok, ◌>>=◌, Yields}
use projet.Base.Array.{load, store}
use projet.MinQueue.{
  minq_del, entries_block, structure_block, MinQueue, grow, heapify_up, has_child, heapify_down,
  minq_new, minq_push, minq_pop, minq_peek, minq_empty,
}
use projet.MinQueue.Order.{IsOrder, IsHeap}
use projet.MinQueue.Queue.{Holds, Leaves, minq_new-Holds}
use projet.MinQueue.Queue.Pop.{IsTaken, minq_pop-IsTaken}
use projet.MinQueue.Queue.Push.{minq_push-Holds}

abbrev greater : ℕ → ℕ → Bool
greater a b = ltb b a

greater-IsOrder : IsOrder greater
greater-IsOrder = record { asym = λ a b h. ground arith; trans = λ a b c p q. ground arith }

abbrev entries : List ℕ
entries = 1 ∷ 4 ∷ 9 ∷ 7 ∷ []

abbrev queue : MinQueue ℕ
queue = record { cmp = greater; size = 4; alloc = 6; e = 1 ∷ 4 ∷ 9 ∷ 7 ∷ 0 ∷ 0 ∷ [] }

queue-Holds : Holds 0 queue entries
queue-Holds = record {
  live = 1 ∷ 4 ∷ 9 ∷ 7 ∷ [];
  spare = 0 ∷ 0 ∷ [];
  order = greater-IsOrder;
  array = refl;
  sized = refl;
  allocated = refl;
  heap = heap;
  same = Perm.rfl;
}
  where
    heap : IsHeap greater 0 (1 ∷ 4 ∷ 9 ∷ 7 ∷ [])
    heap zero p l = absurd (omega arith)
    heap (suc zero) p l = ground arith
    heap (suc (suc zero)) p l = ground arith
    heap (suc (suc (suc zero))) p l = ground arith
    heap (suc (suc (suc (suc c)))) p l = absurd (omega arith)

abbrev push : ℕ → Option (MinQueue ℕ) → Exec (Option (MinQueue ℕ))
push v q = minq_push true 0 q v >>= λ (done, q'). ok q'

-- Entries come out in order.
in_order :
    (push 5 (some queue) >>= λ q.
    push 0 q >>= λ q. push 3 q >>= λ q. minq_pop q >>= λ q. minq_pop q >>= λ q. minq_peek q)
    ≡ ok (some 3)
unfolding minq_push minq_pop minq_peek minq_empty grow heapify_up heapify_down has_child load store
in_order = refl

minq_push-Holds_example :
    Yields
      (λ r. (r.0 ≡ pos 0) × Leaves 0 (5 ∷ 1 ∷ 4 ∷ 9 ∷ 7 ∷ []) r.1)
      (minq_push false 0 (some queue) 5)
minq_push-Holds_example =
    minq_push-Holds 0 false 0 queue 5 (1 ∷ 4 ∷ 9 ∷ 7 ∷ []) queue-Holds (λ e. absurd (omega arith))

minq_pop-IsTaken_example : IsTaken 0 queue entries
minq_pop-IsTaken_example = minq_pop-IsTaken 0 queue entries queue-Holds (λ e. absurd (omega arith))

minq_new-Holds_example : Leaves 0 [] (minq_new true true 0 (some greater))
minq_new-Holds_example = minq_new-Holds 0 0 greater greater-IsOrder

queue_released : minq_del (some queue) ≡ entries_block ∷ structure_block ∷ []
queue_released = refl

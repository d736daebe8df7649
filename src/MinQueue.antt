-- ===== src/MinQueue.antt =====
-- linksim/min_queue.c: a priority queue, kept as a binary heap in an array that grows by twenty slots.
-- The root is slot 0, whose one child is slot 1; below, the children of `x` are `2x` and `2x + 1`.
pub mod Order
pub mod Frame
pub mod Up
pub mod Down
pub mod Queue
mod Tests
use projet.Base.{
  ℕ, zero, suc, ◌+◌, ◌-◌, ◌*◌, ◌/◌, Bool, true, false, not, ◌||◌, Option, none, some, List, [], ◌∷◌,
  ◌++◌, ltb, leb, ◌==◌, if◌then◌else◌, replicate,
}
use projet.Base.Int.{ℤ, pos, negsuc}
use projet.Base.Exec.{Exec, ok, no_fuel, ◌>>=◌}
use projet.Base.Array.{load, store}

abbrev pub slots_per_malloc : ℕ
slots_per_malloc = 20

-- `struct minqueue`: the array has `alloc` slots, of which the first `size` are in use.
pub record MinQueue {ℓ} (A : Type ℓ) : Type ℓ where
  pub cmp : A → A → Bool
  pub size : ℕ
  pub alloc : ℕ
  pub e : List A

abbrev pub lchild : ℕ → ℕ
lchild x = x * 2

abbrev pub parent_of : ℕ → ℕ
parent_of x = x / 2

module _ {ℓ} {A : Type ℓ} where
  -- `minq_new`: the two Booleans say whether the two allocations succeed, and `junk` is what a fresh
  -- slot holds.
  unfoldable pub minq_new : Bool → Bool → A → Option (A → A → Bool) → Option (MinQueue A)
  minq_new alloc_queue alloc_slots junk none = none
  minq_new alloc_queue alloc_slots junk (some cmp) =
      if not alloc_queue
      then none
      else if not alloc_slots
      then none
      else some (record {
        cmp = cmp;
        size = 0;
        alloc = slots_per_malloc;
        e = replicate slots_per_malloc junk;
      })

  -- The `while` of `minq_push` and the store behind it. The first argument is fuel.
  unfoldable pub heapify_up : ℕ → (A → A → Bool) → List A → ℕ → A → Exec (List A)
  heapify_up zero cmp e i v = no_fuel
  heapify_up (suc k) cmp e i v =
      let move_down : A → Exec (List A) =
        λ above. do e' ← store e i above; heapify_up k cmp e' (parent_of i) v
      in let compare_parent : Exec (List A) = do
        above ← load e (parent_of i)
        if cmp above v then move_down above else store e i v
        in if i == 0 then store e i v else compare_parent

  -- The array after the `realloc` of a full queue, if that succeeds.
  unfoldable pub grow : Bool → A → MinQueue A → Option (MinQueue A)
  grow realloc_succeeds junk q =
      if not (q.size == q.alloc)
      then some q
      else if not realloc_succeeds
      then none
      else some (record q {
        e = q.e ++ replicate slots_per_malloc junk;
        alloc = q.size + slots_per_malloc;
      })

  -- `minq_push`: -1 leaves the queue as it was.
  unfoldable pub minq_push : Bool → A → Option (MinQueue A) → A → Exec (ℤ × Option (MinQueue A))
  minq_push realloc_succeeds junk none v = ok (negsuc 0, none)
  minq_push realloc_succeeds junk (some q) v = elim (grow realloc_succeeds junk q) [
    | none ↦ ok (negsuc 0, some q)
    | some grown ↦ do
      e ← heapify_up (grown.size + 1) grown.cmp grown.e grown.size v
      ok (pos 0, some (record grown { size = grown.size + 1; e = e }))
  ]

  -- `has_child`: the lesser child, or 0 if there is none. At the root the left child is the root
  -- itself, so that the answer is 1 or 0.
  unfoldable pub has_child : (A → A → Bool) → List A → ℕ → ℕ → Exec ℕ
  has_child cmp e size i =
      let left = lchild i in
      let right = left + 1 in
      let compare_children : Exec ℕ = do
        l ← load e left
        r ← load e right
        if cmp l r then ok right else ok left
      in if leb size left then ok 0 else if ltb right size then compare_children else ok left

  -- The `while` of `minq_pop`. The first argument is fuel.
  unfoldable pub heapify_down : ℕ → (A → A → Bool) → List A → ℕ → ℕ → Exec (List A)
  heapify_down zero cmp e size current = no_fuel
  heapify_down (suc k) cmp e size current = do
    min_child ← has_child cmp e size current
    let swap_down : A → A → Exec (List A) = λ c m. do
      e' ← store e current m
      e'' ← store e' min_child c
      heapify_down k cmp e'' size min_child
    let compare_child : Exec (List A) = do
      c ← load e current
      m ← load e min_child
      if cmp c m then swap_down c m else ok e
    if min_child == 0 then ok e else compare_child

  unfoldable pub minq_empty : Option (MinQueue A) → Bool
  minq_empty none = true
  minq_empty (some q) = q.size == 0

  -- `minq_pop`
  unfoldable pub minq_pop : Option (MinQueue A) → Exec (Option (MinQueue A))
  minq_pop none = ok none
  minq_pop (some q) =
      let remove : Exec (Option (MinQueue A)) = do
        last ← load q.e (q.size - 1)
        e ← store q.e 0 last
        e' ← heapify_down (q.size + 1) q.cmp e (q.size - 1) 0
        ok (some (record q { size = q.size - 1; e = e' }))
      in if minq_empty (some q) then ok (some q) else remove

  -- `minq_peek`: `none` for NULL.
  unfoldable pub minq_peek : Option (MinQueue A) → Exec (Option A)
  minq_peek none = ok none
  minq_peek (some q) =
      let root : Exec (Option A) = (do top ← load q.e 0; ok (some top)) in
      if minq_empty (some q) then ok none else root

  unfoldable pub minq_size : Option (MinQueue A) → ℕ
  minq_size none = 0
  minq_size (some q) = q.size

-- The two blocks of a queue, its array and its structure.
pub data Block : Type 0 where
  entries_block structure_block : Block

-- `minq_del`: the blocks that are released, in their order.
abbrev pub minq_del {ℓ} : {A : Type ℓ} → Option (MinQueue A) → List Block
minq_del none = []
minq_del (some q) = entries_block ∷ structure_block ∷ []

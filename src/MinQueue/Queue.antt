-- ===== src/MinQueue/Queue.antt =====
-- What the queue promises its clients: it is a bag from which a least element is taken.
pub mod Push
pub mod Pop
use mathlib.Core.List.{Perm, Mem, mem-cons, not-mem-nil, perm_append_singleton}
use mathlib.Core.List.Perm
use mathlib.Core.Path.{subst}
use mathlib.Core.Logic.Or
use projet.Base.{
  ℕ, zero, suc, ◌+◌, ◌-◌, ◌<◌, ◌≡◌, ◌≢◌, refl, sym, ap, ◌∙◌, Bool, true, false, Option, none, some,
  List, [], ◌∷◌, ◌++◌, arith, length, get_or, set, length-append, ◌==◌, ne→==, Bool-cases, inl, inr,
  get_or-append, behind_first, last_cut, append_assoc, append-nil, first_cut, length-zero, eq_of_==,
  replicate,
}
use projet.Base.Int.{pos, negsuc}
use projet.Base.Exec.{Exec, ok, ◌>>=◌, Yields, yields, Yields-map, Yields-bind, bind_assoc}
use projet.Base.Array.{load, store, set-append, load-append, store-append}
use projet.Base.Swap.{length-perm}
use projet.MinQueue.{
  MinQueue, parent_of, grow, heapify_up, heapify_down, minq_new, minq_push, minq_pop, minq_peek,
  minq_empty, minq_size,
}
use projet.MinQueue.Order.{IsOrder, IsHeap, root_least}
use projet.MinQueue.Frame.{heapify_up-live, heapify_down-live}
use projet.MinQueue.Up.{UpInv, heapify_up-IsHeap}
use projet.MinQueue.Down.{DownInv, heapify_down-IsHeap}

module _ {ℓ} {A : Type ℓ} (d : A) where
  -- The queue is well formed and holds exactly `items`: the slots in use are a heap of them, and the
  -- array is as long as was allocated.
  pub record Holds (q : MinQueue A) (items : List A) : Type ℓ where
    pub live : List A
    pub spare : List A
    pub order : IsOrder q.cmp
    pub array : q.e ≡ live ++ spare
    pub sized : length live ≡ q.size
    pub allocated : length q.e ≡ q.alloc
    pub heap : IsHeap q.cmp d live
    pub same : Perm live items

  -- The result is a queue that holds `items`.
  abbrev pub Leaves : List A → Option (MinQueue A) → Type ℓ
  Leaves items r = (q : MinQueue A) × (r ≡ some q) × Holds q items

  -- A queue from `minq_new` holds nothing.
  pub minq_new-Holds :
      (junk : A) (cmp : A → A → Bool) → IsOrder cmp → Leaves [] (minq_new true true junk (some cmp))
  unfolding minq_new
  minq_new-Holds junk cmp order =
      let slots = replicate 20 junk in
      (
        record { cmp = cmp; size = 0; alloc = 20; e = slots },
        refl,
        record {
          live = [];
          spare = slots;
          order = order;
          array = refl;
          sized = refl;
          allocated = refl;
          heap = λ c p l. absurd (omega arith);
          same = Perm.rfl;
        },
      )

  -- `minq_size` counts the entries, `minq_empty` says whether there are any, and on a queue without
  -- entries `minq_peek` answers NULL and `minq_pop` changes nothing.
  pub minq_size-Holds :
      (q : MinQueue A) (items : List A)
      → Holds q items
      → (minq_size (some q) ≡ length items)
        × (minq_empty (some q) ≡ (length items == 0))
        × (length items ≡ 0 → (minq_peek (some q) ≡ ok none) × (minq_pop (some q) ≡ ok (some q)))
  unfolding minq_size minq_empty minq_peek minq_pop
  minq_size-Holds q items h =
      let size : q.size ≡ length items = omega (arith, h.sized, length-perm h.same) in
      (size, ap (λ n. n == 0) size, λ none_left. (ground arith, ground arith))

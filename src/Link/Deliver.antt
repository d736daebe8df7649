-- ===== src/Link/Deliver.antt =====
-- `deliver_delayed_pkt` of link_sim.c, in terms of what the queue promises.
use mathlib.Core.List.{Perm, Mem, mem-cons_self, mem-cons_of_mem, not-mem-nil}
use mathlib.Core.List.Perm
use mathlib.Core.Path.{subst}
use projet.Base.{
  ℕ, zero, suc, ◌+◌, ◌-◌, ap, ◌∙◌, take, le→ltb, length-zero, ◌≤◌, ◌<◌, ◌≡◌, refl, Bool, true,
  false, Option, none, some, List, [], ◌∷◌, ◌++◌, map, arith, length, All, Bool-cases, inl, inr,
  ℕ_discrete,
}
use projet.Base.Exec.{
  Exec, ok, Yields, yields, Yields-bind, OnReturn, OnReturn-bind, OnReturn-if, OnReturn-any,
}
use projet.Base.Array.{prefix, load, store}
use projet.Base.Swap.{length-perm}
use projet.MinQueue.{MinQueue, minq_empty, minq_pop, heapify_down}
use projet.MinQueue.Queue.{Holds, Leaves, minq_size-Holds}
use projet.MinQueue.Queue.Pop.{minq_pop-IsTaken}
use projet.Link.Time.{pkt_slot_cmp-IsOrder}
use projet.Link.{
  pkt_slot_cmp, Timeval, PktSlot, Outcome, timeval_cmp, write_out, deliver_delayed_pkt,
}

-- The bytes in use of a slot.
abbrev pub bytes_of : PktSlot → List ℕ
bytes_of p = take p.size p.buf

-- What is left when every sending succeeds: the packets sent are those whose date has passed, and the
-- queue holds the others.
pub record IsDelivered (d : PktSlot) (clock : Timeval) (items : List PktSlot) (r : Outcome)
    : Type 0 where
  pub out : List PktSlot
  pub left : List PktSlot
  pub succeeded : r.success ≡ true
  pub sent_eq : r.sent ≡ map bytes_of out
  pub expired : All (λ p. timeval_cmp clock p.ts ≡ true) out
  pub holds : Leaves d left r.pkt_queue
  pub parts : Perm (out ++ left) items
  pub waiting : (p : PktSlot) → Mem p left → timeval_cmp clock p.ts ≡ false

-- A call on a queue keeps its comparison.
abbrev pub Keeps : (PktSlot → PktSlot → Bool) → Option (MinQueue PktSlot) → Type 0
Keeps cmp none = Unit
Keeps cmp (some q) = q.cmp ≡ cmp

pub minq_pop-Keeps : (q : MinQueue PktSlot) → OnReturn (Keeps q.cmp) (minq_pop (some q))
unfolding minq_pop
minq_pop-Keeps q =
    OnReturn-if (Keeps q.cmp) (minq_empty (some q)) _ _ (λ e. refl)
      λ e.
        OnReturn-bind (λ _. Unit {0}) _ (load q.e (q.size - 1)) _ (OnReturn-any _)
          λ last _.
            OnReturn-bind (λ _. Unit {0}) _ (store q.e 0 last) _ (OnReturn-any _)
              λ a _.
                OnReturn-bind (λ _. Unit {0}) _ (heapify_down (q.size + 1) q.cmp a (q.size - 1) 0) _
                  (OnReturn-any _) λ b _. refl

pub Yields-both :
    {A : Type 0} {P Q : A → Type 0} (m : Exec A)
    → Yields P m
    → OnReturn Q m
    → Yields (λ a. P a × Q a) m
Yields-both _ (yields p) q = yields (p, q)

pub write_out-take :
    (p : PktSlot) → p.size ≤ length p.buf → write_out p.buf p.size ≡ ok (bytes_of p)
unfolding write_out prefix
write_out-take p h = rw (le→ltb (length p.buf) p.size h) refl

-- A first packet that waits lets all others wait.
others_wait :
    (clock : Timeval) (top p : PktSlot)
    → timeval_cmp clock top.ts ≡ false
    → pkt_slot_cmp top p ≡ false
    → timeval_cmp clock p.ts ≡ false
unfolding pkt_slot_cmp
others_wait clock top p h least =
    let now : PktSlot = record { ts = clock; size = 0; buf = [] } in
    pkt_slot_cmp-IsOrder.trans now top p h least

-- On a queue of packets ordered by date, with every sending successful, the call returns: it answers
-- EXIT_SUCCESS, has sent exactly the packets whose date has passed, and leaves a queue of the
-- others. The fuel exceeds the number of packets.
pub deliver_delayed_pkt-IsDelivered :
    (d : PktSlot) (k : ℕ) (clock : Timeval) (q : MinQueue PktSlot) (items : List PktSlot)
    → Holds d q items
    → q.cmp ≡ pkt_slot_cmp
    → ((p : PktSlot) → Mem p items → p.size ≤ length p.buf)
    → length items < k
    → Yields (IsDelivered d clock items) (deliver_delayed_pkt k [] clock (some q))
unfolding deliver_delayed_pkt
deliver_delayed_pkt-IsDelivered d zero clock q items h c sizes fuel = absurd (omega arith)
deliver_delayed_pkt-IsDelivered d (suc k) clock q items h c sizes fuel =
    let count : q.size ≡ length items = omega (arith, h.sized, length-perm h.same) in
    elim (ℕ_discrete q.size 0) [
      | yes empty ↦
          let none_left = length-zero items (omega arith) in
          rw ((minq_size-Holds d q items h).2 (omega arith)).0 (
            yields (record {
              out = [];
              left = items;
              succeeded = refl;
              sent_eq = refl;
              expired = tt;
              holds = (q, refl, h);
              parts = Perm.rfl;
              waiting = λ p m. absurd (not-mem-nil (subst (Mem p) none_left m));
            }))
      | no some_left ↦
          let t = minq_pop-IsTaken d q items h some_left in
          rw t.peeked (elim (Bool-cases (timeval_cmp clock t.top.ts)) [
            | inr waits ↦ rw waits (
                yields (record {
                  out = [];
                  left = items;
                  succeeded = refl;
                  sent_eq = refl;
                  expired = tt;
                  holds = (q, refl, h);
                  parts = Perm.rfl;
                  waiting = λ p m.
                      others_wait clock t.top p waits
                        (subst (λ f. f t.top p ≡ false) c (t.least p m));
                }))
            | inl passed ↦
                let inside : (p : PktSlot) → Mem p (t.top ∷ t.rest) → Mem p items =
                  λ p. (Perm.mem_iff t.same).0 in
                rw (passed, write_out-take t.top (sizes t.top (inside t.top mem-cons_self)))
                  (Yields-bind (Yields-both _ t.popped (minq_pop-Keeps q)) λ r ((q', e, h'), keep).
                    let same : q'.cmp ≡ q.cmp = subst (Keeps q.cmp) e keep in
                    let ih =
                      deliver_delayed_pkt-IsDelivered d k clock q' t.rest h' (same ∙ c)
                        (λ p m. sizes p (inside p (mem-cons_of_mem t.top m)))
                        (omega (arith, length-perm t.same)) in
                    rw e (
                      Yields-bind ih λ o v. yields (record {
                        out = t.top ∷ v.out;
                        left = v.left;
                        succeeded = v.succeeded;
                        sent_eq = ap (◌∷◌ (bytes_of t.top)) v.sent_eq;
                        expired = (passed, v.expired);
                        holds = v.holds;
                        parts = Perm.trans (Perm.cons t.top v.parts) t.same;
                        waiting = v.waiting;
                      })))
          ])
    ]

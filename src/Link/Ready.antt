-- ===== src/Link/Ready.antt =====
-- The queue of the proxy of linksim/link_sim.c stays in order, and its calls return.
use mathlib.Core.List.{Mem, mem-cons, mem-cons_self, mem-cons_of_mem}
use mathlib.Core.List.Perm
use mathlib.Core.Logic.Or
use mathlib.Core.Path.{subst}
use projet.Base.{
  ℕ, zero, suc, ◌+◌, ◌≤◌, ◌<◌, ◌≡◌, ◌≢◌, refl, sym, ◌∙◌, ◌⊎◌, Bool, true, false, not, ◌&&◌, ◌||◌,
  dec_le, some, List, ◌∷◌, arith, length, take, drop, ◌==◌, Bool-cases, inl, inr, ℕ_discrete,
  le→ltb, length-append, length-take,
}
use projet.Base.Exec.{
  Exec, Yields, yields, Yields-bind, Yields-map, Yields-if, OnReturn, OnReturn-bind, OnReturn-any,
}
use projet.Base.Array.{prefix}
use projet.Base.Int.{pos, ltb_ℤ}
use projet.Base.Swap.{length-perm}
use projet.MinQueue.{MinQueue, minq_empty, minq_push, grow, heapify_up}
use projet.MinQueue.Queue.{Holds, minq_size-Holds}
use projet.MinQueue.Queue.Pop.{minq_pop-IsTaken}
use projet.MinQueue.Queue.Push.{minq_push-Holds, minq_push-full}
use projet.Link.{
  Queue, Settings, World, Timeval, PktSlot, Sending, sent_all, retry, failed, pkt_slot_cmp,
  timeval_cmp, timeval_diff, eqb_ℤ, next_sending, later, write_out, deliver_delayed_pkt,
  get_queue_timeout, applied_delay, forward, simulate_link,
}
use projet.Link.Deliver.{Keeps, minq_pop-Keeps, Yields-both, write_out-take}
use projet.Link.Delay.{copy_front}
use projet.Link.Effect.{simulate_link-cases}

pub by_sending :
    {A : Type 0} {P : A → Type 0} (s : Sending) {x y z : Exec A}
    → Yields P x
    → Yields P y
    → Yields P z
    → Yields P (elim s [ sent_all ↦ x | retry ↦ y | failed ↦ z ])
by_sending sent_all x y z = x
by_sending retry x y z = y
by_sending failed x y z = z

minq_push-Keeps :
    (realloc_succeeds : Bool) (junk : PktSlot) (q : MinQueue PktSlot) (v : PktSlot)
    → OnReturn (λ (r : _ × Queue). Keeps q.cmp r.1) (minq_push realloc_succeeds junk (some q) v)
unfolding minq_push grow
minq_push-Keeps realloc_succeeds junk q v = elim (Bool-cases (q.size == q.alloc)) [
  | inr free ↦
      rw (minq_push, grow, free)
        (OnReturn-bind (λ _. Unit {0}) _ (heapify_up (q.size + 1) q.cmp q.e q.size v) _
          (OnReturn-any _) λ e _. refl)
  | inl full ↦ elim (Bool-cases realloc_succeeds) [
    | inr fails ↦ rw (minq_push, grow, full, fails) refl
    | inl grows ↦
        rw (minq_push, grow, full, grows)
          (OnReturn-bind (λ _. Unit {0}) _ (heapify_up (q.size + 1) q.cmp _ q.size v) _
            (OnReturn-any _) λ e _. refl)
  ]
]

module _ (d : PktSlot) where
  -- The queue exists, is ordered by date, and each slot holds the bytes that it says.
  pub record IsReady (oq : Queue) : Type 0 where
    pub q : MinQueue PktSlot
    pub items : List PktSlot
    pub queue_eq : oq ≡ some q
    pub holds : Holds d q items
    pub ordered : q.cmp ≡ pkt_slot_cmp
    pub fits : (p : PktSlot) → Mem p items → p.size ≤ length p.buf

  -- However the sendings end, the call returns.
  pub deliver_delayed_pkt-IsReady :
      (k : ℕ) (sendings : List Sending) (clock : Timeval) (q : MinQueue PktSlot)
      (items : List PktSlot)
      → Holds d q items
      → q.cmp ≡ pkt_slot_cmp
      → ((p : PktSlot) → Mem p items → p.size ≤ length p.buf)
      → length items < k
      → Yields (λ r. IsReady r.pkt_queue) (deliver_delayed_pkt k sendings clock (some q))
  unfolding deliver_delayed_pkt
  deliver_delayed_pkt-IsReady zero sendings clock q items h c fits fuel = absurd (omega arith)
  deliver_delayed_pkt-IsReady (suc k) sendings clock q items h c fits fuel =
      let same : IsReady (some q) = record {
        q = q;
        items = items;
        queue_eq = refl;
        holds = h;
        ordered = c;
        fits = fits;
      } in
      elim (ℕ_discrete q.size 0) [
        | yes empty ↦
            let count : q.size ≡ length items = omega (arith, h.sized, length-perm h.same) in
            rw ((minq_size-Holds d q items h).2 (omega arith)).0 (yields same)
        | no some_left ↦
            let t = minq_pop-IsTaken d q items h some_left in
            let inside : (p : PktSlot) → Mem p (t.top ∷ t.rest) → Mem p items =
              λ p. (Perm.mem_iff t.same).0 in
            rw t.peeked (elim (Bool-cases (timeval_cmp clock t.top.ts)) [
              | inr waits ↦ rw waits (yields same)
              | inl passed ↦
                  rw (passed, write_out-take t.top (fits t.top (inside t.top mem-cons_self)))
                    (by_sending (next_sending sendings)
                      (Yields-bind (Yields-both _ t.popped (minq_pop-Keeps q))
                        λ r ((q', e, h'), keep).
                          let kept : q'.cmp ≡ q.cmp = subst (Keeps q.cmp) e keep in
                          rw e (
                            Yields-bind
                              (deliver_delayed_pkt-IsReady k (later sendings) clock q' t.rest h'
                                (kept ∙ c) (λ p m. fits p (inside p (mem-cons_of_mem t.top m)))
                                (omega (arith, length-perm t.same)))
                              λ o ready. yields ready))
                      (yields same) (yields same))
            ])
      ]

  pub get_queue_timeout-yields :
      (clock : Timeval) (oq : Queue)
      → IsReady oq
      → Yields (λ _. Unit {0}) (get_queue_timeout clock oq)
  unfolding get_queue_timeout
  get_queue_timeout-yields clock oq r =
      let (_, empty, _) = minq_size-Holds d r.q r.items r.holds in
      rw r.queue_eq (elim (Bool-cases (minq_empty (some r.q))) [
        | inl none_left ↦ rw none_left (yields tt)
        | inr some_left ↦
            let count : r.q.size ≡ length r.items =
              omega (arith, r.holds.sized, length-perm r.holds.same) in
            let t = minq_pop-IsTaken d r.q r.items r.holds (λ e. ground (arith, e)) in
            let timeout = timeval_diff t.top.ts clock in
            rw (some_left, t.peeked)
              (Yields-if
                (ltb_ℤ timeout.tv_sec (pos 0)
                  || (eqb_ℤ timeout.tv_sec (pos 0) && not (ltb_ℤ (pos 0) timeout.tv_usec)))
                (λ h. yields tt) λ h. yields tt)
      ])

  module _ (rand : ℕ → ℕ) (settings : Settings) (world : World)
      (jitters : (settings.delay ≡ 0) ⊎ (settings.jitter ≢ 0))
      (roomy : 520 ≤ length world.slot_memory) where
    pushed :
        (oq : Queue) (r : IsReady oq) (v : PktSlot)
        → v.size ≤ length v.buf
        → (r.q.size ≡ r.q.alloc → world.realloc_succeeds ≡ true)
        → Yields
            (λ o. IsReady o.1)
            (minq_push world.realloc_succeeds world.queue_memory (some r.q) v)
    pushed oq r v fits room =
        Yields-map
          (Yields-both _
            (minq_push-Holds d world.realloc_succeeds world.queue_memory r.q v r.items r.holds room)
            (minq_push-Keeps world.realloc_succeeds world.queue_memory r.q v))
          λ o ((zero_result, (q', e, h')), keep). record {
            q = q';
            items = v ∷ r.items;
            queue_eq = e;
            holds = h';
            ordered = subst (Keeps r.q.cmp) e keep ∙ r.ordered;
            fits = λ p m. elim (dec_le p.size (length p.buf)) [
              | yes inside ↦ inside
              | no beyond ↦ absurd (
                  Or.elim (hlevel) (mem-cons.0 m)
                    (λ same.
                      beyond (subst (λ (p : PktSlot). p.size ≤ length p.buf) (sym same) fits))
                    λ old. beyond (r.fits p old))
            ];
          }

    -- A slot enters the queue, unless the queue is full and cannot grow.
    push-IsReady :
        (oq : Queue) (ready : IsReady oq) (v : PktSlot)
        → v.size ≤ length v.buf
        → Yields
            (λ r. IsReady r.1)
            (minq_push world.realloc_succeeds world.queue_memory (some ready.q) v)
    push-IsReady oq r v fits = elim (Bool-cases world.realloc_succeeds) [
      | inl grows ↦ pushed oq r v fits (λ full. grows)
      | inr fails ↦ elim (ℕ_discrete r.q.size r.q.alloc) [
        | yes full ↦
            rw (fails, minq_push-full d world.queue_memory r.q v full)
              (yields (record {
                q = r.q;
                items = r.items;
                queue_eq = refl;
                holds = r.holds;
                ordered = r.ordered;
                fits = r.fits;
              }))
        | no free ↦ pushed oq r v fits (λ full. absurd (free full))
      ]
    ]

    forward-IsReady :
        (clock : Timeval) (oq : Queue) (draw : ℕ) (buf : List ℕ) (len : ℕ)
        → IsReady oq
        → len ≤ length buf
        → len ≤ 520
        → Yields (λ r. IsReady r.pkt_queue) (forward rand settings world clock oq draw buf len)
    unfolding forward applied_delay write_out prefix
    forward-IsReady clock oq draw buf len r hb hm = elim (ℕ_discrete settings.delay 0) [
      | yes undelayed ↦
          rw (undelayed, le→ltb (length buf) len hb)
            (by_sending world.sending (yields r) (yields r) (yields r))
      | no delayed ↦
          let some_delay : (settings.delay == 0) ≡ false = ground arith in
          let some_jitter : (settings.jitter == 0) ≡ false = ground (arith, jitters) in
          rw (some_delay, some_jitter)
            (Yields-if (not world.slot_allocated) (λ h. yields r)
              λ h.
                rw (copy_front world.slot_memory buf len (omega (arith, roomy)) hb, r.queue_eq)
                  (Yields-bind
                    (push-IsReady oq r _ (
                      omega (
                        arith,
                        length-append (take len buf) (drop len world.slot_memory),
                        length-take len buf,
                      )))
                    λ (result, q') ready. yields ready))
    ]

    pub simulate_link-IsReady :
        (clock : Timeval) (oq : Queue) (buf : List ℕ)
        → IsReady oq
        → 4 ≤ length buf
        → length buf ≤ 520
        → Yields
            (λ r. IsReady r.pkt_queue)
            (simulate_link rand settings world clock oq 0 buf (length buf))
    simulate_link-IsReady clock oq buf r least most =
        simulate_link-cases rand settings world clock oq
          (λ f m. Yields (λ r. IsReady r.pkt_queue) m) buf least (yields r)
          λ draw len buf' inside same. forward-IsReady clock oq draw buf' len r inside (omega arith)

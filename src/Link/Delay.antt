-- ===== src/Link/Delay.antt =====
-- What the simulated link of link_sim.c does to a packet when it has a delay.
use mathlib.Core.Path.{ap₂}
use projet.Base.{
  ℕ, ◌≤◌, ◌<◌, ◌≡◌, ◌≢◌, refl, sym, ap, ◌∙◌, true, false, Option, none, some, List, [], ◌∷◌, ◌++◌,
  arith, length, take, drop, ◌==◌, split_at, take-append, length-take,
}
use projet.Base.Exec.{ok, Yields, yields, Yields-bind}
use projet.Base.Array.{copy, copy-append}
use projet.MinQueue.{MinQueue}
use projet.MinQueue.Queue.{Holds, Leaves}
use projet.MinQueue.Queue.Push.{minq_push-Holds}
use projet.Link.{
  Queue, Settings, World, Timeval, PktSlot, forward, applied_delay, expiration, simulate_link,
}
use projet.Link.Deliver.{bytes_of}
use projet.Link.Effect.{simulate_link-cases, fate}

-- `memcpy` of the first `len` bytes.
pub copy_front :
    (memory buf : List ℕ) (len : ℕ)
    → len ≤ length memory
    → len ≤ length buf
    → copy len memory 0 buf 0 ≡ ok (take len buf ++ drop len memory)
copy_front memory buf len hm hb =
    let (front, front_n, cut, _) = split_at len memory hm in
    let (first, first_n, cut', _) = split_at len buf hb in
    let run =
      copy-append [] front (drop len memory) [] first (drop len buf) {n = len} {d = 0} {s = 0}
        (sym first_n) (omega (arith, front_n, first_n)) refl refl in
    let same : take len buf ≡ first =
      ap (take len) cut' ∙ take-append len first (drop len buf) (sym first_n) in
    ap₂ (λ m b. copy len m 0 b 0) cut cut' ∙ run ∙ ap (λ f. ok (f ++ drop len memory)) (sym same)

module _ (rand : ℕ → ℕ) where
  -- What is in the queue after a packet with the given fate: a lost one is not there, another one is
  -- there with the bytes that will arrive, and a date at most ten seconds on.
  abbrev pub IsHeld : PktSlot → Timeval → List PktSlot → Option (List ℕ) → Queue → Type 0
  IsHeld d clock items none q = Leaves d items q
  IsHeld d clock items (some bytes) q =
      (p : PktSlot) × (wait : ℕ) × (wait < 10000)
      × (bytes_of p ≡ bytes)
      × (p.ts ≡ expiration rand clock wait)
      × Leaves d (p ∷ items) q

  module _ (settings : Settings) (world : World) (clock : Timeval) (d : PktSlot)
      (q : MinQueue PktSlot) (items : List PktSlot) (h : Holds d q items) where
    -- The packet enters the queue.
    forward-later :
        (draw : ℕ) (buf : List ℕ) (len : ℕ)
        → settings.delay ≢ 0
        → settings.jitter ≢ 0
        → world.slot_allocated ≡ true
        → world.realloc_succeeds ≡ true
        → len ≤ length buf
        → len ≤ length world.slot_memory
        → Yields
            (λ r.
              (r.success ≡ true)
              × (r.sent ≡ [])
              × IsHeld d clock items (some (take len buf)) r.pkt_queue)
            (forward rand settings world clock (some q) draw buf len)
    unfolding forward applied_delay
    forward-later draw buf len delayed jitters allocated grows hb hm =
        let some_delay : (settings.delay == 0) ≡ false = ground arith in
        let some_jitter : (settings.jitter == 0) ≡ false = ground arith in
        rw (some_delay, some_jitter, allocated, copy_front world.slot_memory buf len hm hb)
          (Yields-bind
            (minq_push-Holds d world.realloc_succeeds world.queue_memory q _ items h
              (λ full. grows))
            λ (result, q') (zero_result, left). rw zero_result (
              yields (
                refl,
                refl,
                (
                  _,
                  _,
                  omega arith,
                  take-append len (take len buf) _ (omega (arith, length-take len buf)),
                  refl,
                  left,
                ),
              )))

    -- On a link with a delay and a jitter, where memory can be had and the slot has room, a
    -- packet of at least four bytes is accepted and nothing is sent yet; unless it is lost, the
    -- queue holds one more packet, with the bytes that its fate says, and the date that a wait
    -- of less than ten seconds gives.
    pub simulate_link-IsHeld :
        (buf : List ℕ)
        → settings.delay ≢ 0
        → settings.jitter ≢ 0
        → world.slot_allocated ≡ true
        → world.realloc_succeeds ≡ true
        → 4 ≤ length buf
        → length buf ≤ length world.slot_memory
        → Yields
            (λ r.
              (r.success ≡ true)
              × (r.sent ≡ [])
              × IsHeld d clock items (fate rand settings buf) r.pkt_queue)
            (simulate_link rand settings world clock (some q) 0 buf (length buf))
    simulate_link-IsHeld buf delayed jitters allocated grows long fits =
        simulate_link-cases rand settings world clock (some q)
          (λ f m.
            Yields (λ r. (r.success ≡ true) × (r.sent ≡ []) × IsHeld d clock items f r.pkt_queue) m)
          buf long (yields (refl, refl, (q, refl, h)))
          λ draw len buf' inside same.
            forward-later draw buf' len delayed jitters allocated grows inside (omega arith)

-- ===== src/Link.antt =====
-- linksim/link_sim.c: the simulator of a lossy link. `sendto` and `rand` are the environment: what
-- each sending gives is listed, and the n-th call of `rand` gives `rand n`.
pub mod Time
pub mod Deliver
pub mod Proxy
pub mod Effect
pub mod Delay
pub mod Ready
pub mod Route
pub mod Turn
pub mod Options
mod Tests
use projet.Base.{
  ℕ, zero, suc, ◌+◌, ◌-◌, ◌*◌, ◌/◌, ◌%◌, ◌^◌, Bool, true, false, not, ◌&&◌, ◌||◌, Option, none,
  some, List, [], ◌∷◌, ◌++◌, length, ltb, leb, ◌==◌, if◌then◌else◌, replicate,
}
use projet.Base.Exec.{Exec, ok, fault, no_fuel, ◌>>=◌}
use projet.Base.Array.{load, store, prefix, copy}
use projet.Base.Word.{u32}
use projet.Base.Int.{ℤ, pos, negsuc, ltb_ℤ, ◌+ℤ◌, ◌-ℤ◌}
use projet.MinQueue.{MinQueue, minq_push, minq_pop, minq_peek, minq_empty}

abbrev pub max_pkt_len : ℕ
max_pkt_len = 520

-- `struct timeval`
pub record Timeval : Type 0 where
  pub tv_sec : ℤ
  pub tv_usec : ℤ

-- The equality of two integers as the C code tests it.
abbrev pub eqb_ℤ : ℤ → ℤ → Bool
eqb_ℤ a b = not (ltb_ℤ a b) && not (ltb_ℤ b a)

unfoldable pub timeval_cmp : Timeval → Timeval → Bool
timeval_cmp left right =
    if eqb_ℤ left.tv_sec right.tv_sec
    then ltb_ℤ right.tv_usec left.tv_usec
    else ltb_ℤ right.tv_sec left.tv_sec

-- `if (--c->tv_sec)` tests the seconds after the decrement.
unfoldable pub timeval_diff : Timeval → Timeval → Timeval
timeval_diff a b =
    let sec = a.tv_sec -ℤ b.tv_sec in
    let usec = a.tv_usec -ℤ b.tv_usec in
    let less = sec -ℤ pos 1 in
    if ltb_ℤ usec (pos 0)
    then (if not (eqb_ℤ less (pos 0))
        then record { tv_sec = less; tv_usec = usec +ℤ pos 1000000 }
        else record { tv_sec = less; tv_usec = usec })
    else record { tv_sec = sec; tv_usec = usec }

-- `struct pkt_slot`
pub record PktSlot : Type 0 where
  pub ts : Timeval
  pub size : ℕ
  pub buf : List ℕ

unfoldable pub pkt_slot_cmp : PktSlot → PktSlot → Bool
pkt_slot_cmp a b = timeval_cmp a.ts b.ts

-- How a call of `sendto` ends: all bytes sent, an error after which it may be tried again, or
-- another error.
pub data Sending : Type 0 where
  sent_all retry failed : Sending

abbrev pub Queue : Type 0
Queue = Option (MinQueue PktSlot)

abbrev pub next_sending : List Sending → Sending
next_sending [] = sent_all
next_sending (s ∷ sendings) = s

abbrev pub later : List Sending → List Sending
later [] = []
later (s ∷ sendings) = sendings

-- What a call has done: whether it answers EXIT_SUCCESS, the queue, and the packets sent.
pub record Outcome : Type 0 where
  pub success : Bool
  pub pkt_queue : Queue
  pub sent : List (List ℕ)

-- `write_out`: the bytes that go out.
unfoldable pub write_out : List ℕ → ℕ → Exec (List ℕ)
write_out buf len = prefix buf len

-- `deliver_delayed_pkt`. The first argument is fuel; `sendings` says how the calls of `sendto` end,
-- and those not listed send all bytes.
unfoldable pub deliver_delayed_pkt : ℕ → List Sending → Timeval → Queue → Exec Outcome
deliver_delayed_pkt zero sendings last_clock q = no_fuel
deliver_delayed_pkt (suc k) sendings last_clock q = minq_peek q >>= λ peeked. elim peeked [
  | none ↦ ok (record { success = true; pkt_queue = q; sent = [] })
  | some p ↦
      let send_next : List ℕ → Exec Outcome = λ bytes. do
        q' ← minq_pop q
        rest ← deliver_delayed_pkt k (later sendings) last_clock q'
        ok (record rest { sent = bytes ∷ rest.sent })
      in if timeval_cmp last_clock p.ts
        then (write_out p.buf p.size >>= λ bytes. elim (next_sending sendings) [
          | sent_all ↦ send_next bytes
          | retry ↦ ok (record { success = true; pkt_queue = q; sent = [] })
          | failed ↦ ok (record { success = false; pkt_queue = q; sent = [] })
        ])
        else ok (record { success = true; pkt_queue = q; sent = [] })
]

-- `get_queue_timeout`
unfoldable pub get_queue_timeout : Timeval → Queue → Exec (Option Timeval)
get_queue_timeout last_clock q =
    if minq_empty q
    then ok none
    else (minq_peek q >>= λ peeked. elim peeked [
      | none ↦ fault
      | some p ↦
          let timeout = timeval_diff p.ts last_clock in
          if ltb_ℤ timeout.tv_sec (pos 0)
            || (eqb_ℤ timeout.tv_sec (pos 0) && not (ltb_ℤ (pos 0) timeout.tv_usec))
          then ok (some (record { tv_sec = pos 0; tv_usec = pos 1000 }))
          else ok (some timeout)
    ])

-- The settings of the simulated link.
pub record Settings : Type 0 where
  pub delay : ℕ
  pub jitter : ℕ
  pub err_rate : ℕ
  pub cut_rate : ℕ
  pub loss_rate : ℕ

-- What the environment does in a call: the allocation of a slot, its memory, the growing of the queue
-- and the sending.
pub record World : Type 0 where
  pub slot_allocated : Bool
  pub slot_memory : List ℕ
  pub realloc_succeeds : Bool
  pub queue_memory : PktSlot
  pub sending : Sending

module _ (rand : ℕ → ℕ) where
  -- `RAND_PERCENT`, in the call of `rand` with number `draw`.
  unfoldable pub rand_percent : ℕ → ℕ
  rand_percent draw = rand draw % 101

  -- `rate && RAND_PERCENT < rate`, with the number of the next call of `rand`.
  unfoldable pub happens : ℕ → ℕ → Bool × ℕ
  happens rate draw = if rate == 0 then (false, draw) else (ltb (rand_percent draw) rate, draw + 1)

  -- `rand() % jitter` divides by zero when there is no jitter.
  unfoldable pub applied_delay : Settings → ℕ → Exec ℕ
  applied_delay settings draw =
      if settings.jitter == 0
      then fault
      else let change = rand (draw + 1) % settings.jitter in
        let changed =
          if ltb 49 (rand_percent draw)
          then u32 (settings.delay + change)
          else u32 (settings.delay + 2 ^ 32 - change) in
        ok (changed % 10000)

  -- The date of a packet that is held back by `wait` milliseconds.
  unfoldable pub expiration : Timeval → ℕ → Timeval
  expiration last_clock wait = record {
    tv_sec = last_clock.tv_sec +ℤ pos (wait / 1000);
    tv_usec = last_clock.tv_usec +ℤ pos (wait % 1000 * 1000);
  }

  -- The packet enters the queue, or is forwarded when the link has no delay.
  unfoldable pub forward : Settings → World → Timeval → Queue → ℕ → List ℕ → ℕ → Exec Outcome
  forward settings world last_clock q draw buf len =
      if not (settings.delay == 0)
      then (applied_delay settings draw >>= λ wait.
          if not world.slot_allocated
          then ok (record { success = false; pkt_queue = q; sent = [] })
          else (do
            held ← copy len world.slot_memory 0 buf 0
            (result, q') ←
                minq_push world.realloc_succeeds world.queue_memory q
                  (record { ts = expiration last_clock wait; size = len; buf = held })
            ok (record { success = eqb_ℤ result (pos 0); pkt_queue = q'; sent = [] })))
      else (write_out buf len >>= λ bytes. elim world.sending [
        | sent_all ↦ ok (record { success = true; pkt_queue = q; sent = bytes ∷ [] })
        | retry ↦ ok (record { success = false; pkt_queue = q; sent = [] })
        | failed ↦ ok (record { success = false; pkt_queue = q; sent = [] })
      ])

  -- `~buf[len - 1]`
  unfoldable pub corrupt : List ℕ → ℕ → Exec (List ℕ)
  corrupt buf len = do last ← load buf (len - 1); store buf (len - 1) (255 - last)

  -- `simulate_link` for a packet of at least one byte; `draw` numbers the next call of `rand`.
  unfoldable pub simulate_link : Settings → World → Timeval → Queue → ℕ → List ℕ → ℕ → Exec Outcome
  simulate_link settings world last_clock q draw buf len =
      let (dropped, draw₁) = happens settings.loss_rate draw in
      let (cut, draw₂) = happens settings.cut_rate draw₁ in
      let (corrupted, draw₃) = happens settings.err_rate draw₂ in
      if dropped
      then ok (record { success = true; pkt_queue = q; sent = [] })
      else if cut
      then forward settings world last_clock q draw₂ buf 4
      else if corrupted
      then (corrupt buf len >>= λ buf'. forward settings world last_clock q draw₃ buf' len)
      else forward settings world last_clock q draw₃ buf len
